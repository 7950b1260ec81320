-- ===== src/Netsim/Examples.antt =====
-- The network-simulation theorems on three environments.
use oaa_s_io_t.Prelude.{any_of, ◌≡◌, refl, List, [], ◌∷◌, true, not, ◌&&◌, ◌||◌, none, some}
use oaa_s_io_t.Std.Bytes.{Bytes, bytes_ord}
use oaa_s_io_t.Std.Order.{key_eq}
use oaa_s_io_t.Std.Pairs.{names_ord}
use oaa_s_io_t.Std.BTreeMap
use oaa_s_io_t.Netsim.{LinkState, link_key, new, is_active, partition_link, partition_env, heal_all}
use oaa_s_io_t.Netsim.Environments.{NetCall, partition_call, heal_all_call, run}
use oaa_s_io_t.Netsim.Isolation.{partition_env_lem, ends_at}

abbrev edge : Bytes
edge = b'e' ∷ []

abbrev fog : Bytes
fog = b'f' ∷ []

abbrev cloud : Bytes
cloud = b'c' ∷ []

abbrev names : List Bytes
names = edge ∷ fog ∷ cloud ∷ []

abbrev edge_fog : LinkState
edge_fog = record { env_a = edge; env_b = fog; connected = true; latency_ms = 0 }

edge_fog-get : BTreeMap.get (new names).links (link_key edge fog) ≡ some edge_fog
unfolding BTreeMap.get BTreeMap.insert new names_ord bytes_ord
edge_fog-get = refl

abbrev calls : List NetCall
calls = partition_call edge fog none ∷ heal_all_call ∷ []

edge-registered : any_of (λ name. key_eq name edge) (run (new names) calls).env_names ≡ true
unfolding BTreeMap.get BTreeMap.insert new partition_link heal_all names_ord bytes_ord
edge-registered = refl

partition_env_lem_example : is_active (partition_env (run (new names) calls) edge).0 cloud fog ≡ (
    key_eq cloud fog
    || (is_active (run (new names) calls) cloud fog && not (ends_at edge cloud fog)))
partition_env_lem_example = partition_env_lem names calls edge cloud fog edge-registered

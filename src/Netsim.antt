-- ===== src/Netsim.antt =====
-- The pairwise network simulation: commons/oprc-netsim/src/state.rs and src/types.rs. The `HashMap`
-- of links is a map in the order of its keys: the code sorts what it lists. A handler gives the new
-- state and the response; the response's fixed `action` text is left out.
pub mod Links
pub mod Environments
pub mod Isolation
mod Examples
use oaa_s_io_t.Prelude.{
  ℕ, List, [], ◌∷◌, Bool, true, false, not, ◌&&◌, ◌||◌, Option, none, some, if◌then◌else◌, any_of,
  map,
}
use oaa_s_io_t.Std.Bytes.{Bytes, bytes_ord}
use oaa_s_io_t.Std.Order.{key_eq, key_le}
use oaa_s_io_t.Std.Pairs.{names_ord}
use oaa_s_io_t.Std.BTreeMap
use oaa_s_io_t.Std.BTreeMap.{BTreeMap}

pub record LinkState : Type 0 where
  pub env_a : Bytes
  pub env_b : Bytes
  pub connected : Bool
  pub latency_ms : ℕ

abbrev pub Links : Type 0
Links = BTreeMap (Bytes × Bytes) LinkState

pub record NetworkSimState : Type 0 where
  pub env_names : List Bytes
  pub links : Links

unfoldable pub link_key : Bytes → Bytes → Bytes × Bytes
link_key a b = if key_le a b then (a, b) else (b, a)

-- The inner loop of `new`: the links of one environment to those after it.
unfoldable pub add_links : Bytes → List Bytes → Links → Links
unfolding link_key
add_links a [] links = links
add_links a (b ∷ others) links = add_links a others (
    BTreeMap.insert links (link_key a b)
      (record { env_a = a; env_b = b; connected = true; latency_ms = 0 }))

unfoldable pub all_links : List Bytes → Links → Links
unfolding add_links
all_links [] links = links
all_links (a ∷ others) links = all_links others (add_links a others links)

unfoldable pub new : List Bytes → NetworkSimState
unfolding all_links
new env_names = record { env_names = env_names; links = all_links env_names [] }

abbrev pub link_connected : Option LinkState → Bool
link_connected none = false
link_connected (some link) = link.connected

abbrev pub link_latency : Option LinkState → ℕ
link_latency none = 0
link_latency (some link) = if link.connected then link.latency_ms else 0

unfoldable pub is_active : NetworkSimState → Bytes → Bytes → Bool
unfolding link_key
is_active s a b = if key_eq a b then true else link_connected (BTreeMap.get s.links (link_key a b))

unfoldable pub latency_ms : NetworkSimState → Bytes → Bytes → ℕ
unfolding link_key
latency_ms s a b = if key_eq a b then 0 else link_latency (BTreeMap.get s.links (link_key a b))

-- `Result<Json<...>, StatusCode>`
pub data Response {ℓ} (A : Type ℓ) : Type ℓ where
  json : A → Response A
  status_not_found : Response A

pub record LinkActionResponse : Type 0 where
  pub env_a : Bytes
  pub env_b : Bytes
  pub connected : Bool
  pub latency_ms : ℕ

-- `get_mut`, a change of the entry, and the response with what it then holds.
abbrev pub update_found :
    NetworkSimState
    → Bytes
    → Bytes
    → (LinkState → LinkState)
    → Option LinkState
    → NetworkSimState × Response LinkActionResponse
update_found s a b change none = (s, status_not_found)
update_found s a b change (some link) = (
  record s { links = BTreeMap.insert s.links (link_key a b) (change link) },
  json (record {
    env_a = a;
    env_b = b;
    connected = (change link).connected;
    latency_ms = (change link).latency_ms;
  }),
)

unfoldable pub update_link :
    NetworkSimState
    → Bytes
    → Bytes
    → (LinkState → LinkState)
    → NetworkSimState × Response LinkActionResponse
unfolding link_key
update_link s a b change = update_found s a b change (BTreeMap.get s.links (link_key a b))

-- The body is optional, and so is the latency in it.
abbrev pub partitioned : Option (Option ℕ) → LinkState → LinkState
partitioned none link = record link { connected = false }
partitioned (some none) link = record link { connected = false; latency_ms = 0 }
partitioned (some (some ms)) link = record link { connected = false; latency_ms = ms }

abbrev pub healed : LinkState → LinkState
healed link = record link { connected = true; latency_ms = 0 }

unfoldable pub partition_link :
    NetworkSimState
    → Bytes
    → Bytes
    → Option (Option ℕ)
    → NetworkSimState × Response LinkActionResponse
unfolding update_link
partition_link s a b body = update_link s a b (partitioned body)

unfoldable pub heal_link :
    NetworkSimState → Bytes → Bytes → NetworkSimState × Response LinkActionResponse
unfolding update_link
heal_link s a b = update_link s a b healed

unfoldable pub set_link_latency :
    NetworkSimState → Bytes → Bytes → ℕ → NetworkSimState × Response LinkActionResponse
unfolding update_link
set_link_latency s a b ms = update_link s a b (λ link. record link { latency_ms = ms })

-- `values_mut`
unfoldable pub map_values : (LinkState → LinkState) → Links → Links
map_values change [] = []
map_values change ((key, link) ∷ links) = (key, change link) ∷ map_values change links

abbrev pub touches : Bytes → LinkState → Bool
touches env link = key_eq link.env_a env || key_eq link.env_b env

abbrev pub at_env : Bytes → (LinkState → LinkState) → LinkState → LinkState
at_env env change link = if touches env link then change link else link

-- The `BTreeSet` of the other ends.
unfoldable pub affected : Bytes → Links → BTreeMap Bytes (Unit {0})
affected env [] = []
affected env ((key, link) ∷ links) =
    let rest = affected env links in
    if touches env link
    then BTreeMap.insert rest (if key_eq link.env_a env then link.env_b else link.env_a) tt
    else rest

unfoldable pub change_env :
    NetworkSimState → Bytes → (LinkState → LinkState) → NetworkSimState × Response (List Bytes)
unfolding map_values affected
change_env s env change =
    if any_of (λ name. key_eq name env) s.env_names
    then (
      record s { links = map_values (at_env env change) s.links },
      json (map (λ e. e.0) (affected env s.links)),
    )
    else (s, status_not_found)

unfoldable pub partition_env : NetworkSimState → Bytes → NetworkSimState × Response (List Bytes)
unfolding change_env
partition_env s env = change_env s env (λ link. record link { connected = false })

unfoldable pub heal_env : NetworkSimState → Bytes → NetworkSimState × Response (List Bytes)
unfolding change_env
heal_env s env = change_env s env healed

unfoldable pub partition_all : NetworkSimState → NetworkSimState × List Bytes
unfolding map_values
partition_all s = (
  record s { links = map_values (λ link. record link { connected = false }) s.links },
  s.env_names,
)

unfoldable pub heal_all : NetworkSimState → NetworkSimState × List Bytes
unfolding map_values
heal_all s = (record s { links = map_values healed s.links }, s.env_names)

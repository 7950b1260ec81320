-- ===== src/Netsim/Environments.antt =====
-- Whole environments of commons/oprc-netsim/src/state.rs: cutting one off, and healing it.
use oaa_s_io_t.Prelude.{
  ℕ, ◌≡◌, inl, inr, refl, List, [], ◌∷◌, Option, none, some, arith, All, any_of, Option-cases,
  Bool-cases,
}
use oaa_s_io_t.Std.Bytes.{Bytes, bytes_ord}
use oaa_s_io_t.Std.Order.{key_eq, cmp_distinct}
use oaa_s_io_t.Std.Pairs.{names_ord}
use oaa_s_io_t.Std.BTreeMap
use oaa_s_io_t.Netsim.{
  LinkState, Links, NetworkSimState, link_key, add_links, all_links, new, update_link, partitioned,
  healed, partition_link, heal_link, set_link_latency, map_values, touches, at_env, change_env,
  partition_env, heal_env, partition_all, heal_all,
}
use oaa_s_io_t.Netsim.Links.{update_some, update_none}

-- Every link stands under the key of its two environments.
abbrev pub IsKeyed : Links → Type 0
IsKeyed links = All (λ e. e.0 ≡ link_key e.1.env_a e.1.env_b) links

-- A change that keeps the ends of a link.
abbrev KeepsEnds : (LinkState → LinkState) → Type 0
KeepsEnds change =
    (link : LinkState) → ((change link).env_a ≡ link.env_a) × ((change link).env_b ≡ link.env_b)

pub get-IsKeyed :
    (links : Links) (key : Bytes × Bytes) (link : LinkState)
    → IsKeyed links
    → BTreeMap.get links key ≡ some link
    → key ≡ link_key link.env_a link.env_b
unfolding BTreeMap.get
get-IsKeyed [] key link h e = ground arith
get-IsKeyed ((j, l) ∷ links) key link h e =
    ground (arith, get-IsKeyed links key link h.1, h.0, cmp_distinct key j)

insert-IsKeyed :
    (links : Links) (key : Bytes × Bytes) (link : LinkState)
    → IsKeyed links
    → key ≡ link_key link.env_a link.env_b
    → IsKeyed (BTreeMap.insert links key link)
unfolding BTreeMap.insert
insert-IsKeyed [] key link h e = (e, tt)
insert-IsKeyed ((j, l) ∷ links) key link h e = ground (arith, insert-IsKeyed links key link h.1 e)

map_values-IsKeyed :
    (change : LinkState → LinkState) (links : Links)
    → KeepsEnds change
    → IsKeyed links
    → IsKeyed (map_values change links)
unfolding map_values
map_values-IsKeyed change [] keeps h = tt
map_values-IsKeyed change ((key, link) ∷ links) keeps h =
    (rw ((keeps link).0, (keeps link).1) h.0, map_values-IsKeyed change links keeps h.1)

update_link-IsKeyed :
    (s : NetworkSimState) (a b : Bytes) (change : LinkState → LinkState)
    → KeepsEnds change
    → IsKeyed s.links
    → IsKeyed (update_link s a b change).0.links
update_link-IsKeyed s a b change keeps h =
    elim (Option-cases (BTreeMap.get s.links (link_key a b))) [
      | inl e ↦ rw (update_none s a b change e) h
      | inr (link, e) ↦ rw (update_some s a b change link e) (
          insert-IsKeyed s.links (link_key a b) (change link) h
            (rw ((keeps link).0, (keeps link).1) (get-IsKeyed s.links (link_key a b) link h e)))
    ]

partitioned-KeepsEnds : (body : Option (Option ℕ)) → KeepsEnds (partitioned body)
partitioned-KeepsEnds none link = (refl, refl)
partitioned-KeepsEnds (some none) link = (refl, refl)
partitioned-KeepsEnds (some (some ms)) link = (refl, refl)

at_env-KeepsEnds :
    (env : Bytes) (change : LinkState → LinkState)
    → KeepsEnds change
    → KeepsEnds (at_env env change)
at_env-KeepsEnds env change keeps link = elim (Bool-cases (touches env link)) [
  | inl e ↦ rw e (keeps link)
  | inr e ↦ rw e (refl, refl)
]

change_env-IsKeyed :
    (s : NetworkSimState) (env : Bytes) (change : LinkState → LinkState)
    → KeepsEnds change
    → IsKeyed s.links
    → IsKeyed (change_env s env change).0.links
unfolding change_env
change_env-IsKeyed s env change keeps h =
    elim (Bool-cases (any_of (λ name. key_eq name env) s.env_names)) [
      | inl e ↦
          rw e
            (map_values-IsKeyed (at_env env change) s.links (at_env-KeepsEnds env change keeps) h)
      | inr e ↦ rw e h
    ]

add_links-IsKeyed :
    (a : Bytes) (others : List Bytes) (links : Links)
    → IsKeyed links
    → IsKeyed (add_links a others links)
unfolding add_links
add_links-IsKeyed a [] links h = h
add_links-IsKeyed a (b ∷ others) links h =
    add_links-IsKeyed a others _ (insert-IsKeyed links (link_key a b) _ h refl)

all_links-IsKeyed :
    (names : List Bytes) (links : Links) → IsKeyed links → IsKeyed (all_links names links)
unfolding all_links
all_links-IsKeyed [] links h = h
all_links-IsKeyed (a ∷ names) links h =
    all_links-IsKeyed names _ (add_links-IsKeyed a names links h)

-- A call of a handler.
pub data NetCall : Type 0 where
  partition_call : Bytes → Bytes → Option (Option ℕ) → NetCall
  heal_call : Bytes → Bytes → NetCall
  latency_call : Bytes → Bytes → ℕ → NetCall
  partition_env_call heal_env_call : Bytes → NetCall
  partition_all_call heal_all_call : NetCall

abbrev pub step : NetworkSimState → NetCall → NetworkSimState
step s (partition_call a b body) = (partition_link s a b body).0
step s (heal_call a b) = (heal_link s a b).0
step s (latency_call a b ms) = (set_link_latency s a b ms).0
step s (partition_env_call env) = (partition_env s env).0
step s (heal_env_call env) = (heal_env s env).0
step s partition_all_call = (partition_all s).0
step s heal_all_call = (heal_all s).0

abbrev pub run : NetworkSimState → List NetCall → NetworkSimState
run s [] = s
run s (c ∷ calls) = run (step s c) calls

step-IsKeyed : (s : NetworkSimState) (c : NetCall) → IsKeyed s.links → IsKeyed (step s c).links
unfolding partition_link heal_link set_link_latency partition_env heal_env partition_all heal_all
step-IsKeyed s (partition_call a b body) h =
    update_link-IsKeyed s a b (partitioned body) (partitioned-KeepsEnds body) h
step-IsKeyed s (heal_call a b) h = update_link-IsKeyed s a b healed (λ link. (refl, refl)) h
step-IsKeyed s (latency_call a b ms) h = update_link-IsKeyed s a b _ (λ link. (refl, refl)) h
step-IsKeyed s (partition_env_call env) h = change_env-IsKeyed s env _ (λ link. (refl, refl)) h
step-IsKeyed s (heal_env_call env) h = change_env-IsKeyed s env healed (λ link. (refl, refl)) h
step-IsKeyed s partition_all_call h = map_values-IsKeyed _ s.links (λ link. (refl, refl)) h
step-IsKeyed s heal_all_call h = map_values-IsKeyed healed s.links (λ link. (refl, refl)) h

pub run-IsKeyed :
    (s : NetworkSimState) (calls : List NetCall) → IsKeyed s.links → IsKeyed (run s calls).links
run-IsKeyed s [] h = h
run-IsKeyed s (c ∷ calls) h = run-IsKeyed (step s c) calls (step-IsKeyed s c h)

pub new-IsKeyed : (names : List Bytes) → IsKeyed (new names).links
unfolding new
new-IsKeyed names = all_links-IsKeyed names [] tt

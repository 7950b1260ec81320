-- ===== src/Netsim/Isolation.antt =====
-- What cutting off and healing an environment does to each pair: commons/oprc-netsim/src/state.rs.
use oaa_s_io_t.Prelude.{
  ◌≡◌, inl, inr, refl, ◌∙◌, List, [], ◌∷◌, Bool, true, false, not, ◌&&◌, ◌||◌, Option, none, some,
  if◌then◌else◌, arith, any_of, Option-cases,
}
use oaa_s_io_t.Std.Bytes.{Bytes, bytes_ord}
use oaa_s_io_t.Std.Order.{key_eq}
use oaa_s_io_t.Std.Pairs.{names_ord}
use oaa_s_io_t.Std.BTreeMap
use oaa_s_io_t.Netsim.{
  LinkState, Links, NetworkSimState, link_key, new, link_connected, is_active, healed, map_values,
  touches, at_env, change_env, partition_env, heal_env,
}
use oaa_s_io_t.Netsim.Links.{link_key_ends}
use oaa_s_io_t.Netsim.Environments.{IsKeyed, get-IsKeyed, NetCall, run, run-IsKeyed, new-IsKeyed}

abbrev changed : (LinkState → LinkState) → Option LinkState → Option LinkState
changed change none = none
changed change (some link) = some (change link)

get-map_values :
    (change : LinkState → LinkState) (links : Links) (key : Bytes × Bytes)
    → BTreeMap.get (map_values change links) key ≡ changed change (BTreeMap.get links key)
unfolding map_values BTreeMap.get
get-map_values change [] key = refl
get-map_values change ((j, link) ∷ links) key = ground (arith, get-map_values change links key)

abbrev pub ends_at : Bytes → Bytes → Bytes → Bool
ends_at env a b = key_eq a env || key_eq b env

abbrev pub is_some_link : Option LinkState → Bool
is_some_link none = false
is_some_link (some link) = true

-- A stored link touches an environment exactly where one of the pair that it is stored for is it.
touches_pair :
    (links : Links) (a b env : Bytes) (link : LinkState)
    → IsKeyed links
    → BTreeMap.get links (link_key a b) ≡ some link
    → touches env link ≡ ends_at env a b
touches_pair links a b env link h e =
    elim (link_key_ends a b link.env_a link.env_b (get-IsKeyed links (link_key a b) link h e)) [
      | inl same ↦ rw (same.0, same.1) refl
      | inr same ↦ rw (same.0, same.1) (ground arith)
    ]

module _ (s : NetworkSimState) (env : Bytes) (change : LinkState → LinkState)
    (registered : any_of (λ name. key_eq name env) s.env_names ≡ true)
    (keyed : IsKeyed s.links) where
  env_link :
      (a b : Bytes)
      → BTreeMap.get (change_env s env change).0.links (link_key a b) ≡ (
          if ends_at env a b
          then changed change (BTreeMap.get s.links (link_key a b))
          else BTreeMap.get s.links (link_key a b))
  unfolding change_env
  env_link a b = elim (Option-cases (BTreeMap.get s.links (link_key a b))) [
    | inl e ↦
        rw (registered, get-map_values (at_env env change) s.links (link_key a b), e) (ground arith)
    | inr (link, e) ↦
        rw
          (
            registered,
            get-map_values (at_env env change) s.links (link_key a b),
            e,
            touches_pair s.links a b env link keyed e,
          )
          (ground arith)
  ]

-- What a change of the links at an environment does to a pair.
active_changed :
    (s t : NetworkSimState) (a b : Bytes) (at : Bool) (change : LinkState → LinkState)
    → BTreeMap.get t.links (link_key a b) ≡ (
        if at
        then changed change (BTreeMap.get s.links (link_key a b))
        else BTreeMap.get s.links (link_key a b))
    → is_active t a b ≡ (
        key_eq a b
        || (if at
            then link_connected (changed change (BTreeMap.get s.links (link_key a b)))
            else is_active s a b))
unfolding is_active
active_changed s t a b true change e = rw e (ground arith)
active_changed s t a b false change e = rw e (ground arith)

cut_connected :
    (o : Option LinkState)
    → link_connected (changed (λ link. record link { connected = false }) o) ≡ false
cut_connected none = refl
cut_connected (some link) = refl

healed_connected : (o : Option LinkState) → link_connected (changed healed o) ≡ is_some_link o
healed_connected none = refl
healed_connected (some link) = refl

if-and-not : (e t o : Bool) → (e || (if t then false else o)) ≡ (e || (o && not t))
if-and-not e t o = ground arith

module _ (names : List Bytes) (calls : List NetCall) (env a b : Bytes)
    (registered : any_of (λ name. key_eq name env) (run (new names) calls).env_names ≡ true) where
  abbrev now : NetworkSimState
  now = run (new names) calls

  now-IsKeyed : IsKeyed now.links
  now-IsKeyed = run-IsKeyed (new names) calls (new-IsKeyed names)

  -- At any time, cutting off a registered environment makes inactive exactly the links at it: every
  -- other pair is active afterwards if it was before, and an environment always reaches itself.
  pub partition_env_lem :
      is_active (partition_env now env).0 a b
      ≡ (key_eq a b || (is_active now a b && not (ends_at env a b)))
  unfolding partition_env
  partition_env_lem =
      let cut : LinkState → LinkState = λ link. record link { connected = false } in
      active_changed now (change_env now env cut).0 a b (ends_at env a b) cut
        (env_link now env cut registered now-IsKeyed a b)
      ∙ rw (cut_connected (BTreeMap.get now.links (link_key a b)))
          (if-and-not (key_eq a b) (ends_at env a b) (is_active now a b))

  -- Healing it makes active exactly the links at it that exist, and changes no other pair.
  pub heal_env_lem : is_active (heal_env now env).0 a b ≡ (
      key_eq a b
      || (if ends_at env a b
          then is_some_link (BTreeMap.get now.links (link_key a b))
          else is_active now a b))
  unfolding heal_env
  heal_env_lem =
      active_changed now (change_env now env healed).0 a b (ends_at env a b) healed
        (env_link now env healed registered now-IsKeyed a b)
      ∙ rw (healed_connected (BTreeMap.get now.links (link_key a b))) refl

-- ===== src/Netsim/Links.antt =====
-- Single links of commons/oprc-netsim/src/state.rs.
use oaa_s_io_t.Prelude.{
  ℕ, ◌≡◌, ◌≢◌, ◌⊎◌, inl, inr, refl, ap, ◌∙◌, sym, true, false, Option, none, some, if◌then◌else◌,
  arith, Option-cases,
}
use oaa_s_io_t.Std.Bytes.{Bytes, bytes_ord}
use oaa_s_io_t.Std.Order.{key_eq, key_eq_refl, key_eq_sym, key_eq-ne, cmp_distinct}
use oaa_s_io_t.Std.Pairs.{names_ord}
use oaa_s_io_t.Std.BTreeMap
use oaa_s_io_t.Std.BTreeMap.Laws.{get-insert}
use oaa_s_io_t.Netsim.{
  LinkState, NetworkSimState, link_key, is_active, latency_ms, update_link, partitioned, healed,
  partition_link, heal_link, set_link_latency,
}

pub link_key_sym : (a b : Bytes) → link_key a b ≡ link_key b a
unfolding link_key
link_key_sym a b = ground (arith, bytes_ord.total.turns a b, cmp_distinct a b, cmp_distinct b a)

-- A key names its two environments.
pub link_key_ends :
    (a b c d : Bytes) → link_key a b ≡ link_key c d → ((a ≡ c) × (b ≡ d)) ⊎ ((a ≡ d) × (b ≡ c))
unfolding link_key
link_key_ends a b c d h =
    ground (arith, ap (λ (p : Bytes × Bytes). p.0) h, ap (λ (p : Bytes × Bytes). p.1) h)

abbrev updated : NetworkSimState → Bytes × Bytes → LinkState → NetworkSimState
updated s key link = record s { links = BTreeMap.insert s.links key link }

pub update_some :
    (s : NetworkSimState) (a b : Bytes) (change : LinkState → LinkState) (link : LinkState)
    → BTreeMap.get s.links (link_key a b) ≡ some link
    → (update_link s a b change).0 ≡ updated s (link_key a b) (change link)
unfolding update_link
update_some s a b change link e = rw e refl

pub update_none :
    (s : NetworkSimState) (a b : Bytes) (change : LinkState → LinkState)
    → BTreeMap.get s.links (link_key a b) ≡ none
    → (update_link s a b change).0 ≡ s
unfolding update_link
update_none s a b change e = rw e refl

update_sym :
    (s : NetworkSimState) (a b : Bytes) (change : LinkState → LinkState)
    → (update_link s a b change).0 ≡ (update_link s b a change).0
update_sym s a b change = elim (Option-cases (BTreeMap.get s.links (link_key a b))) [
  | inl e ↦ update_none s a b change e ∙ sym (update_none s b a change (rw (link_key_sym b a) e))
  | inr (link, e) ↦
      update_some s a b change link e
      ∙ ap (λ (key : Bytes × Bytes). updated s key (change link)) (link_key_sym a b)
      ∙ sym (update_some s b a change link (rw (link_key_sym b a) e))
]

-- It makes no difference in which order the two ends of a link are given, for what is asked of it and
-- for what is done to it.
pub link_symmetric :
    (s : NetworkSimState) (a b : Bytes) (body : Option (Option ℕ)) (ms : ℕ)
    → (is_active s a b ≡ is_active s b a)
      × (latency_ms s a b ≡ latency_ms s b a)
      × ((partition_link s a b body).0 ≡ (partition_link s b a body).0)
      × ((heal_link s a b).0 ≡ (heal_link s b a).0)
      × ((set_link_latency s a b ms).0 ≡ (set_link_latency s b a ms).0)
unfolding is_active latency_ms partition_link heal_link set_link_latency
link_symmetric s a b body ms = (
  rw (link_key_sym a b, key_eq_sym a b) refl,
  rw (link_key_sym a b, key_eq_sym a b) refl,
  update_sym s a b (partitioned body),
  update_sym s a b healed,
  update_sym s a b (λ link. record link { latency_ms = ms }),
)

-- A link that exists, and its change.
pub update_link_lem :
    (s : NetworkSimState) (a b : Bytes) (change : LinkState → LinkState) (link : LinkState)
    (k : Bytes × Bytes)
    → BTreeMap.get s.links (link_key a b) ≡ some link
    → BTreeMap.get (update_link s a b change).0.links k
      ≡ (if key_eq (link_key a b) k then some (change link) else BTreeMap.get s.links k)
update_link_lem s a b change link k e =
    rw (update_some s a b change link e) (get-insert s.links (link_key a b) k (change link))

update_self :
    (s : NetworkSimState) (a b : Bytes) (change : LinkState → LinkState) (link : LinkState)
    → BTreeMap.get s.links (link_key a b) ≡ some link
    → BTreeMap.get (update_link s a b change).0.links (link_key a b) ≡ some (change link)
update_self s a b change link e =
    update_link_lem s a b change link (link_key a b) e ∙ rw (key_eq_refl (link_key a b)) refl

partitioned-connected :
    (body : Option (Option ℕ)) (link : LinkState) → (partitioned body link).connected ≡ false
partitioned-connected none link = refl
partitioned-connected (some none) link = refl
partitioned-connected (some (some ms)) link = refl

module _ (s : NetworkSimState) (a b c d : Bytes) (body : Option (Option ℕ)) (link : LinkState)
    (e : BTreeMap.get s.links (link_key a b) ≡ some link) where
  abbrev cut : NetworkSimState
  cut = (partition_link s a b body).0

  abbrev mended : NetworkSimState
  mended = (heal_link cut a b).0

  cut_link : BTreeMap.get cut.links (link_key a b) ≡ some (partitioned body link)
  unfolding partition_link
  cut_link = update_self s a b (partitioned body) link e

  mended_link : BTreeMap.get mended.links (link_key a b) ≡ some (healed (partitioned body link))
  unfolding heal_link
  mended_link = update_self cut a b healed (partitioned body link) cut_link

  mended_other :
      link_key a b ≢ link_key c d
      → BTreeMap.get mended.links (link_key c d) ≡ BTreeMap.get s.links (link_key c d)
  unfolding heal_link partition_link
  mended_other other =
      let apart = key_eq-ne (link_key a b) (link_key c d) other in
      update_link_lem cut a b healed (partitioned body link) (link_key c d) cut_link
      ∙ rw apart (update_link_lem s a b (partitioned body) link (link_key c d) e ∙ rw apart refl)

  -- Partitioning a link that exists makes it inactive, with no latency; healing it then makes it
  -- active, with no latency; and both together change nothing that is asked of another pair of
  -- environments.
  pub partition_heal_lem :
      key_eq a b ≡ false
      → link_key a b ≢ link_key c d
      → (is_active cut a b ≡ false)
        × (latency_ms cut a b ≡ 0)
        × (is_active mended a b ≡ true)
        × (latency_ms mended a b ≡ 0)
        × (is_active mended c d ≡ is_active s c d)
        × (latency_ms mended c d ≡ latency_ms s c d)
  unfolding is_active latency_ms
  partition_heal_lem ne other = (
    rw (ne, cut_link, partitioned-connected body link) refl,
    rw (ne, cut_link, partitioned-connected body link) refl,
    rw (ne, mended_link) refl,
    rw (ne, mended_link) refl,
    rw (mended_other other) refl,
    rw (mended_other other) refl,
  )

-- ===== src/Odgm/Replication/Mst/Exchange.antt =====
-- Two replicas that exchange their values, under the merge function of
-- data-plane/oprc-odgm/src/replication/mst/config.rs: the last writer wins.
use oaa_s_io_t.Prelude.{
  ℕ, ◌≡◌, refl, sym, ap, ◌∙◌, ◌==◌, List, true, false, Option, none, some, arith, ltb,
  if◌then◌else◌, Bool-cases, inl, inr,
}
use oaa_s_io_t.Std.Bytes.{Bytes, bytes_ord}
use oaa_s_io_t.Storage.Contract.{IsReliable}
use oaa_s_io_t.Odgm.Fallible.{done}
use oaa_s_io_t.Odgm.Replication.Mst.{Setting, MstReplicationLayer, GenericNetworkPage, lww, get_raw}
use oaa_s_io_t.Odgm.Replication.Mst.Reads.{Encodes, IsReplica}
use oaa_s_io_t.Odgm.Replication.Mst.Merging.{joined_if}
use oaa_s_io_t.Odgm.Replication.Mst.Pages.{in_pages}
use oaa_s_io_t.Odgm.Replication.Mst.Peer.{numbered, peer, read_after}
use oaa_s_io_t.Odgm.Replication.Mst.Sync.{pages_to_load, handle_page_update}

-- The value that wins: the one with the greater timestamp.
abbrev pub latest : {T : Type 0} → (T → ℕ) → Option T → Option T → Option T
latest timestamp none y = y
latest timestamp (some a) none = some a
latest timestamp (some a) (some b) = if ltb (timestamp a) (timestamp b) then some b else some a

pick-latest :
    {T : Type 0} (timestamp : T → ℕ) (a b : T) (i : ℕ)
    → (timestamp a ≡ timestamp b → a ≡ b)
    → some (lww timestamp a b i) ≡ latest timestamp (some a) (some b)
pick-latest timestamp a b i same = elim (Bool-cases (timestamp a == timestamp b)) [
  | inl tie ↦ rw (same (ground (arith, tie))) (ground arith)
  | inr other ↦ ground (arith, other)
]

-- A value merged with a remote one, under `simple_lww`, is the later of the two.
joined-latest :
    (c : Setting) (x y : Option c.T)
    → ((a b : c.T) (n : ℕ) → c.config.merge_function a b n ≡ lww c.config.extract_timestamp a b n)
    → ((a b : c.T)
        → x ≡ some a
        → y ≡ some b
        → c.config.extract_timestamp a ≡ c.config.extract_timestamp b
        → a ≡ b)
    → joined_if c x y ≡ latest c.config.extract_timestamp x y
joined-latest c none none merges ties = refl
joined-latest c none (some b) merges ties = refl
joined-latest c (some a) none merges ties = refl
joined-latest c (some a) (some b) merges ties =
    ap some (merges a b c.shard_id)
    ∙ pick-latest c.config.extract_timestamp a b c.shard_id (ties a b refl refl)

latest-turned :
    {T : Type 0} (timestamp : T → ℕ) (x y : Option T)
    → ((a b : T) → x ≡ some a → y ≡ some b → timestamp a ≡ timestamp b → a ≡ b)
    → latest timestamp y x ≡ latest timestamp x y
latest-turned timestamp none none ties = refl
latest-turned timestamp none (some b) ties = refl
latest-turned timestamp (some a) none ties = refl
latest-turned timestamp (some a) (some b) ties = elim (Bool-cases (timestamp a == timestamp b)) [
  | inl tie ↦ rw (ties a b refl refl (ground (arith, tie))) refl
  | inr other ↦ ground (arith, other)
]

-- The two replicas after each has heard of the pages of the other.
abbrev pub first_after :
    (c : Setting) (j : ℕ)
    → List GenericNetworkPage
    → MstReplicationLayer c
    → MstReplicationLayer (numbered c j)
    → MstReplicationLayer c
first_after c j pages s t = (handle_page_update c (peer c j t) j pages s).0

abbrev pub second_after :
    (c : Setting) (j : ℕ)
    → List GenericNetworkPage
    → MstReplicationLayer c
    → MstReplicationLayer (numbered c j)
    → MstReplicationLayer (numbered c j)
second_after c j pages s t = first_after (numbered c j) c.shard_id pages t s

-- Two replicas without a dispatcher, with different numbers, that both load the pages with the key.
pub record Exchange (c : Setting) (j : ℕ) (h : IsReliable c.storage)
    (pages_t pages_s : List GenericNetworkPage) (s : MstReplicationLayer c)
    (t : MstReplicationLayer (numbered c j)) (f g : Bytes → Option c.T) (key : Bytes) : Type 0 where
  pub first : IsReplica {c = c} h s f
  pub second : IsReplica {c = numbered c j} h t g
  pub first_quiet : s.v2_dispatcher ≡ none
  pub second_quiet : t.v2_dispatcher ≡ none
  pub apart : (j == c.shard_id) ≡ false
  pub first_loads : in_pages c (pages_to_load c s.mst pages_t) key ≡ true
  pub second_loads : in_pages c (pages_to_load c t.mst pages_s) key ≡ true

module _ (c : Setting) (j : ℕ) (h : IsReliable c.storage) (codec : Encodes c)
    (pages_t pages_s : List GenericNetworkPage) (s : MstReplicationLayer c)
    (t : MstReplicationLayer (numbered c j)) (f g : Bytes → Option c.T) (key : Bytes)
    (x : Exchange c j h pages_t pages_s s t f g key) where
  first_reads : (get_raw c key (first_after c j pages_t s t)).1 ≡ done (joined_if c (f key) (g key))
  first_reads =
      read_after c h codec j pages_t s t f g key x.first x.second x.first_quiet x.apart
        x.first_loads

  second_reads :
      (get_raw (numbered c j) key (second_after c j pages_s s t)).1
      ≡ done (joined_if (numbered c j) (g key) (f key))
  second_reads =
      read_after (numbered c j) h codec c.shard_id pages_s t s g f key x.second x.first
        x.second_quiet (ground (arith, x.apart)) x.second_loads

  -- Two replicas over storages that do not fail, without a dispatcher and with different numbers, hear of
  -- each other's pages and both load the pages with a key, each from the other as it was before.
  -- With the last-writer-wins merge, both read the same under the key afterwards, if their values
  -- there are equal where the timestamps are: the value with the greater timestamp, or the one that
  -- there is.
  pub lww_converges :
      ((a b : c.T) (n : ℕ) → c.config.merge_function a b n ≡ lww c.config.extract_timestamp a b n)
      → ((a b : c.T)
          → f key ≡ some a
          → g key ≡ some b
          → c.config.extract_timestamp a ≡ c.config.extract_timestamp b
          → a ≡ b)
      → ((get_raw c key (first_after c j pages_t s t)).1
          ≡ (get_raw (numbered c j) key (second_after c j pages_s s t)).1)
        × ((get_raw c key (first_after c j pages_t s t)).1
            ≡ done (latest c.config.extract_timestamp (f key) (g key)))
  lww_converges merges ties =
      let mine = first_reads ∙ ap done (joined-latest c (f key) (g key) merges ties) in
      let theirs =
        second_reads
        ∙ ap done (
            joined-latest (numbered c j) (g key) (f key) merges
              (λ b a p q e. sym (ties a b q p (sym e)))
            ∙ latest-turned c.config.extract_timestamp (f key) (g key) ties) in
      (mine ∙ sym theirs, mine)

-- ===== src/Odgm/MetaManager/Shards.antt =====
-- What creating a collection does to the shards that exist:
-- data-plane/oprc-odgm/src/metadata/mod.rs.
use native.Mathlib.Nat.{suc-mul}
use oaa_s_io_t.Prelude.{
  ℕ, zero, suc, ◌+◌, ◌*◌, ◌%◌, ◌≤◌, ◌<◌, ◌≡◌, ◌≢◌, refl, subst, ◌∙◌, List, [], ◌∷◌, ◌++◌, Bool,
  true, false, some, if◌then◌else◌, length, get_elem?, All, arith, Option-cases, inl, inr,
}
use oaa_s_io_t.Std.Bytes.{Bytes, bytes_ord}
use oaa_s_io_t.Std.Order.{nat_ord}
use oaa_s_io_t.Std.BTreeMap
use oaa_s_io_t.Std.BTreeMap.{BTreeMap}
use oaa_s_io_t.Std.BTreeMap.Laws.{get-insert}
use oaa_s_io_t.Storage.Stats.{u64_mod}
use oaa_s_io_t.Odgm.MetaManager.Types.{
  ShardMetadata, ShardAssignment, CreateCollectionRequest, OprcMetaManager, MetaResult, done,
  invalid_argument, unwound, ◌>>=◌,
}
use oaa_s_io_t.Odgm.MetaManager.Assign.{default_replicas, counted_ids, default_loop, first_or_panic}
use oaa_s_io_t.Odgm.MetaManager.Create.{
  replica_shard_ids, add_shards, create_loop, register, assignments_of, create_collection,
}

-- An assignment that names its shards, all from `low` on.
pub record IsFrom (low : ℕ) (a : ShardAssignment) : Type 0 where
  pub named : a.shard_ids ≢ []
  pub from : All (λ id. low ≤ id) a.shard_ids

found-IsFrom :
    (low : ℕ) (assignments : List ShardAssignment) (i : ℕ) (a : ShardAssignment)
    → All (IsFrom low) assignments
    → get_elem? assignments i ≡ some a
    → IsFrom low a
found-IsFrom low [] i a h e = absurd (ground arith)
found-IsFrom low (b ∷ assignments) zero a h e = subst (IsFrom low) (ground (arith, e)) h.0
found-IsFrom low (b ∷ assignments) (suc i) a h e = found-IsFrom low assignments i a h.1 e

-- What is true of each assignment, where there are any.
abbrev pub AllFrom : ℕ → MetaResult (List ShardAssignment) → Type 0
AllFrom low (done assignments) = All (IsFrom low) assignments
AllFrom low invalid_argument = Unit
AllFrom low unwound = Unit

-- What comes after the shards of a partition.
after_partition :
    {Settings : Type 0} {A : Type 0} (k : ℕ) (shards : BTreeMap ℕ (ShardMetadata Settings))
    (added : BTreeMap ℕ (ShardMetadata Settings) × MetaResult (Unit {0}))
    (rest : BTreeMap ℕ (ShardMetadata Settings)
      → BTreeMap ℕ (ShardMetadata Settings) × MetaResult A)
    → BTreeMap.get added.0 k ≡ BTreeMap.get shards k
    → ((t : BTreeMap ℕ (ShardMetadata Settings))
        → BTreeMap.get t k ≡ BTreeMap.get shards k
        → BTreeMap.get (rest t).0 k ≡ BTreeMap.get shards k)
    → BTreeMap.get
        (elim added.1 as (λ _. BTreeMap ℕ (ShardMetadata Settings) × MetaResult A) [
          | done _ ↦ rest added.0
          | invalid_argument ↦ (added.0, invalid_argument)
          | unwound ↦ (added.0, unwound)
        ]).0
        k
      ≡ BTreeMap.get shards k
after_partition k shards (t, done u) rest kept later = later t kept
after_partition k shards (t, invalid_argument) rest kept later = kept
after_partition k shards (t, unwound) rest kept later = kept

module _ {Settings : Type 0} (k low : ℕ) (below : k < low) where
  add_shards-get :
      (request : CreateCollectionRequest Settings) (a : ShardAssignment) (all_ids : List ℕ)
      (partition : ℕ) (ids : List ℕ) (i : ℕ) (shards : BTreeMap ℕ (ShardMetadata Settings))
      → All (λ id. low ≤ id) ids
      → BTreeMap.get (add_shards request a all_ids partition ids i shards).0 k
        ≡ BTreeMap.get shards k
  unfolding add_shards
  add_shards-get request a all_ids partition [] i shards h = refl
  add_shards-get request a all_ids partition (id ∷ ids) i shards h =
      elim (Option-cases (get_elem? a.replica (i % length a.replica))) [
        | inl e ↦ rw (e, add_shards) refl
        | inr (owner, e) ↦
            rw (e, add_shards)
              (add_shards-get request a all_ids partition ids (i + 1) _ h.1
                ∙ get-insert shards id k _
                ∙ (unfold nat_ord in ground (arith, h.0)))
      ]

  named_ids :
      (request : CreateCollectionRequest Settings) (a : ShardAssignment)
      (shards : BTreeMap ℕ (ShardMetadata Settings))
      → IsFrom low a
      → All (λ id. low ≤ id) (replica_shard_ids request a shards)
  unfolding replica_shard_ids
  named_ids request a shards h = ground (arith, h.named, h.from)

  create_loop-get :
      (request : CreateCollectionRequest Settings) (assignments : List ShardAssignment)
      (left partition : ℕ) (groups : List (List ℕ)) (shards : BTreeMap ℕ (ShardMetadata Settings))
      → All (IsFrom low) assignments
      → BTreeMap.get (create_loop request assignments left partition groups shards).0 k
        ≡ BTreeMap.get shards k
  unfolding create_loop
  create_loop-get request assignments zero partition groups shards h = refl
  create_loop-get request assignments (suc left) partition groups shards h =
      elim (Option-cases (get_elem? assignments partition)) [
        | inl e ↦ rw (e, create_loop) refl
        | inr (a, e) ↦
            let ids = replica_shard_ids request a shards in
            let kept =
              add_shards-get request a ids partition ids 0 shards
                (named_ids request a shards (found-IsFrom low assignments partition a h e)) in
            rw (e, create_loop)
              (after_partition k shards (add_shards request a ids partition ids 0 shards)
                (λ t. create_loop request assignments left (partition + 1) (groups ++ ids ∷ []) t)
                kept
                (λ t same.
                  create_loop-get request assignments left (partition + 1) (groups ++ ids ∷ []) t h
                  ∙ same))
      ]

  register-get :
      (m : OprcMetaManager Settings) (name : Bytes)
      (created : BTreeMap ℕ (ShardMetadata Settings) × MetaResult (List (List ℕ)))
      → BTreeMap.get (register m name created).0.shards k ≡ BTreeMap.get created.0 k
  register-get m name (shards, done groups) = refl
  register-get m name (shards, invalid_argument) = refl
  register-get m name (shards, unwound) = refl

  pub create-get :
      (m : OprcMetaManager Settings) (request : CreateCollectionRequest Settings)
      → AllFrom low (assignments_of m request)
      → BTreeMap.get (create_collection m request).0.shards k ≡ BTreeMap.get m.shards k
  unfolding create_collection
  create-get m request h =
      go (BTreeMap.contains_key m.collections request.name) (assignments_of m request) h
    where
      go :
          (known : Bool) (found : MetaResult (List ShardAssignment))
          → AllFrom low found
          → BTreeMap.get
              (if known
                then (m, invalid_argument)
                else elim found as (λ _. OprcMetaManager Settings × MetaResult Bytes) [
                  | done assignments ↦
                      register m request.name
                        (create_loop request assignments request.partition_count 0 [] m.shards)
                  | invalid_argument ↦ (m, invalid_argument)
                  | unwound ↦ (m, unwound)
                ]).0.shards
              k
            ≡ BTreeMap.get m.shards k
      go true found h = refl
      go false (done assignments) h =
          register-get m request.name
            (create_loop request assignments request.partition_count 0 [] m.shards)
          ∙ create_loop-get request assignments request.partition_count 0 [] m.shards h
      go false invalid_argument h = refl
      go false unwound h = refl

bind-AllFrom :
    {A : Type 0} (low : ℕ) (r : MetaResult A) (f : A → MetaResult (List ShardAssignment))
    → ((x : A) → AllFrom low (f x))
    → AllFrom low (r >>= f)
bind-AllFrom low (done x) f h = h x
bind-AllFrom low invalid_argument f h = tt
bind-AllFrom low unwound f h = tt

cons-AllFrom :
    (low : ℕ) (a : ShardAssignment) (others : MetaResult (List ShardAssignment))
    → IsFrom low a
    → AllFrom low others
    → AllFrom low (others >>= (λ rest. done (a ∷ rest)))
cons-AllFrom low a (done rest) h k = (h, k)
cons-AllFrom low a invalid_argument h k = tt
cons-AllFrom low a unwound h k = tt

counted_ids-from :
    (count counter low : ℕ)
    → low ≤ counter
    → counter + count < u64_mod
    → All (λ id. low ≤ id) (counted_ids count counter)
unfolding counted_ids
counted_ids-from zero counter low h fits = tt
counted_ids-from (suc count) counter low h fits =
    let next : (counter + 1) % u64_mod ≡ counter + 1 = omega arith in
    (h, rw next (counted_ids-from count (counter + 1) low (omega arith) (omega arith)))

-- A round of the default loop, its owners found.
abbrev default_round : List ℕ → ℕ → ℕ → ℕ → ℕ → List ℕ → MetaResult (List ShardAssignment)
default_round members replica_count left i counter replica = do
  primary ← first_or_panic (counted_ids replica_count counter)
  others ← default_loop members replica_count left (i + 1) ((counter + replica_count) % u64_mod)
  done (
      record {
        primary = some primary;
        replica = replica;
        shard_ids = counted_ids replica_count counter;
      }
      ∷ others)

pub default_loop-from :
    (members : List ℕ) (replica_count left i counter low : ℕ)
    → low ≤ counter
    → counter + left * replica_count < u64_mod
    → AllFrom low (default_loop members replica_count left i counter)
unfolding default_loop default_replicas counted_ids
default_loop-from members replica_count zero i counter low h fits = tt
default_loop-from members zero (suc left) i counter low h fits = tt
default_loop-from members (suc count) (suc left) i counter low h fits =
    let next : (counter + suc count) % u64_mod ≡ counter + suc count =
      omega (arith, suc-mul left (suc count)) in
    bind-AllFrom low (default_replicas members (suc count) i)
      (default_round members (suc count) left i counter)
      (λ replica.
        cons-AllFrom low _
          (default_loop members (suc count) left (i + 1) ((counter + suc count) % u64_mod))
          (record {
            named = ground arith;
            from =
                counted_ids-from (suc count) counter low h
                  (omega (arith, suc-mul left (suc count)));
          })
          (rw next (
            default_loop-from members (suc count) left (i + 1) (counter + suc count) low
              (omega arith) (omega (arith, suc-mul left (suc count))))))

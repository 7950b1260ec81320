-- ===== src/Odgm/RaftLog/Image.antt =====
-- The stored form of a log: each entry's JSON under its big-endian index.
use oaa_s_io_t.Prelude.{
  ℕ, ◌<◌, ◌≡◌, refl, List, [], ◌∷◌, ◌++◌, Bool, leb, ltb, ◌&&◌, Option, none, some, filter, arith,
  compare,
}
use oaa_s_io_t.Std.Bytes.{Bytes, bytes_ord, compare_bytes}
use oaa_s_io_t.Std.Bytes.Words.{compare-to_be_bytes, from-to_be_bytes, length-to_be_bytes}
use oaa_s_io_t.Std.BTreeMap.{
  included, excluded, above, below, insert, range, retain_keys, last_key_value,
}
use oaa_s_io_t.Storage.Stats.{u64_mod}
use oaa_s_io_t.Storage.Contract.{Entries}
use oaa_s_io_t.Odgm.RaftLog.Types.{Openraft, done}
use oaa_s_io_t.Odgm.RaftLog.Entries.{log_id_to_key, key_to_log_id, decode_all}
use oaa_s_io_t.Odgm.RaftLog.Spec.{IsRoundTrip, index_of, HasNext, IsLog, last}
use oaa_s_io_t.Odgm.RaftLog.Log.{All-last, IsLog-HasNext}

pub compare-log_id_to_key :
    (a b : ℕ)
    → a < u64_mod
    → b < u64_mod
    → compare_bytes (log_id_to_key a) (log_id_to_key b) ≡ compare a b
unfolding log_id_to_key
compare-log_id_to_key a b h k = compare-to_be_bytes 8 a b h k

pub key_to_log_id-log_id_to_key : (i : ℕ) → i < u64_mod → key_to_log_id (log_id_to_key i) ≡ some i
unfolding log_id_to_key key_to_log_id
key_to_log_id-log_id_to_key i h = ground (arith, length-to_be_bytes 8 i, from-to_be_bytes 8 i h)

-- The keys of a range are those of the indexes of the range.
pub within_keys :
    (a b i : ℕ)
    → a < u64_mod
    → b < u64_mod
    → i < u64_mod
    → (above (included (log_id_to_key a)) (log_id_to_key i)
        && below (excluded (log_id_to_key b)) (log_id_to_key i))
      ≡ (leb a i && ltb i b)
unfolding above below bytes_ord
within_keys a b i ha hb hi =
    ground (arith, compare-log_id_to_key a i ha hi, compare-log_id_to_key i b hi hb)

module _ (r : Openraft) (trip : IsRoundTrip r.entry_json) where
  abbrev pub image : List r.Entry → Entries
  image [] = []
  image (e ∷ log) = (log_id_to_key (index_of r e), (trip e).0) ∷ image log

  pub retain_keys-image :
      (p : Bytes → Bool) (q : ℕ → Bool) (log : List r.Entry)
      → IsLog r log
      → ((i : ℕ) → i < u64_mod → p (log_id_to_key i) ≡ q i)
      → retain_keys p (image log) ≡ image (filter (λ e. q (index_of r e)) log)
  unfolding retain_keys
  retain_keys-image p q [] h same = refl
  retain_keys-image p q (e ∷ log) h same =
      ground (arith, retain_keys-image p q log h.2 same, same (index_of r e) (omega (arith, h.0)))

  pub range-image :
      (a b : ℕ) (log : List r.Entry)
      → IsLog r log
      → a < u64_mod
      → b < u64_mod
      → range (included (log_id_to_key a)) (excluded (log_id_to_key b)) (image log)
        ≡ image (filter (λ e. leb a (index_of r e) && ltb (index_of r e) b) log)
  unfolding range
  range-image a b log h ha hb =
      retain_keys-image _ (λ i. leb a i && ltb i b) log h (λ i hi. within_keys a b i ha hb hi)

  pub insert-image :
      (log : List r.Entry) (e : r.Entry)
      → IsLog r (log ++ e ∷ [])
      → insert (image log) (log_id_to_key (index_of r e)) (trip e).0 ≡ image (log ++ e ∷ [])
  unfolding insert bytes_ord
  insert-image [] e h = refl
  insert-image (f ∷ log) e h = ground (
    arith,
    insert-image log e h.2,
    compare-log_id_to_key (index_of r e) (index_of r f),
    All-last r (λ g. HasNext r (index_of r g)) (f ∷ log) e (IsLog-HasNext r (f ∷ log ++ e ∷ []) h),
    All-last r (λ g. index_of r f < index_of r g) log e h.1,
  )

  pub decode_all-image : (log : List r.Entry) → IsLog r log → decode_all r (image log) ≡ done log
  unfolding decode_all
  decode_all-image [] h = refl
  decode_all-image (e ∷ log) h = ground (
    arith,
    key_to_log_id-log_id_to_key (index_of r e) (omega (arith, h.0)),
    (trip e).2,
    decode_all-image log h.2,
  )

  abbrev pub stored : Option r.Entry → Option (Bytes × Bytes)
  stored none = none
  stored (some e) = some (log_id_to_key (index_of r e), (trip e).0)

  pub last_key_value-image : (log : List r.Entry) → last_key_value (image log) ≡ stored (last r log)
  unfolding last_key_value
  last_key_value-image [] = refl
  last_key_value-image (e ∷ []) = refl
  last_key_value-image (e ∷ f ∷ log) = last_key_value-image (f ∷ log)

-- ===== src/Odgm/Identity.antt =====
-- Object identities: data-plane/oprc-odgm/src/identity.rs. The compiled expression `VALID_CHARS` of
-- the regex crate is the parameter `is_match`.
pub mod Normal
use mathlib.Core.Bool.{not}
use oaa_s_io_t.Prelude.{
  ℕ, ◌+◌, List, [], ◌∷◌, Bool, true, false, ltb, leb, ◌&&◌, Option, none, some, if◌then◌else◌,
  length, map,
}
use oaa_s_io_t.Std.Bytes.{Bytes}

pub data NormalizationError : Type 0 where
  empty : NormalizationError
  too_long : ℕ → ℕ → NormalizationError
  invalid_chars both_provided none_provided : NormalizationError

pub data Result {ℓ} (A : Type ℓ) : Type ℓ where
  ok : A → Result A
  err : NormalizationError → Result A

pub data ObjectIdentity : Type 0 where
  numeric : ℕ → ObjectIdentity
  str : Bytes → ObjectIdentity

unfoldable pub is_numeric : ObjectIdentity → Bool
is_numeric (numeric n) = true
is_numeric (str s) = false

unfoldable pub as_u64 : ObjectIdentity → Option ℕ
as_u64 (numeric n) = some n
as_u64 (str s) = none

unfoldable pub as_str : ObjectIdentity → Option Bytes
as_str (numeric n) = none
as_str (str s) = some s

-- `u8::to_ascii_lowercase`
unfoldable pub to_ascii_lowercase : ℕ → ℕ
to_ascii_lowercase b = if leb b'A' b && leb b b'Z' then b + 32 else b

module _ (is_match : Bytes → Bool) where
  unfoldable pub normalize_object_id : Bytes → ℕ → Result Bytes
  unfolding to_ascii_lowercase
  normalize_object_id [] max_len = err empty
  normalize_object_id (b ∷ raw) max_len =
      let lc = map to_ascii_lowercase (b ∷ raw) in
      if ltb max_len (length lc)
      then err (too_long (length lc) max_len)
      else if not (is_match lc)
      then err invalid_chars
      else ok lc

  unfoldable pub normalize_entry_key : Bytes → ℕ → Result Bytes
  unfolding normalize_object_id
  normalize_entry_key raw max_len = normalize_object_id raw max_len

  abbrev pub str_of : Result Bytes → Result ObjectIdentity
  str_of (ok s) = ok (str s)
  str_of (err e) = err e

  unfoldable pub build_identity : Option ℕ → Option Bytes → ℕ → Result ObjectIdentity
  unfolding normalize_object_id
  build_identity (some n) (some s) max_len = err both_provided
  build_identity none none max_len = err none_provided
  build_identity (some n) none max_len = ok (numeric n)
  build_identity none (some s) max_len = str_of (normalize_object_id s max_len)

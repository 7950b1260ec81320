-- ===== src/Odgm/Identity/Normal.antt =====
-- What a normalized identifier looks like.
use oaa_s_io_t.Prelude.{
  ℕ, ◌≤◌, ◌<◌, ◌≡◌, ◌≢◌, ◌⊎◌, refl, ap, [], ◌∷◌, Bool, true, length, map, All, arith, ◌↔◌,
}
use oaa_s_io_t.Std.Bytes.{Bytes}
use oaa_s_io_t.Std.Utf8.{ascii-is_utf8}
use oaa_s_io_t.Odgm.StorageKey.RoundTrip.{IsIdText}
use oaa_s_io_t.Odgm.Identity.{ok, normalize_object_id, to_ascii_lowercase}

-- The character class of the expression `^[a-z0-9._:-]+$`.
abbrev pub IsIdChar : ℕ → Type 0
IsIdChar b =
    ((b'a' ≤ b) × (b ≤ b'z'))
    ⊎ ((b'0' ≤ b) × (b ≤ b'9'))
    ⊎ ((b ≡ b'.') ⊎ (b ≡ b'_'))
    ⊎ ((b ≡ b':') ⊎ (b ≡ b'-'))

lowercase_twice : (b : ℕ) → to_ascii_lowercase (to_ascii_lowercase b) ≡ to_ascii_lowercase b
unfolding to_ascii_lowercase
lowercase_twice b = ground arith

map_twice :
    (s : Bytes) → map to_ascii_lowercase (map to_ascii_lowercase s) ≡ map to_ascii_lowercase s
map_twice [] = refl
map_twice (b ∷ s) = ground (arith, lowercase_twice b, map_twice s)

nonzero : (s : Bytes) → All IsIdChar s → All (λ b. b ≢ 0) s
nonzero [] h = tt
nonzero (b ∷ s) h = (omega (arith, h.0), nonzero s h.1)

ascii : (s : Bytes) → All IsIdChar s → All (λ b. b < 128) s
ascii [] h = tt
ascii (b ∷ s) h = (omega (arith, h.0), ascii s h.1)

module _ (is_match : Bytes → Bool)
    (matches : (s : Bytes) → (is_match s ≡ true) ↔ ((s ≢ []) × All IsIdChar s)) where
  facts :
      (raw : Bytes) (max_len : ℕ) {id : Bytes}
      → normalize_object_id is_match raw max_len ≡ ok id
      → (id ≡ map to_ascii_lowercase raw) × (length id ≤ max_len) × (is_match id ≡ true)
  unfolding normalize_object_id
  facts [] max_len h = ground arith
  facts (b ∷ raw) max_len h = ground arith

  normalize_fixed :
      (id : Bytes) (max_len : ℕ)
      → id ≢ []
      → map to_ascii_lowercase id ≡ id
      → length id ≤ max_len
      → is_match id ≡ true
      → normalize_object_id is_match id max_len ≡ ok id
  unfolding normalize_object_id
  normalize_fixed [] max_len filled lower short good = absurd (filled refl)
  normalize_fixed (b ∷ id) max_len filled lower short good =
      ground (arith, lower, good, short, ap length lower)

  -- A normalized identifier is not longer than the limit, is made of the allowed characters, can
  -- stand in a storage key, and is its own normal form.
  pub normalize_lem :
      (raw : Bytes) (max_len : ℕ) {id : Bytes}
      → normalize_object_id is_match raw max_len ≡ ok id
      → (length id ≤ max_len)
        × All IsIdChar id
        × IsIdText id
        × (normalize_object_id is_match id max_len ≡ ok id)
  normalize_lem raw max_len {id} h =
      let (lowered, short, good) = facts raw max_len h in
      let (filled, chars) = (matches id).0 good in
      (
        short,
        chars,
        record { utf8 = ascii-is_utf8 id (ascii id chars); nonzero = nonzero id chars },
        normalize_fixed id max_len filled (rw lowered (map_twice raw)) short good,
      )

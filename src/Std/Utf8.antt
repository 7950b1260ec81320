-- ===== src/Std/Utf8.antt =====
-- `String::from_utf8` and `str::from_utf8`: the standard library's table of well-formed sequences.
use oaa_s_io_t.Prelude.{
  ℕ, ◌<◌, ◌≡◌, refl, List, [], ◌∷◌, Bool, true, false, ◌&&◌, ◌==◌, leb, ltb, Option, none, some,
  if◌then◌else◌, All, arith,
}
use oaa_s_io_t.Std.Bytes.{Bytes}

abbrev within : ℕ → ℕ → ℕ → Bool
within lo hi b = leb lo b && leb b hi

-- The ranges of the bytes that must follow a leading byte.
unfoldable pub continuation : ℕ → Option (List (ℕ × ℕ))
continuation b =
    if ltb b 0x80
    then some []
    else if within 0xc2 0xdf b
    then some ((0x80, 0xbf) ∷ [])
    else if b == 0xe0
    then some ((0xa0, 0xbf) ∷ (0x80, 0xbf) ∷ [])
    else if b == 0xed
    then some ((0x80, 0x9f) ∷ (0x80, 0xbf) ∷ [])
    else if within 0xe1 0xef b
    then some ((0x80, 0xbf) ∷ (0x80, 0xbf) ∷ [])
    else if b == 0xf0
    then some ((0x90, 0xbf) ∷ (0x80, 0xbf) ∷ (0x80, 0xbf) ∷ [])
    else if within 0xf1 0xf3 b
    then some ((0x80, 0xbf) ∷ (0x80, 0xbf) ∷ (0x80, 0xbf) ∷ [])
    else if b == 0xf4
    then some ((0x80, 0x8f) ∷ (0x80, 0xbf) ∷ (0x80, 0xbf) ∷ [])
    else none

unfoldable pub expect : List (ℕ × ℕ) → Bytes → Bool
unfolding continuation
expect [] [] = true
expect (r ∷ rs) [] = false
expect [] (b ∷ bytes) = elim (continuation b) [ none ↦ false | some rs ↦ expect rs bytes ]
expect ((lo, hi) ∷ rs) (b ∷ bytes) = within lo hi b && expect rs bytes

unfoldable pub is_utf8 : Bytes → Bool
unfolding expect
is_utf8 bytes = expect [] bytes

-- A text is the list of its bytes.
unfoldable pub from_utf8 : Bytes → Option Bytes
unfolding is_utf8
from_utf8 bytes = if is_utf8 bytes then some bytes else none

-- ASCII is UTF-8.
pub ascii-is_utf8 : (bytes : Bytes) → All (λ b. b < 128) bytes → is_utf8 bytes ≡ true
unfolding is_utf8
ascii-is_utf8 [] h = refl
ascii-is_utf8 (b ∷ bytes) h = ground (arith, ascii-is_utf8 bytes h.1)

text_checks :
    (is_utf8 (0xc3 ∷ 0xa9 ∷ []) ≡ true)
    × (is_utf8 (0xc3 ∷ []) ≡ false)
    × (is_utf8 (0xed ∷ 0xa0 ∷ 0x80 ∷ []) ≡ false)
    × (is_utf8 (0xf0 ∷ 0x9f ∷ 0x98 ∷ 0x80 ∷ []) ≡ true)
unfolding is_utf8
text_checks = (refl, refl, refl, refl)

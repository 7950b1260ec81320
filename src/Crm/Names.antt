-- ===== src/Crm/Names.antt =====
-- Names of services: `dns1035_safe` of control-plane/oprc-crm/src/templates/manager.rs and
-- `function_service_name` of control-plane/oprc-crm/src/routing.rs. A name is the list of its
-- characters' code points.
pub mod Label
mod Examples
use oaa_s_io_t.Prelude.{
  ℕ, ◌+◌, ◌==◌, List, [], ◌∷◌, ◌++◌, Bool, true, false, ltb, leb, not, ◌&&◌, ◌||◌, map, take,
  if◌then◌else◌,
}
use oaa_s_io_t.Odgm.GranularKey.{decimal_loop}

abbrev pub Chars : Type 0
Chars = List ℕ

abbrev pub in_range : ℕ → ℕ → ℕ → Bool
in_range lo hi c = leb lo c && leb c hi

-- `char::is_ascii_alphabetic` and `char::is_ascii_alphanumeric`
abbrev pub is_ascii_alphabetic : ℕ → Bool
is_ascii_alphabetic c = in_range b'a' b'z' c || in_range b'A' b'Z' c

abbrev pub is_ascii_alphanumeric : ℕ → Bool
is_ascii_alphanumeric c = is_ascii_alphabetic c || in_range b'0' b'9' c

abbrev pub lowercase : ℕ → ℕ
lowercase c = if in_range b'A' b'Z' c then c + 32 else c

abbrev pub mapped : ℕ → ℕ
mapped c = if is_ascii_alphanumeric c || (c == b'-') then c else b'-'

abbrev pub is_nil : Chars → Bool
is_nil [] = true
is_nil (c ∷ s) = false

-- `while s.starts_with('-') { s.remove(0) }`, and the same at the end with `s.pop()`.
unfoldable pub trim_start : Chars → Chars
trim_start [] = []
trim_start (c ∷ s) = let rest = trim_start s in if c == b'-' then rest else c ∷ s

unfoldable pub trim_end : Chars → Chars
trim_end [] = []
trim_end (c ∷ s) = let rest = trim_end s in if is_nil rest && (c == b'-') then [] else c ∷ rest

-- The test of the last character; the code does not ask it of an empty text.
unfoldable pub ends_alphanumeric : Chars → Bool
ends_alphanumeric [] = true
ends_alphanumeric (c ∷ []) = is_ascii_alphanumeric c
ends_alphanumeric (c ∷ d ∷ s) = ends_alphanumeric (d ∷ s)

unfoldable pub pop : Chars → Chars
pop [] = []
pop (c ∷ []) = []
pop (c ∷ d ∷ s) = c ∷ pop (d ∷ s)

abbrev pub fallback : Chars
fallback = b'd' ∷ b'e' ∷ b'f' ∷ b'a' ∷ b'u' ∷ b'l' ∷ b't' ∷ []

-- `if s.is_empty() { return "default" }`, and what follows.
abbrev pub or_default : (Chars → Chars) → Chars → Chars
or_default next [] = fallback
or_default next (c ∷ s) = next (c ∷ s)

abbrev pub enforce_letter : Chars → Chars
enforce_letter [] = []
enforce_letter (c ∷ s) = if is_ascii_alphabetic c then c ∷ s else b'a' ∷ c ∷ s

abbrev pub enforce_last : Chars → Chars
enforce_last s = or_default (λ t. t) (if ends_alphanumeric s then s else pop s)

unfoldable pub dns1035_safe : Chars → Chars
unfolding trim_start trim_end ends_alphanumeric pop
dns1035_safe name =
    or_default (λ s. or_default enforce_last (trim_end (take 63 (enforce_letter s))))
      (trim_end (trim_start (map (λ c. mapped (lowercase c)) name)))

-- A `usize` has at most twenty digits.
unfoldable pub function_service_name : Chars → ℕ → ℕ → Chars
unfolding dns1035_safe
function_service_name class_name idx total =
    let base = dns1035_safe class_name in
    if ltb 1 total then base ++ b'-' ∷ b'f' ∷ b'n' ∷ b'-' ∷ decimal_loop 19 idx [] else base

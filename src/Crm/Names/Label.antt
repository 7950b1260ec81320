-- ===== src/Crm/Names/Label.antt =====
-- The names that `dns1035_safe` makes are labels of RFC 1035.
use oaa_s_io_t.Prelude.{
  ℕ, zero, suc, ◌≤◌, ◌<◌, ◌≡◌, refl, [], ◌∷◌, Bool, true, false, ◌&&◌, ◌||◌, ◌==◌, map, take,
  length, All, arith, if◌then◌else◌, length-append, lt→ltb,
}
use oaa_s_io_t.Crm.Names.{
  Chars, in_range, lowercase, mapped, is_nil, trim_start, trim_end, ends_alphanumeric, fallback,
  or_default, enforce_letter, enforce_last, dns1035_safe, function_service_name,
}

-- The characters of a label: a small letter, a digit or a dash.
abbrev pub label_char : ℕ → Bool
label_char c = in_range b'a' b'z' c || in_range b'0' b'9' c || (c == b'-')

abbrev pub AreLabelChars : Chars → Type 0
AreLabelChars = All (λ c. label_char c ≡ true)

abbrev pub starts_with_letter : Chars → Bool
starts_with_letter [] = false
starts_with_letter (c ∷ s) = in_range b'a' b'z' c

-- A label: at most 63 of these characters, the first a letter and the last no dash.
pub record IsLabel (s : Chars) : Type 0 where
  pub chars : AreLabelChars s
  pub start : starts_with_letter s ≡ true
  pub end : ends_alphanumeric s ≡ true
  pub bound : length s ≤ 63

mapped-label_char : (c : ℕ) → label_char (mapped (lowercase c)) ≡ true
mapped-label_char c = ground arith

map-AreLabelChars : (name : Chars) → AreLabelChars (map (λ c. mapped (lowercase c)) name)
map-AreLabelChars [] = tt
map-AreLabelChars (c ∷ name) = (mapped-label_char c, map-AreLabelChars name)

trim_start-AreLabelChars : (s : Chars) → AreLabelChars s → AreLabelChars (trim_start s)
unfolding trim_start
trim_start-AreLabelChars [] h = tt
trim_start-AreLabelChars (c ∷ s) h = ground (arith, trim_start-AreLabelChars s h.1)

trim_end-AreLabelChars : (s : Chars) → AreLabelChars s → AreLabelChars (trim_end s)
unfolding trim_end
trim_end-AreLabelChars [] h = tt
trim_end-AreLabelChars (c ∷ s) h = ground (arith, trim_end-AreLabelChars s h.1)

take-AreLabelChars : (n : ℕ) (s : Chars) → AreLabelChars s → AreLabelChars (take n s)
take-AreLabelChars zero s h = tt
take-AreLabelChars (suc n) [] h = tt
take-AreLabelChars (suc n) (c ∷ s) h = (h.0, take-AreLabelChars n s h.1)

trim_end-length : (s : Chars) → length (trim_end s) ≤ length s
unfolding trim_end
trim_end-length [] = ground arith
trim_end-length (c ∷ s) = ground (arith, trim_end-length s)

take-bound : (n : ℕ) (s : Chars) → length (take n s) ≤ n
take-bound zero s = ground arith
take-bound (suc n) [] = ground arith
take-bound (suc n) (c ∷ s) = ground (arith, take-bound n s)

ends_step :
    (c : ℕ) (rest : Chars)
    → label_char c ≡ true
    → ends_alphanumeric rest ≡ true
    → ends_alphanumeric (if is_nil rest && (c == b'-') then [] else c ∷ rest) ≡ true
unfolding ends_alphanumeric
ends_step c [] h e = ground arith
ends_step c (d ∷ rest) h e = e

trim_end-ends : (s : Chars) → AreLabelChars s → ends_alphanumeric (trim_end s) ≡ true
unfolding trim_end ends_alphanumeric
trim_end-ends [] h = refl
trim_end-ends (c ∷ s) h = ends_step c (trim_end s) h.0 (trim_end-ends s h.1)

trim_end-starts : (s : Chars) → starts_with_letter s ≡ true → starts_with_letter (trim_end s) ≡ true
unfolding trim_end
trim_end-starts [] h = h
trim_end-starts (c ∷ s) h = ground arith

enforce_letter-AreLabelChars : (s : Chars) → AreLabelChars s → AreLabelChars (enforce_letter s)
enforce_letter-AreLabelChars [] h = tt
enforce_letter-AreLabelChars (c ∷ s) h = ground arith

take-starts :
    (c : ℕ) (s : Chars)
    → label_char c ≡ true
    → starts_with_letter (take 63 (enforce_letter (c ∷ s))) ≡ true
take-starts c s h = ground arith

fallback-IsLabel : IsLabel fallback
unfolding ends_alphanumeric
fallback-IsLabel = record {
  chars = (refl, (refl, (refl, (refl, (refl, (refl, (refl, tt)))))));
  start = refl;
  end = refl;
  bound = ground arith;
}

enforce_last-IsLabel : (s : Chars) → IsLabel s → IsLabel (or_default enforce_last s)
enforce_last-IsLabel [] h = fallback-IsLabel
enforce_last-IsLabel (c ∷ s) h = rw h.end h

shorten-IsLabel :
    (c : ℕ) (s : Chars)
    → AreLabelChars (c ∷ s)
    → IsLabel (trim_end (take 63 (enforce_letter (c ∷ s))))
shorten-IsLabel c s h =
    let cut = take-AreLabelChars 63 _ (enforce_letter-AreLabelChars (c ∷ s) h) in
    record {
      chars = trim_end-AreLabelChars _ cut;
      start = trim_end-starts _ (take-starts c s h.0);
      end = trim_end-ends _ cut;
      bound = omega (
        arith,
        trim_end-length (take 63 (enforce_letter (c ∷ s))),
        take-bound 63 (enforce_letter (c ∷ s)),
      );
    }

safe-IsLabel :
    (s : Chars)
    → AreLabelChars s
    → IsLabel (or_default (λ s. or_default enforce_last (trim_end (take 63 (enforce_letter s)))) s)
safe-IsLabel [] h = fallback-IsLabel
safe-IsLabel (c ∷ s) h = enforce_last-IsLabel _ (shorten-IsLabel c s h)

-- Whatever the name, `dns1035_safe` makes a label of it: of at most 63 characters, which are small
-- letters, digits and dashes, it starts with a letter and does not end with a dash.
pub dns1035_safe-IsLabel : (name : Chars) → IsLabel (dns1035_safe name)
unfolding dns1035_safe
dns1035_safe-IsLabel name =
    safe-IsLabel _ (trim_end-AreLabelChars _ (trim_start-AreLabelChars _ (map-AreLabelChars name)))

-- The name of one function of several gets a suffix after the base was cut to 63 characters: with a
-- base of 60 characters or more the name is longer than a label may be.
pub function_service_name_exceeds :
    (name : Chars) (idx total : ℕ)
    → 1 < total
    → 60 ≤ length (dns1035_safe name)
    → 63 < length (function_service_name name idx total)
unfolding function_service_name
function_service_name_exceeds name idx total many long =
    rw (lt→ltb 1 total many, length-append) (omega (arith, long))

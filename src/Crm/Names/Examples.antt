-- ===== src/Crm/Names/Examples.antt =====
-- Names at work: a name of capitals and underscores, and one that is too long for a suffix.
use oaa_s_io_t.Prelude.{ℕ, suc, zero, ◌<◌, ◌≤◌, ◌≡◌, refl, [], ◌∷◌, length, arith}
use oaa_s_io_t.Crm.Names.{Chars, dns1035_safe, function_service_name}
use oaa_s_io_t.Crm.Names.Label.{IsLabel, dns1035_safe-IsLabel, function_service_name_exceeds}

abbrev raw : Chars
raw = b'_' ∷ b'9' ∷ b'M' ∷ b'y' ∷ 0xe9 ∷ b'C' ∷ b'$' ∷ []

dns1035_safe-raw : dns1035_safe raw ≡ b'a' ∷ b'9' ∷ b'm' ∷ b'y' ∷ b'-' ∷ b'c' ∷ []
unfolding dns1035_safe
dns1035_safe-raw = refl

dns1035_safe-IsLabel_example : IsLabel (dns1035_safe raw)
dns1035_safe-IsLabel_example = dns1035_safe-IsLabel raw

abbrev repeated : ℕ → Chars
repeated zero = []
repeated (suc n) = b'x' ∷ repeated n

long_base : 60 ≤ length (dns1035_safe (repeated 62))
unfolding dns1035_safe
long_base = omega arith

function_service_name_exceeds_example : 63 < length (function_service_name (repeated 62) 1 2)
function_service_name_exceeds_example =
    function_service_name_exceeds (repeated 62) 1 2 (omega arith) long_base

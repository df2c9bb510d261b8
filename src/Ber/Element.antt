-- ===== src/Ber/Element.antt =====
-- A BER element as the standard describes it, in the shortest form, and what the reader makes of it.
use sysmon.Base.{ℕ, ◌+◌, ◌/◌, ◌%◌, ◌≤◌, arith}
use sysmon.Base.{List, [], ◌∷◌, ◌++◌}
use sysmon.Base.{ltb, if◌then◌else◌, length, length-append}

-- The length of a value, for lengths below 65536.
unfoldable pub length_octets : ℕ → List ℕ
length_octets n = if ltb n 128 then n ∷ [] else 0x82 ∷ (n / 256 % 256) ∷ (n % 256) ∷ []

unfoldable pub tlv : ℕ → List ℕ → List ℕ
unfolding length_octets
tlv tag val = tag ∷ (length_octets (length val) ++ val)

pub length-tlv : (tag : ℕ) (val : List ℕ) → length (tlv tag val) ≤ 4 + length val
unfolding tlv
length-tlv tag val = ground (arith, length-append (length_octets (length val)) val)

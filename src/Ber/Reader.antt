-- ===== src/Ber/Reader.antt =====
-- src/trapdecode.c: snmp_ber_next again, where a cursor is the list of its unread bytes. The
-- decoders are written over this reader; `Reader/Refine` relates it to the one on indices.
pub mod Refine
use sysmon.Base.{ℕ, zero, suc, ◌+◌, ◌*◌, ◌%◌, Bool, true, false, List, [], ◌∷◌, Option, none, some}
use sysmon.Base.{ltb, ◌==◌, if◌then◌else◌, ◌||◌, length, take, drop}
use sysmon.Base.Words.{high_bit, low_seven}
use sysmon.Ber.Cursor.{Tlv}

-- `n` bytes of a length, highest first.
unfoldable pub read_length : ℕ → ℕ → List ℕ → Option (ℕ × List ℕ)
read_length zero l r = some (l, r)
read_length (suc n) l [] = none
read_length (suc n) l (b ∷ r) = read_length n (l * 256 + b) r

unfoldable pub read_value : ℕ → ℕ → List ℕ → Option (Tlv × List ℕ)
read_value t l r =
    if ltb (length r) l then none else some (record { tag = t; val = take l r }, drop l r)

unfoldable pub read_long : ℕ → ℕ → List ℕ → Option (Tlv × List ℕ)
unfolding read_length read_value
read_long t n r =
    if n == 0 || ltb 4 n
    then none
    else elim (read_length n 0 r) [ none ↦ none | some (l, r') ↦ read_value t l r' ]

unfoldable pub read_body : ℕ → List ℕ → Option (Tlv × List ℕ)
unfolding read_long read_value
read_body t [] = none
read_body t (l ∷ r) = if high_bit l then read_long t (low_seven l) r else read_value t l r

unfoldable pub read_tlv : List ℕ → Option (Tlv × List ℕ)
unfolding read_body
read_tlv [] = none
read_tlv (t ∷ r) = if t % 32 == 31 then none else read_body t r

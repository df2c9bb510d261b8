-- ===== src/Ber/Value.antt =====
-- src/trapdecode.c: what the bytes of a value mean - snmp_ber_int, snmp_ber_uint, snmp_ber_oid_str
-- and ber_string_str. `sizeof(long)` is 8. A text that C writes to a buffer of `outlen` bytes is
-- the result.
pub mod Numbers
pub mod Texts
use sysmon.Base.{ℕ, zero, suc, ◌+◌, ◌-◌, ◌*◌, ◌/◌, ◌%◌, ◌^◌, Bool, true, false, List, [], ◌∷◌, ◌++◌}
use sysmon.Base.{ltb, leb, ◌==◌, if◌then◌else◌, ◌&&◌, ◌||◌, length}
use sysmon.Base.Int.{ℤ, pos, negsuc, signed64}
use sysmon.Base.Words.{u64_mod, high_bit, low_seven}
use sysmon.Base.Text.{Text, codes, bounded, decimal, hex_byte}

-- `acc = (acc << 8) | v[i]` over the bytes, in an unsigned long
unfoldable pub accumulate : ℕ → List ℕ → ℕ
accumulate acc [] = acc
accumulate acc (b ∷ v) = accumulate ((acc * 256 + b) % u64_mod) v

-- All ones for a value whose first byte has its top bit set.
abbrev pub sign_fill : List ℕ → ℕ
sign_fill [] = 0
sign_fill (b ∷ v) = if high_bit b then u64_mod - 1 else 0

abbrev pub fits_long : List ℕ → Bool
fits_long v = leb 1 (length v) && leb (length v) 8

unfoldable pub snmp_ber_int : List ℕ → ℤ
unfolding accumulate
snmp_ber_int v = if fits_long v then signed64 (accumulate (sign_fill v) v) else pos 0

unfoldable pub snmp_ber_uint : List ℕ → ℕ
unfolding accumulate
snmp_ber_uint v = if fits_long v then accumulate 0 v else 0

abbrev pub trap_max_subids : ℕ
trap_max_subids = 64

-- `".2.%u"` or `".%u.%u"`: the first byte packs the first two sub-identifiers.
unfoldable pub oid_head : ℕ → Text
oid_head b =
    if leb 80 b
    then codes ".2." ++ decimal (b - 80)
    else b'.' ∷ (decimal (b / 40) ++ (b'.' ∷ decimal (b % 40)))

-- The loop over the later bytes; `out` is what is written so far.
unfoldable pub oid_loop : ℕ → List ℕ → ℕ → ℕ → ℕ → Text → Text
oid_loop outlen [] sub shifted subids out = out
oid_loop outlen (b ∷ v) sub shifted subids out =
    let sub' = (sub * 128 + low_seven b) % u64_mod in
    let part = b'.' ∷ decimal sub' in
    let skipped = oid_loop outlen v 0 0 subids out in
    let more = oid_loop outlen v sub' (shifted + 1) subids out in
    let next = oid_loop outlen v 0 0 (subids + 1) (out ++ part) in
    if ltb 4 shifted
    then skipped
    else if high_bit b
    then more
    else if ltb trap_max_subids (subids + 1)
    then out
    else if leb outlen (length out + length part + 1)
    then out
    else next

unfoldable pub snmp_ber_oid_str : List ℕ → ℕ → Text
unfolding oid_head oid_loop
snmp_ber_oid_str [] outlen = []
snmp_ber_oid_str (b ∷ v) outlen =
    if outlen == 0 then [] else oid_loop outlen v 0 0 0 (bounded outlen (oid_head b))

-- A tab or a line end counts as printable.
abbrev pub is_blank : ℕ → Bool
is_blank b = b == 9 || b == 10 || b == 13

unfoldable pub is_printable : List ℕ → Bool
is_printable [] = true
is_printable (b ∷ v) = (is_blank b || (leb 0x20 b && leb b 0x7e)) && is_printable v

-- `used + 1 < outlen` guards each byte that is written.
unfoldable pub copy_text : ℕ → List ℕ → ℕ → Text
copy_text outlen [] used = []
copy_text outlen (b ∷ v) used =
    let rest = copy_text outlen v (used + 1) in
    if ltb (used + 1) outlen then (if ltb b 0x20 then 0x20 else b) ∷ rest else []

unfoldable pub copy_hex : ℕ → List ℕ → ℕ → Text
copy_hex outlen [] used = []
copy_hex outlen (b ∷ v) used =
    let rest = copy_hex outlen v (used + 2) in
    if ltb (used + 3) outlen then hex_byte b ++ rest else []

unfoldable pub ber_string_str : List ℕ → ℕ → Text
unfolding is_printable copy_text copy_hex
ber_string_str v outlen =
    if outlen == 0 then [] else if is_printable v then copy_text outlen v 0 else copy_hex outlen v 0

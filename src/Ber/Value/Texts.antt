-- ===== src/Ber/Value/Texts.antt =====
-- The texts that snmp_ber_oid_str and ber_string_str write: their characters and their sizes.
use sysmon.Base.{ℕ, zero, suc, ◌+◌, ◌-◌, ◌*◌, ◌/◌, ◌%◌, ◌≤◌, ◌<◌, ◌≡◌, ◌⊎◌, inl, inr, refl, arith}
use sysmon.Base.{true, List, [], ◌∷◌, ◌++◌, ltb, leb, Bool-cases}
use sysmon.Base.{length, length-append, All, All-append, All-take}
use sysmon.Base.Words.{u64_mod, low_seven}
use sysmon.Base.Text.{Text, bounded, length-bounded, decimal, decimal_digits, hex_byte}
use sysmon.Ber.Value.{
  oid_head, oid_loop, snmp_ber_oid_str, is_printable, copy_text, copy_hex, ber_string_str,
}

oid_loop-fits :
    (outlen : ℕ) (v : List ℕ) (sub shifted subids : ℕ) (out : Text)
    → length out < outlen
    → length (oid_loop outlen v sub shifted subids out) < outlen
unfolding oid_loop
oid_loop-fits outlen [] sub shifted subids out h = h
oid_loop-fits outlen (b ∷ v) sub shifted subids out h =
    let sub' = (sub * 128 + low_seven b) % u64_mod in
    let part = b'.' ∷ decimal sub' in
    ground (
      arith,
      oid_loop-fits outlen v 0 0 subids out h,
      oid_loop-fits outlen v sub' (shifted + 1) subids out h,
      oid_loop-fits outlen v 0 0 (subids + 1) (out ++ part),
      length-append out part,
    )

-- The text of an OID leaves room for its terminating NUL, whatever the bytes.
pub snmp_ber_oid_str-fits :
    (v : List ℕ) (outlen : ℕ) → 0 < outlen → length (snmp_ber_oid_str v outlen) < outlen
unfolding snmp_ber_oid_str
snmp_ber_oid_str-fits [] outlen h = h
snmp_ber_oid_str-fits (b ∷ v) outlen h = ground (
  arith,
  oid_loop-fits outlen v 0 0 0 (bounded outlen (oid_head b)) (length-bounded outlen (oid_head b) h),
)

copy_text-fits :
    (outlen : ℕ) (v : List ℕ) (used : ℕ)
    → used < outlen
    → length (copy_text outlen v used) + used < outlen
unfolding copy_text
copy_text-fits outlen [] used h = omega arith
copy_text-fits outlen (b ∷ v) used h = ground (arith, copy_text-fits outlen v (used + 1))

copy_hex-fits :
    (outlen : ℕ) (v : List ℕ) (used : ℕ)
    → used < outlen
    → length (copy_hex outlen v used) + used < outlen
unfolding copy_hex hex_byte
copy_hex-fits outlen [] used h = omega arith
copy_hex-fits outlen (b ∷ v) used h = ground (arith, copy_hex-fits outlen v (used + 2))

pub ber_string_str-fits :
    (v : List ℕ) (outlen : ℕ) → 0 < outlen → length (ber_string_str v outlen) < outlen
unfolding ber_string_str
ber_string_str-fits v outlen h = ground (arith, copy_text-fits outlen v 0, copy_hex-fits outlen v 0)

abbrev pub IsPrintable : ℕ → Type 0
IsPrintable c = (0x20 ≤ c) × (c ≤ 0x7e)

copy_text-IsPrintable :
    (outlen : ℕ) (v : List ℕ) (used : ℕ)
    → is_printable v ≡ true
    → All IsPrintable (copy_text outlen v used)
unfolding is_printable copy_text
copy_text-IsPrintable outlen [] used h = tt
copy_text-IsPrintable outlen (b ∷ v) used h =
    ground (arith, copy_text-IsPrintable outlen v (used + 1))

copy_hex-IsPrintable :
    (outlen : ℕ) (v : List ℕ) (used : ℕ) → All IsPrintable (copy_hex outlen v used)
unfolding copy_hex hex_byte
copy_hex-IsPrintable outlen [] used = tt
copy_hex-IsPrintable outlen (b ∷ v) used = ground (arith, copy_hex-IsPrintable outlen v (used + 2))

-- For an octet string of any bytes and a buffer that is not empty, ber_string_str writes
-- printable ASCII and leaves room for the NUL.
pub ber_string_str-IsPrintable :
    (v : List ℕ) (outlen : ℕ)
    → 0 < outlen
    → All IsPrintable (ber_string_str v outlen) × (length (ber_string_str v outlen) < outlen)
unfolding ber_string_str
ber_string_str-IsPrintable v outlen h = (
  ground (arith, copy_text-IsPrintable outlen v 0, copy_hex-IsPrintable outlen v 0),
  ber_string_str-fits v outlen h,
)

-- A digit or a dot.
abbrev pub IsOidChar : ℕ → Type 0
IsOidChar c = (c ≡ b'.') ⊎ ((b'0' ≤ c) × (c ≤ b'9'))

decimal_digits-IsOidChar : (f n : ℕ) → All IsOidChar (decimal_digits f n)
unfolding decimal_digits
decimal_digits-IsOidChar zero n = tt
decimal_digits-IsOidChar (suc f) n = elim (Bool-cases (ltb n 10)) [
  | inl one ↦ rw one (inr (omega arith, ground arith), tt)
  | inr more ↦ rw more (
      All-append IsOidChar (decimal_digits f (n / 10)) _ (decimal_digits-IsOidChar f (n / 10))
        (inr (omega arith, omega arith), tt))
]

decimal-IsOidChar : (n : ℕ) → All IsOidChar (decimal n)
unfolding decimal
decimal-IsOidChar n = decimal_digits-IsOidChar 20 n

oid_head-IsOidChar : (b : ℕ) → All IsOidChar (oid_head b)
unfolding oid_head
oid_head-IsOidChar b = elim (Bool-cases (leb 80 b)) [
  | inl two ↦
      rw two (inl refl, (inr (omega arith, omega arith), (inl refl, decimal-IsOidChar (b - 80))))
  | inr low ↦ rw low (
    inl refl,
    All-append IsOidChar (decimal (b / 40)) _ (decimal-IsOidChar (b / 40))
        (inl refl, decimal-IsOidChar (b % 40)),
  )
]

oid_loop-IsOidChar :
    (outlen : ℕ) (v : List ℕ) (sub shifted subids : ℕ) (out : Text)
    → All IsOidChar out
    → All IsOidChar (oid_loop outlen v sub shifted subids out)
unfolding oid_loop
oid_loop-IsOidChar outlen [] sub shifted subids out h = h
oid_loop-IsOidChar outlen (b ∷ v) sub shifted subids out h =
    let sub' = (sub * 128 + low_seven b) % u64_mod in
    let part = b'.' ∷ decimal sub' in
    let longer : All IsOidChar (out ++ part) =
      All-append IsOidChar out part h (inl refl, decimal-IsOidChar sub') in
    ground (
      arith,
      oid_loop-IsOidChar outlen v 0 0 subids out h,
      oid_loop-IsOidChar outlen v sub' (shifted + 1) subids out h,
      oid_loop-IsOidChar outlen v 0 0 (subids + 1) (out ++ part) longer,
    )

snmp_ber_oid_str-chars :
    (v : List ℕ) (outlen : ℕ) → 0 < outlen → All IsOidChar (snmp_ber_oid_str v outlen)
unfolding snmp_ber_oid_str bounded
snmp_ber_oid_str-chars [] outlen h = tt
snmp_ber_oid_str-chars (b ∷ v) outlen h =
    let head : All IsOidChar (bounded outlen (oid_head b)) =
      All-take IsOidChar (outlen - 1) (oid_head b) (oid_head-IsOidChar b) in
    ground (arith, oid_loop-IsOidChar outlen v 0 0 0 (bounded outlen (oid_head b)) head)

-- For any bytes and a buffer that is not empty, snmp_ber_oid_str writes digits and dots and
-- leaves room for the NUL.
pub snmp_ber_oid_str-IsOidChar :
    (v : List ℕ) (outlen : ℕ)
    → 0 < outlen
    → All IsOidChar (snmp_ber_oid_str v outlen) × (length (snmp_ber_oid_str v outlen) < outlen)
snmp_ber_oid_str-IsOidChar v outlen h =
    (snmp_ber_oid_str-chars v outlen h, snmp_ber_oid_str-fits v outlen h)

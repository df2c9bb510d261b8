-- ===== src/Ber/Value/Numbers.antt =====
-- The numbers of snmp_ber_int and snmp_ber_uint against big-endian and two's-complement values.
use sysmon.Base.{ℕ, suc, ◌+◌, ◌-◌, ◌*◌, ◌%◌, ◌^◌, ◌≤◌, ◌<◌, ◌≡◌, ap, ◌∙◌, arith}
use sysmon.Base.{true, false, List, [], ◌∷◌, leb→le, if◌then◌else◌, length, All}
use sysmon.Base.Int.{ℤ, pos, negsuc, signed64}
use sysmon.Base.Words.{IsByte, u64_mod, high_bit}
use native.Mathlib.Nat.{pow-suc, div-add-mod, pow-le-pow_right}
use sysmon.Ber.Value.{accumulate, snmp_ber_int, snmp_ber_uint, sign_fill}

-- The bytes as a number, highest first.
unfoldable pub big_endian : List ℕ → ℕ
big_endian [] = 0
big_endian (b ∷ v) = b * 256 ^ length v + big_endian v

pub big_endian_lt : (v : List ℕ) → All IsByte v → big_endian v < 256 ^ length v
unfolding big_endian
big_endian_lt [] h = omega arith
big_endian_lt (b ∷ v) h = grind (arith, pow-suc 256 (length v), big_endian_lt v h.1)

-- Reducing early does not change the result.
mod_mul_add : (x p e : ℕ) → (x % u64_mod * p + e) % u64_mod ≡ (x * p + e) % u64_mod
mod_mul_add x p e = omega (arith, ap (λ (t : ℕ). t * p) (div-add-mod x u64_mod))

pub accumulate-mod :
    (acc : ℕ) (v : List ℕ)
    → acc < u64_mod
    → accumulate acc v ≡ (acc * 256 ^ length v + big_endian v) % u64_mod
unfolding accumulate big_endian
accumulate-mod acc [] h = omega arith
accumulate-mod acc (b ∷ v) h =
    let x = acc * 256 + b in
    let p = 256 ^ length v in
    let e : x * p + big_endian v ≡ acc * 256 ^ suc (length v) + (b * p + big_endian v) =
      omega (arith, ap (λ (t : ℕ). acc * t) (pow-suc 256 (length v))) in
    accumulate-mod (x % u64_mod) v (omega arith)
    ∙ mod_mul_add x p (big_endian v)
    ∙ ap (λ (t : ℕ). t % u64_mod) e

pow256-le : (n : ℕ) → n ≤ 8 → 256 ^ n ≤ u64_mod
pow256-le n h = pow-le-pow_right (omega arith) h

-- A string of 1 to 8 bytes is read by snmp_ber_uint as the big-endian number of its bytes.
pub snmp_ber_uint-big_endian :
    (v : List ℕ) → All IsByte v → 1 ≤ length v → length v ≤ 8 → snmp_ber_uint v ≡ big_endian v
unfolding snmp_ber_uint
snmp_ber_uint-big_endian v bytes lo hi =
    ground (arith, accumulate-mod 0 v, big_endian_lt v bytes, pow256-le (length v) hi)

-- The two's-complement number of a string of bytes.
unfoldable pub twos_complement : List ℕ → ℤ
twos_complement [] = pos 0
twos_complement (b ∷ v) =
    if high_bit b
    then negsuc (256 ^ length (b ∷ v) - 1 - big_endian (b ∷ v))
    else pos (big_endian (b ∷ v))

sign_extended :
    (p n : ℕ)
    → p ≤ u64_mod
    → n < p
    → p ≤ 2 * n
    → signed64 (((u64_mod - 1) * p + n) % u64_mod) ≡ negsuc (p - 1 - n)
sign_extended p n hp hn half = ground arith

scaled : (a b p : ℕ) → a ≤ b → a * p ≤ b * p
scaled a b p h = grind arith

-- The top bit of the first byte splits the range of the number in two halves.
big_endian_halves :
    (b : ℕ) (v : List ℕ)
    → All IsByte (b ∷ v)
    → (high_bit b ≡ true → 256 ^ length (b ∷ v) ≤ 2 * big_endian (b ∷ v))
      × (high_bit b ≡ false → 2 * big_endian (b ∷ v) < 256 ^ length (b ∷ v))
unfolding big_endian
big_endian_halves b v h = (
  λ e. omega (arith, pow-suc 256 (length v), scaled 128 b (256 ^ length v) (leb→le 128 b e)),
  λ e.
      let low : b ≤ 127 = ground arith in
      omega (arith, pow-suc 256 (length v), scaled b 127 (256 ^ length v) low, big_endian_lt v h.1),
)

-- A string of 1 to 8 bytes is read by snmp_ber_int as its two's-complement number.
pub snmp_ber_int-twos_complement :
    (v : List ℕ) → All IsByte v → 1 ≤ length v → length v ≤ 8 → snmp_ber_int v ≡ twos_complement v
unfolding snmp_ber_int twos_complement
snmp_ber_int-twos_complement [] bytes lo hi = elim lo [ ]
snmp_ber_int-twos_complement (b ∷ v) bytes lo hi =
    let n = big_endian (b ∷ v) in
    let p = 256 ^ length (b ∷ v) in
    let small : n < p = big_endian_lt (b ∷ v) bytes in
    let room : p ≤ u64_mod = pow256-le (length (b ∷ v)) hi in
    let (upper, lower) = big_endian_halves b v bytes in
    ground (
      arith,
      accumulate-mod (sign_fill (b ∷ v)) (b ∷ v),
      sign_extended p n room small,
      small,
      room,
      upper,
      lower,
    )

-- ===== src/Snmp/Writer/Scalars.antt =====
-- The elements that hold one value: bw_int, bw_string, bw_null.
use sysmon.Base.{ℕ, suc, ◌+◌, ◌≤◌, ◌<◌, ◌≡◌, refl, ◌∙◌, arith}
use sysmon.Base.{true, List, [], ◌∷◌, inl, inr}
use sysmon.Base.{Bool-cases, length, All}
use sysmon.Base.Int.{ℤ, pattern64, pattern64_lt, signed64, signed64-pattern64, IsLong}
use native.Mathlib.Nat.{pow-suc}
use sysmon.Base.Words.{IsByte, u64_mod}
use sysmon.Ber.Value.{snmp_ber_int}
use sysmon.Ber.Value.Numbers.{twos_complement, big_endian, snmp_ber_int-twos_complement}
use sysmon.Ber.Element.{tlv}
use sysmon.Snmp.Writer.{bw_bytes, bw_int, bw_string, bw_null, octets64, shortest, is_redundant}
use sysmon.Snmp.Writer.Emits.{Emits, Emits-weaken, bw_bytes-Emits, Emits-nothing}
use sysmon.Snmp.Writer.Enclosed.{enclosed, enclosed-Emits}

-- The content of an integer element.
abbrev pub int_octets : ℤ → List ℕ
int_octets v = shortest (octets64 (pattern64 v))

length-shortest :
    (x : ℕ) (r : List ℕ)
    → (1 ≤ length (shortest (x ∷ r))) × (length (shortest (x ∷ r)) ≤ length (x ∷ r))
unfolding shortest
length-shortest x [] = omega arith
length-shortest x (y ∷ r) = ground (arith, length-shortest y r)

pub length-int_octets : (v : ℤ) → length (int_octets v) ≤ 8
length-int_octets v = (length-shortest _ _).1

pub bw_int-Emits : (tag : ℕ) (v : ℤ) → Emits (λ w. bw_int w tag v) (tlv tag (int_octets v)) 12
unfolding bw_int
bw_int-Emits tag v =
    let octets = int_octets v in
    let short : length octets ≤ 8 = (length-shortest _ _).1 in
    Emits-weaken (enclosed tag (λ w. bw_bytes w octets)) 12
      (enclosed-Emits tag (λ w. bw_bytes w octets) (bw_bytes-Emits octets) (omega arith))
      (omega arith)

pub bw_string-Emits :
    (tag : ℕ) (s : List ℕ)
    → length s < 0x10000
    → Emits (λ w. bw_string w tag s) (tlv tag s) (4 + length s)
unfolding bw_string
bw_string-Emits tag s h = enclosed-Emits tag (λ w. bw_bytes w s) (bw_bytes-Emits s) h

pub bw_null-Emits : Emits bw_null (tlv 0x05 []) 4
unfolding bw_null
bw_null-Emits = enclosed-Emits 0x05 (λ w. w) Emits-nothing (omega arith)

shortest-IsByte : (v : List ℕ) → All IsByte v → All IsByte (shortest v)
unfolding shortest
shortest-IsByte [] h = h
shortest-IsByte (x ∷ []) h = h
shortest-IsByte (x ∷ y ∷ r) h = ground (arith, shortest-IsByte (y ∷ r) h.1)

-- A redundant first byte does not change the number that the bytes stand for.
redundant-twos_complement :
    (x y : ℕ) (r : List ℕ)
    → All IsByte (x ∷ y ∷ r)
    → is_redundant x y ≡ true
    → twos_complement (y ∷ r) ≡ twos_complement (x ∷ y ∷ r)
unfolding twos_complement big_endian
redundant-twos_complement x y r h e = ground (arith, pow-suc 256 (suc (length r)))

shortest-twos_complement :
    (v : List ℕ) → All IsByte v → twos_complement (shortest v) ≡ twos_complement v
unfolding shortest
shortest-twos_complement [] h = refl
shortest-twos_complement (x ∷ []) h = refl
shortest-twos_complement (x ∷ y ∷ r) h = elim (Bool-cases (is_redundant x y)) [
  | inl again ↦
      rw again (shortest-twos_complement (y ∷ r) h.1 ∙ redundant-twos_complement x y r h again)
  | inr needed ↦ rw needed
]

big_endian-octets64 : (u : ℕ) → u < u64_mod → big_endian (octets64 u) ≡ u
unfolding big_endian
big_endian-octets64 u h = omega arith

octets64-twos_complement : (u : ℕ) → u < u64_mod → twos_complement (octets64 u) ≡ signed64 u
unfolding twos_complement
octets64-twos_complement u h = rw (big_endian-octets64 u h) (ground arith)

-- The bytes that bw_int writes for any long are read back as that long by snmp_ber_int.
pub snmp_ber_int-int_octets : (v : ℤ) → IsLong v → snmp_ber_int (int_octets v) ≡ v
snmp_ber_int-int_octets v h =
    let octets = octets64 (pattern64 v) in
    let bytes : All IsByte octets = omega arith in
    let size : (1 ≤ length (shortest octets)) × (length (shortest octets) ≤ 8) =
      length-shortest _ _ in
    snmp_ber_int-twos_complement (shortest octets) (shortest-IsByte octets bytes) size.0 size.1
    ∙ shortest-twos_complement octets bytes
    ∙ octets64-twos_complement (pattern64 v) (pattern64_lt v)
    ∙ signed64-pattern64 v h

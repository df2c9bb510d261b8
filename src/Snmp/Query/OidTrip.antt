-- ===== src/Snmp/Query/OidTrip.antt =====
-- snmp_ber_oid_str on the bytes that bw_oid writes.
use sysmon.Base.{
  ℕ, zero, suc, ◌+◌, ◌-◌, ◌*◌, ◌/◌, ◌%◌, ◌^◌, ◌≤◌, ◌<◌, ◌≡◌, refl, sym, ap, ◌∙◌, arith,
}
use sysmon.Base.{false, List, [], ◌∷◌, ◌++◌, append-nil, append_assoc, inl, inr}
use sysmon.Base.{leb, ◌==◌, Bool-cases, length, length-append, take_all, All}
use sysmon.Base.Text.{Text, bounded, decimal}
use sysmon.Base.Text.Decimal.{decimal_one_digit}
use sysmon.Base.Words.{u64_mod}
use sysmon.Ber.Value.{oid_head, oid_loop, snmp_ber_oid_str}
use sysmon.Snmp.Query.{septets, marked, subid_octets, subid_octets_of, rest_octets, oid_octets}
use sysmon.Snmp.Query.Dotted.{dotted}
use native.Mathlib.Nat.{pow-suc}

-- The number that groups of seven bits stand for, lowest first.
value : List ℕ → ℕ
value [] = 0
value (g ∷ gs) = value gs * 128 + g

abbrev IsSeptet : ℕ → Type 0
IsSeptet g = g < 128

septets-IsSeptet : (k v : ℕ) → All IsSeptet (septets k v)
unfolding septets
septets-IsSeptet zero v = tt
septets-IsSeptet (suc k) v = ground (arith, septets-IsSeptet k (v / 128))

value-septets : (k v : ℕ) → v < 128 ^ k → value (septets k v) ≡ v
unfolding septets value
value-septets zero v h = omega arith
value-septets (suc k) v h =
    let small : v / 128 < 128 ^ k = omega (arith, pow-suc 128 k) in
    ground (arith, value-septets k (v / 128) small)

length-septets_below : (k j v : ℕ) → v < 128 ^ suc j → length (septets k v) ≤ suc j
unfolding septets
length-septets_below zero j v h = omega arith
length-septets_below (suc k) zero v h = ground arith
length-septets_below (suc k) (suc j) v h =
    let small : v / 128 < 128 ^ suc j = omega (arith, pow-suc 128 (suc j)) in
    ground (arith, length-septets_below k j (v / 128) small)

-- A byte with its top bit set, and a last byte.
inner_byte :
    (outlen g : ℕ) (v : List ℕ) (sub shifted subids : ℕ) (out : Text)
    → g < 128
    → shifted ≤ 4
    → sub * 128 + g < u64_mod
    → oid_loop outlen ((g + 128) ∷ v) sub shifted subids out
      ≡ oid_loop outlen v (sub * 128 + g) (shifted + 1) subids out
unfolding oid_loop
inner_byte outlen g v sub shifted subids out hg hs hw =
    let low : (sub * 128 + (g + 128) % 128) % u64_mod ≡ sub * 128 + g = omega arith in
    ground (arith, low)

last_byte :
    (outlen g : ℕ) (v : List ℕ) (sub shifted subids : ℕ) (out : Text)
    → g < 128
    → shifted ≤ 4
    → sub * 128 + g < u64_mod
    → subids < 64
    → length out + length (b'.' ∷ decimal (sub * 128 + g)) + 1 < outlen
    → oid_loop outlen (g ∷ v) sub shifted subids out
      ≡ oid_loop outlen v 0 0 (subids + 1) (out ++ (b'.' ∷ decimal (sub * 128 + g)))
unfolding oid_loop
last_byte outlen g v sub shifted subids out hg hs hw hk fits =
    let low : (sub * 128 + g % 128) % u64_mod ≡ sub * 128 + g = omega arith in rw low (ground arith)

inner_bytes :
    (outlen : ℕ) (gs v : List ℕ) (subids : ℕ) (out : Text)
    → All IsSeptet gs
    → length gs ≤ 5
    → value gs < 2 ^ 50
    → oid_loop outlen (marked gs ++ v) 0 0 subids out
      ≡ oid_loop outlen v (value gs) (length gs) subids out
unfolding marked value
inner_bytes outlen [] v subids out h k w = refl
inner_bytes outlen (g ∷ gs) v subids out h k w =
    let n : length gs + 1 ≡ suc (length gs) = omega arith in
    ap (λ t. oid_loop outlen t 0 0 subids out) (append_assoc (marked gs) ((g + 128) ∷ []) v)
    ∙ inner_bytes outlen gs ((g + 128) ∷ v) subids out h.1 (omega arith) (omega arith)
    ∙ inner_byte outlen g v (value gs) (length gs) subids out h.0 (omega arith) (omega arith)
    ∙ rw n

-- One sub-identifier of at most five groups.
subid_bytes :
    (outlen : ℕ) (gs v : List ℕ) (n subids : ℕ) (out : Text)
    → value gs ≡ n
    → n < 2 ^ 35
    → All IsSeptet gs
    → 1 ≤ length gs
    → length gs ≤ 5
    → subids < 64
    → length out + length (b'.' ∷ decimal n) + 1 < outlen
    → oid_loop outlen (subid_octets_of gs ++ v) 0 0 subids out
      ≡ oid_loop outlen v 0 0 (subids + 1) (out ++ (b'.' ∷ decimal n))
unfolding value
subid_bytes outlen [] v n subids out e w h l k s fits = elim l [ ]
subid_bytes outlen (g ∷ gs) v n subids out e w h l k s fits = rw (← e) (
    ap (λ t. oid_loop outlen t 0 0 subids out) (append_assoc (marked gs) (g ∷ []) v)
    ∙ inner_bytes outlen gs (g ∷ v) subids out h.1 (omega arith) (omega arith)
    ∙ last_byte outlen g v (value gs) (length gs) subids out h.0 (omega arith) (omega arith) s
        (rw e fits))

length-septets_pos : (k v : ℕ) → 1 ≤ length (septets (suc k) v)
unfolding septets
length-septets_pos k v = omega arith

abbrev pub IsShortSubid : ℕ → Type 0
IsShortSubid v = v < 2 ^ 35

rest_bytes :
    (outlen : ℕ) (vs : List ℕ) (subids : ℕ) (out : Text)
    → All IsShortSubid vs
    → subids + length vs ≤ 64
    → length out + length (dotted vs) + 1 < outlen
    → oid_loop outlen (rest_octets vs) 0 0 subids out ≡ out ++ dotted vs
unfolding rest_octets subid_octets oid_loop
rest_bytes outlen [] subids out h k fits = sym (append-nil out)
rest_bytes outlen (v ∷ vs) subids out h k fits =
    let part : Text = b'.' ∷ decimal v in
    let size = length-append (decimal v) (dotted vs) in
    subid_bytes outlen (septets 10 v) (rest_octets vs) v subids out
      (value-septets 10 v (omega arith)) h.0 (septets-IsSeptet 10 v) (length-septets_pos 9 v)
      (length-septets_below 10 4 v (omega arith)) (omega arith) (omega arith)
    ∙ rest_bytes outlen vs (subids + 1) (out ++ part) h.1 (omega arith)
        (omega (arith, length-append out part))
    ∙ append_assoc out part (dotted vs)

oid_head-dotted : (a b : ℕ) → a ≤ 2 → b ≤ 39 → oid_head ((a * 40 + b) % 256) ≡ dotted (a ∷ b ∷ [])
unfolding oid_head
oid_head-dotted a b ha hb = elim (Bool-cases (leb 80 ((a * 40 + b) % 256))) [
  | inl two ↦
      let first : a ≡ 2 = ground arith in
      let second : (a * 40 + b) % 256 - 80 ≡ b = omega arith in
      rw (two, second, first) (rw (decimal_one_digit 2 (omega arith), append-nil))
  | inr low ↦
      let q : (a * 40 + b) % 256 / 40 ≡ a = ground arith in
      let r : (a * 40 + b) % 256 % 40 ≡ b = ground arith in rw (low, q, r) (rw append-nil)
]

dotted-append : (us vs : List ℕ) → dotted us ++ dotted vs ≡ dotted (us ++ vs)
dotted-append [] vs = refl
dotted-append (u ∷ us) vs =
    ap (λ t. b'.' ∷ t) (append_assoc (decimal u) (dotted us) (dotted vs) ∙ rw (dotted-append us vs))

-- An OID under the arcs 0, 1 and 2 with at most 64 further numbers below 2 ^ 35, whose text fits
-- the buffer with a byte to spare: the bytes that bw_oid writes for it print as its dotted text.
pub snmp_ber_oid_str-oid_octets :
    (outlen a b : ℕ) (vs : List ℕ)
    → a ≤ 2
    → b ≤ 39
    → All IsShortSubid vs
    → length vs ≤ 64
    → length (dotted (a ∷ b ∷ vs)) + 1 < outlen
    → snmp_ber_oid_str (oid_octets (a ∷ b ∷ vs)) outlen ≡ dotted (a ∷ b ∷ vs)
unfolding snmp_ber_oid_str oid_octets bounded
snmp_ber_oid_str-oid_octets outlen a b vs ha hb h k fits =
    let front = dotted (a ∷ b ∷ []) in
    let join : front ++ dotted vs ≡ dotted (a ∷ b ∷ vs) = dotted-append (a ∷ b ∷ []) vs in
    let size : length front + length (dotted vs) ≡ length (dotted (a ∷ b ∷ vs)) =
      sym (length-append front (dotted vs)) ∙ ap length join in
    let some_room : (outlen == 0) ≡ false = ground arith in
    rw (some_room, oid_head-dotted a b ha hb, take_all (outlen - 1) front (omega arith))
      (rest_bytes outlen vs 0 front h (omega arith) (omega arith) ∙ join)

-- ===== src/Snmp/Query/Oid.antt =====
-- How many bytes bw_oid writes.
use sysmon.Base.{ℕ, zero, suc, ◌+◌, ◌*◌, ◌/◌, ◌≤◌, ◌<◌, ◌≡◌, refl, arith}
use sysmon.Base.{true, List, [], ◌∷◌, inl, inr, Option, none, some}
use sysmon.Base.{if◌then◌else◌, Bool-cases, length, length-append}
use sysmon.Base.Text.{Text, read_digits, saturate, is_digit}
use sysmon.Snmp.Query.{
  ◌>>=◌, read_subids, after_number, behind_dot, skip_dot, oid_subids, accepted, septets, marked,
  subid_octets, subid_octets_of, rest_octets, oid_octets, snmp_max_subids,
}

length-septets : (k v : ℕ) → length (septets k v) ≤ k
unfolding septets
length-septets zero v = omega arith
length-septets (suc k) v = ground (arith, length-septets k (v / 128))

length-marked : (gs : List ℕ) → length (marked gs) ≡ length gs
unfolding marked
length-marked [] = refl
length-marked (g ∷ gs) = omega (arith, length-append (marked gs) ((g + 128) ∷ []), length-marked gs)

length-subid_octets_of : (gs : List ℕ) → length (subid_octets_of gs) ≡ length gs
length-subid_octets_of [] = refl
length-subid_octets_of (g ∷ gs) =
    omega (arith, length-append (marked gs) (g ∷ []), length-marked gs)

length-subid_octets : (v : ℕ) → length (subid_octets v) ≤ 10
unfolding subid_octets
length-subid_octets v = omega (arith, length-subid_octets_of (septets 10 v), length-septets 10 v)

length-rest_octets : (vs : List ℕ) → length (rest_octets vs) ≤ 10 * length vs
unfolding rest_octets
length-rest_octets [] = omega arith
length-rest_octets (v ∷ vs) = omega (
  arith,
  length-append (subid_octets v) (rest_octets vs),
  length-subid_octets v,
  length-rest_octets vs,
)

length-oid_octets : (subs : List ℕ) → length (oid_octets subs) ≤ 10 * length subs
unfolding oid_octets
length-oid_octets [] = omega arith
length-oid_octets (a ∷ []) = omega arith
length-oid_octets (a ∷ b ∷ vs) = omega (arith, length-rest_octets vs)

length-after_number :
    (v : ℕ) (end : Text) (rest : Option (List ℕ)) (subs : List ℕ) (n : ℕ)
    → ((vs : List ℕ) → rest ≡ some vs → length vs ≤ n)
    → after_number v end rest ≡ some subs
    → length subs ≤ suc n
length-after_number v [] rest subs n h e = ground arith
length-after_number v (d ∷ s) none subs n h e = ground arith
length-after_number v (d ∷ s) (some vs) subs n h e = ground (arith, h vs refl)

length-read_subids :
    (rounds : ℕ) (c : Text) (subs : List ℕ)
    → read_subids rounds c ≡ some subs
    → length subs ≤ rounds
unfolding read_subids
length-read_subids zero c subs e = ground arith
length-read_subids (suc rounds) [] subs e = ground arith
length-read_subids (suc rounds) (c ∷ s) subs e =
    let (v, end) = read_digits (c ∷ s) 0 in
    elim (Bool-cases (is_digit c)) [
      | inl digit ↦
          length-after_number (saturate v) end (read_subids rounds (behind_dot end)) subs rounds
            (length-read_subids rounds (behind_dot end)) (ground arith)
      | inr other ↦ ground arith
    ]

accepted_only :
    (r : Option (List ℕ)) (subs : List ℕ)
    → (r >>= λ vs. if accepted vs then some vs else none) ≡ some subs
    → (r ≡ some subs) × (accepted subs ≡ true)
accepted_only none subs e = ground arith
accepted_only (some vs) subs e = elim (Bool-cases (accepted vs)) [
  | inl good ↦
      let same : some vs ≡ some subs = rw good at e in
      let eq : vs ≡ subs = ground arith in (same, rw eq at good)
  | inr bad ↦ let no : none ≡ some subs = rw bad at e in cc
]

-- What bw_oid accepts: 2 to 128 numbers, of which the first two are in range.
pub oid_subids-accepted :
    (dotted : Text) (subs : List ℕ)
    → oid_subids dotted ≡ some subs
    → (length subs ≤ snmp_max_subids) × (accepted subs ≡ true)
unfolding oid_subids
oid_subids-accepted dotted subs e =
    let (r, good) = accepted_only (read_subids snmp_max_subids (skip_dot dotted)) subs e in
    (length-read_subids snmp_max_subids (skip_dot dotted) subs r, good)

-- An OID that bw_oid accepts takes fewer than 1400 bytes.
pub length-oid_subids :
    (dotted : Text) (subs : List ℕ)
    → oid_subids dotted ≡ some subs
    → length (oid_octets subs) < 1400
length-oid_subids dotted subs e =
    omega (arith, (oid_subids-accepted dotted subs e).0, length-oid_octets subs)

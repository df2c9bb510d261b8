-- ===== src/Snmp/Query.antt =====
-- src/snmp.c: bw_oid and snmp_build_get. Both refuse by `none`, the FALSE and the -1 of the source.
pub mod Oid
pub mod Dotted
pub mod OidTrip
pub mod Build
use sysmon.Base.{ℕ, zero, suc, ◌+◌, ◌*◌, ◌/◌, ◌%◌, ◌^◌, Bool, true, false, List, [], ◌∷◌, ◌++◌, not}
use sysmon.Base.{Option, none, some, ltb, ◌==◌, if◌then◌else◌, ◌||◌, length}
use sysmon.Base.Int.{ℤ, pos}
use sysmon.Base.Text.{Text, is_digit, read_digits, saturate}
use sysmon.Snmp.Writer.{
  Writer, bw_init, bw_byte, bw_bytes, bw_open, bw_close, bw_int, bw_string, bw_null,
}

infixl 5 ◌>>=◌ ◌>>◌
abbrev ◌>>=◌ {ℓ κ} : {A : Type ℓ} {B : Type κ} → Option A → (A → Option B) → Option B
none >>= f = none
some a >>= f = f a

abbrev ◌>>◌ {ℓ} : {B : Type ℓ} → Option (Unit {0}) → Option B → Option B
m >> k = m >>= λ _. k

abbrev guard : Bool → Option (Unit {0})
guard true = some tt
guard false = none

abbrev pub snmp_max_subids : ℕ
snmp_max_subids = 128

abbrev pub snmp_version_1 : ℕ
snmp_version_1 = 0

abbrev pub snmp_version_2c : ℕ
snmp_version_2c = 1

abbrev pub tag_integer : ℕ
tag_integer = 0x02

abbrev pub tag_octetstr : ℕ
tag_octetstr = 0x04

abbrev pub tag_oid : ℕ
tag_oid = 0x06

abbrev pub tag_sequence : ℕ
tag_sequence = 0x30

abbrev pub pdu_get : ℕ
pdu_get = 0xa0

-- What follows a number: the end, or a dot and the next round.
abbrev after_number : ℕ → Text → Option (List ℕ) → Option (List ℕ)
after_number v [] rest = some (v ∷ [])
after_number v (d ∷ s) rest = if d == b'.' then (rest >>= λ vs. some (v ∷ vs)) else none

abbrev behind_dot : Text → Text
behind_dot [] = []
behind_dot (d ∷ s) = s

-- The loop of bw_oid. Its rounds are bounded by SNMP_MAX_SUBIDS, where it stops without a refusal.
unfoldable pub read_subids : ℕ → Text → Option (List ℕ)
read_subids zero c = some []
read_subids (suc rounds) [] = some []
read_subids (suc rounds) (c ∷ s) =
    let (v, end) = read_digits (c ∷ s) 0 in
    let rest = read_subids rounds (behind_dot end) in
    if is_digit c then after_number (saturate v) end rest else none

abbrev pub skip_dot : Text → Text
skip_dot [] = []
skip_dot (c ∷ s) = if c == b'.' then s else c ∷ s

-- `n < 2 || subs[0] > 6 || subs[1] > 39` refuses.
abbrev pub accepted : List ℕ → Bool
accepted [] = false
accepted (a ∷ []) = false
accepted (a ∷ b ∷ subs) = not (ltb 6 a || ltb 39 b)

unfoldable pub oid_subids : Text → Option (List ℕ)
unfolding read_subids
oid_subids dotted = read_subids snmp_max_subids (skip_dot dotted) >>= λ subs.
    if accepted subs then some subs else none

-- `tmp[]`: groups of seven bits, lowest first, at most ten.
unfoldable pub septets : ℕ → ℕ → List ℕ
septets zero v = []
septets (suc k) v =
    let rest = septets k (v / 128) in (v % 128) ∷ (if v / 128 == 0 then [] else rest)

-- Written from the last group down, all but the lowest with the top bit set.
unfoldable pub marked : List ℕ → List ℕ
marked [] = []
marked (g ∷ gs) = marked gs ++ ((g + 128) ∷ [])

abbrev pub subid_octets_of : List ℕ → List ℕ
subid_octets_of [] = []
subid_octets_of (g ∷ gs) = marked gs ++ (g ∷ [])

unfoldable pub subid_octets : ℕ → List ℕ
unfolding septets marked
subid_octets v = subid_octets_of (septets 10 v)

unfoldable pub rest_octets : List ℕ → List ℕ
unfolding subid_octets
rest_octets [] = []
rest_octets (v ∷ vs) = subid_octets v ++ rest_octets vs

-- The content of an OID element; the first byte is an unsigned char.
unfoldable pub oid_octets : List ℕ → List ℕ
unfolding rest_octets
oid_octets [] = []
oid_octets (a ∷ []) = []
oid_octets (a ∷ b ∷ vs) = ((a * 40 + b) % 256) ∷ rest_octets vs

unfoldable pub bw_oid : Writer → Text → Option Writer
unfolding oid_subids oid_octets
bw_oid w dotted = oid_subids dotted >>= λ subs.
    let (opened, start) = bw_open w tag_oid in
    some (bw_close (bw_bytes opened (oid_octets subs)) start)

-- The result is the packet, whose length is what the C function returns.
unfoldable pub snmp_build_get : ℕ → ℕ → List ℕ → ℕ → Text → Option (List ℕ)
unfolding bw_oid
snmp_build_get outlen version community reqid oid = do
  guard (version == snmp_version_1 || version == snmp_version_2c)
  let (w1, msg) = bw_open (bw_init outlen) tag_sequence
  let w2 = bw_string (bw_int w1 tag_integer (pos version)) tag_octetstr community
  let (w3, pdu) = bw_open w2 pdu_get
  let w4 =
      bw_int (bw_int (bw_int w3 tag_integer (pos (reqid % 2 ^ 31))) tag_integer (pos 0)) tag_integer
        (pos 0)
  let (w5, vblist) = bw_open w4 tag_sequence
  let (w6, vb) = bw_open w5 tag_sequence
  w7 ← bw_oid w6 oid
  let w = bw_close (bw_close (bw_close (bw_close (bw_null w7) vb) vblist) pdu) msg
  if w.overflow then none else some w.buf

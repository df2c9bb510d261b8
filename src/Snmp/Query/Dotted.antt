-- ===== src/Snmp/Query/Dotted.antt =====
-- bw_oid on dotted texts.
use sysmon.Base.{ℕ, zero, suc, ◌≤◌, ◌<◌, ◌≡◌, refl, ◌∙◌, arith}
use sysmon.Base.{true, false, List, [], ◌∷◌, ◌++◌, some}
use sysmon.Base.{lt→ltb, length, All}
use sysmon.Base.Text.{Text, decimal, read_digits, saturate, starts_with_digit}
use sysmon.Base.Text.Decimal.{read_digits-decimal, decimal-digit}
use sysmon.Base.Words.{u64_mod}
use sysmon.Snmp.Query.{read_subids, after_number, behind_dot, oid_subids, snmp_max_subids}

-- Each number behind a dot.
abbrev pub dotted : List ℕ → Text
dotted [] = []
dotted (v ∷ vs) = b'.' ∷ (decimal v ++ dotted vs)

abbrev pub IsUlong : ℕ → Type 0
IsUlong v = v < u64_mod

dotted-not_digit : (vs : List ℕ) → starts_with_digit (dotted vs) ≡ false
dotted-not_digit [] = refl
dotted-not_digit (v ∷ vs) = refl

-- One round of the loop, on a text that starts with a digit.
read_subids-round :
    (rounds : ℕ) (c : Text) (v : ℕ) (end : Text)
    → starts_with_digit c ≡ true
    → read_digits c 0 ≡ (v, end)
    → read_subids (suc rounds) c
      ≡ after_number (saturate v) end (read_subids rounds (behind_dot end))
unfolding read_subids
read_subids-round rounds [] v end d e = cc
read_subids-round rounds (c ∷ s) v end d e = rw (d, e)

read_subids-dotted :
    (rounds v : ℕ) (vs : List ℕ)
    → All IsUlong (v ∷ vs)
    → length (v ∷ vs) ≤ rounds
    → read_subids rounds (decimal v ++ dotted vs) ≡ some (v ∷ vs)
read_subids-dotted zero v vs h k = elim k [ ]
read_subids-dotted (suc rounds) v [] h k =
    let stop = read_digits-decimal v [] h.0 refl in
    read_subids-round rounds (decimal v ++ []) v [] (decimal-digit v [] h.0) stop
    ∙ rw (lt→ltb v u64_mod h.0)
read_subids-dotted (suc rounds) v (u ∷ vs) h k =
    let more = dotted (u ∷ vs) in
    let stop = read_digits-decimal v more h.0 refl in
    read_subids-round rounds (decimal v ++ more) v more (decimal-digit v more h.0) stop
    ∙ rw (read_subids-dotted rounds u vs h.1 (omega arith)) (rw (lt→ltb v u64_mod h.0))

-- A dotted text of 2 to 128 unsigned longs whose first is at most 6 and whose second is at most
-- 39 is read by bw_oid as its numbers.
pub oid_subids-dotted :
    (a b : ℕ) (vs : List ℕ)
    → a ≤ 6
    → b ≤ 39
    → All IsUlong vs
    → length vs ≤ 126
    → oid_subids (dotted (a ∷ b ∷ vs)) ≡ some (a ∷ b ∷ vs)
unfolding oid_subids
oid_subids-dotted a b vs ha hb h k =
    let all : All IsUlong (a ∷ b ∷ vs) = (omega arith, (omega arith, h)) in
    rw (read_subids-dotted snmp_max_subids a (b ∷ vs) all (omega arith)) (ground arith)

-- ===== src/Names/Inverse.antt =====
-- The names that the daemon reports against the names that the configuration takes.
use sysmon.Base.{ℕ, zero, suc, ◌≤◌, ◌<◌, ◌≡◌, refl, ap, ◌∙◌, arith}
use sysmon.Base.{Bool, true, false, not, ◌&&◌, ◌||◌, Option, none, some}
use sysmon.Base.{leb, ◌==◌, if◌then◌else◌}
use sysmon.Base.Text.{Text, str_eq}
use sysmon.Base.Words.{agrees, agrees-below}
use sysmon.Names.{
  Options, name_to_type, type_to_name, type_of, type_word, before_colon, three, four, six,
  name_to_snmp_type, snmp_type_to_name, snmp_type_of,
}

-- A result as a number: 0 for -1.
abbrev code_of : Option ℕ → ℕ
code_of none = 0
code_of (some n) = n

code_of-some : (o : Option ℕ) (n : ℕ) → code_of o ≡ suc n → o ≡ some (suc n)
code_of-some none n e = absurd (omega (arith, e))
code_of-some (some m) n e = ap some e

-- Everything enabled.
abbrev pub full : Options
full = record { disable_icmp = false; enable_snmp = true }

-- The types whose reported name the configuration takes: all but umichX500 (9), https (15) and the two
-- numbers that no check has.
abbrev pub is_taken : ℕ → Bool
is_taken t = leb 1 t && (leb t 22 && (not (t == 9) && (not (t == 15) && not (t == 21))))

type_table :
    (t : ℕ) → t < 23 → code_of (name_to_type full (type_to_name t)) ≡ (if is_taken t then t else 0)
unfolding agrees name_to_type type_to_name type_of type_word before_colon three four six str_eq
type_table t h =
    agrees-below (λ t. code_of (name_to_type full (type_to_name t)))
      (λ t. if is_taken t then t else 0) 23 t refl h

-- With ICMP and SNMP enabled, the name that type_to_name reports for a type from 1 to 22 other
-- than 9 (umichX500), 15 (https) and 21 is one that name_to_type takes for that type.
pub name_to_type-type_to_name :
    (t : ℕ) → is_taken t ≡ true → name_to_type full (type_to_name t) ≡ some t
name_to_type-type_to_name zero h = cc
name_to_type-type_to_name (suc t) h =
    let small : suc t < 23 = ground arith in
    code_of-some (name_to_type full (type_to_name (suc t))) t (type_table (suc t) small ∙ rw h refl)

snmp_table : (t : ℕ) → t < 8 → code_of (name_to_snmp_type (snmp_type_to_name t)) ≡ t
unfolding agrees name_to_snmp_type snmp_type_to_name snmp_type_of type_word before_colon str_eq
snmp_table t h =
    agrees-below (λ t. code_of (name_to_snmp_type (snmp_type_to_name t))) (λ t. t) 8 t refl h

-- Each of the seven SNMP tests has a name, and name_to_snmp_type takes it for that test.
pub name_to_snmp_type-snmp_type_to_name :
    (t : ℕ) → 1 ≤ t → t ≤ 7 → name_to_snmp_type (snmp_type_to_name t) ≡ some t
name_to_snmp_type-snmp_type_to_name zero lo hi = absurd (omega (arith, lo))
name_to_snmp_type-snmp_type_to_name (suc t) lo hi =
    code_of-some (name_to_snmp_type (snmp_type_to_name (suc t))) t
      (snmp_table (suc t) (omega arith))

-- The checks that need a raw socket: ping, rtt, pingv6 and pktloss.
abbrev pub needs_icmp : ℕ → Bool
needs_icmp t = t == 3 || (t == 19 || (t == 20 || t == 22))

module _ (o : Options) (off : o.disable_icmp ≡ true) (w : Text) (t : ℕ) where
  three-needs_icmp : three o w ≡ some t → needs_icmp t ≡ false
  unfolding three
  three-needs_icmp e = ground (arith, e, off)

  four-needs_icmp : four o w ≡ some t → needs_icmp t ≡ false
  unfolding four
  four-needs_icmp e = ground (arith, e, off)

  six-needs_icmp : six o w ≡ some t → needs_icmp t ≡ false
  unfolding six
  six-needs_icmp e = ground (arith, e, off)

  type_of-needs_icmp : type_of o w ≡ some t → needs_icmp t ≡ false
  unfolding type_of
  type_of-needs_icmp e = ground (arith, e, off, three-needs_icmp, four-needs_icmp, six-needs_icmp)

-- With ICMP disabled, no name gives a check of the type ping, rtt, pingv6 or pktloss.
pub name_to_type-needs_icmp :
    (enable_snmp : Bool) (name : Text) (t : ℕ)
    → name_to_type (record { disable_icmp = true; enable_snmp = enable_snmp }) name ≡ some t
    → needs_icmp t ≡ false
unfolding name_to_type
name_to_type-needs_icmp enable_snmp name t e =
    type_of-needs_icmp (record { disable_icmp = true; enable_snmp = enable_snmp }) refl
      (type_word name) t e

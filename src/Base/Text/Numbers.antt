-- ===== src/Base/Text/Numbers.antt =====
-- Base ten: what strtoul, strtol and sscanf make of what `%lu` and `%ld` print.
use sysmon.Base.Tests.{ltb, Bool-cases}
use Prim.Native.Nat.{ℕ, zero, suc, ◌+◌, ◌/◌, ◌%◌, ◌≤◌, ◌<◌}
use mathlib.Core.Path.{◌≡◌, refl, sym, ap, ◌∙◌}
use mathlib.Core.Logic.{inl, inr}
use mathlib.Core.Bool.{Bool, true, false}
use mathlib.Core.List.{[], ◌∷◌, ◌++◌, append-nil}
use native.Mathlib.Omega.{arith}
use sysmon.Base.Lists.{length, length-append, All, All-append}
use sysmon.Base.Int.{ℤ, pos, negsuc, IsLong}
use sysmon.Base.Words.{u64_mod}
use sysmon.Base.Text.{
  Text, decimal, decimal_digits, decimal_signed, is_space, skip_space, starts_with_digit, Number,
  found, number_of, scan_number, strtoul, strtol, strtol_of,
}
use sysmon.Base.Text.Decimal.{read_digits-decimal, decimal-digit}

scan_number-digit : (s : Text) → starts_with_digit s ≡ true → scan_number s ≡ number_of false s
unfolding scan_number skip_space
scan_number-digit [] e = cc
scan_number-digit (c ∷ s) e =
    let dark : is_space c ≡ false = ground (arith, e) in rw dark (ground (arith, e))

module _ (n : ℕ) (rest : Text) (h : n < u64_mod) (stop : starts_with_digit rest ≡ false) where
  number_of-decimal : (minus : Bool) → number_of minus (decimal n ++ rest) ≡ found minus n rest
  number_of-decimal minus = rw (read_digits-decimal n rest h stop, decimal-digit n rest h)

  pub scan_number-decimal : scan_number (decimal n ++ rest) ≡ found false n rest
  scan_number-decimal =
      scan_number-digit (decimal n ++ rest) (decimal-digit n rest h) ∙ number_of-decimal false

  scan_number-minus : scan_number (b'-' ∷ (decimal n ++ rest)) ≡ found true n rest
  unfolding scan_number skip_space
  scan_number-minus = number_of-decimal true

-- The number that a printed `long` reads as.
abbrev pub long_number : ℤ → Text → Number
long_number (pos n) rest = found false n rest
long_number (negsuc n) rest = found true (suc n) rest

pub scan_number-decimal_signed :
    (v : ℤ) (rest : Text)
    → IsLong v
    → starts_with_digit rest ≡ false
    → scan_number (decimal_signed v ++ rest) ≡ long_number v rest
unfolding decimal_signed
scan_number-decimal_signed (pos n) rest h stop = scan_number-decimal n rest (omega arith) stop
scan_number-decimal_signed (negsuc n) rest h stop =
    scan_number-minus (suc n) rest (omega arith) stop

-- White space in front is skipped.
pub scan_number-blank : (s : Text) → scan_number (b' ' ∷ s) ≡ scan_number s
unfolding scan_number skip_space
scan_number-blank s = refl

pub strtol_of-long : (v : ℤ) (rest : Text) → IsLong v → strtol_of (long_number v rest) ≡ v
strtol_of-long (pos n) rest h = ground arith
strtol_of-long (negsuc n) rest h = ground arith

pub strtoul-decimal : (n : ℕ) → n < u64_mod → strtoul (decimal n) ≡ n
unfolding strtoul
strtoul-decimal n h =
    let e : scan_number (decimal n) ≡ found false n [] =
      ap scan_number (sym (append-nil (decimal n))) ∙ scan_number-decimal n [] h refl in
    rw e (ground arith)

pub strtol-decimal_signed : (v : ℤ) → IsLong v → strtol (decimal_signed v) ≡ v
unfolding strtol
strtol-decimal_signed v h =
    let e : scan_number (decimal_signed v) ≡ long_number v [] =
      ap scan_number (sym (append-nil (decimal_signed v)))
      ∙ scan_number-decimal_signed v [] h refl in
    rw e (strtol_of-long v [] h)

-- The bytes of a printed number, and two more.
abbrev pub IsNumeric : ℕ → Type 0
IsNumeric c = (b'-' ≤ c) × (c ≤ b'9')

decimal_digits-IsNumeric : (f n : ℕ) → All IsNumeric (decimal_digits f n)
unfolding decimal_digits
decimal_digits-IsNumeric zero n = tt
decimal_digits-IsNumeric (suc f) n = elim (Bool-cases (ltb n 10)) [
  | inl one ↦ rw one ((omega arith, ground arith), tt)
  | inr more ↦ rw more (
      All-append IsNumeric (decimal_digits f (n / 10)) ((b'0' + n % 10) ∷ [])
        (decimal_digits-IsNumeric f (n / 10)) ((omega arith, omega arith), tt))
]

pub decimal-IsNumeric : (n : ℕ) → All IsNumeric (decimal n)
unfolding decimal
decimal-IsNumeric n = decimal_digits-IsNumeric 20 n

pub decimal_signed-IsNumeric : (v : ℤ) → All IsNumeric (decimal_signed v)
unfolding decimal_signed
decimal_signed-IsNumeric (pos n) = decimal-IsNumeric n
decimal_signed-IsNumeric (negsuc n) = (omega arith, decimal-IsNumeric (suc n))

length-decimal_digits : (f n : ℕ) → length (decimal_digits f n) ≤ f
unfolding decimal_digits
length-decimal_digits zero n = omega arith
length-decimal_digits (suc f) n = ground (
  arith,
  length-decimal_digits f (n / 10),
  length-append (decimal_digits f (n / 10)) ((b'0' + n % 10) ∷ []),
)

pub length-decimal : (n : ℕ) → length (decimal n) ≤ 20
unfolding decimal
length-decimal n = length-decimal_digits 20 n

pub length-decimal_signed : (v : ℤ) → length (decimal_signed v) ≤ 21
unfolding decimal_signed
length-decimal_signed (pos n) = omega (arith, length-decimal n)
length-decimal_signed (negsuc n) = omega (arith, length-decimal (suc n))

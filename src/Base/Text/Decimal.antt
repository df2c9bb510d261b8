-- ===== src/Base/Text/Decimal.antt =====
-- Base ten: the number reader on what `%lu` prints.
use sysmon.Base.Tests.{ltb, lt→ltb, Bool-cases}
use Prim.Native.Nat.{ℕ, zero, suc, ◌+◌, ◌-◌, ◌*◌, ◌/◌, ◌%◌, ◌^◌, ◌<◌}
use mathlib.Core.Path.{◌≡◌, refl, ap, ◌∙◌}
use mathlib.Core.Logic.{inl, inr}
use mathlib.Core.Bool.{true, false}
use mathlib.Core.List.{[], ◌∷◌, ◌++◌, append_assoc}
use native.Mathlib.Nat.{pow-suc}
use sysmon.Base.Words.{u64_mod}
use native.Mathlib.Omega.{arith}
use sysmon.Base.Text.{Text, decimal, decimal_digits, read_digits, starts_with_digit}

read_digit :
    (d : ℕ) (rest : Text) (acc : ℕ)
    → d < 10
    → read_digits ((b'0' + d) ∷ rest) acc ≡ read_digits rest (acc * 10 + d)
unfolding read_digits
read_digit d rest acc h = let e : b'0' + d - b'0' ≡ d = omega arith in ground arith

read_digits-decimal_digits :
    (f n : ℕ) (rest : Text)
    → 0 < f
    → n < 10 ^ f
    → read_digits (decimal_digits f n ++ rest) 0 ≡ read_digits rest n
unfolding decimal_digits
read_digits-decimal_digits zero n rest p h = elim p [ ]
read_digits-decimal_digits (suc zero) n rest p h =
    rw (lt→ltb n 10 h) (read_digit n rest 0 h ∙ ap (read_digits rest) (omega arith))
read_digits-decimal_digits (suc (suc f)) n rest p h = elim (Bool-cases (ltb n 10)) [
  | inl one ↦ rw one (read_digit n rest 0 (ground arith) ∙ ap (read_digits rest) (omega arith))
  | inr more ↦
      let last : Text = (b'0' + n % 10) ∷ [] in
      let front : Text = decimal_digits (suc f) (n / 10) in
      let small : n / 10 < 10 ^ suc f = omega (arith, pow-suc 10 (suc f)) in
      rw more (
        ap (λ (t : Text). read_digits t 0) (append_assoc front last rest)
        ∙ read_digits-decimal_digits (suc f) (n / 10) (last ++ rest) (omega arith) small
        ∙ read_digit (n % 10) rest (n / 10) (omega arith)
        ∙ ap (read_digits rest) (omega arith))
]

-- A printed number starts with a digit.
decimal_digits-digit :
    (f n : ℕ) (rest : Text)
    → 0 < f
    → n < 10 ^ f
    → starts_with_digit (decimal_digits f n ++ rest) ≡ true
unfolding decimal_digits
decimal_digits-digit zero n rest p h = elim p [ ]
decimal_digits-digit (suc zero) n rest p h = rw (lt→ltb n 10 h) (ground arith)
decimal_digits-digit (suc (suc f)) n rest p h = elim (Bool-cases (ltb n 10)) [
  | inl one ↦ rw one (ground arith)
  | inr more ↦
      let last : Text = (b'0' + n % 10) ∷ [] in
      let small : n / 10 < 10 ^ suc f = omega (arith, pow-suc 10 (suc f)) in
      rw (more, append_assoc (decimal_digits (suc f) (n / 10)) last rest)
        (decimal_digits-digit (suc f) (n / 10) (last ++ rest) (omega arith) small)
]

-- Reading a printed unsigned long stops behind it, and gives the number back.
pub read_digits-decimal :
    (n : ℕ) (rest : Text)
    → n < u64_mod
    → starts_with_digit rest ≡ false
    → read_digits (decimal n ++ rest) 0 ≡ (n, rest)
unfolding decimal
read_digits-decimal n rest h stop =
    read_digits-decimal_digits 20 n rest (omega arith) (omega arith) ∙ stopped rest n stop
  where
    stopped :
        (rest : Text) (n : ℕ) → starts_with_digit rest ≡ false → read_digits rest n ≡ (n, rest)
    stopped [] n e = unfold read_digits in refl
    stopped (c ∷ s) n e = unfold read_digits in rw e

pub decimal-digit :
    (n : ℕ) (rest : Text) → n < u64_mod → starts_with_digit (decimal n ++ rest) ≡ true
unfolding decimal
decimal-digit n rest h = decimal_digits-digit 20 n rest (omega arith) (omega arith)

pub decimal_one_digit : (d : ℕ) → d < 10 → decimal d ≡ (b'0' + d) ∷ []
unfolding decimal
decimal_one_digit d h = one 19
  where
    one : (f : ℕ) → decimal_digits (suc f) d ≡ (b'0' + d) ∷ []
    one f = unfold decimal_digits in rw (lt→ltb d 10 h)

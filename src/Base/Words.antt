-- ===== src/Base/Words.antt =====
-- Bytes and machine words as native numbers: a mask or a shift is written as arithmetic, and here
-- is checked against the bit operation that the C code spells.
use Prim.Native.Nat.{ℕ, zero, suc, ◌+◌, ◌*◌, ◌/◌, ◌%◌, ◌^◌, ◌<◌, bit_and, bit_or}
use mathlib.Core.Path.{◌≡◌, refl}
use mathlib.Core.Bool.{Bool, true, false}
use native.Mathlib.Omega.{arith}
use mathlib.Core.Logic.{inl, inr}
use sysmon.Base.Tests.{leb, ◌==◌, ==_iff, if◌then◌else◌, Bool-cases}

abbrev pub IsByte : ℕ → Type 0
IsByte b = b < 256

abbrev pub u32_mod : ℕ
u32_mod = 2 ^ 32

abbrev pub u64_mod : ℕ
u64_mod = 2 ^ 64

-- `b & 0x80`
abbrev pub high_bit : ℕ → Bool
high_bit b = leb 128 b

-- `b & 0x7f`
abbrev pub low_seven : ℕ → ℕ
low_seven b = b % 128

-- The mask, the shift or the merge that C writes, beside the arithmetic that stands for it here.
unfoldable pub agrees : (ℕ → ℕ) → (ℕ → ℕ) → ℕ → Bool
agrees spelled written zero = true
agrees spelled written (suc k) = if spelled k == written k then agrees spelled written k else false

module _ (spelled written : ℕ → ℕ) where
  pub agrees-below : (k b : ℕ) → agrees spelled written k ≡ true → b < k → spelled b ≡ written b
  unfolding agrees
  agrees-below zero b e h = elim h [ ]
  agrees-below (suc k) b e h = elim (Bool-cases (spelled k == written k)) [
    | inl here ↦ elim (Bool-cases (b == k)) [
      | inl last ↦
          let at : b ≡ k = (==_iff b k).0 last in rw at ((==_iff (spelled k) (written k)).0 here)
      | inr before ↦ agrees-below k b (ground (arith, e, here)) (ground arith)
    ]
    | inr wrong ↦ absurd (ground (arith, e, wrong))
  ]

pub bit_and-high_bit : (b : ℕ) → IsByte b → bit_and b 0x80 ≡ b / 128 * 128
unfolding agrees
bit_and-high_bit b h = agrees-below (λ x. bit_and x 0x80) (λ x. x / 128 * 128) 256 b refl h

pub bit_and-low_seven : (b : ℕ) → IsByte b → bit_and b 0x7f ≡ low_seven b
unfolding agrees
bit_and-low_seven b h = agrees-below (λ x. bit_and x 0x7f) low_seven 256 b refl h

pub bit_and-tag_number : (b : ℕ) → IsByte b → bit_and b 0x1f ≡ b % 32
unfolding agrees
bit_and-tag_number b h = agrees-below (λ x. bit_and x 0x1f) (λ x. x % 32) 256 b refl h

pub bit_or-set_high : (b : ℕ) → b < 128 → bit_or b 0x80 ≡ b + 128
unfolding agrees
bit_or-set_high b h = agrees-below (λ x. bit_or x 0x80) (λ x. x + 128) 128 b refl h

-- ===== src/Names/Site.antt =====
-- The names that a site may have.
use sysmon.Base.{ℕ, ◌≤◌, ◌≡◌, ◌≢◌, arith, true, false, [], ◌∷◌, inl, inr}
use sysmon.Base.{Bool-cases, All, length}
use sysmon.Base.Text.{Text, is_space}
use sysmon.Names.{is_site_char, all_site_chars, valid_sitename}

-- Neither the separator of a qualified name, nor white space, nor a quote or a backslash.
abbrev pub IsPlain : ℕ → Type 0
IsPlain c = (c ≢ b':') × ((is_space c ≡ false) × ((c ≢ b'"') × ((c ≢ b'\'') × (c ≢ b'\\'))))

site_char-IsPlain : (c : ℕ) → is_site_char c ≡ true → IsPlain c
site_char-IsPlain c e = (
  (λ f. ground (arith, e)),
  (
    ground (arith, e),
    ((λ f. ground (arith, e)), ((λ f. ground (arith, e)), (λ f. ground (arith, e)))),
  ),
)

all_site_chars-IsPlain : (s : Text) → all_site_chars s ≡ true → All IsPlain s
unfolding all_site_chars
all_site_chars-IsPlain [] e = tt
all_site_chars-IsPlain (c ∷ s) e = elim (Bool-cases (is_site_char c)) [
  | inl good ↦ (site_char-IsPlain c good, all_site_chars-IsPlain s (ground (arith, e, good)))
  | inr bad ↦ absurd (ground (arith, e, bad))
]

-- A name that valid_sitename takes is not empty, and has no colon, white space, quote or backslash.
pub valid_sitename-IsPlain :
    (name : Text) → valid_sitename name ≡ true → (1 ≤ length name) × All IsPlain name
unfolding valid_sitename
valid_sitename-IsPlain [] e = cc
valid_sitename-IsPlain (c ∷ s) e = (omega arith, all_site_chars-IsPlain (c ∷ s) e)

-- ===== src/Saved/Printed.antt =====
-- The text of one line of the state file: no line break in it, and its length.
use sysmon.Base.{ℕ, ◌+◌, ◌≤◌, ◌≡◌, refl, arith}
use sysmon.Base.{Bool, true, false, List, [], ◌∷◌, ◌++◌}
use sysmon.Base.{length, length-append, All}
use sysmon.Base.Text.{Text, is_empty, codes}
use sysmon.Base.Text.Numbers.{length-decimal, length-decimal_signed}
use sysmon.Saved.{Runtime, field, flag, state_line}
use sysmon.Saved.Pairs.{lacks, lacks-append, lacks-cons, fields}
use sysmon.Saved.Line.{pairs_of, state_line-fields, lacks-decimal, lacks-decimal_signed, lacks-flag}

lacks-fields :
    (pairs : List (Text × Text)) (end : Text)
    → All (λ p. (lacks b'\n' p.0 ≡ true) × (lacks b'\n' p.1 ≡ true)) pairs
    → lacks b'\n' end ≡ true
    → lacks b'\n' (fields pairs end) ≡ true
unfolding fields field
lacks-fields [] end all h = h
lacks-fields ((key, value) ∷ pairs) end ((p, q), all) h = lacks-append b'\n' key _ p (
    lacks-cons b'\n' b'=' _ refl
      (lacks-append b'\n' value _ q (lacks-cons b'\n' b' ' _ refl (lacks-fields pairs end all h))))

-- The file's lines stand on one line each.
pub lacks-state_line :
    (n : Text) (d : Runtime) → lacks b'\n' n ≡ true → lacks b'\n' (state_line n d) ≡ true
unfolding pairs_of lacks
lacks-state_line n d h = rw (state_line-fields n d) (
    lacks-fields (pairs_of d) (codes "name" ++ (b'=' ∷ n))
      (
        (refl, lacks-decimal b'\n' d.lastcheck (omega arith)),
        (
          (refl, lacks-decimal b'\n' d.downct (omega arith)),
          (
            (refl, lacks-decimal b'\n' d.upct (omega arith)),
            (
              (refl, lacks-decimal b'\n' d.totalchecked (omega arith)),
              (
                (refl, lacks-decimal b'\n' d.totaldown (omega arith)),
                (
                  (refl, lacks-flag b'\n' d.contacted (omega arith)),
                  (
                    (refl, lacks-flag b'\n' d.acked (omega arith)),
                    (
                      (refl, lacks-decimal_signed b'\n' d.lastcontacted (omega arith)),
                      (
                        (refl, lacks-decimal_signed b'\n' d.deathtime (omega arith)),
                        (
                          (refl, lacks-decimal_signed b'\n' d.last_up (omega arith)),
                          ((refl, lacks-decimal_signed b'\n' d.last_recovery (omega arith)), tt),
                        ),
                      ),
                    ),
                  ),
                ),
              ),
            ),
          ),
        ),
      )
      h)

-- The bytes of the pairs.
width : List (Text × Text) → ℕ
width [] = 0
width ((key, value) ∷ pairs) = length key + length value + 2 + width pairs

length-fields-width :
    (pairs : List (Text × Text)) (end : Text) → length (fields pairs end) ≡ width pairs + length end
unfolding fields field width
length-fields-width [] end = omega arith
length-fields-width ((key, value) ∷ pairs) end = omega (
  arith,
  length-fields-width pairs end,
  length-append key (b'=' ∷ (value ++ (b' ' ∷ fields pairs end))),
  length-append value (b' ' ∷ fields pairs end),
)

length-flag : (b : Bool) → length (flag b) ≡ 1
length-flag true = refl
length-flag false = refl

pub length-state_line : (n : Text) (d : Runtime) → length (state_line n d) ≤ length n + 390
unfolding pairs_of width
length-state_line n d = rw (state_line-fields n d) (
    omega (
      arith,
      length-fields-width (pairs_of d) (codes "name" ++ (b'=' ∷ n)),
      length-decimal d.lastcheck,
      length-decimal d.downct,
      length-decimal d.upct,
      length-decimal d.totalchecked,
      length-decimal d.totaldown,
      length-flag d.contacted,
      length-flag d.acked,
      length-decimal_signed d.lastcontacted,
      length-decimal_signed d.deathtime,
      length-decimal_signed d.last_up,
      length-decimal_signed d.last_recovery,
    ))

pub state_line-not_empty : (n : Text) (d : Runtime) → is_empty (state_line n d) ≡ false
unfolding state_line field
state_line-not_empty n d = refl

-- ===== src/Saved/Line.antt =====
-- One line of the state file: the loop over the pairs reads back the entry that write_state prints.
use sysmon.Base.{ℕ, ◌+◌, ◌<◌, ◌≡◌, refl, ap, ◌∙◌, arith}
use sysmon.Base.{Bool, true, false, List, [], ◌∷◌, ◌++◌, none, some, inr}
use sysmon.Base.{if◌then◌else◌, length, All}
use sysmon.Base.Int.{ℤ, pos, IsLong}
use sysmon.Base.Text.{Text, codes, str_eq, decimal, decimal_signed, decimal_digits, strtol}
use sysmon.Base.Text.Numbers.{
  decimal-IsNumeric, decimal_signed-IsNumeric, strtoul-decimal, strtol-decimal_signed,
}
use sysmon.Base.Words.{u32_mod, u64_mod}
use sysmon.Saved.{Runtime, SavedState, flag, state_line, skip_blanks, assign, read_entry, unseen}
use sysmon.Saved.Pairs.{
  lacks, lacks-numeric, IsPair, fields, assign_all, read_pairs-fields, length-fields,
}

-- What a runtime's numbers can be.
pub record Fits (d : Runtime) : Type 0 where
  pub lastcheck : d.lastcheck < u32_mod
  pub downct : d.downct < u64_mod
  pub upct : d.upct < u64_mod
  pub totalchecked : d.totalchecked < u64_mod
  pub totaldown : d.totaldown < u64_mod
  pub lastcontacted : IsLong d.lastcontacted
  pub deathtime : IsLong d.deathtime
  pub last_up : IsLong d.last_up
  pub last_recovery : IsLong d.last_recovery

-- The entry that carries everything.
unfoldable pub saved_of : Text → Runtime → SavedState
saved_of n d = record {
  name = some n;
  lastcheck = some d.lastcheck;
  downct = some d.downct;
  upct = some d.upct;
  totalchecked = some d.totalchecked;
  totaldown = some d.totaldown;
  contacted = some d.contacted;
  acked = some d.acked;
  lastcontacted = some d.lastcontacted;
  deathtime = some d.deathtime;
  last_up = some d.last_up;
  last_recovery = some d.last_recovery;
}

unfoldable pub pairs_of : Runtime → List (Text × Text)
pairs_of d =
    (codes "lastcheck", decimal d.lastcheck)
    ∷ (codes "downct", decimal d.downct)
    ∷ (codes "upct", decimal d.upct)
    ∷ (codes "totalchecked", decimal d.totalchecked)
    ∷ (codes "totaldown", decimal d.totaldown)
    ∷ (codes "contacted", flag d.contacted)
    ∷ (codes "acked", flag d.acked)
    ∷ (codes "lastcontacted", decimal_signed d.lastcontacted)
    ∷ (codes "deathtime", decimal_signed d.deathtime)
    ∷ (codes "last_up", decimal_signed d.last_up)
    ∷ (codes "last_recovery", decimal_signed d.last_recovery)
    ∷ []

pub state_line-fields :
    (n : Text) (d : Runtime) → state_line n d ≡ fields (pairs_of d) (codes "name" ++ (b'=' ∷ n))
unfolding state_line fields pairs_of
state_line-fields n d = refl

pub lacks-decimal : (b n : ℕ) → b < b'-' → lacks b (decimal n) ≡ true
lacks-decimal b n low = lacks-numeric b (decimal n) (inr low) (decimal-IsNumeric n)

pub lacks-decimal_signed : (b : ℕ) (v : ℤ) → b < b'-' → lacks b (decimal_signed v) ≡ true
lacks-decimal_signed b v low =
    lacks-numeric b (decimal_signed v) (inr low) (decimal_signed-IsNumeric v)

pub lacks-flag : (b : ℕ) (v : Bool) → b < b'-' → lacks b (flag v) ≡ true
unfolding lacks
lacks-flag b true low = ground arith
lacks-flag b false low = ground arith

plain :
    (key value : Text)
    → ((t : Text) → skip_blanks (key ++ t) ≡ key ++ t)
    → lacks b'=' key ≡ true
    → str_eq key (codes "name") ≡ false
    → lacks b' ' value ≡ true
    → IsPair (key, value)
plain key value dark whole other h = record {
  key = record { dark = dark; whole = whole; other = other };
  value = h;
}

pairs_of-IsPair : (d : Runtime) → All IsPair (pairs_of d)
unfolding pairs_of lacks skip_blanks str_eq
pairs_of-IsPair d = (
  plain (codes "lastcheck") _ (λ t. refl) refl refl (lacks-decimal b' ' d.lastcheck (omega arith)),
  (
    plain (codes "downct") _ (λ t. refl) refl refl (lacks-decimal b' ' d.downct (omega arith)),
    (
      plain (codes "upct") _ (λ t. refl) refl refl (lacks-decimal b' ' d.upct (omega arith)),
      (
        plain (codes "totalchecked") _ (λ t. refl) refl refl
            (lacks-decimal b' ' d.totalchecked (omega arith)),
        (
          plain (codes "totaldown") _ (λ t. refl) refl refl
              (lacks-decimal b' ' d.totaldown (omega arith)),
          (
            plain (codes "contacted") _ (λ t. refl) refl refl
                (lacks-flag b' ' d.contacted (omega arith)),
            (
              plain (codes "acked") _ (λ t. refl) refl refl (lacks-flag b' ' d.acked (omega arith)),
              (
                plain (codes "lastcontacted") _ (λ t. refl) refl refl
                    (lacks-decimal_signed b' ' d.lastcontacted (omega arith)),
                (
                  plain (codes "deathtime") _ (λ t. refl) refl refl
                      (lacks-decimal_signed b' ' d.deathtime (omega arith)),
                  (
                    plain (codes "last_up") _ (λ t. refl) refl refl
                        (lacks-decimal_signed b' ' d.last_up (omega arith)),
                    (
                      plain (codes "last_recovery") _ (λ t. refl) refl refl
                          (lacks-decimal_signed b' ' d.last_recovery (omega arith)),
                      tt,
                    ),
                  ),
                ),
              ),
            ),
          ),
        ),
      ),
    ),
  ),
)

strtol-flag : (b : Bool) → strtol (flag b) ≡ pos (if b then 1 else 0)
unfolding decimal_signed decimal decimal_digits
strtol-flag true = strtol-decimal_signed (pos 1) (omega arith)
strtol-flag false = strtol-decimal_signed (pos 0) (omega arith)

assign_all-saved_of :
    (n : Text) (d : Runtime)
    → Fits d
    → assign (codes "name") n (assign_all (pairs_of d) unseen) ≡ saved_of n d
unfolding assign_all assign pairs_of saved_of str_eq
assign_all-saved_of n d h =
    rw
      (
        strtoul-decimal d.lastcheck (omega (arith, h.lastcheck)),
        strtoul-decimal d.downct h.downct,
        strtoul-decimal d.upct h.upct,
        strtoul-decimal d.totalchecked h.totalchecked,
        strtoul-decimal d.totaldown h.totaldown,
        strtol-flag d.contacted,
        strtol-flag d.acked,
        strtol-decimal_signed d.lastcontacted h.lastcontacted,
        strtol-decimal_signed d.deathtime h.deathtime,
        strtol-decimal_signed d.last_up h.last_up,
        strtol-decimal_signed d.last_recovery h.last_recovery,
      )
      (ground arith)

enough :
    (n : Text) (d : Runtime)
    → length (pairs_of d) < length (fields (pairs_of d) (codes "name" ++ (b'=' ∷ n))) + 1
enough n d = omega (arith, length-fields (pairs_of d) (codes "name" ++ (b'=' ∷ n)))

-- A printed line reads back as the entry that carries everything.
pub read_entry-state_line :
    (n : Text) (d : Runtime) → Fits d → read_entry (state_line n d) ≡ some (saved_of n d)
unfolding read_entry
read_entry-state_line n d h = rw (state_line-fields n d) (
    read_pairs-fields (pairs_of d) _ n none unseen (pairs_of-IsPair d) (enough n d)
    ∙ ap some (assign_all-saved_of n d h))

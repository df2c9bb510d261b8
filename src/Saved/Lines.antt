-- ===== src/Saved/Lines.antt =====
-- The lines of the state file: fgets, the end that is cut off, and the loop over the lines.
use sysmon.Base.{ℕ, zero, suc, ◌≤◌, ◌<◌, ◌≡◌, refl, ap, ◌∙◌, arith}
use sysmon.Base.{true, false, List, [], ◌∷◌, ◌++◌, Option, none, some}
use sysmon.Base.{length, length-append, All}
use sysmon.Base.Text.{Text, is_empty}
use sysmon.Saved.{
  Runtime, Element, SavedState, state_line, print_element, state_lines, read_upto, fgets,
  cut_newline, read_entry, keep_named, read_lines,
}
use sysmon.Saved.Pairs.{lacks, split_at-append}
use sysmon.Saved.Line.{Fits, saved_of, read_entry-state_line}
use sysmon.Saved.Printed.{lacks-state_line, length-state_line, state_line-not_empty}

-- Names that the file can hold: of one line, and short enough for the array of 4096 bytes.
pub record IsLineName (n : Text) : Type 0 where
  pub one_line : lacks b'\n' n ≡ true
  pub short : length n ≤ 3700

abbrev Storable : Option Text → Option Runtime → Type 0
Storable none d = Unit {0}
Storable (some n) none = Unit {0}
Storable (some n) (some d) = IsLineName n × Fits d

-- What write_state prints of the element can be read back.
abbrev pub IsStorable : Element → Type 0
IsStorable here = Storable here.unique_name here.runtime

read_upto-line :
    (k : ℕ) (line rest : Text)
    → lacks b'\n' line ≡ true
    → length line < k
    → read_upto k (line ++ (b'\n' ∷ rest)) ≡ (line ++ (b'\n' ∷ []), rest)
unfolding read_upto lacks
read_upto-line zero line rest h lt = absurd (omega arith)
read_upto-line (suc k) [] rest h lt = ground arith
read_upto-line (suc k) (c ∷ line) rest h lt = ground (arith, read_upto-line k line rest)

pub fgets-line :
    (line rest : Text)
    → lacks b'\n' line ≡ true
    → length line < 4095
    → fgets (line ++ (b'\n' ∷ rest)) ≡ some (line ++ (b'\n' ∷ []), rest)
unfolding fgets
fgets-line [] rest h lt = ap some (read_upto-line 4095 [] rest h lt)
fgets-line (c ∷ line) rest h lt = ap some (read_upto-line 4095 (c ∷ line) rest h lt)

cut_newline-line :
    (line : Text) → lacks b'\n' line ≡ true → cut_newline (line ++ (b'\n' ∷ [])) ≡ line
unfolding cut_newline
cut_newline-line line h = rw (split_at-append b'\n' line [] h) refl

read_lines-line :
    (fuel : ℕ) (line rest : Text) (head : List SavedState) (s : SavedState)
    → lacks b'\n' line ≡ true
    → length line < 4095
    → is_empty line ≡ false
    → read_entry line ≡ some s
    → read_lines (suc fuel) (line ++ (b'\n' ∷ rest)) head ≡ read_lines fuel rest (keep_named s head)
unfolding read_lines
read_lines-line fuel line rest head s h lt full e =
    ground (arith, fgets-line line rest, cut_newline-line line, e)

keep_named-saved_of :
    (n : Text) (d : Runtime) (head : List SavedState)
    → keep_named (saved_of n d) head ≡ saved_of n d ∷ head
unfolding keep_named saved_of
keep_named-saved_of n d head = refl

abbrev pub kept : Option Text → Option Runtime → List SavedState → List SavedState
kept none d head = head
kept (some n) none head = head
kept (some n) (some d) head = saved_of n d ∷ head

-- The entries of the elements in front of `head`, the last element first.
unfoldable pub saved_all : List Element → List SavedState → List SavedState
saved_all [] head = head
saved_all (here ∷ more) head = saved_all more (kept here.unique_name here.runtime head)

pub read_lines-state_lines :
    (elements : List Element) (fuel : ℕ) (head : List SavedState)
    → All IsStorable elements
    → length (state_lines elements) < fuel
    → read_lines fuel (state_lines elements) head ≡ some (saved_all elements head)
unfolding state_lines print_element saved_all
read_lines-state_lines elements zero head all h = absurd (omega arith)
read_lines-state_lines [] (suc fuel) head all h = unfold read_lines in unfold fgets in refl
read_lines-state_lines (here ∷ more) (suc fuel) head (s, all) h =
    print_one here.unique_name here.runtime s h (λ f head. read_lines-state_lines more f head all)
  where
    print_one :
        (name : Option Text) (runtime : Option Runtime)
        → Storable name runtime
        → length (print_element name runtime (state_lines more)) < suc fuel
        → ((f : ℕ) (head : List SavedState)
            → length (state_lines more) < f
            → read_lines f (state_lines more) head ≡ some (saved_all more head))
        → read_lines (suc fuel) (print_element name runtime (state_lines more)) head
          ≡ some (saved_all more (kept name runtime head))
    print_one none d s h again = again (suc fuel) head h
    print_one (some n) none s h again = again (suc fuel) head h
    print_one (some n) (some d) (l, fits) h again =
        read_lines-line fuel (state_line n d) (state_lines more) head (saved_of n d)
          (lacks-state_line n d l.one_line) (omega (arith, length-state_line n d, l.short))
          (state_line-not_empty n d) (read_entry-state_line n d fits)
        ∙ ap (read_lines fuel (state_lines more)) (keep_named-saved_of n d head)
        ∙ again fuel (saved_of n d ∷ head)
            (omega (arith, length-append (state_line n d) (b'\n' ∷ state_lines more)))

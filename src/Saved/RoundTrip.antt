-- ===== src/Saved/RoundTrip.antt =====
-- A restart: what load_state gives back of what write_state saved.
use sysmon.Base.{ℕ, ◌+◌, ◌≤◌, ◌<◌, ◌≡◌, refl, ap, ◌∙◌, arith, append_assoc}
use sysmon.Base.{true, false, List, [], ◌∷◌, ◌++◌, map, Option, none, some}
use sysmon.Base.{if◌then◌else◌, length, length-append, All, Bool-cases, inl, inr}
use sysmon.Base.Int.{ℤ, pos, negsuc, IsLong, pos_part, neg_part}
use sysmon.Base.Text.{
  Text, is_empty, codes, str_eq, decimal, decimal_signed, starts_with_digit, scan_number, found,
}
use sysmon.Base.Text.Numbers.{
  scan_number-decimal, scan_number-decimal_signed, scan_number-blank, long_number, strtol_of-long,
  length-decimal, length-decimal_signed,
}
use mathlib.Core.Path.{fun_ext}
use sysmon.Base.Words.{u64_mod}
use sysmon.Saved.{
  Runtime, Element, SavedState, state_lines, state_header, state_file, write_state, strip,
  converted, scan_header, is_stale, after_header, read_header, read_state, restore, restore_first,
  restore_element, load_state, is_named, state_max_age, state_version,
}
use sysmon.Saved.Pairs.{lacks, lacks-append}
use sysmon.Saved.Line.{lacks-decimal, lacks-decimal_signed, saved_of}
use sysmon.Saved.Lines.{IsStorable, kept, saved_all, fgets-line, read_lines-state_lines}

-- The runtime of the last element of that name.
unfoldable pub saved_for : Text → List Element → Option Runtime
saved_for n [] = none
saved_for n (here ∷ more) = elim (saved_for n more) [
  | none ↦ if is_named n here.unique_name then here.runtime else none
  | some d ↦ some d
]

-- What was saved, if anything was.
abbrev or_kept : Option Runtime → Runtime → Runtime
or_kept none d = d
or_kept (some saved) d = saved

-- The element with the saved runtime, if there is one of its name.
abbrev given_back : List Element → Option Text → Option Runtime → Option Runtime
given_back old none d = d
given_back old (some n) none = none
given_back old (some n) (some d) = some (or_kept (saved_for n old) d)

unfoldable pub restarted : List Element → Element → Element
restarted old here = record here { runtime = given_back old here.unique_name here.runtime }

restore-saved_of : (n : Text) (saved d : Runtime) → restore (saved_of n saved) d ≡ saved
unfolding restore saved_of
restore-saved_of n saved d = ground arith

or_kept_over :
    (o p : Option Runtime) (d : Runtime)
    → or_kept o (or_kept p d) ≡ or_kept (elim o [ none ↦ p | some s ↦ some s ]) d
or_kept_over none p d = refl
or_kept_over (some s) p d = refl

restore_first-kept :
    (name : Option Text) (runtime : Option Runtime) (n : Text) (head : List SavedState)
    (d : Runtime)
    → restore_first n (kept name runtime head) d
      ≡ or_kept (if is_named n name then runtime else none) (restore_first n head d)
unfolding restore_first saved_of
restore_first-kept none runtime n head d = refl
restore_first-kept (some m) none n head d = ground arith
restore_first-kept (some m) (some saved) n head d = elim (Bool-cases (str_eq m n)) [
  | inl same ↦ rw same (restore-saved_of m saved d)
  | inr other ↦ rw other refl
]

restore_first-saved_all :
    (elements : List Element) (n : Text) (head : List SavedState) (d : Runtime)
    → restore_first n (saved_all elements head) d
      ≡ or_kept (saved_for n elements) (restore_first n head d)
unfolding saved_all saved_for
restore_first-saved_all [] n head d = refl
restore_first-saved_all (here ∷ more) n head d =
    restore_first-saved_all more n (kept here.unique_name here.runtime head) d
    ∙ ap (or_kept (saved_for n more)) (restore_first-kept here.unique_name here.runtime n head d)
    ∙ or_kept_over (saved_for n more) (if is_named n here.unique_name then here.runtime else none)
        (restore_first n head d)

restore_element-saved_all :
    (old : List Element) (here : Element)
    → restore_element (saved_all old []) here ≡ restarted old here
unfolding restore_element restarted
restore_element-saved_all old here = at here.unique_name here.runtime
  where
    at :
        (name : Option Text) (runtime : Option Runtime)
        → restore_element (saved_all old []) (record { unique_name = name; runtime = runtime })
          ≡ restarted old (record { unique_name = name; runtime = runtime })
    at none runtime = refl
    at (some n) none = refl
    at (some n) (some d) =
        ap (λ (r : Runtime). record { unique_name = some n; runtime = some r })
          (restore_first-saved_all old n [] d)

converted-long_number :
    (v : ℤ) (rest : Text) → converted (long_number v rest) ≡ some (long_number v rest, rest)
unfolding converted
converted-long_number (pos n) rest = refl
converted-long_number (negsuc n) rest = refl

converted-printed :
    (v : ℤ) (rest : Text)
    → IsLong v
    → starts_with_digit rest ≡ false
    → converted (scan_number (b' ' ∷ (decimal_signed v ++ rest))) ≡ some (long_number v rest, rest)
converted-printed v rest h stop =
    ap converted
      (scan_number-blank (decimal_signed v ++ rest) ∙ scan_number-decimal_signed v rest h stop)
    ∙ converted-long_number v rest

converted-printed_count :
    (n : ℕ) (rest : Text)
    → n < u64_mod
    → starts_with_digit rest ≡ false
    → converted (scan_number (b' ' ∷ (decimal n ++ rest))) ≡ some (found false n rest, rest)
converted-printed_count n rest h stop =
    ap converted (scan_number-blank (decimal n ++ rest) ∙ scan_number-decimal n rest h stop)
    ∙ unfold converted in refl

state_header_line : ℤ → ℕ → Text
state_header_line now count =
    codes "sysmon-state"
    ++ (b' '
        ∷ (decimal 1 ++ (b' ' ∷ (decimal_signed now ++ (b' ' ∷ (decimal count ++ (b'\n' ∷ [])))))))

state_header-line :
    (now : ℤ) (count : ℕ) → state_header now count ++ (b'\n' ∷ []) ≡ state_header_line now count
unfolding state_header state_header_line
state_header-line now count = simp append_assoc

scan_header-state_header :
    (now : ℤ) (count : ℕ)
    → IsLong now
    → count < u64_mod
    → scan_header (state_header now count ++ (b'\n' ∷ [])) ≡ some (pos 1, now, count)
scan_header-state_header now count h k = ap scan_header (state_header-line now count) ∙ scan
  where
    scan : scan_header (state_header_line now count) ≡ some (pos 1, now, count)
    scan =
        unfold scan_header in
        unfold state_header_line in
        unfold strip in
        rw
          (converted-printed_count 1
            (b' ' ∷ (decimal_signed now ++ (b' ' ∷ (decimal count ++ (b'\n' ∷ []))))) (omega arith)
            refl)
          (rw (converted-printed now (b' ' ∷ (decimal count ++ (b'\n' ∷ []))) h refl) (
            rw (converted-printed_count count (b'\n' ∷ []) k refl)
              (rw (strtol_of-long now (b' ' ∷ (decimal count ++ (b'\n' ∷ []))) h) (ground arith))))

length-state_header : (now : ℤ) (count : ℕ) → length (state_header now count) < 4095
unfolding state_header
length-state_header now count = omega (
  arith,
  length-append (decimal state_version) (b' ' ∷ (decimal_signed now ++ (b' ' ∷ decimal count))),
  length-append (decimal_signed now) (b' ' ∷ decimal count),
  length-decimal state_version,
  length-decimal_signed now,
  length-decimal count,
)

lacks-state_header : (now : ℤ) (count : ℕ) → lacks b'\n' (state_header now count) ≡ true
unfolding state_header lacks
lacks-state_header now count =
    lacks-append b'\n' (decimal state_version) _ (lacks-decimal b'\n' state_version (omega arith)) (
      lacks-append b'\n' (decimal_signed now) _ (lacks-decimal_signed b'\n' now (omega arith))
        (lacks-decimal b'\n' count (omega arith)))

after_header-entries :
    (now written : ℤ) (count : ℕ) (elements : List Element)
    → All IsStorable elements
    → is_stale now written ≡ false
    → after_header now (some (pos 1, written, count)) (state_lines elements)
      ≡ some (saved_all elements [])
unfolding after_header
after_header-entries now written count elements all fresh =
    rw fresh (read_lines-state_lines elements _ [] all (omega arith))

-- The state file reads back as the entries of the elements, unless it is too old.
pub read_state-state_file :
    (now written : ℤ) (elements : List Element)
    → IsLong written
    → length elements < u64_mod
    → All IsStorable elements
    → is_stale now written ≡ false
    → read_state (some (state_file written elements)) now ≡ some (saved_all elements [])
unfolding read_state state_file
read_state-state_file now written elements h k all fresh =
    ap (read_header now) (
      fgets-line (state_header written (length elements)) (state_lines elements)
        (lacks-state_header written (length elements))
        (length-state_header written (length elements)))
    ∙ header
    ∙ after_header-entries now written (length elements) elements all fresh
  where
    header :
        read_header now
          (some (state_header written (length elements) ++ (b'\n' ∷ []), state_lines elements))
        ≡ after_header now (some (pos 1, written, length elements)) (state_lines elements)
    header =
        unfold read_header in
        ap (λ h. after_header now h (state_lines elements))
          (scan_header-state_header written (length elements) h k)

map-restarted :
    (old elements : List Element)
    → map (restore_element (saved_all old [])) elements ≡ map (restarted old) elements
map-restarted old elements = rw (fun_ext (restore_element-saved_all old)) refl

-- An empty list of elements is let alone, which is the same.
skip_empty :
    (old elements : List Element)
    → (if is_empty elements then some elements else some (map (restarted old) elements))
      ≡ some (map (restarted old) elements)
skip_empty old [] = refl
skip_empty old (here ∷ more) = refl

not_stale :
    (now written : ℤ)
    → pos_part now + neg_part written ≤ pos_part written + neg_part now + state_max_age
    → is_stale now written ≡ false
unfolding is_stale
not_stale now written h = ground (arith, h)

-- A daemon that stops at `written` and starts again at most twelve hours later, with any elements
-- in its configuration: if the names of the old elements are of one line and at most 3700 bytes,
-- their numbers in the range of their types, and the file can be opened, closed and moved, then
-- load_state puts back on each element all that was saved of the last old element of its name, and
-- leaves the elements of new names, and those without name or data, as they are.
pub load_state-write_state :
    (path : Text) (file : Option Text) (now written : ℤ) (old elements : List Element)
    → is_empty path ≡ false
    → IsLong written
    → length old < u64_mod
    → All IsStorable old
    → pos_part now + neg_part written ≤ pos_part written + neg_part now + state_max_age
    → load_state path now
        (write_state
          (record { opens = true; closes = true; renames = true })
          path
          written
          old
          file).1
        elements
      ≡ some (map (restarted old) elements)
unfolding load_state write_state
load_state-write_state path file now written old elements given h k all fresh =
    rw
      (
        given,
        read_state-state_file now written old h k all (not_stale now written fresh),
        map-restarted old elements,
      )
      (skip_empty old elements)

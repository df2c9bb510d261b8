-- ===== src/Load/Settings.antt =====
-- src/loadconfig.c: the variables of a configuration - do_set, find_value, do_set_replace - and the
-- named spawn commands - add_spawn_def, lookup_spawn_command. The array for a variable's name is taken
-- to hold it.
use sysmon.Base.{ℕ, zero, suc, ◌+◌, ◌≡◌, refl, ap, arith}
use sysmon.Base.{Bool, true, false, ◌||◌, List, [], ◌∷◌, ◌++◌, Option, none, some, inl, inr}
use sysmon.Base.{if◌then◌else◌, ◌==◌, ltb, Bool-cases, Option-cases, length}
use sysmon.Base.Text.{Text, str_eq, str_eq_iff, is_space}

abbrev pub max_strlen : ℕ
max_strlen = 32768

-- `struct set_type` and `struct spawn_def`, the newest first.
abbrev pub Definitions : Type 0
Definitions = List (Text × Text)

unfoldable pub do_set : Text → Text → Definitions → Definitions
do_set var value set_head = (var, value) ∷ set_head

unfoldable pub find_value : Text → Definitions → Option Text
find_value string [] = none
find_value string ((name, value) ∷ more) =
    if str_eq string name then some value else find_value string more

-- Up to white space or a comma.
unfoldable pub variable_name : Text → Text
variable_name [] = []
variable_name (c ∷ s) = if is_space c || (c == b',') then [] else c ∷ variable_name s

-- `strncat` where the array has room for all of it.
unfoldable pub append_fitting : Text → Text → Text
append_fitting new_string s =
    if ltb (length new_string + length s) max_strlen then new_string ++ s else new_string

-- The loop of do_set_replace. `skip` bytes belong to the name of the last variable; `found` is whether
-- `repl` is set.
unfoldable pub replace_loop : Definitions → Text → ℕ → Bool → Text → Text × Bool
unfolding find_value variable_name append_fitting
replace_loop sets [] skip found new_string = (new_string, found)
replace_loop sets (c ∷ s) (suc skip) found new_string = replace_loop sets s skip found new_string
replace_loop sets (c ∷ s) zero found new_string = elim (c == b'$') [
  | false ↦ replace_loop sets s 0 found (append_fitting new_string (c ∷ []))
  | true ↦ elim (find_value (variable_name s) sets) [
    | none ↦ replace_loop sets s 0 false new_string
    | some repl ↦
        replace_loop sets s (length (variable_name s)) true (append_fitting new_string repl)
  ]
]

unfoldable pub do_set_replace : Definitions → Text → Option Text
unfolding replace_loop
do_set_replace sets string =
    let (new_string, found) = replace_loop sets string 0 false [] in
    if found then some new_string else none

-- The loop over the definitions: with the new command at the name, none where the name is new.
unfoldable pub redefine : Text → Text → Definitions → Option Definitions
redefine name command [] = none
redefine name command ((n, c) ∷ more) =
    if str_eq n name
    then some ((n, command) ∷ more)
    else elim (redefine name command more) [ none ↦ none | some rest ↦ some ((n, c) ∷ rest) ]

unfoldable pub add_spawn_def : Text → Text → Definitions → Definitions
unfolding redefine
add_spawn_def name command spawn_defs_head = elim (redefine name command spawn_defs_head) [
  | none ↦ (name, command) ∷ spawn_defs_head
  | some redefined ↦ redefined
]

unfoldable pub lookup_spawn_command : Text → Definitions → Option Text
lookup_spawn_command name [] = none
lookup_spawn_command name ((n, command) ∷ more) =
    if str_eq n name then some command else lookup_spawn_command name more

redefine-lookup :
    (name command other : Text) (all redefined : Definitions)
    → redefine name command all ≡ some redefined
    → lookup_spawn_command other redefined
      ≡ (if str_eq name other then some command else lookup_spawn_command other all)
unfolding redefine lookup_spawn_command
redefine-lookup name command other [] redefined e = cc
redefine-lookup name command other ((n, c) ∷ more) redefined e = elim (Bool-cases (str_eq n name)) [
  | inl same ↦
      let at = ap (λ (t : Text). str_eq t other) ((str_eq_iff n name).0 same) in
      ground (arith, e, same, at)
  | inr differ ↦ elim (Option-cases (redefine name command more)) [
    | inl f ↦ absurd (ground (arith, e, differ, f))
    | inr (rest, f) ↦ ground (
      arith,
      e,
      differ,
      f,
      redefine-lookup name command other more rest f,
      str_eq_iff n other,
      str_eq_iff name other,
      str_eq_iff n name,
    )
  ]
]

redefine-none :
    (name command : Text) (all : Definitions)
    → redefine name command all ≡ none
    → lookup_spawn_command name all ≡ none
unfolding redefine lookup_spawn_command
redefine-none name command [] e = refl
redefine-none name command ((n, c) ∷ more) e = ground (arith, e, redefine-none name command more)

-- After a definition a name stands for its command, and every other name for what it stood for.
pub lookup_spawn_command-add_spawn_def :
    (name command other : Text) (all : Definitions)
    → lookup_spawn_command other (add_spawn_def name command all)
      ≡ (if str_eq name other then some command else lookup_spawn_command other all)
lookup_spawn_command-add_spawn_def name command other all =
    elim (Option-cases (redefine name command all)) [
      | inl e ↦ unfold add_spawn_def in unfold lookup_spawn_command in ground (arith, e)
      | inr (redefined, e) ↦
          unfold add_spawn_def in
          (ground (arith, e, redefine-lookup name command other all redefined e))
    ]

-- ===== src/Saved.antt =====
-- src/savestate.c: the checkpoint of what the daemon has learned, and its way back after a restart.
-- The state file is its text, none where there is no file; fopen, fclose and rename may fail, as
-- `Disk` says. A bit of `seen` and the field that it guards are one Option.
mod Tests
pub mod Pairs
pub mod Line
pub mod Printed
pub mod Lines
pub mod Defined
pub mod RoundTrip
pub mod Checkpoint
pub mod Restart
use sysmon.Base.{
  ℕ, zero, suc, ◌+◌, ◌-◌, ◌%◌, ◌^◌, Bool, true, false, not, ◌&&◌, ◌||◌, List, [], ◌∷◌, ◌++◌, map,
}
use sysmon.Base.{Option, none, some, ltb, leb, ◌==◌, if◌then◌else◌, length}
use sysmon.Base.Int.{ℤ, pos, negsuc, to_int, is_pos, is_before, exceeds}
use sysmon.Base.Text.{Text, codes, str_eq, is_empty, decimal, decimal_signed, is_space, skip_space}
use sysmon.Base.Text.{strtoul, strtol, Number, absent, found, scan_number, strtoul_of, strtol_of}
use sysmon.Base.Words.{u32_mod}

abbrev pub state_version : ℕ
state_version = 1

abbrev pub state_max_age : ℕ
state_max_age = 43200

abbrev pub state_checkpoint_secs : ℕ
state_checkpoint_secs = 600

abbrev pub large_tempbuf_size : ℕ
large_tempbuf_size = 4096

-- The fields of `struct hostinfo` that are saved.
pub record Runtime : Type 0 where
  pub lastcheck : ℕ
  pub downct : ℕ
  pub upct : ℕ
  pub totalchecked : ℕ
  pub totaldown : ℕ
  pub contacted : Bool
  pub acked : Bool
  pub lastcontacted : ℤ
  pub deathtime : ℤ
  pub last_up : ℤ
  pub last_recovery : ℤ

-- An entry of the list of elements; none for a NULL pointer on the way.
pub record Element : Type 0 where
  pub unique_name : Option Text
  pub runtime : Option Runtime

-- `struct saved_state`, less the link.
pub record SavedState : Type 0 where
  pub name : Option Text
  pub lastcheck : Option ℕ
  pub downct : Option ℕ
  pub upct : Option ℕ
  pub totalchecked : Option ℕ
  pub totaldown : Option ℕ
  pub contacted : Option Bool
  pub acked : Option Bool
  pub lastcontacted : Option ℤ
  pub deathtime : Option ℤ
  pub last_up : Option ℤ
  pub last_recovery : Option ℤ

abbrev pub flag : Bool → Text
flag b = if b then b'1' ∷ [] else b'0' ∷ []

-- `"key=%… "`
unfoldable pub field : Text → Text → Text → Text
field key value rest = key ++ (b'=' ∷ (value ++ (b' ' ∷ rest)))

-- One line, without its end.
unfoldable pub state_line : Text → Runtime → Text
unfolding field
state_line unique_name d = field (codes "lastcheck") (decimal d.lastcheck) (
    field (codes "downct") (decimal d.downct) (
      field (codes "upct") (decimal d.upct) (
        field (codes "totalchecked") (decimal d.totalchecked) (
          field (codes "totaldown") (decimal d.totaldown) (
            field (codes "contacted") (flag d.contacted) (
              field (codes "acked") (flag d.acked) (
                field (codes "lastcontacted") (decimal_signed d.lastcontacted) (
                  field (codes "deathtime") (decimal_signed d.deathtime) (
                    field (codes "last_up") (decimal_signed d.last_up) (
                      field (codes "last_recovery") (decimal_signed d.last_recovery)
                        (codes "name" ++ (b'=' ∷ unique_name))))))))))))

-- One round of the loop, in front of what the others print: nothing where a pointer is NULL.
unfoldable pub print_element : Option Text → Option Runtime → Text → Text
print_element none runtime rest = rest
print_element (some unique_name) none rest = rest
print_element (some unique_name) (some d) rest = state_line unique_name d ++ (b'\n' ∷ rest)

unfoldable pub state_lines : List Element → Text
unfolding print_element
state_lines [] = []
state_lines (here ∷ more) = print_element here.unique_name here.runtime (state_lines more)

unfoldable pub state_header : ℤ → ℕ → Text
state_header now count =
    codes "sysmon-state"
    ++ (b' ' ∷ (decimal state_version ++ (b' ' ∷ (decimal_signed now ++ (b' ' ∷ decimal count)))))

unfoldable pub state_file : ℤ → List Element → Text
unfolding state_header state_lines
state_file now elements = state_header now (length elements) ++ (b'\n' ∷ state_lines elements)

-- What the three calls on the file answer.
pub record Disk : Type 0 where
  pub opens : Bool
  pub closes : Bool
  pub renames : Bool

-- The return value, and the state file after it; the text goes to another file first.
unfoldable pub write_state : Disk → Text → ℤ → List Element → Option Text → ℤ × Option Text
unfolding state_file
write_state disk path now elements old =
    if is_empty path || not disk.opens
    then (negsuc 0, old)
    else if disk.closes && disk.renames
    then (pos (length elements), some (state_file now elements))
    else (negsuc 0, old)

-- `fgets(line, size, fh)`: a line with its end, or as much of it as the array takes.
unfoldable pub read_upto : ℕ → Text → Text × Text
read_upto zero s = ([], s)
read_upto (suc n) [] = ([], [])
read_upto (suc n) (c ∷ s) =
    let (line, rest) = read_upto n s in if c == b'\n' then (c ∷ [], s) else (c ∷ line, rest)

unfoldable pub fgets : Text → Option (Text × Text)
unfolding read_upto
fgets [] = none
fgets (c ∷ s) = some (read_upto (large_tempbuf_size - 1) (c ∷ s))

-- `strchr`: what stands before and behind the first such byte.
unfoldable pub split_at : ℕ → Text → Option (Text × Text)
split_at b [] = none
split_at b (c ∷ s) =
    if c == b
    then some ([], s)
    else elim (split_at b s) [ none ↦ none | some (front, back) ↦ some (c ∷ front, back) ]

abbrev pub front_of : Text → Option (Text × Text) → Text
front_of line none = line
front_of line (some (front, back)) = front

-- `if (nl != NULL) *nl = '\0'`
unfoldable pub cut_newline : Text → Text
cut_newline line = front_of line (split_at b'\n' line)

unfoldable pub skip_blanks : Text → Text
skip_blanks [] = []
skip_blanks (c ∷ p) = if c == b' ' || c == b'\t' then skip_blanks p else c ∷ p

-- The pointer that is returned, none for NULL, and the pair, none where key and val are left alone.
unfoldable pub value_of : Text → Text → Option Text × Option (Text × Text)
value_of key after =
    if str_eq key (codes "name") then (none, some (key, after)) else elim (split_at b' ' after) [
      | none ↦ (none, some (key, after))
      | some (value, more) ↦ (some more, some (key, value))
    ]

unfoldable pub next_pair : Text → Option Text × Option (Text × Text)
unfolding value_of
next_pair p = elim (split_at b'=' (skip_blanks p)) [
  | none ↦ (none, none)
  | some (key, after) ↦ value_of key after
]

abbrev is_nonzero : ℤ → Bool
is_nonzero v = not (is_pos v 0)

unfoldable pub assign : Text → Text → SavedState → SavedState
assign key val s =
    if str_eq key (codes "name")
    then record s { name = some val }
    else if str_eq key (codes "lastcheck")
    then record s { lastcheck = some (strtoul val % u32_mod) }
    else if str_eq key (codes "downct")
    then record s { downct = some (strtoul val) }
    else if str_eq key (codes "upct")
    then record s { upct = some (strtoul val) }
    else if str_eq key (codes "totalchecked")
    then record s { totalchecked = some (strtoul val) }
    else if str_eq key (codes "totaldown")
    then record s { totaldown = some (strtoul val) }
    else if str_eq key (codes "contacted")
    then record s { contacted = some (is_nonzero (strtol val)) }
    else if str_eq key (codes "acked")
    then record s { acked = some (is_nonzero (strtol val)) }
    else if str_eq key (codes "lastcontacted")
    then record s { lastcontacted = some (strtol val) }
    else if str_eq key (codes "deathtime")
    then record s { deathtime = some (strtol val) }
    else if str_eq key (codes "last_up")
    then record s { last_up = some (strtol val) }
    else if str_eq key (codes "last_recovery")
    then record s { last_recovery = some (strtol val) }
    else s

abbrev pub latest : Option (Text × Text) → Option (Text × Text) → Option (Text × Text)
latest none held = held
latest (some pair) held = some pair

-- The loop over the pairs of a line. `held` is what key and val hold from the round before, none in
-- the first round, where they are not set; to read them then is the result none. The fuel is the
-- length of the line and one.
unfoldable pub read_pairs : ℕ → Text → Option (Text × Text) → SavedState → Option SavedState
unfolding next_pair assign
read_pairs zero p held s = none
read_pairs (suc fuel) p held s = elim (latest (next_pair p).1 held) [
  | none ↦ none
  | some (key, val) ↦ elim (next_pair p).0 [
    | none ↦ some (assign key val s)
    | some q ↦ read_pairs fuel q (some (key, val)) (assign key val s)
  ]
]

-- After `memset`.
abbrev pub unseen : SavedState
unseen = record {
  name = none;
  lastcheck = none;
  downct = none;
  upct = none;
  totalchecked = none;
  totaldown = none;
  contacted = none;
  acked = none;
  lastcontacted = none;
  deathtime = none;
  last_up = none;
  last_recovery = none;
}

unfoldable pub read_entry : Text → Option SavedState
unfolding read_pairs
read_entry line = read_pairs (length line + 1) line none unseen

-- `s->next = head; head = s;` for an entry with a name.
unfoldable pub keep_named : SavedState → List SavedState → List SavedState
keep_named s head = elim s.name [ none ↦ head | some n ↦ s ∷ head ]

-- The loop over the lines, with the rest of the file as `text`.
unfoldable pub read_lines : ℕ → Text → List SavedState → Option (List SavedState)
unfolding fgets read_entry keep_named cut_newline
read_lines zero text head = none
read_lines (suc fuel) text head = elim (fgets text) [
  | none ↦ some head
  | some (raw, rest) ↦
      if is_empty (cut_newline raw)
      then read_lines fuel rest head
      else elim (read_entry (cut_newline raw)) [
        | none ↦ none
        | some s ↦ read_lines fuel rest (keep_named s head)
      ]
]

-- The literal part of a format: what stands behind it, none where the input differs.
unfoldable pub strip : Text → Text → Option Text
strip [] s = some s
strip (x ∷ p) [] = none
strip (x ∷ p) (c ∷ s) = if c == x then strip p s else none

-- One conversion: the number and what stands behind it, none where there is no number.
unfoldable pub converted : Number → Option (Number × Text)
converted absent = none
converted (found minus n rest) = some (found minus n rest, rest)

infixl 5 ◌>>=◌
abbrev pub ◌>>=◌ {ℓ κ} : {A : Type ℓ} {B : Type κ} → Option A → (A → Option B) → Option B
none >>= f = none
some a >>= f = f a

-- `sscanf(line, STATE_MAGIC " %d %lld %lu", &version, &written, &claimed)`, none for less than 3. A
-- conversion skips white space by itself; %d keeps the low 32 bits of what it reads.
unfoldable pub scan_header : Text → Option (ℤ × ℤ × ℕ)
unfolding strip converted scan_number
scan_header line = do
  rest ← strip (codes "sysmon-state") line
  (version, after) ← converted (scan_number rest)
  (written, behind) ← converted (scan_number after)
  (claimed, end) ← converted (scan_number behind)
  some (to_int (strtol_of version), strtol_of written, strtoul_of claimed)

-- `now - written > STATE_MAX_AGE`
unfoldable pub is_stale : ℤ → ℤ → Bool
is_stale now written = exceeds now written state_max_age

-- What `read_state` does behind a header: the entries, the newest line first; none is undefined.
unfoldable pub after_header : ℤ → Option (ℤ × ℤ × ℕ) → Text → Option (List SavedState)
unfolding is_stale read_lines
after_header now none rest = some []
after_header now (some (version, written, claimed)) rest =
    if not (is_pos version state_version)
    then some []
    else if is_stale now written
    then some []
    else read_lines (length rest + 1) rest []

unfoldable pub read_header : ℤ → Option (Text × Text) → Option (List SavedState)
unfolding after_header scan_header
read_header now none = some []
read_header now (some (line, rest)) = after_header now (scan_header line) rest

unfoldable pub read_state : Option Text → ℤ → Option (List SavedState)
unfolding read_header fgets
read_state none now = some []
read_state (some text) now = read_header now (fgets text)

abbrev or_else {ℓ} : {A : Type ℓ} → Option A → A → A
or_else none old = old
or_else (some new) old = new

-- Only what the line carried.
unfoldable pub restore : SavedState → Runtime → Runtime
restore s d = record {
  lastcheck = or_else s.lastcheck d.lastcheck;
  downct = or_else s.downct d.downct;
  upct = or_else s.upct d.upct;
  totalchecked = or_else s.totalchecked d.totalchecked;
  totaldown = or_else s.totaldown d.totaldown;
  contacted = or_else s.contacted d.contacted;
  acked = or_else s.acked d.acked;
  lastcontacted = or_else s.lastcontacted d.lastcontacted;
  deathtime = or_else s.deathtime d.deathtime;
  last_up = or_else s.last_up d.last_up;
  last_recovery = or_else s.last_recovery d.last_recovery;
}

abbrev is_named : Text → Option Text → Bool
is_named n none = false
is_named n (some m) = str_eq m n

-- The inner loop: the first entry of the name, if there is one.
unfoldable pub restore_first : Text → List SavedState → Runtime → Runtime
unfolding restore
restore_first n [] d = d
restore_first n (s ∷ saved) d = if is_named n s.name then restore s d else restore_first n saved d

-- The body of the outer loop.
unfoldable pub restore_element : List SavedState → Element → Element
unfolding restore_first
restore_element saved here = elim here.unique_name [
  | none ↦ here
  | some n ↦ elim here.runtime [
    | none ↦ here
    | some d ↦ record here { runtime = some (restore_first n saved d) }
  ]
]

-- The list of elements after it; none is undefined behaviour in `read_state`.
unfoldable pub load_state : Text → ℤ → Option Text → List Element → Option (List Element)
unfolding read_state restore_element
load_state path now file elements =
    if is_empty path || is_empty elements then some elements else elim (read_state file now) [
      | none ↦ none
      | some saved ↦ some (map (restore_element saved) elements)
    ]

-- What `checkpoint_state` decides: `last` after it, and whether `write_state` is called.
unfoldable pub checkpoint_state : ℤ → ℤ → Text → ℤ × Bool
checkpoint_state last now path =
    if is_empty path
    then (last, false)
    else if is_pos last 0 || is_before now last
    then (now, false)
    else if not (exceeds now last (state_checkpoint_secs - 1))
    then (last, false)
    else (now, true)

-- ===== src/Ber/Cursor.antt =====
-- src/trapdecode.c: snmp_ber_open and snmp_ber_next, over an array with explicit indices. A load
-- outside the array is the outcome `overrun`, which is no value of the C function.
use sysmon.Base.{ℕ, zero, suc, ◌+◌, ◌-◌, ◌*◌, ◌%◌, List}
use sysmon.Base.{Option, none, some, ltb, leb, ◌==◌, if◌then◌else◌, ◌||◌, get_elem?, take, drop}
use sysmon.Base.Words.{high_bit, low_seven}

-- `struct ber_cursor`
pub record Cursor : Type 0 where
  pub buf : List ℕ
  pub len : ℕ
  pub pos : ℕ

unfoldable pub snmp_ber_open : List ℕ → ℕ → Cursor
snmp_ber_open buf len = record { buf = buf; len = len; pos = 0 }

-- One element: its tag and the bytes of its value.
pub record Tlv : Type 0 where
  pub tag : ℕ
  pub val : List ℕ

pub data Outcome : Type 0 where
  overrun : Outcome
  refused : Outcome
  element : Tlv → Cursor → Outcome

-- `c->buf[c->pos++]`
unfoldable pub load : Cursor → Option (ℕ × Cursor)
load c = elim (get_elem? c.buf c.pos) [
  | none ↦ none
  | some b ↦ some (b, record c { pos = c.pos + 1 })
]

-- `while (n-- > 0) l = (l << 8) | c->buf[c->pos++];`
unfoldable pub load_length : ℕ → ℕ → Cursor → Option (ℕ × Cursor)
unfolding load
load_length zero l c = some (l, c)
load_length (suc n) l c = elim (load c) [
  | none ↦ none
  | some (b, c') ↦ load_length n (l * 256 + b) c'
]

-- The last test, and the value handed out: `c->buf + c->pos`, of `l` bytes.
unfoldable pub finish : ℕ → ℕ → Cursor → Outcome
finish t l c =
    if ltb (c.len - c.pos) l
    then refused
    else element (record { tag = t; val = take l (drop c.pos c.buf) })
        (record c { pos = c.pos + l })

unfoldable pub long_form : ℕ → ℕ → Cursor → Outcome
unfolding load_length finish
long_form t n c =
    if n == 0 || ltb 4 n
    then refused
    else if ltb c.len (c.pos + n)
    then refused
    else elim (load_length n 0 c) [ none ↦ overrun | some (l, c') ↦ finish t l c' ]

unfoldable pub length_field : ℕ → Cursor → Outcome
unfolding load long_form finish
length_field t c = if leb c.len c.pos then refused else elim (load c) [
  | none ↦ overrun
  | some (l, c') ↦ if high_bit l then long_form t (low_seven l) c' else finish t l c'
]

unfoldable pub snmp_ber_next : Cursor → Outcome
unfolding load length_field
snmp_ber_next c = if leb c.len c.pos then refused else elim (load c) [
  | none ↦ overrun
  | some (t, c') ↦ if t % 32 == 31 then refused else length_field t c'
]

-- ===== src/Ber/Reader/Refine.antt =====
-- The reader on indices against the reader on lists.
use sysmon.Base.{ℕ, zero, suc, ◌+◌, ◌-◌, ◌*◌, ◌%◌, ◌≤◌, ◌<◌, ◌≡◌, refl, arith}
use native.Mathlib.Numerals.{add-one}
use sysmon.Base.{List, [], ◌∷◌, Option, none, some, inl, inr}
use sysmon.Base.{ltb, leb, Bool-cases, Option-cases, length, get_elem?, drop}
use sysmon.Base.{length-drop, drop-drop, drop_all, drop-get_elem?, get_elem?-none}
use sysmon.Ber.Cursor.{
  Cursor, Tlv, Outcome, overrun, refused, element, load, load_length, finish, long_form,
  length_field, snmp_ber_next,
}
use sysmon.Ber.Reader.{read_length, read_value, read_long, read_body, read_tlv}

-- A cursor inside its array, whose length is what the caller received.
pub record IsValid (c : Cursor) : Type 0 where
  pub whole : c.len ≡ length c.buf
  pub inside : c.pos ≤ c.len

-- What is not read yet.
abbrev pub unread : Cursor → List ℕ
unread c = drop c.pos c.buf

-- What a caller makes of an outcome: a failed read is final for its cursor.
abbrev pub answer : Outcome → Option (Tlv × List ℕ)
answer overrun = none
answer refused = none
answer (element e c) = some (e, unread c)

-- No load left the array, and the cursor is still inside it.
abbrev pub IsSafe : Outcome → Type 0
IsSafe overrun = ⊥
IsSafe refused = Unit {0}
IsSafe (element e c) = IsValid c

pub record Agrees (o : Outcome) (r : Option (Tlv × List ℕ)) : Type 0 where
  pub same : answer o ≡ r
  pub safe : IsSafe o

-- A load in range succeeds, and takes the first unread byte.
load-unread :
    (c : Cursor)
    → IsValid c
    → c.pos < c.len
    → (b : ℕ) × (load c ≡ some (b, record c { pos = c.pos + 1 }))
      × (unread c ≡ b ∷ drop (c.pos + 1) c.buf)
unfolding load
load-unread c v h = elim (Option-cases (get_elem? c.buf c.pos)) [
  | inl e ↦ absurd (omega (arith, get_elem?-none c.buf c.pos e))
  | inr (b, e) ↦ (b, rw (e, load), rw add-one (drop-get_elem? c.buf c.pos b e))
]

length-unread : (c : Cursor) → IsValid c → length (unread c) ≡ c.len - c.pos
length-unread c v = omega (arith, length-drop c.pos c.buf)

finish-Agrees :
    (t l : ℕ) (c : Cursor) → IsValid c → Agrees (finish t l c) (read_value t l (unread c))
unfolding finish read_value
finish-Agrees t l c v = ground (arith, length-unread c v, drop-drop c.pos l c.buf)

load_length-Agrees :
    (n l : ℕ) (c : Cursor)
    → IsValid c
    → c.pos + n ≤ c.len
    → (m : ℕ) × (c' : Cursor) × (load_length n l c ≡ some (m, c'))
      × (read_length n l (unread c) ≡ some (m, unread c'))
      × IsValid c'
unfolding load_length read_length
load_length-Agrees zero l c v h = (l, c, refl, refl, v)
load_length-Agrees (suc n) l c v h =
    let (b, e, u) = load-unread c v (omega arith) in
    let d : Cursor = record c { pos = c.pos + 1 } in
    let (m, c', p, q, w) = load_length-Agrees n (l * 256 + b) d (omega arith) (omega arith) in
    (m, c', rw (e, load_length) p, rw (u, read_length) q, w)

read_length_short : (n l : ℕ) (r : List ℕ) → length r < n → read_length n l r ≡ none
unfolding read_length
read_length_short zero l r h = elim h [ ]
read_length_short (suc n) l [] h = refl
read_length_short (suc n) l (b ∷ r) h = read_length_short n (l * 256 + b) r (omega arith)

long_form-Agrees :
    (t n : ℕ) (c : Cursor) → IsValid c → Agrees (long_form t n c) (read_long t n (unread c))
unfolding long_form read_long
long_form-Agrees t n c v = elim (Bool-cases (ltb c.len (c.pos + n))) [
  | inl short ↦ ground (arith, read_length_short n 0 (unread c), length-unread c v)
  | inr fits ↦
      let (l, c', p, q, w) = load_length-Agrees n 0 c v (ground arith) in
      ground (arith, p, q, finish-Agrees t l c' w)
]

length_field-Agrees :
    (t : ℕ) (c : Cursor) → IsValid c → Agrees (length_field t c) (read_body t (unread c))
unfolding length_field read_body
length_field-Agrees t c v = elim (Bool-cases (leb c.len c.pos)) [
  | inl done ↦
      rw done (rw (drop_all c.pos c.buf (ground arith)) (record { same = refl; safe = tt }))
  | inr more ↦
      let (l, e, u) = load-unread c v (ground arith) in
      let d : Cursor = record c { pos = c.pos + 1 } in
      let w : IsValid d = ground arith in
      rw (more, e, u) (ground (arith, long_form-Agrees t (l % 128) d w, finish-Agrees t l d w))
]

-- On every valid cursor `snmp_ber_next` loads no byte outside the buffer, leaves a valid cursor,
-- and gives the same element and the same unread bytes as the reader on lists.
pub snmp_ber_next-Agrees : (c : Cursor) → IsValid c → Agrees (snmp_ber_next c) (read_tlv (unread c))
unfolding snmp_ber_next read_tlv
snmp_ber_next-Agrees c v = elim (Bool-cases (leb c.len c.pos)) [
  | inl done ↦
      rw done (rw (drop_all c.pos c.buf (ground arith)) (record { same = refl; safe = tt }))
  | inr more ↦
      let (t, e, u) = load-unread c v (ground arith) in
      let d : Cursor = record c { pos = c.pos + 1 } in
      let w : IsValid d = ground arith in
      rw (more, e, u) (ground (arith, length_field-Agrees t d w))
]

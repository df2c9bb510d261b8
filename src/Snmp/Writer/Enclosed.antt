-- ===== src/Snmp/Writer/Enclosed.antt =====
-- A pair of bw_open and bw_close with what is written between them.
use sysmon.Base.{ℕ, ◌+◌, ◌-◌, ◌≤◌, ◌<◌, ◌≡◌, refl, ap, ◌∙◌, arith}
use sysmon.Base.{true, false, List, [], ◌∷◌, ◌++◌, append_assoc, inl, inr}
use sysmon.Base.{ltb, lt→ltb, Bool-cases, le→ltb, length, length-append}
use sysmon.Base.{set-append_add, take-append_add, drop-append_add, set, take, drop}
use sysmon.Ber.Element.{tlv, length-tlv}
use sysmon.Snmp.Writer.{Writer, bw_byte, bw_open, close_short, close_long, bw_close}
use sysmon.Snmp.Writer.Emits.{Emits, Emits-then, bw_byte-Emits}

-- `bw_open`, what `body` writes, and the `bw_close` of that element.
abbrev pub enclosed : ℕ → (Writer → Writer) → Writer → Writer
enclosed tag body w = let (opened, start) = bw_open w tag in bw_close (body opened) start

-- An opened element: its tag and three bytes for the length.
open_bytes-Emits : (tag : ℕ) → Emits (λ w. (bw_open w tag).0) (tag ∷ 0 ∷ 0 ∷ 0 ∷ []) 4
unfolding bw_open
open_bytes-Emits tag =
    Emits-then (λ w. bw_byte (bw_byte (bw_byte w tag) 0) 0) (λ w. bw_byte w 0)
      (Emits-then (λ w. bw_byte (bw_byte w tag) 0) (λ w. bw_byte w 0)
        (Emits-then (λ w. bw_byte w tag) (λ w. bw_byte w 0) (bw_byte-Emits tag) (bw_byte-Emits 0))
        (bw_byte-Emits 0))
      (bw_byte-Emits 0)

-- The reserved bytes behind the tag, and what the two forms of the length make of them.
module _ (p bs : List ℕ) (tag : ℕ) where
  abbrev reserved : List ℕ
  reserved = tag ∷ 0 ∷ 0 ∷ 0 ∷ bs

  short_moved :
      (c : ℕ)
      → take (length p + 2) (set (p ++ reserved) (length p + 1) c)
          ++ drop (length p + 4) (p ++ reserved)
        ≡ p ++ (tag ∷ c ∷ bs)
  short_moved c =
      rw (set-append_add p reserved 1 c, take-append_add p _ 2, drop-append_add p reserved 4)
        (append_assoc p (tag ∷ c ∷ []) bs)

  long_written :
      (a b c : ℕ)
      → set (set (set (p ++ reserved) (length p + 1) a) (length p + 2) b) (length p + 3) c
        ≡ p ++ (tag ∷ a ∷ b ∷ c ∷ bs)
  long_written a b c =
      rw (set-append_add p reserved 1 a, set-append_add p _ 2 b) (set-append_add p _ 3 c)

-- Closing over the content `bs` puts the shortest length before it.
close-tlv :
    (w : Writer) (p : List ℕ) (tag : ℕ) (bs : List ℕ)
    → w.overflow ≡ false
    → w.buf ≡ p ++ (tag ∷ 0 ∷ 0 ∷ 0 ∷ bs)
    → length bs < 0x10000
    → bw_close w (length p + 4) ≡ record w { buf = p ++ tlv tag bs }
unfolding bw_close close_short close_long tlv
close-tlv w p tag bs h e small =
    let whole : length w.buf ≡ length p + 4 + length bs =
      rw e (omega (arith, length-append p (tag ∷ 0 ∷ 0 ∷ 0 ∷ bs))) in
    let content : length w.buf - (length p + 4) ≡ length bs = omega arith in
    let i3 : length p + 4 - 3 ≡ length p + 1 = omega arith in
    let i2 : length p + 4 - 2 ≡ length p + 2 = omega arith in
    let i1 : length p + 4 - 1 ≡ length p + 3 = omega arith in
    rw (h, content, i3, i2, i1, le→ltb (length w.buf) (length p + 4) (omega arith), e)
      (elim (Bool-cases (ltb (length bs) 128)) [
        | inl short ↦ rw (short, short_moved p bs tag (length bs))
        | inr long ↦ rw (long, lt→ltb (length bs) 0x10000 small, long_written p bs tag _ _ _)
      ])

open_start : (w : Writer) (tag : ℕ) → (bw_open w tag).1 ≡ length (bw_open w tag).0.buf
unfolding bw_open
open_start w tag = refl

bw_close-sticky : (w : Writer) (start : ℕ) → w.overflow ≡ true → (bw_close w start).overflow ≡ true
unfolding bw_close
bw_close-sticky w start h = ground arith

module _ (tag : ℕ) (body : Writer → Writer) {bs : List ℕ} {n : ℕ} (inner : Emits body bs n) where
  enclosed_sticky : (w : Writer) → w.overflow ≡ true → (enclosed tag body w).overflow ≡ true
  enclosed_sticky w h = bw_close-sticky _ _ (inner.sticky _ ((open_bytes-Emits tag).sticky w h))

  -- The content is in place before the element is closed.
  filled :
      (w : Writer)
      → w.overflow ≡ false
      → (bw_open w tag).0.overflow ≡ false
      → (body (bw_open w tag).0).overflow ≡ false
      → body (bw_open w tag).0 ≡ record w { buf = w.buf ++ (tag ∷ 0 ∷ 0 ∷ 0 ∷ bs) }
  filled w h o k =
      inner.exact (bw_open w tag).0 o k ∙ rw ((open_bytes-Emits tag).exact w h o) (rw append_assoc)

  closed :
      (w : Writer)
      → w.overflow ≡ false
      → (bw_open w tag).0.overflow ≡ false
      → (body (bw_open w tag).0).overflow ≡ false
      → length bs < 0x10000
      → enclosed tag body w ≡ record w { buf = w.buf ++ tlv tag bs }
  closed w h o k small =
      let start : (bw_open w tag).1 ≡ length w.buf + 4 =
        open_start w tag
        ∙ rw ((open_bytes-Emits tag).exact w h o) (length-append w.buf (tag ∷ 0 ∷ 0 ∷ 0 ∷ [])) in
      rw start (
        close-tlv (body (bw_open w tag).0) w.buf tag bs k (ap (λ v. v.buf) (filled w h o k)) small
        ∙ ap (λ (v : Writer). record v { buf = w.buf ++ tlv tag bs }) (filled w h o k))

  not_full :
      (w : Writer)
      → (enclosed tag body w).overflow ≡ false
      → (body (bw_open w tag).0).overflow ≡ false
  not_full w k = elim (Bool-cases (body (bw_open w tag).0).overflow) [
    | inl full ↦ cc (bw_close-sticky (body (bw_open w tag).0) (bw_open w tag).1 full)
    | inr free ↦ free
  ]

  not_full_at_start :
      (w : Writer) → (body (bw_open w tag).0).overflow ≡ false → (bw_open w tag).0.overflow ≡ false
  not_full_at_start w k = elim (Bool-cases (bw_open w tag).0.overflow) [
    | inl full ↦ cc (inner.sticky (bw_open w tag).0 full)
    | inr free ↦ free
  ]

  enclosed_room :
      n < 0x10000
      → (w : Writer) → w.overflow ≡ false
      → length w.buf + (4 + n) ≤ w.cap
      → (enclosed tag body w).overflow ≡ false
  enclosed_room small w h k =
      let o : (bw_open w tag).0.overflow ≡ false = (open_bytes-Emits tag).room w h (omega arith) in
      let b : (body (bw_open w tag).0).overflow ≡ false = inner.room (bw_open w tag).0 o (
        rw ((open_bytes-Emits tag).exact w h o)
          (omega (arith, length-append w.buf (tag ∷ 0 ∷ 0 ∷ 0 ∷ [])))) in
      rw (closed w h o b (omega (arith, inner.size))) h

  -- A bw_open, what stands between, and its bw_close add one element in its shortest form.
  pub enclosed-Emits : n < 0x10000 → Emits (enclosed tag body) (tlv tag bs) (4 + n)
  enclosed-Emits small = record {
    sticky = enclosed_sticky;
    exact = λ w h k.
        let b = not_full w k in closed w h (not_full_at_start w b) b (omega (arith, inner.size));
    room = enclosed_room small;
    size = omega (arith, length-tlv tag bs, inner.size);
  }

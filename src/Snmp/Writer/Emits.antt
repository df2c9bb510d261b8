-- ===== src/Snmp/Writer/Emits.antt =====
-- What a step of the writer adds to the buffer, and the room that it needs.
use sysmon.Base.{ℕ, suc, ◌+◌, ◌≤◌, ◌≡◌, refl, ap, ◌∙◌, arith}
use sysmon.Base.{
  true, false, List, [], ◌∷◌, ◌++◌, append-nil, append_assoc, inl, inr, Option, none, some,
}
use sysmon.Base.{if◌then◌else◌, Bool-cases, length, length-append}
use sysmon.Snmp.Writer.{Writer, bw_init, bw_byte, bw_bytes}

-- `f` appends `bs`, unless the buffer overflows, which `n` free bytes prevent.
pub record Emits (f : Writer → Writer) (bs : List ℕ) (n : ℕ) : Type 0 where
  pub sticky : (w : Writer) → w.overflow ≡ true → (f w).overflow ≡ true
  pub exact :
      (w : Writer)
      → w.overflow ≡ false
      → (f w).overflow ≡ false
      → f w ≡ record w { buf = w.buf ++ bs }
  pub room : (w : Writer) → w.overflow ≡ false → length w.buf + n ≤ w.cap → (f w).overflow ≡ false
  pub size : length bs ≤ n

pub bw_byte-Emits : (b : ℕ) → Emits (λ w. bw_byte w b) (b ∷ []) 1
unfolding bw_byte
bw_byte-Emits b = record {
  sticky = λ w h. ground arith;
  exact = λ w h k. ground arith;
  room = λ w h k. ground arith;
  size = omega arith;
}

-- One step after another.
module _ (f g : Writer → Writer) {bs cs : List ℕ} {n m : ℕ} (a : Emits f bs n)
    (b : Emits g cs m) where
  then_exact :
      (w : Writer)
      → w.overflow ≡ false
      → (g (f w)).overflow ≡ false
      → g (f w) ≡ record w { buf = w.buf ++ (bs ++ cs) }
  then_exact w h k = elim (Bool-cases (f w).overflow) [
    | inl full ↦ cc (b.sticky (f w) full)
    | inr free ↦ b.exact (f w) free k ∙ rw (a.exact w h free) (rw append_assoc)
  ]

  then_room :
      (w : Writer)
      → w.overflow ≡ false
      → length w.buf + (n + m) ≤ w.cap
      → (g (f w)).overflow ≡ false
  then_room w h k =
      let free : (f w).overflow ≡ false = a.room w h (omega arith) in
      b.room (f w) free (rw (a.exact w h free) (omega (arith, length-append w.buf bs, a.size)))

  pub Emits-then : Emits (λ w. g (f w)) (bs ++ cs) (n + m)
  Emits-then = record {
    sticky = λ w h. b.sticky (f w) (a.sticky w h);
    exact = then_exact;
    room = then_room;
    size = omega (arith, length-append bs cs, a.size, b.size);
  }

pub Emits-nothing : Emits (λ w. w) [] 0
Emits-nothing = record {
  sticky = λ w h. h;
  exact = λ w h k. rw append-nil;
  room = λ w h k. h;
  size = omega arith;
}

pub Emits-weaken :
    (f : Writer → Writer) {bs : List ℕ} {n : ℕ} (m : ℕ) → Emits f bs n → n ≤ m → Emits f bs m
Emits-weaken f m a h = record {
  sticky = a.sticky;
  exact = a.exact;
  room = λ w o k. a.room w o (omega arith);
  size = omega (arith, a.size);
}

pub bw_bytes-Emits : (bs : List ℕ) → Emits (λ w. bw_bytes w bs) bs (length bs)
unfolding bw_bytes
bw_bytes-Emits [] = Emits-nothing
bw_bytes-Emits (b ∷ bs) =
    let e : suc (length bs) ≡ 1 + length bs = omega arith in
    rw e (Emits-then (λ w. bw_byte w b) (λ w. bw_bytes w bs) (bw_byte-Emits b) (bw_bytes-Emits bs))

-- The result of a whole run, from an empty buffer of `cap` bytes.
abbrev pub written : Writer → Option (List ℕ)
written w = if w.overflow then none else some w.buf

pub written-Emits :
    (f : Writer → Writer) {bs : List ℕ} {n : ℕ} (cap : ℕ)
    → Emits f bs n
    → (n ≤ cap → written (f (bw_init cap)) ≡ some bs)
      × ((p : List ℕ) → written (f (bw_init cap)) ≡ some p → p ≡ bs)
unfolding bw_init
written-Emits f {bs} cap a = (
  λ h.
      let start : Writer = bw_init cap in
      let free : (f start).overflow ≡ false = a.room start refl (omega arith) in
      rw (free, a.exact start refl free),
  λ p e. elim (Bool-cases (f (bw_init cap)).overflow) [
    | inl full ↦ let no : none ≡ some p = rw full at e in cc
    | inr free ↦
        let yes_ : some (f (bw_init cap)).buf ≡ some p = rw free at e in
        let same : f (bw_init cap) ≡ record { buf = bs; cap = cap; overflow = false } =
          a.exact (bw_init cap) refl free in
        ground (arith, ap (λ (w : Writer). w.buf) same)
  ],
)

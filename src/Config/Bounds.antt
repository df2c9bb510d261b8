-- ===== src/Config/Bounds.antt =====
-- The buffers of the base64 code: their sizes, and the characters on the line.
use sysmon.Base.{ℕ, suc, ◌+◌, ◌*◌, ◌/◌, ◌%◌, ◌≤◌, ◌<◌, ◌≡◌, refl, arith}
use sysmon.Base.{false, List, [], ◌∷◌, ◌++◌, Option, none, some}
use sysmon.Base.{ltb, leb, ◌==◌, if◌then◌else◌, if_both, ◌||◌, length, length-append, All}
use sysmon.Config.{
  b64char, b64value, confgen_b64encode, Decoder, quad_bytes, flush, is_blank, decode_char,
  decode_loop, idle,
}
use sysmon.Config.RoundTrip.{b64char-plain}

-- Neither a blank nor the end of a line.
abbrev pub IsVisible : ℕ → Type 0
IsVisible c = is_blank c ≡ false

b64char-IsVisible : (n : ℕ) → IsVisible (b64char (n % 64))
b64char-IsVisible n = (b64char-plain (n % 64) (omega arith)).0

-- The text that confgen_b64encode writes for n bytes has ((n + 2) / 3) * 4 characters, the size
-- that it allocates less the NUL, and none is a space, a tab, a carriage return or a line feed.
pub confgen_b64encode-IsVisible :
    (bytes : List ℕ)
    → (length (confgen_b64encode bytes) ≡ (length bytes + 2) / 3 * 4)
      × All IsVisible (confgen_b64encode bytes)
unfolding confgen_b64encode
confgen_b64encode-IsVisible [] = (refl, tt)
confgen_b64encode-IsVisible (a ∷ []) =
    (refl, (b64char-IsVisible _, (b64char-IsVisible _, (refl, (refl, tt)))))
confgen_b64encode-IsVisible (a ∷ b ∷ []) =
    (refl, (b64char-IsVisible _, (b64char-IsVisible _, (b64char-IsVisible _, (refl, tt)))))
confgen_b64encode-IsVisible (a ∷ b ∷ c ∷ more) =
    let (size, visible) = confgen_b64encode-IsVisible more in
    (
      omega (arith, size),
      (
        b64char-IsVisible _,
        (b64char-IsVisible _, (b64char-IsVisible _, (b64char-IsVisible _, visible))),
      ),
    )

-- After `seen` characters.
record Bounded (seen : ℕ) (d : Decoder) : Type 0 where
  quad : length d.quad ≤ 3
  bytes : 4 * length d.out + 3 * length d.quad ≤ 3 * seen

length-quad_bytes : (quad : List ℕ) (pad : ℕ) → length (quad_bytes quad pad) ≤ 3
unfolding quad_bytes
length-quad_bytes quad pad = ground arith

flush-Bounded :
    (seen : ℕ) (d : Decoder)
    → length d.quad ≤ 4
    → 4 * length d.out + 3 * length d.quad ≤ 3 * seen
    → Bounded seen (flush d)
unfolding flush
flush-Bounded seen d q b = record {
  quad = ground arith;
  bytes =
      ground (arith, length-append d.out (quad_bytes d.quad d.pad), length-quad_bytes d.quad d.pad);
}

-- Of the state that is left, if there is one.
abbrev Passes : ℕ → Option Decoder → Type 0
Passes seen none = Unit {0}
Passes seen (some d) = Bounded seen d

append-Passes :
    (seen v pad : ℕ) (d : Decoder)
    → Bounded seen d
    → Passes (suc seen) (some (flush (record d { quad = d.quad ++ (v ∷ []); pad = pad })))
append-Passes seen v pad d h =
    flush-Bounded (suc seen) (record d { quad = d.quad ++ (v ∷ []); pad = pad })
      (omega (arith, length-append d.quad (v ∷ []), h.quad))
      (omega (arith, length-append d.quad (v ∷ []), h.bytes))

decode_char-Passes :
    (seen c : ℕ) (d : Decoder) → Bounded seen d → Passes (suc seen) (decode_char c d)
unfolding decode_char
decode_char-Passes seen c d h =
    if_both (Passes (suc seen)) (is_blank c)
      (record { quad = h.quad; bytes = omega (arith, h.bytes) })
      (if_both (Passes (suc seen)) (c == b'=')
        (if_both (Passes (suc seen)) (ltb (length d.quad) 2 || leb 2 d.pad) tt
          (append-Passes seen 0 (d.pad + 1) d h))
        (digit (b64value c)))
  where
    digit :
        (value : Option ℕ)
        → Passes (suc seen) (elim value [
          | none ↦ none
          | some v ↦
              if ltb 0 d.pad then none else some (flush (record d { quad = d.quad ++ (v ∷ []) }))
        ])
    digit none = tt
    digit (some v) = if_both (Passes (suc seen)) (ltb 0 d.pad) tt (append-Passes seen v d.pad d h)

decode_loop-Passes :
    (seen : ℕ) (text : List ℕ) (d : Decoder)
    → Bounded seen d
    → Passes (seen + length text) (decode_loop text d)
unfolding decode_loop
decode_loop-Passes seen [] d h = let e : seen + 0 ≡ seen = omega arith in rw e h
decode_loop-Passes seen (c ∷ text) d h =
    let n : seen + suc (length text) ≡ suc seen + length text = omega arith in
    rw n (
      elim (decode_char c d)
          as (λ next.
            Passes (suc seen) next
            → Passes (suc seen + length text)
                (elim next [ none ↦ none | some e ↦ decode_loop text e ])) [
                  | none ↦ λ k. tt
                  | some e ↦ λ k. decode_loop-Passes (suc seen) text e k
                ]
        (decode_char-Passes seen c d h))

-- Behind any part of a text that confgen_b64decode has read, the bytes written and the NUL fit the
-- (inlen / 4 + 1) * 3 + 1 bytes that it allocates, and fewer than four characters wait.
pub decode_loop_fits :
    (text : List ℕ) (d : Decoder)
    → decode_loop text (idle []) ≡ some d
    → (length d.out + 1 ≤ (length text / 4 + 1) * 3 + 1) × (length d.quad < 4)
decode_loop_fits text d e =
    let start : Bounded 0 (idle []) = record { quad = omega arith; bytes = omega arith } in
    let h : Passes (0 + length text) (some d) =
      rw e at (decode_loop-Passes 0 text (idle []) start) in
    (omega (arith, h.bytes), omega (arith, h.quad))

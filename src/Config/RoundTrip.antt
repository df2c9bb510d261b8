-- ===== src/Config/RoundTrip.antt =====
-- confgen_b64decode on what confgen_b64encode writes.
use sysmon.Base.{ℕ, ◌+◌, ◌*◌, ◌-◌, ◌/◌, ◌%◌, ◌<◌, ◌≡◌, refl, ◌∙◌, arith}
use sysmon.Base.{false, List, [], ◌∷◌, ◌++◌, some, append_assoc, append-nil}
use sysmon.Base.{ltb, ◌==◌, if◌then◌else◌, length, All}
use sysmon.Base.Words.{IsByte, agrees, agrees-below}
use sysmon.Config.{
  b64char, b64value, confgen_b64encode, confgen_b64decode, Decoder, quad_bytes, flush, is_blank,
  decode_char, decode_loop, idle,
}

-- The table of characters, as ranges.
abbrev char_of : ℕ → ℕ
char_of n =
    if ltb n 26
    then n + 65
    else if ltb n 52
    then n + 71
    else if ltb n 62
    then n - 4
    else if n == 62
    then 43
    else 47

b64char-char_of : (n : ℕ) → n < 64 → b64char n ≡ char_of n
unfolding agrees b64char
b64char-char_of n h = agrees-below b64char char_of 64 n refl h

pub b64value-b64char : (n : ℕ) → n < 64 → b64value (b64char n) ≡ some n
unfolding b64value
b64value-b64char n h = rw (b64char-char_of n h) (ground arith)

pub b64char-plain :
    (n : ℕ) → n < 64 → (is_blank (b64char n) ≡ false) × ((b64char n == b'=') ≡ false)
b64char-plain n h = rw (b64char-char_of n h) (ground arith, ground arith)

-- A character of six bits joins the quad.
decode_char-b64char :
    (n : ℕ) (q out : List ℕ)
    → n < 64
    → decode_char (b64char n) (record { quad = q; pad = 0; out = out })
      ≡ some (flush (record { quad = q ++ (n ∷ []); pad = 0; out = out }))
unfolding decode_char
decode_char-b64char n q out h =
    let (not_blank, not_pad) = b64char-plain n h in
    rw (not_blank, not_pad, b64value-b64char n h) refl

pub decode_loop-step :
    (c : ℕ) (text : List ℕ) (d e : Decoder)
    → decode_char c d ≡ some e
    → decode_loop (c ∷ text) d ≡ decode_loop text e
unfolding decode_loop
decode_loop-step c text d e h = rw (h, decode_loop)

decode_loop-nil : (d : Decoder) → decode_loop [] d ≡ some d
unfolding decode_loop
decode_loop-nil d = refl

abbrev partly : List ℕ → List ℕ → Decoder
partly q out = record { quad = q; pad = 0; out = out }

-- A character that leaves the quad open.
decode_loop-open :
    (n : ℕ) (q out text : List ℕ)
    → n < 64
    → length (q ++ (n ∷ [])) < 4
    → decode_loop (b64char n ∷ text) (partly q out) ≡ decode_loop text (partly (q ++ (n ∷ [])) out)
unfolding flush
decode_loop-open n q out text h k =
    let unfilled : (length (q ++ (n ∷ [])) == 4) ≡ false = ground arith in
    decode_loop-step (b64char n) text (partly q out) _ (decode_char-b64char n q out h)
    ∙ rw unfilled refl

-- Two characters, which every group begins with.
decode_loop-pair :
    (a b : ℕ) (out text : List ℕ)
    → a < 64
    → b < 64
    → decode_loop (b64char a ∷ b64char b ∷ text) (idle out)
      ≡ decode_loop text (partly (a ∷ b ∷ []) out)
decode_loop-pair a b out text ha hb =
    decode_loop-open a [] out (b64char b ∷ text) ha (omega arith)
    ∙ decode_loop-open b (a ∷ []) out text hb (omega arith)

-- Four characters are three bytes.
decode_loop-quad :
    (a b c d : ℕ) (out text : List ℕ)
    → a < 64
    → b < 64
    → c < 64
    → d < 64
    → decode_loop (b64char a ∷ b64char b ∷ b64char c ∷ b64char d ∷ text) (idle out)
      ≡ decode_loop text (idle (out ++ quad_bytes (a ∷ b ∷ c ∷ d ∷ []) 0))
unfolding flush
decode_loop-quad a b c d out text ha hb hc hd =
    decode_loop-pair a b out (b64char c ∷ b64char d ∷ text) ha hb
    ∙ decode_loop-open c (a ∷ b ∷ []) out (b64char d ∷ text) hc (omega arith)
    ∙ decode_loop-step (b64char d) text _ _ (decode_char-b64char d (a ∷ b ∷ c ∷ []) out hd)

-- Three characters and one pad are two bytes.
decode_loop-one_pad :
    (a b c : ℕ) (out : List ℕ)
    → a < 64
    → b < 64
    → c < 64
    → decode_loop (b64char a ∷ b64char b ∷ b64char c ∷ b'=' ∷ []) (idle out)
      ≡ some (record { quad = []; pad = 1; out = out ++ quad_bytes (a ∷ b ∷ c ∷ 0 ∷ []) 1 })
unfolding decode_loop decode_char flush
decode_loop-one_pad a b c out ha hb hc =
    decode_loop-pair a b out (b64char c ∷ b'=' ∷ []) ha hb
    ∙ decode_loop-open c (a ∷ b ∷ []) out (b'=' ∷ []) hc (omega arith)

-- Two characters and two pads are one byte.
decode_loop-two_pads :
    (a b : ℕ) (out : List ℕ)
    → a < 64
    → b < 64
    → decode_loop (b64char a ∷ b64char b ∷ b'=' ∷ b'=' ∷ []) (idle out)
      ≡ some (record { quad = []; pad = 2; out = out ++ quad_bytes (a ∷ b ∷ 0 ∷ 0 ∷ []) 2 })
unfolding decode_loop decode_char flush
decode_loop-two_pads a b out ha hb = decode_loop-pair a b out (b'=' ∷ b'=' ∷ []) ha hb

quad_bytes-three :
    (a b c : ℕ)
    → IsByte a
    → IsByte b
    → IsByte c
    → (let v = a * 65536 + b * 256 + c in
        quad_bytes ((v / 262144 % 64) ∷ (v / 4096 % 64) ∷ (v / 64 % 64) ∷ (v % 64) ∷ []) 0)
      ≡ a ∷ b ∷ c ∷ []
unfolding quad_bytes
quad_bytes-three a b c ha hb hc = ground arith

quad_bytes-two :
    (a b : ℕ)
    → IsByte a
    → IsByte b
    → (let v = a * 65536 + b * 256 in
        quad_bytes ((v / 262144 % 64) ∷ (v / 4096 % 64) ∷ (v / 64 % 64) ∷ 0 ∷ []) 1)
      ≡ a ∷ b ∷ []
unfolding quad_bytes
quad_bytes-two a b ha hb = ground arith

quad_bytes-one :
    (a : ℕ)
    → IsByte a
    → (let v = a * 65536 in quad_bytes ((v / 262144 % 64) ∷ (v / 4096 % 64) ∷ 0 ∷ 0 ∷ []) 2)
      ≡ a ∷ []
unfolding quad_bytes
quad_bytes-one a ha = ground arith

-- The decoder that has read the whole text, with `out` before it.
decode_loop-confgen_b64encode :
    (bytes out : List ℕ)
    → All IsByte bytes
    → (pad : ℕ) × (decode_loop (confgen_b64encode bytes) (idle out)
        ≡ some (record { quad = []; pad = pad; out = out ++ bytes }))
unfolding confgen_b64encode
decode_loop-confgen_b64encode [] out h = (0, rw (append-nil out) (decode_loop-nil (idle out)))
decode_loop-confgen_b64encode (a ∷ []) out (ha, h) =
    (2, decode_loop-two_pads _ _ out (omega arith) (omega arith) ∙ rw (quad_bytes-one a ha) refl)
decode_loop-confgen_b64encode (a ∷ b ∷ []) out (ha, (hb, h)) = (
  1,
  decode_loop-one_pad _ _ _ out (omega arith) (omega arith) (omega arith)
      ∙ rw (quad_bytes-two a b ha hb) refl,
)
decode_loop-confgen_b64encode (a ∷ b ∷ c ∷ more) out (ha, (hb, (hc, h))) =
    let (pad, e) = decode_loop-confgen_b64encode more (out ++ (a ∷ b ∷ c ∷ [])) h in
    (
      pad,
      decode_loop-quad _ _ _ _ out (confgen_b64encode more) (omega arith) (omega arith)
            (omega arith) (omega arith)
          ∙ rw (quad_bytes-three a b c ha hb hc)
              (e ∙ rw (append_assoc out (a ∷ b ∷ c ∷ []) more) refl),
    )

-- For any bytes, confgen_b64decode reads back what confgen_b64encode wrote.
pub confgen_b64decode-confgen_b64encode :
    (bytes : List ℕ) → All IsByte bytes → confgen_b64decode (confgen_b64encode bytes) ≡ some bytes
unfolding confgen_b64decode
confgen_b64decode-confgen_b64encode bytes h =
    let (pad, e) = decode_loop-confgen_b64encode bytes [] h in rw (e, confgen_b64decode)

-- ===== src/Config.antt =====
-- src/confgen.c: the base64 code in which a configuration travels over the line protocol.
-- A text is a list of bytes; NULL for a refused text is `none`.
mod Tests
pub mod RoundTrip
pub mod Bounds
use sysmon.Base.{ℕ, zero, suc, ◌+◌, ◌*◌, ◌-◌, ◌/◌, ◌%◌, Bool, true, false, List, [], ◌∷◌, ◌++◌}
use sysmon.Base.{Option, none, some, ltb, leb, ◌==◌, if◌then◌else◌, ◌||◌, ◌&&◌, length, get_elem?}
use sysmon.Base.Text.{Text, codes}

-- `b64set`
abbrev pub b64set : Text
b64set = codes "ABCDEFGHIJKLMNOPQRSTUVWXYZabcdefghijklmnopqrstuvwxyz0123456789+/"

abbrev char_or_zero : Option ℕ → ℕ
char_or_zero none = 0
char_or_zero (some c) = c

-- `b64set[n]`, for an index of six bits.
unfoldable pub b64char : ℕ → ℕ
b64char n = char_or_zero (get_elem? b64set n)

-- Three bytes are one number of 24 bits, written as four characters; one or two bytes at the end are
-- padded.
unfoldable pub confgen_b64encode : List ℕ → Text
confgen_b64encode [] = []
confgen_b64encode (a ∷ []) =
    let v = a * 65536 in b64char (v / 262144 % 64) ∷ b64char (v / 4096 % 64) ∷ b'=' ∷ b'=' ∷ []
confgen_b64encode (a ∷ b ∷ []) =
    let v = a * 65536 + b * 256 in
    b64char (v / 262144 % 64) ∷ b64char (v / 4096 % 64) ∷ b64char (v / 64 % 64) ∷ b'=' ∷ []
confgen_b64encode (a ∷ b ∷ c ∷ more) =
    let v = a * 65536 + b * 256 + c in
    b64char (v / 262144 % 64)
    ∷ b64char (v / 4096 % 64)
    ∷ b64char (v / 64 % 64)
    ∷ b64char (v % 64)
    ∷ confgen_b64encode more

-- -1 is `none`.
unfoldable pub b64value : ℕ → Option ℕ
b64value c =
    if leb b'A' c && leb c b'Z'
    then some (c - b'A')
    else if leb b'a' c && leb c b'z'
    then some (c - b'a' + 26)
    else if leb b'0' c && leb c b'9'
    then some (c - b'0' + 52)
    else if c == b'+'
    then some 62
    else if c == b'/'
    then some 63
    else none

-- The locals of confgen_b64decode: `quad[0..n)`, `pad` and `out[0..o)`.
pub record Decoder : Type 0 where
  pub quad : List ℕ
  pub pad : ℕ
  pub out : List ℕ

unfoldable pub quad_bytes : List ℕ → ℕ → List ℕ
quad_bytes (a ∷ b ∷ c ∷ d ∷ []) pad =
    let acc = a * 262144 + b * 4096 + c * 64 + d in
    (acc / 65536 % 256) ∷ (if ltb pad 2 then (acc / 256 % 256) ∷ [] else [])
    ++ (if ltb pad 1 then (acc % 256) ∷ [] else [])
quad_bytes quad pad = []

-- `if (n == 4)`
unfoldable pub flush : Decoder → Decoder
flush d =
    if length d.quad == 4 then record d { quad = []; out = d.out ++ quad_bytes d.quad d.pad } else d

abbrev pub is_blank : ℕ → Bool
is_blank c = c == 13 || c == 10 || c == 32 || c == 9

-- One character; `none` is the refusal.
unfoldable pub decode_char : ℕ → Decoder → Option Decoder
decode_char c d =
    if is_blank c
    then some d
    else if c == b'='
    then (if ltb (length d.quad) 2 || leb 2 d.pad
        then none
        else some (flush (record d { quad = d.quad ++ (0 ∷ []); pad = d.pad + 1 })))
    else elim (b64value c) [
      | none ↦ none
      | some v ↦ if ltb 0 d.pad then none else some (flush (record d { quad = d.quad ++ (v ∷ []) }))
    ]

unfoldable pub decode_loop : Text → Decoder → Option Decoder
decode_loop [] d = some d
decode_loop (c ∷ text) d = elim (decode_char c d) [ none ↦ none | some e ↦ decode_loop text e ]

abbrev pub idle : List ℕ → Decoder
idle out = record { quad = []; pad = 0; out = out }

-- A text that ends inside a quad is refused.
unfoldable pub confgen_b64decode : Text → Option (List ℕ)
confgen_b64decode text = elim (decode_loop text (idle [])) [
  | none ↦ none
  | some d ↦ if length d.quad == 0 then some d.out else none
]

-- ===== src/Config/Tests.antt =====
-- The base64 theorems on src/confgen.c at the text "Man", cut short.
use sysmon.Base.{◌+◌, ◌*◌, ◌/◌, ◌≤◌, ◌<◌, ◌≡◌, refl, arith, [], ◌∷◌, none, some, length}
use sysmon.Base.Text.{codes}
use sysmon.Config.{confgen_b64encode, confgen_b64decode, decode_loop, idle, Decoder}
use sysmon.Config.{b64char, b64value, decode_char, flush, quad_bytes}
use sysmon.Config.RoundTrip.{confgen_b64decode-confgen_b64encode}
use sysmon.Config.Bounds.{decode_loop_fits}

encodes : confgen_b64encode (codes "Ma") ≡ codes "TWE="
unfolding confgen_b64encode b64char
encodes = refl

refuses_data_after_pad : confgen_b64decode (codes "TWE=TWFu") ≡ none
unfolding confgen_b64decode decode_loop decode_char flush b64value quad_bytes
refuses_data_after_pad = refl

confgen_b64decode-confgen_b64encode_example :
    confgen_b64decode (confgen_b64encode (codes "Ma")) ≡ some (codes "Ma")
confgen_b64decode-confgen_b64encode_example =
    confgen_b64decode-confgen_b64encode (codes "Ma") (omega arith)

abbrev after_quad : Decoder
after_quad = record { quad = 19 ∷ []; pad = 0; out = codes "Man" }

reads_quad : decode_loop (codes "TWFuT") (idle []) ≡ some after_quad
unfolding decode_loop decode_char flush b64value quad_bytes
reads_quad = refl

decode_loop_fits_example :
    (length (codes "Man") + 1 ≤ (length (codes "TWFuT") / 4 + 1) * 3 + 1)
    × (length after_quad.quad < 4)
decode_loop_fits_example = decode_loop_fits (codes "TWFuT") after_quad reads_quad

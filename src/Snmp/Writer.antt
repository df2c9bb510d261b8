-- ===== src/Snmp/Writer.antt =====
-- src/snmp.c: the BER writer, `struct ber_writer` and the bw_ functions. `buf` holds the bytes
-- written so far, so its length is the C field `len`.
pub mod Emits
pub mod Enclosed
pub mod Scalars
use sysmon.Base.{ℕ, zero, suc, ◌+◌, ◌-◌, ◌*◌, ◌/◌, ◌%◌, ◌^◌, Bool, true, false, List, [], ◌∷◌, ◌++◌}
use sysmon.Base.{ltb, leb, ◌==◌, if◌then◌else◌, ◌&&◌, ◌||◌, length, set, take, drop}
use sysmon.Base.Int.{ℤ, pattern64}
use sysmon.Base.Words.{high_bit}

pub record Writer : Type 0 where
  pub buf : List ℕ
  pub cap : ℕ
  pub overflow : Bool

unfoldable pub bw_init : ℕ → Writer
bw_init cap = record { buf = []; cap = cap; overflow = false }

unfoldable pub bw_byte : Writer → ℕ → Writer
bw_byte w b =
    if leb w.cap (length w.buf)
    then record w { overflow = true }
    else record w { buf = w.buf ++ (b ∷ []) }

unfoldable pub bw_bytes : Writer → List ℕ → Writer
bw_bytes w [] = w
bw_bytes w (b ∷ bs) = bw_bytes (bw_byte w b) bs

-- The second part is the offset where the content starts.
unfoldable pub bw_open : Writer → ℕ → Writer × ℕ
bw_open w tag =
    let opened = bw_byte (bw_byte (bw_byte (bw_byte w tag) 0) 0) 0 in (opened, length opened.buf)

-- The short form writes one length byte and moves the content two bytes down.
unfoldable pub close_short : Writer → ℕ → ℕ → Writer
close_short w start content = record w {
  buf = take (start - 2) (set w.buf (start - 3) content) ++ drop start w.buf;
}

unfoldable pub close_long : Writer → ℕ → ℕ → Writer
close_long w start content = record w {
  buf =
      set (set (set w.buf (start - 3) 0x82) (start - 2) (content / 256 % 256)) (start - 1)
        (content % 256);
}

unfoldable pub bw_close : Writer → ℕ → Writer
bw_close w start =
    let content = length w.buf - start in
    if w.overflow || ltb (length w.buf) start
    then w
    else if ltb content 128
    then close_short w start content
    else if ltb content 0x10000
    then close_long w start content
    else record w { overflow = true }

-- `tmp[]`: the eight bytes of an unsigned long, highest first.
abbrev pub octets64 : ℕ → List ℕ
octets64 u =
    (u / 2 ^ 56 % 256)
    ∷ (u / 2 ^ 48 % 256)
    ∷ (u / 2 ^ 40 % 256)
    ∷ (u / 2 ^ 32 % 256)
    ∷ (u / 2 ^ 24 % 256)
    ∷ (u / 2 ^ 16 % 256)
    ∷ (u / 2 ^ 8 % 256)
    ∷ (u % 256)
    ∷ []

-- A first byte that only repeats the sign of the next one.
abbrev pub is_redundant : ℕ → ℕ → Bool
is_redundant x y = (x == 0 && ltb y 128) || (x == 0xff && high_bit y)

-- The loop over `first`, which never drops the last byte.
unfoldable pub shortest : List ℕ → List ℕ
shortest [] = []
shortest (x ∷ []) = x ∷ []
shortest (x ∷ y ∷ r) = let rest = shortest (y ∷ r) in if is_redundant x y then rest else x ∷ y ∷ r

unfoldable pub bw_int : Writer → ℕ → ℤ → Writer
bw_int w tag v =
    let (opened, start) = bw_open w tag in
    bw_close (bw_bytes opened (shortest (octets64 (pattern64 v)))) start

unfoldable pub bw_string : Writer → ℕ → List ℕ → Writer
bw_string w tag s = let (opened, start) = bw_open w tag in bw_close (bw_bytes opened s) start

unfoldable pub bw_null : Writer → Writer
bw_null w = let (opened, start) = bw_open w 0x05 in bw_close opened start

-- ===== src/Base/Text.antt =====
-- C strings: lists of bytes with no terminating NUL. `bounded n s` is what `snprintf` keeps of `s`
-- in a buffer of `n` bytes.
pub mod Decimal
pub mod Numbers
use Prim.Native.Char.{code}
use Prim.Native.String.{String}
use Prim.Native.Nat.{ℕ, zero, suc, ◌+◌, ◌-◌, ◌*◌, ◌/◌, ◌%◌, ◌^◌, ◌≤◌, ◌<◌}
use mathlib.Core.Path.{◌≡◌, refl}
use mathlib.Core.Logic.{◌↔◌}
use mathlib.Core.Bool.{Bool, true, false, ◌&&◌, ◌||◌}
use mathlib.Core.List.{List, [], ◌∷◌, ◌++◌}
use native.Mathlib.Omega.{arith}
use sysmon.Base.Tests.{ltb, leb, ◌==◌, if◌then◌else◌}
use sysmon.Base.Lists.{take, length, length-take}
use sysmon.Base.Int.{ℤ, pos, negsuc}
use sysmon.Base.Words.{u64_mod}

abbrev pub Text : Type 0
Text = List ℕ

-- The bytes of an ASCII literal.
abbrev pub codes : String → Text
codes String.[] = []
codes (String.◌∷◌ c s) = code c ∷ codes s

-- `strcmp(s, t) == 0`
unfoldable pub str_eq : Text → Text → Bool
str_eq [] [] = true
str_eq [] (y ∷ t) = false
str_eq (x ∷ s) [] = false
str_eq (x ∷ s) (y ∷ t) = x == y && str_eq s t

-- `strncmp(s, p, strlen(p)) == 0`
unfoldable pub has_prefix : Text → Text → Bool
has_prefix s [] = true
has_prefix [] (y ∷ p) = false
has_prefix (x ∷ s) (y ∷ p) = x == y && has_prefix s p

-- `s[0] == '\0'`
abbrev pub is_empty {ℓ} : {A : Type ℓ} → List A → Bool
is_empty [] = true
is_empty (x ∷ s) = false

-- `snprintf(out, n, "%s", s)`, for 0 < n
unfoldable pub bounded : ℕ → Text → Text
bounded n s = take (n - 1) s

pub length-bounded : (n : ℕ) (s : Text) → 0 < n → length (bounded n s) < n
unfolding bounded
length-bounded n s h = omega (arith, length-take (n - 1) s)

-- Base ten, with fuel for the number of digits: 20 hold every unsigned long.
unfoldable pub decimal_digits : ℕ → ℕ → Text
decimal_digits zero n = []
decimal_digits (suc f) n =
    let front = decimal_digits f (n / 10) in
    if ltb n 10 then (b'0' + n) ∷ [] else front ++ ((b'0' + n % 10) ∷ [])

-- `%lu` and `%u`
unfoldable pub decimal : ℕ → Text
unfolding decimal_digits
decimal n = decimal_digits 20 n

-- `%ld` and `%d`
unfoldable pub decimal_signed : ℤ → Text
unfolding decimal
decimal_signed (pos n) = decimal n
decimal_signed (negsuc n) = b'-' ∷ decimal (suc n)

abbrev hex_digit : ℕ → ℕ
hex_digit d = if ltb d 10 then b'0' + d else b'a' + (d - 10)

-- `%02x` of a byte
unfoldable pub hex_byte : ℕ → Text
hex_byte b = hex_digit (b / 16 % 16) ∷ hex_digit (b % 16) ∷ []

abbrev pub is_digit : ℕ → Bool
is_digit c = leb b'0' c && leb c b'9'

-- `isspace` in the C locale
abbrev pub is_space : ℕ → Bool
is_space c = c == 32 || (leb 9 c && leb c 13)

unfoldable pub skip_space : Text → Text
skip_space [] = []
skip_space (c ∷ s) = if is_space c then skip_space s else c ∷ s

-- The digits at the front of a text, as a number, with what follows them.
unfoldable pub read_digits : Text → ℕ → ℕ × Text
read_digits [] acc = (acc, [])
read_digits (c ∷ s) acc =
    let rest = read_digits s (acc * 10 + (c - b'0')) in if is_digit c then rest else (acc, c ∷ s)

-- A number past the unsigned longs reads as ULONG_MAX.
abbrev pub saturate : ℕ → ℕ
saturate n = if ltb n u64_mod then n else u64_mod - 1

abbrev pub starts_with_digit : Text → Bool
starts_with_digit [] = false
starts_with_digit (c ∷ s) = is_digit c

-- What `strtoul(s, &end, 10)` makes of the text behind the white space: the magnitude, whether a
-- minus sign stood there, and `end`. With no digit `end` is `s` itself.
pub data Number : Type 0 where
  absent : Number
  found : Bool → ℕ → Text → Number

abbrev pub number_of : Bool → Text → Number
number_of minus s =
    let (n, rest) = read_digits s 0 in if starts_with_digit s then found minus n rest else absent

abbrev pub signed_number : Text → Number
signed_number [] = absent
signed_number (c ∷ s) =
    if c == b'-'
    then number_of true s
    else if c == b'+'
    then number_of false s
    else number_of false (c ∷ s)

unfoldable pub scan_number : Text → Number
unfolding skip_space read_digits
scan_number s = signed_number (skip_space s)

-- `strtoul(s, NULL, 10)`
abbrev pub strtoul_of : Number → ℕ
strtoul_of absent = 0
strtoul_of (found minus n rest) =
    if ltb n u64_mod then (if minus then (u64_mod - n) % u64_mod else n) else u64_mod - 1

unfoldable pub strtoul : Text → ℕ
unfolding scan_number
strtoul s = strtoul_of (scan_number s)

-- `strtol(s, NULL, 10)`
abbrev pub strtol_of : Number → ℤ
strtol_of absent = pos 0
strtol_of (found false n rest) = pos (if ltb n (2 ^ 63) then n else 2 ^ 63 - 1)
strtol_of (found true zero rest) = pos 0
strtol_of (found true (suc n) rest) = negsuc (if ltb n (2 ^ 63) then n else 2 ^ 63 - 1)

unfoldable pub strtol : Text → ℤ
unfolding scan_number
strtol s = strtol_of (scan_number s)

pub str_eq_iff : (s t : Text) → (str_eq s t ≡ true) ↔ (s ≡ t)
unfolding str_eq
str_eq_iff [] [] = ((λ e. refl), (λ e. refl))
str_eq_iff [] (y ∷ t) = ((λ e. cc), (λ e. cc))
str_eq_iff (x ∷ s) [] = ((λ e. cc), (λ e. cc))
str_eq_iff (x ∷ s) (y ∷ t) = both (str_eq_iff s t)
  where
    both :
        (str_eq s t ≡ true) ↔ (s ≡ t)
        → (str_eq (x ∷ s) (y ∷ t) ≡ true) ↔ ◌≡◌ {A = Text} (x ∷ s) (y ∷ t)
    both h = ((λ e. ground (arith, e, h)), (λ e. ground (arith, e, h)))

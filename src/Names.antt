-- ===== src/Names.antt =====
-- src/lib.c: the names of the checks and of the SNMP tests, as the configuration writes them and as
-- the daemon reports them, and the names that a site may have. -1 is `none`.
mod Tests
pub mod Inverse
pub mod Site
use sysmon.Base.{
  ℕ, zero, suc, ◌+◌, Bool, true, false, not, ◌&&◌, ◌||◌, List, [], ◌∷◌, Option, none, some,
}
use sysmon.Base.{leb, ◌==◌, if◌then◌else◌, length, take}
use sysmon.Base.Text.{Text, codes, str_eq, is_empty}

unfoldable pub before_colon : Text → Option Text
before_colon [] = none
before_colon (c ∷ s) =
    if c == b':' then some [] else elim (before_colon s) [ none ↦ none | some t ↦ some (c ∷ t) ]

-- The local `type`, of 256 bytes: the text up to a colon, or its first 250 bytes.
unfoldable pub type_word : Text → Text
unfolding before_colon
type_word sent_type = elim (before_colon sent_type) [
  | none ↦ take 250 sent_type
  | some t ↦ take 255 t
]

unfoldable pub snmp_type_to_name : ℕ → Text
snmp_type_to_name snmp_type =
    if snmp_type == 1
    then codes "reboot"
    else if snmp_type == 2
    then codes "high"
    else if snmp_type == 3
    then codes "low"
    else if snmp_type == 4
    then codes "range"
    else if snmp_type == 5
    then codes "exact"
    else if snmp_type == 6
    then codes "compare"
    else if snmp_type == 7
    then codes "rate"
    else codes "snmp_type_to_name(ERROR)"

-- The switch on the length of the word.
unfoldable pub snmp_type_of : Text → Option ℕ
snmp_type_of word =
    let len = length word in
    if len == 3
    then (if str_eq word (codes "low") then some 3 else none)
    else if len == 4
    then (if str_eq word (codes "high")
        then some 2
        else if str_eq word (codes "rate")
        then some 7
        else none)
    else if len == 5
    then (if str_eq word (codes "exact")
        then some 5
        else if str_eq word (codes "range")
        then some 4
        else none)
    else if len == 6
    then (if str_eq word (codes "reboot") then some 1 else none)
    else if len == 7
    then (if str_eq word (codes "compare") then some 6 else none)
    else none

unfoldable pub name_to_snmp_type : Text → Option ℕ
unfolding type_word snmp_type_of
name_to_snmp_type sent_type = snmp_type_of (type_word sent_type)

-- What the build and the command line decide.
pub record Options : Type 0 where
  pub disable_icmp : Bool
  pub enable_snmp : Bool

unfoldable pub three : Options → Text → Option ℕ
three o w =
    if str_eq w (codes "tcp")
    then some 1
    else if str_eq w (codes "udp")
    then some 2
    else if str_eq w (codes "dns")
    then some 12
    else if str_eq w (codes "www")
    then some 13
    else if str_eq w (codes "ssh")
    then some 17
    else if str_eq w (codes "rtt") && not o.disable_icmp
    then some 19
    else none

unfoldable pub four : Options → Text → Option ℕ
four o w =
    if str_eq w (codes "imap")
    then some 7
    else if str_eq w (codes "http")
    then some 13
    else if str_eq w (codes "ping") && not o.disable_icmp
    then some 3
    else if str_eq w (codes "ping6") && not o.disable_icmp
    then some 20
    else if str_eq w (codes "icmp6") && not o.disable_icmp
    then some 20
    else if o.enable_snmp && str_eq w (codes "snmp")
    then some 4
    else if str_eq w (codes "nntp")
    then some 5
    else if str_eq w (codes "pop2")
    then some 10
    else if str_eq w (codes "smtp")
    then some 6
    else if str_eq w (codes "pop3")
    then some 8
    else if str_eq w (codes "ircd")
    then some 18
    else none

unfoldable pub six : Options → Text → Option ℕ
six o w =
    if str_eq w (codes "radius")
    then some 14
    else if str_eq w (codes "sysmon")
    then some 16
    else if str_eq w (codes "pingv6") && not o.disable_icmp
    then some 20
    else if str_eq w (codes "pingv4") && not o.disable_icmp
    then some 3
    else none

-- The switch on the length of the word.
unfoldable pub type_of : Options → Text → Option ℕ
unfolding three four six
type_of o w =
    let len = length w in
    if len == 3
    then three o w
    else if len == 4
    then four o w
    else if len == 5
    then (if str_eq w (codes "bootp") then some 11 else none)
    else if len == 6
    then six o w
    else if len == 7
    then (if str_eq w (codes "pktloss") && not o.disable_icmp then some 22 else none)
    else if len == 9
    then (if str_eq w (codes "umichx500") then some 9 else none)
    else none

unfoldable pub name_to_type : Options → Text → Option ℕ
unfolding type_word type_of
name_to_type o sent_type = type_of o (type_word sent_type)

-- The names of the types 1 to 22; only 21 has none.
abbrev type_names : List Text
type_names =
    codes "tcp"
    ∷ codes "udp"
    ∷ codes "ping"
    ∷ codes "snmp"
    ∷ codes "nntp"
    ∷ codes "smtp"
    ∷ codes "imap"
    ∷ codes "pop3"
    ∷ codes "x500"
    ∷ codes "pop2"
    ∷ codes "bootp"
    ∷ codes "dns"
    ∷ codes "www"
    ∷ codes "radius"
    ∷ codes "https"
    ∷ codes "sysmon"
    ∷ codes "ssh"
    ∷ codes "ircd"
    ∷ codes "rtt"
    ∷ codes "pingv6"
    ∷ codes "ERROR"
    ∷ codes "pktloss"
    ∷ []

abbrev nth_name : List Text → ℕ → Text
nth_name [] n = codes "ERROR"
nth_name (s ∷ names) zero = s
nth_name (s ∷ names) (suc n) = nth_name names n

unfoldable pub type_to_name : ℕ → Text
type_to_name zero = codes "ERROR"
type_to_name (suc n) = nth_name type_names n

abbrev pub is_site_char : ℕ → Bool
is_site_char c =
    (leb b'a' c && leb c b'z')
    || (leb b'A' c && leb c b'Z')
    || (leb b'0' c && leb c b'9')
    || (c == b'-' || c == b'_')

unfoldable pub all_site_chars : Text → Bool
all_site_chars [] = true
all_site_chars (c ∷ s) = if is_site_char c then all_site_chars s else false

unfoldable pub valid_sitename : Text → Bool
unfolding all_site_chars
valid_sitename name = if is_empty name then false else all_site_chars name

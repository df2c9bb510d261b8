-- ===== src/Trap/Content.antt =====
-- src/config.h: `struct trap_varbind` and `struct trap_content`, and src/trapdecode.c: ber_value_str.
-- A `char` array is its text, of fewer bytes than the array has.
use sysmon.Base.{ℕ, ◌/◌, ◌%◌, Bool, List, [], ◌∷◌, ◌++◌, ◌==◌, if◌then◌else◌, length}
use sysmon.Base.Int.{ℤ}
use sysmon.Base.Text.{Text, codes, bounded, decimal, decimal_signed, hex_byte}
use sysmon.Ber.Value.{snmp_ber_int, snmp_ber_uint, snmp_ber_oid_str, ber_string_str}

abbrev pub trap_max_varbind : ℕ
trap_max_varbind = 16

abbrev pub trap_oid_len : ℕ
trap_oid_len = 192

abbrev pub trap_val_len : ℕ
trap_val_len = 160

abbrev pub trap_name_len : ℕ
trap_name_len = 48

abbrev pub type_len : ℕ
type_len = 16

pub record Varbind : Type 0 where
  pub oid : Text
  pub name : Text
  pub type_name : Text
  pub value : Text
  pub note : Text

-- `vb` holds the first `nvarbinds` entries, in order.
pub record TrapContent : Type 0 where
  pub version : ℤ
  pub decoded : Bool
  pub alertable : Bool
  pub inform : Bool
  pub community : Text
  pub trap_oid : Text
  pub enterprise : Text
  pub agent : Text
  pub name : Text
  pub description : Text
  pub severity : Text
  pub category : Text
  pub vendor : Text
  pub iface : Text
  pub ifindex : ℤ
  pub generic : ℤ
  pub specific : ℤ
  pub uptime : ℕ
  pub vb : List Varbind

abbrev pub nvarbinds : TrapContent → ℕ
nvarbinds c = length c.vb

-- `"%u.%u.%u.%u"` of four bytes; any other length is the other case.
unfoldable pub dotted_quad : List ℕ → Text → Text
dotted_quad (a ∷ b ∷ c ∷ d ∷ []) other =
    decimal a ++ (b'.' ∷ (decimal b ++ (b'.' ∷ (decimal c ++ (b'.' ∷ decimal d)))))
dotted_quad _ other = other

-- `"%lud %luh %lum %lus"` of a number of hundredths of a second
unfoldable pub ticks_note : ℕ → Text
ticks_note ticks =
    decimal (ticks / 8640000)
    ++ (codes "d "
        ++ (decimal (ticks / 360000 % 24)
            ++ (codes "h "
                ++ (decimal (ticks / 6000 % 60)
                    ++ (codes "m " ++ (decimal (ticks / 100 % 60) ++ codes "s"))))))

-- The type, the value and the note of a varbind.
pub record Rendered : Type 0 where
  pub type_name : Text
  pub value : Text
  pub note : Text

abbrev rendered : Text → Text → Rendered
rendered t v = record { type_name = bounded type_len t; value = bounded trap_val_len v; note = [] }

unfoldable pub ber_value_str : ℕ → List ℕ → Rendered
ber_value_str tag v =
    let number = decimal (snmp_ber_uint v) in
    let text = ber_string_str v trap_val_len in
    if tag == 0x02
    then rendered (codes "INTEGER") (decimal_signed (snmp_ber_int v))
    else if tag == 0x04
    then rendered (codes "STRING") text
    else if tag == 0x05
    then rendered (codes "NULL") []
    else if tag == 0x06
    then rendered (codes "OID") (snmp_ber_oid_str v trap_val_len)
    else if tag == 0x40
    then rendered (codes "IpAddress") (dotted_quad v text)
    else if tag == 0x41
    then rendered (codes "Counter32") number
    else if tag == 0x42
    then rendered (codes "Gauge32") number
    else if tag == 0x43
    then record (rendered (codes "TimeTicks") number) {
      note = bounded trap_val_len (ticks_note (snmp_ber_uint v));
    }
    else if tag == 0x46
    then rendered (codes "Counter64") number
    else if tag == 0x44
    then rendered (codes "Opaque") text
    else if tag == 0x80
    then rendered (codes "noSuchObject") []
    else if tag == 0x81
    then rendered (codes "noSuchInstance") []
    else if tag == 0x82
    then rendered (codes "endOfMibView") []
    else rendered (codes "tag 0x" ++ hex_byte tag) text

-- ===== src/Ber/Tests.antt =====
-- The BER theorems of src/trapdecode.c at concrete bytes.
use sysmon.Base.{◌≡◌, refl, arith, [], ◌∷◌, some}
use sysmon.Base.Int.{negsuc}
use sysmon.Ber.Cursor.{Cursor, snmp_ber_next}
use sysmon.Ber.Reader.{read_tlv}
use sysmon.Ber.Reader.Refine.{Agrees, unread, snmp_ber_next-Agrees}
use sysmon.Ber.Value.{snmp_ber_int}
use sysmon.Ber.Value.Numbers.{twos_complement}
use sysmon.Ber.Value.Numbers.{snmp_ber_int-twos_complement}

-- An INTEGER, and the first byte of the next element.
abbrev integer_then_more : Cursor
integer_then_more = record { buf = 0x02 ∷ 0x01 ∷ 0x05 ∷ 0xff ∷ []; len = 4; pos = 0 }

snmp_ber_next-Agrees_example :
    Agrees (snmp_ber_next integer_then_more) (read_tlv (unread integer_then_more))
snmp_ber_next-Agrees_example =
    snmp_ber_next-Agrees integer_then_more (record { whole = refl; inside = omega arith })

reads_integer :
    read_tlv (0x02 ∷ 0x01 ∷ 0x05 ∷ 0xff ∷ [])
    ≡ some (record { tag = 0x02; val = 5 ∷ [] }, 0xff ∷ [])
unfolding read_tlv
reads_integer = refl

snmp_ber_int-twos_complement_example :
    snmp_ber_int (0xff ∷ 0x7f ∷ []) ≡ twos_complement (0xff ∷ 0x7f ∷ [])
snmp_ber_int-twos_complement_example =
    snmp_ber_int-twos_complement (0xff ∷ 0x7f ∷ []) (omega arith) (omega arith) (omega arith)

is_minus_129 : snmp_ber_int (0xff ∷ 0x7f ∷ []) ≡ negsuc 128
unfolding snmp_ber_int
is_minus_129 = refl

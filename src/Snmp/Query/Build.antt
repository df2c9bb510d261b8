-- ===== src/Snmp/Query/Build.antt =====
-- The packet of snmp_build_get against the GetRequest of RFC 3416, and the room that it takes.
use sysmon.Base.{ℕ, ◌+◌, ◌%◌, ◌^◌}
use sysmon.Base.{List, [], ◌++◌}
use sysmon.Base.Int.{pos}
use sysmon.Base.Text.{Text}
use sysmon.Ber.Element.{tlv}
use sysmon.Snmp.Writer.{Writer, bw_bytes, bw_int, bw_string, bw_null}
use sysmon.Snmp.Writer.Emits.{Emits}
use sysmon.Snmp.Writer.Enclosed.{enclosed}
use sysmon.Snmp.Writer.Scalars.{int_octets}
use sysmon.Snmp.Query.{tag_integer, tag_octetstr, tag_oid, tag_sequence, pdu_get, oid_octets}

-- A GetRequest as the standard describes it: nested elements, each in its shortest form.
abbrev pub get_request : ℕ → List ℕ → ℕ → List ℕ → List ℕ
get_request version community reqid subs = tlv tag_sequence (
    tlv tag_integer (int_octets (pos version))
    ++ tlv tag_octetstr community
    ++ tlv pdu_get (
        tlv tag_integer (int_octets (pos (reqid % 2 ^ 31)))
        ++ tlv tag_integer (int_octets (pos 0))
        ++ tlv tag_integer (int_octets (pos 0))
        ++ tlv tag_sequence (tlv tag_sequence (tlv tag_oid (oid_octets subs) ++ tlv 0x05 []))))

module _ (version : ℕ) (community : List ℕ) (reqid : ℕ) (octets : List ℕ) where
  -- The steps of the writer between each bw_open and its bw_close.
  abbrev varbind : Writer → Writer
  varbind = enclosed tag_sequence (λ w. bw_null (enclosed tag_oid (λ v. bw_bytes v octets) w))

  abbrev pdu : Writer → Writer
  pdu = enclosed pdu_get (λ w. enclosed tag_sequence varbind (
      bw_int (bw_int (bw_int w tag_integer (pos (reqid % 2 ^ 31))) tag_integer (pos 0)) tag_integer
        (pos 0)))

  abbrev message : Writer → Writer
  message =
      enclosed tag_sequence
        (λ w. pdu (bw_string (bw_int w tag_integer (pos version)) tag_octetstr community))

-- The free bytes that the message needs, for a community of l bytes and an OID of b.
abbrev pub message_room : ℕ → ℕ → ℕ
message_room l b = 4 + (12 + (4 + l) + (4 + (12 + 12 + 12 + (4 + (4 + (4 + b + 4))))))

module _ (version : ℕ) (community : List ℕ) (reqid : ℕ) (octets : List ℕ) where
  abbrev varbind_bytes : List ℕ
  varbind_bytes = tlv tag_sequence (tlv tag_oid octets ++ tlv 0x05 [])

  abbrev pdu_bytes : List ℕ
  pdu_bytes = tlv pdu_get (
      tlv tag_integer (int_octets (pos (reqid % 2 ^ 31)))
      ++ tlv tag_integer (int_octets (pos 0))
      ++ tlv tag_integer (int_octets (pos 0))
      ++ tlv tag_sequence varbind_bytes)

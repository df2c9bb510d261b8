-- ===== src/Snmp/Response/Parse.antt =====
-- What snmp_parse_response makes of a well-formed answer, and of one to another request.
use sysmon.Base.{ℕ}
use sysmon.Base.{List, [], ◌++◌}
use sysmon.Base.Int.{pos}
use sysmon.Ber.Element.{tlv}
use sysmon.Ber.Value.{snmp_ber_oid_str}
use sysmon.Snmp.Writer.Scalars.{int_octets}
use sysmon.Snmp.Query.{tag_integer, tag_octetstr, tag_oid, tag_sequence}
use sysmon.Snmp.Response.{SnmpValue, cleared, pdu_response}

-- An answer as an agent sends it: nested elements, each in its shortest form.
module _ (tag : ℕ) (val name : List ℕ) where
  abbrev pub varbind : List ℕ
  varbind = tlv tag_oid name ++ (tlv tag val ++ [])

  abbrev pub bindings : List ℕ
  bindings = tlv tag_sequence varbind ++ []

  abbrev pub response_pdu : ℕ → ℕ → ℕ → List ℕ
  response_pdu reqid status index =
      tlv tag_integer (int_octets (pos reqid))
      ++ (tlv tag_integer (int_octets (pos status))
          ++ (tlv tag_integer (int_octets (pos index)) ++ (tlv tag_sequence bindings ++ [])))

  abbrev pub response : ℕ → List ℕ → ℕ → ℕ → ℕ → List ℕ
  response version community reqid status index =
      tlv tag_sequence (
        tlv tag_integer (int_octets (pos version))
        ++ (tlv tag_octetstr community
            ++ (tlv pdu_response (response_pdu reqid status index) ++ [])))
      ++ []

-- What `*out` holds when the varbind of an answer is reached.
abbrev pub answered : ℕ → List ℕ → SnmpValue
answered status name = record cleared { error_status = pos status; oid = snmp_ber_oid_str name 192 }

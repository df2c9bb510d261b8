-- ===== src/Snmp/Response.antt =====
-- src/snmp.c: snmp_value_from_tag and snmp_parse_response. The first part of the result is the
-- C return value, the second what stands in `*out` then.
pub mod Parse
use sysmon.Base.{ℕ, zero, suc, ◌+◌, ◌*◌, ◌/◌, ◌%◌, ◌^◌, Bool, true, false, List, [], ◌∷◌, ◌++◌, not}
use sysmon.Base.{Option, none, some, ltb, ◌==◌, if◌then◌else◌, ◌||◌}
use sysmon.Base.Int.{ℤ, pos, is_pos, to_int, pattern64}
use sysmon.Base.Text.{Text, codes, hex_byte}
use sysmon.Ber.Cursor.{Tlv}
use sysmon.Ber.Reader.{read_tlv}
use sysmon.Ber.Value.{snmp_ber_int, snmp_ber_uint, snmp_ber_oid_str}
use sysmon.Snmp.Query.{
  tag_integer, tag_octetstr, tag_oid, tag_sequence, snmp_version_1, snmp_version_2c,
}

-- `struct snmp_value`
pub record SnmpValue : Type 0 where
  pub have_value : Bool
  pub value : ℕ
  pub type_name : Text
  pub oid : Text
  pub error_status : ℤ
  pub exception : Text

-- After `memset`.
abbrev pub cleared : SnmpValue
cleared = record {
  have_value = false;
  value = 0;
  type_name = [];
  oid = [];
  error_status = pos 0;
  exception = [];
}

abbrev pub pdu_response : ℕ
pdu_response = 0xa2

abbrev numeric : Text → ℕ → SnmpValue → SnmpValue
numeric name n out = record out { type_name = name; value = n; have_value = true }

abbrev exceptional : Text → SnmpValue → SnmpValue
exceptional name out = record out { type_name = codes "exception"; exception = name }

unfoldable pub snmp_value_from_tag : ℕ → List ℕ → SnmpValue → SnmpValue
snmp_value_from_tag tag v out =
    if tag == 0x02
    then numeric (codes "INTEGER") (pattern64 (snmp_ber_int v)) out
    else if tag == 0x41
    then numeric (codes "Counter32") (snmp_ber_uint v) out
    else if tag == 0x42
    then numeric (codes "Gauge32") (snmp_ber_uint v) out
    else if tag == 0x43
    then numeric (codes "TimeTicks") (snmp_ber_uint v) out
    else if tag == 0x46
    then numeric (codes "Counter64") (snmp_ber_uint v) out
    else if tag == 0x80
    then exceptional (codes "noSuchObject") out
    else if tag == 0x81
    then exceptional (codes "noSuchInstance") out
    else if tag == 0x82
    then exceptional (codes "endOfMibView") out
    else if tag == 0x04
    then record out { type_name = codes "STRING" }
    else if tag == 0x40
    then record out { type_name = codes "IpAddress" }
    else record out { type_name = codes "tag 0x" ++ hex_byte tag }

-- `!snmp_ber_next(&c, &tag, &val, &vlen) || tag != wanted` is the case `none`.
unfoldable pub expect : ℕ → List ℕ → Option (List ℕ × List ℕ)
expect wanted c = elim (read_tlv c) [
  | none ↦ none
  | some (e, rest) ↦ if e.tag == wanted then some (e.val, rest) else none
]

unfoldable pub parse_varbind : SnmpValue → List ℕ → Bool × SnmpValue
parse_varbind out vb = elim (expect tag_oid vb) [
  | none ↦ (false, out)
  | some (name, rest) ↦
      let named = record out { oid = snmp_ber_oid_str name 192 } in
      elim (read_tlv rest) [
        | none ↦ (false, named)
        | some (e, _) ↦ (true, snmp_value_from_tag e.tag e.val named)
      ]
]

-- An error PDU can be empty.
unfoldable pub parse_varbinds : SnmpValue → List ℕ → Bool × SnmpValue
unfolding parse_varbind
parse_varbinds out vblist = elim (expect tag_sequence vblist) [
  | none ↦ (not (is_pos out.error_status 0), out)
  | some (vb, _) ↦ parse_varbind out vb
]

-- error-status, error-index, and the list
unfoldable pub parse_status : List ℕ → Bool × SnmpValue
unfolding parse_varbinds
parse_status pdu = elim (expect tag_integer pdu) [
  | none ↦ (false, cleared)
  | some (status, p1) ↦
      let out = record cleared { error_status = to_int (snmp_ber_int status) } in
      elim (expect tag_integer p1) [
        | none ↦ (false, out)
        | some (_, p2) ↦ elim (expect tag_sequence p2) [
          | none ↦ (false, out)
          | some (vblist, _) ↦ parse_varbinds out vblist
        ]
      ]
]

-- A request-id that is not the caller's is someone else's answer.
unfoldable pub parse_pdu : ℕ → List ℕ → Bool × SnmpValue
unfolding parse_status
parse_pdu reqid pdu = elim (expect tag_integer pdu) [
  | none ↦ (false, cleared)
  | some (id, rest) ↦
      if pattern64 (snmp_ber_int id) == reqid % 2 ^ 31 then parse_status rest else (false, cleared)
]

unfoldable pub parse_message : ℕ → List ℕ → Bool × SnmpValue
unfolding parse_pdu
parse_message reqid seq = elim (expect tag_integer seq) [
  | none ↦ (false, cleared)
  | some (v, s1) ↦
      let version = to_int (snmp_ber_int v) in
      if not (is_pos version snmp_version_1 || is_pos version snmp_version_2c)
      then (false, cleared)
      else elim (expect tag_octetstr s1) [
        | none ↦ (false, cleared)
        | some (_, s2) ↦ elim (expect pdu_response s2) [
          | none ↦ (false, cleared)
          | some (pdu, _) ↦ parse_pdu reqid pdu
        ]
      ]
]

unfoldable pub snmp_parse_response : List ℕ → ℕ → Bool × SnmpValue
unfolding parse_message expect
snmp_parse_response pkt reqid = elim (expect tag_sequence pkt) [
  | none ↦ (false, cleared)
  | some (seq, _) ↦ parse_message reqid seq
]

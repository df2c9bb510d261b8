-- ===== src/Trap/Decode.antt =====
-- src/trapdecode.c: decode_snmp_trap. The first part of the result is the C return value, the
-- second what stands in `*out` then. The source's checks for NULL pointers have no counterpart.
pub mod Outcomes
pub mod Bounds
use sysmon.Base.{ℕ, zero, suc, ◌+◌, Bool, true, false, List, [], ◌∷◌, ◌++◌, Option, none, some}
use sysmon.Base.{◌==◌, if◌then◌else◌, ◌||◌, ◌&&◌, not, ltb, leb, length}
use sysmon.Base.Int.{ℤ, pos, negsuc, is_pos, to_int}
use sysmon.Base.Text.{Text, codes, bounded, decimal, decimal_signed, hex_byte}
use sysmon.Ber.Cursor.{Tlv}
use sysmon.Ber.Reader.{read_tlv}
use sysmon.Ber.Value.{snmp_ber_int, snmp_ber_uint, snmp_ber_oid_str, ber_string_str}
use sysmon.Snmp.Response.{expect}
use sysmon.Trap.Content.{TrapContent, dotted_quad, trap_val_len, trap_oid_len}
use sysmon.Trap.Tables.{warning}
use sysmon.Trap.Varbinds.{decode_varbinds}
use sysmon.Trap.Classify.{classify_trap}

abbrev pub pdu_trap_v1 : ℕ
pdu_trap_v1 = 0xa4

abbrev pub pdu_inform : ℕ
pdu_inform = 0xa6

abbrev pub pdu_trap_v2 : ℕ
pdu_trap_v2 = 0xa7

abbrev pub community_len : ℕ
community_len = 64

abbrev pub ip_addr_str_size : ℕ
ip_addr_str_size = 20

-- The record before the packet is read.
abbrev pub undecoded : TrapContent
undecoded = record {
  version = negsuc 0;
  decoded = false;
  alertable = false;
  inform = false;
  community = [];
  trap_oid = [];
  enterprise = [];
  agent = [];
  name = codes "undecoded";
  description = codes "Trap could not be decoded (malformed or unsupported packet)";
  severity = warning;
  category = codes "trap";
  vendor = [];
  iface = [];
  ifindex = negsuc 0;
  generic = negsuc 0;
  specific = pos 0;
  uptime = 0;
  vb = [];
}

abbrev pub Decoded : Type 0
Decoded = Bool × TrapContent

-- The last steps of a packet that was read.
unfoldable pub finished : List ℕ → TrapContent → Decoded
finished pdu out =
    (true, record (classify_trap (decode_varbinds pdu out)) { decoded = true; alertable = true })

abbrev is_between_0_5 : ℤ → Bool
is_between_0_5 (pos n) = leb n 5
is_between_0_5 (negsuc n) = false

abbrev next_generic : ℤ → ℤ
next_generic (pos n) = pos (n + 1)
next_generic (negsuc n) = pos 0

-- v1 has no snmpTrapOID: the equivalent is built from the enterprise and the specific number where
-- their lengths fit, with the precisions 160 and 24 of the format.
unfoldable pub equivalent_oid : TrapContent → TrapContent
equivalent_oid out =
    let suffix = bounded 24 (codes ".0." ++ decimal_signed out.specific) in
    if is_pos out.generic 6
    then (if ltb (length out.enterprise + length suffix) trap_oid_len
        then record out {
          trap_oid = bounded trap_oid_len (bounded 161 out.enterprise ++ bounded 25 suffix);
        }
        else record out { trap_oid = bounded trap_oid_len out.enterprise })
    else if is_between_0_5 out.generic
    then record out {
      trap_oid =
          bounded trap_oid_len
            (codes ".1.3.6.1.6.3.1.1.5." ++ decimal_signed (next_generic out.generic));
    }
    else out

-- The time stamp, and what follows it.
unfoldable pub v1_time : List ℕ → TrapContent → Decoded
v1_time pdu out = elim (read_tlv pdu) [
  | none ↦ (false, out)
  | some (e, rest) ↦
      let timed = (if e.tag == 0x43 then record out { uptime = snmp_ber_uint e.val } else out) in
      finished rest (equivalent_oid timed)
]

unfoldable pub v1_numbers : List ℕ → TrapContent → Decoded
v1_numbers pdu out = elim (expect 0x02 pdu) [
  | none ↦ (false, out)
  | some (g, p1) ↦
      let out1 = record out { generic = to_int (snmp_ber_int g) } in
      elim (expect 0x02 p1) [
        | none ↦ (false, out1)
        | some (s, p2) ↦ v1_time p2 (record out1 { specific = to_int (snmp_ber_int s) })
      ]
]

abbrev agent_address : Tlv → TrapContent → TrapContent
agent_address e out =
    if e.tag == 0x40 && length e.val == 4
    then record out { agent = bounded ip_addr_str_size (dotted_quad e.val []) }
    else out

unfoldable pub decode_v1 : List ℕ → TrapContent → Decoded
decode_v1 pdu out = elim (expect 0x06 pdu) [
  | none ↦ (false, out)
  | some (ent, p1) ↦
      let out1 = record out { enterprise = snmp_ber_oid_str ent trap_oid_len } in
      elim (read_tlv p1) [
        | none ↦ (false, out1)
        | some (e, p2) ↦ v1_numbers p2 (agent_address e out1)
      ]
]

-- request-id, error-status, error-index
unfoldable pub skip_integers : ℕ → List ℕ → Option (List ℕ)
skip_integers zero pdu = some pdu
skip_integers (suc n) pdu = elim (expect 0x02 pdu) [
  | none ↦ none
  | some (_, rest) ↦ skip_integers n rest
]

unfoldable pub decode_v2 : ℕ → List ℕ → TrapContent → Decoded
decode_v2 tag pdu out =
    let out1 = record out { inform = tag == pdu_inform } in
    elim (skip_integers 3 pdu) [ none ↦ (false, out1) | some rest ↦ finished rest out1 ]

unfoldable pub not_a_trap : ℕ → TrapContent → TrapContent
not_a_trap tag out = record out {
  name = codes "non-trap";
  description =
      codes "SNMP PDU type 0x" ++ (hex_byte tag ++ codes " on the trap port - not a trap");
}

unfoldable pub decode_pdu : Tlv → TrapContent → Decoded
decode_pdu e out =
    if e.tag == pdu_trap_v1
    then decode_v1 e.val out
    else if e.tag == pdu_trap_v2 || e.tag == pdu_inform
    then decode_v2 e.tag e.val out
    else (false, not_a_trap e.tag out)

-- v3 hides the PDU behind keys: it is alertable, and not decoded.
unfoldable pub v3_trap : TrapContent → TrapContent
v3_trap out = record out {
  name = codes "snmpv3Trap";
  category = codes "trap";
  description = codes "SNMPv3 trap received - sysmond does not hold the v3 keys to decode it";
  alertable = true;
}

unfoldable pub decode_community : List ℕ → TrapContent → Decoded
decode_community seq out = elim (expect 0x04 seq) [
  | none ↦ (false, out)
  | some (c, rest) ↦
      let out1 = record out { community = ber_string_str c community_len } in
      elim (read_tlv rest) [ none ↦ (false, out1) | some (e, _) ↦ decode_pdu e out1 ]
]

unfoldable pub decode_message : List ℕ → Decoded
decode_message seq = elim (expect 0x02 seq) [
  | none ↦ (false, undecoded)
  | some (v, rest) ↦
      let out = record undecoded { version = to_int (snmp_ber_int v) } in
      if is_pos out.version 3
      then (false, v3_trap out)
      else if not (is_pos out.version 0 || is_pos out.version 1)
      then (false, out)
      else decode_community rest out
]

unfoldable pub decode_snmp_trap : List ℕ → Decoded
decode_snmp_trap buf = elim (expect 0x30 buf) [
  | none ↦ (false, undecoded)
  | some (seq, _) ↦ decode_message seq
]

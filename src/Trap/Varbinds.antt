-- ===== src/Trap/Varbinds.antt =====
-- src/trapdecode.c: decode_varbinds. A round either adds an entry or ends the loop, and the loop has
-- at most TRAP_MAX_VARBIND rounds.
pub mod Bounds
use sysmon.Base.{ℕ, zero, suc, ◌+◌, ◌-◌, Bool, true, false, List, [], ◌∷◌, ◌++◌, Option, none, some}
use sysmon.Base.{◌==◌, if◌then◌else◌, ◌||◌, ◌&&◌, not, length}
use sysmon.Base.Int.{ℤ, to_int}
use sysmon.Base.Text.{Text, codes, str_eq, is_empty, bounded, strtoul, strtol}
use sysmon.Ber.Cursor.{Tlv}
use sysmon.Ber.Reader.{read_tlv}
use sysmon.Ber.Value.{snmp_ber_oid_str}
use sysmon.Snmp.Response.{expect}
use sysmon.Trap.Content.{
  Varbind, TrapContent, Rendered, ber_value_str, trap_max_varbind, trap_oid_len, trap_val_len,
}
use sysmon.Trap.Tables.{name_oid, if_status_name}

abbrev pub iface_len : ℕ
iface_len = 64

-- One element of the list as a varbind; `none` is a `break`.
unfoldable pub read_varbind : List ℕ → Option Varbind
read_varbind vb = elim (expect 0x06 vb) [
  | none ↦ none
  | some (name, rest) ↦ elim (read_tlv rest) [
    | none ↦ none
    | some (e, _) ↦
        let oid = snmp_ber_oid_str name trap_oid_len in
        let r = ber_value_str e.tag e.val in
        some (record {
          oid = oid;
          name = name_oid oid;
          type_name = r.type_name;
          value = r.value;
          note = r.note;
        })
  ]
]

abbrev pub named : Varbind → Text → Bool
named b name = str_eq b.name name

-- `if (s != NULL) snprintf(b->note, …)`
abbrev status_note : Option Text → Varbind → Varbind
status_note none b = b
status_note (some s) b = record b { note = bounded trap_val_len s }

-- What a varbind says about the trap.
unfoldable pub learn : Varbind → TrapContent → TrapContent
learn b out =
    if named b (codes "snmpTrapOID") && not (is_empty b.value)
    then record out { trap_oid = bounded trap_oid_len b.value }
    else if named b (codes "sysUpTime")
    then record out { uptime = strtoul b.value }
    else if named b (codes "snmpTrapEnterprise") && is_empty out.enterprise
    then record out { enterprise = bounded trap_oid_len b.value }
    else if named b (codes "ifIndex")
    then record out { ifindex = to_int (strtol b.value) }
    else if named b (codes "ifName") || named b (codes "ifDescr") || named b (codes "ifAlias")
    then (if is_empty out.iface || named b (codes "ifName")
        then record out { iface = bounded iface_len b.value }
        else out)
    else out

-- The last branch of that chain changes the varbind.
unfoldable pub annotate : Varbind → TrapContent → Varbind
annotate b out =
    if (named b (codes "ifOperStatus") || named b (codes "ifAdminStatus"))
    then status_note (if_status_name (strtol b.value)) b
    else b

unfoldable pub add_varbind : Varbind → TrapContent → TrapContent
add_varbind b out =
    let learned = learn b out in record learned { vb = learned.vb ++ (annotate b out ∷ []) }

-- `rounds` is TRAP_MAX_VARBIND less the entries in use.
unfoldable pub varbind_loop : ℕ → List ℕ → TrapContent → TrapContent
varbind_loop zero list out = out
varbind_loop (suc rounds) list out = elim (expect 0x30 list) [
  | none ↦ out
  | some (vb, rest) ↦ elim (read_varbind vb) [
    | none ↦ out
    | some b ↦ varbind_loop rounds rest (add_varbind b out)
  ]
]

unfoldable pub decode_varbinds : List ℕ → TrapContent → TrapContent
decode_varbinds pdu out = elim (expect 0x30 pdu) [
  | none ↦ out
  | some (list, _) ↦ varbind_loop (trap_max_varbind - length out.vb) list out
]

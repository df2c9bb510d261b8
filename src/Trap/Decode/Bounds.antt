-- ===== src/Trap/Decode/Bounds.antt =====
-- The texts of the record and the sizes of their arrays, through decode_snmp_trap.
use sysmon.Base.{ℕ, arith, List, []}
use sysmon.Base.{inl, inr, Option-cases}
use sysmon.Base.Int.{ℤ, to_int}
use sysmon.Base.Text.{length-bounded, hex_byte}
use sysmon.Ber.Cursor.{Tlv}
use sysmon.Ber.Reader.{read_tlv}
use sysmon.Ber.Value.{snmp_ber_int}
use sysmon.Ber.Value.Texts.{snmp_ber_oid_str-fits, ber_string_str-fits}
use sysmon.Snmp.Response.{expect}
use sysmon.Trap.Content.{TrapContent}
use sysmon.Trap.Content.{dotted_quad}
use sysmon.Trap.Classify.Laws.{classify_trap-kept}
use sysmon.Trap.Varbinds.{decode_varbinds}
use sysmon.Trap.Decode.{
  undecoded, finished, equivalent_oid, v1_time, v1_numbers, decode_v1, skip_integers, decode_v2,
  not_a_trap, decode_pdu, v3_trap, decode_community, decode_message, decode_snmp_trap,
}
use sysmon.Trap.Varbinds.Bounds.{Fits, decode_varbinds-Fits}
use sysmon.Trap.Classify.Bounds.{classify_trap-TextsFit}

finished-Fits : (pdu : List ℕ) (out : TrapContent) → Fits out → Fits (finished pdu out).1
unfolding finished
finished-Fits pdu out h =
    let d = decode_varbinds-Fits pdu out h in
    ground (
      arith,
      classify_trap-TextsFit (decode_varbinds pdu out) d.texts,
      classify_trap-kept (decode_varbinds pdu out),
    )

equivalent_oid-Fits : (out : TrapContent) → Fits out → Fits (equivalent_oid out)
unfolding equivalent_oid
equivalent_oid-Fits out h = grind (arith, length-bounded)

v1_time-Fits : (pdu : List ℕ) (out : TrapContent) → Fits out → Fits (v1_time pdu out).1
unfolding v1_time
v1_time-Fits pdu out h = elim (Option-cases (read_tlv pdu)) [
  | inl e ↦ rw (e, v1_time) h
  | inr ((t, rest), e) ↦
      rw (e, v1_time) (finished-Fits rest _ (equivalent_oid-Fits _ (ground arith)))
]

v1_numbers-Fits : (pdu : List ℕ) (out : TrapContent) → Fits out → Fits (v1_numbers pdu out).1
unfolding v1_numbers
v1_numbers-Fits pdu out h = elim (Option-cases (expect 0x02 pdu)) [
  | inl e ↦ rw (e, v1_numbers) h
  | inr ((g, p1), e) ↦ elim (Option-cases (expect 0x02 p1)) [
    | inl d ↦ rw (e, v1_numbers) (rw d (ground arith))
    | inr ((s, p2), d) ↦ rw (e, v1_numbers) (rw d (v1_time-Fits p2 _ (ground arith)))
  ]
]

decode_v1-Fits : (pdu : List ℕ) (out : TrapContent) → Fits out → Fits (decode_v1 pdu out).1
unfolding decode_v1
decode_v1-Fits pdu out h = elim (Option-cases (expect 0x06 pdu)) [
  | inl e ↦ rw (e, decode_v1) h
  | inr ((g, p1), e) ↦
      let small = snmp_ber_oid_str-fits g 192 in
      elim (Option-cases (read_tlv p1)) [
        | inl d ↦ rw (e, decode_v1) (rw d (ground (arith, small)))
        | inr ((t, p2), d) ↦
            rw (e, decode_v1)
              (rw d (
                v1_numbers-Fits p2 _
                  (ground (arith, small, length-bounded 20 (dotted_quad t.val [])))))
      ]
]

decode_v2-Fits :
    (tag : ℕ) (pdu : List ℕ) (out : TrapContent) → Fits out → Fits (decode_v2 tag pdu out).1
unfolding decode_v2
decode_v2-Fits tag pdu out h = elim (Option-cases (skip_integers 3 pdu)) [
  | inl e ↦ rw (e, decode_v2) (ground arith)
  | inr (rest, e) ↦ rw (e, decode_v2) (finished-Fits rest _ (ground arith))
]

not_a_trap-Fits : (tag : ℕ) (out : TrapContent) → Fits out → Fits (not_a_trap tag out)
unfolding not_a_trap hex_byte
not_a_trap-Fits tag out h = record { texts = ground arith; varbinds = h.varbinds; count = h.count }

undecoded-Fits : (v : ℤ) → Fits (record undecoded { version = v })
undecoded-Fits v = ground arith

v3_trap-Fits : (out : TrapContent) → Fits out → Fits (v3_trap out)
unfolding v3_trap
v3_trap-Fits out h = record { texts = ground arith; varbinds = h.varbinds; count = h.count }

decode_pdu-Fits : (e : Tlv) (out : TrapContent) → Fits out → Fits (decode_pdu e out).1
unfolding decode_pdu
decode_pdu-Fits e out h = ground (
  arith,
  decode_v1-Fits e.val out h,
  decode_v2-Fits e.tag e.val out h,
  not_a_trap-Fits e.tag out h,
)

decode_community-Fits :
    (seq : List ℕ) (out : TrapContent) → Fits out → Fits (decode_community seq out).1
unfolding decode_community
decode_community-Fits seq out h = elim (Option-cases (expect 0x04 seq)) [
  | inl e ↦ rw (e, decode_community) h
  | inr ((c, rest), e) ↦
      let small = ber_string_str-fits c 64 in
      elim (Option-cases (read_tlv rest)) [
        | inl d ↦ rw (e, decode_community) (rw d (ground (arith, small)))
        | inr ((t, _), d) ↦
            rw (e, decode_community) (rw d (decode_pdu-Fits t _ (ground (arith, small))))
      ]
]

decode_message-Fits : (seq : List ℕ) → Fits (decode_message seq).1
unfolding decode_message
decode_message-Fits seq = elim (Option-cases (expect 0x02 seq)) [
  | inl e ↦ rw (e, decode_message) (undecoded-Fits undecoded.version)
  | inr ((v, rest), e) ↦
      let out = record undecoded { version = to_int (snmp_ber_int v) } in
      let start : Fits out = undecoded-Fits _ in
      rw (e, decode_message)
        (ground (arith, start, v3_trap-Fits out start, decode_community-Fits rest out start))
]

-- Whatever the bytes, each text of the record and of its varbinds leaves room for the NUL of its
-- array, there are at most TRAP_MAX_VARBIND varbinds, and the severity is critical, warning or
-- informational.
pub decode_snmp_trap-Fits : (buf : List ℕ) → Fits (decode_snmp_trap buf).1
unfolding decode_snmp_trap
decode_snmp_trap-Fits buf = elim (Option-cases (expect 0x30 buf)) [
  | inl e ↦ rw (e, decode_snmp_trap) (undecoded-Fits undecoded.version)
  | inr ((seq, _), e) ↦ rw (e, decode_snmp_trap) (decode_message-Fits seq)
]

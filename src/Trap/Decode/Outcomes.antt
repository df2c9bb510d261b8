-- ===== src/Trap/Decode/Outcomes.antt =====
-- Which packets decode, and which may raise an alert.
use sysmon.Base.{ℕ, zero, suc, ◌≡◌, ◌∙◌, refl, arith, Bool, true, false, List, inl, inr}
use sysmon.Base.{◌||◌, not, Option-cases}
use sysmon.Base.Int.{ℤ, is_pos, to_int}
use sysmon.Ber.Cursor.{Tlv}
use sysmon.Ber.Value.{snmp_ber_int}
use sysmon.Ber.Reader.{read_tlv}
use sysmon.Snmp.Response.{expect}
use sysmon.Trap.Content.{TrapContent}
use sysmon.Trap.Varbinds.{learn, add_varbind, varbind_loop, decode_varbinds, read_varbind}
use sysmon.Trap.Classify.Laws.{classify_trap-kept}
use sysmon.Trap.Decode.{
  Decoded, undecoded, finished, equivalent_oid, v1_time, v1_numbers, decode_v1, skip_integers,
  decode_v2, not_a_trap, decode_pdu, v3_trap, decode_community, decode_message, decode_snmp_trap,
}

-- The parts of the record that the theorem speaks of.
abbrev pub marks : TrapContent → ℤ × Bool × Bool
marks c = (c.version, c.decoded, c.alertable)

learn-marks : (b : _) (out : TrapContent) → marks (learn b out) ≡ marks out
unfolding learn
learn-marks b out = ground arith

add_varbind-marks : (b : _) (out : TrapContent) → marks (add_varbind b out) ≡ marks out
unfolding add_varbind
add_varbind-marks b out = ground (arith, learn-marks b out)

varbind_loop-marks :
    (rounds : ℕ) (list : List ℕ) (out : TrapContent)
    → marks (varbind_loop rounds list out) ≡ marks out
unfolding varbind_loop
varbind_loop-marks zero list out = refl
varbind_loop-marks (suc rounds) list out = elim (Option-cases (expect 0x30 list)) [
  | inl e ↦ rw (e, varbind_loop)
  | inr ((vb, rest), e) ↦ elim (Option-cases (read_varbind vb)) [
    | inl f ↦ rw (e, varbind_loop) (rw f)
    | inr (b, f) ↦
        rw (e, varbind_loop)
          (rw f (varbind_loop-marks rounds rest (add_varbind b out) ∙ add_varbind-marks b out))
  ]
]

decode_varbinds-marks :
    (pdu : List ℕ) (out : TrapContent) → marks (decode_varbinds pdu out) ≡ marks out
unfolding decode_varbinds
decode_varbinds-marks pdu out = elim (Option-cases (expect 0x30 pdu)) [
  | inl e ↦ rw (e, decode_varbinds)
  | inr ((list, rest), e) ↦ rw (e, decode_varbinds) (varbind_loop-marks _ list out)
]

-- A record that the version has passed into, before the packet is known to be a trap.
pub record IsFresh (c : TrapContent) : Type 0 where
  pub not_decoded : c.decoded ≡ false
  pub not_alertable : c.alertable ≡ false
  pub known_version : (is_pos c.version 0 || is_pos c.version 1) ≡ true

-- What the return value says of the record.
pub record IsSound (r : Decoded) : Type 0 where
  pub trusted : r.1.decoded ≡ r.0
  pub alerting : r.1.alertable ≡ (r.0 || is_pos r.1.version 3)
  pub version : (not r.0 || (is_pos r.1.version 0 || is_pos r.1.version 1)) ≡ true

finished-IsSound : (pdu : List ℕ) (out : TrapContent) → IsFresh out → IsSound (finished pdu out)
unfolding finished
finished-IsSound pdu out f =
    ground (arith, classify_trap-kept (decode_varbinds pdu out), decode_varbinds-marks pdu out)

equivalent_oid-IsFresh : (out : TrapContent) → IsFresh out → IsFresh (equivalent_oid out)
unfolding equivalent_oid
equivalent_oid-IsFresh out f = ground arith

failed-IsSound : (out : TrapContent) → IsFresh out → IsSound (false, out)
failed-IsSound out f = ground arith

v1_time-IsSound : (pdu : List ℕ) (out : TrapContent) → IsFresh out → IsSound (v1_time pdu out)
unfolding v1_time
v1_time-IsSound pdu out f = elim (Option-cases (read_tlv pdu)) [
  | inl e ↦ rw (e, v1_time) (failed-IsSound out f)
  | inr ((t, rest), e) ↦
      rw (e, v1_time) (finished-IsSound rest _ (equivalent_oid-IsFresh _ (ground arith)))
]

v1_numbers-IsSound : (pdu : List ℕ) (out : TrapContent) → IsFresh out → IsSound (v1_numbers pdu out)
unfolding v1_numbers
v1_numbers-IsSound pdu out f = elim (Option-cases (expect 0x02 pdu)) [
  | inl e ↦ rw (e, v1_numbers) (failed-IsSound out f)
  | inr ((g, p1), e) ↦ elim (Option-cases (expect 0x02 p1)) [
    | inl d ↦ rw (e, v1_numbers) (rw d (failed-IsSound _ (ground arith)))
    | inr ((s, p2), d) ↦ rw (e, v1_numbers) (rw d (v1_time-IsSound p2 _ (ground arith)))
  ]
]

decode_v1-IsSound : (pdu : List ℕ) (out : TrapContent) → IsFresh out → IsSound (decode_v1 pdu out)
unfolding decode_v1
decode_v1-IsSound pdu out f = elim (Option-cases (expect 0x06 pdu)) [
  | inl e ↦ rw (e, decode_v1) (failed-IsSound out f)
  | inr ((g, p1), e) ↦ elim (Option-cases (read_tlv p1)) [
    | inl d ↦ rw (e, decode_v1) (rw d (failed-IsSound _ (ground arith)))
    | inr ((t, p2), d) ↦ rw (e, decode_v1) (rw d (v1_numbers-IsSound p2 _ (ground arith)))
  ]
]

decode_v2-IsSound :
    (tag : ℕ) (pdu : List ℕ) (out : TrapContent) → IsFresh out → IsSound (decode_v2 tag pdu out)
unfolding decode_v2
decode_v2-IsSound tag pdu out f = elim (Option-cases (skip_integers 3 pdu)) [
  | inl e ↦ rw (e, decode_v2) (failed-IsSound _ (ground arith))
  | inr (rest, e) ↦ rw (e, decode_v2) (finished-IsSound rest _ (ground arith))
]

decode_pdu-IsSound : (e : Tlv) (out : TrapContent) → IsFresh out → IsSound (decode_pdu e out)
unfolding decode_pdu not_a_trap
decode_pdu-IsSound e out f =
    ground (arith, decode_v1-IsSound e.val out f, decode_v2-IsSound e.tag e.val out f)

decode_community-IsSound :
    (seq : List ℕ) (out : TrapContent) → IsFresh out → IsSound (decode_community seq out)
unfolding decode_community
decode_community-IsSound seq out f = elim (Option-cases (expect 0x04 seq)) [
  | inl e ↦ rw (e, decode_community) (failed-IsSound out f)
  | inr ((c, rest), e) ↦ elim (Option-cases (read_tlv rest)) [
    | inl d ↦ rw (e, decode_community) (rw d (failed-IsSound _ (ground arith)))
    | inr ((t, _), d) ↦ rw (e, decode_community) (rw d (decode_pdu-IsSound t _ (ground arith)))
  ]
]

decode_message-IsSound : (seq : List ℕ) → IsSound (decode_message seq)
unfolding decode_message v3_trap
decode_message-IsSound seq = elim (Option-cases (expect 0x02 seq)) [
  | inl e ↦ rw (e, decode_message) (ground arith)
  | inr ((v, rest), e) ↦
      let out = record undecoded { version = to_int (snmp_ber_int v) } in
      rw (e, decode_message) (ground (arith, decode_community-IsSound rest out))
]

-- Of any bytes: the record is marked decoded exactly when the packet decodes, and alertable exactly
-- when it decodes or says version 3; a packet that decodes is of version 1 or 2c.
pub decode_snmp_trap-IsSound : (buf : List ℕ) → IsSound (decode_snmp_trap buf)
unfolding decode_snmp_trap
decode_snmp_trap-IsSound buf = elim (Option-cases (expect 0x30 buf)) [
  | inl e ↦ rw (e, decode_snmp_trap) (ground arith)
  | inr ((seq, _), e) ↦ rw (e, decode_snmp_trap) (decode_message-IsSound seq)
]

-- ===== src/Trap/Varbinds/Bounds.antt =====
-- The arrays of a varbind and of the record, and the varbinds that decode_varbinds adds.
use sysmon.Base.{ℕ, zero, suc, ◌+◌, ◌≤◌, ◌<◌, ◌≡◌, ◌⊎◌, arith, List, [], ◌∷◌, ◌++◌}
use sysmon.Base.{some, inl, inr, Option-cases}
use sysmon.Base.{length, length-append, All, All-append}
use sysmon.Base.Text.{Text, length-bounded}
use sysmon.Ber.Reader.{read_tlv}
use sysmon.Ber.Value.{snmp_ber_oid_str}
use sysmon.Ber.Value.Texts.{snmp_ber_oid_str-fits}
use sysmon.Snmp.Response.{expect}
use sysmon.Trap.Content.{Varbind, TrapContent, ber_value_str, trap_max_varbind}
use sysmon.Trap.Tables.{critical, warning, informational, name_oid, name_vendor}
use sysmon.Trap.Varbinds.{learn, annotate, add_varbind, varbind_loop, decode_varbinds, read_varbind}

pub record VarbindFits (b : Varbind) : Type 0 where
  pub oid : length b.oid < 192
  pub name : length b.name < 48
  pub type_name : length b.type_name < 16
  pub value : length b.value < 160
  pub note : length b.note < 160

-- One of the three severities, in full.
abbrev pub IsSeverity : Text → Type 0
IsSeverity s = (s ≡ critical) ⊎ ((s ≡ warning) ⊎ (s ≡ informational))

-- The texts of the record itself.
pub record TextsFit (c : TrapContent) : Type 0 where
  pub community : length c.community < 64
  pub trap_oid : length c.trap_oid < 192
  pub enterprise : length c.enterprise < 192
  pub agent : length c.agent < 20
  pub name : length c.name < 48
  pub description : length c.description < 160
  pub severity : length c.severity < 16
  pub level : IsSeverity c.severity
  pub category : length c.category < 24
  pub vendor : length c.vendor < 32
  pub iface : length c.iface < 64

pub record Fits (c : TrapContent) : Type 0 where
  pub texts : TextsFit c
  pub varbinds : All VarbindFits c.vb
  pub count : length c.vb ≤ trap_max_varbind

ber_value_str-fits :
    (tag : ℕ) (v : List ℕ)
    → (length (ber_value_str tag v).type_name < 16)
      × (length (ber_value_str tag v).value < 160)
      × (length (ber_value_str tag v).note < 160)
unfolding ber_value_str
ber_value_str-fits tag v = grind (arith, length-bounded)

length-name_oid : (oid : Text) → length (name_oid oid) < 48
unfolding name_oid
length-name_oid oid = grind (arith, length-bounded)

pub length-name_vendor : (oid : Text) → length (name_vendor oid) < 32
unfolding name_vendor
length-name_vendor oid = grind (arith, length-bounded)

learn-TextsFit : (b : Varbind) (out : TrapContent) → TextsFit out → TextsFit (learn b out)
unfolding learn
learn-TextsFit b out f = ground (arith, length-bounded 192 b.value, length-bounded 64 b.value)

annotate-VarbindFits :
    (b : Varbind) (out : TrapContent) → VarbindFits b → VarbindFits (annotate b out)
unfolding annotate
annotate-VarbindFits b out f = grind (arith, length-bounded)

read_varbind-fits : (vb : List ℕ) (b : Varbind) → read_varbind vb ≡ some b → VarbindFits b
unfolding read_varbind
read_varbind-fits vb b h = elim (Option-cases (expect 0x06 vb)) [
  | inl e ↦ ground arith
  | inr ((name, rest), e) ↦ elim (Option-cases (read_tlv rest)) [
    | inl d ↦ ground arith
    | inr ((t, _), d) ↦
        let oid = snmp_ber_oid_str name 192 in
        ground (
          arith,
          snmp_ber_oid_str-fits name 192,
          length-name_oid oid,
          ber_value_str-fits t.tag t.val,
        )
  ]
]

learn-vb : (b : Varbind) (out : TrapContent) → (learn b out).vb ≡ out.vb
unfolding learn
learn-vb b out = ground arith

add_varbind-Fits :
    (b : Varbind) (out : TrapContent)
    → VarbindFits b
    → Fits out
    → length out.vb < trap_max_varbind
    → Fits (add_varbind b out) × (length (add_varbind b out).vb ≡ length out.vb + 1)
unfolding add_varbind
add_varbind-Fits b out f h k =
    let more = annotate b out ∷ [] in
    let all : All VarbindFits (out.vb ++ more) =
      All-append VarbindFits out.vb more h.varbinds (annotate-VarbindFits b out f, tt) in
    let size : length (out.vb ++ more) ≡ length out.vb + 1 = length-append out.vb more in
    rw (learn-vb b out) (
      record {
        texts = ground (arith, learn-TextsFit b out h.texts);
        varbinds = all;
        count = omega arith;
      },
      size,
    )

varbind_loop-Fits :
    (rounds : ℕ) (list : List ℕ) (out : TrapContent)
    → Fits out
    → length out.vb + rounds ≤ trap_max_varbind
    → Fits (varbind_loop rounds list out)
unfolding varbind_loop
varbind_loop-Fits zero list out h k = h
varbind_loop-Fits (suc rounds) list out h k = elim (Option-cases (expect 0x30 list)) [
  | inl e ↦ rw (e, varbind_loop) h
  | inr ((vb, rest), e) ↦ elim (Option-cases (read_varbind vb)) [
    | inl f ↦ rw (e, varbind_loop) (rw f h)
    | inr (b, f) ↦
        let (next, size) = add_varbind-Fits b out (read_varbind-fits vb b f) h (omega arith) in
        rw (e, varbind_loop)
          (rw f (varbind_loop-Fits rounds rest (add_varbind b out) next (omega arith)))
  ]
]

pub decode_varbinds-Fits :
    (pdu : List ℕ) (out : TrapContent) → Fits out → Fits (decode_varbinds pdu out)
unfolding decode_varbinds
decode_varbinds-Fits pdu out h = elim (Option-cases (expect 0x30 pdu)) [
  | inl e ↦ rw (e, decode_varbinds) h
  | inr ((list, rest), e) ↦
      rw (e, decode_varbinds) (varbind_loop-Fits _ list out h (omega (arith, h.count)))
]

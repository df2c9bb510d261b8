-- ===== src/Trap/Tests.antt =====
-- The theorems on src/trapdecode.c at a linkDown trap of version 1.
use sysmon.Base.{ℕ, ◌≡◌, refl, arith, true, false, List, [], ◌∷◌, none, some, get_elem?, take}
use sysmon.Base.Int.{pos}
use sysmon.Base.Text.{codes}
use sysmon.Ber.Reader.{read_tlv}
use sysmon.Ber.Value.{snmp_ber_int}
use sysmon.Snmp.Response.{expect}
use sysmon.Trap.Decode.{undecoded, decode_snmp_trap, decode_message, decode_community, decode_pdu}
use sysmon.Trap.Decode.{decode_v1, v1_numbers, v1_time, finished}
use sysmon.Trap.Decode.Outcomes.{IsSound, decode_snmp_trap-IsSound}
use sysmon.Trap.Varbinds.Bounds.{Fits}
use sysmon.Trap.Decode.Bounds.{decode_snmp_trap-Fits}
use sysmon.Trap.Ring.{TrapRecord, Arrival, trap_history_max, trap_history_get}
use sysmon.Trap.Ring.History.{history, received, trap_history_get-history}

abbrev link_down : List ℕ
link_down =
    0x30 ∷ 0x38 ∷ 0x02 ∷ 0x01 ∷ 0x00 ∷ 0x04 ∷ 0x06 ∷ 0x70 ∷ 0x75 ∷ 0x62 ∷ 0x6c ∷ 0x69 ∷ 0x63 ∷ 0xa4
    ∷ 0x2b ∷ 0x06 ∷ 0x06 ∷ 0x2b ∷ 0x06 ∷ 0x01 ∷ 0x04 ∷ 0x01 ∷ 0x09 ∷ 0x40 ∷ 0x04 ∷ 0xc0 ∷ 0x00
    ∷ 0x02 ∷ 0x07 ∷ 0x02 ∷ 0x01 ∷ 0x02 ∷ 0x02 ∷ 0x01 ∷ 0x00 ∷ 0x43 ∷ 0x02 ∷ 0x30 ∷ 0x39 ∷ 0x30
    ∷ 0x11 ∷ 0x30 ∷ 0x0f ∷ 0x06 ∷ 0x0a ∷ 0x2b ∷ 0x06 ∷ 0x01 ∷ 0x02 ∷ 0x01 ∷ 0x02 ∷ 0x02 ∷ 0x01
    ∷ 0x01 ∷ 0x03 ∷ 0x02 ∷ 0x01 ∷ 0x03 ∷ []

is_decoded : (decode_snmp_trap link_down).0 ≡ true
unfolding decode_snmp_trap expect read_tlv decode_message snmp_ber_int decode_community decode_pdu
    decode_v1 v1_numbers v1_time finished
is_decoded = refl

decode_snmp_trap-IsSound_example : IsSound (decode_snmp_trap link_down)
decode_snmp_trap-IsSound_example = decode_snmp_trap-IsSound link_down

decode_snmp_trap-Fits_example : Fits (decode_snmp_trap link_down).1
decode_snmp_trap-Fits_example = decode_snmp_trap-Fits link_down

abbrev blank : TrapRecord
blank = record {
  seq = 0;
  source = [];
  when = pos 0;
  bytes = pos 0;
  matched = [];
  alert_enabled = false;
  alert_sent = false;
  content = none;
}

abbrev arrival : ℕ → Arrival
arrival now = record {
  source = some (codes "192.0.2.7");
  when = pos now;
  bytes = pos 58;
  content = some undecoded;
  matched = none;
  alert_enabled = true;
  alert_sent = false;
}

abbrev two_arrivals : List Arrival
two_arrivals = arrival 20 ∷ arrival 10 ∷ []

trap_history_get-history_example :
    trap_history_get (received blank two_arrivals) (pos 1)
    ≡ get_elem? (take trap_history_max (history two_arrivals)) 1
trap_history_get-history_example = trap_history_get-history blank two_arrivals 1 (omega arith)

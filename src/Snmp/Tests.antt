-- ===== src/Snmp/Tests.antt =====
-- The theorems on src/snmp.c's client at a query of sysUpTime and its answer.
use sysmon.Base.{
  ℕ, ◌+◌, ◌≤◌, ◌≡◌, refl, arith, Bool, true, false, List, [], ◌∷◌, Option, some, length,
}
use sysmon.Base.Int.{negsuc}
use sysmon.Base.Text.{Text, codes}
use sysmon.Ber.Value.{snmp_ber_int, snmp_ber_oid_str}
use sysmon.Snmp.Writer.Scalars.{int_octets, snmp_ber_int-int_octets}
use sysmon.Snmp.Query.{oid_octets}
use sysmon.Snmp.Query.Dotted.{dotted}
use sysmon.Snmp.Query.OidTrip.{snmp_ber_oid_str-oid_octets}
use sysmon.Base.{none, ◌≢◌, ◌&&◌, suc}
use sysmon.Snmp.Check.{Target, SnmpData, Entry, Turn, service_test_snmp}
use sysmon.Snmp.Check.Thresholds.{turns, turns_compare}
use sysmon.Snmp.Check.Answers.{service_test_snmp_ends}

abbrev sys_uptime : Text
sys_uptime = codes ".1.3.6.1.2.1.1.3.0"

abbrev sys_uptime_subids : List ℕ
sys_uptime_subids = 1 ∷ 3 ∷ 6 ∷ 1 ∷ 2 ∷ 1 ∷ 1 ∷ 3 ∷ 0 ∷ []

snmp_ber_int-int_octets_example : snmp_ber_int (int_octets (negsuc 299)) ≡ negsuc 299
snmp_ber_int-int_octets_example = snmp_ber_int-int_octets (negsuc 299) (omega arith)

snmp_ber_oid_str-oid_octets_example :
    snmp_ber_oid_str (oid_octets sys_uptime_subids) 192 ≡ dotted sys_uptime_subids
unfolding sysmon.Base.Text.decimal
snmp_ber_oid_str-oid_octets_example =
    snmp_ber_oid_str-oid_octets 192 1 3 (6 ∷ 1 ∷ 2 ∷ 1 ∷ 1 ∷ 3 ∷ 0 ∷ []) (omega arith) (omega arith)
      (omega arith) (omega arith) (omega arith)

abbrev query : List ℕ
query =
    0x30 ∷ 0x26 ∷ 0x02 ∷ 0x01 ∷ 0x01 ∷ 0x04 ∷ 0x06 ∷ 0x70 ∷ 0x75 ∷ 0x62 ∷ 0x6c ∷ 0x69 ∷ 0x63 ∷ 0xa0
    ∷ 0x19 ∷ 0x02 ∷ 0x01 ∷ 0x4d ∷ 0x02 ∷ 0x01 ∷ 0x00 ∷ 0x02 ∷ 0x01 ∷ 0x00 ∷ 0x30 ∷ 0x0e ∷ 0x30
    ∷ 0x0c ∷ 0x06 ∷ 0x08 ∷ 0x2b ∷ 0x06 ∷ 0x01 ∷ 0x02 ∷ 0x01 ∷ 0x01 ∷ 0x03 ∷ 0x00 ∷ 0x05 ∷ 0x00 ∷ []

abbrev target : ℕ → Target
target kind = record {
  snmp_test_type = kind;
  snmp_low = 10;
  snmp_high = 90;
  snmp_exact = 50;
  snmp_rate = 1000;
  snmp_octets = true;
  system_uptime = 5000;
  last_snmp_resptime = 100;
}

abbrev value_held : ℕ → SnmpData
value_held value = record {
  reqid = 7;
  snmp_retval = value;
  snmp_response_time = 160;
  snmp_response = true;
}

abbrev unanswered : SnmpData
unanswered = record { reqid = 7; snmp_retval = 0; snmp_response_time = 0; snmp_response = false }

abbrev check_of : ℕ → SnmpData → Entry
check_of kind held = record {
  checkent = target kind;
  monitordata = some held;
  filedes = true;
  retval = negsuc 0;
}

abbrev quiet_turn : ℕ → Turn
quiet_turn waited = record { datagram = none; clock = 170; waited = waited }

turns_compare_example :
    turns (quiet_turn 1 ∷ quiet_turn 600 ∷ []) (check_of 6 (value_held 50))
    ≡ check_of 6 (value_held 50)
turns_compare_example =
    turns_compare (quiet_turn 1 ∷ quiet_turn 600 ∷ []) (value_held 50) (check_of 6 (value_held 50))
      refl refl refl refl

service_test_snmp_ends_example :
    ((service_test_snmp (quiet_turn 30) (check_of 2 unanswered)).retval ≢ negsuc 0)
    × ((service_test_snmp (quiet_turn 30) (check_of 2 unanswered)).monitordata ≡ none)
    × ((service_test_snmp (quiet_turn 30) (check_of 2 unanswered)).filedes ≡ false)
service_test_snmp_ends_example =
    service_test_snmp_ends (quiet_turn 30) unanswered (check_of 2 unanswered) refl
      (λ e. omega arith) (omega arith)

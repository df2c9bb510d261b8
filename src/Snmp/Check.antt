-- ===== src/Snmp/Check.antt =====
-- src/snmp.c: the check itself - next_snmp_reqid, snmp_read_response, service_test_snmp and
-- stop_test_snmp. A `Turn` is what one call meets outside: the datagram that recv has, the clock,
-- and the whole seconds since the check was queued.
pub mod Thresholds
pub mod Answers
use sysmon.Base.{ℕ, zero, suc, ◌+◌, ◌*◌, ◌-◌, ◌/◌, ◌%◌, ◌^◌, Bool, true, false, List, [], ◌∷◌}
use sysmon.Base.{Option, none, some, ltb, leb, ◌==◌, if◌then◌else◌, ◌||◌, ◌&&◌, not}
use sysmon.Base.Int.{ℤ, pos, negsuc, is_pos}
use sysmon.Base.Text.{Text, is_empty}
use sysmon.Base.Words.{u64_mod}
use sysmon.Snmp.Response.{SnmpValue, cleared, snmp_parse_response}

-- The counter behind next_snmp_reqid, before and after a call, which returns it.
unfoldable pub next_snmp_reqid : ℕ → ℕ
next_snmp_reqid reqid = let next = (reqid + 1) % u64_mod in if ltb 0x7ffffffe next then 1 else next

-- What a check compares with: the fields of `struct hostinfo` that it reads and writes.
pub record Target : Type 0 where
  pub snmp_test_type : ℕ
  pub snmp_low : ℕ
  pub snmp_high : ℕ
  pub snmp_exact : ℕ
  pub snmp_rate : ℕ
  pub snmp_octets : Bool
  pub system_uptime : ℕ
  pub last_snmp_resptime : ℕ

-- `struct snmpdata`
pub record SnmpData : Type 0 where
  pub reqid : ℕ
  pub snmp_retval : ℕ
  pub snmp_response_time : ℕ
  pub snmp_response : Bool

-- `struct monitorent`: `filedes` is false for -1, and `monitordata` none for NULL.
pub record Entry : Type 0 where
  pub checkent : Target
  pub monitordata : Option SnmpData
  pub filedes : Bool
  pub retval : ℤ

pub record Turn : Type 0 where
  pub datagram : Option (List ℕ)
  pub clock : ℕ
  pub waited : ℕ

abbrev pub sysm_noresp : ℕ
sysm_noresp = 9

abbrev pub sysm_bad_resp : ℕ
sysm_bad_resp = 12

abbrev pub sysm_snmp_reboot : ℕ
sysm_snmp_reboot = 17

abbrev pub sysm_snmp_high : ℕ
sysm_snmp_high = 18

abbrev pub sysm_snmp_low : ℕ
sysm_snmp_low = 19

abbrev pub sysm_snmp_oor : ℕ
sysm_snmp_oor = 20

abbrev pub sysm_snmp_notexact : ℕ
sysm_snmp_notexact = 21

abbrev pub sysm_snmp_highrate : ℕ
sysm_snmp_highrate = 22

unfoldable pub snmp_read_response : Bool → ℕ → Turn → Bool × SnmpValue
snmp_read_response filedes reqid turn =
    if filedes
    then elim turn.datagram [
      | none ↦ (false, cleared)
      | some packet ↦ snmp_parse_response packet reqid
    ]
    else (false, cleared)

unfoldable pub stop_test_snmp : Entry → Entry
stop_test_snmp here = record here { filedes = false; monitordata = none }

-- The answer, if this turn has it: its value is kept, or the check has its result.
unfoldable pub take_answer : Turn → SnmpData → SnmpValue → Entry → Entry
take_answer turn held v here =
    if not (is_pos v.error_status 0)
    then record here { retval = pos sysm_bad_resp }
    else if not (is_empty v.exception)
    then record here { retval = pos sysm_bad_resp }
    else if not v.have_value
    then record here { retval = pos sysm_bad_resp }
    else record here {
      monitordata = some (record held {
        snmp_retval = v.value;
        snmp_response = true;
        snmp_response_time = turn.clock;
      });
    }

unfoldable pub await_answer : Turn → SnmpData → Entry → Entry
await_answer turn held here =
    if held.snmp_response
    then here
    else (let answer = snmp_read_response here.filedes held.reqid turn in
        if answer.0 then take_answer turn held answer.1 here else here)

-- `system_uptime` keeps the last value of every kind of check.
unfoldable pub judged : ℕ → ℕ → Entry → Entry
judged value code here = record here {
  retval = pos code;
  checkent = record (here.checkent) { system_uptime = value };
}

-- Values, thresholds and the clock are unsigned longs, and so are the differences.
unfoldable pub minus64 : ℕ → ℕ → ℕ
minus64 a b = (a + (u64_mod - b)) % u64_mod

unfoldable pub judge_rate : SnmpData → Entry → Entry
unfolding judged minus64
judge_rate held here =
    let rate_time = minus64 held.snmp_response_time here.checkent.last_snmp_resptime in
    let rate_time_val = minus64 held.snmp_retval here.checkent.system_uptime in
    let stamped = record here {
      checkent = record (here.checkent) { last_snmp_resptime = held.snmp_response_time };
    } in
    if rate_time == 0
    then judged held.snmp_retval 0 stamped
    else (let rate_avg_val =
          (if here.checkent.snmp_octets
            then rate_time_val * 8 % u64_mod / rate_time
            else rate_time_val / rate_time) in
        judged held.snmp_retval
          (if ltb here.checkent.snmp_rate rate_avg_val then sysm_snmp_highrate else 0) stamped)

-- The switch on the kind of check.
unfoldable pub judge : SnmpData → Entry → Entry
unfolding judged judge_rate
judge held here =
    let svc = here.checkent in
    let value = held.snmp_retval in
    if svc.snmp_test_type == 1
    then judged value (if ltb value svc.system_uptime then sysm_snmp_reboot else 0) here
    else if svc.snmp_test_type == 2
    then judged value (if ltb svc.snmp_high value then sysm_snmp_high else 0) here
    else if svc.snmp_test_type == 3
    then judged value (if ltb value svc.snmp_low then sysm_snmp_low else 0) here
    else if svc.snmp_test_type == 4
    then judged value
        (if ltb svc.snmp_low value && ltb value svc.snmp_high then sysm_snmp_oor else 0) here
    else if svc.snmp_test_type == 5
    then judged value (if svc.snmp_exact == value then 0 else sysm_snmp_notexact) here
    else if svc.snmp_test_type == 6
    then here
    else if svc.snmp_test_type == 7
    then judge_rate held here
    else record here { retval = negsuc 1 }

abbrev pub is_pending : ℤ → Bool
is_pending (pos n) = false
is_pending (negsuc n) = n == 0

-- From `if (localstruct->snmp_response)` on.
unfoldable pub conclude : Turn → SnmpData → Entry → Entry
conclude turn held here =
    if held.snmp_response
    then judge held here
    else if is_pending here.retval && leb 30 turn.waited
    then record here { retval = pos sysm_noresp }
    else here

unfoldable pub finish_test : Entry → Entry
finish_test here = if is_pending here.retval then here else stop_test_snmp here

abbrev pub data_or : SnmpData → Option SnmpData → SnmpData
data_or d none = d
data_or d (some e) = e

unfoldable pub service_test_snmp : Turn → Entry → Entry
service_test_snmp turn here = elim here.monitordata [
  | none ↦ here
  | some held ↦
      let heard = await_answer turn held here in
      finish_test (conclude turn (data_or held heard.monitordata) heard)
]

-- ===== src/Snmp/Check/Answers.antt =====
-- How long a check may wait, and what a rate is.
use sysmon.Base.{ℕ, zero, suc, ◌+◌, ◌*◌, ◌/◌, ◌%◌, ◌≤◌, ◌≡◌, ◌≢◌, refl, sym, ap, ◌∙◌, arith}
use sysmon.Base.{Bool, false, none, some}
use sysmon.Base.{if◌then◌else◌}
use sysmon.Base.Int.{negsuc}
use sysmon.Snmp.Check.{
  SnmpData, Entry, Turn, judge, judge_rate, judged, conclude, finish_test, service_test_snmp,
  await_answer, take_answer, stop_test_snmp, next_snmp_reqid, is_pending, data_or,
}

judge-ends :
    (held : SnmpData) (here : Entry)
    → here.checkent.snmp_test_type ≢ 6
    → is_pending (judge held here).retval ≡ false
unfolding judge judged judge_rate
judge-ends held here k = ground arith

conclude-ends :
    (turn : Turn) (held : SnmpData) (here : Entry)
    → here.checkent.snmp_test_type ≢ 6
    → 30 ≤ turn.waited
    → is_pending (conclude turn held here).retval ≡ false
unfolding conclude
conclude-ends turn held here k late = ground (arith, judge-ends held here k)

await_answer-checkent :
    (turn : Turn) (held : SnmpData) (here : Entry)
    → (await_answer turn held here).checkent ≡ here.checkent
unfolding await_answer take_answer
await_answer-checkent turn held here = ground arith

finish_test-ends :
    (here : Entry)
    → is_pending here.retval ≡ false
    → ((finish_test here).retval ≢ negsuc 0)
      × ((finish_test here).monitordata ≡ none)
      × ((finish_test here).filedes ≡ false)
unfolding finish_test stop_test_snmp
finish_test-ends here e = ((λ f. ground (arith, e, f)), ground (arith, e), ground (arith, e))

service_test_snmp-some :
    (turn : Turn) (held : SnmpData) (here : Entry)
    → here.monitordata ≡ some held
    → service_test_snmp turn here
      ≡ finish_test (
          conclude turn
            (data_or held (await_answer turn held here).monitordata)
            (await_answer turn held here))
unfolding service_test_snmp
service_test_snmp-some turn held here e = rw e refl

-- Thirty seconds after it was queued, a check that still has its working data ends when it is
-- served, with a result, its data given up and its socket closed, unless it is of the kind
-- compare.
pub service_test_snmp_ends :
    (turn : Turn) (held : SnmpData) (here : Entry)
    → here.monitordata ≡ some held
    → here.checkent.snmp_test_type ≢ 6
    → 30 ≤ turn.waited
    → ((service_test_snmp turn here).retval ≢ negsuc 0)
      × ((service_test_snmp turn here).monitordata ≡ none)
      × ((service_test_snmp turn here).filedes ≡ false)
service_test_snmp_ends turn held here e k late =
    let heard = await_answer turn held here in
    let kind = ap (λ t. t.snmp_test_type) (await_answer-checkent turn held here) in
    let ends =
      conclude-ends turn (data_or held heard.monitordata) heard (λ f. k (sym kind ∙ f)) late in
    rw (service_test_snmp-some turn held here e)
      (finish_test-ends (conclude turn (data_or held heard.monitordata) heard) ends)

-- The change of a counter per second, in octets as bits.
unfoldable pub rate : Bool → ℕ → ℕ → ℕ
rate octets change seconds = if octets then change * 8 / seconds else change / seconds

-- The request-id of the n-th query, after `n` calls of next_snmp_reqid.
unfoldable pub nth_reqid : ℕ → ℕ
nth_reqid zero = 0
nth_reqid (suc n) = next_snmp_reqid (nth_reqid n)

-- The request-ids of the queries, the first one first, are 1, 2 and so on to 2 ^ 31 - 2, and then
-- the same again.
pub nth_reqid_cycle : (n : ℕ) → nth_reqid (suc n) ≡ n % 0x7ffffffe + 1
unfolding nth_reqid next_snmp_reqid
nth_reqid_cycle zero = refl
nth_reqid_cycle (suc n) = rw (nth_reqid_cycle n) (ground arith)

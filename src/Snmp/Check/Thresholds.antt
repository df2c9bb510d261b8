-- ===== src/Snmp/Check/Thresholds.antt =====
-- What the thresholds of a check make of an answer, against the sentences of src/config.h.
use sysmon.Base.{ℕ, ◌≡◌, ◌⊎◌, refl, ◌∙◌}
use sysmon.Base.{Bool, true, false, List, [], ◌∷◌, some}
use sysmon.Base.{ltb, ◌==◌, if◌then◌else◌, ◌&&◌, not}
use sysmon.Base.Int.{pos, negsuc}
use sysmon.Snmp.Check.{
  Target, SnmpData, Entry, Turn, judge, judged, conclude, finish_test, service_test_snmp,
  await_answer, stop_test_snmp, sysm_snmp_high, sysm_snmp_low, sysm_snmp_oor, sysm_snmp_notexact,
  sysm_snmp_reboot,
}

-- What the test of each kind is for.
unfoldable pub crossed : Target → ℕ → Bool
crossed svc value =
    if svc.snmp_test_type == 1
    then ltb value svc.system_uptime
    else if svc.snmp_test_type == 2
    then ltb svc.snmp_high value
    else if svc.snmp_test_type == 3
    then ltb value svc.snmp_low
    else if svc.snmp_test_type == 5
    then not (svc.snmp_exact == value)
    else false

-- The code of each of those tests.
unfoldable pub alarm : ℕ → ℕ
alarm kind =
    if kind == 1
    then sysm_snmp_reboot
    else if kind == 2
    then sysm_snmp_high
    else if kind == 3
    then sysm_snmp_low
    else sysm_snmp_notexact

-- The kinds that `crossed` describes: reboot, high, low and exact.
abbrev pub IsSimple : ℕ → Type 0
IsSimple kind = (kind ≡ 1) ⊎ ((kind ≡ 2) ⊎ ((kind ≡ 3) ⊎ (kind ≡ 5)))

-- The rest of the turn, for a check whose value has arrived.
pub service_test_snmp-judge :
    (turn : Turn) (held : SnmpData) (here : Entry)
    → here.monitordata ≡ some held
    → held.snmp_response ≡ true
    → service_test_snmp turn here ≡ finish_test (judge held here)
unfolding service_test_snmp await_answer conclude
service_test_snmp-judge turn held here e r = rw e (rw r refl)

module _ (turn : Turn) (held : SnmpData) (here : Entry) (e : here.monitordata ≡ some held)
    (r : held.snmp_response ≡ true) where
  -- A check of the kind range whose value has arrived: the result is SYSM_SNMP_OOR exactly for the
  -- values strictly between the two thresholds, and SYSM_OK for the others.
  pub service_test_snmp_range :
      here.checkent.snmp_test_type ≡ 4
      → (service_test_snmp turn here).retval
        ≡ pos (
            if ltb here.checkent.snmp_low held.snmp_retval
              && ltb held.snmp_retval here.checkent.snmp_high
            then sysm_snmp_oor
            else 0)
  unfolding judge finish_test judged stop_test_snmp
  service_test_snmp_range k = rw (service_test_snmp-judge turn held here e r) (rw k refl)

-- The turns of one check.
unfoldable pub turns : List Turn → Entry → Entry
turns [] here = here
turns (t ∷ ts) here = turns ts (service_test_snmp t here)

-- A check of the kind compare whose value has arrived and that has no result yet keeps its entry
-- as it is, however often and however long it is served.
pub turns_compare :
    (ts : List Turn) (held : SnmpData) (here : Entry)
    → here.monitordata ≡ some held
    → held.snmp_response ≡ true
    → here.checkent.snmp_test_type ≡ 6
    → here.retval ≡ negsuc 0
    → turns ts here ≡ here
unfolding turns judge finish_test
turns_compare [] held here e r k pending = refl
turns_compare (t ∷ ts) held here e r k pending =
    let same : service_test_snmp t here ≡ here =
      service_test_snmp-judge t held here e r ∙ rw k (rw pending refl) in
    rw same (turns_compare ts held here e r k pending)

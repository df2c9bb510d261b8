-- ===== src/Outage/Notices/Told.antt =====
-- An outage that somebody has been told of: failing checks send nothing more.
use sysmon.Base.{ℕ, ◌≡◌, ◌≢◌, refl, ◌∙◌, arith, true, not, ◌&&◌, List, [], ◌∷◌, All}
use sysmon.Base.{◌==◌, if_both}
use sysmon.Outage.{
  State, Site, count_check, still_down, state_changed, page_if_down_due, handle_retval,
  page_down_due,
}
use sysmon.Outage.Notices.{notices, count_check-notices, came_up-failing, is_up-failing, Check, run}

-- Somebody has been told, and there are this many notices.
record Told (before : ℕ) (s : State) : Type 0 where
  told : s.svc.contacted ≡ true
  same : notices s.events ≡ before

page_if_down_due-told : (w : Site) (s : State) → s.svc.contacted ≡ true → page_if_down_due w s ≡ s
unfolding page_if_down_due page_down_due
page_if_down_due-told w s e = ground (arith, e)

page_if_down_due-Told :
    (w : Site) (before : ℕ) (s : State) → Told before s → Told before (page_if_down_due w s)
page_if_down_due-Told w before s h = rw (page_if_down_due-told w s h.told) h

still_down-Told :
    (w : Site) (before retval : ℕ) (s : State) → Told before s → Told before (still_down w retval s)
unfolding still_down
still_down-Told w before retval s h =
    if_both (Told before) (not (retval == 0) && (s.svc.lastcheck == retval))
      (page_if_down_due-Told w before _ (record { told = h.told; same = h.same })) h

state_changed-Told :
    (w : Site) (before now retval : ℕ) (s : State)
    → Told before s
    → Told before (state_changed w now retval s)
unfolding state_changed
state_changed-Told w before now retval s h = if_both (Told before) (retval == s.svc.lastcheck) h (
    if_both (Told before) (retval == 0) (record { told = h.told; same = h.same })
      (page_if_down_due-Told w before _ (record { told = h.told; same = h.same })))

handle_retval-Told :
    (w : Site) (before now retval : ℕ) (s : State)
    → retval ≢ 0
    → Told before s
    → Told before (handle_retval w now retval s)
unfolding handle_retval
handle_retval-Told w before now retval s bad h =
    let (n, c) = count_check-notices now retval s in
    rw (is_up-failing w retval _ bad, came_up-failing w now retval (count_check now retval s) bad)
      (state_changed-Told w before now retval _
        (still_down-Told w before retval _ (record { told = c ∙ h.told; same = n ∙ h.same })))

run-Told :
    (before : ℕ) (cs : List Check) (s : State)
    → All (λ c. c.retval ≢ 0) cs
    → Told before s
    → Told before (run cs s)
unfolding run
run-Told before [] s bad h = h
run-Told before (c ∷ cs) s (b, bad) h =
    run-Told before cs (handle_retval c.site c.now c.retval s) bad
      (handle_retval-Told c.site before c.now c.retval s b h)

pub run_told :
    (cs : List Check) (s : State)
    → All (λ c. c.retval ≢ 0) cs
    → s.svc.contacted ≡ true
    → notices (run cs s).events ≡ notices s.events
run_told cs s bad told =
    (run-Told (notices s.events) cs s bad (record { told = told; same = refl })).same

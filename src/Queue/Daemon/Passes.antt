-- ===== src/Queue/Daemon/Passes.antt =====
-- The watch loop over any number of passes: what holds of the queue whenever it is looked at.
use sysmon.Base.{ℕ, ◌≡◌, refl, sym, ap, ◌∙◌, arith, [], Option, none, some}
use sysmon.Base.{length}
use mathlib.Core.Path.{subst}
use sysmon.Outage.{Site}
use sysmon.Queue.Walk.{ready-IsWanted}
use sysmon.Queue.Daemon.{
  Daemon, Qsort, Checks, object_at, queue_all, q_time_cmp, queue_checks_qsort_way, service_checks,
}
use sysmon.Queue.Daemon.Consistent.{IsConsistent, entries_of, flag_of, queue_all-IsConsistent}
use sysmon.Queue.Daemon.Served.{service_checks-IsConsistent}

-- What the watch loop calls.
pub data Step : Daemon → Daemon → Type 0 where
  queue_step :
      {s t : Daemon} (qsort : Qsort) (root : Option ℕ) (now pause : ℕ)
      → queue_checks_qsort_way qsort root now s ≡ some (pause, t)
      → Step s t
  service_step :
      {s t : Daemon} (c : Checks) (w : Site) (now : ℕ)
      → service_checks c w now s ≡ some t
      → Step s t

pub data Reach (s : Daemon) : Daemon → Type 0 where
  here : Reach s s
  then_step : {t u : Daemon} → Reach s t → Step t u → Reach s u

-- As after start: nothing queued, nothing marked.
pub record IsIdle (s : Daemon) : Type 0 where
  pub empty : s.queue ≡ []
  pub none_counted : s.numqueued ≡ 0
  pub none_marked : (i : ℕ) → flag_of (object_at s.graph i) ≡ 0

queue_checks-IsConsistent :
    (qsort : Qsort) (root : Option ℕ) (now : ℕ) (s : Daemon)
    → IsConsistent s
    → (pause : ℕ) × ((t : Daemon) × ((queue_checks_qsort_way qsort root now s ≡ some (pause, t))
          × IsConsistent t))
unfolding queue_checks_qsort_way
queue_checks-IsConsistent qsort none now s h = (60, (s, (refl, h)))
queue_checks-IsConsistent qsort (some root) now s h =
    let (m, (e, r)) = ready-IsWanted s.graph now root in
    (
      1,
      (
        queue_all now (qsort (q_time_cmp s.graph) m.array_elements) s,
        (
          rw (e, queue_checks_qsort_way) refl,
          queue_all-IsConsistent now (qsort (q_time_cmp s.graph) m.array_elements) s h,
        ),
      ),
    )

Step-IsConsistent : {s t : Daemon} → Step s t → IsConsistent s → IsConsistent t
Step-IsConsistent {s} {t} (queue_step qsort root now pause e) h =
    let (p, (u, (f, r))) = queue_checks-IsConsistent qsort root now s h in
    let same : u ≡ t = ground (arith, e, f) in subst IsConsistent same r
Step-IsConsistent {s} {t} (service_step c w now e) h =
    let (u, (f, r)) = service_checks-IsConsistent c w now s h in
    let same : u ≡ t = ground (arith, e, f) in subst IsConsistent same r

Reach-IsConsistent : {s t : Daemon} → IsConsistent s → Reach s t → IsConsistent t
Reach-IsConsistent h here = h
Reach-IsConsistent h (then_step r st) = Step-IsConsistent st (Reach-IsConsistent h r)

IsIdle-IsConsistent : (s : Daemon) → IsIdle s → IsConsistent s
IsIdle-IsConsistent s h = record {
  counted = h.none_counted ∙ sym (ap length h.empty);
  bounded = omega (arith, h.none_counted);
  mirrored = λ i. ap (entries_of i) h.empty ∙ (unfold entries_of in sym (h.none_marked i));
}

-- However the passes of the watch loop follow one another, and whatever their clocks, their results
-- and their qsort: numqueued is the length of the queue and at most maxqueued + 1, an object has one
-- entry if it is marked as queued and none otherwise, and the next pass comes to its end, with no
-- pointer that is NULL.
pub Reach-queue :
    {s t : Daemon}
    → IsIdle s
    → Reach s t
    → IsConsistent t
      × (((qsort : Qsort) (root : Option ℕ) (now : ℕ)
            → (pause : ℕ) × ((u : Daemon) × (queue_checks_qsort_way qsort root now t
                  ≡ some (pause, u))))
          × ((c : Checks) (w : Site) (now : ℕ)
              → (u : Daemon) × (service_checks c w now t ≡ some u)))
Reach-queue {s} {t} idle r =
    let h = Reach-IsConsistent (IsIdle-IsConsistent s idle) r in
    (
      h,
      (
        (λ qsort root now.
            let (p, (u, (e, k))) = queue_checks-IsConsistent qsort root now t h in (p, (u, e))),
        (λ c w now. let (u, (e, k)) = service_checks-IsConsistent c w now t h in (u, e)),
      ),
    )

-- ===== src/Queue/Daemon/Served.antt =====
-- The loop of service_checks keeps the queue and the flags of the objects in step.
use sysmon.Base.{ℕ, ◌+◌, ◌≤◌, ◌≡◌, refl, ap, ◌∙◌, arith}
use sysmon.Base.{List, [], ◌∷◌, none, some, inl, inr}
use sysmon.Base.{if◌then◌else◌, ◌==◌, Bool-cases, Option-cases, length}
use sysmon.Outage.{Site}
use sysmon.Queue.{Monitored}
use sysmon.Queue.Daemon.{
  Monitorent, Daemon, Checks, object_at, service_this, finish_check, service_loop, service_checks,
}
use sysmon.Queue.Daemon.Objects.{object_at-put}
use sysmon.Queue.Daemon.Consistent.{entries_of, flag_of, IsConsistent}

-- In the loop: `extra` counts the entries that are kept so far, which are `x`.
pub record Serving (extra : ℕ → ℕ) (x : ℕ) (queue : List Monitorent) (s : Daemon) : Type 0 where
  pub counted : s.numqueued ≡ x + length queue
  pub bounded : s.numqueued ≤ s.maxqueued + 1
  pub mirrored : (i : ℕ) → extra i + entries_of i queue ≡ flag_of (object_at s.graph i)

pub service_this-checkent :
    (c : Checks) (here : Monitorent) → (service_this c here).checkent ≡ here.checkent
unfolding service_this
service_this-checkent c here = ground arith

-- The flag of an object is set for the entry that the loop has come to.
pub flagged :
    (extra : ℕ → ℕ) (x : ℕ) (here : Monitorent) (more : List Monitorent) (s : Daemon)
    → Serving extra x (here ∷ more) s
    → (d : Monitored) × ((object_at s.graph here.checkent ≡ some d)
        × ((extra here.checkent ≡ 0) × (entries_of here.checkent more ≡ 0)))
unfolding entries_of
flagged extra x here more s h = elim (Option-cases (object_at s.graph here.checkent)) [
  | inl e ↦ absurd (ground (arith, e, h.mirrored here.checkent))
  | inr (d, e) ↦ (
    d,
    (e, (ground (arith, e, h.mirrored here.checkent), ground (arith, e, h.mirrored here.checkent))),
  )
]

pub finish_check-Serving :
    (w : Site) (now retval : ℕ) (extra : ℕ → ℕ) (x : ℕ) (here : Monitorent) (more : List Monitorent)
    (s : Daemon) (d : Monitored)
    → object_at s.graph here.checkent ≡ some d
    → extra here.checkent ≡ 0
    → entries_of here.checkent more ≡ 0
    → Serving extra x (here ∷ more) s
    → Serving extra x more (finish_check w now here.checkent retval d s)
unfolding finish_check entries_of
finish_check-Serving w now retval extra x here more s d e none_kept none_left h = record {
  counted = omega (arith, h.counted);
  bounded = omega (arith, h.bounded);
  mirrored = λ i.
      rw (object_at-put s.graph here.checkent i _ d e) (elim (Bool-cases (here.checkent == i)) [
        | inl same ↦
            let at : here.checkent ≡ i = ground (arith, same) in
            rw same (
              ground
                (arith, ap extra at, ap (λ (k : ℕ). entries_of k more) at, none_kept, none_left))
        | inr other ↦ rw other (ground (arith, h.mirrored i, other))
      ]);
}

pub service_loop_kept :
    (c : Checks) (w : Site) (now : ℕ) (here : Monitorent) (more kept : List Monitorent)
    (s t : Daemon)
    → here.retval ≡ none
    → service_loop c w now more s ≡ some (kept, t)
    → service_loop c w now (here ∷ more) s ≡ some (service_this c here ∷ kept, t)
unfolding service_loop
service_loop_kept c w now here more kept s t e f = ground (arith, e, f)

pub service_loop_done :
    (c : Checks) (w : Site) (now retval : ℕ) (here : Monitorent) (more : List Monitorent)
    (s : Daemon) (d : Monitored)
    → here.retval ≡ some retval
    → object_at s.graph here.checkent ≡ some d
    → service_loop c w now (here ∷ more) s
      ≡ service_loop c w now more (finish_check w now here.checkent retval d s)
unfolding service_loop
service_loop_done c w now retval here more s d e f = rw (e, service_loop) (rw (f, service_loop))

-- The entry counts among those that are kept.
pub with_entry : (ℕ → ℕ) → ℕ → ℕ → ℕ
with_entry extra checkent i = extra i + (if checkent == i then 1 else 0)

Serving-kept :
    (c : Checks) (extra : ℕ → ℕ) (x : ℕ) (here : Monitorent) (kept : List Monitorent) (t : Daemon)
    → Serving (with_entry extra here.checkent) (x + 1) kept t
    → Serving extra x (service_this c here ∷ kept) t
unfolding with_entry entries_of
Serving-kept c extra x here kept t h = record {
  counted = omega (arith, h.counted);
  bounded = h.bounded;
  mirrored = λ i. rw (service_this-checkent c here) (omega (arith, h.mirrored i));
}

pub Serving-more :
    (extra : ℕ → ℕ) (x : ℕ) (here : Monitorent) (more : List Monitorent) (s : Daemon)
    → Serving extra x (here ∷ more) s
    → Serving (with_entry extra here.checkent) (x + 1) more s
unfolding with_entry entries_of
Serving-more extra x here more s h = record {
  counted = omega (arith, h.counted);
  bounded = h.bounded;
  mirrored = λ i. omega (arith, h.mirrored i);
}

pub service_loop-Serving :
    (c : Checks) (w : Site) (now : ℕ) (queue : List Monitorent) (extra : ℕ → ℕ) (x : ℕ) (s : Daemon)
    → Serving extra x queue s
    → (kept : List Monitorent) × ((t : Daemon) × ((service_loop c w now queue s ≡ some (kept, t))
          × Serving extra x kept t))
unfolding service_loop
service_loop-Serving c w now [] extra x s h = ([], (s, (refl, h)))
service_loop-Serving c w now (here ∷ more) extra x s h = elim (Option-cases here.retval) [
  | inl e ↦
      let (kept, (t, (f, r))) =
        service_loop-Serving c w now more (with_entry extra here.checkent) (x + 1) s
          (Serving-more extra x here more s h) in
      (
        service_this c here ∷ kept,
        (
          t,
          (service_loop_kept c w now here more kept s t e f, Serving-kept c extra x here kept t r),
        ),
      )
  | inr (retval, e) ↦
      let (d, (f, (none_kept, none_left))) = flagged extra x here more s h in
      let (kept, (t, (g, r))) =
        service_loop-Serving c w now more extra x (finish_check w now here.checkent retval d s)
          (finish_check-Serving w now retval extra x here more s d f none_kept none_left h) in
      (kept, (t, (service_loop_done c w now retval here more s d e f ∙ g, r)))
]

-- A round of service_checks comes to its end, with no pointer that is NULL, and leaves the queue and
-- the flags in step.
pub service_checks-IsConsistent :
    (c : Checks) (w : Site) (now : ℕ) (s : Daemon)
    → IsConsistent s
    → (t : Daemon) × ((service_checks c w now s ≡ some t) × IsConsistent t)
unfolding service_checks
service_checks-IsConsistent c w now s h =
    let (kept, (t, (e, r))) =
      service_loop-Serving c w now s.queue (λ i. 0) 0 s
        (record {
          counted = omega (arith, h.counted);
          bounded = h.bounded;
          mirrored = λ i. omega (arith, h.mirrored i);
        }) in
    (
      record t { queue = kept },
      (
        rw (e, service_checks) refl,
        record {
          counted = omega (arith, r.counted);
          bounded = r.bounded;
          mirrored = λ i. omega (arith, r.mirrored i);
        },
      ),
    )

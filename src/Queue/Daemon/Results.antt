-- ===== src/Queue/Daemon/Results.antt =====
-- What a round of service_checks does to each object, and to the queue.
use sysmon.Base.{ℕ, ◌+◌, ◌≡◌, ◌≢◌, refl, sym, ap, ◌∙◌, arith}
use sysmon.Base.{false, List, [], ◌∷◌, Option, none, some, inl, inr, map}
use sysmon.Base.{if◌then◌else◌, ◌==◌, Bool-cases, Option-cases}
use sysmon.Outage.{Site, Event, handle_retval}
use sysmon.Queue.{Monitored}
use sysmon.Queue.Daemon.{
  Monitorent, Daemon, Checks, object_at, put_object, service_this, finish_check, service_loop,
  service_checks,
}
use sysmon.Queue.Daemon.Objects.{object_at-put_self, object_at-put_ne}
use sysmon.Queue.Daemon.Consistent.{entries_of, IsConsistent}
use sysmon.Queue.Daemon.Served.{
  Serving, flagged, finish_check-Serving, service_loop_done, service_loop_kept,
  service_loop-Serving, Serving-more, with_entry,
}

-- The result that the queue holds for an object.
unfoldable pub answer_of : ℕ → List Monitorent → Option ℕ
answer_of i [] = none
answer_of i (e ∷ queue) = elim e.retval [
  | none ↦ answer_of i queue
  | some r ↦ if e.checkent == i then some r else answer_of i queue
]

-- The entries that have no result yet.
unfoldable pub pending : List Monitorent → List Monitorent
pending [] = []
pending (e ∷ queue) = elim e.retval [ none ↦ e ∷ pending queue | some r ↦ pending queue ]

-- The object after the round: as it was, or as handle_retval leaves it, with some count of changes
-- and some events before it, out of the queue, and with the time of its check.
abbrev pub Settled : Site → ℕ → Monitored → Option ℕ → Option Monitored → Type 0
Settled w now d none after = after ≡ some d
Settled w now d (some retval) after =
    (seq : ℕ) × ((events : List Event) × (after
        ≡ some (record d {
          svc =
              (handle_retval w now retval
                (record { svc = d.svc; glob_change_seq = seq; events = events })).svc;
          queued = false;
          lchecktime = now;
        })))

-- The two rounds of the loop, read backwards.
kept_round :
    (c : Checks) (w : Site) (now : ℕ) (here : Monitorent) (more kept : List Monitorent)
    (s t : Daemon)
    → here.retval ≡ none
    → service_loop c w now (here ∷ more) s ≡ some (kept, t)
    → (rest : List Monitorent) × ((service_loop c w now more s ≡ some (rest, t))
        × (kept ≡ service_this c here ∷ rest))
kept_round c w now here more kept s t e f = elim (Option-cases (service_loop c w now more s)) [
  | inl g ↦ absurd (unfold service_loop in ground (arith, e, f, g))
  | inr ((rest, u), g) ↦
      let r = service_loop_kept c w now here more rest s u e g in
      let at : u ≡ t = ground (arith, r, f) in
      (rest, (g ∙ ap (λ (v : Daemon). some (rest, v)) at, ground (arith, r, f)))
]

done_round :
    (c : Checks) (w : Site) (now retval : ℕ) (here : Monitorent) (more kept : List Monitorent)
    (s t : Daemon)
    → here.retval ≡ some retval
    → service_loop c w now (here ∷ more) s ≡ some (kept, t)
    → (d : Monitored) × ((object_at s.graph here.checkent ≡ some d)
        × (service_loop c w now more (finish_check w now here.checkent retval d s)
            ≡ some (kept, t)))
done_round c w now retval here more kept s t e f =
    elim (Option-cases (object_at s.graph here.checkent)) [
      | inl g ↦ absurd (unfold service_loop in ground (arith, e, f, g))
      | inr (d, g) ↦ (d, (g, sym (service_loop_done c w now retval here more s d e g) ∙ f))
    ]

pending-none :
    (here : Monitorent) (more : List Monitorent)
    → here.retval ≡ none
    → pending (here ∷ more) ≡ here ∷ pending more
unfolding pending
pending-none here more e = ground (arith, e)

pending-some :
    (here : Monitorent) (more : List Monitorent) (retval : ℕ)
    → here.retval ≡ some retval
    → pending (here ∷ more) ≡ pending more
unfolding pending
pending-some here more retval e = ground (arith, e)

service_loop-pending :
    (c : Checks) (w : Site) (now : ℕ) (queue kept : List Monitorent) (s t : Daemon)
    → service_loop c w now queue s ≡ some (kept, t)
    → kept ≡ map (service_this c) (pending queue)
service_loop-pending c w now [] kept s t e =
    unfold service_loop in unfold pending in ground (arith, e)
service_loop-pending c w now (here ∷ more) kept s t e = elim (Option-cases here.retval) [
  | inl f ↦
      let (rest, (g, same)) = kept_round c w now here more kept s t f e in
      same
      ∙ ap (λ (l : List Monitorent). service_this c here ∷ l)
          (service_loop-pending c w now more rest s t g)
      ∙ ap (map (service_this c)) (sym (pending-none here more f))
  | inr (retval, f) ↦
      let (d, (o, g)) = done_round c w now retval here more kept s t f e in
      service_loop-pending c w now more kept (finish_check w now here.checkent retval d s) t g
      ∙ ap (map (service_this c)) (sym (pending-some here more retval f))
]

answer_pending :
    (i : ℕ) (here : Monitorent) (more : List Monitorent)
    → here.retval ≡ none
    → answer_of i (here ∷ more) ≡ answer_of i more
unfolding answer_of
answer_pending i here more e = ground (arith, e)

answer_done :
    (i retval : ℕ) (here : Monitorent) (more : List Monitorent)
    → here.retval ≡ some retval
    → answer_of i (here ∷ more) ≡ (if here.checkent == i then some retval else answer_of i more)
unfolding answer_of
answer_done i retval here more e = ground (arith, e)

answer_none : (i : ℕ) (queue : List Monitorent) → entries_of i queue ≡ 0 → answer_of i queue ≡ none
unfolding answer_of entries_of
answer_none i [] e = refl
answer_none i (here ∷ queue) e = ground (arith, answer_none i queue)

-- The object behind a finished_object check.
finished_object : Site → ℕ → ℕ → Monitored → Daemon → Monitored
finished_object w now retval d s = record d {
  svc =
      (handle_retval w now retval
        (record { svc = d.svc; glob_change_seq = s.glob_change_seq; events = s.events })).svc;
  queued = false;
  lchecktime = now;
}

module _ (w : Site) (now retval : ℕ) (here : Monitorent) (s : Daemon) (b : Monitored)
    (p : object_at s.graph here.checkent ≡ some b) (i : ℕ) where
  finish_check_self :
      here.checkent ≡ i
      → object_at (finish_check w now here.checkent retval b s).graph i
        ≡ some (finished_object w now retval b s)
  unfolding finish_check finished_object
  finish_check_self at =
      ap (object_at (put_object s.graph here.checkent _)) (sym at)
      ∙ object_at-put_self s.graph here.checkent _ b p

  finish_check_other :
      here.checkent ≢ i
      → object_at (finish_check w now here.checkent retval b s).graph i ≡ object_at s.graph i
  unfolding finish_check
  finish_check_other other = object_at-put_ne s.graph here.checkent i _ other

  -- Nothing more happens to the object.
  finished_object-Settled :
      (t : Daemon) (d : Monitored) (more : List Monitorent)
      → here.checkent ≡ i
      → object_at s.graph i ≡ some d
      → entries_of here.checkent more ≡ 0
      → Settled w now (finished_object w now retval b s) (answer_of i more) (object_at t.graph i)
      → Settled w now d (some retval) (object_at t.graph i)
  unfolding finished_object
  finished_object-Settled t d more at o left h =
      let gone : answer_of i more ≡ none =
        answer_none i more (ap (λ (k : ℕ). entries_of k more) (sym at) ∙ left) in
      let same : b ≡ d = ground (arith, p, o, ap (object_at s.graph) at) in
      (
        s.glob_change_seq,
        (
          s.events,
          (rw gone at h) ∙ ap (λ (e : Monitored). some (finished_object w now retval e s)) same,
        ),
      )

service_loop-Settled :
    (c : Checks) (w : Site) (now i : ℕ) (queue kept : List Monitorent) (extra : ℕ → ℕ) (x : ℕ)
    (s t : Daemon) (d : Monitored)
    → Serving extra x queue s
    → service_loop c w now queue s ≡ some (kept, t)
    → object_at s.graph i ≡ some d
    → Settled w now d (answer_of i queue) (object_at t.graph i)
service_loop-Settled c w now i [] kept extra x s t d h e o =
    let same : s ≡ t = unfold service_loop in ground (arith, e) in
    unfold answer_of in (sym (ap (λ (u : Daemon). object_at u.graph i) same) ∙ o)
service_loop-Settled c w now i (here ∷ more) kept extra x s t d h e o =
    elim (Option-cases here.retval) [
      | inl f ↦
          let (rest, (g, same)) = kept_round c w now here more kept s t f e in
          rw (answer_pending i here more f) (
            service_loop-Settled c w now i more rest (with_entry extra here.checkent) (x + 1) s t d
              (Serving-more extra x here more s h) g o)
      | inr (retval, f) ↦
          let (b, (p, g)) = done_round c w now retval here more kept s t f e in
          let (b', (p', (none_kept, none_left))) = flagged extra x here more s h in
          let again =
            finish_check-Serving w now retval extra x here more s b p none_kept none_left h in
          let after = finish_check w now here.checkent retval b s in
          let rest = λ (e : Monitored) (q : object_at after.graph i ≡ some e).
            service_loop-Settled c w now i more kept extra x after t e again g q in
          rw (answer_done i retval here more f) (elim (Bool-cases (here.checkent == i)) [
            | inl same ↦
                let at : here.checkent ≡ i = ground (arith, same) in
                rw same (
                  finished_object-Settled w now retval here s b p i t d more at o none_left (
                    rest (finished_object w now retval b s)
                      (finish_check_self w now retval here s b p i at)))
            | inr other ↦ rw other (
                rest d (
                  finish_check_other w now retval here s b p i (λ at. ground (arith, at, other))
                  ∙ o))
          ])
    ]

-- A round of service_checks on a queue and flags that are in step: every object whose check has a
-- result is handled by handle_retval with that result, once, and leaves the queue; every other object
-- stays as it is; and the entries without a result stay in the queue, in their order, served once.
pub service_checks-Settled :
    (c : Checks) (w : Site) (now : ℕ) (s : Daemon)
    → IsConsistent s
    → (t : Daemon) × ((service_checks c w now s ≡ some t)
        × ((t.queue ≡ map (service_this c) (pending s.queue))
            × ((i : ℕ) (d : Monitored)
                → object_at s.graph i ≡ some d
                → Settled w now d (answer_of i s.queue) (object_at t.graph i))))
unfolding service_checks
service_checks-Settled c w now s h =
    let start : Serving (λ i. 0) 0 s.queue s = record {
      counted = omega (arith, h.counted);
      bounded = h.bounded;
      mirrored = λ i. omega (arith, h.mirrored i);
    } in
    let (kept, (t, (e, r))) = service_loop-Serving c w now s.queue (λ i. 0) 0 s start in
    (
      record t { queue = kept },
      (
        rw (e, service_checks) refl,
        (
          service_loop-pending c w now s.queue kept s t e,
          λ i d o. service_loop-Settled c w now i s.queue kept (λ i. 0) 0 s t d start e o,
        ),
      ),
    )

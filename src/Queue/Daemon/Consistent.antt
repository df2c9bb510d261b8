-- ===== src/Queue/Daemon/Consistent.antt =====
-- The queue and the flags of the objects: queue_check, queue_checks_qsort_way and service_checks keep
-- one entry for each object that is marked as queued, and none for another.
use sysmon.Base.{ℕ, ◌+◌, ◌≤◌, ◌≡◌, ap, arith}
use sysmon.Base.{true, false, not, ◌&&◌, List, [], ◌∷◌, Option, none, some, inl, inr}
use sysmon.Base.{if◌then◌else◌, ◌==◌, leb, ltb, Bool-cases, Option-cases, length}
use sysmon.Queue.{Monitored}
use sysmon.Queue.Daemon.{
  Monitorent, Daemon, object_at, put_object, queue_check, queue_one, queue_all,
}
use sysmon.Queue.Daemon.Objects.{object_at-put}

-- The entries of an object.
unfoldable pub entries_of : ℕ → List Monitorent → ℕ
entries_of i [] = 0
entries_of i (e ∷ queue) = (if e.checkent == i then 1 else 0) + entries_of i queue

-- `queued`, of an object that is there.
abbrev pub flag_of : Option Monitored → ℕ
flag_of none = 0
flag_of (some d) = if d.queued then 1 else 0

pub record IsConsistent (s : Daemon) : Type 0 where
  pub counted : s.numqueued ≡ length s.queue
  pub bounded : s.numqueued ≤ s.maxqueued + 1
  pub mirrored : (i : ℕ) → entries_of i s.queue ≡ flag_of (object_at s.graph i)

pub queue_check_free :
    (i : ℕ) (s : Daemon) (d : Monitored)
    → object_at s.graph i ≡ some d
    → d.queued ≡ false
    → queue_check i s ≡ record s {
      graph = put_object s.graph i (record d { queued = true; warnlog = false });
      queue = record { checkent = i; started = false; retval = none } ∷ s.queue;
      numqueued = s.numqueued + 1;
    }
unfolding queue_check
queue_check_free i s d e f = ground (arith, e, f)

pub queue_check_busy :
    (i : ℕ) (s : Daemon) (d : Monitored)
    → object_at s.graph i ≡ some d
    → d.queued ≡ true
    → queue_check i s ≡ s
unfolding queue_check
queue_check_busy i s d e f = ground (arith, e, f)

pub queue_check_null : (i : ℕ) (s : Daemon) → object_at s.graph i ≡ none → queue_check i s ≡ s
unfolding queue_check
queue_check_null i s e = ground (arith, e)

queue_check-IsConsistent :
    (i : ℕ) (s : Daemon)
    → s.numqueued ≤ s.maxqueued
    → IsConsistent s
    → IsConsistent (queue_check i s)
queue_check-IsConsistent i s room h = elim (Option-cases (object_at s.graph i)) [
  | inl e ↦ rw (queue_check_null i s e) h
  | inr (d, e) ↦ elim (Bool-cases d.queued) [
    | inl busy ↦ rw (queue_check_busy i s d e busy) h
    | inr free ↦ rw (queue_check_free i s d e free) (record {
      counted = omega (arith, h.counted);
      bounded = omega (arith, room);
      mirrored = λ j. mirrored d e free j;
    })
  ]
]
  where
    mirrored :
        (d : Monitored)
        → object_at s.graph i ≡ some d
        → d.queued ≡ false
        → (j : ℕ)
        → entries_of j (record { checkent = i; started = false; retval = none } ∷ s.queue)
          ≡ flag_of
              (object_at (put_object s.graph i (record d { queued = true; warnlog = false })) j)
    mirrored d e free j =
        unfold entries_of in
        rw (object_at-put s.graph i j (record d { queued = true; warnlog = false }) d e)
          (elim (Bool-cases (i == j)) [
            | inl same ↦
                let at : j ≡ i = ground (arith, same) in
                rw same (
                  ground (
                    arith,
                    h.mirrored j,
                    ap (λ (k : ℕ). flag_of (object_at s.graph k)) at,
                    e,
                    free,
                  ))
            | inr other ↦ rw other (ground (arith, h.mirrored j))
          ])

queue_one-IsConsistent :
    (now i : ℕ) (s : Daemon) → IsConsistent s → IsConsistent (queue_one now i s)
unfolding queue_one
queue_one-IsConsistent now i s h = elim (Bool-cases (leb s.numqueued s.maxqueued)) [
  | inl room ↦ rw room (
      queue_check-IsConsistent i (record s { last_queued_at = now; last_queued_warn = false })
        (ground (arith, room))
        (record { counted = h.counted; bounded = h.bounded; mirrored = h.mirrored }))
  | inr full ↦
      rw full
        (elim (Bool-cases
          (ltb (s.last_queued_at + 3) now && (s.warnlog && not s.last_queued_warn))) [
            | inl warn ↦
                rw warn (record { counted = h.counted; bounded = h.bounded; mirrored = h.mirrored })
            | inr quiet ↦ rw quiet h
          ])
]

pub queue_all-IsConsistent :
    (now : ℕ) (xs : List ℕ) (s : Daemon) → IsConsistent s → IsConsistent (queue_all now xs s)
unfolding queue_all
queue_all-IsConsistent now [] s h = h
queue_all-IsConsistent now (i ∷ xs) s h =
    queue_all-IsConsistent now xs (queue_one now i s) (queue_one-IsConsistent now i s h)

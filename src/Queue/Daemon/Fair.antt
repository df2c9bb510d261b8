-- ===== src/Queue/Daemon/Fair.antt =====
-- A pass of queue_checks_qsort_way: what is queued, and what waits when the queue is full.
use sysmon.Base.{ℕ, ◌≤◌, ◌<◌, ◌≡◌, ◌⊎◌, refl, sym, ap, ◌∙◌, arith}
use sysmon.Base.{true, List, [], ◌∷◌, some, inl, inr}
use sysmon.Base.{leb, Bool-cases}
use sysmon.Base.Int.{ℤ}
use mathlib.Core.Path.{subst}
use sysmon.Queue.{Monitored}
use sysmon.Queue.Walk.{IsWanted, ready-IsWanted}
use sysmon.Base.{In, All-In}
use sysmon.Queue.Complete.{ready_iff}
use sysmon.Queue.Daemon.{
  Daemon, Qsort, object_at, queue_one, queue_all, queue_checks_qsort_way, q_time_cmp,
}
use sysmon.Queue.Daemon.Sorted.{
  IsLe, IsSorted, IsQsort, time_of, q_time_cmp_le, q_time_cmp-IsOrder, is_queued, Before, is_some,
  QueuedOne, queue_one-QueuedOne,
}

-- The loop over the sorted list.
record QueuedAll (xs : List ℕ) (s t : Daemon) : Type 0 where
  limit : t.maxqueued ≡ s.maxqueued
  grows : s.numqueued ≤ t.numqueued
  keeps : (j : ℕ) → is_queued s j ≡ true → is_queued t j ≡ true
  only :
      (j : ℕ)
      → is_queued t j ≡ true
      → (is_queued s j ≡ true) ⊎ (In j xs × (s.numqueued ≤ s.maxqueued))

queue_all-QueuedAll : (now : ℕ) (xs : List ℕ) (s : Daemon) → QueuedAll xs s (queue_all now xs s)
unfolding queue_all
queue_all-QueuedAll now [] s = record {
  limit = refl;
  grows = omega arith;
  keeps = λ j h. h;
  only = λ j h. inl h;
}
queue_all-QueuedAll now (x ∷ xs) s =
    let h = queue_one-QueuedOne now x s in
    let r = queue_all-QueuedAll now xs (queue_one now x s) in
    record {
      limit = r.limit ∙ h.limit;
      grows = omega (arith, r.grows, h.grows);
      keeps = λ j q. r.keeps j (h.keeps j q);
      only = λ j q. only j (r.only j q) h;
    }
  where
    only :
        (j : ℕ)
        → (is_queued (queue_one now x s) j ≡ true)
          ⊎ (In j xs × ((queue_one now x s).numqueued ≤ (queue_one now x s).maxqueued))
        → QueuedOne x s (queue_one now x s)
        → (is_queued s j ≡ true) ⊎ (In j (x ∷ xs) × (s.numqueued ≤ s.maxqueued))
    only j (inr (i, room)) h = inr (inr i, omega (arith, room, h.limit, h.grows))
    only j (inl q) h = elim (h.only j q) [
      | inl old ↦ inl old
      | inr (same, room) ↦ inr (inl (sym same), room)
    ]

-- Once the queue is full, the rest of the list waits.
Waits : ℕ → List ℕ → Daemon → Daemon → Type 0
Waits i xs s t =
    (t.maxqueued < t.numqueued)
    × ((j : ℕ) → is_queued t j ≡ true → (is_queued s j ≡ true) ⊎ Before j i xs)

queue_all-Waits :
    (now i : ℕ) (xs : List ℕ) (s : Daemon)
    → In i xs
    → is_some (object_at s.graph i) ≡ true
    → (is_queued (queue_all now xs s) i ≡ true) ⊎ Waits i xs s (queue_all now xs s)
unfolding queue_all Waits
queue_all-Waits now i [] s h there = absurd h
queue_all-Waits now i (x ∷ xs) s (inl same) there =
    let h = queue_one-QueuedOne now x s in
    let r = queue_all-QueuedAll now xs (queue_one now x s) in
    elim (Bool-cases (leb s.numqueued s.maxqueued)) [
      | inl room ↦ inl (
          r.keeps i (
            subst (λ k. is_queued (queue_one now x s) k ≡ true) same
              (h.queues (ground (arith, room))
                (ap (λ (k : ℕ). is_some (object_at s.graph k)) same ∙ there))))
      | inr full ↦ inr (
        ground (arith, full, r.limit, r.grows, h.limit, h.grows),
        λ j q. elim (r.only j q) [
          | inl old ↦ elim (h.only j old) [
            | inl older ↦ inl older
            | inr (e, room) ↦ absurd (ground (arith, full, room))
          ]
          | inr (later, room) ↦ absurd (ground (arith, full, room, h.limit, h.grows))
        ],
      )
    ]
queue_all-Waits now i (x ∷ xs) s (inr later) there =
    let h = queue_one-QueuedOne now x s in
    elim (queue_all-Waits now i xs (queue_one now x s) later (h.there i ∙ there)) [
      | inl q ↦ inl q
      | inr (full, r) ↦ inr (
        full,
        λ j q. elim (r j q) [
          | inr before ↦ inr (inr before)
          | inl old ↦ elim (h.only j old) [
            | inl older ↦ inl older
            | inr (same, room) ↦ inr (inl (sym same, later))
          ]
        ],
      )
    ]

IsSorted-Before :
    (compar : ℕ → ℕ → ℤ) (j i : ℕ) (xs : List ℕ)
    → IsSorted compar xs
    → Before j i xs
    → IsLe (compar j i)
IsSorted-Before compar j i [] s b = absurd b
IsSorted-Before compar j i (x ∷ xs) (h, s) (inl (same, later)) =
    subst (λ k. IsLe (compar k i)) same (All-In (λ y. IsLe (compar x y)) i xs h later)
IsSorted-Before compar j i (x ∷ xs) (h, s) (inr b) = IsSorted-Before compar j i xs s b

-- What is queued in front of an object was due no later.
in_order :
    (s : Daemon) (now i : ℕ) (xs : List ℕ) (d : Monitored)
    → IsSorted (q_time_cmp s.graph) xs
    → object_at s.graph i ≡ some d
    → Waits i xs s (queue_all now xs s)
    → ((queue_all now xs s).maxqueued < (queue_all now xs s).numqueued)
      × ((j : ℕ) (e : Monitored)
          → object_at s.graph j ≡ some e
          → is_queued (queue_all now xs s) j ≡ true
          → (is_queued s j ≡ true) ⊎ (e.svc.next_queuetime ≤ d.svc.next_queuetime))
unfolding Waits time_of
in_order s now i xs d sorted o (full, before) = (
  full,
  λ j e p q. elim (before j q) [
    | inl old ↦ inl old
    | inr b ↦
        let le =
          (q_time_cmp_le s.graph j i).0 (IsSorted-Before (q_time_cmp s.graph) j i xs sorted b) in
        inr (omega (arith, rw (p, o) at le))
  ],
)

-- A pass of queue_checks_qsort_way, with any qsort that sorts. It comes to its end. What it queues is
-- wanted: due, not in the queue, and reached from the root. What is wanted is queued afterwards, or
-- waits; and an object waits only if the queue is over its limit afterwards, and then no object
-- that the pass has queued was due later.
pub queue_checks_fair :
    (qsort : Qsort) (root now : ℕ) (s : Daemon)
    → IsQsort qsort
    → (t : Daemon) × ((queue_checks_qsort_way qsort (some root) now s ≡ some (1, t))
        × (((j : ℕ) → is_queued t j ≡ true → (is_queued s j ≡ true) ⊎ IsWanted s.graph now root j)
            × ((i : ℕ) (d : Monitored)
                → IsWanted s.graph now root i
                → object_at s.graph i ≡ some d
                → (is_queued t i ≡ true)
                  ⊎ ((t.maxqueued < t.numqueued)
                      × ((j : ℕ) (e : Monitored)
                          → object_at s.graph j ≡ some e
                          → is_queued t j ≡ true
                          → (is_queued s j ≡ true)
                            ⊎ (e.svc.next_queuetime ≤ d.svc.next_queuetime))))))
unfolding queue_checks_qsort_way
queue_checks_fair qsort root now s q =
    let (m, (e, r)) = ready-IsWanted s.graph now root in
    let compar = q_time_cmp s.graph in
    let xs = qsort compar m.array_elements in
    let sorted = q.sorts compar m.array_elements (q_time_cmp-IsOrder s.graph) in
    let all = queue_all-QueuedAll now xs s in
    (
      queue_all now xs s,
      (
        rw (e, queue_checks_qsort_way) refl,
        (
          λ j h. elim (all.only j h) [
            | inl old ↦ inl old
            | inr (i, room) ↦ inr (
                All-In (IsWanted s.graph now root) j m.array_elements r.1
                  ((q.same compar m.array_elements j).0 i))
          ],
          λ i d w o.
              let there : is_some (object_at s.graph i) ≡ true = unfold is_some in rw o refl in
              let listed =
                (q.same compar m.array_elements i).1 ((ready_iff s.graph now root i m e).1 w) in
              elim (queue_all-Waits now i xs s listed there) [
                | inl queued ↦ inl queued
                | inr waits ↦ inr (in_order s now i xs d sorted o waits)
              ],
        ),
      ),
    )

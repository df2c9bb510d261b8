-- ===== src/Queue/Daemon/Sorted.antt =====
-- The order in which queue_checks_qsort_way queues, and what waits when the queue is full.
use sysmon.Base.{ℕ, suc, ◌≤◌, ◌≡◌, ◌↔◌, ◌⊎◌, refl, sym, ap, ◌∙◌, arith}
use sysmon.Base.{Bool, true, false, List, [], ◌∷◌, Option, none, some, inl, inr, All}
use sysmon.Base.{if◌then◌else◌, ◌==◌, leb, ltb, Bool-cases, Option-cases}
use sysmon.Base.Int.{ℤ, pos, negsuc}
use sysmon.Queue.{Monitored, Graph}
use sysmon.Base.{In}
use sysmon.Queue.Daemon.{Daemon, Qsort, object_at, put_object, queue_check, queue_one, q_time_cmp}
use sysmon.Queue.Daemon.Objects.{object_at-put}
use sysmon.Queue.Daemon.Consistent.{queue_check_null, queue_check_busy, queue_check_free}

-- `cmp(a, b) <= 0`
abbrev pub IsLe : ℤ → Type 0
IsLe (pos n) = n ≡ 0
IsLe (negsuc n) = Unit {0}

-- What qsort asks of a comparison: a total order.
pub record IsOrder (compar : ℕ → ℕ → ℤ) : Type 0 where
  pub total : (a b : ℕ) → IsLe (compar a b) ⊎ IsLe (compar b a)
  pub transitive : (a b c : ℕ) → IsLe (compar a b) → IsLe (compar b c) → IsLe (compar a c)

abbrev pub IsSorted : (ℕ → ℕ → ℤ) → List ℕ → Type 0
IsSorted compar [] = Unit {0}
IsSorted compar (x ∷ xs) = All (λ y. IsLe (compar x y)) xs × IsSorted compar xs

-- The C library's qsort: for a total order the result is sorted, and it has the same elements.
pub record IsQsort (qsort : Qsort) : Type 0 where
  pub sorts :
      (compar : ℕ → ℕ → ℤ) (xs : List ℕ) → IsOrder compar → IsSorted compar (qsort compar xs)
  pub same : (compar : ℕ → ℕ → ℤ) (xs : List ℕ) (n : ℕ) → In n (qsort compar xs) ↔ In n xs

-- The comparison by clauses: an object that is not there comes first.
unfoldable pub time_of : Option Monitored → ℕ
time_of none = 0
time_of (some d) = suc d.svc.next_queuetime

compare_times : Option Monitored → Option Monitored → ℤ
compare_times none none = pos 0
compare_times none (some e) = negsuc 0
compare_times (some d) none = pos 1
compare_times (some d) (some e) =
    if d.svc.next_queuetime == e.svc.next_queuetime
    then pos 0
    else if ltb e.svc.next_queuetime d.svc.next_queuetime
    then pos 1
    else negsuc 0

q_time_cmp-compare_times :
    (g : Graph) (a b : ℕ) → q_time_cmp g a b ≡ compare_times (object_at g a) (object_at g b)
unfolding q_time_cmp compare_times
q_time_cmp-compare_times g a b = ground arith

compare_times_le : (a b : Option Monitored) → IsLe (compare_times a b) ↔ (time_of a ≤ time_of b)
unfolding compare_times time_of
compare_times_le none none = ((λ h. omega arith), (λ h. refl))
compare_times_le none (some e) = ((λ h. omega arith), (λ h. tt))
compare_times_le (some d) none = ((λ h. absurd (omega arith)), (λ h. absurd (omega arith)))
compare_times_le (some d) (some e) =
    elim (Bool-cases (d.svc.next_queuetime == e.svc.next_queuetime)) [
      | inl same ↦ rw same ((λ h. ground (arith, same)), (λ h. refl))
      | inr other ↦ rw other (elim (Bool-cases (ltb e.svc.next_queuetime d.svc.next_queuetime)) [
        | inl late ↦
            rw late ((λ h. absurd (omega (arith, h))), (λ h. absurd (ground (arith, h, late))))
        | inr early ↦ rw early ((λ h. ground (arith, early)), (λ h. tt))
      ])
    ]

pub q_time_cmp_le :
    (g : Graph) (a b : ℕ)
    → IsLe (q_time_cmp g a b) ↔ (time_of (object_at g a) ≤ time_of (object_at g b))
q_time_cmp_le g a b =
    rw (q_time_cmp-compare_times g a b) (compare_times_le (object_at g a) (object_at g b))

pub q_time_cmp-IsOrder : (g : Graph) → IsOrder (q_time_cmp g)
q_time_cmp-IsOrder g = record {
  total = λ a b. total (q_time_cmp_le g a b) (q_time_cmp_le g b a);
  transitive = λ a b c h k.
      (q_time_cmp_le g a c).1 (omega (arith, (q_time_cmp_le g a b).0 h, (q_time_cmp_le g b c).0 k));
}
  where
    total : {P Q : Type 0} {m n : ℕ} → P ↔ (m ≤ n) → Q ↔ (n ≤ m) → P ⊎ Q
    total {m = m} {n = n} p q = elim (Bool-cases (leb m n)) [
      | inl e ↦ inl (p.1 (ground (arith, e)))
      | inr e ↦ inr (q.1 (ground (arith, e)))
    ]

-- `queued`, of an object that is there.
abbrev pub marked : Option Monitored → Bool
marked none = false
marked (some d) = d.queued

abbrev pub is_queued : Daemon → ℕ → Bool
is_queued s i = marked (object_at s.graph i)

-- The first stands before the second in the list.
abbrev pub Before : ℕ → ℕ → List ℕ → Type 0
Before j i [] = ⊥
Before j i (x ∷ xs) = ((x ≡ j) × In i xs) ⊎ Before j i xs

unfoldable pub is_some : Option Monitored → Bool
is_some none = false
is_some (some d) = true

-- One round: an object stays an object, a mark stays, and only this object is marked, if there is room.
pub record QueuedOne (i : ℕ) (s t : Daemon) : Type 0 where
  pub limit : t.maxqueued ≡ s.maxqueued
  pub grows : s.numqueued ≤ t.numqueued
  pub there : (j : ℕ) → is_some (object_at t.graph j) ≡ is_some (object_at s.graph j)
  pub keeps : (j : ℕ) → is_queued s j ≡ true → is_queued t j ≡ true
  pub only :
      (j : ℕ)
      → is_queued t j ≡ true
      → (is_queued s j ≡ true) ⊎ ((j ≡ i) × (s.numqueued ≤ s.maxqueued))
  pub queues :
      s.numqueued ≤ s.maxqueued → is_some (object_at s.graph i) ≡ true → is_queued t i ≡ true

-- The same for the write in queue_check.
module _ (i : ℕ) (s t : Daemon) (d b : Monitored) (o : object_at s.graph i ≡ some d)
    (set : b.queued ≡ true) (wrote : t.graph ≡ put_object s.graph i b) where
  written : (j : ℕ) → object_at t.graph j ≡ (if i == j then some b else object_at s.graph j)
  written j = ap (λ (g : Graph). object_at g j) wrote ∙ object_at-put s.graph i j b d o

  written_here :
      (j : ℕ) → (i == j) ≡ true → (object_at t.graph j ≡ some b) × (object_at s.graph j ≡ some d)
  written_here j same =
      let at : j ≡ i = ground (arith, same) in
      (written j ∙ rw same refl, ap (object_at s.graph) at ∙ o)

  written_there : (j : ℕ) → (i == j) ≡ false → object_at t.graph j ≡ object_at s.graph j
  written_there j other = written j ∙ rw other refl

  put-QueuedOne :
      s.numqueued ≤ s.maxqueued
      → t.maxqueued ≡ s.maxqueued
      → s.numqueued ≤ t.numqueued
      → QueuedOne i s t
  unfolding is_some
  put-QueuedOne room limit grows = record {
    limit = limit;
    grows = grows;
    there = λ j. elim (Bool-cases (i == j)) [
      | inl same ↦ let (p, q) = written_here j same in rw (p, q) refl
      | inr other ↦ ap is_some (written_there j other)
    ];
    keeps = λ j h. elim (Bool-cases (i == j)) [
      | inl same ↦ rw (written_here j same).0 set
      | inr other ↦ ap marked (written_there j other) ∙ h
    ];
    only = λ j h. elim (Bool-cases (i == j)) [
      | inl same ↦ inr (ground (arith, same), room)
      | inr other ↦ inl (sym (ap marked (written_there j other)) ∙ h)
    ];
    queues = λ r e. rw (written i) (ground (arith, set));
  }

QueuedOne-none :
    (i : ℕ) (s t : Daemon)
    → t.graph ≡ s.graph
    → t.maxqueued ≡ s.maxqueued
    → s.numqueued ≤ t.numqueued
    → (s.numqueued ≤ s.maxqueued → is_some (object_at s.graph i) ≡ true → is_queued t i ≡ true)
    → QueuedOne i s t
QueuedOne-none i s t same limit grows h = record {
  limit = limit;
  grows = grows;
  there = λ j. ap (λ (g : Graph). is_some (object_at g j)) same;
  keeps = λ j e. ap (λ (g : Graph). marked (object_at g j)) same ∙ e;
  only = λ j e. inl (ap (λ (g : Graph). marked (object_at g j)) (sym same) ∙ e);
  queues = h;
}

queue_check-QueuedOne :
    (i : ℕ) (s : Daemon) → s.numqueued ≤ s.maxqueued → QueuedOne i s (queue_check i s)
unfolding is_some
queue_check-QueuedOne i s room = elim (Option-cases (object_at s.graph i)) [
  | inl e ↦
      rw (queue_check_null i s e)
        (QueuedOne-none i s s refl refl (omega arith) (λ r f. absurd (ground (arith, e, f))))
  | inr (d, e) ↦ elim (Bool-cases d.queued) [
    | inl busy ↦
        rw (queue_check_busy i s d e busy)
          (QueuedOne-none i s s refl refl (omega arith) (λ r f. rw e busy))
    | inr free ↦ rw (queue_check_free i s d e free) (
        put-QueuedOne i s _ d (record d { queued = true; warnlog = false }) e refl refl room refl
          (omega arith))
  ]
]

pub queue_one-QueuedOne : (now i : ℕ) (s : Daemon) → QueuedOne i s (queue_one now i s)
unfolding queue_one
queue_one-QueuedOne now i s = elim (Bool-cases (leb s.numqueued s.maxqueued)) [
  | inl room ↦
      let h =
        queue_check-QueuedOne i (record s { last_queued_at = now; last_queued_warn = false })
          (ground (arith, room)) in
      rw room (record {
        limit = h.limit;
        grows = h.grows;
        there = h.there;
        keeps = h.keeps;
        only = h.only;
        queues = h.queues;
      })
  | inr full ↦ rw full (
      QueuedOne-none i s _ (ground arith) (ground arith) (ground arith)
        (λ r f. absurd (ground (arith, r, full))))
]

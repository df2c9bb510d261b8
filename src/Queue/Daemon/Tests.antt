-- ===== src/Queue/Daemon/Tests.antt =====
-- The queue of a small network, with an insertion sort for qsort.
use sysmon.Base.{ℕ, zero, suc, ◌≤◌, ◌<◌, ◌≡◌, ◌↔◌, ◌⊎◌, refl, arith}
use sysmon.Base.{Bool, true, false, List, [], ◌∷◌, Option, none, some, inl, inr, All, map, length}
use sysmon.Base.{if◌then◌else◌, ◌==◌, Bool-cases}
use sysmon.Base.Int.{ℤ, pos, negsuc}
use sysmon.Base.Text.{codes}
use sysmon.Outage.{Site}
use sysmon.Queue.{
  Monitored, Graph, ready, walk_queue_checks_add, to_visit, is_visited, clear_visited, leads_on,
  each, mark, is_due,
}
use sysmon.Queue.Tests.{network, object}
use sysmon.Queue.Walk.{IsWanted}
use sysmon.Base.{In}
use sysmon.Queue.Daemon.{
  Monitorent, Daemon, Qsort, Checks, object_at, put_object, queue_check, queue_one, queue_all,
  queue_checks_qsort_way, q_time_cmp, service_this, service_checks,
}
use sysmon.Queue.Daemon.Sorted.{IsLe, IsOrder, IsSorted, IsQsort, is_queued}
use sysmon.Queue.Daemon.Fair.{queue_checks_fair}
use sysmon.Queue.Daemon.Consistent.{IsConsistent, entries_of, flag_of}
use sysmon.Queue.Daemon.Results.{answer_of, pending, Settled, service_checks-Settled}
use sysmon.Queue.Daemon.Passes.{here, then_step, queue_step, IsIdle, Reach-queue}

is_le : ℤ → Bool
is_le (pos n) = n == 0
is_le (negsuc n) = true

is_le_iff : (z : ℤ) → (is_le z ≡ true) ↔ IsLe z
unfolding is_le
is_le_iff (pos n) = ground arith
is_le_iff (negsuc n) = ((λ h. tt), (λ h. refl))

insert_by : (ℕ → ℕ → ℤ) → ℕ → List ℕ → List ℕ
insert_by compar n [] = n ∷ []
insert_by compar n (x ∷ xs) = if is_le (compar n x) then n ∷ (x ∷ xs) else x ∷ insert_by compar n xs

insertion_sort : Qsort
unfolding insert_by
insertion_sort compar [] = []
insertion_sort compar (x ∷ xs) = insert_by compar x (insertion_sort compar xs)

In-insert_by :
    (compar : ℕ → ℕ → ℤ) (m n : ℕ) (xs : List ℕ) → In m (insert_by compar n xs) ↔ In m (n ∷ xs)
unfolding insert_by
In-insert_by compar m n [] = ((λ h. h), (λ h. h))
In-insert_by compar m n (x ∷ xs) = elim (Bool-cases (is_le (compar n x))) [
  | inl front ↦ rw front ((λ h. h), (λ h. h))
  | inr back ↦ rw back (there (In-insert_by compar m n xs))
]
  where
    there :
        In m (insert_by compar n xs) ↔ In m (n ∷ xs)
        → In m (x ∷ insert_by compar n xs) ↔ In m (n ∷ (x ∷ xs))
    there h = (λ i. to i, λ i. from i)
      where
        to : In m (x ∷ insert_by compar n xs) → In m (n ∷ (x ∷ xs))
        to (inl e) = inr (inl e)
        to (inr i) = elim (h.0 i) [ inl e ↦ inl e | inr k ↦ inr (inr k) ]

        from : In m (n ∷ (x ∷ xs)) → In m (x ∷ insert_by compar n xs)
        from (inl e) = inr (h.1 (inl e))
        from (inr (inl e)) = inl e
        from (inr (inr k)) = inr (h.1 (inr k))

All-insert_by :
    (P : ℕ → Type 0) (compar : ℕ → ℕ → ℤ) (n : ℕ) (xs : List ℕ)
    → P n
    → All P xs
    → All P (insert_by compar n xs)
unfolding insert_by
All-insert_by P compar n [] p all = (p, tt)
All-insert_by P compar n (x ∷ xs) p (q, all) = elim (Bool-cases (is_le (compar n x))) [
  | inl front ↦ rw front (p, (q, all))
  | inr back ↦ rw back (q, All-insert_by P compar n xs p all)
]

All-le :
    (compar : ℕ → ℕ → ℤ) (n x : ℕ) (xs : List ℕ)
    → IsOrder compar
    → IsLe (compar n x)
    → All (λ y. IsLe (compar x y)) xs
    → All (λ y. IsLe (compar n y)) xs
All-le compar n x [] o h all = tt
All-le compar n x (y ∷ xs) o h (p, all) = (o.transitive n x y h p, All-le compar n x xs o h all)

insert_by-IsSorted :
    (compar : ℕ → ℕ → ℤ) (n : ℕ) (xs : List ℕ)
    → IsOrder compar
    → IsSorted compar xs
    → IsSorted compar (insert_by compar n xs)
unfolding insert_by
insert_by-IsSorted compar n [] o s = (tt, tt)
insert_by-IsSorted compar n (x ∷ xs) o (h, s) = elim (Bool-cases (is_le (compar n x))) [
  | inl front ↦
      let le = (is_le_iff (compar n x)).0 front in
      rw front ((le, All-le compar n x xs o le h), (h, s))
  | inr back ↦ rw back (
    All-insert_by (λ y. IsLe (compar x y)) compar n xs (other (o.total n x) back) h,
    insert_by-IsSorted compar n xs o s,
  )
]
  where
    other : IsLe (compar n x) ⊎ IsLe (compar x n) → is_le (compar n x) ≡ false → IsLe (compar x n)
    other (inr h) back = h
    other (inl h) back = absurd (ground (arith, back, (is_le_iff (compar n x)).1 h))

insertion_sort-IsSorted :
    (compar : ℕ → ℕ → ℤ) (xs : List ℕ) → IsOrder compar → IsSorted compar (insertion_sort compar xs)
unfolding insertion_sort
insertion_sort-IsSorted compar [] o = tt
insertion_sort-IsSorted compar (x ∷ xs) o =
    insert_by-IsSorted compar x (insertion_sort compar xs) o (insertion_sort-IsSorted compar xs o)

In-insertion_sort :
    (compar : ℕ → ℕ → ℤ) (xs : List ℕ) (n : ℕ) → In n (insertion_sort compar xs) ↔ In n xs
unfolding insertion_sort
In-insertion_sort compar [] n = ((λ h. h), (λ h. h))
In-insertion_sort compar (x ∷ xs) n = both (In-insertion_sort compar xs n)
  where
    both :
        In n (insertion_sort compar xs) ↔ In n xs
        → In n (insert_by compar x (insertion_sort compar xs)) ↔ In n (x ∷ xs)
    both h = (
      (λ i. elim ((In-insert_by compar n x (insertion_sort compar xs)).0 i) [
        | inl e ↦ inl e
        | inr k ↦ inr (h.0 k)
      ]),
      (λ i. elim i [
        | inl e ↦ (In-insert_by compar n x (insertion_sort compar xs)).1 (inl e)
        | inr k ↦ (In-insert_by compar n x (insertion_sort compar xs)).1 (inr (h.1 k))
      ]),
    )

insertion_sort-IsQsort : IsQsort insertion_sort
insertion_sort-IsQsort = record { sorts = insertion_sort-IsSorted; same = In-insertion_sort }

-- The root's check has come back, the router's has not.
abbrev busy : Monitored → Monitored
busy d = record d { queued = true }

abbrev at_work : Graph
at_work =
    record { node_data = some (busy (object 0 50)); neighbors = 1 ∷ [] }
    ∷ record { node_data = some (busy (object 6 90)); neighbors = 0 ∷ 2 ∷ [] }
    ∷ record { node_data = some (object 0 10); neighbors = [] }
    ∷ []

abbrev daemon : Graph → List Monitorent → ℕ → Daemon
daemon graph queue maxqueued = record {
  graph = graph;
  queue = queue;
  numqueued = length queue;
  maxqueued = maxqueued;
  last_queued_at = 0;
  last_queued_warn = false;
  warnlog = true;
  glob_change_seq = 7;
  events = [];
}

abbrev entries : List Monitorent
entries =
    record { checkent = 1; started = true; retval = none }
    ∷ record { checkent = 0; started = true; retval = some 0 }
    ∷ []

working : IsConsistent (daemon at_work entries 75)
working = record { counted = refl; bounded = omega arith; mirrored = mirrored }
  where
    mirrored : (i : ℕ) → entries_of i entries ≡ flag_of (object_at at_work i)
    mirrored zero = unfold entries_of in unfold object_at in refl
    mirrored (suc zero) = unfold entries_of in unfold object_at in refl
    mirrored (suc (suc zero)) = unfold entries_of in unfold object_at in refl
    mirrored (suc (suc (suc i))) = unfold entries_of in unfold object_at in ground arith

abbrev checks : Checks
checks = record { start_test = λ i. none; service_test = λ i. some 6 }

abbrev site : Site
site = record {
  donotify = true;
  user_known = true;
  mailer_opens = true;
  clock = 100;
  msgid = codes "m";
}

service_checks-Settled_example :
    (t : Daemon) × ((service_checks checks site 100 (daemon at_work entries 75) ≡ some t)
      × ((t.queue ≡ map (service_this checks) (pending entries))
          × ((i : ℕ) (d : Monitored)
              → object_at at_work i ≡ some d
              → Settled site 100 d (answer_of i entries) (object_at t.graph i))))
service_checks-Settled_example =
    service_checks-Settled checks site 100 (daemon at_work entries 75) working

queue_checks_fair_example :
    (t : Daemon) × ((queue_checks_qsort_way insertion_sort (some 0) 100 (daemon network [] 0)
        ≡ some (1, t))
      × (((j : ℕ)
            → is_queued t j ≡ true
            → (is_queued (daemon network [] 0) j ≡ true) ⊎ IsWanted network 100 0 j)
          × ((i : ℕ) (d : Monitored)
              → IsWanted network 100 0 i
              → object_at network i ≡ some d
              → (is_queued t i ≡ true)
                ⊎ ((t.maxqueued < t.numqueued)
                    × ((j : ℕ) (e : Monitored)
                        → object_at network j ≡ some e
                        → is_queued t j ≡ true
                        → (is_queued (daemon network [] 0) j ≡ true)
                          ⊎ (e.svc.next_queuetime ≤ d.svc.next_queuetime))))))
queue_checks_fair_example =
    queue_checks_fair insertion_sort 0 100 (daemon network [] 0) insertion_sort-IsQsort

-- With room for one, the root is queued, which was due first, and the router waits.
abbrev entry_points : Option (ℕ × Daemon) → List ℕ
entry_points none = []
entry_points (some (pause, t)) = map (λ e. e.checkent) t.queue

one_place :
    entry_points (queue_checks_qsort_way insertion_sort (some 0) 100 (daemon network [] 0)) ≡ 0 ∷ []
unfolding queue_checks_qsort_way queue_all queue_one queue_check q_time_cmp object_at put_object
    insertion_sort insert_by is_le ready walk_queue_checks_add to_visit is_visited clear_visited
    leads_on each mark is_due
one_place = refl

IsIdle-daemon : IsIdle (daemon network [] 75)
IsIdle-daemon = record { empty = refl; none_counted = refl; none_marked = none_marked }
  where
    none_marked : (i : ℕ) → flag_of (object_at network i) ≡ 0
    none_marked zero = unfold object_at in refl
    none_marked (suc zero) = unfold object_at in refl
    none_marked (suc (suc zero)) = unfold object_at in refl
    none_marked (suc (suc (suc i))) = unfold object_at in refl

-- The pass queues the root and then the router.
abbrev both_queued : Daemon
both_queued = record (daemon at_work [] 75) {
  queue =
      record { checkent = 1; started = false; retval = none }
      ∷ record { checkent = 0; started = false; retval = none }
      ∷ [];
  numqueued = 2;
  last_queued_at = 100;
}

first_pass :
    queue_checks_qsort_way insertion_sort (some 0) 100 (daemon network [] 75)
    ≡ some (1, both_queued)
unfolding queue_checks_qsort_way queue_all queue_one queue_check q_time_cmp object_at put_object
    insertion_sort insert_by is_le ready walk_queue_checks_add to_visit is_visited clear_visited
    leads_on each mark is_due
first_pass = refl

Reach-queue_example :
    IsConsistent both_queued
    × (((qsort : Qsort) (root : Option ℕ) (now : ℕ)
          → (pause : ℕ) × ((u : Daemon) × (queue_checks_qsort_way qsort root now both_queued
                ≡ some (pause, u))))
        × ((c : Checks) (w : Site) (now : ℕ)
            → (u : Daemon) × (service_checks c w now both_queued ≡ some u)))
Reach-queue_example =
    Reach-queue IsIdle-daemon (then_step here (queue_step insertion_sort (some 0) 100 1 first_pass))

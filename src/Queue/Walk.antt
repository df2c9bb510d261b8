-- ===== src/Queue/Walk.antt =====
-- The walk of walk_queue_checks_add: its end, its array, and the elements that it lists.
use sysmon.Base.{ℕ, zero, suc, ◌+◌, ◌≤◌, ◌<◌, ◌≡◌, refl, ap, ◌∙◌, arith}
use sysmon.Base.{Bool, true, false, List, [], ◌∷◌, Option, none, some, inl, inr}
use sysmon.Base.{
  if◌then◌else◌, Bool-cases, Option-cases, length, length-append, length-set, get_elem?,
  get_elem?-none, set, replicate,
}
use sysmon.Base.{All, All-append}
use sysmon.Queue.{
  Monitored, Graph, Marks, clear_visited, is_visited, is_due, leads_on, mark, each, to_visit,
  walk_queue_checks_add, ready,
}

-- An element that the dependencies let the walk come to: the root, and the neighbors of a reached
-- element that is not in the queue and leads on.
pub data Reached (g : Graph) (root : ℕ) : ℕ → Type 0 where
  start : Reached g root root
  next :
      {n : ℕ} (m i : ℕ) (d : Monitored) (ns : List ℕ)
      → Reached g root m
      → get_elem? g m ≡ some (record { node_data = some d; neighbors = ns })
      → d.queued ≡ false
      → leads_on d ≡ true
      → get_elem? ns i ≡ some n
      → Reached g root n

-- An element of the list: reached, due, and not in the queue.
pub record IsWanted (g : Graph) (now root n : ℕ) : Type 0 where
  pub reached : Reached g root n
  pub node_data : Monitored
  pub neighbors : List ℕ
  pub here : get_elem? g n ≡ some (record { node_data = some node_data; neighbors = neighbors })
  pub not_queued : node_data.queued ≡ false
  pub due : is_due now node_data ≡ true

-- The elements without a mark.
unfoldable pub unvisited : List Bool → ℕ
unvisited [] = 0
unvisited (true ∷ visit) = unvisited visit
unvisited (false ∷ visit) = suc (unvisited visit)

unvisited-set :
    (visit : List Bool) (i : ℕ)
    → get_elem? visit i ≡ some false
    → suc (unvisited (set visit i true)) ≡ unvisited visit
unfolding unvisited
unvisited-set [] i e = cc
unvisited-set (true ∷ visit) zero e = cc
unvisited-set (false ∷ visit) zero e = refl
unvisited-set (true ∷ visit) (suc i) e = unvisited-set visit i e
unvisited-set (false ∷ visit) (suc i) e = ap suc (unvisited-set visit i e)

unvisited-replicate : (n : ℕ) → unvisited (replicate n false) ≡ n
unfolding unvisited
unvisited-replicate zero = refl
unvisited-replicate (suc n) = ap suc (unvisited-replicate n)

pub length-replicate : (n : ℕ) → length (replicate n false) ≡ n
length-replicate zero = refl
length-replicate (suc n) = ap suc (length-replicate n)

-- While at most k elements are left to mark.
pub record Walking (g : Graph) (now root k : ℕ) (m : Marks) : Type 0 where
  pub size : length m.visit ≡ length g
  pub left : unvisited m.visit ≤ k
  pub room : length m.array_elements + unvisited m.visit ≤ length g
  pub wanted : All (IsWanted g now root) m.array_elements

-- A result that is there and is as told.
abbrev Ends : (Marks → Type 0) → Option Marks → Type 0
Ends P o = (m : Marks) × ((o ≡ some m) × P m)

each-Ends :
    (P : Marks → Type 0) (Q : ℕ → Type 0) (visit_one : ℕ → Marks → Option Marks)
    → ((n : ℕ) (m : Marks) → Q n → P m → Ends P (visit_one n m))
    → (ns : List ℕ) (m : Marks) → All Q ns
    → P m
    → Ends P (each visit_one ns m)
unfolding each
each-Ends P Q visit_one one [] m all h = (m, (refl, h))
each-Ends P Q visit_one one (n ∷ ns) m (q, all) h =
    let (k, (e, p)) = one n m q h in
    let (l, (f, r)) = each-Ends P Q visit_one one ns k all p in (l, (rw (e, each) f, r))

All-of : (Q : ℕ → Type 0) (ns : List ℕ) → ((i n : ℕ) → get_elem? ns i ≡ some n → Q n) → All Q ns
All-of Q [] h = tt
All-of Q (n ∷ ns) h = (h 0 n refl, All-of Q ns (λ i m e. h (suc i) m e))

mark-Walking :
    (g : Graph) (now root k here : ℕ) (d : Monitored) (ns : List ℕ) (m : Marks)
    → Walking g now root (suc k) m
    → Reached g root here
    → get_elem? g here ≡ some (record { node_data = some d; neighbors = ns })
    → d.queued ≡ false
    → get_elem? m.visit here ≡ some false
    → Walking g now root k (mark now here d m)
unfolding mark
mark-Walking g now root k here d ns m h reached e idle fresh =
    let fewer = unvisited-set m.visit here fresh in
    elim (Bool-cases (is_due now d)) [
      | inl due ↦ rw due (record {
        size = length-set m.visit here true ∙ h.size;
        left = omega (arith, fewer, h.left);
        room = omega (arith, fewer, h.room, length-append m.array_elements (here ∷ []));
        wanted = All-append (IsWanted g now root) m.array_elements (here ∷ []) h.wanted (
          record {
            reached = reached;
            node_data = d;
            neighbors = ns;
            here = e;
            not_queued = idle;
            due = due;
          },
          tt,
        );
      })
      | inr later ↦ rw later (record {
        size = length-set m.visit here true ∙ h.size;
        left = omega (arith, fewer, h.left);
        room = omega (arith, fewer, h.room);
        wanted = h.wanted;
      })
    ]

-- What an element that passes the early returns is.
record ToVisit (g : Graph) (here : ℕ) (m : Marks) (d : Monitored) (ns : List ℕ) : Type 0 where
  found : get_elem? g here ≡ some (record { node_data = some d; neighbors = ns })
  idle : d.queued ≡ false
  fresh : is_visited m here ≡ false

to_visit-ToVisit :
    (g : Graph) (here : ℕ) (m : Marks) (d : Monitored) (ns : List ℕ)
    → to_visit g here m ≡ some (d, ns)
    → ToVisit g here m d ns
unfolding to_visit
to_visit-ToVisit g here m d ns e = record {
  found = ground (arith, e);
  idle = ground (arith, e);
  fresh = ground (arith, e);
}

pub get_elem?-lt :
    {A : Type 0} (xs : List A) (i : ℕ) (x : A) → get_elem? xs i ≡ some x → i < length xs
get_elem?-lt [] i x e = cc
get_elem?-lt (y ∷ xs) zero x e = omega arith
get_elem?-lt (y ∷ xs) (suc i) x e = omega (arith, get_elem?-lt xs i x e)

fresh-mark :
    (m : Marks) (here : ℕ)
    → here < length m.visit
    → is_visited m here ≡ false
    → get_elem? m.visit here ≡ some false
unfolding is_visited
fresh-mark m here h e = elim (Option-cases (get_elem? m.visit here)) [
  | inl f ↦ absurd (omega (arith, get_elem?-none m.visit here f, h))
  | inr (true, f) ↦ absurd (ground (arith, e, f))
  | inr (false, f) ↦ f
]

unmarked :
    (g : Graph) (now root k here : ℕ) (m : Marks)
    → Walking g now root k m
    → (d : Monitored) (ns : List ℕ) → ToVisit g here m d ns
    → get_elem? m.visit here ≡ some false
unmarked g now root k here m h d ns v =
    fresh-mark m here (omega (arith, h.size, get_elem?-lt g here _ v.found)) v.fresh

pub no_visit :
    (fuel : ℕ) (g : Graph) (now here : ℕ) (m : Marks)
    → to_visit g here m ≡ none
    → walk_queue_checks_add (suc fuel) g now here m ≡ some m
unfolding walk_queue_checks_add
no_visit fuel g now here m e = rw (e, walk_queue_checks_add)

pub one_visit :
    (fuel : ℕ) (g : Graph) (now here : ℕ) (m : Marks) (d : Monitored) (ns : List ℕ)
    → to_visit g here m ≡ some (d, ns)
    → walk_queue_checks_add (suc fuel) g now here m ≡ (
        if leads_on d
        then each (walk_queue_checks_add fuel g now) ns (mark now here d m)
        else some (mark now here d m))
unfolding walk_queue_checks_add
one_visit fuel g now here m d ns e = rw (e, walk_queue_checks_add)

Walking-more :
    (g : Graph) (now root k : ℕ) (m : Marks) → Walking g now root k m → Walking g now root (suc k) m
Walking-more g now root k m h = record {
  size = h.size;
  left = omega (arith, h.left);
  room = h.room;
  wanted = h.wanted;
}

-- A walk with more fuel than elements to mark ends, and its marks are as told.
walk_queue_checks_add-Ends :
    (fuel : ℕ) (g : Graph) (now root k here : ℕ) (m : Marks)
    → k < fuel
    → Reached g root here
    → Walking g now root k m
    → Ends (Walking g now root k) (walk_queue_checks_add fuel g now here m)
walk_queue_checks_add-Ends zero g now root k here m enough reached h = absurd (omega arith)
walk_queue_checks_add-Ends (suc fuel) g now root k here m enough reached h =
    elim (Option-cases (to_visit g here m)) [
      | inl e ↦ (m, (no_visit fuel g now here m e, h))
      | inr ((d, ns), e) ↦
          visit d ns k e (to_visit-ToVisit g here m d ns e) enough h
            (walk_queue_checks_add-Ends fuel g now root)
    ]
  where
    visit :
        (d : Monitored) (ns : List ℕ) (k : ℕ)
        → to_visit g here m ≡ some (d, ns)
        → ToVisit g here m d ns
        → k < suc fuel
        → Walking g now root k m
        → ((k here : ℕ) (m : Marks)
            → k < fuel
            → Reached g root here
            → Walking g now root k m
            → Ends (Walking g now root k) (walk_queue_checks_add fuel g now here m))
        → Ends (Walking g now root k) (walk_queue_checks_add (suc fuel) g now here m)
    visit d ns zero e v enough h again = absurd (
        omega
          (arith, unvisited-set m.visit here (unmarked g now root zero here m h d ns v), h.left))
    visit d ns (suc k) e v enough h again =
        let marked =
          mark-Walking g now root k here d ns m h reached v.found v.idle
            (unmarked g now root (suc k) here m h d ns v) in
        elim (Bool-cases (leads_on d)) [
          | inl on ↦
              let all =
                All-of (Reached g root) ns
                  (λ i n f. next here i d ns reached v.found v.idle on f) in
              let (l, (f, r)) =
                each-Ends (Walking g now root k) (Reached g root) (walk_queue_checks_add fuel g now)
                  (λ n o q p. again k n o (omega arith) q p) ns (mark now here d m) all marked in
              (l, (one_visit fuel g now here m d ns e ∙ rw on f, Walking-more g now root k l r))
          | inr off ↦ (
            mark now here d m,
            (
              one_visit fuel g now here m d ns e ∙ rw off refl,
              Walking-more g now root k (mark now here d m) marked,
            ),
          )
        ]

-- What queue_checks_qsort_way has to sort, for any configuration, dependency cycles included: the walk
-- comes to an end, it lists no more elements than there are, and each of them is due, not in the
-- queue, and reached from the root through elements that lead on.
pub ready-IsWanted :
    (g : Graph) (now root : ℕ)
    → (m : Marks) × ((ready g now root ≡ some m)
        × ((length m.array_elements ≤ length g) × All (IsWanted g now root) m.array_elements))
unfolding ready clear_visited
ready-IsWanted g now root =
    let blank : Walking g now root (length g) (clear_visited g) = record {
      size = length-replicate (length g);
      left = omega (arith, unvisited-replicate (length g));
      room = omega (arith, unvisited-replicate (length g));
      wanted = tt;
    } in
    let (m, (e, h)) =
      walk_queue_checks_add-Ends (length g + 1) g now root (length g) root (clear_visited g)
        (omega arith) start blank in
    (m, (e, (omega (arith, h.room), h.wanted)))

-- ===== src/Load/Orphans.antt =====
-- The objects that log_orphans reports.
use sysmon.Base.{ℕ, zero, suc, ◌+◌, ◌<◌, ◌≡◌, ◌↔◌, ◌⊎◌, refl, sym, ap, ◌∙◌, arith}
use sysmon.Base.{Bool, true, false, List, [], ◌∷◌, none, some, inl, inr, In}
use sysmon.Base.{Option-cases, length, get_elem?, replicate}
use mathlib.Core.Path.{subst}
use sysmon.Queue.{Marks, clear_visited, is_visited, is_due, leads_on, walk_queue_checks_add, ready}
use sysmon.Queue.Walk.{Reached, start, next, ready-IsWanted, get_elem?-lt}
use sysmon.Queue.Complete.{ready-visited, length-ready}
use sysmon.Load.{visit_them, unvisited_from, log_orphans}
use sysmon.Load.Visits.{
  up, graph_of, visits, length-graph_of, graph_of-none, graph_of-some, visit_them-walk,
}
use sysmon.Load.Unvisited.{unvisited_from-In}

-- Joined to the root by neighbors.
pub data Connected (neighbors : List (List ℕ)) (root : ℕ) : ℕ → Type 0 where
  here : Connected neighbors root root
  beyond :
      {n : ℕ} (m i : ℕ) (ns : List ℕ)
      → Connected neighbors root m
      → get_elem? neighbors m ≡ some ns
      → get_elem? ns i ≡ some n
      → Connected neighbors root n

Reached-Connected :
    (neighbors : List (List ℕ)) (root : ℕ) {n : ℕ}
    → Reached (graph_of neighbors) root n
    → Connected neighbors root n
Reached-Connected neighbors root start = here
Reached-Connected neighbors root (next m i d ns r e q lead f) =
    beyond m i ns (Reached-Connected neighbors root r)
      (neighbors_at (Option-cases (get_elem? neighbors m))) f
  where
    neighbors_at :
        (get_elem? neighbors m ≡ none) ⊎ ((x : List ℕ) × (get_elem? neighbors m ≡ some x))
        → get_elem? neighbors m ≡ some ns
    neighbors_at (inl g) = absurd (ground (arith, e, graph_of-none neighbors m g))
    neighbors_at (inr (x, g)) =
        let same : x ≡ ns = ground (arith, e, graph_of-some neighbors m x g) in g ∙ ap some same

Connected-Reached :
    (neighbors : List (List ℕ)) (root : ℕ) {n : ℕ}
    → Connected neighbors root n
    → Reached (graph_of neighbors) root n
unfolding leads_on
Connected-Reached neighbors root here = start
Connected-Reached neighbors root (beyond m i ns c e f) =
    next m i up ns (Connected-Reached neighbors root c) (graph_of-some neighbors m ns e) refl refl f

get_elem?-in :
    {A : Type 0} (xs : List A) (i : ℕ) → i < length xs → (x : A) × (get_elem? xs i ≡ some x)
get_elem?-in [] i h = absurd (omega (arith, h))
get_elem?-in (x ∷ xs) zero h = (x, refl)
get_elem?-in (x ∷ xs) (suc i) h = get_elem?-in xs i (omega arith)

visit_them-ready :
    (neighbors : List (List ℕ)) (root : ℕ) (m : Marks)
    → ready (graph_of neighbors) 0 root ≡ some m
    → visit_them (length neighbors + 1) neighbors root (replicate (length neighbors) false)
      ≡ some m.visit
unfolding ready clear_visited
visit_them-ready neighbors root m e =
    visit_them-walk (length neighbors + 1) neighbors root
      (record { visit = replicate (length neighbors) false; array_elements = [] })
    ∙ ap
        (λ (l : ℕ). visits (
          walk_queue_checks_add (l + 1) (graph_of neighbors) 0 root
            (record { visit = replicate l false; array_elements = [] })))
        (sym (length-graph_of neighbors))
    ∙ ap visits e

module _ (neighbors : List (List ℕ)) (root : ℕ) (m : Marks)
    (e : ready (graph_of neighbors) 0 root ≡ some m) where
  visit_size : length m.visit ≡ length neighbors
  visit_size = length-ready (graph_of neighbors) 0 root m e ∙ length-graph_of neighbors

  visited_iff :
      (j : ℕ) → j < length neighbors → (is_visited m j ≡ true) ↔ Connected neighbors root j
  visited_iff j lt =
      let (ns, f) = get_elem?-in neighbors j lt in
      let h =
        ready-visited (graph_of neighbors) 0 root j m up ns e (graph_of-some neighbors j ns f) refl
          (unfold is_due in refl) in
      (
        (λ v. Reached-Connected neighbors root (h.0 v)),
        (λ c. h.1 (Connected-Reached neighbors root c)),
      )

  orphan_sound :
      (i : ℕ)
      → get_elem? m.visit i ≡ some false
      → (i < length neighbors) × (Connected neighbors root i → ⊥)
  orphan_sound i f =
      let lt : i < length neighbors = omega (arith, get_elem?-lt m.visit i false f, visit_size) in
      (lt, λ c. absurd (unfold is_visited in ground (arith, f, (visited_iff i lt).1 c)))

  orphan_complete :
      (j : ℕ)
      → j < length neighbors
      → (Connected neighbors root j → ⊥)
      → get_elem? m.visit j ≡ some false
  orphan_complete j lt apart = decide (get_elem?-in m.visit j (omega (arith, visit_size, lt)))
    where
      decide : (b : Bool) × (get_elem? m.visit j ≡ some b) → get_elem? m.visit j ≡ some false
      decide (false, f) = f
      decide (true, f) = absurd (apart ((visited_iff j lt).0 (unfold is_visited in rw f refl)))

-- log_orphans comes to its end for any graph, cycles included, and reports exactly the objects that are
-- not joined to the root by neighbors.
pub log_orphans-Connected :
    (neighbors : List (List ℕ)) (root : ℕ)
    → (orphans : List ℕ) × ((log_orphans neighbors (some root) ≡ some orphans)
        × ((j : ℕ) → In j orphans ↔ ((j < length neighbors) × (Connected neighbors root j → ⊥))))
log_orphans-Connected neighbors root =
    let (m, (e, r)) = ready-IsWanted (graph_of neighbors) 0 root in
    (
      unvisited_from 0 m.visit,
      (
        logged (visit_them-ready neighbors root m e),
        λ j. (λ x. sound m e j ((unvisited_from-In m.visit 0 j).0 x), λ x. complete m e j x.0 x.1),
      ),
    )
  where
    logged :
        {visit : List Bool}
        → visit_them (length neighbors + 1) neighbors root (replicate (length neighbors) false)
          ≡ some visit
        → log_orphans neighbors (some root) ≡ some (unvisited_from 0 visit)
    logged f = unfold log_orphans in ground (arith, f)

    sound :
        (m : Marks)
        → ready (graph_of neighbors) 0 root ≡ some m
        → (j : ℕ) → (i : ℕ) × ((j ≡ 0 + i) × (get_elem? m.visit i ≡ some false))
        → (j < length neighbors) × (Connected neighbors root j → ⊥)
    sound m e j (i, (at, f)) =
        let same : i ≡ j = omega (arith, at) in
        subst (λ k. (k < length neighbors) × (Connected neighbors root k → ⊥)) same
          (orphan_sound neighbors root m e i f)

    complete :
        (m : Marks)
        → ready (graph_of neighbors) 0 root ≡ some m
        → (j : ℕ) → j < length neighbors
        → (Connected neighbors root j → ⊥)
        → In j (unvisited_from 0 m.visit)
    complete m e j lt apart =
        (unvisited_from-In m.visit 0 j).1
          (j, (omega arith, orphan_complete neighbors root m e j lt apart))

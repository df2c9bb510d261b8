-- ===== src/Load/Visits.antt =====
-- src/loadconfig.c: visit_them, whose walk is that of walk_queue_checks_add over a graph whose objects
-- are all up and due.
use sysmon.Base.{ℕ, zero, suc, ◌≡◌, refl, sym, ap, ◌∙◌, arith}
use sysmon.Base.{Bool, true, false, List, [], ◌∷◌, map, Option, none, some, inl, inr}
use sysmon.Base.{Bool-cases, Option-cases, length, get_elem?, set}
use sysmon.Base.Int.{negsuc}
use sysmon.Queue.{
  Monitored, GraphElement, Graph, Marks, is_visited, leads_on, mark, each, to_visit,
  walk_queue_checks_add,
}
use sysmon.Queue.Walk.{one_visit, no_visit}
use sysmon.Load.{is_marked, visit_each, visit_them}

abbrev pub up : Monitored
up = record {
  svc = record {
    lastcheck = 0;
    totalchecked = 0;
    totaldown = 0;
    downct = 0;
    upct = 0;
    max_down = 0;
    queuetime = 0;
    next_queuetime = 0;
    change_seq = 0;
    contacted = false;
    acked = false;
    lastcontacted = 0;
    contact_when = 0;
    contact = none;
    command = none;
    lastmsgid = none;
    deathtime = 0;
    last_up = 0;
    last_recovery = 0;
  };
  reverse = false;
  queued = false;
  warnlog = false;
  lchecktime = 0;
  pageinterval = negsuc 0;
}

abbrev pub all_up : List ℕ → GraphElement
all_up ns = record { node_data = some up; neighbors = ns }

abbrev pub graph_of : List (List ℕ) → Graph
graph_of neighbors = map all_up neighbors

pub get_elem?-graph_of :
    (neighbors : List (List ℕ)) (i : ℕ)
    → get_elem? (graph_of neighbors) i
      ≡ (elim (get_elem? neighbors i) [ none ↦ none | some ns ↦ some (all_up ns) ])
get_elem?-graph_of [] i = refl
get_elem?-graph_of (ns ∷ neighbors) zero = refl
get_elem?-graph_of (ns ∷ neighbors) (suc i) = get_elem?-graph_of neighbors i

pub length-graph_of : (neighbors : List (List ℕ)) → length (graph_of neighbors) ≡ length neighbors
length-graph_of [] = refl
length-graph_of (ns ∷ neighbors) = ap suc (length-graph_of neighbors)

abbrev pub visits : Option Marks → Option (List Bool)
visits none = none
visits (some m) = some m.visit

visit_each-each :
    (visit_one : ℕ → List Bool → Option (List Bool)) (walk_one : ℕ → Marks → Option Marks)
    → ((n : ℕ) (m : Marks) → visit_one n m.visit ≡ visits (walk_one n m))
    → (ns : List ℕ) (m : Marks) → visit_each visit_one ns m.visit ≡ visits (each walk_one ns m)
unfolding visit_each each
visit_each-each visit_one walk_one same [] m = refl
visit_each-each visit_one walk_one same (n ∷ ns) m = elim (Option-cases (walk_one n m)) [
  | inl e ↦ ground (arith, e, same n m)
  | inr (k, e) ↦ ground (arith, e, same n m, visit_each-each visit_one walk_one same ns k)
]

is_marked-is_visited : (m : Marks) (n : ℕ) → is_marked m.visit n ≡ is_visited m n
unfolding is_marked is_visited
is_marked-is_visited m n = ground arith

module _ (neighbors : List (List ℕ)) (n : ℕ) where
  pub graph_of-none : get_elem? neighbors n ≡ none → get_elem? (graph_of neighbors) n ≡ none
  graph_of-none e = get_elem?-graph_of neighbors n ∙ ground (arith, e)

  pub graph_of-some :
      (ns : List ℕ)
      → get_elem? neighbors n ≡ some ns
      → get_elem? (graph_of neighbors) n ≡ some (all_up ns)
  graph_of-some ns e = get_elem?-graph_of neighbors n ∙ ground (arith, e)

-- Where the walk turns round.
module _ (neighbors : List (List ℕ)) (n : ℕ) (m : Marks) where
  to_visit-none : get_elem? neighbors n ≡ none → to_visit (graph_of neighbors) n m ≡ none
  unfolding to_visit
  to_visit-none e = ground (arith, graph_of-none neighbors n e)

  to_visit_marked : is_marked m.visit n ≡ true → to_visit (graph_of neighbors) n m ≡ none
  unfolding to_visit
  to_visit_marked v = ground (arith, v, is_marked-is_visited m n)

  to_visit-some :
      (ns : List ℕ)
      → get_elem? neighbors n ≡ some ns
      → is_marked m.visit n ≡ false
      → to_visit (graph_of neighbors) n m ≡ some (up, ns)
  unfolding to_visit
  to_visit-some ns e v = ground (arith, graph_of-some neighbors n ns e, v, is_marked-is_visited m n)

  visit_none :
      (fuel : ℕ)
      → get_elem? neighbors n ≡ none
      → visit_them (suc fuel) neighbors n m.visit ≡ some m.visit
  unfolding visit_them
  visit_none fuel e = ground (arith, e)

  visit_marked :
      (fuel : ℕ)
      → is_marked m.visit n ≡ true
      → visit_them (suc fuel) neighbors n m.visit ≡ some m.visit
  unfolding visit_them
  visit_marked fuel v = ground (arith, v)

  visit_some :
      (fuel : ℕ) (ns : List ℕ)
      → get_elem? neighbors n ≡ some ns
      → is_marked m.visit n ≡ false
      → visit_them (suc fuel) neighbors n m.visit
        ≡ visit_each (visit_them fuel neighbors) ns (set m.visit n true)
  unfolding visit_them
  visit_some fuel ns e v = ground (arith, e, v)

  walk_some :
      (fuel : ℕ) (ns : List ℕ)
      → to_visit (graph_of neighbors) n m ≡ some (up, ns)
      → walk_queue_checks_add (suc fuel) (graph_of neighbors) 0 n m
        ≡ each (walk_queue_checks_add fuel (graph_of neighbors) 0) ns (mark 0 n up m)
  walk_some fuel ns e =
      one_visit fuel (graph_of neighbors) 0 n m up ns e ∙ (unfold leads_on in refl)

  mark_visit : (mark 0 n up m).visit ≡ set m.visit n true
  unfolding mark
  mark_visit = refl

pub visit_them-walk :
    (fuel : ℕ) (neighbors : List (List ℕ)) (n : ℕ) (m : Marks)
    → visit_them fuel neighbors n m.visit
      ≡ visits (walk_queue_checks_add fuel (graph_of neighbors) 0 n m)
visit_them-walk zero neighbors n m = unfold visit_them in unfold walk_queue_checks_add in refl
visit_them-walk (suc fuel) neighbors n m = elim (Bool-cases (is_marked m.visit n)) [
  | inl v ↦
      visit_marked neighbors n m fuel v
      ∙ sym (ap visits (no_visit fuel (graph_of neighbors) 0 n m (to_visit_marked neighbors n m v)))
  | inr v ↦ elim (Option-cases (get_elem? neighbors n)) [
    | inl e ↦
        visit_none neighbors n m fuel e
        ∙ sym (ap visits (no_visit fuel (graph_of neighbors) 0 n m (to_visit-none neighbors n m e)))
    | inr (ns, e) ↦
        visit_some neighbors n m fuel ns e v
        ∙ ap (visit_each (visit_them fuel neighbors) ns) (sym (mark_visit neighbors n m))
        ∙ visit_each-each (visit_them fuel neighbors)
            (walk_queue_checks_add fuel (graph_of neighbors) 0) (visit_them-walk fuel neighbors) ns
            (mark 0 n up m)
        ∙ sym (ap visits (walk_some neighbors n m fuel ns (to_visit-some neighbors n m ns e v)))
  ]
]

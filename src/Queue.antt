-- ===== src/Queue.antt =====
-- src/syswatch.c: which objects are due for a check - clear_visited and walk_queue_checks_add. The
-- configuration is a list of objects with their neighbors by index; an index outside the list is a
-- NULL neighbor. The recursion has fuel for its depth, and running out of it is `none`.
mod Tests
pub mod Walk
pub mod Walked
pub mod Marked
pub mod Complete
pub mod Daemon
use sysmon.Base.{ℕ, zero, suc, ◌+◌, Bool, true, false, not, ◌&&◌, ◌||◌, List, [], ◌∷◌, ◌++◌}
use sysmon.Base.{Option, none, some, leb, ◌==◌, if◌then◌else◌, length, get_elem?, set, replicate}
use sysmon.Base.Int.{ℤ}
use sysmon.Outage.{Hostinfo}

-- `struct hostinfo`: what a finished check touches, and what only the queue reads or writes.
pub record Monitored : Type 0 where
  pub svc : Hostinfo
  pub reverse : Bool
  pub queued : Bool
  pub warnlog : Bool
  pub lchecktime : ℕ
  pub pageinterval : ℤ

-- `struct graph_elements`: `node_data` is none for NULL.
pub record GraphElement : Type 0 where
  pub node_data : Option Monitored
  pub neighbors : List ℕ

abbrev pub Graph : Type 0
Graph = List GraphElement

-- The visit marks of all elements, and `array_elements[0..*numele)`.
pub record Marks : Type 0 where
  pub visit : List Bool
  pub array_elements : List ℕ

-- `clear_visited()`, and an empty array.
unfoldable pub clear_visited : Graph → Marks
clear_visited g = record { visit = replicate (length g) false; array_elements = [] }

abbrev is_true : Option Bool → Bool
is_true none = false
is_true (some b) = b

unfoldable pub is_visited : Marks → ℕ → Bool
is_visited m here = is_true (get_elem? m.visit here)

unfoldable pub is_due : ℕ → Monitored → Bool
is_due now d = leb d.svc.next_queuetime now

-- Up, or down if reverse is set.
unfoldable pub leads_on : Monitored → Bool
leads_on d = (d.svc.lastcheck == 0 && not d.reverse) || (not (d.svc.lastcheck == 0) && d.reverse)

-- `here->visit = TRUE`, and the element if it is due.
unfoldable pub mark : ℕ → ℕ → Monitored → Marks → Marks
mark now here d m = record {
  visit = set m.visit here true;
  array_elements = if is_due now d then m.array_elements ++ (here ∷ []) else m.array_elements;
}

-- The loop over the neighbors.
unfoldable pub each : (ℕ → Marks → Option Marks) → List ℕ → Marks → Option Marks
each visit_one [] m = some m
each visit_one (n ∷ ns) m = elim (visit_one n m) [ none ↦ none | some k ↦ each visit_one ns k ]

-- The four early returns: no element, been here, no data, in the queue.
unfoldable pub to_visit : Graph → ℕ → Marks → Option (Monitored × List ℕ)
to_visit g here m = elim (get_elem? g here) [
  | none ↦ none
  | some e ↦ if is_visited m here then none else elim e.node_data [
    | none ↦ none
    | some d ↦ if d.queued then none else some (d, e.neighbors)
  ]
]

unfoldable pub walk_queue_checks_add : ℕ → Graph → ℕ → ℕ → Marks → Option Marks
walk_queue_checks_add zero g now here m = none
walk_queue_checks_add (suc fuel) g now here m = elim (to_visit g here m) [
  | none ↦ some m
  | some (d, neighbors) ↦
      if leads_on d
      then each (walk_queue_checks_add fuel g now) neighbors (mark now here d m)
      else some (mark now here d m)
]

-- What queue_checks_qsort_way sorts and queues, from the configured root.
unfoldable pub ready : Graph → ℕ → ℕ → Option Marks
ready g now root = walk_queue_checks_add (length g + 1) g now root (clear_visited g)

-- ===== src/Queue/Daemon.antt =====
-- src/syswatch.c: the check queue of the daemon - queue_check, q_time_cmp, queue_checks_qsort_way,
-- service_this, service_checks, walk_periodic_page_checks and periodic_page. A pointer to an object is
-- its index in the configuration. qsort is a parameter, and so is what the routines of one kind of
-- check leave in retval, which `Checks` holds.
pub mod Objects
pub mod Sorted
pub mod Fair
pub mod Consistent
pub mod Served
pub mod Results
pub mod Passes
mod Tests
use sysmon.Base.{ℕ, zero, suc, ◌+◌, ◌-◌, Bool, true, false, not, ◌&&◌, ◌||◌, List, [], ◌∷◌, ◌++◌}
use sysmon.Base.{Option, none, some, ltb, leb, ◌==◌, if◌then◌else◌, length, get_elem?, set}
use sysmon.Base.Int.{ℤ, pos, negsuc}
use sysmon.Outage.{Hostinfo, State, Site, Event, handle_retval}
use sysmon.Outage.Periodic.{periodic_page_one}
use sysmon.Queue.{
  Monitored, GraphElement, Graph, Marks, clear_visited, is_visited, leads_on, each, ready,
}

-- `struct monitorent`: the object by its index, whether its check runs, and its result, none for -1.
pub record Monitorent : Type 0 where
  pub checkent : ℕ
  pub started : Bool
  pub retval : Option ℕ

-- The globals.
pub record Daemon : Type 0 where
  pub graph : Graph
  pub queue : List Monitorent
  pub numqueued : ℕ
  pub maxqueued : ℕ
  pub last_queued_at : ℕ
  pub last_queued_warn : Bool
  pub warnlog : Bool
  pub glob_change_seq : ℕ
  pub events : List Event

-- `array[i]->data`
unfoldable pub object_at : Graph → ℕ → Option Monitored
object_at g i = elim (get_elem? g i) [ none ↦ none | some e ↦ e.node_data ]

-- A write through the pointer to the object.
unfoldable pub put_object : Graph → ℕ → Monitored → Graph
put_object g i d = elim (get_elem? g i) [
  | none ↦ g
  | some e ↦ set g i (record e { node_data = some d })
]

abbrev fresh_entry : ℕ → Monitorent
fresh_entry i = record { checkent = i; started = false; retval = none }

-- With `entry` NULL or in the queue it only complains.
unfoldable pub queue_check : ℕ → Daemon → Daemon
unfolding object_at put_object
queue_check i s = elim (object_at s.graph i) [
  | none ↦ s
  | some d ↦ if d.queued then s else record s {
    graph = put_object s.graph i (record d { queued = true; warnlog = false });
    queue = fresh_entry i ∷ s.queue;
    numqueued = s.numqueued + 1;
  }
]

-- By next_queuetime, an element that is NULL or has no data first.
unfoldable pub q_time_cmp : Graph → ℕ → ℕ → ℤ
unfolding object_at
q_time_cmp g a b = elim (object_at g a) [
  | none ↦ elim (object_at g b) [ none ↦ pos 0 | some e ↦ negsuc 0 ]
  | some d ↦ elim (object_at g b) [
    | none ↦ pos 1
    | some e ↦
        if d.svc.next_queuetime == e.svc.next_queuetime
        then pos 0
        else if ltb e.svc.next_queuetime d.svc.next_queuetime
        then pos 1
        else negsuc 0
  ]
]

-- One round of the loop over the sorted list.
unfoldable pub queue_one : ℕ → ℕ → Daemon → Daemon
unfolding queue_check
queue_one now i s =
    if leb s.numqueued s.maxqueued
    then queue_check i (record s { last_queued_at = now; last_queued_warn = false })
    else if ltb (s.last_queued_at + 3) now && (s.warnlog && not s.last_queued_warn)
    then record s { last_queued_warn = true }
    else s

unfoldable pub queue_all : ℕ → List ℕ → Daemon → Daemon
unfolding queue_one
queue_all now [] s = s
queue_all now (i ∷ more) s = queue_all now more (queue_one now i s)

-- `qsort(base, n, size, compar)`
abbrev pub Qsort : Type 0
Qsort = (ℕ → ℕ → ℤ) → List ℕ → List ℕ

-- The root is none where the configuration has none. The result is the seconds to pause.
unfoldable pub queue_checks_qsort_way : Qsort → Option ℕ → ℕ → Daemon → Option (ℕ × Daemon)
unfolding queue_all
queue_checks_qsort_way qsort none now s = some (60, s)
queue_checks_qsort_way qsort (some root) now s = elim (ready s.graph now root) [
  | none ↦ none
  | some m ↦ some (1, queue_all now (qsort (q_time_cmp s.graph) m.array_elements) s)
]

-- What the routines of the kinds of check leave in retval, by the object: none for a check that is
-- not finished.
pub record Checks : Type 0 where
  pub start_test : ℕ → Option ℕ
  pub service_test : ℕ → Option ℕ

unfoldable pub start_unless : Checks → Monitorent → Monitorent
start_unless c here =
    if here.started
    then here
    else record here { retval = c.start_test here.checkent; started = true }

-- Two tests of `started`, one after the other.
unfoldable pub service_this : Checks → Monitorent → Monitorent
unfolding start_unless
service_this c here =
    start_unless c
      (if here.started then record here { retval = c.service_test here.checkent } else here)

-- The entry's object after its check, with the counters and the events.
unfoldable pub finish_check : Site → ℕ → ℕ → ℕ → Monitored → Daemon → Daemon
finish_check w now i retval d s =
    let after =
      handle_retval w now retval
        (record { svc = d.svc; glob_change_seq = s.glob_change_seq; events = s.events }) in
    record s {
      graph = put_object s.graph i (record d { svc = after.svc; queued = false; lchecktime = now });
      numqueued = s.numqueued - 1;
      glob_change_seq = after.glob_change_seq;
      events = after.events;
    }

-- The loop of service_checks, with the entries that stay in the queue; none is a NULL dereference.
unfoldable pub service_loop :
    Checks → Site → ℕ → List Monitorent → Daemon → Option (List Monitorent × Daemon)
unfolding service_this finish_check
service_loop c w now [] s = some ([], s)
service_loop c w now (here ∷ more) s = elim here.retval [
  | none ↦ elim (service_loop c w now more s) [
    | none ↦ none
    | some (kept, t) ↦ some (service_this c here ∷ kept, t)
  ]
  | some retval ↦ elim (object_at s.graph here.checkent) [
    | none ↦ none
    | some d ↦ service_loop c w now more (finish_check w now here.checkent retval d s)
  ]
]

unfoldable pub service_checks : Checks → Site → ℕ → Daemon → Option Daemon
unfolding service_loop
service_checks c w now s = elim (service_loop c w now s.queue s) [
  | none ↦ none
  | some (kept, t) ↦ some (record t { queue = kept })
]

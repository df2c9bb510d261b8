-- ===== src/Queue/Tests.antt =====
-- The walk of src/syswatch.c over a root that is up and a router that is down, in a cycle.
use sysmon.Base.{ℕ, false, [], ◌∷◌, some}
use sysmon.Base.{none}
use sysmon.Base.Int.{negsuc}
use sysmon.Base.Text.{codes}
use sysmon.Outage.{Hostinfo}
use sysmon.Queue.{Monitored, Graph}

abbrev pub blank : Hostinfo
blank = record {
  lastcheck = 0;
  totalchecked = 0;
  totaldown = 0;
  downct = 0;
  upct = 0;
  max_down = 1;
  queuetime = 60;
  next_queuetime = 0;
  change_seq = 0;
  contacted = false;
  acked = false;
  lastcontacted = 0;
  contact_when = 1;
  contact = some (codes "noc");
  command = none;
  lastmsgid = none;
  deathtime = 0;
  last_up = 0;
  last_recovery = 0;
}

abbrev pub object : ℕ → ℕ → Monitored
object lastcheck next_queuetime = record {
  svc = record blank { lastcheck = lastcheck; next_queuetime = next_queuetime };
  reverse = false;
  queued = false;
  warnlog = false;
  lchecktime = 0;
  pageinterval = negsuc 0;
}

abbrev pub network : Graph
network =
    record { node_data = some (object 0 50); neighbors = 1 ∷ [] }
    ∷ record { node_data = some (object 6 90); neighbors = 0 ∷ 2 ∷ [] }
    ∷ record { node_data = some (object 0 10); neighbors = [] }
    ∷ []

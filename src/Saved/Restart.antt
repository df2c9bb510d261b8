-- ===== src/Saved/Restart.antt =====
-- The state file and the notices together: a restart in the middle of an outage.
use sysmon.Base.{[]}
use sysmon.Base.Int.{pos_part}
use sysmon.Base.Text.{Text}
use sysmon.Outage.{Hostinfo, State}
use sysmon.Saved.{Runtime}

-- The object of `struct hostinfo` with the runtime that its element has; the rest is the
-- configuration's.
unfoldable pub with_runtime : Runtime → Hostinfo → Hostinfo
with_runtime d svc = record svc {
  lastcheck = d.lastcheck;
  downct = d.downct;
  upct = d.upct;
  totalchecked = d.totalchecked;
  totaldown = d.totaldown;
  contacted = d.contacted;
  acked = d.acked;
  lastcontacted = pos_part d.lastcontacted;
  deathtime = pos_part d.deathtime;
  last_up = pos_part d.last_up;
  last_recovery = pos_part d.last_recovery;
}

-- A daemon that has just started, with no event yet.
unfoldable pub started : Runtime → Hostinfo → State
unfolding with_runtime
started d svc = record { svc = with_runtime d svc; glob_change_seq = 0; events = [] }

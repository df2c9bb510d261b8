-- ===== src/Outage/Tests.antt =====
-- The theorems on src/syswatch.c's handle_retval at an object that is up and then stops answering.
use sysmon.Base.{
  ℕ, ◌≤◌, ◌≡◌, refl, arith, true, false, List, [], ◌∷◌, none, some, suc, leb, if◌then◌else◌,
}
use sysmon.Base.Text.{codes}
use sysmon.Outage.{Hostinfo, State, Site, handle_retval, wants}
use sysmon.Outage.Course.{course, next_course, handle_retval-next_course}
use sysmon.Base.{◌==◌, ◌+◌}
use sysmon.Outage.Recovery.{handle_retval-acked, handle_retval_tells_twice}
use sysmon.Outage.Notices.{notices, Check, run, run_one_notice}
use sysmon.Outage.Notices.Due.{CanTell, run_due}

abbrev site : Site
site = record {
  donotify = true;
  user_known = true;
  mailer_opens = true;
  clock = 1000;
  msgid = codes "m1";
}

abbrev router : Hostinfo
router = record {
  lastcheck = 0;
  totalchecked = 5;
  totaldown = 0;
  downct = 0;
  upct = 5;
  max_down = 2;
  queuetime = 60;
  next_queuetime = 0;
  change_seq = 0;
  contacted = false;
  acked = false;
  lastcontacted = 0;
  contact_when = 3;
  contact = some (codes "noc");
  command = none;
  lastmsgid = none;
  deathtime = 0;
  last_up = 0;
  last_recovery = 0;
}

abbrev router_up : State
router_up = record { svc = router; glob_change_seq = 9; events = [] }

abbrev unpingable : ℕ → Check
unpingable now = record { site = site; now = now; retval = 6 }

abbrev two_failures : List Check
two_failures = unpingable 100 ∷ unpingable 160 ∷ []

handle_retval-next_course_example :
    course (handle_retval site 100 6 router_up).svc ≡ next_course 100 6 (course router_up.svc)
handle_retval-next_course_example = handle_retval-next_course site 100 6 router_up

run-one_notice_example :
    notices (run two_failures router_up).events ≤ suc (notices router_up.events)
run-one_notice_example =
    run_one_notice two_failures router_up ((λ e. omega arith), ((λ e. omega arith), tt)) refl

can_tell : CanTell site
can_tell = record { donotify = refl; user_known = refl; mailer_opens = refl }

run-due_example :
    (notices (run two_failures router_up).events
      ≡ (if leb 2 2 then suc (notices router_up.events) else notices router_up.events))
    × ((run two_failures router_up).svc.contacted ≡ leb 2 2)
unfolding wants
run-due_example =
    run_due 6 (unpingable 100) (unpingable 160 ∷ []) router_up (λ e. omega arith) (omega arith)
      ((can_tell, refl), ((can_tell, refl), tt)) (record { contact = refl; wanted = refl }) refl
      refl

abbrev printer_down : State
printer_down = record {
  svc = record router {
    lastcheck = 6;
    contacted = true;
    contact_when = 2;
    max_down = 1;
    upct = 0;
    acked = true;
  };
  glob_change_seq = 9;
  events = [];
}

handle_retval-acked_example :
    (handle_retval site 100 0 printer_down).svc.acked ≡ (if 0 == 0 then false else true)
handle_retval-acked_example = handle_retval-acked site 100 0 printer_down

handle_retval_tells_twice_example :
    notices (handle_retval site 100 0 printer_down).events ≡ notices printer_down.events + 2
handle_retval_tells_twice_example =
    handle_retval_tells_twice site 100 printer_down can_tell
      (record { contact = refl; wanted = refl }) refl (λ e. omega arith) (omega arith) (omega arith)

abbrev router_told : State
router_told = record {
  svc = record router { lastcheck = 6; contacted = true; lastcontacted = 100 };
  glob_change_seq = 9;
  events = [];
}

abbrev site_at : ℕ → Site
site_at now = record site { clock = now }

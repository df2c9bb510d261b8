-- ===== src/Saved/Tests.antt =====
-- A state file of two elements, and a daemon that starts from it.
use sysmon.Base.{◌≡◌, ◌↔◌, refl, arith, true, false, List, [], ◌∷◌, ◌++◌, map}
use sysmon.Base.{none, some, All}
use sysmon.Base.Int.{pos}
use sysmon.Base.Text.{Text, codes, str_eq, skip_space, read_digits, scan_number, strtoul}
use sysmon.Outage.{Hostinfo, Site}
use sysmon.Outage.Notices.{Check}
use sysmon.Saved.{
  Runtime, Element, write_state, read_upto, fgets, split_at, cut_newline, skip_blanks, value_of,
  next_pair, assign, read_pairs, read_entry, keep_named, read_lines, strip, converted, scan_header,
  is_stale, after_header, read_header, read_state, restore, restore_first, restore_element,
  load_state, checkpoint_state,
}
use sysmon.Saved.Pairs.{lacks}
use sysmon.Saved.Line.{Fits}
use sysmon.Saved.Lines.{IsStorable}
use sysmon.Saved.RoundTrip.{saved_for, restarted, load_state-write_state}
use sysmon.Saved.Defined.{read_entry-none}
use sysmon.Saved.Checkpoint.{pass, passes}

abbrev fresh : Runtime
fresh = record {
  lastcheck = 0;
  downct = 0;
  upct = 0;
  totalchecked = 0;
  totaldown = 0;
  contacted = false;
  acked = false;
  lastcontacted = pos 0;
  deathtime = pos 0;
  last_up = pos 0;
  last_recovery = pos 0;
}

abbrev down : Runtime
down = record fresh { lastcheck = 6; downct = 4; contacted = true; deathtime = pos 900 }

abbrev element : Text → Runtime → Element
element n d = record { unique_name = some n; runtime = some d }

abbrev before_restart : List Element
before_restart = element (codes "core router") down ∷ element (codes "web") fresh ∷ []

abbrev after_restart : List Element
after_restart = element (codes "new") fresh ∷ element (codes "core router") fresh ∷ []

abbrev path : Text
path = codes "/var/db/sysmon"

before_restart-IsStorable : All IsStorable before_restart
unfolding lacks
before_restart-IsStorable = (
  (record { one_line = refl; short = omega arith }, down-Fits),
  ((record { one_line = refl; short = omega arith }, fresh-Fits), tt),
)
  where
    fresh-Fits : Fits fresh
    fresh-Fits = record {
      lastcheck = omega arith;
      downct = omega arith;
      upct = omega arith;
      totalchecked = omega arith;
      totaldown = omega arith;
      lastcontacted = omega arith;
      deathtime = omega arith;
      last_up = omega arith;
      last_recovery = omega arith;
    }

    down-Fits : Fits down
    down-Fits = record {
      lastcheck = omega arith;
      downct = omega arith;
      upct = omega arith;
      totalchecked = omega arith;
      totaldown = omega arith;
      lastcontacted = omega arith;
      deathtime = omega arith;
      last_up = omega arith;
      last_recovery = omega arith;
    }

load_state-write_state_example :
    load_state path
      (pos 2000)
      (write_state
        (record { opens = true; closes = true; renames = true })
        path
        (pos 1000)
        before_restart
        none).1
      after_restart
    ≡ some (map (restarted before_restart) after_restart)
load_state-write_state_example =
    load_state-write_state path none (pos 2000) (pos 1000) before_restart after_restart refl
      (omega arith) (omega arith) before_restart-IsStorable (omega arith)

restored_core :
    map (restarted before_restart) after_restart
    ≡ element (codes "new") fresh ∷ element (codes "core router") down ∷ []
unfolding restarted saved_for str_eq
restored_core = refl

-- A line of an older daemon, with an unknown key: only what it carries is put back.
older_line :
    load_state path
      (pos 2000)
      (some (
        codes "sysmon-state 1 1000 1"
        ++ (b'\n' ∷ (codes "downct=7 mood=3 name=core router" ++ (b'\n' ∷ [])))))
      after_restart
    ≡ some (
        element (codes "new") fresh
        ∷ element (codes "core router") (record fresh { downct = 7 })
        ∷ [])
unfolding load_state read_state read_header after_header is_stale scan_header strip converted
    scan_number skip_space read_digits fgets read_upto cut_newline split_at read_lines read_entry
    read_pairs next_pair value_of skip_blanks assign str_eq strtoul keep_named restore_element
    restore_first restore
older_line = refl

-- Thirteen hours old.
too_old :
    load_state path
      (pos 47800)
      (some (codes "sysmon-state 1 1000 1" ++ (b'\n' ∷ codes "downct=7 name=new")))
      after_restart
    ≡ some after_restart
unfolding load_state read_state read_header after_header is_stale scan_header strip converted
    scan_number skip_space read_digits fgets read_upto split_at restore_element restore_first
too_old = refl

read_entry-none_example :
    (read_entry (codes "downct") ≡ none) ↔ (lacks b'=' (codes "downct") ≡ true)
read_entry-none_example = read_entry-none (codes "downct")

one_call : (passes path (2000 ∷ 1610 ∷ 1500 ∷ 1000 ∷ [])).written ≡ 1610 ∷ []
unfolding passes pass checkpoint_state
one_call = refl

abbrev site : Site
site = record {
  donotify = true;
  user_known = true;
  mailer_opens = true;
  clock = 2100;
  msgid = codes "m";
}

abbrev configured : Hostinfo
configured = record {
  lastcheck = 0;
  totalchecked = 0;
  totaldown = 0;
  downct = 0;
  upct = 0;
  max_down = 2;
  queuetime = 60;
  next_queuetime = 0;
  change_seq = 0;
  contacted = false;
  acked = false;
  lastcontacted = 0;
  contact_when = 3;
  contact = some (codes "noc");
  command = none;
  lastmsgid = none;
  deathtime = 0;
  last_up = 0;
  last_recovery = 0;
}

abbrev still_failing : List Check
still_failing =
    record { site = site; now = 2100; retval = 6 }
    ∷ record { site = site; now = 2200; retval = 6 }
    ∷ []

-- ===== src/Outage.antt =====
-- src/syswatch.c and src/page.c: what a finished check does to its object - handle_retval - and
-- the notice it sends - page_someone. `Site` is what a run reads from outside them: the daemon's
-- `donotify`, the answers of getpwuid, popen and time, and the message id that gen_msgid draws.
-- What they write beside the object is a list of events, the newest first.
mod Tests
pub mod Course
pub mod Notices
pub mod Recovery
pub mod Periodic
use sysmon.Base.{ℕ, zero, suc, ◌+◌, ◌*◌, ◌-◌, ◌/◌, ◌%◌, ◌^◌, Bool, true, false, not, ◌&&◌, ◌||◌}
use sysmon.Base.{List, [], ◌∷◌, Option, none, some, ltb, leb, ◌==◌, if◌then◌else◌}
use sysmon.Base.Text.{Text, is_empty}
use sysmon.Base.Words.{u64_mod}

abbrev pub sysm_ok : ℕ
sysm_ok = 0

abbrev pub contact_down : ℕ
contact_down = 1

abbrev pub contact_up : ℕ
contact_up = 2

-- The fields of `struct hostinfo` that the two functions read or write. Times are seconds.
pub record Hostinfo : Type 0 where
  pub lastcheck : ℕ
  pub totalchecked : ℕ
  pub totaldown : ℕ
  pub downct : ℕ
  pub upct : ℕ
  pub max_down : ℕ
  pub queuetime : ℕ
  pub next_queuetime : ℕ
  pub change_seq : ℕ
  pub contacted : Bool
  pub acked : Bool
  pub lastcontacted : ℕ
  pub contact_when : ℕ
  pub contact : Option Text
  pub command : Option Text
  pub lastmsgid : Option Text
  pub deathtime : ℕ
  pub last_up : ℕ
  pub last_recovery : ℕ

pub data Event : Type 0 where
  state_change : ℕ → ℕ → Event
  message_logged : ℕ → Event
  command_run : ℕ → Event
  mail_sent : ℕ → ℕ → Option Text → Event

pub record State : Type 0 where
  pub svc : Hostinfo
  pub glob_change_seq : ℕ
  pub events : List Event

pub record Site : Type 0 where
  pub donotify : Bool
  pub user_known : Bool
  pub mailer_opens : Bool
  pub clock : ℕ
  pub msgid : Text

unfoldable pub object_changed : State → State
object_changed s = record s {
  svc = record (s.svc) { change_seq = (s.glob_change_seq + 1) % u64_mod };
  glob_change_seq = (s.glob_change_seq + 1) % u64_mod;
}

-- `contact_when & newstate`, where newstate is one bit.
unfoldable pub wants : ℕ → ℕ → Bool
wants contact_when newstate = leb 1 ((contact_when / newstate) % 2)

abbrev pub is_missing : Option Text → Bool
is_missing none = true
is_missing (some s) = is_empty s

abbrev pub is_given : Option Text → Bool
is_given none = false
is_given (some s) = true

unfoldable pub emit : Event → State → State
emit e s = record s { events = e ∷ s.events }

-- `svc->contacted = TRUE; object_changed(svc)`
unfoldable pub set_contacted : State → State
unfolding object_changed
set_contacted s = object_changed (record s { svc = record (s.svc) { contacted = true } })

-- `time(&svc->lastcontacted)` before it.
unfoldable pub note_contact : Site → State → State
unfolding set_contacted
note_contact w s = set_contacted (record s { svc = record (s.svc) { lastcontacted = w.clock } })

-- The message to sendmail, which answers the one before it in the same thread.
unfoldable pub send_mail : Site → ℕ → State → State
unfolding emit
send_mail w newstate s =
    emit (mail_sent newstate s.svc.lastcheck s.svc.lastmsgid)
      (record s { svc = record (s.svc) { lastmsgid = some w.msgid } })

-- From `if (donotify && (svc->contact_when & newstate))` on.
unfoldable pub mail_contact : Site → ℕ → State → State
mail_contact w newstate s =
    if w.donotify && wants s.svc.contact_when newstate
    then (if w.user_known
        then (if w.mailer_opens then send_mail w newstate (note_contact w s) else note_contact w s)
        else s)
    else s

unfoldable pub page_someone : Site → ℕ → State → State
page_someone w newstate s =
    let logged = emit (message_logged newstate) s in
    if is_given s.svc.command && (w.donotify && wants s.svc.contact_when newstate)
    then note_contact w (emit (command_run newstate) logged)
    else (if is_missing s.svc.contact then set_contacted logged else mail_contact w newstate logged)

-- `totalchecked++`, the next time to queue, and the news of a change for the clients.
unfoldable pub count_check : ℕ → ℕ → State → State
count_check now retval s =
    let counted = record s {
      svc = record (s.svc) {
        totalchecked = (s.svc.totalchecked + 1) % u64_mod;
        next_queuetime = now + s.svc.queuetime;
      };
    } in
    if retval == s.svc.lastcheck
    then counted
    else object_changed (emit (state_change s.svc.lastcheck retval) counted)

unfoldable pub end_outage : ℕ → State → State
end_outage now s = record s {
  svc = record (s.svc) { last_up = now; last_recovery = now; contacted = false };
}

-- "check to see if the service came up"
unfoldable pub came_up : Site → ℕ → ℕ → State → State
came_up w now retval s =
    if retval == sysm_ok && (s.svc.contacted && not (s.svc.lastcheck == sysm_ok))
    then (let up = record s { svc = record (s.svc) { lastcheck = retval } } in
        end_outage now (
          if w.donotify && wants s.svc.contact_when contact_up
          then page_someone w contact_up up
          else up))
    else s

-- The test before both pages for a service that is down.
unfoldable pub page_down_due : Hostinfo → Bool
page_down_due svc =
    leb svc.max_down svc.downct && (not svc.contacted && wants svc.contact_when contact_down)

unfoldable pub page_if_down_due : Site → State → State
page_if_down_due w s = if page_down_due s.svc then page_someone w contact_down s else s

-- "if service is down, and state is same as last time"
unfoldable pub still_down : Site → ℕ → State → State
still_down w retval s =
    if not (retval == sysm_ok) && (s.svc.lastcheck == retval)
    then page_if_down_due w (record s {
      svc = record (s.svc) {
        downct = (s.svc.downct + 1) % u64_mod;
        totaldown = (s.svc.totaldown + 1) % u64_mod;
      };
    })
    else s

-- "state changed"
unfoldable pub state_changed : Site → ℕ → ℕ → State → State
state_changed w now retval s =
    if retval == s.svc.lastcheck
    then s
    else (if retval == sysm_ok
        then record s { svc = record (s.svc) { upct = 0; lastcheck = retval; downct = 0 } }
        else page_if_down_due w (record s {
          svc = record (s.svc) {
            upct = 0;
            lastcheck = retval;
            downct = 1;
            totaldown = (s.svc.totaldown + 1) % u64_mod;
            deathtime =
                (if s.svc.lastcheck == sysm_ok || (s.svc.deathtime == 0)
                  then now
                  else s.svc.deathtime);
          };
        }))

unfoldable pub clear_ack : State → State
clear_ack s =
    if s.svc.acked then object_changed (record s { svc = record (s.svc) { acked = false } }) else s

unfoldable pub page_up_due : Hostinfo → Bool
page_up_due svc =
    leb svc.max_down svc.upct && (not svc.contacted && (svc.contact_when == contact_up))

-- "If we came up, clear this counter"
unfoldable pub is_up : Site → ℕ → State → State
is_up w retval s =
    if retval == sysm_ok
    then (let cleared =
          clear_ack
            (record s { svc = record (s.svc) { upct = (s.svc.upct + 1) % u64_mod; downct = 0 } }) in
        if page_up_due cleared.svc then page_someone w contact_up cleared else cleared)
    else s

unfoldable pub handle_retval : Site → ℕ → ℕ → State → State
handle_retval w now retval s = is_up w retval (
    state_changed w now retval
      (still_down w retval (came_up w now retval (count_check now retval s))))

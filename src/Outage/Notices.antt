-- ===== src/Outage/Notices.antt =====
-- The notices of handle_retval and page_someone: how many an outage sends, and when.
pub mod Due
pub mod Told
use sysmon.Base.{ℕ, zero, suc, ◌+◌, ◌%◌, ◌^◌, ◌≤◌, ◌≡◌, ◌≢◌, refl, sym, ap, ◌∙◌, arith}
use sysmon.Base.{
  Bool, true, false, not, ◌&&◌, ◌||◌, List, [], ◌∷◌, All, inl, inr, ◌⊎◌, Option, none, some,
}
use sysmon.Base.{ltb, leb, ◌==◌, if◌then◌else◌, if_both, Bool-cases}
use sysmon.Outage.{
  Hostinfo, State, Site, Event, page_someone, mail_contact, note_contact, set_contacted,
  object_changed, send_mail, emit, count_check, came_up, end_outage, still_down, state_changed,
  page_if_down_due, is_up, clear_ack, handle_retval, page_down_due, contact_down, contact_up, wants,
  is_given, is_missing,
}
use sysmon.Outage.Course.{Keeps, page_someone-Keeps}

-- The notices among the events: mails, and runs of the object's command.
unfoldable pub notices : List Event → ℕ
notices [] = 0
notices (Event.mail_sent n l m ∷ es) = suc (notices es)
notices (Event.command_run n ∷ es) = suc (notices es)
notices (Event.state_change a b ∷ es) = notices es
notices (Event.message_logged n ∷ es) = notices es

-- Nobody has been told of the outage yet, or they were told once.
pub record ToldOnce (before : ℕ) (s : State) : Type 0 where
  pub untold : s.svc.contacted ≡ false → notices s.events ≡ before
  pub told : notices s.events ≤ suc before

page_someone-notices :
    (w : Site) (newstate : ℕ) (s : State)
    → (notices (page_someone w newstate s).events ≤ suc (notices s.events))
      × ((page_someone w newstate s).svc.contacted ≡ false
          → notices (page_someone w newstate s).events ≡ notices s.events)
unfolding page_someone mail_contact note_contact set_contacted object_changed send_mail emit notices
page_someone-notices w newstate s = (ground arith, ground arith)

pub count_check-notices :
    (now retval : ℕ) (s : State)
    → (notices (count_check now retval s).events ≡ notices s.events)
      × ((count_check now retval s).svc.contacted ≡ s.svc.contacted)
unfolding count_check object_changed emit notices
count_check-notices now retval s = (ground arith, ground arith)

page_if_down_due-ToldOnce :
    (w : Site) (before : ℕ) (s : State) → ToldOnce before s → ToldOnce before (page_if_down_due w s)
unfolding page_if_down_due page_down_due
page_if_down_due-ToldOnce w before s h = record {
  untold = grind (arith, page_someone-notices w contact_down s, h.untold, h.told);
  told = grind (arith, page_someone-notices w contact_down s, h.untold, h.told);
}

still_down-ToldOnce :
    (w : Site) (before retval : ℕ) (s : State)
    → ToldOnce before s
    → ToldOnce before (still_down w retval s)
unfolding still_down
still_down-ToldOnce w before retval s h =
    if_both (ToldOnce before) (not (retval == 0) && (s.svc.lastcheck == retval))
      (page_if_down_due-ToldOnce w before _ (record { untold = h.untold; told = h.told })) h

state_changed-ToldOnce :
    (w : Site) (before now retval : ℕ) (s : State)
    → retval ≢ 0
    → ToldOnce before s
    → ToldOnce before (state_changed w now retval s)
unfolding state_changed
state_changed-ToldOnce w before now retval s bad h =
    if_both (ToldOnce before) (retval == s.svc.lastcheck) h (
      if_both (ToldOnce before) (retval == 0) (record { untold = h.untold; told = h.told })
        (page_if_down_due-ToldOnce w before _ (record { untold = h.untold; told = h.told })))

pub came_up-failing :
    (w : Site) (now retval : ℕ) (s : State) → retval ≢ 0 → came_up w now retval s ≡ s
unfolding came_up
came_up-failing w now retval s bad = ground arith

pub is_up-failing : (w : Site) (retval : ℕ) (s : State) → retval ≢ 0 → is_up w retval s ≡ s
unfolding is_up
is_up-failing w retval s bad = ground arith

count_check-ToldOnce :
    (before now retval : ℕ) (s : State)
    → ToldOnce before s
    → ToldOnce before (count_check now retval s)
count_check-ToldOnce before now retval s h = record {
  untold = grind (arith, count_check-notices now retval s, h.untold);
  told = grind (arith, count_check-notices now retval s, h.told);
}

-- One failing check more.
pub handle_retval-ToldOnce :
    (w : Site) (before now retval : ℕ) (s : State)
    → retval ≢ 0
    → ToldOnce before s
    → ToldOnce before (handle_retval w now retval s)
unfolding handle_retval
handle_retval-ToldOnce w before now retval s bad h =
    rw (is_up-failing w retval _ bad, came_up-failing w now retval (count_check now retval s) bad)
      (state_changed-ToldOnce w before now retval _ bad
        (still_down-ToldOnce w before retval _ (count_check-ToldOnce before now retval s h)))

-- A check that came back: where, when and with what.
pub record Check : Type 0 where
  pub site : Site
  pub now : ℕ
  pub retval : ℕ

-- The checks of one object, the first one first.
unfoldable pub run : List Check → State → State
run [] s = s
run (c ∷ cs) s = run cs (handle_retval c.site c.now c.retval s)

run-ToldOnce :
    (before : ℕ) (cs : List Check) (s : State)
    → All (λ c. c.retval ≢ 0) cs
    → ToldOnce before s
    → ToldOnce before (run cs s)
unfolding run
run-ToldOnce before [] s bad h = h
run-ToldOnce before (c ∷ cs) s (b, bad) h =
    run-ToldOnce before cs (handle_retval c.site c.now c.retval s) bad
      (handle_retval-ToldOnce c.site before c.now c.retval s b h)

-- From an object that nobody has been told of, failing checks send at most one notice, however
-- many they are, however their failures change, and whatever the sites answer.
pub run_one_notice :
    (cs : List Check) (s : State)
    → All (λ c. c.retval ≢ 0) cs
    → s.svc.contacted ≡ false
    → notices (run cs s).events ≤ suc (notices s.events)
run_one_notice cs s bad quiet =
    (run-ToldOnce (notices s.events) cs s bad
      (record { untold = λ e. refl; told = omega arith })).told

-- ===== src/Outage/Course.antt =====
-- The outage clock of handle_retval: which failure an object is in, since when, and how often in
-- a row that failure was seen.
use sysmon.Base.{ℕ, ◌+◌, ◌%◌, ◌≡◌, refl, arith}
use sysmon.Base.{not, ◌&&◌, ◌||◌, inl, inr, ◌⊎◌}
use sysmon.Base.{◌==◌, if◌then◌else◌, Bool-cases}
use sysmon.Base.Words.{u64_mod}
use sysmon.Outage.{
  Hostinfo, State, Site, page_someone, mail_contact, note_contact, set_contacted, object_changed,
  send_mail, emit, count_check, came_up, end_outage, still_down, state_changed, page_if_down_due,
  is_up, clear_ack, handle_retval, page_down_due, contact_down,
}

pub data Course : Type 0 where
  up : Course
  down : ℕ → ℕ → ℕ → Course

unfoldable pub course : Hostinfo → Course
course svc = if svc.lastcheck == 0 then up else down svc.lastcheck svc.deathtime svc.downct

-- A failure that is like the one before is one more of it; another failure is the same outage and
-- keeps its start; the first good answer ends it.
unfoldable pub next_course : ℕ → ℕ → Course → Course
next_course now retval up = if retval == 0 then up else down retval now 1
next_course now retval (down kind since seen) =
    if retval == 0
    then up
    else (if kind == retval
        then down kind since ((seen + 1) % u64_mod)
        else down retval (if since == 0 then now else since) 1)

-- What a notice leaves alone.
pub record Keeps (s t : State) : Type 0 where
  pub lastcheck : t.svc.lastcheck ≡ s.svc.lastcheck
  pub downct : t.svc.downct ≡ s.svc.downct
  pub deathtime : t.svc.deathtime ≡ s.svc.deathtime
  pub upct : t.svc.upct ≡ s.svc.upct
  pub max_down : t.svc.max_down ≡ s.svc.max_down
  pub acked : t.svc.acked ≡ s.svc.acked
  pub contact_when : t.svc.contact_when ≡ s.svc.contact_when
  pub contact : t.svc.contact ≡ s.svc.contact
  pub command : t.svc.command ≡ s.svc.command

pub page_someone-Keeps : (w : Site) (newstate : ℕ) (s : State) → Keeps s (page_someone w newstate s)
unfolding page_someone mail_contact note_contact set_contacted object_changed send_mail emit
page_someone-Keeps w newstate s = record {
  lastcheck = ground arith;
  downct = ground arith;
  deathtime = ground arith;
  upct = ground arith;
  max_down = ground arith;
  acked = ground arith;
  contact_when = ground arith;
  contact = ground arith;
  command = ground arith;
}

pub page_if_down_due-Keeps : (w : Site) (s : State) → Keeps s (page_if_down_due w s)
unfolding page_if_down_due
page_if_down_due-Keeps w s = elim (Bool-cases (page_down_due s.svc)) [
  | inl e ↦ rw e (page_someone-Keeps w contact_down s)
  | inr e ↦ rw e (record {
    lastcheck = refl;
    downct = refl;
    deathtime = refl;
    upct = refl;
    max_down = refl;
    acked = refl;
    contact_when = refl;
    contact = refl;
    command = refl;
  })
]

pub count_check-Keeps : (now retval : ℕ) (s : State) → Keeps s (count_check now retval s)
unfolding count_check object_changed emit
count_check-Keeps now retval s = record {
  lastcheck = ground arith;
  downct = ground arith;
  deathtime = ground arith;
  upct = ground arith;
  max_down = ground arith;
  acked = ground arith;
  contact_when = ground arith;
  contact = ground arith;
  command = ground arith;
}

-- A part of handle_retval that is the rest of the code's work on the clock, the paging aside.
came_up-course :
    (w : Site) (now retval : ℕ) (s : State)
    → ((came_up w now retval s).svc.downct ≡ s.svc.downct)
      × ((came_up w now retval s).svc.deathtime ≡ s.svc.deathtime)
      × ((came_up w now retval s).svc.lastcheck ≡ s.svc.lastcheck
          ⊎ ((retval ≡ 0) × ((came_up w now retval s).svc.lastcheck ≡ 0)))
unfolding came_up end_outage
came_up-course w now retval s = (
  grind (arith, page_someone-Keeps),
  grind (arith, page_someone-Keeps),
  grind (arith, page_someone-Keeps),
)

still_down-course :
    (w : Site) (retval : ℕ) (s : State)
    → ((still_down w retval s).svc.lastcheck ≡ s.svc.lastcheck)
      × ((still_down w retval s).svc.deathtime ≡ s.svc.deathtime)
      × ((still_down w retval s).svc.downct ≡ (
          if not (retval == 0) && (s.svc.lastcheck == retval)
          then (s.svc.downct + 1) % u64_mod
          else s.svc.downct))
unfolding still_down
still_down-course w retval s = (
  grind (arith, page_if_down_due-Keeps),
  grind (arith, page_if_down_due-Keeps),
  grind (arith, page_if_down_due-Keeps),
)

state_changed-course :
    (w : Site) (now retval : ℕ) (s : State)
    → ((state_changed w now retval s).svc.lastcheck ≡ retval)
      × ((state_changed w now retval s).svc.deathtime ≡ (
          if not (retval == 0)
            && not (s.svc.lastcheck == retval)
            && (s.svc.lastcheck == 0 || (s.svc.deathtime == 0))
          then now
          else s.svc.deathtime))
      × ((state_changed w now retval s).svc.downct
          ≡ (if retval == s.svc.lastcheck then s.svc.downct else (if retval == 0 then 0 else 1)))
unfolding state_changed
state_changed-course w now retval s = (
  grind (arith, page_if_down_due-Keeps),
  grind (arith, page_if_down_due-Keeps),
  grind (arith, page_if_down_due-Keeps),
)

is_up-course :
    (w : Site) (retval : ℕ) (s : State)
    → ((is_up w retval s).svc.lastcheck ≡ s.svc.lastcheck)
      × ((is_up w retval s).svc.deathtime ≡ s.svc.deathtime)
      × ((is_up w retval s).svc.downct ≡ (if retval == 0 then 0 else s.svc.downct))
unfolding is_up clear_ack object_changed
is_up-course w retval s = (
  grind (arith, page_someone-Keeps),
  grind (arith, page_someone-Keeps),
  grind (arith, page_someone-Keeps),
)

-- The outage clock of an object - up, or down with which failure, since when and how often seen -
-- takes the step that `next_course` describes: a good check ends the outage, the same failure is
-- counted modulo 2 ^ 64, and another failure starts the count again and keeps the time.
pub handle_retval-next_course :
    (w : Site) (now retval : ℕ) (s : State)
    → course (handle_retval w now retval s).svc ≡ next_course now retval (course s.svc)
unfolding handle_retval course next_course
handle_retval-next_course w now retval s =
    let s₁ = count_check now retval s in
    let s₂ = came_up w now retval s₁ in
    let s₃ = still_down w retval s₂ in
    let s₄ = state_changed w now retval s₃ in
    ground (
      arith,
      count_check-Keeps now retval s,
      came_up-course w now retval s₁,
      still_down-course w retval s₂,
      state_changed-course w now retval s₃,
      is_up-course w retval s₄,
    )

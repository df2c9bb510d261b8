-- ===== src/Outage/Notices/Due.antt =====
-- When the notice of an outage is sent, for the same failure many times in a row.
use sysmon.Base.{ℕ, suc, ◌+◌, ◌≤◌, ◌<◌, ◌≡◌, ◌≢◌, refl, ◌∙◌, arith}
use sysmon.Base.{true, false, not, ◌&&◌, List, [], ◌∷◌, All, length, inl, inr}
use sysmon.Base.{leb, ◌==◌, if◌then◌else◌, Bool-cases}
use sysmon.Base.Words.{u64_mod}
use sysmon.Outage.{
  Hostinfo, State, Site, page_someone, mail_contact, note_contact, set_contacted, object_changed,
  send_mail, emit, count_check, still_down, state_changed, page_if_down_due, handle_retval,
  page_down_due, contact_down, wants, is_missing,
}
use sysmon.Outage.Course.{Keeps, page_someone-Keeps, count_check-Keeps}
use sysmon.Outage.Notices.{notices, count_check-notices, came_up-failing, is_up-failing, Check, run}

-- A daemon that notifies and can: the user is known, the mailer starts.
pub record CanTell (w : Site) : Type 0 where
  pub donotify : w.donotify ≡ true
  pub user_known : w.user_known ≡ true
  pub mailer_opens : w.mailer_opens ≡ true

-- An object with somebody to tell about an outage.
pub record IsWatched (svc : Hostinfo) : Type 0 where
  pub contact : is_missing svc.contact ≡ false
  pub wanted : wants svc.contact_when contact_down ≡ true

-- The object has failed the same way `seen` times in a row; `before` counts the notices until then.
pub record Failing (limit kind seen before : ℕ) (s : State) : Type 0 where
  pub watched : IsWatched s.svc
  pub lastcheck : s.svc.lastcheck ≡ kind
  pub downct : s.svc.downct ≡ seen
  pub max_down : s.svc.max_down ≡ limit
  pub contacted : s.svc.contacted ≡ leb limit seen
  pub noticed : notices s.events ≡ (if leb limit seen then suc before else before)

page_someone-tells :
    (w : Site) (s : State)
    → CanTell w
    → IsWatched s.svc
    → (notices (page_someone w contact_down s).events ≡ suc (notices s.events))
      × ((page_someone w contact_down s).svc.contacted ≡ true)
unfolding page_someone mail_contact note_contact set_contacted object_changed send_mail emit notices
page_someone-tells w s h k = (ground (arith, h, k), ground (arith, h, k))

page_if_down_due-Failing :
    (w : Site) (limit kind seen before : ℕ) (s : State)
    → CanTell w
    → IsWatched s.svc
    → s.svc.lastcheck ≡ kind
    → s.svc.downct ≡ seen
    → s.svc.max_down ≡ limit
    → (s.svc.contacted ≡ true → limit ≤ seen)
    → notices s.events ≡ (if s.svc.contacted then suc before else before)
    → Failing limit kind seen before (page_if_down_due w s)
unfolding page_if_down_due page_down_due
page_if_down_due-Failing w limit kind seen before s can k l d m c n =
    go (page_someone w contact_down s) refl (page_someone-Keeps w contact_down s)
      (page_someone-tells w s can k)
  where
    go :
        (t : State)
        → t ≡ page_someone w contact_down s
        → Keeps s t
        → ((notices t.events ≡ suc (notices s.events)) × (t.svc.contacted ≡ true))
        → Failing limit kind seen before (if page_down_due s.svc then t else s)
    go t e kept (told, marked) = elim (Bool-cases (page_down_due s.svc)) [
      | inl due ↦ rw due (record {
        watched = record {
          contact = rw kept.contact k.contact;
          wanted = rw kept.contact_when k.wanted;
        };
        lastcheck = kept.lastcheck ∙ l;
        downct = kept.downct ∙ d;
        max_down = kept.max_down ∙ m;
        contacted = ground (arith, kept, marked, due, d, m);
        noticed = ground (arith, kept, told, due, d, m, n);
      })
      | inr due ↦ rw due (record {
        watched = k;
        lastcheck = l;
        downct = d;
        max_down = m;
        contacted = ground (arith, k, due, d, m, c);
        noticed = ground (arith, k, due, d, m, n, c);
      })
    ]

still_down-Failing :
    (w : Site) (limit kind seen before : ℕ) (s : State)
    → CanTell w
    → kind ≢ 0
    → suc seen < u64_mod
    → Failing limit kind seen before s
    → Failing limit kind (suc seen) before (still_down w kind s)
unfolding still_down
still_down-Failing w limit kind seen before s can bad small h =
    let same : (not (kind == 0) && (s.svc.lastcheck == kind)) ≡ true =
      ground (arith, h.lastcheck) in
    rw same (
      page_if_down_due-Failing w limit kind (suc seen) before _ can
        (record { contact = h.watched.contact; wanted = h.watched.wanted }) h.lastcheck
        (omega (arith, h.downct)) h.max_down (λ e. ground (arith, h.contacted))
        (ground (arith, h.noticed, h.contacted)))

still_down-up :
    (w : Site) (kind : ℕ) (s : State) → kind ≢ 0 → s.svc.lastcheck ≡ 0 → still_down w kind s ≡ s
unfolding still_down
still_down-up w kind s bad up = ground arith

state_changed-same :
    (w : Site) (now kind : ℕ) (s : State) → s.svc.lastcheck ≡ kind → state_changed w now kind s ≡ s
unfolding state_changed
state_changed-same w now kind s e = ground arith

state_changed-Failing :
    (w : Site) (now kind : ℕ) (s : State)
    → CanTell w
    → kind ≢ 0
    → IsWatched s.svc
    → s.svc.lastcheck ≡ 0
    → s.svc.contacted ≡ false
    → Failing s.svc.max_down kind 1 (notices s.events) (state_changed w now kind s)
unfolding state_changed
state_changed-Failing w now kind s can bad watched up quiet =
    let fell : (kind == s.svc.lastcheck) ≡ false = ground arith in
    let failed : (kind == 0) ≡ false = ground arith in
    rw (fell, failed)
      (page_if_down_due-Failing w s.svc.max_down kind 1 (notices s.events) _ can
        (record { contact = watched.contact; wanted = watched.wanted }) refl refl refl (λ e. cc)
        (rw quiet refl))

count_check-IsWatched :
    (now kind : ℕ) (s : State) → IsWatched s.svc → IsWatched (count_check now kind s).svc
count_check-IsWatched now kind s h =
    let kept = count_check-Keeps now kind s in
    record { contact = rw kept.contact h.contact; wanted = rw kept.contact_when h.wanted }

count_check-Failing :
    (limit now kind seen before : ℕ) (s : State)
    → Failing limit kind seen before s
    → Failing limit kind seen before (count_check now kind s)
count_check-Failing limit now kind seen before s h =
    let kept = count_check-Keeps now kind s in
    let (told, marked) = count_check-notices now kind s in
    record {
      watched = count_check-IsWatched now kind s h.watched;
      lastcheck = kept.lastcheck ∙ h.lastcheck;
      downct = kept.downct ∙ h.downct;
      max_down = kept.max_down ∙ h.max_down;
      contacted = rw marked h.contacted;
      noticed = rw told h.noticed;
    }

-- The same failure once more.
handle_retval-Failing :
    (w : Site) (limit now kind seen before : ℕ) (s : State)
    → CanTell w
    → kind ≢ 0
    → suc seen < u64_mod
    → Failing limit kind seen before s
    → Failing limit kind (suc seen) before (handle_retval w now kind s)
unfolding handle_retval
handle_retval-Failing w limit now kind seen before s can bad small h =
    let again =
      still_down-Failing w limit kind seen before (count_check now kind s) can bad small
        (count_check-Failing limit now kind seen before s h) in
    rw
      (
        is_up-failing w kind _ bad,
        came_up-failing w now kind (count_check now kind s) bad,
        state_changed-same w now kind (still_down w kind (count_check now kind s)) again.lastcheck,
      )
      again

-- The first failure after a good check.
handle_retval-first :
    (w : Site) (now kind : ℕ) (s : State)
    → CanTell w
    → kind ≢ 0
    → IsWatched s.svc
    → s.svc.lastcheck ≡ 0
    → s.svc.contacted ≡ false
    → Failing s.svc.max_down kind 1 (notices s.events) (handle_retval w now kind s)
unfolding handle_retval count_check
handle_retval-first w now kind s can bad watched up quiet =
    let kept = count_check-Keeps now kind s in
    let (told, marked) = count_check-notices now kind s in
    rw
      (
        is_up-failing w kind _ bad,
        came_up-failing w now kind (count_check now kind s) bad,
        still_down-up w kind (count_check now kind s) bad (kept.lastcheck ∙ up),
      )
      (rw (told, kept.max_down) at
        (state_changed-Failing w now kind (count_check now kind s) can bad
          (count_check-IsWatched now kind s watched) (kept.lastcheck ∙ up) (marked ∙ quiet)))

run-Failing :
    (limit kind seen before : ℕ) (cs : List Check) (s : State)
    → kind ≢ 0
    → seen + length cs < u64_mod
    → All (λ c. CanTell c.site × (c.retval ≡ kind)) cs
    → Failing limit kind seen before s
    → Failing limit kind (seen + length cs) before (run cs s)
unfolding run
run-Failing limit kind seen before [] s bad small all h =
    let e : seen + 0 ≡ seen = omega arith in rw e h
run-Failing limit kind seen before (c ∷ cs) s bad small ((can, e), all) h =
    let n : seen + suc (length cs) ≡ suc seen + length cs = omega arith in
    rw (n, e)
      (run-Failing limit kind (suc seen) before cs (handle_retval c.site c.now kind s) bad
        (omega arith) all
        (handle_retval-Failing c.site limit c.now kind seen before s can bad (omega arith) h))

-- An object that was up, that nobody has been told of, and that then fails the same way n times
-- in a row, n below 2 ^ 64, where someone wants to know of outages and the daemon can tell them:
-- one notice is sent, at the `max_down`-th of these checks, none if there are fewer, and
-- contacted says which.
pub run_due :
    (kind : ℕ) (c : Check) (cs : List Check) (s : State)
    → kind ≢ 0
    → length (c ∷ cs) < u64_mod
    → All (λ d. CanTell d.site × (d.retval ≡ kind)) (c ∷ cs)
    → IsWatched s.svc
    → s.svc.lastcheck ≡ 0
    → s.svc.contacted ≡ false
    → (notices (run (c ∷ cs) s).events ≡ (
        if leb s.svc.max_down (length (c ∷ cs)) then suc (notices s.events) else notices s.events))
      × ((run (c ∷ cs) s).svc.contacted ≡ leb s.svc.max_down (length (c ∷ cs)))
unfolding run
run_due kind c cs s bad small ((can, e), all) watched up quiet =
    let n : suc (length cs) ≡ 1 + length cs = omega arith in
    let after =
      run-Failing s.svc.max_down kind 1 (notices s.events) cs (handle_retval c.site c.now kind s)
        bad (omega arith) all (handle_retval-first c.site c.now kind s can bad watched up quiet) in
    rw (e, n) (after.noticed, after.contacted)

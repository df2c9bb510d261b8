-- ===== src/Outage/Recovery.antt =====
-- The end of an outage in handle_retval: what the first good check resets, and whom it tells.
use sysmon.Base.{ℕ, suc, ◌+◌, ◌%◌, ◌≤◌, ◌<◌, ◌≡◌, ◌≢◌, refl, sym, ◌∙◌, arith}
use sysmon.Base.{true, false, not, ◌&&◌}
use sysmon.Base.{◌==◌, if◌then◌else◌}
use sysmon.Base.Words.{u64_mod}
use sysmon.Outage.{
  Hostinfo, State, Site, page_someone, object_changed, emit, count_check, came_up, end_outage,
  still_down, state_changed, page_up_due, is_up, clear_ack, handle_retval, contact_up, wants,
  is_missing, mail_contact, note_contact, set_contacted, send_mail,
}
use sysmon.Outage.Course.{page_someone-Keeps, page_if_down_due-Keeps, count_check-Keeps}
use sysmon.Outage.Notices.{notices, count_check-notices}
use sysmon.Outage.Notices.Due.{CanTell}

came_up-acked :
    (w : Site) (now retval : ℕ) (s : State) → (came_up w now retval s).svc.acked ≡ s.svc.acked
unfolding came_up end_outage
came_up-acked w now retval s = grind (arith, page_someone-Keeps)

still_down-acked :
    (w : Site) (retval : ℕ) (s : State) → (still_down w retval s).svc.acked ≡ s.svc.acked
unfolding still_down
still_down-acked w retval s = grind (arith, page_if_down_due-Keeps)

state_changed-acked :
    (w : Site) (now retval : ℕ) (s : State) → (state_changed w now retval s).svc.acked ≡ s.svc.acked
unfolding state_changed
state_changed-acked w now retval s = grind (arith, page_if_down_due-Keeps)

is_up-acked :
    (w : Site) (retval : ℕ) (s : State)
    → (is_up w retval s).svc.acked ≡ (if retval == 0 then false else s.svc.acked)
unfolding is_up clear_ack object_changed
is_up-acked w retval s = grind (arith, page_someone-Keeps)

-- Every failing check keeps the acknowledgement of an object as it is, and every good one clears
-- it.
pub handle_retval-acked :
    (w : Site) (now retval : ℕ) (s : State)
    → (handle_retval w now retval s).svc.acked ≡ (if retval == 0 then false else s.svc.acked)
unfolding handle_retval
handle_retval-acked w now retval s =
    let s₁ = count_check now retval s in
    let s₂ = came_up w now retval s₁ in
    let s₃ = still_down w retval s₂ in
    let s₄ = state_changed w now retval s₃ in
    ground (
      arith,
      (count_check-Keeps now retval s).acked,
      came_up-acked w now retval s₁,
      still_down-acked w retval s₂,
      state_changed-acked w now retval s₃,
      is_up-acked w retval s₄,
    )

-- An object that is told about when it comes up only, and has somebody to tell.
pub record IsUpOnly (svc : Hostinfo) : Type 0 where
  pub contact : is_missing svc.contact ≡ false
  pub wanted : svc.contact_when ≡ contact_up

page_someone-tells_up :
    (w : Site) (s : State)
    → CanTell w
    → IsUpOnly s.svc
    → notices (page_someone w contact_up s).events ≡ suc (notices s.events)
unfolding page_someone mail_contact note_contact set_contacted object_changed send_mail emit notices
    wants
page_someone-tells_up w s h k = ground (arith, h, k)

came_up-tells :
    (w : Site) (now : ℕ) (s : State)
    → CanTell w
    → IsUpOnly s.svc
    → s.svc.contacted ≡ true
    → s.svc.lastcheck ≢ 0
    → (notices (came_up w now 0 s).events ≡ suc (notices s.events))
      × ((came_up w now 0 s).svc.contacted ≡ false)
      × ((came_up w now 0 s).svc.lastcheck ≡ 0)
      × ((came_up w now 0 s).svc.upct ≡ s.svc.upct)
      × ((came_up w now 0 s).svc.max_down ≡ s.svc.max_down)
      × IsUpOnly (came_up w now 0 s).svc
unfolding came_up end_outage wants
came_up-tells w now s can k told bad =
    let up = record s { svc = record (s.svc) { lastcheck = 0 } } in
    let mailed =
      page_someone-tells_up w up can (record { contact = k.contact; wanted = k.wanted }) in
    let kept = page_someone-Keeps w contact_up up in
    let due : (s.svc.contacted && not (s.svc.lastcheck == 0)) ≡ true = ground arith in
    let wish : (w.donotify && wants s.svc.contact_when contact_up) ≡ true =
      ground (arith, can, k) in
    rw (due, wish)
      (
        mailed,
        refl,
        kept.lastcheck,
        kept.upct,
        kept.max_down,
        record { contact = rw kept.contact k.contact; wanted = kept.contact_when ∙ k.wanted },
      )

still_up : (w : Site) (s : State) → still_down w 0 s ≡ s
unfolding still_down
still_up w s = refl

state_same : (w : Site) (now : ℕ) (s : State) → s.svc.lastcheck ≡ 0 → state_changed w now 0 s ≡ s
unfolding state_changed
state_same w now s e = rw e refl

page_up_due-true :
    (svc : Hostinfo)
    → svc.max_down ≤ svc.upct
    → svc.contacted ≡ false
    → svc.contact_when ≡ contact_up
    → page_up_due svc ≡ true
unfolding page_up_due
page_up_due-true svc often quiet wanted = ground arith

clear_ack-Keeps :
    (s : State)
    → ((clear_ack s).events ≡ s.events)
      × ((clear_ack s).svc.contacted ≡ s.svc.contacted)
      × ((clear_ack s).svc.upct ≡ s.svc.upct)
      × ((clear_ack s).svc.max_down ≡ s.svc.max_down)
      × ((clear_ack s).svc.contact ≡ s.svc.contact)
      × ((clear_ack s).svc.contact_when ≡ s.svc.contact_when)
unfolding clear_ack object_changed
clear_ack-Keeps s =
    (ground arith, ground arith, ground arith, ground arith, ground arith, ground arith)

is_up-tells :
    (w : Site) (s : State)
    → CanTell w
    → IsUpOnly s.svc
    → s.svc.contacted ≡ false
    → s.svc.max_down ≤ s.svc.upct + 1
    → s.svc.upct + 1 < u64_mod
    → notices (is_up w 0 s).events ≡ suc (notices s.events)
unfolding is_up
is_up-tells w s can k quiet often small =
    let counted = record s {
      svc = record (s.svc) { upct = (s.svc.upct + 1) % u64_mod; downct = 0 };
    } in
    let cleared = clear_ack counted in
    let (events, contacted, upct, max_down, contact, contact_when) = clear_ack-Keeps counted in
    let watched : IsUpOnly cleared.svc = record {
      contact = rw contact k.contact;
      wanted = contact_when ∙ k.wanted;
    } in
    let due =
      page_up_due-true cleared.svc (omega (arith, max_down, upct)) (contacted ∙ quiet)
        (contact_when ∙ k.wanted) in
    rw due (page_someone-tells_up w cleared can watched ∙ rw events refl)

-- An object that wants to be told of recoveries alone, was told of something, and needs no more
-- than this good check to count as up: where the daemon can tell, the check sends two notices.
pub handle_retval_tells_twice :
    (w : Site) (now : ℕ) (s : State)
    → CanTell w
    → IsUpOnly s.svc
    → s.svc.contacted ≡ true
    → s.svc.lastcheck ≢ 0
    → s.svc.max_down ≤ s.svc.upct + 1
    → s.svc.upct + 1 < u64_mod
    → notices (handle_retval w now 0 s).events ≡ notices s.events + 2
unfolding handle_retval
handle_retval_tells_twice w now s can k told bad often small =
    let kept = count_check-Keeps now 0 s in
    let (counted, marked) = count_check-notices now 0 s in
    let (once, quiet, good, upct, max_down, still) =
      came_up-tells w now (count_check now 0 s) can
        (record { contact = rw kept.contact k.contact; wanted = kept.contact_when ∙ k.wanted })
        (marked ∙ told) (λ e. bad (sym kept.lastcheck ∙ e)) in
    let twice =
      is_up-tells w (came_up w now 0 (count_check now 0 s)) can still quiet
        (omega (arith, upct, max_down, kept.upct, kept.max_down))
        (omega (arith, upct, kept.upct)) in
    rw
      (
        still_up w (came_up w now 0 (count_check now 0 s)),
        state_same w now (came_up w now 0 (count_check now 0 s)) good,
      )
      (omega (arith, twice, once, counted))

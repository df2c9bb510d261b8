-- ===== src/Outage/Periodic.antt =====
-- src/syswatch.c: walk_periodic_page_checks at one object - the notice that is sent again while an
-- outage lasts. The walk over the dependencies is not modelled here.
use sysmon.Base.{ℕ, zero, suc, ◌+◌, ◌*◌}
use sysmon.Base.{Bool, ◌&&◌}
use sysmon.Base.{ltb, if◌then◌else◌}
use sysmon.Base.Int.{ℤ, pos, negsuc}
use sysmon.Outage.{State, Site, page_someone, contact_down}

-- -1 stands for the global interval. Both are minutes.
unfoldable pub effective_pageinterval : ℤ → ℤ → ℤ
effective_pageinterval global (pos n) = pos n
effective_pageinterval global (negsuc zero) = global
effective_pageinterval global (negsuc (suc n)) = negsuc (suc n)

-- `(now - lastcontacted) > (minutes * 60)`
unfoldable pub is_overdue : ℕ → ℕ → ℤ → Bool
is_overdue now lastcontacted (pos n) = ltb (lastcontacted + n * 60) now
is_overdue now lastcontacted (negsuc n) = ltb lastcontacted (now + (n + 1) * 60)

unfoldable pub periodic_page_one : Site → ℤ → ℤ → ℕ → State → State
periodic_page_one w global pageinterval now s =
    if is_overdue now s.svc.lastcontacted (effective_pageinterval global pageinterval)
      && s.svc.contacted
    then page_someone w contact_down s
    else s

-- ===== src/Load/Replace.antt =====
-- What do_set_replace makes of a text, and what it throws away.
use sysmon.Base.{◌≡◌}
use sysmon.Base.{false, ◌||◌, All}
use sysmon.Base.{◌==◌}
use sysmon.Base.Text.{Text, is_space}

-- A name without white space, comma or dollar.
abbrev pub IsName : Text → Type 0
IsName s = All (λ c. ((is_space c || (c == b',')) ≡ false) × ((c == b'$') ≡ false)) s

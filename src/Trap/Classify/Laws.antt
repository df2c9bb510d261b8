-- ===== src/Trap/Classify/Laws.antt =====
-- What the classification leaves alone.
use sysmon.Base.{◌≡◌, ◌∙◌, arith, Bool, List}
use sysmon.Base.Int.{ℤ}
use sysmon.Trap.Content.{TrapContent, Varbind}
use sysmon.Trap.Classify.{give_meaning, give_vendor, give_iface, describe_link, classify_trap}

abbrev pub kept : TrapContent → ℤ × Bool × Bool × List Varbind
kept c = (c.version, c.decoded, c.alertable, c.vb)

give_meaning-kept : (out : TrapContent) → kept (give_meaning out) ≡ kept out
unfolding give_meaning
give_meaning-kept out = ground arith

give_vendor-kept : (out : TrapContent) → kept (give_vendor out) ≡ kept out
unfolding give_vendor
give_vendor-kept out = ground arith

give_iface-kept : (out : TrapContent) → kept (give_iface out) ≡ kept out
unfolding give_iface
give_iface-kept out = ground arith

describe_link-kept : (out : TrapContent) → kept (describe_link out) ≡ kept out
unfolding describe_link
describe_link-kept out = ground arith

pub classify_trap-kept : (out : TrapContent) → kept (classify_trap out) ≡ kept out
unfolding classify_trap
classify_trap-kept out =
    describe_link-kept (give_iface (give_vendor (give_meaning out)))
    ∙ give_iface-kept (give_vendor (give_meaning out))
    ∙ give_vendor-kept (give_meaning out)
    ∙ give_meaning-kept out

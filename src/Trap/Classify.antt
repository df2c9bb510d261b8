-- ===== src/Trap/Classify.antt =====
-- src/trapdecode.c: classify_trap - the name, the severity, the category and the vendor of a trap.
pub mod Laws
pub mod Bounds
use sysmon.Base.{ℕ, zero, suc, ◌+◌, Bool, true, false, List, [], ◌∷◌, ◌++◌, Option, none, some}
use sysmon.Base.{◌==◌, if◌then◌else◌, ◌||◌, ◌&&◌, not}
use sysmon.Base.Int.{ℤ, pos, negsuc, is_pos}
use sysmon.Base.Text.{Text, codes, str_eq, is_empty, bounded, decimal_signed}
use sysmon.Trap.Content.{TrapContent, trap_val_len, trap_name_len}
use sysmon.Trap.Tables.{Standard, trap_standard, warning, name_vendor}
use sysmon.Trap.Varbinds.{iface_len}

-- Does this row of the table name the trap?
abbrev pub hit : TrapContent → Standard → Bool
hit out s =
    (not (is_empty out.trap_oid) && str_eq out.trap_oid s.oid)
    || (is_pos out.version 0 && is_pos out.generic s.generic)

unfoldable pub find_standard : TrapContent → List Standard → Option Standard
find_standard out [] = none
find_standard out (s ∷ table) = if hit out s then some s else find_standard out table

abbrev pub severity_len : ℕ
severity_len = 16

abbrev pub category_len : ℕ
category_len = 24

unfoldable pub as_standard : Standard → TrapContent → TrapContent
as_standard s out = record out {
  name = bounded trap_name_len s.name;
  severity = bounded severity_len s.severity;
  category = bounded category_len s.category;
  description = bounded trap_val_len s.desc;
}

abbrev vendor_trap_name : TrapContent → Text
vendor_trap_name out =
    if is_pos out.version 0 && is_pos out.generic 6
    then codes "enterpriseSpecific(" ++ (decimal_signed out.specific ++ codes ")")
    else if not (is_empty out.trap_oid)
    then codes "enterpriseSpecific"
    else codes "trap"

-- `"… %.100s …"`: a precision of 100 keeps the first 100 bytes.
unfoldable pub as_vendor_trap : TrapContent → TrapContent
as_vendor_trap out = record out {
  name = bounded trap_name_len (vendor_trap_name out);
  severity = bounded severity_len warning;
  category = bounded category_len (codes "vendor");
  description = bounded trap_val_len (
      codes "Vendor-specific trap "
      ++ (bounded 101 (if is_empty out.trap_oid then out.enterprise else out.trap_oid)
          ++ codes " - see the vendor MIB for its meaning"));
}

unfoldable pub give_meaning : TrapContent → TrapContent
unfolding as_standard as_vendor_trap
give_meaning out = elim (find_standard out trap_standard) [
  | some s ↦ as_standard s out
  | none ↦ as_vendor_trap out
]

unfoldable pub give_vendor : TrapContent → TrapContent
give_vendor out =
    let first =
      (if is_empty out.enterprise
        then out
        else record out { vendor = name_vendor out.enterprise }) in
    if is_empty first.vendor && not (is_empty first.trap_oid)
    then record first { vendor = name_vendor first.trap_oid }
    else first

abbrev is_nonneg : ℤ → Bool
is_nonneg (pos n) = true
is_nonneg (negsuc n) = false

unfoldable pub give_iface : TrapContent → TrapContent
give_iface out =
    if is_empty out.iface && is_nonneg out.ifindex
    then record out { iface = bounded iface_len (codes "ifIndex " ++ decimal_signed out.ifindex) }
    else out

unfoldable pub describe_link : TrapContent → TrapContent
describe_link out =
    if not (is_empty out.iface) && str_eq out.category (codes "link")
    then record out {
      description = bounded trap_val_len (
          bounded 101 (bounded trap_val_len out.description)
          ++ (codes ": " ++ bounded 51 out.iface));
    }
    else out

unfoldable pub classify_trap : TrapContent → TrapContent
classify_trap out = describe_link (give_iface (give_vendor (give_meaning out)))

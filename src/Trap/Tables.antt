-- ===== src/Trap/Tables.antt =====
-- src/trapdecode.c: the tables of names, and the functions that search them.
use sysmon.Base.{ℕ, Bool, List, [], ◌∷◌, ◌==◌, if◌then◌else◌}
use sysmon.Base.{Option, none, some, drop, length}
use sysmon.Base.Int.{ℤ, pos, negsuc}
use sysmon.Base.Text.{
  Text, codes, str_eq, has_prefix, bounded, Number, absent, found, scan_number, strtoul_of,
}
use sysmon.Trap.Content.{trap_name_len}

-- `trap_oid_exact` and `trap_oid_prefix`
abbrev pub trap_oid_exact : List (Text × Text)
trap_oid_exact =
    (codes ".1.3.6.1.2.1.1.3.0", codes "sysUpTime")
    ∷ (codes ".1.3.6.1.6.3.1.1.4.1.0", codes "snmpTrapOID")
    ∷ (codes ".1.3.6.1.6.3.1.1.4.3.0", codes "snmpTrapEnterprise")
    ∷ (codes ".1.3.6.1.2.1.1.1.0", codes "sysDescr")
    ∷ (codes ".1.3.6.1.2.1.1.5.0", codes "sysName")
    ∷ (codes ".1.3.6.1.2.1.1.6.0", codes "sysLocation")
    ∷ []

abbrev pub trap_oid_prefix : List (Text × Text)
trap_oid_prefix =
    (codes ".1.3.6.1.2.1.2.2.1.1.", codes "ifIndex")
    ∷ (codes ".1.3.6.1.2.1.2.2.1.2.", codes "ifDescr")
    ∷ (codes ".1.3.6.1.2.1.2.2.1.3.", codes "ifType")
    ∷ (codes ".1.3.6.1.2.1.2.2.1.7.", codes "ifAdminStatus")
    ∷ (codes ".1.3.6.1.2.1.2.2.1.8.", codes "ifOperStatus")
    ∷ (codes ".1.3.6.1.2.1.31.1.1.1.1.", codes "ifName")
    ∷ (codes ".1.3.6.1.2.1.31.1.1.1.18.", codes "ifAlias")
    ∷ (codes ".1.3.6.1.6.3.18.1.3.", codes "snmpTrapAddress")
    ∷ (codes ".1.3.6.1.6.3.18.1.4.", codes "snmpTrapCommunity")
    ∷ []

-- The first entry whose key passes the test.
unfoldable pub find_entry : (Text → Bool) → List (Text × Text) → Option Text
find_entry p [] = none
find_entry p ((key, name) ∷ table) = if p key then some name else find_entry p table

unfoldable pub name_oid : Text → Text
name_oid oid = elim (find_entry (str_eq oid) trap_oid_exact) [
  | some name ↦ bounded trap_name_len name
  | none ↦ elim (find_entry (has_prefix oid) trap_oid_prefix) [
    | some name ↦ bounded trap_name_len name
    | none ↦ []
  ]
]

-- A row of `trap_standard`
pub record Standard : Type 0 where
  pub oid : Text
  pub generic : ℕ
  pub name : Text
  pub severity : Text
  pub category : Text
  pub desc : Text

abbrev pub critical : Text
critical = codes "critical"

abbrev pub warning : Text
warning = codes "warning"

abbrev pub informational : Text
informational = codes "informational"

abbrev row : Text → ℕ → Text → Text → Text → Text → Standard
row oid generic name severity category desc = record {
  oid = oid;
  generic = generic;
  name = name;
  severity = severity;
  category = category;
  desc = desc;
}

abbrev pub trap_standard : List Standard
trap_standard =
    row (codes ".1.3.6.1.6.3.1.1.5.1") 0 (codes "coldStart") warning (codes "restart")
      (codes "Device cold started - it was power cycled or reloaded")
    ∷ row (codes ".1.3.6.1.6.3.1.1.5.2") 1 (codes "warmStart") warning (codes "restart")
        (codes "Device warm started - its agent reinitialised")
    ∷ row (codes ".1.3.6.1.6.3.1.1.5.3") 2 (codes "linkDown") critical (codes "link")
        (codes "An interface went down")
    ∷ row (codes ".1.3.6.1.6.3.1.1.5.4") 3 (codes "linkUp") informational (codes "link")
        (codes "An interface came back up")
    ∷ row (codes ".1.3.6.1.6.3.1.1.5.5") 4 (codes "authenticationFailure") warning
        (codes "security")
        (codes
          "SNMP authentication failure - wrong community, or a poller that should not be there")
    ∷ row (codes ".1.3.6.1.6.3.1.1.5.6") 5 (codes "egpNeighborLoss") warning (codes "routing")
        (codes "An EGP neighbour was lost")
    ∷ []

-- `trap_vendors`
abbrev pub trap_vendors : List (ℕ × Text)
trap_vendors =
    (9, codes "Cisco")
    ∷ (11, codes "Hewlett-Packard")
    ∷ (674, codes "Dell")
    ∷ (1916, codes "Extreme Networks")
    ∷ (2011, codes "Huawei")
    ∷ (2636, codes "Juniper")
    ∷ (3375, codes "F5")
    ∷ (4526, codes "NETGEAR")
    ∷ (6027, codes "Dell Force10")
    ∷ (8072, codes "Net-SNMP")
    ∷ (14988, codes "MikroTik")
    ∷ (25506, codes "H3C")
    ∷ (30065, codes "Arista")
    ∷ (41112, codes "Ubiquiti")
    ∷ []

unfoldable pub find_vendor : ℕ → List (ℕ × Text) → Text
find_vendor number [] = []
find_vendor number ((n, vendor) ∷ table) = if n == number then vendor else find_vendor number table

abbrev pub vendor_len : ℕ
vendor_len = 32

abbrev pub enterprises : Text
enterprises = codes ".1.3.6.1.4.1."

abbrev pub vendor_of : Number → Text
vendor_of absent = []
vendor_of (found minus n rest) =
    bounded vendor_len (find_vendor (strtoul_of (found minus n rest)) trap_vendors)

unfoldable pub name_vendor : Text → Text
name_vendor oid =
    if has_prefix oid enterprises
    then vendor_of (scan_number (drop (length enterprises) oid))
    else []

-- `if_status_name`, where `none` is NULL.
unfoldable pub if_status_name : ℤ → Option Text
if_status_name (negsuc n) = none
if_status_name (pos v) =
    if v == 1
    then some (codes "up")
    else if v == 2
    then some (codes "down")
    else if v == 3
    then some (codes "testing")
    else if v == 4
    then some (codes "unknown")
    else if v == 5
    then some (codes "dormant")
    else if v == 6
    then some (codes "notPresent")
    else if v == 7
    then some (codes "lowerLayerDown")
    else none

-- ===== src/Load/Reload.antt =====
-- src/loadconfig.c: a reload of the configuration after SIGHUP - hard_copy, find_match and copy_alerts.
-- An object is its key and the fields of `struct hostinfo` that handle_retval reads or writes, with
-- lchecktime; the notes, the unique id and the figures of SNMP, rtt and packet loss are not modelled.
use sysmon.Base.{ℕ, ◌≡◌}
use sysmon.Base.{Bool, true, ◌&&◌, List, [], ◌∷◌, Option, none, some}
use sysmon.Base.{if◌then◌else◌, ◌==◌, get_elem?}
use sysmon.Base.Text.{Text, str_eq}
use sysmon.Outage.{Hostinfo}

pub record Configured : Type 0 where
  pub hostname : Text
  pub unique_name : Text
  pub kind : ℕ
  pub port : ℕ
  pub lchecktime : ℕ
  pub svc : Hostinfo

-- `if (old->lastmsgid != NULL)`
abbrev given_or : Option Text → Option Text → Option Text
given_or none new = new
given_or (some old) new = some old

unfoldable pub hard_copy : Configured → Configured → Configured
hard_copy old new = record new {
  lchecktime = old.lchecktime;
  svc = record (new.svc) {
    lastcheck = old.svc.lastcheck;
    downct = old.svc.downct;
    upct = old.svc.upct;
    contacted = old.svc.contacted;
    lastcontacted = old.svc.lastcontacted;
    deathtime = old.svc.deathtime;
    totalchecked = old.svc.totalchecked;
    totaldown = old.svc.totaldown;
    last_up = old.svc.last_up;
    last_recovery = old.svc.last_recovery;
    acked = old.svc.acked;
    lastmsgid = given_or old.svc.lastmsgid new.svc.lastmsgid;
  };
}

-- The test of `find_match`.
unfoldable pub is_match : Configured → Configured → Bool
is_match old new =
    str_eq old.hostname new.hostname
    && (str_eq old.unique_name new.unique_name && (old.kind == new.kind && old.port == new.port))

-- The first object that matches gets the copy.
unfoldable pub find_match : Configured → List Configured → List Configured
unfolding is_match hard_copy
find_match matchme [] = []
find_match matchme (here ∷ more) =
    if is_match matchme here then hard_copy matchme here ∷ more else here ∷ find_match matchme more

unfoldable pub copy_alerts : List Configured → List Configured → List Configured
unfolding find_match
copy_alerts [] new = new
copy_alerts (here ∷ old) new = copy_alerts old (find_match here new)

-- No two objects of a configuration have one key.
pub record HasUniqueKeys (all : List Configured) : Type 0 where
  pub unique :
      (i j : ℕ) (a b old : Configured)
      → get_elem? all i ≡ some a
      → get_elem? all j ≡ some b
      → is_match old a ≡ true
      → is_match old b ≡ true
      → i ≡ j

-- The same, of the objects that one object of the new configuration matches.
pub record HasOneMatch (old : List Configured) (new : Configured) : Type 0 where
  pub one :
      (i j : ℕ) (a b : Configured)
      → get_elem? old i ≡ some a
      → get_elem? old j ≡ some b
      → is_match a new ≡ true
      → is_match b new ≡ true
      → i ≡ j

-- ===== src/Trap/Ring.antt =====
-- src/trapdecode.c: the ring of recent traps - trap_history_add, trap_history_get and the counters.
-- `slots` is the array `trap_ring`.
pub mod History
use sysmon.Base.{ℕ, zero, suc, ◌+◌, ◌-◌, ◌%◌, ◌^◌, Bool, List, Option, none, some}
use sysmon.Base.{[], ltb, leb, if◌then◌else◌, get_elem?, set, replicate}
use sysmon.Base.Int.{ℤ, pos, negsuc}
use sysmon.Base.Text.{Text, bounded}
use sysmon.Base.Words.{u64_mod}
use sysmon.Trap.Content.{TrapContent}
use sysmon.Trap.Decode.{undecoded, ip_addr_str_size}

abbrev pub trap_history_max : ℕ
trap_history_max = 128

abbrev pub object_name_size : ℕ
object_name_size = 128

-- `struct trap_record`. Its content is `none` where the caller passed none and the slot is zeroed.
pub record TrapRecord : Type 0 where
  pub seq : ℕ
  pub source : Text
  pub when : ℤ
  pub bytes : ℤ
  pub matched : Text
  pub alert_enabled : Bool
  pub alert_sent : Bool
  pub content : Option TrapContent

-- What a caller of trap_history_add passes.
pub record Arrival : Type 0 where
  pub source : Option Text
  pub when : ℤ
  pub bytes : ℤ
  pub content : Option TrapContent
  pub matched : Option Text
  pub alert_enabled : Bool
  pub alert_sent : Bool

pub record Ring : Type 0 where
  pub slots : List TrapRecord
  pub count : ℕ
  pub next : ℕ
  pub total : ℕ

abbrev text_or_empty : Option Text → Text
text_or_empty none = []
text_or_empty (some s) = s

abbrev matched_text : Option Text → Text
matched_text none = []
matched_text (some s) = bounded object_name_size s

unfoldable pub record_of : ℕ → Arrival → TrapRecord
record_of seq a = record {
  seq = seq;
  source = bounded ip_addr_str_size (text_or_empty a.source);
  when = a.when;
  bytes = a.bytes;
  matched = matched_text a.matched;
  alert_enabled = a.alert_enabled;
  alert_sent = a.alert_sent;
  content = a.content;
}

unfoldable pub trap_history_add : Ring → Arrival → Ring
trap_history_add r a = record {
  slots = set r.slots r.next (record_of ((r.total + 1) % u64_mod) a);
  count = if ltb r.count trap_history_max then r.count + 1 else r.count;
  next = (r.next + 1) % trap_history_max;
  total = (r.total + 1) % u64_mod;
}

-- `idx = next - 1 - age; while (idx < 0) idx += TRAP_HISTORY_MAX;` for an age below `count`, so
-- that one round of the loop is enough.
unfoldable pub slot_of : ℕ → ℕ → ℕ
slot_of next age = if leb (age + 1) next then next - 1 - age else next + trap_history_max - 1 - age

-- A negative age, or one past the records held, gives NULL.
unfoldable pub trap_history_get : Ring → ℤ → Option TrapRecord
unfolding slot_of
trap_history_get r (negsuc n) = none
trap_history_get r (pos age) =
    if leb r.count age then none else get_elem? r.slots (slot_of r.next age)

abbrev pub seq_of : Option TrapRecord → ℕ
seq_of none = 0
seq_of (some t) = t.seq

abbrev pub age_before : ℕ → ℤ
age_before zero = negsuc 0
age_before (suc n) = pos n

unfoldable pub trap_history_oldest_seq : Ring → ℕ
unfolding trap_history_get
trap_history_oldest_seq r = seq_of (trap_history_get r (age_before r.count))

unfoldable pub empty_ring : TrapRecord → Ring
empty_ring blank = record {
  slots = replicate trap_history_max blank;
  count = 0;
  next = 0;
  total = 0;
}

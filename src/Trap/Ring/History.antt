-- ===== src/Trap/Ring/History.antt =====
-- The ring against the list of everything that arrived, newest first.
use sysmon.Base.{ℕ, zero, suc, ◌+◌, ◌-◌, ◌%◌, ◌≤◌, ◌<◌, ◌≡◌, ◌≢◌, refl, ap, ◌∙◌, arith}
use mathlib.Core.Path.{subst}
use sysmon.Base.{List, [], ◌∷◌, inl, inr, min}
use sysmon.Base.{
  ltb, leb, if◌then◌else◌, Bool-cases, leb→le, leb-false→lt, length, get_elem?, get_elem?-take,
  get_elem?-past, take, length-take, length-set, get_elem?-set_self, get_elem?-set_ne,
}
use sysmon.Base.Int.{pos}
use sysmon.Base.Words.{u64_mod}
use sysmon.Trap.Ring.{Ring, TrapRecord, Arrival, record_of, trap_history_max, trap_history_add}
use sysmon.Trap.Ring.{
  trap_history_get, trap_history_oldest_seq, slot_of, empty_ring, seq_of, age_before,
}

-- The records of the arrivals, newest first, numbered from 1.
unfoldable pub history : List Arrival → List TrapRecord
history [] = []
history (a ∷ older) = record_of (length (a ∷ older)) a ∷ history older

-- The ring after those arrivals: the newest 128 stand behind `next`, newest first.
pub record Holds (r : Ring) (arrived : List Arrival) : Type 0 where
  pub size : length r.slots ≡ trap_history_max
  pub total : r.total ≡ length arrived
  pub count : r.count ≡ min (length arrived) trap_history_max
  pub next : r.next < trap_history_max
  pub newest :
      (age : ℕ)
      → age < r.count
      → get_elem? r.slots (slot_of r.next age) ≡ get_elem? (history arrived) age

slot_of-add :
    (next age : ℕ)
    → next < 128
    → age < 127
    → slot_of ((next + 1) % 128) (suc age) ≡ slot_of next age
unfolding slot_of
slot_of-add next age h k = ground arith

slot_of-ne : (next age : ℕ) → next < 128 → age < 127 → next ≢ slot_of next age
unfolding slot_of
slot_of-ne next age h k = ground arith

slot_of-newest : (next : ℕ) → next < 128 → slot_of ((next + 1) % 128) 0 ≡ next
unfolding slot_of
slot_of-newest next h = ground arith

count_after : (c n : ℕ) → c ≡ min n 128 → (if ltb c 128 then c + 1 else c) ≡ min (suc n) 128
count_after c n e = ground arith

-- The newest records after one more arrival.
newest_after :
    (r : Ring) (a : Arrival) (arrived : List Arrival)
    → Holds r arrived
    → length arrived + 1 < u64_mod
    → (age : ℕ) → age < min (suc (length arrived)) 128
    → get_elem? (trap_history_add r a).slots (slot_of ((r.next + 1) % 128) age)
      ≡ get_elem? (history (a ∷ arrived)) age
unfolding trap_history_add history
newest_after r a arrived h small zero k =
    rw (slot_of-newest r.next h.next, get_elem?-set_self r.slots r.next _ inside, numbered) refl
  where
    inside : r.next < length r.slots
    inside = omega (arith, h.next, h.size)

    numbered : (r.total + 1) % u64_mod ≡ suc (length arrived)
    numbered = omega (arith, h.total)
newest_after r a arrived h small (suc age) k =
    rw
      (
        slot_of-add r.next age h.next (omega arith),
        get_elem?-set_ne r.slots (record_of ((r.total + 1) % u64_mod) a)
            (slot_of-ne r.next age h.next (omega arith)),
      )
      (h.newest age (omega (arith, h.count)))

-- One arrival more.
pub trap_history_add-Holds :
    (r : Ring) (a : Arrival) (arrived : List Arrival)
    → Holds r arrived
    → length arrived + 1 < u64_mod
    → Holds (trap_history_add r a) (a ∷ arrived)
unfolding trap_history_add
trap_history_add-Holds r a arrived h small = record {
  size = length-set r.slots r.next _ ∙ h.size;
  total = omega (arith, h.total);
  count = count_after r.count (length arrived) h.count;
  next = omega arith;
  newest = λ age k.
      newest_after r a arrived h small age
        (subst (λ c. age < c) (count_after r.count (length arrived) h.count) k);
}

-- The ring of a process that has received those arrivals, newest first.
unfoldable pub received : TrapRecord → List Arrival → Ring
received blank [] = empty_ring blank
received blank (a ∷ older) = trap_history_add (received blank older) a

received-Holds :
    (blank : TrapRecord) (arrived : List Arrival)
    → length arrived < u64_mod
    → Holds (received blank arrived) arrived
unfolding received empty_ring
received-Holds blank [] small = record {
  size = refl;
  total = refl;
  count = refl;
  next = omega arith;
  newest = λ age k. absurd (omega arith);
}
received-Holds blank (a ∷ older) small =
    trap_history_add-Holds (received blank older) a older (received-Holds blank older (omega arith))
      (omega arith)

length-history : (arrived : List Arrival) → length (history arrived) ≡ length arrived
unfolding history
length-history [] = refl
length-history (a ∷ older) = ap suc (length-history older)

-- Reading a ring that holds those arrivals.
trap_history_get-Holds :
    (r : Ring) (arrived : List Arrival) (age : ℕ)
    → Holds r arrived
    → trap_history_get r (pos age) ≡ get_elem? (take trap_history_max (history arrived)) age
unfolding trap_history_get
trap_history_get-Holds r arrived age h = elim (Bool-cases (leb r.count age)) [
  | inl e ↦
      rw (e, get_elem?-past (take trap_history_max (history arrived)) age (short (leb→le _ _ e)))
        refl
  | inr e ↦
      rw
        (
          e,
          h.newest age (leb-false→lt _ _ e),
          get_elem?-take trap_history_max age (history arrived)
              (omega (arith, h.count, leb-false→lt _ _ e)),
        )
        refl
]
  where
    short : r.count ≤ age → length (take trap_history_max (history arrived)) ≤ age
    short k =
        omega
          (arith, h.count, length-take trap_history_max (history arrived), length-history arrived)

-- What trap_history_get returns for any age of 0 and more, after any number of traps below 2 ^
-- 64: the record that many places down the list of all arrivals, newest first and numbered from
-- 1, if it is one of the newest 128, and NULL otherwise.
pub trap_history_get-history :
    (blank : TrapRecord) (arrived : List Arrival) (age : ℕ)
    → length arrived < u64_mod
    → trap_history_get (received blank arrived) (pos age)
      ≡ get_elem? (take trap_history_max (history arrived)) age
trap_history_get-history blank arrived age small =
    trap_history_get-Holds (received blank arrived) arrived age (received-Holds blank arrived small)

history-seq :
    (arrived : List Arrival) (age : ℕ)
    → age < length arrived
    → seq_of (get_elem? (history arrived) age) ≡ length arrived - age
unfolding history record_of
history-seq [] age h = absurd (omega arith)
history-seq (a ∷ older) zero h = omega arith
history-seq (a ∷ older) (suc age) h = omega (arith, history-seq older age (omega arith))

age_before_some : (c : ℕ) → 0 < c → age_before c ≡ pos (c - 1)
age_before_some zero h = absurd (omega arith)
age_before_some (suc c) h = ap pos (omega arith)

trap_history_oldest_seq-Holds :
    (r : Ring) (a : Arrival) (older : List Arrival)
    → Holds r (a ∷ older)
    → trap_history_oldest_seq r ≡ length (a ∷ older) + 1 - min (length (a ∷ older)) trap_history_max
unfolding trap_history_oldest_seq
trap_history_oldest_seq-Holds r a older h =
    rw
      (
        age_before_some r.count (omega (arith, h.count)),
        trap_history_get-Holds r (a ∷ older) (r.count - 1) h,
        get_elem?-take trap_history_max (r.count - 1) (history (a ∷ older))
            (omega (arith, h.count)),
      )
      (omega (arith, history-seq (a ∷ older) (r.count - 1) (omega (arith, h.count)), h.count))

-- After n traps, n from 1 to 2 ^ 64 - 1, trap_history_oldest_seq is n + 1 less the 128 or fewer
-- records that the ring holds.
pub trap_history_oldest_seq-received :
    (blank : TrapRecord) (a : Arrival) (older : List Arrival)
    → length older + 1 < u64_mod
    → trap_history_oldest_seq (received blank (a ∷ older))
      ≡ length (a ∷ older) + 1 - min (length (a ∷ older)) trap_history_max
trap_history_oldest_seq-received blank a older small =
    trap_history_oldest_seq-Holds (received blank (a ∷ older)) a older
      (received-Holds blank (a ∷ older) (omega arith))

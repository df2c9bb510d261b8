-- ===== src/Saved/Checkpoint.antt =====
-- The passes of the watch loop: when checkpoint_state writes, and how old the file can be.
use sysmon.Base.{ℕ, ◌+◌, ◌≤◌, ◌<◌, ◌≡◌, List, [], ◌∷◌}
use sysmon.Base.{if◌then◌else◌}
use sysmon.Base.Int.{pos, pos_part}
use sysmon.Base.Text.{Text}
use sysmon.Saved.{checkpoint_state}

-- `last`, and when write_state was called, the last call first.
pub record Watch : Type 0 where
  pub last : ℕ
  pub written : List ℕ

unfoldable pub pass : Text → ℕ → Watch → Watch
unfolding checkpoint_state
pass path now w =
    let (last, writes) = checkpoint_state (pos w.last) (pos now) path in
    record { last = pos_part last; written = if writes then now ∷ w.written else w.written }

-- The passes since the start, the last one first.
unfoldable pub passes : Text → List ℕ → Watch
passes path [] = record { last = 0; written = [] }
passes path (now ∷ earlier) = pass path now (passes path earlier)

-- A clock that is set and does not go back.
abbrev pub IsRising : List ℕ → Type 0
IsRising [] = Unit {0}
IsRising (now ∷ []) = 0 < now
IsRising (now ∷ before ∷ earlier) = (before ≤ now) × IsRising (before ∷ earlier)

-- Ten minutes between any call and the next.
abbrev pub IsSpaced : List ℕ → Type 0
IsSpaced [] = Unit {0}
IsSpaced (last ∷ []) = Unit {0}
IsSpaced (last ∷ before ∷ earlier) = (before + 600 ≤ last) × IsSpaced (before ∷ earlier)

-- `last` is the last call, if there was one.
abbrev pub IsLast : ℕ → List ℕ → Type 0
IsLast last [] = Unit {0}
IsLast last (x ∷ earlier) = x ≡ last

record Checkpointed (now : ℕ) (w : Watch) : Type 0 where
  set : 0 < w.last
  past : w.last ≤ now
  recent : now < w.last + 600
  spaced : IsSpaced w.written
  newest : IsLast w.last w.written

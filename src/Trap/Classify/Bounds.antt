-- ===== src/Trap/Classify/Bounds.antt =====
-- The sizes of what classify_trap writes, and its severities.
use sysmon.Base.{◌≡◌, refl, arith, List, [], ◌∷◌}
use sysmon.Base.{some, inl, inr, Bool-cases, Option-cases}
use sysmon.Base.{All}
use sysmon.Base.Text.{bounded, length-bounded}
use sysmon.Trap.Content.{TrapContent}
use sysmon.Trap.Tables.{Standard, trap_standard, warning}
use sysmon.Trap.Classify.{
  hit, find_standard, give_meaning, give_vendor, give_iface, describe_link, classify_trap,
}
use sysmon.Trap.Varbinds.Bounds.{IsSeverity, TextsFit, length-name_vendor}

find_standard-All :
    (P : Standard → Type 0) (out : TrapContent) (table : List Standard) (s : Standard)
    → All P table
    → find_standard out table ≡ some s
    → P s
unfolding find_standard
find_standard-All P out [] s h e = cc
find_standard-All P out (t ∷ table) s h e = elim (Bool-cases (hit out t)) [
  | inl here ↦ let same : some t ≡ some s = rw here at e in let eq : t ≡ s = cc in rw eq at h.0
  | inr there ↦ find_standard-All P out table s h.1 (rw there at e)
]

abbrev HasSeverity : Standard → Type 0
HasSeverity s = IsSeverity (bounded 16 s.severity)

trap_standard-HasSeverity : All HasSeverity trap_standard
unfolding bounded
trap_standard-HasSeverity = (
  inr (inl refl),
  (inr (inl refl), (inl refl, (inr (inr refl), (inr (inl refl), (inr (inl refl), tt))))),
)

warning_fits : bounded 16 warning ≡ warning
unfolding bounded
warning_fits = refl

-- What the classification adds fits, and it leaves the varbinds alone.
module _ (out : TrapContent) (h : TextsFit out) where
  give_meaning-TextsFit : TextsFit (give_meaning out)
  unfolding give_meaning
  give_meaning-TextsFit = elim (Option-cases (find_standard out trap_standard)) [
    | inl e ↦ rw (e, give_meaning) (grind (arith, length-bounded, warning_fits))
    | inr (s, e) ↦
        let level : HasSeverity s =
          find_standard-All HasSeverity out trap_standard s trap_standard-HasSeverity e in
        rw (e, give_meaning) (grind (arith, length-bounded, level))
  ]

  give_vendor-TextsFit : TextsFit (give_vendor out)
  unfolding give_vendor
  give_vendor-TextsFit = grind (arith, length-name_vendor)

  give_iface-TextsFit : TextsFit (give_iface out)
  unfolding give_iface
  give_iface-TextsFit = grind (arith, length-bounded)

  describe_link-TextsFit : TextsFit (describe_link out)
  unfolding describe_link
  describe_link-TextsFit = grind (arith, length-bounded)

pub classify_trap-TextsFit : (out : TrapContent) → TextsFit out → TextsFit (classify_trap out)
unfolding classify_trap
classify_trap-TextsFit out h =
    describe_link-TextsFit _
      (give_iface-TextsFit _ (give_vendor-TextsFit _ (give_meaning-TextsFit out h)))

-- ===== src/Queue/Daemon/Objects.antt =====
-- A write to one object of the configuration, and what is read there and elsewhere.
use sysmon.Base.{ℕ, ◌≡◌, ◌≢◌, ap, ◌∙◌, arith}
use sysmon.Base.{none, some, inl, inr}
use sysmon.Base.{
  if◌then◌else◌, ◌==◌, Bool-cases, Option-cases, get_elem?, get_elem?-set_self, get_elem?-set_ne,
  set,
}
use sysmon.Queue.{Monitored, GraphElement, Graph}
use sysmon.Queue.Walk.{get_elem?-lt}
use sysmon.Queue.Daemon.{object_at, put_object}

object_at-none : (g : Graph) (i : ℕ) → get_elem? g i ≡ none → object_at g i ≡ none
unfolding object_at
object_at-none g i e = rw (e, object_at)

pub object_at-some :
    (g : Graph) (i : ℕ) (e : GraphElement) → get_elem? g i ≡ some e → object_at g i ≡ e.node_data
unfolding object_at
object_at-some g i e f = rw (f, object_at)

put_object-some :
    (g : Graph) (i : ℕ) (e : GraphElement) (d : Monitored)
    → get_elem? g i ≡ some e
    → put_object g i d ≡ set g i (record e { node_data = some d })
unfolding put_object
put_object-some g i e d f = rw (f, put_object)

pub put_object-none :
    (g : Graph) (i : ℕ) (d : Monitored) → get_elem? g i ≡ none → put_object g i d ≡ g
unfolding put_object
put_object-none g i d f = rw (f, put_object)

pub object_at-put_self :
    (g : Graph) (i : ℕ) (d b : Monitored)
    → object_at g i ≡ some b
    → object_at (put_object g i d) i ≡ some d
object_at-put_self g i d b h = elim (Option-cases (get_elem? g i)) [
  | inl f ↦ absurd (ground (arith, h, object_at-none g i f))
  | inr (e, f) ↦
      ap (λ (k : Graph). object_at k i) (put_object-some g i e d f)
      ∙ object_at-some (set g i (record e { node_data = some d })) i
          (record e { node_data = some d })
          (get_elem?-set_self g i (record e { node_data = some d }) (get_elem?-lt g i e f))
]

same_elem : (g k : Graph) (j : ℕ) → get_elem? g j ≡ get_elem? k j → object_at g j ≡ object_at k j
unfolding object_at
same_elem g k j e = rw (e, object_at)

pub object_at-put_ne :
    (g : Graph) (i j : ℕ) (d : Monitored) → i ≢ j → object_at (put_object g i d) j ≡ object_at g j
object_at-put_ne g i j d ne = elim (Option-cases (get_elem? g i)) [
  | inl f ↦ ap (λ (k : Graph). object_at k j) (put_object-none g i d f)
  | inr (e, f) ↦
      ap (λ (k : Graph). object_at k j) (put_object-some g i e d f)
      ∙ same_elem (set g i (record e { node_data = some d })) g j
          (get_elem?-set_ne g {i = i} {j = j} (record e { node_data = some d }) ne)
]

-- The two together, for an object that is there.
pub object_at-put :
    (g : Graph) (i j : ℕ) (d b : Monitored)
    → object_at g i ≡ some b
    → object_at (put_object g i d) j ≡ (if i == j then some d else object_at g j)
object_at-put g i j d b h = elim (Bool-cases (i == j)) [
  | inl same ↦
      let e : j ≡ i = ground (arith, same) in
      rw same (ap (object_at (put_object g i d)) e ∙ object_at-put_self g i d b h)
  | inr other ↦ rw other (object_at-put_ne g i j d (λ e. ground (arith, e, other)))
]

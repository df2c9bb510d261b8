-- ===== src/Load/Names.antt =====
-- Objects with names of their own, and the search by name.
use sysmon.Base.{
  ℕ, zero, suc, ◌≡◌, ◌↔◌, refl, sym, ap, ◌∙◌, arith, true, List, [], ◌∷◌, some, inl, inr,
}
use sysmon.Base.{Bool-cases, Option-cases, get_elem?}
use sysmon.Base.Text.{Text, str_eq, str_eq_iff}
use sysmon.Load.{Parsed, find_object_by_name}

-- No two objects have one name.
pub record HasUniqueNames (all : List Parsed) : Type 0 where
  pub unique :
      (i j : ℕ) (a b : Parsed)
      → get_elem? all i ≡ some a
      → get_elem? all j ≡ some b
      → a.unique_name ≡ b.unique_name
      → i ≡ j

pub find_object_by_name-found :
    (all : List Parsed) (name : Text) (i : ℕ)
    → find_object_by_name all name ≡ some i
    → (e : Parsed) × ((get_elem? all i ≡ some e) × (e.unique_name ≡ name))
unfolding find_object_by_name
find_object_by_name-found [] name i e = cc
find_object_by_name-found (here ∷ more) name i e =
    elim (Bool-cases (str_eq here.unique_name name)) [
      | inl same ↦
          let at : 0 ≡ i = ground (arith, e, same) in
          rw (← at) (here, (refl, (str_eq_iff here.unique_name name).0 same))
      | inr other ↦ elim (Option-cases (find_object_by_name more name)) [
        | inl f ↦ absurd (ground (arith, e, other, f))
        | inr (k, f) ↦
            let at : suc k ≡ i = ground (arith, e, other, f) in
            rw (← at) (find_object_by_name-found more name k f)
      ]
    ]

-- An object that is there is found, or another of its name.
pub find_object_by_name-some :
    (all : List Parsed) (i : ℕ) (e : Parsed)
    → get_elem? all i ≡ some e
    → (k : ℕ) × (find_object_by_name all e.unique_name ≡ some k)
unfolding find_object_by_name
find_object_by_name-some [] i e f = cc
find_object_by_name-some (here ∷ more) zero e f =
    let same : str_eq here.unique_name e.unique_name ≡ true =
      (str_eq_iff here.unique_name e.unique_name).1 (cc) in
    (0, rw same refl)
find_object_by_name-some (here ∷ more) (suc i) e f =
    elim (Bool-cases (str_eq here.unique_name e.unique_name)) [
      | inl same ↦ (0, rw same refl)
      | inr other ↦
          let (k, g) = find_object_by_name-some more i e f in (suc k, rw other (ground (arith, g)))
    ]

module _ (all : List Parsed) (u : HasUniqueNames all) where
  pub find_object_by_name_iff :
      (i : ℕ) (e : Parsed) (name : Text)
      → get_elem? all i ≡ some e
      → (find_object_by_name all name ≡ some i) ↔ (e.unique_name ≡ name)
  find_object_by_name_iff i e name f = (
    λ g.
        let (b, (h, n)) = find_object_by_name-found all name i g in
        let same : e ≡ b = ground (arith, f, h) in ap (λ (x : Parsed). x.unique_name) same ∙ n,
    λ n.
        let (k, g) = find_object_by_name-some all i e f in
        let (b, (h, m)) = find_object_by_name-found all e.unique_name k g in
        let at : k ≡ i = u.unique k i b e h f m in
        ap (find_object_by_name all) (sym n) ∙ g ∙ ap some at,
  )

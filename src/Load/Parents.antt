-- ===== src/Load/Parents.antt =====
-- "Collect my parents" of make_adjs: the objects that one depends on.
use sysmon.Base.{ℕ, ◌≡◌, ◌⊎◌, refl, sym, ap, ◌∙◌, arith}
use sysmon.Base.{true, false, List, [], ◌∷◌, none, some, inl, inr, In}
use sysmon.Base.{if◌then◌else◌, Bool-cases, Option-cases}
use mathlib.Core.Path.{subst}
use sysmon.Base.Text.{Text}
use sysmon.Load.{Parsed, Adjs, is_marked, find_object_by_name, add_adj, collect_parents}
use sysmon.Load.Names.{HasUniqueNames, find_object_by_name-found}
use sysmon.Load.Neighbors.{Listed, IsAdjs, add_adj-Listed, add_adj-IsAdjs, is_marked-set}

-- The object is the one that a name of the list finds.
abbrev pub FoundIn : List Parsed → List Text → ℕ → Type 0
FoundIn all deps j = (dep : Text) × (In dep deps × (find_object_by_name all dep ≡ some j))

-- What "Collect my parents" does with the names.
pub record Parents (all : List Parsed) (deps : List Text) (s t : Adjs) : Type 0 where
  pub adjs : IsAdjs all t
  pub grows : (j : ℕ) → Listed s j → Listed t j
  pub sound : (j : ℕ) → Listed t j → Listed s j ⊎ FoundIn all deps j
  pub complete : (j : ℕ) → FoundIn all deps j → Listed t j
  pub marked : (j : ℕ) → is_marked t.visit j ≡ true → Listed t j

-- At one name.
record Parent (all : List Parsed) (dep : Text) (s t : Adjs) : Type 0 where
  adjs : IsAdjs all t
  grows : (j : ℕ) → Listed s j → Listed t j
  sound : (j : ℕ) → Listed t j → Listed s j ⊎ (find_object_by_name all dep ≡ some j)
  complete : (j : ℕ) → find_object_by_name all dep ≡ some j → Listed t j
  marked : (j : ℕ) → is_marked t.visit j ≡ true → Listed t j

abbrev one_parent : List Parsed → Text → Adjs → Adjs
one_parent all dep s = elim (find_object_by_name all dep) [
  | none ↦ s
  | some found ↦ if is_marked s.visit found then s else add_adj all found found s
]

module _ (all : List Parsed) (u : HasUniqueNames all) where
  one_parent-Parent :
      (dep : Text) (s : Adjs)
      → IsAdjs all s
      → ((j : ℕ) → is_marked s.visit j ≡ true → Listed s j)
      → Parent all dep s (one_parent all dep s)
  one_parent-Parent dep s h m = elim (Option-cases (find_object_by_name all dep)) [
    | inl f ↦ subst (Parent all dep s) (sym (none_found f)) (record {
      adjs = h;
      grows = λ j k. k;
      sound = λ j k. inl k;
      complete = λ j g. absurd (ground (arith, f, g));
      marked = m;
    })
    | inr (p, f) ↦ elim (Bool-cases (is_marked s.visit p)) [
      | inl old ↦ subst (Parent all dep s) (sym (old_found p f old)) (record {
        adjs = h;
        grows = λ j k. k;
        sound = λ j k. inl k;
        complete = λ j g. let at : p ≡ j = ground (arith, f, g) in subst (Listed s) at (m p old);
        marked = m;
      })
      | inr new ↦
          let (e, (there, n)) = find_object_by_name-found all dep p f in
          let listed = λ (j : ℕ). add_adj-Listed all u p e there p j s h in
          subst (Parent all dep s) (sym (new_found p f new)) (record {
            adjs = add_adj-IsAdjs all u p e there p s h;
            grows = λ j k. (listed j).1 (inl k);
            sound =
                λ j k. elim ((listed j).0 k) [ inl old ↦ inl old | inr at ↦ inr (f ∙ ap some at) ];
            complete = λ j g. (listed j).1 (inr (ground (arith, f, g)));
            marked = λ j v. (listed j).1 (elim (is_marked-set s.visit p j (unfold add_adj in v)) [
              | inl old ↦ inl (m j old)
              | inr at ↦ inr (sym at)
            ]);
          })
    ]
  ]
    where
      none_found : find_object_by_name all dep ≡ none → one_parent all dep s ≡ s
      none_found f = ground (arith, f)

      old_found :
          (p : ℕ)
          → find_object_by_name all dep ≡ some p
          → is_marked s.visit p ≡ true
          → one_parent all dep s ≡ s
      old_found p f old = ground (arith, f, old)

      new_found :
          (p : ℕ)
          → find_object_by_name all dep ≡ some p
          → is_marked s.visit p ≡ false
          → one_parent all dep s ≡ add_adj all p p s
      new_found p f new = ground (arith, f, new)

  pub collect_parents-Parents :
      (deps : List Text) (s : Adjs)
      → IsAdjs all s
      → ((j : ℕ) → is_marked s.visit j ≡ true → Listed s j)
      → Parents all deps s (collect_parents all deps s)
  unfolding collect_parents
  collect_parents-Parents [] s h m = record {
    adjs = h;
    grows = λ j k. k;
    sound = λ j k. inl k;
    complete = λ j f. absurd f.1.0;
    marked = m;
  }
  collect_parents-Parents (dep ∷ deps) s h m =
      let one = one_parent-Parent dep s h m in
      let rest = collect_parents-Parents deps (one_parent all dep s) one.adjs one.marked in
      record {
        adjs = rest.adjs;
        grows = λ j k. rest.grows j (one.grows j k);
        sound = λ j k. elim (rest.sound j k) [
          | inr (d, (i, f)) ↦ inr (d, (inr i, f))
          | inl k ↦ elim (one.sound j k) [ inl k ↦ inl k | inr f ↦ inr (dep, (inl refl, f)) ]
        ];
        complete = λ j f. complete j f one rest;
        marked = rest.marked;
      }
    where
      complete :
          (j : ℕ)
          → FoundIn all (dep ∷ deps) j
          → Parent all dep s (one_parent all dep s)
          → Parents all deps
              (one_parent all dep s)
              (collect_parents all deps (one_parent all dep s))
          → Listed (collect_parents all deps (one_parent all dep s)) j
      complete j (d, (inl at, f)) one rest =
          rest.grows j (one.complete j (ap (find_object_by_name all) at ∙ f))
      complete j (d, (inr i, f)) one rest = rest.complete j (d, (i, f))

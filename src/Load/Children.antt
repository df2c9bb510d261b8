-- ===== src/Load/Children.antt =====
-- "Collect my Children/sibs" of make_adjs: the objects that depend on the name.
use sysmon.Base.{ℕ, zero, suc, ◌+◌, ◌≡◌, ◌≢◌, ◌⊎◌, refl, sym, ap, ◌∙◌, arith}
use sysmon.Base.{true, false, List, [], ◌∷◌, none, some, inl, inr, In}
use sysmon.Base.{◌==◌, Bool-cases, length-set, get_elem?, set}
use mathlib.Core.Path.{subst}
use sysmon.Base.Text.{Text}
use sysmon.Load.{
  Parsed, Adjs, is_marked, find_object_by_name, search_dep_list, add_adj, collect_child,
  collect_children,
}
use sysmon.Load.Names.{HasUniqueNames, find_object_by_name_iff}
use sysmon.Load.Neighbors.{
  Listed, IsAdjs, add_adj-Listed, add_adj-IsAdjs, is_marked-set, search_marked, search_cases,
}

-- An object that depends on the name.
abbrev pub Names : List Parsed → Text → ℕ → Type 0
Names all name j = (e : Parsed) × ((get_elem? all j ≡ some e) × In name e.dep_txt_name)

-- At one object, which is not the one with the name.
record Child (all : List Parsed) (here : ℕ) (name : Text) (k : ℕ) (s t : Adjs) : Type 0 where
  adjs : IsAdjs all t
  grows : (j : ℕ) → Listed s j → Listed t j
  sound : (j : ℕ) → Listed t j → Listed s j ⊎ ((j ≡ k) × Names all name j)
  complete : Names all name k → Listed t k
  marked : (j : ℕ) → is_marked t.visit j ≡ true → Listed t j ⊎ (j ≡ here)

pub record Children (all : List Parsed) (here : ℕ) (name : Text) (k : ℕ) (more : List Parsed)
    (s t : Adjs) : Type 0 where
  pub adjs : IsAdjs all t
  pub grows : (j : ℕ) → Listed s j → Listed t j
  pub sound : (j : ℕ) → Listed t j → Listed s j ⊎ ((j ≢ here) × Names all name j)
  pub complete :
      (i : ℕ) (e : Parsed)
      → get_elem? more i ≡ some e
      → k + i ≢ here
      → In name e.dep_txt_name
      → Listed t (k + i)

module _ (all : List Parsed) (u : HasUniqueNames all) (here : ℕ) (self : Parsed)
    (at_here : get_elem? all here ≡ some self) where
  module _ (k : ℕ) (e : Parsed) (at_k : get_elem? all k ≡ some e) (s : Adjs)
      (h : IsAdjs all s) where
    quiet_child :
        search_dep_list all k e.dep_txt_name self.unique_name s.visit ≡ (none, s.visit)
        → collect_child all self.unique_name k e s ≡ s
    unfolding collect_child
    quiet_child q = ground (arith, q)

    new_child :
        search_dep_list all k e.dep_txt_name self.unique_name s.visit
          ≡ (find_object_by_name all self.unique_name, set s.visit k true)
        → collect_child all self.unique_name k e s
          ≡ add_adj all here k (record s { visit = set s.visit k true })
    unfolding collect_child
    new_child q =
        ground (arith, q, (find_object_by_name_iff all u here self self.unique_name at_here).1 refl)

    collect_child-Child :
        k ≢ here
        → ((j : ℕ) → is_marked s.visit j ≡ true → Listed s j ⊎ (j ≡ here))
        → Child all here self.unique_name k s (collect_child all self.unique_name k e s)
    collect_child-Child other m = elim (Bool-cases (is_marked s.visit k)) [
      | inl old ↦
          subst (Child all here self.unique_name k s)
            (sym (quiet_child (search_marked all k self.unique_name s.visit e.dep_txt_name old)))
            (record {
              adjs = h;
              grows = λ j l. l;
              sound = λ j l. inl l;
              complete = λ n. elim (m k old) [ inl l ↦ l | inr at ↦ absurd (other at) ];
              marked = m;
            })
      | inr new ↦ elim (search_cases all k self.unique_name s.visit e.dep_txt_name new) [
        | inr (no_dep, q) ↦
            subst (Child all here self.unique_name k s) (sym (quiet_child q)) (record {
              adjs = h;
              grows = λ j l. l;
              sound = λ j l. inl l;
              complete = λ n. absurd (no_dep (same_deps n));
              marked = m;
            })
        | inl (dep, q) ↦
            let listed = λ (j : ℕ).
              add_adj-Listed all u k e at_k here j (record s { visit = set s.visit k true }) h' in
            subst (Child all here self.unique_name k s) (sym (new_child q)) (record {
              adjs =
                  add_adj-IsAdjs all u k e at_k here (record s { visit = set s.visit k true }) h';
              grows = λ j l. (listed j).1 (inl l);
              sound = λ j l. elim ((listed j).0 l) [
                | inl l ↦ inl l
                | inr at ↦ inr (sym at, (e, (ap (get_elem? all) (sym at) ∙ at_k, dep)))
              ];
              complete = λ n. (listed k).1 (inr refl);
              marked = λ j v.
                  elim (is_marked-set (set s.visit k true) here j (unfold add_adj in v)) [
                    | inr at ↦ inr at
                    | inl v ↦ elim (is_marked-set s.visit k j v) [
                      | inr at ↦ inl ((listed j).1 (inr (sym at)))
                      | inl v ↦ elim (m j v) [
                        | inl l ↦ inl ((listed j).1 (inl l))
                        | inr at ↦ inr at
                      ]
                    ]
                  ];
            })
      ]
    ]
      where
        h' : IsAdjs all (record s { visit = set s.visit k true })
        h' = record {
          neis = h.neis;
          size = length-set s.visit k true ∙ h.size;
          counted = h.counted;
          nodup = h.nodup;
        }

        same_deps : Names all self.unique_name k → In self.unique_name e.dep_txt_name
        same_deps (b, (at_b, i)) =
            let same : b ≡ e = ground (arith, at_b, at_k) in
            subst (λ (x : Parsed). In self.unique_name x.dep_txt_name) same i

  pub collect_children-Children :
      (more : List Parsed) (k : ℕ) (s : Adjs)
      → ((i : ℕ) (e : Parsed) → get_elem? more i ≡ some e → get_elem? all (k + i) ≡ some e)
      → IsAdjs all s
      → ((j : ℕ) → is_marked s.visit j ≡ true → Listed s j ⊎ (j ≡ here))
      → Children all here self.unique_name k more s
          (collect_children all here self.unique_name k more s)
  unfolding collect_children
  collect_children-Children [] k s place h m = record {
    adjs = h;
    grows = λ j l. l;
    sound = λ j l. inl l;
    complete = λ i e f. absurd (ground (arith, f));
  }
  collect_children-Children (e ∷ more) k s place h m = elim (Bool-cases (k == here)) [
    | inl own ↦ rw own (
        let rest = collect_children-Children more (suc k) s (shifted place) h m in
        record {
          adjs = rest.adjs;
          grows = rest.grows;
          sound = rest.sound;
          complete = λ i b f ne n. own_complete own i b f ne n rest;
        })
    | inr other ↦ rw other (
        let one = collect_child-Child k e (first place) s h (apart other) m in
        let rest =
          collect_children-Children more (suc k) (collect_child all self.unique_name k e s)
            (shifted place) one.adjs one.marked in
        record {
          adjs = rest.adjs;
          grows = λ j l. rest.grows j (one.grows j l);
          sound = λ j l. elim (rest.sound j l) [
            | inr n ↦ inr n
            | inl l ↦ elim (one.sound j l) [
              | inl l ↦ inl l
              | inr (same, n) ↦ inr ((λ f. apart other (sym same ∙ f)), n)
            ]
          ];
          complete = λ i b f ne n. other_complete (first place) i b f ne n one rest;
        })
  ]
    where
      apart : (k == here) ≡ false → k ≢ here
      apart other f = absurd (ground (arith, other, f))

      first :
          ((i : ℕ) (b : Parsed) → get_elem? (e ∷ more) i ≡ some b → get_elem? all (k + i) ≡ some b)
          → get_elem? all k ≡ some e
      first place = let z : k ≡ k + 0 = omega arith in ap (get_elem? all) z ∙ place 0 e refl

      shifted :
          ((i : ℕ) (b : Parsed) → get_elem? (e ∷ more) i ≡ some b → get_elem? all (k + i) ≡ some b)
          → (i : ℕ) (b : Parsed) → get_elem? more i ≡ some b
          → get_elem? all (suc k + i) ≡ some b
      shifted place i b f =
          let same : suc k + i ≡ k + suc i = omega arith in
          ap (get_elem? all) same ∙ place (suc i) b f

      later :
          {t t' : Adjs} (i : ℕ) (b : Parsed)
          → get_elem? more i ≡ some b
          → k + suc i ≢ here
          → In self.unique_name b.dep_txt_name
          → Children all here self.unique_name (suc k) more t t'
          → Listed t' (k + suc i)
      later {t} {t'} i b f ne n rest =
          let same : suc k + i ≡ k + suc i = omega arith in
          subst (Listed t') same (rest.complete i b f (λ g. ne (sym same ∙ g)) n)

      own_complete :
          {t t' : Adjs}
          → (k == here) ≡ true
          → (i : ℕ) (b : Parsed) → get_elem? (e ∷ more) i ≡ some b
          → k + i ≢ here
          → In self.unique_name b.dep_txt_name
          → Children all here self.unique_name (suc k) more t t'
          → Listed t' (k + i)
      own_complete own zero b f ne n rest = absurd (ne (ground (arith, own)))
      own_complete own (suc i) b f ne n rest = later i b f ne n rest

      other_complete :
          {t t' : Adjs}
          → get_elem? all k ≡ some e
          → (i : ℕ) (b : Parsed) → get_elem? (e ∷ more) i ≡ some b
          → k + i ≢ here
          → In self.unique_name b.dep_txt_name
          → Child all here self.unique_name k s t
          → Children all here self.unique_name (suc k) more t t'
          → Listed t' (k + i)
      other_complete {t} {t'} at_k zero b f ne n one rest =
          let z : k ≡ k + 0 = omega arith in
          subst (Listed t') z (rest.grows k (one.complete (b, (at_k ∙ f, n))))
      other_complete at_k (suc i) b f ne n one rest = later i b f ne n rest

-- ===== src/Load/Adjacent.antt =====
-- The neighbors that make_adjs gives to an object: what it depends on, and what depends on it.
use sysmon.Base.{ℕ, zero, suc, ◌+◌, ◌≤◌, ◌≡◌, ◌≢◌, ◌↔◌, ◌⊎◌, refl, sym, ap, ◌∙◌, arith}
use sysmon.Base.{false, List, [], ◌∷◌, map, some, inl, inr, In}
use sysmon.Base.{◌==◌, Bool-cases, length, get_elem?, replicate}
use mathlib.Core.Path.{subst}
use sysmon.Base.Text.{Text}
use sysmon.Load.{
  Parsed, Nei, Adjs, is_marked, collect_parents, collect_children, adjs_of, neighbors_of, make_adjs,
  adjs_from,
}
use sysmon.Load.Names.{HasUniqueNames, find_object_by_name-found, find_object_by_name_iff}
use sysmon.Load.Neighbors.{Listed, IsNodup, IsAdjs}
use sysmon.Load.Parents.{FoundIn, Parents, collect_parents-Parents}
use sysmon.Load.Children.{Names, Children, collect_children-Children}

-- The object depends on the name of the other.
abbrev pub DependsOn : List Parsed → ℕ → ℕ → Type 0
DependsOn all i j =
    (a : Parsed) × ((b : Parsed) × ((get_elem? all i ≡ some a)
        × ((get_elem? all j ≡ some b) × In b.unique_name a.dep_txt_name)))

length-replicate : (n : ℕ) → length (replicate n false) ≡ n
length-replicate zero = refl
length-replicate (suc n) = ap suc (length-replicate n)

not-is_marked : (n j : ℕ) → is_marked (replicate n false) j ≡ false
unfolding is_marked
not-is_marked zero j = refl
not-is_marked (suc n) zero = refl
not-is_marked (suc n) (suc j) = not-is_marked n j

abbrev blank : List Parsed → Adjs
blank all = record { visit = replicate (length all) false; my_nei_list = []; numnei = 0 }

blank-IsAdjs : (all : List Parsed) → IsAdjs all (blank all)
blank-IsAdjs all = record {
  neis = tt;
  size = length-replicate (length all);
  counted = omega arith;
  nodup = tt;
}

module _ (all : List Parsed) (u : HasUniqueNames all) (here : ℕ) (self : Parsed)
    (at_here : get_elem? all here ≡ some self) where
  FoundIn-DependsOn : (j : ℕ) → FoundIn all self.dep_txt_name j ↔ DependsOn all here j
  FoundIn-DependsOn j = (λ f. to f, λ d. from d)
    where
      to : FoundIn all self.dep_txt_name j → DependsOn all here j
      to (dep, (i, f)) =
          let (b, (at, n)) = find_object_by_name-found all dep j f in
          (self, (b, (at_here, (at, subst (λ (t : Text). In t self.dep_txt_name) (sym n) i))))

      from : DependsOn all here j → FoundIn all self.dep_txt_name j
      from (a, (b, (at_a, (at_b, i)))) =
          let same : a ≡ self = ground (arith, at_a, at_here) in
          (
            b.unique_name,
            (
              subst (λ (x : Parsed). In b.unique_name x.dep_txt_name) same i,
              (find_object_by_name_iff all u j b b.unique_name at_b).1 refl,
            ),
          )

  Names-DependsOn : (j : ℕ) → Names all self.unique_name j ↔ DependsOn all j here
  Names-DependsOn j = (λ n. to n, λ d. from d)
    where
      to : Names all self.unique_name j → DependsOn all j here
      to (e, (at, i)) = (e, (self, (at, (at_here, i))))

      from : DependsOn all j here → Names all self.unique_name j
      from (a, (b, (at_a, (at_b, i)))) =
          let same : b ≡ self = ground (arith, at_b, at_here) in
          (a, (at_a, subst (λ (x : Parsed). In x.unique_name a.dep_txt_name) same i))

  adjs_of-DependsOn :
      IsAdjs all (adjs_of all here self)
      × ((j : ℕ)
          → Listed (adjs_of all here self) j
            ↔ (DependsOn all here j ⊎ ((j ≢ here) × DependsOn all j here)))
  unfolding adjs_of
  adjs_of-DependsOn =
      let p =
        collect_parents-Parents all u self.dep_txt_name (blank all) (blank-IsAdjs all)
          (λ j v. absurd (ground (arith, v, not-is_marked (length all) j))) in
      let c =
        collect_children-Children all u here self at_here all 0
          (collect_parents all self.dep_txt_name (blank all))
          (λ i e f. (let z : 0 + i ≡ i = omega arith in ap (get_elem? all) z ∙ f)) p.adjs
          (λ j v. inl (p.marked j v)) in
      (c.adjs, λ j. (λ l. sound j l p c, λ d. complete j d p c))
    where
      sound :
          (j : ℕ)
          → Listed
              (collect_children all here self.unique_name 0 all
                (collect_parents all self.dep_txt_name (blank all)))
              j
          → Parents all self.dep_txt_name
              (blank all)
              (collect_parents all self.dep_txt_name (blank all))
          → Children all here self.unique_name 0 all
              (collect_parents all self.dep_txt_name (blank all))
              (collect_children all here self.unique_name 0 all
                (collect_parents all self.dep_txt_name (blank all)))
          → DependsOn all here j ⊎ ((j ≢ here) × DependsOn all j here)
      sound j l p c = elim (c.sound j l) [
        | inr (ne, n) ↦ inr (ne, (Names-DependsOn j).0 n)
        | inl l ↦ elim (p.sound j l) [ inl l ↦ absurd l | inr f ↦ inl ((FoundIn-DependsOn j).0 f) ]
      ]

      complete :
          (j : ℕ)
          → DependsOn all here j ⊎ ((j ≢ here) × DependsOn all j here)
          → Parents all self.dep_txt_name
              (blank all)
              (collect_parents all self.dep_txt_name (blank all))
          → Children all here self.unique_name 0 all
              (collect_parents all self.dep_txt_name (blank all))
              (collect_children all here self.unique_name 0 all
                (collect_parents all self.dep_txt_name (blank all)))
          → Listed
              (collect_children all here self.unique_name 0 all
                (collect_parents all self.dep_txt_name (blank all)))
              j
      complete j (inl d) p c = c.grows j (p.complete j ((FoundIn-DependsOn j).1 d))
      complete j (inr (ne, d)) p c =
          let (e, (at, i)) = (Names-DependsOn j).1 d in
          let z : 0 + j ≡ j = omega arith in
          subst
            (Listed (
              collect_children all here self.unique_name 0 all
                (collect_parents all self.dep_txt_name (blank all))))
            z (c.complete j e at (λ f. ne (sym z ∙ f)) i)

  -- The array has a place for each neighbor, and none is left out.
  neighbors_of-map :
      neighbors_of all here self ≡ map (λ nei. nei.g_element) (adjs_of all here self).my_nei_list
  unfolding neighbors_of
  neighbors_of-map = elim (Bool-cases ((adjs_of all here self).numnei == 0)) [
    | inl empty ↦
        rw empty (no_neis (adjs_of all here self) (ground (arith, empty)) adjs_of-DependsOn.0)
    | inr some_there ↦ rw some_there refl
  ]
    where
      no_neis :
          (s : Adjs) → s.numnei ≡ 0 → IsAdjs all s → [] ≡ map (λ nei. nei.g_element) s.my_nei_list
      no_neis s e h = none_left s.my_nei_list (omega (arith, h.counted, e))
        where
          none_left : (neis : List Nei) → length neis ≤ 0 → [] ≡ map (λ nei. nei.g_element) neis
          none_left [] l = refl
          none_left (x ∷ neis) l = absurd (omega (arith, l))

get_elem?-adjs_from :
    (all more : List Parsed) (k i : ℕ) (ns : List ℕ)
    → get_elem? (adjs_from all k more) i ≡ some ns
    → (e : Parsed) × ((get_elem? more i ≡ some e) × (ns ≡ neighbors_of all (k + i) e))
unfolding adjs_from
get_elem?-adjs_from all [] k i ns f = cc
get_elem?-adjs_from all (e ∷ more) k zero ns f =
    let z : k ≡ k + 0 = omega arith in
    (e, (refl, ground (arith, f) ∙ ap (λ (n : ℕ). neighbors_of all n e) z))
get_elem?-adjs_from all (e ∷ more) k (suc i) ns f =
    let (b, (at, same)) = get_elem?-adjs_from all more (suc k) i ns f in
    let z : suc k + i ≡ k + suc i = omega arith in
    (b, (at, same ∙ ap (λ (n : ℕ). neighbors_of all n b) z))

-- Where no two objects have one name, the neighbors of an object are exactly the objects that it
-- depends on by their names, and the other objects that depend on its name; none of them stands there
-- twice, and no name of an object that does not exist gives one.
pub make_adjs-DependsOn :
    (all : List Parsed) (i : ℕ) (ns : List ℕ)
    → HasUniqueNames all
    → get_elem? (make_adjs all) i ≡ some ns
    → IsNodup ns × ((j : ℕ) → In j ns ↔ (DependsOn all i j ⊎ ((j ≢ i) × DependsOn all j i)))
unfolding make_adjs
make_adjs-DependsOn all i ns u f =
    let (e, (at, same)) = get_elem?-adjs_from all all 0 i ns f in
    let z : 0 + i ≡ i = omega arith in
    let listed = same ∙ ap (λ (n : ℕ). neighbors_of all n e) z ∙ neighbors_of-map all u i e at in
    let (adjs, iff) = adjs_of-DependsOn all u i e at in
    subst
      (λ (l : List ℕ).
        IsNodup l × ((j : ℕ) → In j l ↔ (DependsOn all i j ⊎ ((j ≢ i) × DependsOn all j i))))
      (sym listed) (adjs.nodup, iff)

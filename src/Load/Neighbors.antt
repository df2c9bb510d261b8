-- ===== src/Load/Neighbors.antt =====
-- The list of neighbors of one object while make_adjs collects it: one more neighbor, and the search
-- in the names that another object depends on.
use sysmon.Base.{ℕ, ◌+◌, ◌≤◌, ◌<◌, ◌≡◌, ◌↔◌, ◌⊎◌, refl, sym, ap, ◌∙◌, arith}
use sysmon.Base.{Bool, true, false, List, [], ◌∷◌, map, none, some, inl, inr, All, In}
use sysmon.Base.{
  ◌==◌, Bool-cases, length, length-set, get_elem?, set, get_elem?-set_self, get_elem?-set_ne,
}
use mathlib.Core.Path.{subst}
use sysmon.Base.Text.{Text, str_eq, str_eq_iff}
use sysmon.Load.{
  Parsed, Nei, Adjs, is_marked, find_object_by_name, search_dep_list, has_name,
  make_adjs_add_neighbor, name_at, add_adj,
}
use sysmon.Load.Names.{HasUniqueNames}

-- The object stands among the neighbors so far.
abbrev pub Listed : Adjs → ℕ → Type 0
Listed s j = In j (map (λ nei. nei.g_element) s.my_nei_list)

-- A neighbor carries the name of its object.
pub record IsNei (all : List Parsed) (nei : Nei) : Type 0 where
  pub object : Parsed
  pub there : get_elem? all nei.g_element ≡ some object
  pub named : object.unique_name ≡ nei.nei_name

-- No object twice.
abbrev pub IsNodup : List ℕ → Type 0
IsNodup [] = Unit {0}
IsNodup (x ∷ xs) = (In x xs → ⊥) × IsNodup xs

pub record IsAdjs (all : List Parsed) (s : Adjs) : Type 0 where
  pub neis : All (IsNei all) s.my_nei_list
  pub size : length s.visit ≡ length all
  pub counted : length s.my_nei_list ≤ s.numnei
  pub nodup : IsNodup (map (λ nei. nei.g_element) s.my_nei_list)

module _ (all : List Parsed) (u : HasUniqueNames all) (i : ℕ) (e : Parsed)
    (here : get_elem? all i ≡ some e) where
  has_name-Listed :
      (neis : List Nei)
      → All (IsNei all) neis
      → (has_name e.unique_name neis ≡ true) ↔ In i (map (λ nei. nei.g_element) neis)
  unfolding has_name
  has_name-Listed [] h = ((λ f. absurd (ground (arith, f))), (λ k. absurd k))
  has_name-Listed (nei ∷ more) (h, hs) = elim (Bool-cases (str_eq nei.nei_name e.unique_name)) [
    | inl same ↦ rw same (
      (λ f. inl (
          u.unique nei.g_element i h.object e h.there here
            (h.named ∙ (str_eq_iff nei.nei_name e.unique_name).0 same))),
      (λ k. refl),
    )
    | inr other ↦ rw other (beyond other (has_name-Listed more hs))
  ]
    where
      beyond :
          str_eq nei.nei_name e.unique_name ≡ false
          → (has_name e.unique_name more ≡ true) ↔ In i (map (λ nei. nei.g_element) more)
          → (has_name e.unique_name more ≡ true) ↔ In i (map (λ nei. nei.g_element) (nei ∷ more))
      beyond other r = ((λ f. inr (r.0 f)), (λ k. later other r k))
        where
          later :
              str_eq nei.nei_name e.unique_name ≡ false
              → (has_name e.unique_name more ≡ true) ↔ In i (map (λ nei. nei.g_element) more)
              → In i (map (λ nei. nei.g_element) (nei ∷ more))
              → has_name e.unique_name more ≡ true
          later other r (inr k) = r.1 k
          later other r (inl at) =
              let same : h.object ≡ e = ground (arith, h.there, here, ap (get_elem? all) at) in
              let name : nei.nei_name ≡ e.unique_name =
                sym h.named ∙ ap (λ (x : Parsed). x.unique_name) same in
              absurd (ground (arith, other, (str_eq_iff nei.nei_name e.unique_name).1 name))

  -- The list with the object as a neighbor: the names decide, and stand for the objects.
  add_neighbor-Listed :
      (neis : List Nei) (j : ℕ)
      → All (IsNei all) neis
      → In j (map (λ nei. nei.g_element) (make_adjs_add_neighbor neis i e.unique_name))
        ↔ (In j (map (λ nei. nei.g_element) neis) ⊎ (i ≡ j))
  unfolding make_adjs_add_neighbor
  add_neighbor-Listed neis j h = elim (Bool-cases (has_name e.unique_name neis)) [
    | inl old ↦ rw old (
      (λ k. inl k),
      (λ k. elim k [
        | inl k ↦ k
        | inr at ↦
            subst (λ x. In x (map (λ nei. nei.g_element) neis)) at ((has_name-Listed neis h).0 old)
      ]),
    )
    | inr new ↦ rw new (
      (λ k. elim k [ inl at ↦ inr at | inr k ↦ inl k ]),
      (λ k. elim k [ inl k ↦ inr k | inr at ↦ inl at ]),
    )
  ]

  add_neighbor-All :
      (neis : List Nei)
      → All (IsNei all) neis
      → All (IsNei all) (make_adjs_add_neighbor neis i e.unique_name)
  unfolding make_adjs_add_neighbor
  add_neighbor-All neis h = elim (Bool-cases (has_name e.unique_name neis)) [
    | inl old ↦ rw old h
    | inr new ↦ rw new (record { object = e; there = here; named = refl }, h)
  ]

  add_neighbor-IsNodup :
      (neis : List Nei)
      → All (IsNei all) neis
      → IsNodup (map (λ nei. nei.g_element) neis)
      → IsNodup (map (λ nei. nei.g_element) (make_adjs_add_neighbor neis i e.unique_name))
  unfolding make_adjs_add_neighbor
  add_neighbor-IsNodup neis h n = elim (Bool-cases (has_name e.unique_name neis)) [
    | inl old ↦ rw old n
    | inr new ↦ rw new ((λ k. absurd (ground (arith, new, (has_name-Listed neis h).1 k))), n)
  ]

  length-add_neighbor :
      (neis : List Nei) → length (make_adjs_add_neighbor neis i e.unique_name) ≤ length neis + 1
  unfolding make_adjs_add_neighbor
  length-add_neighbor neis = ground arith

  name_at-here : name_at all i ≡ e.unique_name
  name_at-here = rw (here, name_at) refl

  pub add_adj-Listed :
      (marked j : ℕ) (s : Adjs)
      → IsAdjs all s
      → Listed (add_adj all marked i s) j ↔ (Listed s j ⊎ (i ≡ j))
  unfolding add_adj
  add_adj-Listed marked j s h = rw name_at-here (add_neighbor-Listed s.my_nei_list j h.neis)

  pub add_adj-IsAdjs : (marked : ℕ) (s : Adjs) → IsAdjs all s → IsAdjs all (add_adj all marked i s)
  unfolding add_adj
  add_adj-IsAdjs marked s h = rw name_at-here (record {
    neis = add_neighbor-All s.my_nei_list h.neis;
    size = length-set s.visit marked true ∙ h.size;
    counted = omega (arith, length-add_neighbor s.my_nei_list, h.counted);
    nodup = add_neighbor-IsNodup s.my_nei_list h.neis h.nodup;
  })

-- A visit flag that is set, and the others.
pub is_marked-set_self :
    (visit : List Bool) (i : ℕ) → i < length visit → is_marked (set visit i true) i ≡ true
unfolding is_marked
is_marked-set_self visit i h = rw (get_elem?-set_self visit i true h) refl

pub is_marked-set :
    (visit : List Bool) (i j : ℕ)
    → is_marked (set visit i true) j ≡ true
    → (is_marked visit j ≡ true) ⊎ (j ≡ i)
unfolding is_marked
is_marked-set visit i j h = elim (Bool-cases (i == j)) [
  | inl same ↦ inr (ground (arith, same))
  | inr other ↦
      inl (rw (get_elem?-set_ne visit {i = i} {j = j} true (λ e. ground (arith, other, e))) at h)
]

pub is_marked-keeps :
    (visit : List Bool) (i j : ℕ)
    → is_marked visit j ≡ true
    → j < length visit
    → is_marked (set visit i true) j ≡ true
unfolding is_marked
is_marked-keeps visit i j h lt = elim (Bool-cases (i == j)) [
  | inl same ↦
      let at : j ≡ i = ground (arith, same) in
      ap (λ (k : ℕ). is_marked (set visit i true) k) at
      ∙ is_marked-set_self visit i (omega (arith, at, lt))
  | inr other ↦ rw (get_elem?-set_ne visit {i = i} {j = j} true (λ e. ground (arith, other, e))) h
]

module _ (all : List Parsed) (here : ℕ) (name : Text) (visit : List Bool) where
  pub search_marked :
      (deps : List Text)
      → is_marked visit here ≡ true
      → search_dep_list all here deps name visit ≡ (none, visit)
  unfolding search_dep_list
  search_marked [] m = refl
  search_marked (dep ∷ deps) m = rw m refl

  pub search_cases :
      (deps : List Text)
      → is_marked visit here ≡ false
      → (In name deps
          × (search_dep_list all here deps name visit
              ≡ (find_object_by_name all name, set visit here true)))
        ⊎ ((In name deps → ⊥) × (search_dep_list all here deps name visit ≡ (none, visit)))
  unfolding search_dep_list
  search_cases [] m = inr ((λ h. h), refl)
  search_cases (dep ∷ deps) m = elim (Bool-cases (str_eq dep name)) [
    | inl same ↦
        let at = (str_eq_iff dep name).0 same in
        inl (
          inl at,
          rw (m, same) (ap (λ (n : Text). (find_object_by_name all n, set visit here true)) at),
        )
    | inr other ↦ elim (search_cases deps m) [
      | inl (i, e) ↦ inl (inr i, rw (m, other) e)
      | inr (no_dep, e) ↦ inr (no_more other no_dep, rw (m, other) e)
    ]
  ]
    where
      no_more : str_eq dep name ≡ false → (In name deps → ⊥) → In name (dep ∷ deps) → ⊥
      no_more other no_dep (inl at) = absurd (ground (arith, other, (str_eq_iff dep name).1 at))
      no_more other no_dep (inr i) = no_dep i

-- ===== src/Load.antt =====
-- src/loadconfig.c: from the parsed objects to the graph - find_object_by_name, search_dep_list,
-- make_adjs_add_neighbor, make_adjs, visit_them, log_orphans. The parser's list of objects is a list,
-- and a pointer to an object is its index. strdup and MALLOC do not fail here.
mod Tests
pub mod Names
pub mod Neighbors
pub mod Parents
pub mod Children
pub mod Adjacent
pub mod Visits
pub mod Unvisited
pub mod Orphans
pub mod Settings
pub mod Replace
pub mod Reload
use sysmon.Base.{ℕ, zero, suc, ◌+◌, Bool, true, false, List, [], ◌∷◌, ◌++◌, map, Option, none, some}
use sysmon.Base.{◌==◌, if◌then◌else◌, length, get_elem?, set, replicate}
use sysmon.Base.Text.{Text, str_eq}

-- `struct graph_elements` behind the parser: its name and the names that it depends on.
pub record Parsed : Type 0 where
  pub unique_name : Text
  pub dep_txt_name : List Text

-- The first object of the name.
unfoldable pub find_object_by_name : List Parsed → Text → Option ℕ
find_object_by_name [] text_name = none
find_object_by_name (here ∷ more) text_name =
    if str_eq here.unique_name text_name
    then some 0
    else elim (find_object_by_name more text_name) [ none ↦ none | some i ↦ some (suc i) ]

abbrev is_true : Option Bool → Bool
is_true none = false
is_true (some b) = b

-- `element->visit`
unfoldable pub is_marked : List Bool → ℕ → Bool
is_marked visit i = is_true (get_elem? visit i)

-- The loop of `search_dep_list(here, name)` over the names that `here` depends on: its result, and the
-- visit flags after it.
unfoldable pub search_dep_list :
    List Parsed → ℕ → List Text → Text → List Bool → Option ℕ × List Bool
search_dep_list all here [] name visit = (none, visit)
search_dep_list all here (dep ∷ deps) name visit =
    if is_marked visit here
    then (none, visit)
    else if str_eq dep name
    then (find_object_by_name all dep, set visit here true)
    else search_dep_list all here deps name visit

-- `struct nei_list`
pub record Nei : Type 0 where
  pub nei_name : Text
  pub g_element : ℕ

unfoldable pub has_name : Text → List Nei → Bool
has_name name [] = false
has_name name (nei ∷ more) = if str_eq nei.nei_name name then true else has_name name more

unfoldable pub make_adjs_add_neighbor : List Nei → ℕ → Text → List Nei
unfolding has_name
make_adjs_add_neighbor current_list add unique_name =
    if has_name unique_name current_list
    then current_list
    else record { nei_name = unique_name; g_element = add } ∷ current_list

-- What the two loops of make_adjs keep.
pub record Adjs : Type 0 where
  pub visit : List Bool
  pub my_nei_list : List Nei
  pub numnei : ℕ

abbrev name_at : List Parsed → ℕ → Text
name_at all i = elim (get_elem? all i) [ none ↦ [] | some e ↦ e.unique_name ]

-- `visit = 1`, the neighbor, and `numnei++`.
unfoldable pub add_adj : List Parsed → ℕ → ℕ → Adjs → Adjs
unfolding make_adjs_add_neighbor
add_adj all marked add s = record {
  visit = set s.visit marked true;
  my_nei_list = make_adjs_add_neighbor s.my_nei_list add (name_at all add);
  numnei = s.numnei + 1;
}

-- "Collect my parents"
unfoldable pub collect_parents : List Parsed → List Text → Adjs → Adjs
unfolding add_adj
collect_parents all [] s = s
collect_parents all (dep ∷ deps) s = collect_parents all deps (elim (find_object_by_name all dep) [
  | none ↦ s
  | some found ↦ if is_marked s.visit found then s else add_adj all found found s
])

-- "Collect my Children/sibs", at one object: the element that the search found is marked.
unfoldable pub collect_child : List Parsed → Text → ℕ → Parsed → Adjs → Adjs
unfolding add_adj search_dep_list
collect_child all name here2 e s =
    let (found, visit) = search_dep_list all here2 e.dep_txt_name name s.visit in
    elim found [
      | none ↦ record s { visit = visit }
      | some marked ↦ add_adj all marked here2 (record s { visit = visit })
    ]

unfoldable pub collect_children : List Parsed → ℕ → Text → ℕ → List Parsed → Adjs → Adjs
unfolding collect_child
collect_children all here name here2 [] s = s
collect_children all here name here2 (e ∷ more) s =
    collect_children all here name (suc here2) more
      (if here2 == here then s else collect_child all name here2 e s)

-- One round of the outer loop, between two calls of clear_visited.
unfoldable pub adjs_of : List Parsed → ℕ → Parsed → Adjs
unfolding collect_parents collect_children
adjs_of all here e = collect_children all here e.unique_name 0 all (
    collect_parents all e.dep_txt_name
      (record { visit = replicate (length all) false; my_nei_list = []; numnei = 0 }))

-- `neighbors[0..tot_nei)`: an array of numnei places that the list is written into, if it is not 0.
unfoldable pub neighbors_of : List Parsed → ℕ → Parsed → List ℕ
unfolding adjs_of
neighbors_of all here e =
    let s = adjs_of all here e in
    if s.numnei == 0 then [] else map (λ nei. nei.g_element) s.my_nei_list

unfoldable pub adjs_from : List Parsed → ℕ → List Parsed → List (List ℕ)
unfolding neighbors_of
adjs_from all here [] = []
adjs_from all here (e ∷ more) = neighbors_of all here e ∷ adjs_from all (suc here) more

-- The neighbors of every object.
unfoldable pub make_adjs : List Parsed → List (List ℕ)
unfolding adjs_from
make_adjs all = adjs_from all 0 all

-- The loop of visit_them over the neighbors.
unfoldable pub visit_each :
    (ℕ → List Bool → Option (List Bool)) → List ℕ → List Bool → Option (List Bool)
visit_each visit_one [] visit = some visit
visit_each visit_one (n ∷ ns) visit = elim (visit_one n visit) [
  | none ↦ none
  | some after ↦ visit_each visit_one ns after
]

-- With fuel for the depth of the recursion; none is that it runs out.
unfoldable pub visit_them : ℕ → List (List ℕ) → ℕ → List Bool → Option (List Bool)
unfolding visit_each
visit_them zero neighbors here visit = none
visit_them (suc fuel) neighbors here visit = elim (get_elem? neighbors here) [
  | none ↦ some visit
  | some ns ↦
      if is_marked visit here
      then some visit
      else visit_each (visit_them fuel neighbors) ns (set visit here true)
]

unfoldable pub unvisited_from : ℕ → List Bool → List ℕ
unvisited_from i [] = []
unvisited_from i (visited ∷ more) =
    let rest = unvisited_from (suc i) more in if visited then rest else i ∷ rest

-- The objects that are reported, between two calls of clear_visited.
unfoldable pub log_orphans : List (List ℕ) → Option ℕ → Option (List ℕ)
unfolding visit_them unvisited_from
log_orphans neighbors none = some (unvisited_from 0 (replicate (length neighbors) false))
log_orphans neighbors (some root) =
    elim (visit_them (length neighbors + 1) neighbors root (replicate (length neighbors) false)) [
      | none ↦ none
      | some visit ↦ some (unvisited_from 0 visit)
    ]

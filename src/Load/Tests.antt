-- ===== src/Load/Tests.antt =====
-- Small configurations: a root, a router that depends on it, and an object that nobody depends on.
use sysmon.Base.{ℕ, zero, suc, ◌<◌, ◌≡◌, ◌≢◌, ◌↔◌, ◌⊎◌, refl, arith}
use sysmon.Base.{true, false, List, [], ◌∷◌, ◌++◌, none, some, In}
use sysmon.Base.{get_elem?}
use sysmon.Base.Text.{Text, codes, str_eq}
use sysmon.Outage.{Hostinfo}
use sysmon.Load.{
  Parsed, is_marked, find_object_by_name, search_dep_list, has_name, make_adjs_add_neighbor,
  add_adj, collect_parents, collect_child, collect_children, adjs_of, neighbors_of, adjs_from,
  make_adjs, visit_each, visit_them, unvisited_from, log_orphans,
}
use sysmon.Load.Names.{HasUniqueNames}
use sysmon.Load.Neighbors.{IsNodup}
use sysmon.Load.Adjacent.{DependsOn, make_adjs-DependsOn}
use sysmon.Load.Orphans.{Connected, log_orphans-Connected}
use sysmon.Load.Settings.{
  Definitions, find_value, variable_name, append_fitting, replace_loop, do_set_replace,
}
use sysmon.Load.Reload.{Configured}

abbrev two : List Parsed
two =
    record { unique_name = codes "root"; dep_txt_name = [] }
    ∷ record { unique_name = codes "router"; dep_txt_name = codes "root" ∷ codes "gone" ∷ [] }
    ∷ []

abbrev three : List Parsed
three = two ++ (record { unique_name = codes "stray"; dep_txt_name = codes "gone" ∷ [] } ∷ [])

neighbors_of_three : make_adjs three ≡ (1 ∷ []) ∷ (0 ∷ []) ∷ [] ∷ []
unfolding make_adjs adjs_from neighbors_of adjs_of collect_parents collect_children collect_child
    add_adj search_dep_list make_adjs_add_neighbor has_name find_object_by_name is_marked str_eq
neighbors_of_three = refl

stray_is_logged : log_orphans ((1 ∷ []) ∷ (0 ∷ []) ∷ [] ∷ []) (some 0) ≡ some (2 ∷ [])
unfolding log_orphans visit_them visit_each unvisited_from is_marked
stray_is_logged = refl

two-HasUniqueNames : HasUniqueNames two
two-HasUniqueNames = record { unique = unique }
  where
    unique :
        (i j : ℕ) (a b : Parsed)
        → get_elem? two i ≡ some a
        → get_elem? two j ≡ some b
        → a.unique_name ≡ b.unique_name
        → i ≡ j
    unique zero zero a b e f n = refl
    unique zero (suc zero) a b e f n = absurd (ground (arith, e, f, n))
    unique (suc zero) zero a b e f n = absurd (ground (arith, e, f, n))
    unique (suc zero) (suc zero) a b e f n = refl
    unique zero (suc (suc j)) a b e f n = cc
    unique (suc zero) (suc (suc j)) a b e f n = cc
    unique (suc (suc i)) j a b e f n = cc

neighbors_of_two : get_elem? (make_adjs two) 1 ≡ some (0 ∷ [])
unfolding make_adjs adjs_from neighbors_of adjs_of collect_parents collect_children collect_child
    add_adj search_dep_list make_adjs_add_neighbor has_name find_object_by_name is_marked str_eq
neighbors_of_two = refl

make_adjs-DependsOn_example :
    IsNodup (0 ∷ [])
    × ((j : ℕ) → In j (0 ∷ []) ↔ (DependsOn two 1 j ⊎ ((j ≢ 1) × DependsOn two j 1)))
make_adjs-DependsOn_example = make_adjs-DependsOn two 1 (0 ∷ []) two-HasUniqueNames neighbors_of_two

log_orphans-Connected_example :
    (orphans : List ℕ) × ((log_orphans ((1 ∷ []) ∷ (0 ∷ []) ∷ [] ∷ []) (some 0) ≡ some orphans)
      × ((j : ℕ) → In j orphans ↔ ((j < 3) × (Connected ((1 ∷ []) ∷ (0 ∷ []) ∷ [] ∷ []) 0 j → ⊥))))
log_orphans-Connected_example = log_orphans-Connected ((1 ∷ []) ∷ (0 ∷ []) ∷ [] ∷ []) 0

abbrev sets : Definitions
sets = (codes "gw", codes "10.0.0.1") ∷ []

-- The address of the gateway is put in, unless an unknown variable follows.
put_in : do_set_replace sets (codes "ip $gw, up") ≡ some (codes "ip 10.0.0.1, up")
unfolding do_set_replace replace_loop find_value variable_name append_fitting str_eq
put_in = refl

abbrev blank : Hostinfo
blank = record {
  lastcheck = 0;
  totalchecked = 0;
  totaldown = 0;
  downct = 0;
  upct = 0;
  max_down = 1;
  queuetime = 60;
  next_queuetime = 0;
  change_seq = 0;
  contacted = false;
  acked = false;
  lastcontacted = 0;
  contact_when = 1;
  contact = some (codes "noc");
  command = none;
  lastmsgid = none;
  deathtime = 0;
  last_up = 0;
  last_recovery = 0;
}

abbrev configured : Hostinfo → Configured
configured svc = record {
  hostname = codes "10.0.0.1";
  unique_name = codes "router";
  kind = 3;
  port = 0;
  lchecktime = 40;
  svc = svc;
}

abbrev down : Hostinfo
down = record blank { lastcheck = 6; contacted = true }

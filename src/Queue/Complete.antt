-- ===== src/Queue/Complete.antt =====
-- The walk of walk_queue_checks_add misses nothing: every element that it can come to and that is due
-- is listed.
use sysmon.Base.{ℕ, zero, suc, ◌+◌, ◌≡◌, ◌↔◌, refl, sym, ◌∙◌, arith}
use sysmon.Base.{true, false, List, [], ◌∷◌, some, inl, inr}
use sysmon.Base.{
  if◌then◌else◌, Bool-cases, Option-cases, length, length-set, get_elem?, replicate, All,
}
use mathlib.Core.Path.{subst}
use sysmon.Base.{In, All-In}
use sysmon.Queue.{is_due}
use sysmon.Queue.{
  Monitored, Graph, Marks, clear_visited, is_visited, leads_on, mark, each, walk_queue_checks_add,
  ready,
}
use sysmon.Queue.Walk.{
  Reached, start, next, IsWanted, ready-IsWanted, one_visit, no_visit, length-replicate,
}
use sysmon.Queue.Walked.{
  Covered, IsClosed, Walked, Walked-refl, idle, to_visit-idle, to_visit_visited,
}
use sysmon.Queue.Marked.{each-Walked, idle-lt, mark-Walked, mark_here}

visit-Walked :
    (fuel : ℕ) (g : Graph) (now here : ℕ) (m m' : Marks) (d : Monitored) (ns : List ℕ)
    → ((n : ℕ) (m m' : Marks)
        → walk_queue_checks_add fuel g now n m ≡ some m'
        → length m.visit ≡ length g
        → Walked g now m m' × Covered g m' n)
    → idle g here ≡ some (d, ns)
    → (if leads_on d
        then each (walk_queue_checks_add fuel g now) ns (mark now here d m)
        else some (mark now here d m))
      ≡ some m'
    → length m.visit ≡ length g
    → Walked g now m m' × Covered g m' here
visit-Walked fuel g now here m m' d ns again i e size = elim (Bool-cases (leads_on d)) [
  | inl on ↦
      let (h, cs) =
        each-Walked g now (walk_queue_checks_add fuel g now) again ns (mark now here d m) m'
          (rw on at e) marked in
      (mark-Walked g now here d ns m m' i h (λ _. cs), inl (h.keeps here inside))
  | inr off ↦
      let same : mark now here d m ≡ m' = ground (arith, e, off) in
      let h =
        subst (Walked g now (mark now here d m)) same (Walked-refl g now (mark now here d m)) in
      (
        mark-Walked g now here d ns m m' i h (λ on. absurd (ground (arith, on, off))),
        inl (h.keeps here inside),
      )
]
  where
    marked : length (mark now here d m).visit ≡ length g
    marked = unfold mark in length-set m.visit here true ∙ size

    inside : is_visited (mark now here d m) here ≡ true
    inside = mark_here now here d m (omega (arith, size, idle-lt g here d ns i))

unmoved :
    (g : Graph) (now here : ℕ) (m m' : Marks)
    → some m ≡ some m'
    → Covered g m here
    → Walked g now m m' × Covered g m' here
unmoved g now here m m' e c =
    let same : m ≡ m' = cc in
    subst (λ k. Walked g now m k × Covered g k here) same (Walked-refl g now m, c)

walk_queue_checks_add-Walked :
    (fuel : ℕ) (g : Graph) (now here : ℕ) (m m' : Marks)
    → walk_queue_checks_add fuel g now here m ≡ some m'
    → length m.visit ≡ length g
    → Walked g now m m' × Covered g m' here
walk_queue_checks_add-Walked zero g now here m m' e size =
    absurd (unfold walk_queue_checks_add in ground (arith, e))
walk_queue_checks_add-Walked (suc fuel) g now here m m' e size =
    let again = walk_queue_checks_add-Walked fuel g now in
    elim (Bool-cases (is_visited m here)) [
      | inl v ↦
          unmoved g now here m m'
            (sym (no_visit fuel g now here m (to_visit_visited g here m v)) ∙ e) (inl v)
      | inr fresh ↦ elim (Option-cases (idle g here)) [
        | inl i ↦
            unmoved g now here m m'
              (sym (no_visit fuel g now here m (to_visit-idle g here m fresh ∙ i)) ∙ e) (inr i)
        | inr ((d, ns), i) ↦
            visit-Walked fuel g now here m m' d ns again i
              (sym (one_visit fuel g now here m d ns (to_visit-idle g here m fresh ∙ i)) ∙ e) size
      ]
    ]

idle_of :
    (g : Graph) (n : ℕ) (d : Monitored) (ns : List ℕ)
    → get_elem? g n ≡ some (record { node_data = some d; neighbors = ns })
    → d.queued ≡ false
    → idle g n ≡ some (d, ns)
unfolding idle
idle_of g n d ns e q = ground (arith, e, q)

Covered-at :
    (g : Graph) (m : Marks) (ns : List ℕ) (i n : ℕ)
    → All (Covered g m) ns
    → get_elem? ns i ≡ some n
    → Covered g m n
Covered-at g m [] i n h e = cc
Covered-at g m (x ∷ ns) zero n (h, hs) e = let same : x ≡ n = cc in subst (Covered g m) same h
Covered-at g m (x ∷ ns) (suc i) n (h, hs) e = Covered-at g m ns i n hs e

not-visited-replicate :
    (k n : ℕ) → is_visited (record { visit = replicate k false; array_elements = [] }) n ≡ false
unfolding is_visited
not-visited-replicate zero n = refl
not-visited-replicate (suc k) zero = refl
not-visited-replicate (suc k) (suc n) = not-visited-replicate k n

module _ (g : Graph) (now root : ℕ) (m : Marks) (walked : Walked g now (clear_visited g) m)
    (covered : Covered g m root) where
  unmarked_at_first : (n : ℕ) → is_visited (clear_visited g) n ≡ true → ⊥
  unfolding clear_visited
  unmarked_at_first n v = absurd (ground (arith, v, not-visited-replicate (length g) n))

  IsClosed-visited : (n : ℕ) → is_visited m n ≡ true → IsClosed g m n
  IsClosed-visited n v = elim (walked.closed n v) [
    | inl old ↦ absurd (unmarked_at_first n old)
    | inr c ↦ c
  ]

  Reached-Covered : {n : ℕ} → Reached g root n → Covered g m n
  Reached-Covered start = covered
  Reached-Covered (next k i d ns r e q lead f) = elim (Reached-Covered r) [
    | inl v ↦ Covered-at g m ns i _ (IsClosed-visited k v d ns (idle_of g k d ns e q) lead) f
    | inr b ↦ absurd (ground (arith, b, idle_of g k d ns e q))
  ]

  IsWanted-listed : (n : ℕ) → IsWanted g now root n → In n m.array_elements
  IsWanted-listed n w =
      let i = idle_of g n w.node_data w.neighbors w.here w.not_queued in
      elim (Reached-Covered w.reached) [
        | inr b ↦ absurd (ground (arith, b, i))
        | inl v ↦ elim (walked.listed n w.node_data w.neighbors v i w.due) [
          | inl old ↦ absurd (unmarked_at_first n old)
          | inr there ↦ there
        ]
      ]

pub ready_iff :
    (g : Graph) (now root n : ℕ) (m : Marks)
    → ready g now root ≡ some m
    → In n m.array_elements ↔ IsWanted g now root n
unfolding ready
ready_iff g now root n m e =
    let sized : length (clear_visited g).visit ≡ length g =
      unfold clear_visited in length-replicate (length g) in
    let (walked, covered) =
      walk_queue_checks_add-Walked (length g + 1) g now root (clear_visited g) m e sized in
    let (m', (f, (small, all))) = ready-IsWanted g now root in
    let same : m' ≡ m = cc in
    (
      λ i.
          All-In (IsWanted g now root) n m.array_elements
            (subst (λ k. All (IsWanted g now root) k.array_elements) same all) i,
      λ w. IsWanted-listed g now root m walked covered n w,
    )

-- A mark on an element that is due says that the walk can come to it.
pub ready-visited :
    (g : Graph) (now root n : ℕ) (m : Marks) (d : Monitored) (ns : List ℕ)
    → ready g now root ≡ some m
    → get_elem? g n ≡ some (record { node_data = some d; neighbors = ns })
    → d.queued ≡ false
    → is_due now d ≡ true
    → (is_visited m n ≡ true) ↔ Reached g root n
unfolding ready
ready-visited g now root n m d ns e there free due =
    let sized : length (clear_visited g).visit ≡ length g =
      unfold clear_visited in length-replicate (length g) in
    let (walked, covered) =
      walk_queue_checks_add-Walked (length g + 1) g now root (clear_visited g) m e sized in
    let i = idle_of g n d ns there free in
    (
      (λ v. elim (walked.listed n d ns v i due) [
        | inl old ↦ absurd (unmarked_at_first g now root m walked covered n old)
        | inr listed ↦ ((ready_iff g now root n m e).0 listed).reached
      ]),
      (λ r. elim (Reached-Covered g now root m walked covered r) [
        | inl v ↦ v
        | inr b ↦ absurd (ground (arith, b, i))
      ]),
    )

pub length-ready :
    (g : Graph) (now root : ℕ) (m : Marks) → ready g now root ≡ some m → length m.visit ≡ length g
unfolding ready
length-ready g now root m e =
    let sized : length (clear_visited g).visit ≡ length g =
      unfold clear_visited in length-replicate (length g) in
    (walk_queue_checks_add-Walked (length g + 1) g now root (clear_visited g) m e sized).0.size
      sized

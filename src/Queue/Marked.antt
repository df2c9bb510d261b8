-- ===== src/Queue/Marked.antt =====
-- One step of the walk: the mark of an element, and the loop over its neighbors.
use sysmon.Base.{ℕ, ◌<◌, ◌≡◌, refl, sym, ap, ◌∙◌, arith}
use sysmon.Base.{true, List, [], ◌∷◌, Option, some, inl, inr, ◌⊎◌}
use sysmon.Base.{
  ◌==◌, Bool-cases, Option-cases, length, length-set, get_elem?, get_elem?-set_self,
  get_elem?-set_ne, All,
}
use mathlib.Core.Path.{subst}
use sysmon.Base.{In, In-append_last, In-append_left}
use sysmon.Queue.{Monitored, Graph, Marks, is_visited, is_due, leads_on, mark, each}
use sysmon.Queue.Walk.{get_elem?-lt}
use sysmon.Queue.Walked.{Covered, Covered-keeps, IsClosed, Walked, Walked-refl, Walked-trans, idle}

pub marked_lt : (m : Marks) (n : ℕ) → is_visited m n ≡ true → n < length m.visit
unfolding is_visited
marked_lt m n v = elim (Option-cases (get_elem? m.visit n)) [
  | inl f ↦ absurd (ground (arith, v, f))
  | inr (b, f) ↦ get_elem?-lt m.visit n b f
]

pub idle-lt :
    (g : Graph) (n : ℕ) (d : Monitored) (ns : List ℕ) → idle g n ≡ some (d, ns) → n < length g
unfolding idle
idle-lt g n d ns e = elim (Option-cases (get_elem? g n)) [
  | inl f ↦ absurd (ground (arith, e, f))
  | inr (x, f) ↦ get_elem?-lt g n x f
]

pub same_object :
    (g : Graph) (here n : ℕ) (d b : Monitored) (ns ks : List ℕ)
    → idle g here ≡ some (d, ns)
    → idle g n ≡ some (b, ks)
    → n ≡ here
    → (b ≡ d) × (ks ≡ ns)
same_object g here n d b ns ks e f same =
    let r : ◌≡◌ {A = Option (Monitored × List ℕ)} (some (b, ks)) (some (d, ns)) =
      sym f ∙ ap (idle g) same ∙ e in
    (cc, cc)

module _ (now here : ℕ) (d : Monitored) (m : Marks) where
  pub mark-keeps : (n : ℕ) → is_visited m n ≡ true → is_visited (mark now here d m) n ≡ true
  unfolding mark is_visited
  mark-keeps n v = elim (Bool-cases (here == n)) [
    | inl same ↦
        let e : n ≡ here = ground (arith, same) in
        rw
          (
            e,
            get_elem?-set_self m.visit here true (marked_lt m here (ap (is_visited m) (sym e) ∙ v)),
          )
          refl
    | inr other ↦
        rw (get_elem?-set_ne m.visit {i = here} {j = n} true (λ e. ground (arith, other, e))) v
  ]

  pub mark_here : here < length m.visit → is_visited (mark now here d m) here ≡ true
  unfolding mark is_visited
  mark_here h = rw (get_elem?-set_self m.visit here true h) refl

  pub mark_only :
      (n : ℕ) → is_visited (mark now here d m) n ≡ true → (n ≡ here) ⊎ (is_visited m n ≡ true)
  unfolding mark is_visited
  mark_only n v = elim (Bool-cases (here == n)) [
    | inl same ↦ inl (ground (arith, same))
    | inr other ↦
        inr (
          rw (get_elem?-set_ne m.visit {i = here} {j = n} true (λ e. ground (arith, other, e))) at
            v)
  ]

  pub mark_listed : (n : ℕ) → In n m.array_elements → In n (mark now here d m).array_elements
  unfolding mark
  mark_listed n i = elim (Bool-cases (is_due now d)) [
    | inl due ↦ rw due (In-append_left n m.array_elements (here ∷ []) i)
    | inr later ↦ rw later i
  ]

  pub mark_due : is_due now d ≡ true → In here (mark now here d m).array_elements
  unfolding mark
  mark_due due = rw due (In-append_last here m.array_elements)

-- From the marked element over its neighbors.
pub mark-Walked :
    (g : Graph) (now here : ℕ) (d : Monitored) (ns : List ℕ) (m m' : Marks)
    → idle g here ≡ some (d, ns)
    → Walked g now (mark now here d m) m'
    → (leads_on d ≡ true → All (Covered g m') ns)
    → Walked g now m m'
mark-Walked g now here d ns m m' e h on = record {
  keeps = λ n v. h.keeps n (mark-keeps now here d m n v);
  closed = λ n v. closed n (h.closed n v);
  still_listed = λ n i. h.still_listed n (mark_listed now here d m n i);
  listed = λ n b ks v f due. listed n b ks f due (h.listed n b ks v f due);
  size = λ f. h.size (unfold mark in length-set m.visit here true ∙ f);
}
  where
    closed :
        (n : ℕ)
        → (is_visited (mark now here d m) n ≡ true) ⊎ IsClosed g m' n
        → (is_visited m n ≡ true) ⊎ IsClosed g m' n
    closed n (inr c) = inr c
    closed n (inl v) = elim (mark_only now here d m n v) [
      | inr old ↦ inl old
      | inl same ↦ inr (λ b ks f lead.
          let (p, q) = same_object g here n d b ns ks e f same in
          rw q (on (sym (ap leads_on p) ∙ lead)))
    ]

    listed :
        (n : ℕ) (b : Monitored) (ks : List ℕ)
        → idle g n ≡ some (b, ks)
        → is_due now b ≡ true
        → (is_visited (mark now here d m) n ≡ true) ⊎ In n m'.array_elements
        → (is_visited m n ≡ true) ⊎ In n m'.array_elements
    listed n b ks f due (inr i) = inr i
    listed n b ks f due (inl v) = elim (mark_only now here d m n v) [
      | inr old ↦ inl old
      | inl same ↦
          let (p, q) = same_object g here n d b ns ks e f same in
          inr
            (rw same (h.still_listed here (mark_due now here d m (sym (ap (is_due now) p) ∙ due))))
    ]

-- A visit, and the element or the elements that it covers.
pub each-Walked :
    (g : Graph) (now : ℕ) (visit_one : ℕ → Marks → Option Marks)
    → ((n : ℕ) (m m' : Marks)
        → visit_one n m ≡ some m'
        → length m.visit ≡ length g
        → Walked g now m m' × Covered g m' n)
    → (ns : List ℕ) (m m' : Marks) → each visit_one ns m ≡ some m'
    → length m.visit ≡ length g
    → Walked g now m m' × All (Covered g m') ns
unfolding each
each-Walked g now visit_one one [] m m' e size =
    let same : m ≡ m' = cc in (subst (Walked g now m) same (Walked-refl g now m), tt)
each-Walked g now visit_one one (n ∷ ns) m m' e size = elim (Option-cases (visit_one n m)) [
  | inl f ↦ absurd (ground (arith, e, f))
  | inr (k, f) ↦
      let (h, c) = one n m k f size in
      let (r, cs) = each-Walked g now visit_one one ns k m' (ground (arith, e, f)) (h.size size) in
      (Walked-trans g now m k m' h r, (Covered-keeps g k m' n r.keeps c, cs))
]

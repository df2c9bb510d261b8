-- ===== src/Queue/Walked.antt =====
-- What a walk of walk_queue_checks_add leaves behind: elements that it is done with, and none that
-- is due left out.
use sysmon.Base.{ℕ, ◌≡◌, arith}
use sysmon.Base.{true, false, List, [], ◌∷◌, Option, none, some, inl, inr, ◌⊎◌}
use sysmon.Base.{if◌then◌else◌, length, get_elem?, All}
use sysmon.Base.{In}
use sysmon.Queue.{Monitored, Graph, Marks, is_visited, is_due, leads_on, to_visit}

-- The object of an element that the walk does not turn away from, with its neighbors.
unfoldable pub idle : Graph → ℕ → Option (Monitored × List ℕ)
idle g n = elim (get_elem? g n) [
  | none ↦ none
  | some e ↦ elim e.node_data [
    | none ↦ none
    | some d ↦ if d.queued then none else some (d, e.neighbors)
  ]
]

pub to_visit-idle :
    (g : Graph) (here : ℕ) (m : Marks) → is_visited m here ≡ false → to_visit g here m ≡ idle g here
unfolding to_visit idle
to_visit-idle g here m e = ground (arith, e)

pub to_visit_visited :
    (g : Graph) (here : ℕ) (m : Marks) → is_visited m here ≡ true → to_visit g here m ≡ none
unfolding to_visit
to_visit_visited g here m e = ground (arith, e)

-- Nothing is left to do at the element.
abbrev pub Covered : Graph → Marks → ℕ → Type 0
Covered g m n = (is_visited m n ≡ true) ⊎ (idle g n ≡ none)

-- Nothing is left to do at the neighbors of an element that leads on.
abbrev pub IsClosed : Graph → Marks → ℕ → Type 0
IsClosed g m n =
    (d : Monitored) (ns : List ℕ)
    → idle g n ≡ some (d, ns)
    → leads_on d ≡ true
    → All (Covered g m) ns

-- What a walk does to the marks.
pub record Walked (g : Graph) (now : ℕ) (m m' : Marks) : Type 0 where
  pub keeps : (n : ℕ) → is_visited m n ≡ true → is_visited m' n ≡ true
  pub closed : (n : ℕ) → is_visited m' n ≡ true → (is_visited m n ≡ true) ⊎ IsClosed g m' n
  pub still_listed : (n : ℕ) → In n m.array_elements → In n m'.array_elements
  pub listed :
      (n : ℕ) (d : Monitored) (ns : List ℕ)
      → is_visited m' n ≡ true
      → idle g n ≡ some (d, ns)
      → is_due now d ≡ true
      → (is_visited m n ≡ true) ⊎ In n m'.array_elements
  pub size : length m.visit ≡ length g → length m'.visit ≡ length g

pub Covered-keeps :
    (g : Graph) (m m' : Marks) (n : ℕ)
    → ((n : ℕ) → is_visited m n ≡ true → is_visited m' n ≡ true)
    → Covered g m n
    → Covered g m' n
Covered-keeps g m m' n keeps (inl v) = inl (keeps n v)
Covered-keeps g m m' n keeps (inr b) = inr b

pub All-Covered :
    (g : Graph) (m m' : Marks) (ns : List ℕ)
    → ((n : ℕ) → is_visited m n ≡ true → is_visited m' n ≡ true)
    → All (Covered g m) ns
    → All (Covered g m') ns
All-Covered g m m' [] keeps h = tt
All-Covered g m m' (n ∷ ns) keeps (h, hs) =
    (Covered-keeps g m m' n keeps h, All-Covered g m m' ns keeps hs)

pub Walked-refl : (g : Graph) (now : ℕ) (m : Marks) → Walked g now m m
Walked-refl g now m = record {
  keeps = λ n v. v;
  closed = λ n v. inl v;
  still_listed = λ n h. h;
  listed = λ n d ns v e due. inl v;
  size = λ e. e;
}

pub Walked-trans :
    (g : Graph) (now : ℕ) (m m' m'' : Marks)
    → Walked g now m m'
    → Walked g now m' m''
    → Walked g now m m''
Walked-trans g now m m' m'' h k = record {
  keeps = λ n v. k.keeps n (h.keeps n v);
  closed = λ n v. closed n (k.closed n v);
  still_listed = λ n i. k.still_listed n (h.still_listed n i);
  listed = λ n d ns v e due. listed n d ns e due (k.listed n d ns v e due);
  size = λ e. k.size (h.size e);
}
  where
    closed :
        (n : ℕ)
        → (is_visited m' n ≡ true) ⊎ IsClosed g m'' n
        → (is_visited m n ≡ true) ⊎ IsClosed g m'' n
    closed n (inr c) = inr c
    closed n (inl v) = elim (h.closed n v) [
      | inl old ↦ inl old
      | inr c ↦ inr (λ d ns e on. All-Covered g m' m'' ns k.keeps (c d ns e on))
    ]

    listed :
        (n : ℕ) (d : Monitored) (ns : List ℕ)
        → idle g n ≡ some (d, ns)
        → is_due now d ≡ true
        → (is_visited m' n ≡ true) ⊎ In n m''.array_elements
        → (is_visited m n ≡ true) ⊎ In n m''.array_elements
    listed n d ns e due (inr i) = inr i
    listed n d ns e due (inl v) = elim (h.listed n d ns v e due) [
      | inl old ↦ inl old
      | inr i ↦ inr (k.still_listed n i)
    ]

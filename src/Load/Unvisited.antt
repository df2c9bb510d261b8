-- ===== src/Load/Unvisited.antt =====
-- src/loadconfig.c: the last loop of log_orphans, over the flags of the objects.
use sysmon.Base.{ℕ, zero, suc, ◌+◌, ◌≡◌, ◌↔◌, refl, arith}
use sysmon.Base.{Bool, true, false, List, [], ◌∷◌, some, inl, inr, In}
use sysmon.Base.{get_elem?}
use sysmon.Load.{unvisited_from}

-- The objects whose flag is not set, by their index.
pub unvisited_from-In :
    (visit : List Bool) (k j : ℕ)
    → In j (unvisited_from k visit) ↔ ((i : ℕ) × ((j ≡ k + i) × (get_elem? visit i ≡ some false)))
unfolding unvisited_from
unvisited_from-In [] k j = ((λ h. absurd h), (λ h. absurd (no_elem h)))
  where
    no_elem : ((i : ℕ) × ((j ≡ k + i) × (get_elem? {A = Bool} [] i ≡ some false))) → ⊥
    no_elem (i, (at, e)) = absurd (ground (arith, e))
unvisited_from-In (true ∷ visit) k j = shift (unvisited_from-In visit (suc k) j)
  where
    shift :
        (In j (unvisited_from (suc k) visit)
          ↔ ((i : ℕ) × ((j ≡ suc k + i) × (get_elem? visit i ≡ some false))))
        → In j (unvisited_from (suc k) visit)
          ↔ ((i : ℕ) × ((j ≡ k + i) × (get_elem? (true ∷ visit) i ≡ some false)))
    shift h = ((λ x. let (i, (at, e)) = h.0 x in (suc i, (omega (arith, at), e))), (λ x. back h x))
      where
        back :
            (In j (unvisited_from (suc k) visit)
              ↔ ((i : ℕ) × ((j ≡ suc k + i) × (get_elem? visit i ≡ some false))))
            → ((i : ℕ) × ((j ≡ k + i) × (get_elem? (true ∷ visit) i ≡ some false)))
            → In j (unvisited_from (suc k) visit)
        back h (zero, (at, e)) = absurd (ground (arith, e))
        back h (suc i, (at, e)) = h.1 (i, (omega (arith, at), e))
unvisited_from-In (false ∷ visit) k j = shift (unvisited_from-In visit (suc k) j)
  where
    shift :
        (In j (unvisited_from (suc k) visit)
          ↔ ((i : ℕ) × ((j ≡ suc k + i) × (get_elem? visit i ≡ some false))))
        → In j (k ∷ unvisited_from (suc k) visit)
          ↔ ((i : ℕ) × ((j ≡ k + i) × (get_elem? (false ∷ visit) i ≡ some false)))
    shift h = ((λ x. to h x), (λ x. back h x))
      where
        to :
            (In j (unvisited_from (suc k) visit)
              ↔ ((i : ℕ) × ((j ≡ suc k + i) × (get_elem? visit i ≡ some false))))
            → In j (k ∷ unvisited_from (suc k) visit)
            → (i : ℕ) × ((j ≡ k + i) × (get_elem? (false ∷ visit) i ≡ some false))
        to h (inl at) = (0, (omega (arith, at), refl))
        to h (inr x) = let (i, (at, e)) = h.0 x in (suc i, (omega (arith, at), e))

        back :
            (In j (unvisited_from (suc k) visit)
              ↔ ((i : ℕ) × ((j ≡ suc k + i) × (get_elem? visit i ≡ some false))))
            → ((i : ℕ) × ((j ≡ k + i) × (get_elem? (false ∷ visit) i ≡ some false)))
            → In j (k ∷ unvisited_from (suc k) visit)
        back h (zero, (at, e)) = inl (omega (arith, at))
        back h (suc i, (at, e)) = inr (h.1 (i, (omega (arith, at), e)))

-- ===== src/Saved/Pairs.antt =====
-- Text before and after a separator, and what next_pair and the loop over the pairs read of pairs
-- that write_state prints.
use sysmon.Base.{ℕ, zero, suc, ◌+◌, ◌≤◌, ◌<◌, ◌≡◌, refl, ◌∙◌, arith}
use sysmon.Base.{Bool, true, false, not, ◌&&◌, List, [], ◌∷◌, ◌++◌, Option, none, some, ◌⊎◌}
use sysmon.Base.{◌==◌, length, length-append, All}
use sysmon.Base.Text.{Text, codes, str_eq}
use sysmon.Base.Text.Numbers.{IsNumeric}
use sysmon.Saved.{SavedState, field, split_at, skip_blanks, next_pair, value_of, assign, read_pairs}

-- The byte does not occur.
unfoldable pub lacks : ℕ → Text → Bool
lacks b [] = true
lacks b (c ∷ s) = not (c == b) && lacks b s

pub lacks-append :
    (b : ℕ) (s t : Text) → lacks b s ≡ true → lacks b t ≡ true → lacks b (s ++ t) ≡ true
unfolding lacks
lacks-append b [] t h k = k
lacks-append b (c ∷ s) t h k = ground (arith, lacks-append b s t)

pub lacks-cons : (b c : ℕ) (s : Text) → (c == b) ≡ false → lacks b s ≡ true → lacks b (c ∷ s) ≡ true
unfolding lacks
lacks-cons b c s e h = rw e h

pub lacks-numeric : (b : ℕ) (s : Text) → b'9' < b ⊎ (b < b'-') → All IsNumeric s → lacks b s ≡ true
unfolding lacks
lacks-numeric b [] far h = refl
lacks-numeric b (c ∷ s) far (h, hs) = ground (arith, lacks-numeric b s far hs)

pub split_at-append :
    (b : ℕ) (front back : Text)
    → lacks b front ≡ true
    → split_at b (front ++ (b ∷ back)) ≡ some (front, back)
unfolding split_at lacks
split_at-append b [] back h = ground arith
split_at-append b (c ∷ front) back h = ground (arith, split_at-append b front back)

pub split_at-lacks : (b : ℕ) (s : Text) → lacks b s ≡ true → split_at b s ≡ none
unfolding split_at lacks
split_at-lacks b [] h = refl
split_at-lacks b (c ∷ s) h = ground (arith, split_at-lacks b s)

-- A key as write_state prints it.
pub record IsKey (key : Text) : Type 0 where
  pub dark : (t : Text) → skip_blanks (key ++ t) ≡ key ++ t
  pub whole : lacks b'=' key ≡ true
  pub other : str_eq key (codes "name") ≡ false

pub next_pair-split :
    (p key after : Text)
    → split_at b'=' (skip_blanks p) ≡ some (key, after)
    → next_pair p ≡ value_of key after
unfolding next_pair
next_pair-split p key after e = rw (e, next_pair)

value_of-split :
    (key value rest : Text)
    → str_eq key (codes "name") ≡ false
    → lacks b' ' value ≡ true
    → value_of key (value ++ (b' ' ∷ rest)) ≡ (some rest, some (key, value))
unfolding value_of
value_of-split key value rest other h = rw other (rw (split_at-append b' ' value rest h, value_of))

next_pair-field :
    (key value rest : Text)
    → IsKey key
    → lacks b' ' value ≡ true
    → next_pair (field key value rest) ≡ (some rest, some (key, value))
unfolding field
next_pair-field key value rest k h =
    next_pair-split _ key (value ++ (b' ' ∷ rest)) (
      rw (k.dark (b'=' ∷ (value ++ (b' ' ∷ rest))))
        (split_at-append b'=' key (value ++ (b' ' ∷ rest)) k.whole))
    ∙ value_of-split key value rest k.other h

read_pairs-next :
    (fuel : ℕ) (p q key val : Text) (held : Option (Text × Text)) (s : SavedState)
    → next_pair p ≡ (some q, some (key, val))
    → read_pairs (suc fuel) p held s ≡ read_pairs fuel q (some (key, val)) (assign key val s)
unfolding read_pairs
read_pairs-next fuel p q key val held s e = ground (arith, e)

read_pairs-last :
    (fuel : ℕ) (p key val : Text) (held : Option (Text × Text)) (s : SavedState)
    → next_pair p ≡ (none, some (key, val))
    → read_pairs (suc fuel) p held s ≡ some (assign key val s)
unfolding read_pairs
read_pairs-last fuel p key val held s e = ground (arith, e)

-- The pairs of a line, and what they leave in an entry.
unfoldable pub fields : List (Text × Text) → Text → Text
fields [] end = end
fields ((key, value) ∷ pairs) end = field key value (fields pairs end)

unfoldable pub assign_all : List (Text × Text) → SavedState → SavedState
assign_all [] s = s
assign_all ((key, value) ∷ pairs) s = assign_all pairs (assign key value s)

pub record IsPair (pair : Text × Text) : Type 0 where
  pub key : IsKey pair.0
  pub value : lacks b' ' pair.1 ≡ true

next_pair-name :
    (n : Text) → next_pair (codes "name" ++ (b'=' ∷ n)) ≡ (none, some (codes "name", n))
unfolding next_pair split_at skip_blanks value_of str_eq
next_pair-name n = refl

pub read_pairs-fields :
    (pairs : List (Text × Text)) (fuel : ℕ) (n : Text) (held : Option (Text × Text))
    (s : SavedState)
    → All IsPair pairs
    → length pairs < fuel
    → read_pairs fuel (fields pairs (codes "name" ++ (b'=' ∷ n))) held s
      ≡ some (assign (codes "name") n (assign_all pairs s))
unfolding fields assign_all
read_pairs-fields pairs zero n held s all h = absurd (omega arith)
read_pairs-fields [] (suc fuel) n held s all h =
    read_pairs-last fuel _ (codes "name") n held s (next_pair-name n)
read_pairs-fields ((key, value) ∷ pairs) (suc fuel) n held s (p, all) h =
    read_pairs-next fuel _ _ key value held s
      (next_pair-field key value (fields pairs (codes "name" ++ (b'=' ∷ n))) p.key p.value)
    ∙ read_pairs-fields pairs fuel n (some (key, value)) (assign key value s) all (omega arith)

pub length-fields :
    (pairs : List (Text × Text)) (end : Text)
    → length pairs + length end ≤ length (fields pairs end)
unfolding fields field
length-fields [] end = omega arith
length-fields ((key, value) ∷ pairs) end = omega (
  arith,
  length-fields pairs end,
  length-append key (b'=' ∷ (value ++ (b' ' ∷ fields pairs end))),
  length-append value (b' ' ∷ fields pairs end),
)

-- ===== src/Saved/Defined.antt =====
-- When the loop over the pairs of a line reads variables that nothing has set.
use sysmon.Base.{ℕ, zero, suc, ◌+◌, ◌≤◌, ◌<◌, ◌≡◌, ◌↔◌, refl, sym, ap, ◌∙◌, arith}
use sysmon.Base.{true, [], ◌∷◌, Option, none, some, inl, inr}
use sysmon.Base.{Bool-cases, Option-cases, length}
use sysmon.Base.Text.{Text, codes, str_eq}
use sysmon.Saved.{
  SavedState, split_at, skip_blanks, next_pair, value_of, assign, latest, read_pairs, read_entry,
  unseen,
}
use sysmon.Saved.Pairs.{lacks, next_pair-split}

split_at-length :
    (b : ℕ) (s front back : Text) → split_at b s ≡ some (front, back) → length back < length s
unfolding split_at
split_at-length b [] front back e = cc
split_at-length b (c ∷ s) front back e = elim (Option-cases (split_at b s)) [
  | inl f ↦ ground (arith, e, f)
  | inr ((u, v), f) ↦ ground (arith, e, f, split_at-length b s u v f)
]

length-skip_blanks : (p : Text) → length (skip_blanks p) ≤ length p
unfolding skip_blanks
length-skip_blanks [] = omega arith
length-skip_blanks (c ∷ p) = ground (arith, length-skip_blanks p)

value_of-pair : (key after : Text) → (kv : Text × Text) × ((value_of key after).1 ≡ some kv)
unfolding value_of
value_of-pair key after = elim (Bool-cases (str_eq key (codes "name"))) [
  | inl last ↦ ((key, after), rw last refl)
  | inr more ↦ elim (Option-cases (split_at b' ' after)) [
    | inl f ↦ ((key, after), rw more (ground (arith, f)))
    | inr ((value, rest), f) ↦ ((key, value), rw more (ground (arith, f)))
  ]
]

value_of-length : (key after q : Text) → (value_of key after).0 ≡ some q → length q < length after
unfolding value_of
value_of-length key after q e = elim (Option-cases (split_at b' ' after)) [
  | inl f ↦ absurd (ground (arith, e, f))
  | inr ((value, rest), f) ↦ ground (arith, e, f, split_at-length b' ' after value rest f)
]

-- A pair is found where a '=' is, and the line behind it is shorter.
next_pair-found :
    (p key after : Text)
    → split_at b'=' (skip_blanks p) ≡ some (key, after)
    → ((kv : Text × Text) × ((next_pair p).1 ≡ some kv))
      × ((q : Text) → (next_pair p).0 ≡ some q → length q < length p)
next_pair-found p key after e =
    let same = next_pair-split p key after e in
    let (kv, f) = value_of-pair key after in
    (
      (kv, ap (λ (r : Option Text × Option (Text × Text)). r.1) same ∙ f),
      λ q g. omega (
        arith,
        length-skip_blanks p,
        split_at-length b'=' (skip_blanks p) key after e,
        value_of-length key after q
            (sym (ap (λ (r : Option Text × Option (Text × Text)). r.0) same) ∙ g),
      ),
    )

next_pair-none : (p : Text) → split_at b'=' (skip_blanks p) ≡ none → next_pair p ≡ (none, none)
unfolding next_pair
next_pair-none p e = rw (e, next_pair)

-- The rounds, from what next_pair answers.
module _ (fuel : ℕ) (p : Text) (held : Option (Text × Text)) (s : SavedState) where
  round_none : latest (next_pair p).1 held ≡ none → read_pairs (suc fuel) p held s ≡ none
  unfolding read_pairs
  round_none e = ground (arith, e)

  round_last :
      (key val : Text)
      → latest (next_pair p).1 held ≡ some (key, val)
      → (next_pair p).0 ≡ none
      → read_pairs (suc fuel) p held s ≡ some (assign key val s)
  unfolding read_pairs
  round_last key val e f = ground (arith, e, f)

  round_more :
      (key val q : Text)
      → latest (next_pair p).1 held ≡ some (key, val)
      → (next_pair p).0 ≡ some q
      → read_pairs (suc fuel) p held s ≡ read_pairs fuel q (some (key, val)) (assign key val s)
  unfolding read_pairs
  round_more key val q e f = ground (arith, e, f)

latest-some :
    (o : Option (Text × Text)) (kv : Text × Text)
    → (lv : Text × Text) × (latest o (some kv) ≡ some lv)
latest-some none kv = (kv, refl)
latest-some (some lv) kv = (lv, refl)

-- Once key and val are set, a line comes to an end, with fuel for every byte.
read_pairs-held :
    (fuel : ℕ) (p : Text) (kv : Text × Text) (s : SavedState)
    → length p < fuel
    → (t : SavedState) × (read_pairs fuel p (some kv) s ≡ some t)
read_pairs-held zero p kv s h = absurd (omega arith)
read_pairs-held (suc fuel) p kv s h =
    let ((key, val), e) = latest-some (next_pair p).1 kv in
    elim (Option-cases (split_at b'=' (skip_blanks p))) [
      | inl f ↦
          (assign key val s, round_last fuel p (some kv) s key val e (rw (next_pair-none p f) refl))
      | inr ((k, after), f) ↦ elim (Option-cases (next_pair p).0) [
        | inl g ↦ (assign key val s, round_last fuel p (some kv) s key val e g)
        | inr (q, g) ↦
            let (t, r) =
              read_pairs-held fuel q (key, val) (assign key val s)
                (omega (arith, (next_pair-found p k after f).1 q g)) in
            (t, round_more fuel p (some kv) s key val q e g ∙ r)
      ]
    ]

read_pairs-first :
    (fuel : ℕ) (p key after : Text) (s : SavedState)
    → length p < fuel
    → split_at b'=' (skip_blanks p) ≡ some (key, after)
    → (t : SavedState) × (read_pairs fuel p none s ≡ some t)
read_pairs-first zero p key after s h f = absurd (omega arith)
read_pairs-first (suc fuel) p key after s h f =
    let (((k, val), e), shorter) = next_pair-found p key after f in
    let set : latest (next_pair p).1 none ≡ some (k, val) = rw e refl in
    elim (Option-cases (next_pair p).0) [
      | inl g ↦ (assign k val s, round_last fuel p none s k val set g)
      | inr (q, g) ↦
          let (t, r) =
            read_pairs-held fuel q (k, val) (assign k val s) (omega (arith, shorter q g)) in
          (t, round_more fuel p none s k val q set g ∙ r)
    ]

skip_blanks-lacks : (p : Text) → lacks b'=' (skip_blanks p) ≡ lacks b'=' p
unfolding skip_blanks lacks
skip_blanks-lacks [] = refl
skip_blanks-lacks (c ∷ p) = ground (arith, skip_blanks-lacks p)

split_at-none : (b : ℕ) (s : Text) → (split_at b s ≡ none) ↔ (lacks b s ≡ true)
unfolding split_at lacks
split_at-none b [] = ground arith
split_at-none b (c ∷ s) = ground (arith, split_at-none b s)

-- The loop over a line reads key and val before they are set exactly when the line has no '='; on
-- every other line it ends with an entry.
pub read_entry-none : (line : Text) → (read_entry line ≡ none) ↔ (lacks b'=' line ≡ true)
unfolding read_entry
read_entry-none line = elim (Option-cases (split_at b'=' (skip_blanks line))) [
  | inl f ↦ (
    λ e. sym (skip_blanks-lacks line) ∙ (split_at-none b'=' (skip_blanks line)).0 f,
    λ h. undefined f,
  )
  | inr ((key, after), f) ↦
      let (t, r) = read_pairs-first (length line + 1) line key after unseen (omega arith) f in
      (
        λ e. cc,
        λ h. absurd (
            ground
              (arith, f, (split_at-none b'=' (skip_blanks line)).1 (skip_blanks-lacks line ∙ h))),
      )
]
  where
    undefined : split_at b'=' (skip_blanks line) ≡ none → read_entry line ≡ none
    undefined f =
        let e : length line + 1 ≡ suc (length line) = omega arith in
        rw e (round_none (length line) line none unseen (rw (next_pair-none line f) refl))

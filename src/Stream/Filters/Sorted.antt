-- ===== src/Stream/Filters/Sorted.antt =====
-- What `add_filter` of src/panda/unievent/Stream.cc does to the chain.
use uni_event.Base.{
  ℕ, suc, ◌≡◌, refl, sym, ap, ◌∙◌, Bool, true, false, ◌||◌, Option, none, some, List, [], ◌∷◌,
  arith, ◌==◌, if◌then◌else◌, inl, inr, Bool-cases,
}
use uni_event.Stream.Filters.{
  Filter, Place, replaces, inserts, appends, found_at, find_place, put_at, insert_at, place_at,
}

module _ {ℓ} {Priority : Type ℓ} (gt : Priority → Priority → Bool) where
  -- A filter of that type is replaced; else the new one goes in front of the first of a higher priority.
  abbrev pub has_type : ℕ → List (Filter Priority) → Bool
  has_type t [] = false
  has_type t (g ∷ gs) = g.type == t || has_type t gs

  unfoldable pub replace_type : Filter Priority → List (Filter Priority) → List (Filter Priority)
  replace_type f [] = []
  replace_type f (g ∷ gs) = if g.type == f.type then f ∷ gs else g ∷ replace_type f gs

  unfoldable pub insert_sorted : Filter Priority → List (Filter Priority) → List (Filter Priority)
  insert_sorted f [] = f ∷ []
  insert_sorted f (g ∷ gs) = if gt g.priority f.priority then f ∷ g ∷ gs else g ∷ insert_sorted f gs

  abbrev shift : Place → Place
  shift (replaces i) = replaces (suc i)
  shift (inserts i) = inserts (suc i)
  shift appends = appends

  abbrev shift_pos : Option ℕ → Option ℕ
  shift_pos none = none
  shift_pos (some i) = some (suc i)

  found-shift :
      (pos : Option ℕ) (b : Bool) (i : ℕ)
      → found_at gt (shift_pos pos) b (suc i) ≡ shift_pos (found_at gt pos b i)
  found-shift none true i = refl
  found-shift none false i = refl
  found-shift (some p) b i = refl

  find-shift :
      (f : Filter Priority) (fs : List (Filter Priority)) (i : ℕ) (pos : Option ℕ)
      → find_place gt f fs (suc i) (shift_pos pos) ≡ shift (find_place gt f fs i pos)
  unfolding find_place
  find-shift f [] i none = refl
  find-shift f [] i (some p) = refl
  find-shift f (g ∷ gs) i pos = elim (Bool-cases (g.type == f.type)) [
    | inl e ↦ rw e refl
    | inr e ↦ rw e (
        rw (found-shift pos (gt g.priority f.priority) i)
          (find-shift f gs (suc i) (found_at gt pos (gt g.priority f.priority) i)))
  ]

  -- Once a place is remembered, it stays, unless the type turns up.
  find-some :
      (f : Filter Priority) (fs : List (Filter Priority)) (i p : ℕ)
      → has_type f.type fs ≡ false
      → find_place gt f fs i (some p) ≡ inserts p
  unfolding find_place
  find-some f [] i p h = refl
  find-some f (g ∷ gs) i p h = ground (arith, find-some f gs (suc i) p)

  place-shift :
      (p : Place) (f g : Filter Priority) (gs : List (Filter Priority))
      → place_at (shift p) f (g ∷ gs) ≡ g ∷ place_at p f gs
  unfolding place_at put_at insert_at
  place-shift (replaces i) f g gs = refl
  place-shift (inserts i) f g gs = refl
  place-shift appends f g gs = refl

  -- Where the type turns up, the place remembered does not matter.
  find-pos :
      (f : Filter Priority) (fs : List (Filter Priority)) (i : ℕ) (pos pos2 : Option ℕ)
      → has_type f.type fs ≡ true
      → find_place gt f fs i pos ≡ find_place gt f fs i pos2
  unfolding find_place
  find-pos f [] i pos pos2 h = ground arith
  find-pos f (g ∷ gs) i pos pos2 h = ground (
    arith,
    find-pos f gs (suc i) (found_at gt pos (gt g.priority f.priority) i)
        (found_at gt pos2 (gt g.priority f.priority) i),
  )

  find-later :
      (f g : Filter Priority) (gs : List (Filter Priority)) (pos : Option ℕ)
      → (g.type == f.type) ≡ false
      → find_place gt f (g ∷ gs) 0 pos
        ≡ find_place gt f gs 1 (found_at gt pos (gt g.priority f.priority) 0)
  unfolding find_place
  find-later f g gs pos h = rw h refl

  has_type-later :
      (t : ℕ) (g : Filter Priority) (gs : List (Filter Priority)) (b : Bool)
      → (g.type == t) ≡ false
      → has_type t (g ∷ gs) ≡ b
      → has_type t gs ≡ b
  has_type-later t g gs b e h = sym (rw e refl) ∙ h

  pub replace-find :
      (f : Filter Priority) (fs : List (Filter Priority)) (pos : Option ℕ)
      → has_type f.type fs ≡ true
      → place_at (find_place gt f fs 0 pos) f fs ≡ replace_type f fs
  unfolding find_place replace_type place_at put_at
  replace-find f [] pos h = ground arith
  replace-find f (g ∷ gs) pos h = elim (Bool-cases (g.type == f.type)) [
    | inl e ↦ rw e refl
    | inr e ↦
        let later = has_type-later f.type g gs true e h in
        let again =
          find-pos f gs 1 (found_at gt pos (gt g.priority f.priority) 0) none later
          ∙ find-shift f gs 0 none in
        rw e (
          ap (λ p. place_at p f (g ∷ gs)) again
          ∙ place-shift (find_place gt f gs 0 none) f g gs
          ∙ ap (λ l. g ∷ l) (replace-find f gs none later))
  ]

  pub insert-find :
      (f : Filter Priority) (fs : List (Filter Priority))
      → has_type f.type fs ≡ false
      → place_at (find_place gt f fs 0 none) f fs ≡ insert_sorted f fs
  unfolding find_place insert_sorted place_at insert_at
  insert-find f [] h = refl
  insert-find f (g ∷ gs) h = elim (Bool-cases (g.type == f.type)) [
    | inl e ↦ ground arith
    | inr e ↦
        let later = has_type-later f.type g gs false e h in
        elim (Bool-cases (gt g.priority f.priority)) [
          | inl a ↦ rw e (rw a (ap (λ p. place_at p f (g ∷ gs)) (find-some f gs 1 0 later)))
          | inr a ↦ rw e (
              rw a (
                ap (λ p. place_at p f (g ∷ gs)) (find-shift f gs 0 none)
                ∙ place-shift (find_place gt f gs 0 none) f g gs
                ∙ ap (λ l. g ∷ l) (insert-find f gs later)))
        ]
  ]

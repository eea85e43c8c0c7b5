-- ===== src/Stream/Filters/Added.antt =====
-- The chain after `add_filter` of src/panda/unievent/Stream.cc: its order, and what `get_filter` finds.
use uni_event.Base.{
  ℕ, ◌≡◌, refl, Bool, true, false, not, ◌&&◌, none, some, List, [], ◌∷◌, arith, ◌==◌, if◌then◌else◌,
  inl, inr, Bool-cases, All,
}
use uni_event.Stream.Filters.{Filter, check_change, add_filter, get_filter}
use uni_event.Stream.Filters.Sorted.{
  has_type, replace_type, insert_sorted, replace-find, insert-find,
}

module _ {ℓ} {Priority : Type ℓ} (gt : Priority → Priority → Bool) where
  abbrev pub added : Filter Priority → List (Filter Priority) → List (Filter Priority)
  added f fs = if has_type gt f.type fs then replace_type gt f fs else insert_sorted gt f fs

  -- The loop with its iterator, its remembered place and its two ends comes to this: a filter of the
  -- same type is replaced where it stands; else the new one goes in front of the first filter of a
  -- higher priority, or to the end. Only `force` lets a connecting or established stream change.
  pub add_filter-added :
      (active force : Bool) (f : Filter Priority) (fs : List (Filter Priority))
      → add_filter gt active force f fs ≡ (if not force && active then none else some (added f fs))
  unfolding add_filter check_change
  add_filter-added active force f fs = elim (Bool-cases (has_type gt f.type fs)) [
    | inl e ↦ rw e (rw (replace-find gt f fs none e) refl)
    | inr e ↦ rw e (rw (insert-find gt f fs e) refl)
  ]

  -- No filter has a higher priority than one behind it.
  unfoldable pub IsSorted : List (Filter Priority) → Type ℓ
  IsSorted [] = Unit
  IsSorted (f ∷ fs) = All (λ g. gt f.priority g.priority ≡ false) fs × IsSorted fs

  insert-All {κ} :
      (P : Filter Priority → Type κ) (f : Filter Priority) (fs : List (Filter Priority))
      → P f
      → All P fs
      → All P (insert_sorted gt f fs)
  unfolding insert_sorted
  insert-All P f [] pf h = (pf, tt)
  insert-All P f (g ∷ gs) pf h = elim (Bool-cases (gt g.priority f.priority)) [
    | inl e ↦ rw e (pf, h)
    | inr e ↦ rw e (h.0, insert-All P f gs pf h.1)
  ]

  All-map {κ κ2} :
      {P : Filter Priority → Type κ} {Q : Filter Priority → Type κ2} (fs : List (Filter Priority))
      → ((g : Filter Priority) → P g → Q g)
      → All P fs
      → All Q fs
  All-map [] h a = tt
  All-map (g ∷ gs) h a = (h g a.0, All-map gs h a.1)

  insert-IsSorted :
      ((a b : Priority) → gt a b ≡ true → gt b a ≡ false)
      → ((a b c : Priority) → gt a b ≡ false → gt b c ≡ false → gt a c ≡ false)
      → (f : Filter Priority) (fs : List (Filter Priority)) → IsSorted fs
      → IsSorted (insert_sorted gt f fs)
  unfolding insert_sorted IsSorted
  insert-IsSorted asym trans f [] h = (tt, tt)
  insert-IsSorted asym trans f (g ∷ gs) h = elim (Bool-cases (gt g.priority f.priority)) [
    | inl e ↦
        let first = asym g.priority f.priority e in
        rw e ((first, All-map gs (λ x p. trans f.priority g.priority x.priority first p) h.0), h)
    | inr e ↦ rw e (
      insert-All (λ x. gt g.priority x.priority ≡ false) f gs e h.0,
      insert-IsSorted asym trans f gs h.1,
    )
  ]

  get-replace :
      (t : ℕ) (f : Filter Priority) (fs : List (Filter Priority))
      → has_type gt f.type fs ≡ true
      → get_filter t (replace_type gt f fs) ≡ (if f.type == t then some f else get_filter t fs)
  unfolding get_filter replace_type
  get-replace t f [] h = ground arith
  get-replace t f (g ∷ gs) h = ground (arith, get-replace t f gs)

  get-insert :
      (t : ℕ) (f : Filter Priority) (fs : List (Filter Priority))
      → has_type gt f.type fs ≡ false
      → get_filter t (insert_sorted gt f fs) ≡ (if f.type == t then some f else get_filter t fs)
  unfolding get_filter insert_sorted
  get-insert t f [] h = refl
  get-insert t f (g ∷ gs) h = ground (arith, get-insert t f gs)

  added-of :
      (active force : Bool) (f : Filter Priority) (fs after : List (Filter Priority))
      → add_filter gt active force f fs ≡ some after
      → after ≡ added f fs
  added-of active force f fs after h = elim (Bool-cases (not force && active)) [
    | inl e ↦ ground (arith, add_filter-added active force f fs)
    | inr e ↦ ground (arith, add_filter-added active force f fs)
  ]

  -- Where the comparison of priorities is asymmetric and its negation is transitive, an `add_filter`
  -- of a type that the chain does not have keeps the chain sorted when it does not throw.
  pub add_filter-IsSorted :
      ((a b : Priority) → gt a b ≡ true → gt b a ≡ false)
      → ((a b c : Priority) → gt a b ≡ false → gt b c ≡ false → gt a c ≡ false)
      → (active force : Bool) (f : Filter Priority) (fs after : List (Filter Priority))
      → has_type gt f.type fs ≡ false
      → IsSorted fs
      → add_filter gt active force f fs ≡ some after
      → IsSorted after
  add_filter-IsSorted asym trans active force f fs after new sorted h =
      rw (added-of active force f fs after h) (rw new (insert-IsSorted asym trans f fs sorted))

  -- After an `add_filter` that does not throw, `get_filter` finds the filter under its type, and what it
  -- found before under every other type.
  pub get_filter-add_filter :
      (active force : Bool) (f : Filter Priority) (fs after : List (Filter Priority)) (t : ℕ)
      → add_filter gt active force f fs ≡ some after
      → get_filter t after ≡ (if f.type == t then some f else get_filter t fs)
  get_filter-add_filter active force f fs after t h = elim (Bool-cases (has_type gt f.type fs)) [
    | inl e ↦ rw (added-of active force f fs after h) (rw e (get-replace t f fs e))
    | inr e ↦ rw (added-of active force f fs after h) (rw e (get-insert t f fs e))
  ]

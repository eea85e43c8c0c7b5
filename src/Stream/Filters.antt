-- ===== src/Stream/Filters.antt =====
-- The chain of filters of a stream, in src/panda/unievent/Stream.cc and Stream.h. A priority is a double:
-- its type and the comparison are parameters.
pub mod Added
pub mod Sorted
pub mod Tests
use uni_event.Base.{
  ℕ, zero, suc, Bool, true, false, not, ◌&&◌, ◌||◌, Option, none, some, List, [], ◌∷◌, ◌++◌, ◌==◌,
  if◌then◌else◌,
}

-- `name` is the identity of the object and `type` the address that tells its class.
pub record Filter {ℓ} (Priority : Type ℓ) : Type ℓ where
  pub name : ℕ
  pub type : ℕ
  pub priority : Priority

-- Where the loop of `add_filter` ends: on a filter of the same type, or at the end of the chain with
-- the place found on the way, counted from the front.
pub data Place : Type 0 where
  replaces : ℕ → Place
  inserts : ℕ → Place
  appends : Place

module _ {ℓ} {Priority : Type ℓ} (gt : Priority → Priority → Bool) where
  abbrev pub end_place : Option ℕ → Place
  end_place none = appends
  end_place (some pos) = inserts pos

  abbrev pub found_at : Option ℕ → Bool → ℕ → Option ℕ
  found_at (some pos) above i = some pos
  found_at none true i = some i
  found_at none false i = none

  -- The loop: `i` is the place of the iterator, `pos` the one remembered.
  pub find_place : Filter Priority → List (Filter Priority) → ℕ → Option ℕ → Place
  find_place f [] i pos = end_place pos
  find_place f (g ∷ gs) i pos =
      let rest = find_place f gs (suc i) (found_at pos (gt g.priority f.priority) i) in
      if g.type == f.type then replaces i else rest

module _ {ℓ} {A : Type ℓ} where
  -- `*it = filter`.
  pub put_at : ℕ → A → List A → List A
  put_at i a [] = []
  put_at zero a (x ∷ xs) = a ∷ xs
  put_at (suc i) a (x ∷ xs) = x ∷ put_at i a xs

  -- `_filters.insert(pos, filter)`.
  pub insert_at : ℕ → A → List A → List A
  insert_at zero a xs = a ∷ xs
  insert_at (suc i) a [] = a ∷ []
  insert_at (suc i) a (x ∷ xs) = x ∷ insert_at i a xs

  pub place_at : Place → A → List A → List A
  unfolding put_at insert_at
  place_at (replaces i) a xs = put_at i a xs
  place_at (inserts i) a xs = insert_at i a xs
  place_at appends a xs = xs ++ a ∷ []

module _ {ℓ} {Priority : Type ℓ} where
  -- `_check_change_filters`: `active` is `connecting() || established()`, and none is the exception.
  pub check_change : Bool → Bool → List (Filter Priority) → Option (List (Filter Priority))
  check_change active force fs = if not force && active then none else some fs

  pub add_filter :
      (Priority → Priority → Bool)
      → Bool
      → Bool
      → Filter Priority
      → List (Filter Priority)
      → Option (List (Filter Priority))
  unfolding check_change find_place place_at
  add_filter gt active force f fs =
      check_change active force (place_at (find_place gt f fs 0 none) f fs)

  pub push_ahead_filter :
      Bool → Bool → Filter Priority → List (Filter Priority) → Option (List (Filter Priority))
  unfolding check_change
  push_ahead_filter active force f fs = check_change active force (f ∷ fs)

  pub push_behind_filter :
      Bool → Bool → Filter Priority → List (Filter Priority) → Option (List (Filter Priority))
  unfolding check_change
  push_behind_filter active force f fs = check_change active force (fs ++ f ∷ [])

  abbrev pub erase : ℕ → List (Filter Priority) → List (Filter Priority)
  erase n [] = []
  erase n (f ∷ fs) = if f.name == n then fs else f ∷ erase n fs

  -- `_filters.erase(filter)` unlinks the object.
  pub remove_filter :
      Bool → Bool → Filter Priority → List (Filter Priority) → Option (List (Filter Priority))
  unfolding check_change
  remove_filter active force f fs = check_change active force (erase f.name fs)

  pub get_filter : ℕ → List (Filter Priority) → Option (Filter Priority)
  get_filter t [] = none
  get_filter t (f ∷ fs) = if f.type == t then some f else get_filter t fs

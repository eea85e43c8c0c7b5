-- ===== src/Delayer/Ids.antt =====
-- The ids of src/panda/unievent/backend/Delayer.h: `cancel` computes the place of a row from them.
use uni_event.Base.{
  ℕ, zero, suc, ◌+◌, ◌-◌, ◌≤◌, ◌<◌, ◌≡◌, refl, inl, inr, Bool, true, false, ◌||◌, none, List, [],
  ◌∷◌, ◌++◌, arith, ltb, leb, ◌==◌, if◌then◌else◌, length, length-append, drop, Bool-cases, ap, sym,
}
use uni_event.Delayer.{Callback, clear_at, cancel_in}

-- The ids rise by one along the list up to `n`.
abbrev pub Ends : List Callback → ℕ → Type 0
Ends [] n = Unit {0}
Ends (c ∷ cs) n = (c.id + length cs ≡ n) × Ends cs n

-- Cancelling by a search for the id.
abbrev pub cancel_id : ℕ → List Callback → List Callback
cancel_id id [] = []
cancel_id id (c ∷ cs) = (if c.id == id then record c { cb = none } else c) ∷ cancel_id id cs

abbrev pub has_id : ℕ → List Callback → Bool
has_id id [] = false
has_id id (c ∷ cs) = c.id == id || has_id id cs

-- The list has no row of that id.
abbrev pub Misses : ℕ → List Callback → Type 0
Misses id cs = (cancel_id id cs ≡ cs) × (has_id id cs ≡ false)

pub miss_low : (id n : ℕ) (cs : List Callback) → Ends cs n → id + length cs ≤ n → Misses id cs
miss_low id n [] v h = (refl, refl)
miss_low id n (c ∷ cs) v h = ground (arith, miss_low id n cs v.1)

miss_high : (id n : ℕ) (cs : List Callback) → Ends cs n → n < id → Misses id cs
miss_high id n [] v h = (refl, refl)
miss_high id n (c ∷ cs) v h = ground (arith, miss_high id n cs v.1)

pub hit :
    (k id n : ℕ) (cs : List Callback)
    → Ends cs n
    → id + length cs ≡ n + 1 + k
    → k < length cs
    → (clear_at k cs ≡ cancel_id id cs) × (has_id id cs ≡ true)
unfolding clear_at
hit k id n [] v e h = absurd (omega arith)
hit zero id n (c ∷ cs) v e h = ground (arith, miss_low id n cs v.1)
hit (suc k) id n (c ∷ cs) v e h = ground (arith, hit k id n cs v.1)

pub cancel_in_lem :
    (id n : ℕ) (cs : List Callback) → Ends cs n → cancel_in id cs ≡ (cancel_id id cs, has_id id cs)
unfolding cancel_in
cancel_in_lem id n [] v = refl
cancel_in_lem id n (c ∷ cs) v = elim (Bool-cases (ltb id c.id)) [
  | inl low ↦ rw low (ground (arith, miss_low id n (c ∷ cs) v))
  | inr from ↦ elim (Bool-cases (leb (length (c ∷ cs)) (id - c.id))) [
    | inl high ↦ ground (arith, miss_high id n (c ∷ cs) v)
    | inr to ↦
        let h = hit (id - c.id) id n (c ∷ cs) v (ground arith) (ground arith) in
        rw (from, to) (λ i. (h.0 i, sym h.1 i))
  ]
]

pub Ends-append_right : (n : ℕ) (xs ys : List Callback) → Ends (xs ++ ys) n → Ends ys n
Ends-append_right n [] ys v = v
Ends-append_right n (x ∷ xs) ys v = Ends-append_right n xs ys v.1

pub Ends-append_left : (n : ℕ) (xs ys : List Callback) → Ends (xs ++ ys) n → Ends xs (n - length ys)
Ends-append_left n [] ys v = tt
Ends-append_left n (x ∷ xs) ys v =
    (omega (arith, length-append xs ys, v.0), Ends-append_left n xs ys v.1)

pub Ends-snoc :
    (n : ℕ) (xs : List Callback) (c : Callback)
    → Ends xs n
    → c.id ≡ n + 1
    → Ends (xs ++ c ∷ []) (n + 1)
Ends-snoc n [] c v e = (omega arith, tt)
Ends-snoc n (x ∷ xs) c v e = (omega (arith, length-append xs (c ∷ [])), Ends-snoc n xs c v.1 e)

pub Ends-drop : (i n : ℕ) (xs ys : List Callback) → Ends (xs ++ ys) n → Ends (drop i xs ++ ys) n
Ends-drop zero n xs ys v = v
Ends-drop (suc i) n [] ys v = v
Ends-drop (suc i) n (x ∷ xs) ys v = Ends-drop i n xs ys v.1

pub length-cancel_id : (id : ℕ) (cs : List Callback) → length (cancel_id id cs) ≡ length cs
length-cancel_id id [] = refl
length-cancel_id id (c ∷ cs) = ap suc (length-cancel_id id cs)

pub Ends-cancel_id :
    (id n : ℕ) (xs ys : List Callback)
    → Ends (xs ++ ys) n
    → Ends (cancel_id id xs ++ cancel_id id ys) n
Ends-cancel_id id n [] [] v = tt
Ends-cancel_id id n [] (y ∷ ys) v =
    ground (arith, length-cancel_id id ys, Ends-cancel_id id n [] ys v.1)
Ends-cancel_id id n (x ∷ xs) ys v = ground (
  arith,
  length-append xs ys,
  length-append (cancel_id id xs) (cancel_id id ys),
  length-cancel_id id ys,
  length-cancel_id id xs,
  Ends-cancel_id id n xs ys v.1,
)

has_id-low : (id n : ℕ) (cs : List Callback) → Ends cs n → has_id id cs ≡ true → n < id + length cs
has_id-low id n [] v h = cc
has_id-low id n (c ∷ cs) v h = elim (Bool-cases (c.id == id)) [
  | inl e ↦ ground arith
  | inr e ↦ ground (arith, has_id-low id n cs v.1)
]

-- An id among the callbacks is not among the reserve, whose ids are lower.
pub reserve-Misses :
    (id n : ℕ) (xs ys : List Callback) → Ends (xs ++ ys) n → has_id id ys ≡ true → Misses id xs
reserve-Misses id n [] ys v h = (refl, refl)
reserve-Misses id n (x ∷ xs) ys v h =
    miss_high id (n - length ys) (x ∷ xs) (Ends-append_left n (x ∷ xs) ys v) (
      omega
        (arith, length-append xs ys, v.0, has_id-low id n ys (Ends-append_right n (x ∷ xs) ys v) h))

pub cancel_id-absent : (id : ℕ) (cs : List Callback) → has_id id cs ≡ false → cancel_id id cs ≡ cs
cancel_id-absent id [] h = refl
cancel_id-absent id (c ∷ cs) h = ground (arith, cancel_id-absent id cs)

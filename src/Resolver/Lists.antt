-- ===== src/Resolver/Lists.antt =====
-- Lists of requests and updates of functions, for src/panda/unievent/Resolver.cc.
use uni_event.Base.{
  ℕ, ◌≡◌, refl, sym, ap, Bool, true, false, not, ◌&&◌, ◌||◌, some, List, [], ◌∷◌, ◌++◌, ◌==◌, arith,
  Bool-cases, inl, inr, ◌⊎◌,
}
use uni_event.Resolver.{set, erase}

pub set-same : {A : Type 0} (f : ℕ → A) (i : ℕ) (a : A) → set f i a i ≡ a
unfolding set
set-same f i a = ground arith

pub set-other :
    {A : Type 0} (f : ℕ → A) (i : ℕ) (a : A) (j : ℕ) → (j == i) ≡ false → set f i a j ≡ f j
unfolding set
set-other f i a j h = rw h refl

pub eq_lem : (i j : ℕ) → (i == j) ≡ true → i ≡ j
eq_lem i j h = ground arith

-- What holds of the new value at its place and of the old ones elsewhere holds of an update.
pub set-cases :
    {A : Type 0} (f : ℕ → A) (i : ℕ) (a : A) (P : ℕ → A → Type 0)
    → P i a
    → ((j : ℕ) → (j == i) ≡ false → P j (f j))
    → (j : ℕ) → P j (set f i a j)
set-cases f i a P h k j = elim (Bool-cases (j == i)) [
  | inl e ↦ rw (eq_lem j i e) (rw (set-same f i a) h)
  | inr e ↦ rw (set-other f i a j e) (k j e)
]

pub some-eq : {a b : ℕ} → some a ≡ some b → a ≡ b
some-eq {a} {b} h = cc

abbrev pub mem : ℕ → List ℕ → Bool
mem r [] = false
mem r (q ∷ qs) = (q == r) || mem r qs

abbrev pub nodup : List ℕ → Bool
nodup [] = true
nodup (q ∷ qs) = not (mem q qs) && nodup qs

pub mem-erase : (r q : ℕ) (l : List ℕ) → (q == r) ≡ false → mem q (erase r l) ≡ mem q l
unfolding erase
mem-erase r q [] h = refl
mem-erase r q (x ∷ xs) h = ground (arith, mem-erase r q xs h)

pub mem-erased : (r q : ℕ) (l : List ℕ) → mem q (erase r l) ≡ true → mem q l ≡ true
unfolding erase
mem-erased r q [] h = h
mem-erased r q (x ∷ xs) h = ground (arith, mem-erased r q xs)

pub erase-gone : (r : ℕ) (l : List ℕ) → nodup l ≡ true → mem r (erase r l) ≡ false
unfolding erase
erase-gone r [] h = refl
erase-gone r (x ∷ xs) h = ground (arith, erase-gone r xs, eq_lem x r)

pub nodup-erase : (r : ℕ) (l : List ℕ) → nodup l ≡ true → nodup (erase r l) ≡ true
unfolding erase
nodup-erase r [] h = refl
nodup-erase r (x ∷ xs) h = ground (arith, nodup-erase r xs, mem-erased r x xs)

pub mem-end : (q r : ℕ) (l : List ℕ) → mem q (l ++ r ∷ []) ≡ (mem q l || (r == q))
mem-end q r [] = ground arith
mem-end q r (x ∷ xs) = ground (arith, mem-end q r xs)

pub nodup-end : (r : ℕ) (l : List ℕ) → nodup l ≡ true → mem r l ≡ false → nodup (l ++ r ∷ []) ≡ true
nodup-end r [] h k = refl
nodup-end r (x ∷ xs) h k = ground (arith, nodup-end r xs, mem-end x r xs)

pub self-eq : (r : ℕ) → (r == r) ≡ true
self-eq r = ground arith

pub mem-last : (r : ℕ) (l : List ℕ) → mem r (l ++ r ∷ []) ≡ true
mem-last r l = ground (arith, mem-end r r l, self-eq r)

-- A member of a list with a new last element.
pub mem-cases : (q r : ℕ) (l : List ℕ) → mem q (l ++ r ∷ []) ≡ true → (mem q l ≡ true) ⊎ (q ≡ r)
mem-cases q r l h = elim (Bool-cases (mem q l)) [
  | inl m ↦ inl m
  | inr m ↦ inr (sym (eq_lem r q (ground (arith, mem-end q r l))))
]

pub mem-first : (r : ℕ) (l : List ℕ) → mem r (r ∷ l) ≡ true
mem-first r l = ground (arith, self-eq r)

pub mem-later : (q r : ℕ) (l : List ℕ) → mem q l ≡ true → mem q (r ∷ l) ≡ true
mem-later q r l h = ground arith

pub mem-rest : (q r : ℕ) (l : List ℕ) → (q == r) ≡ false → mem q (r ∷ l) ≡ true → mem q l ≡ true
mem-rest q r l n h = ground arith

pub nodup-rest : (r : ℕ) (l : List ℕ) → nodup (r ∷ l) ≡ true → nodup l ≡ true
nodup-rest r l h = ground arith

pub nodup-apart : (q r : ℕ) (l : List ℕ) → nodup (r ∷ l) ≡ true → mem q l ≡ true → (q == r) ≡ false
nodup-apart q r l h m = elim (Bool-cases (q == r)) [
  | inl e ↦ let same = ap (λ x. mem x l) (eq_lem q r e) in ground arith
  | inr e ↦ e
]

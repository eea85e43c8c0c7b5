-- ===== src/ResolverCache/Limit.antt =====
-- The size of the cache (src/panda/unievent/Resolver.cc).
use uni_event.Base.{
  ℕ, suc, ◌≤◌, ◌≡◌, refl, Bool, Option, none, some, List, [], ◌∷◌, arith, leb, length, Bool-cases,
  inl, inr,
}
use uni_event.ResolverCache.{
  Node, Row, lookup, erase, find_row, found, find, emplace, store, cut, mark_bad_address,
}

module _ {ℓ} {Key : Type ℓ} (same : Key → Key → Bool) where
  -- The caches of a resolver under a limit, which may be set anew.
  pub data Reach : ℕ → List (Row Key) → Type ℓ where
    empty : {limit : ℕ} → Reach limit []
    finds :
        {limit : ℕ} {rs : List (Row Key)} (now time : ℕ) (k : Key)
        → Reach limit rs
        → Reach limit (find same now time k rs).1
    stores :
        {limit : ℕ} {rs : List (Row Key)} (b : Bool) (r : Row Key)
        → Reach limit rs
        → Reach limit (store same b limit r rs)
    cuts :
        {limit : ℕ} {rs : List (Row Key)} (val : ℕ) → Reach limit rs → Reach val (cut same val rs)
    marks :
        {limit : ℕ} {rs : List (Row Key)} (k : Key) (sa : ℕ)
        → Reach limit rs
        → Reach limit (mark_bad_address same k sa rs)

  length-erase : (k : Key) (rs : List (Row Key)) → length (erase same k rs) ≤ length rs
  unfolding erase
  length-erase k [] = omega arith
  length-erase k (r ∷ rs) = ground (arith, length-erase k rs)

  length-row :
      (now time : ℕ) (k : Key) (r : Row Key) (ns : List Node) (rs : List (Row Key))
      → length (find_row same now time k r ns rs).1 ≤ length rs
  unfolding find_row
  length-row now time k r [] rs = omega arith
  length-row now time k r (n ∷ ns) rs = ground (arith, length-erase k rs)

  length-found :
      (now time : ℕ) (k : Key) (o : Option (Row Key)) (rs : List (Row Key))
      → length (found same now time k o rs).1 ≤ length rs
  unfolding found
  length-found now time k none rs = omega arith
  length-found now time k (some r) rs = length-row now time k r r.address.cur rs

  length-find :
      (now time : ℕ) (k : Key) (rs : List (Row Key))
      → length (find same now time k rs).1 ≤ length rs
  unfolding find
  length-find now time k rs = length-found now time k (lookup same k rs) rs

  length-emplace :
      (r : Row Key) (o : Option (Row Key)) (rs : List (Row Key))
      → length (emplace same r o rs) ≤ suc (length rs)
  unfolding emplace
  length-emplace r none rs = omega arith
  length-emplace r (some old) rs = omega arith

  length-store :
      (b : Bool) (limit : ℕ) (r : Row Key) (rs : List (Row Key))
      → length rs ≤ limit
      → length (store same b limit r rs) ≤ limit
  unfolding store
  length-store b limit r rs h = elim (Bool-cases (leb limit (length rs))) [
    | inl e ↦ ground (arith, length-emplace r (lookup same r.key []) [])
    | inr e ↦ ground (arith, length-emplace r (lookup same r.key rs) rs)
  ]

  length-mark :
      (k : Key) (sa : ℕ) (rs : List (Row Key)) → length (mark_bad_address same k sa rs) ≡ length rs
  unfolding mark_bad_address
  length-mark k sa [] = refl
  length-mark k sa (r ∷ rs) = ground (arith, length-mark k sa rs)

  -- The cache never holds more rows than its limit, whatever is found, stored and marked, and however
  -- the limit is changed.
  pub Reach-limit : {limit : ℕ} {rs : List (Row Key)} → Reach limit rs → length rs ≤ limit
  unfolding cut
  Reach-limit empty = omega arith
  Reach-limit (finds {limit} {rs} now time k w) =
      omega (arith, Reach-limit w, length-find now time k rs)
  Reach-limit (stores {limit} {rs} b r w) = length-store b limit r rs (Reach-limit w)
  Reach-limit (cuts val w) = ground arith
  Reach-limit (marks {limit} {rs} k sa w) = omega (arith, Reach-limit w, length-mark k sa rs)

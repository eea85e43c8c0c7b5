-- ===== src/ResolverCache/Finding.antt =====
-- What is found of what was stored (src/panda/unievent/Resolver.cc).
use uni_event.Base.{
  ℕ, ◌+◌, ◌<◌, ◌≡◌, refl, Bool, true, none, some, List, [], ◌∷◌, arith, ltb, leb, if◌then◌else◌,
  length, Bool-cases, inl, inr,
}
use uni_event.ResolverCache.{
  Node, Row, expired, min, lookup, erase, find_row, found, find, emplace, store,
}

module _ {ℓ} {Key : Type ℓ} (same : Key → Key → Bool) where
  store-first :
      (limit : ℕ) (r : Row Key) (rs : List (Row Key))
      → 0 < limit
      → lookup same r.key rs ≡ none
      → store same true limit r rs ≡ r ∷ (if leb limit (length rs) then [] else rs)
  unfolding store emplace lookup
  store-first limit r rs h e = elim (Bool-cases (leb limit (length rs))) [
    | inl f ↦ ground arith
    | inr f ↦ ground arith
  ]

  -- A successful answer that is stored in a cache without its key, and has an address, is found under
  -- its key until the lifetime of its first address or the expiration time of the cache is over, the
  -- one that ends first; later the row is erased and nothing is found. The comparison is reflexive.
  pub find-store :
      (limit now time : ℕ) (n : Node) (ns : List Node) (r : Row Key) (rs : List (Row Key))
      → same r.key r.key ≡ true
      → 0 < limit
      → lookup same r.key rs ≡ none
      → r.address.cur ≡ n ∷ ns
      → let kept = if leb limit (length rs) then [] else rs in
        find same now time r.key (store same true limit r rs) ≡ (
          if ltb (r.update_time + min n.ttl time) now
          then (none, kept)
          else (some r.address, r ∷ kept))
  unfolding find found find_row lookup erase expired
  find-store limit now time n ns r rs s h e c = rw (store-first limit r rs h e) (
      rw s (
        rw c (elim (Bool-cases (ltb (r.update_time + min n.ttl time) now)) [
          | inl f ↦ rw f (rw s refl)
          | inr f ↦ rw f refl
        ])))

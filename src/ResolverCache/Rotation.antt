-- ===== src/ResolverCache/Rotation.antt =====
-- The addresses that `mark_bad_address` goes through (src/panda/unievent/Resolver.cc).
use uni_event.Base.{ℕ, zero, suc, ◌≡◌, refl, ap, List, [], ◌∷◌, ◌++◌, length, take}
use uni_event.ResolverCache.{Node, AddrInfo, next_of, next, first, first_if, rotate}

-- The state behind so many marks of the current address, and the addresses that were current before.
abbrev pub rotations : ℕ → AddrInfo → AddrInfo
rotations zero a = a
rotations (suc k) a = rotations k (rotate a)

abbrev pub shown : ℕ → AddrInfo → List Node
shown zero a = []
shown (suc k) a = take 1 a.cur ++ shown k (rotate a)

rotations-rest :
    (n x : Node) (ns xs : List Node)
    → rotations (length (x ∷ xs)) (record { src = n ∷ ns; cur = x ∷ xs })
      ≡ record { src = n ∷ ns; cur = n ∷ ns }
unfolding rotate next next_of first first_if
rotations-rest n x ns [] = refl
rotations-rest n x ns (y ∷ xs) = rotations-rest n y ns xs

shown-rest :
    (n x : Node) (ns xs : List Node)
    → shown (length (x ∷ xs)) (record { src = n ∷ ns; cur = x ∷ xs }) ≡ x ∷ xs
unfolding rotate next next_of first first_if
shown-rest n x ns [] = refl
shown-rest n x ns (y ∷ xs) = ap (λ l. x ∷ l) (shown-rest n y ns xs)

-- From the first of the addresses of an answer, which has at least one, as many marks as there are
-- addresses show each of them once, in the order of the answer, and come back to the first.
rotations-shown :
    (n : Node) (ns : List Node)
    → let a : AddrInfo = record { src = n ∷ ns; cur = n ∷ ns } in
      (shown (length (n ∷ ns)) a ≡ n ∷ ns) × (rotations (length (n ∷ ns)) a ≡ a)
rotations-shown n ns = (shown-rest n n ns ns, rotations-rest n n ns ns)

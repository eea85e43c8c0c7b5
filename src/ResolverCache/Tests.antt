-- ===== src/ResolverCache/Tests.antt =====
-- A cache whose keys are numbers, and the theorems at it.
use uni_event.Base.{
  ℕ, ◌+◌, ◌≤◌, ◌≡◌, refl, Bool, true, none, some, List, [], ◌∷◌, ◌==◌, ltb, leb, if◌then◌else◌,
  length, arith,
}
use uni_event.ResolverCache.{Node, Row, min, lookup, find, store}
use uni_event.ResolverCache.Limit.{Reach, empty, stores, Reach-limit}
use uni_event.ResolverCache.Finding.{find-store}

abbrev same : ℕ → ℕ → Bool
same a b = a == b

abbrev node : Node
node = record { addr = 9; ttl = 60 }

abbrev other : Node
other = record { addr = 8; ttl = 30 }

abbrev row : Row ℕ
row = record {
  key = 5;
  address = record { src = node ∷ other ∷ []; cur = node ∷ other ∷ [] };
  update_time = 100;
}

abbrev filled : List (Row ℕ)
filled = store same true 2 row []

filled-Reach : Reach same 2 filled
filled-Reach = stores true row empty

Reach-limit_example : length filled ≤ 2
Reach-limit_example = Reach-limit same filled-Reach

find-store_example :
    let kept = if leb 2 (length {A = Row ℕ} []) then [] else [] in
    find same 150 600 5 filled
    ≡ (if ltb (100 + min 60 600) 150 then (none, kept) else (some row.address, row ∷ kept))
unfolding lookup
find-store_example = find-store same 2 150 600 node (other ∷ []) row [] refl (omega arith) refl refl

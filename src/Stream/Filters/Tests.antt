-- ===== src/Stream/Filters/Tests.antt =====
-- A chain of three filters, and the theorems about `add_filter` on it.
use uni_event.Base.{
  ℕ, ◌≡◌, refl, Bool, true, false, not, ◌&&◌, some, none, List, [], ◌∷◌, ltb, arith, if◌then◌else◌,
}
use uni_event.Stream.Filters.{Filter, add_filter}
use uni_event.Stream.Filters.Added.{added, IsSorted, add_filter-added, add_filter-IsSorted}

-- `a > b` on whole priorities.
abbrev above : ℕ → ℕ → Bool
above a b = ltb b a

above_asym : (a b : ℕ) → above a b ≡ true → above b a ≡ false
above_asym a b h = ground arith

above_trans : (a b c : ℕ) → above a b ≡ false → above b c ≡ false → above a c ≡ false
above_trans a b c h k = ground arith

abbrev tls : Filter ℕ
tls = record { name = 1; type = 10; priority = 1 }

abbrev socks : Filter ℕ
socks = record { name = 2; type = 20; priority = 5 }

abbrev middle : Filter ℕ
middle = record { name = 3; type = 30; priority = 3 }

abbrev chain : List (Filter ℕ)
chain = tls ∷ socks ∷ []

add_middle : add_filter above false false middle chain ≡ some (tls ∷ middle ∷ socks ∷ [])
unfolding add_filter
add_middle = refl

add_filter-added_example :
    add_filter above false false middle chain
    ≡ (if not false && false then none else some (added above middle chain))
add_filter-added_example = add_filter-added above false false middle chain

add_filter-IsSorted_example : IsSorted above (tls ∷ middle ∷ socks ∷ [])
unfolding IsSorted
add_filter-IsSorted_example =
    add_filter-IsSorted above above_asym above_trans false false middle chain
      (tls ∷ middle ∷ socks ∷ []) refl ((refl, tt), (tt, tt)) add_middle

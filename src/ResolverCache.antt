-- ===== src/ResolverCache.antt =====
-- The cache of the resolver, src/panda/unievent/Resolver.h and Resolver.cc, over the address lists of
-- AddrInfo.h. The key and its comparison are parameters; times are seconds.
pub mod Limit
pub mod Finding
pub mod Rotation
mod Tests
use uni_event.Base.{
  ℕ, zero, suc, ◌+◌, Bool, true, false, not, ◌&&◌, Option, none, some, List, [], ◌∷◌, ◌==◌, ltb,
  leb, if◌then◌else◌, length,
}

-- An address of the answer of c-ares.
pub record Node : Type 0 where
  pub addr : ℕ
  pub ttl : ℕ

-- `AddrInfo`: the answer, and the part of it from the current address on.
pub record AddrInfo : Type 0 where
  pub src : List Node
  pub cur : List Node

pub next_of : List Node → AddrInfo → AddrInfo
next_of [] a = record { src = []; cur = [] }
next_of (n ∷ ns) a = record a { cur = ns }

pub next : AddrInfo → AddrInfo
unfolding next_of
next a = next_of a.cur a

pub first : AddrInfo → AddrInfo
first a = record a { cur = a.src }

pub record Row {ℓ} (Key : Type ℓ) : Type ℓ where
  pub key : Key
  pub address : AddrInfo
  pub update_time : ℕ

pub expired : ℕ → ℕ → ℕ → Bool
expired update_time now expiration_time = ltb (update_time + expiration_time) now

abbrev pub min : ℕ → ℕ → ℕ
min a b = if ltb b a then b else a

module _ {ℓ} {Key : Type ℓ} (same : Key → Key → Bool) where
  pub lookup : Key → List (Row Key) → Option (Row Key)
  lookup k [] = none
  lookup k (r ∷ rs) = if same r.key k then some r else lookup k rs

  -- `_cache.erase(it)`: the row that `lookup` finds.
  pub erase : Key → List (Row Key) → List (Row Key)
  erase k [] = []
  erase k (r ∷ rs) = if same r.key k then rs else r ∷ erase k rs

  -- The part of `find` behind the search of the row: an address, and the cache. Without a current
  -- address the code follows a null pointer, and here nothing is found.
  pub find_row :
      ℕ → ℕ → Key → Row Key → List Node → List (Row Key) → Option AddrInfo × List (Row Key)
  unfolding expired erase
  find_row now limit k r [] rs = (none, rs)
  find_row now limit k r (n ∷ ns) rs =
      if not (expired r.update_time now (min n.ttl limit))
      then (some r.address, rs)
      else (none, erase k rs)

  pub found : ℕ → ℕ → Key → Option (Row Key) → List (Row Key) → Option AddrInfo × List (Row Key)
  unfolding find_row
  found now limit k none rs = (none, rs)
  found now limit k (some r) rs = find_row now limit k r r.address.cur rs

  -- `find`, with the time, and `cache_expiration_time`.
  pub find : ℕ → ℕ → Key → List (Row Key) → Option AddrInfo × List (Row Key)
  unfolding lookup found
  find now limit k rs = found now limit k (lookup k rs) rs

  -- `_cache.emplace` keeps a row that is there.
  pub emplace : Row Key → Option (Row Key) → List (Row Key) → List (Row Key)
  emplace r none rs = r ∷ rs
  emplace r (some old) rs = rs

  -- The part of `finish_resolve` that fills the cache: `stores` is `!err && req->_use_cache`.
  pub store : Bool → ℕ → Row Key → List (Row Key) → List (Row Key)
  unfolding lookup emplace
  store stores limit r rs =
      let kept = if leb limit (length rs) then [] else rs in
      if stores && not (limit == 0) then emplace r (lookup r.key kept) kept else rs

  -- The setter of `cache_limit`.
  pub cut : ℕ → List (Row Key) → List (Row Key)
  cut val rs = if ltb val (length rs) then [] else rs

-- `mark_bad_address` on the row that it finds.
pub first_if : List Node → AddrInfo → AddrInfo → AddrInfo
unfolding first
first_if [] n a = first a
first_if (x ∷ xs) n a = n

pub rotate : AddrInfo → AddrInfo
unfolding next first_if
rotate a = let n = next a in first_if n.cur n a

pub is_addr : ℕ → List Node → Bool
is_addr sa [] = false
is_addr sa (n ∷ ns) = n.addr == sa

module _ {ℓ} {Key : Type ℓ} (same : Key → Key → Bool) where
  pub mark_bad_address : Key → ℕ → List (Row Key) → List (Row Key)
  unfolding rotate is_addr
  mark_bad_address k sa [] = []
  mark_bad_address k sa (r ∷ rs) =
      let rest = mark_bad_address k sa rs in
      if same r.key k
      then (if is_addr sa r.address.cur
          then record r { address = rotate r.address } ∷ rs
          else r ∷ rs)
      else r ∷ rest

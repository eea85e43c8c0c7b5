-- ===== src/Resolver/Requests.antt =====
-- Where the running requests of a resolver are (src/panda/unievent/Resolver.cc).
use uni_event.Base.{
  ℕ, ◌<◌, ◌≡◌, refl, ap, ◌∙◌, Bool, true, false, not, ◌&&◌, Option, none, some, List, [], ◌∷◌,
  if◌then◌else◌, ◌⊎◌,
}
use uni_event.Resolver.{
  Request, Resolver, create, set, is_none, free_worker, worker_resolve, enqueue, assign, dispatch,
  answer_from_cache, resolve, finish_resolve, worker_finish, next_queued, free_again,
  after_callback,
}
use uni_event.Resolver.Lists.{set-cases, mem, mem-first}
use uni_event.Resolver.Places.{IsPlaced}
use uni_event.Resolver.Settled.{served-IsPlaced}
use uni_event.Resolver.Taken.{finish-IsPlaced, worker-IsPlaced, popped-IsWithout}
use uni_event.Resolver.Started.{start-IsPlaced}

-- The calls of the resolver, in any order, since a callback may make any of them. A request is
-- started that does not run and has no worker, and a round of the loop behind a callback has its
-- worker free.
pub data Reach (use_cache : ℕ → Bool) (max : ℕ) : Resolver → Type 0 where
  created : Reach use_cache max (create use_cache max)
  starts :
      {s : Resolver} (hit timeout : Bool) (r : ℕ)
      → (s.requests r).running ≡ false
      → (s.requests r).worker ≡ none
      → Reach use_cache max s
      → Reach use_cache max (resolve hit timeout r s)
  finishes :
      {s : Resolver} (r : ℕ) → Reach use_cache max s → Reach use_cache max (finish_resolve r s)
  answers : {s : Resolver} (w : ℕ) → Reach use_cache max s → Reach use_cache max (worker_finish w s)
  frees :
      {s : Resolver} (hit : Bool) (w : ℕ)
      → w < s.worker_count
      → Reach use_cache max s
      → Reach use_cache max (after_callback hit w s)
  goes_on :
      {s : Resolver} (hit : Bool) (w : ℕ)
      → w < s.worker_count
      → s.busy w ≡ none
      → Reach use_cache max s
      → Reach use_cache max (next_queued hit w s.queue s)

-- Whether a request may be answered from the cache says nothing of its place.
uncached-IsPlaced :
    (r : ℕ) (s : Resolver)
    → IsPlaced s
    → IsPlaced
        (record s { requests = set s.requests r (record (s.requests r) { use_cache = false }) })
uncached-IsPlaced r s v =
    let q : Request = record (s.requests r) { use_cache = false } in
    record {
      serves = λ p u.
          set-cases s.requests r q
            (λ p q'. q'.running ≡ true → q'.worker ≡ some u → s.busy u ≡ some p) (v.serves r u)
            (λ p n. v.serves p u) p;
      waits =
          set-cases s.requests r q
            (λ p q'. q'.running ≡ true → q'.worker ≡ none → q'.queued ≡ true → mem p s.queue ≡ true)
            (v.waits r) (λ p n. v.waits p);
      pends =
          set-cases s.requests r q
            (λ p q'.
              q'.running ≡ true
              → q'.worker ≡ none
              → q'.queued ≡ false
              → mem p s.cache_delayed ≡ true)
            (v.pends r) (λ p n. v.pends p);
      owned = λ p u.
          set-cases s.requests r q
            (λ p q'. s.busy u ≡ some p → (q'.running ≡ true) × (q'.worker ≡ some u)) (v.owned r u)
            (λ p n. v.owned p u) p;
      lined =
          set-cases s.requests r q
            (λ p q'.
              mem p s.queue ≡ true → (q'.running ≡ true) × (q'.worker ≡ none) × (q'.queued ≡ true))
            (v.lined r) (λ p n. v.lined p);
      once = v.once;
      idle =
          set-cases s.requests r q (λ p q'. q'.running ≡ false → q'.queued ≡ false) (v.idle r)
            (λ p n. v.idle p);
      bounded = v.bounded;
    }

next-IsPlaced :
    (hit : Bool) (w : ℕ) (l : List ℕ) (s : Resolver)
    → s.queue ≡ l
    → w < s.worker_count
    → s.busy w ≡ none
    → IsPlaced s
    → IsPlaced (next_queued hit w l s)
unfolding next_queued
next-IsPlaced hit w [] s e lt b v = v
next-IsPlaced hit w (r ∷ rs) s e lt b v = go ((s.requests r).use_cache && hit)
  where
    t : Resolver
    t = record s { requests = set s.requests r (record (s.requests r) { use_cache = false }) }

    go :
        (c : Bool)
        → IsPlaced (if c then finish_resolve r t else worker_resolve w r (record s { queue = rs }))
    go true = finish-IsPlaced r t (uncached-IsPlaced r s v)
    go false =
        served-IsPlaced w r (record s { queue = rs }) (popped-IsWithout r rs s v e)
          (v.lined r (ap (mem r) e ∙ mem-first r rs)).0 b lt

free-IsPlaced :
    (hit : Bool) (w : ℕ) (l : List ℕ) (s : Resolver)
    → s.queue ≡ l
    → w < s.worker_count
    → s.busy w ≡ none
    → IsPlaced s
    → IsPlaced (free_again hit w l s)
unfolding free_again
free-IsPlaced hit w [] s e lt b v = record {
  serves = v.serves;
  waits = v.waits;
  pends = v.pends;
  owned = v.owned;
  lined = v.lined;
  once = v.once;
  idle = v.idle;
  bounded = v.bounded;
}
free-IsPlaced hit w (q ∷ qs) s e lt b v = next-IsPlaced hit w (q ∷ qs) s e lt b v

after-IsPlaced :
    (hit : Bool) (w : ℕ) (s : Resolver)
    → w < s.worker_count
    → IsPlaced s
    → IsPlaced (after_callback hit w s)
unfolding after_callback is_none
after-IsPlaced hit w s lt v = go (s.busy w) refl
  where
    go :
        (o : Option ℕ)
        → s.busy w ≡ o
        → IsPlaced (if not (is_none o) then s else free_again hit w s.queue s)
    go none b = free-IsPlaced hit w s.queue s refl lt b v
    go (some r) b = v

-- Where a running request may be.
abbrev pub Located : ℕ → Resolver → Type 0
Located r s =
    ((w : ℕ) × (s.busy w ≡ some r)) ⊎ ((mem r s.queue ≡ true) ⊎ (mem r s.cache_delayed ≡ true))

module _ (use_cache : ℕ → Bool) (max : ℕ) where
  create-IsPlaced : IsPlaced (create use_cache max)
  unfolding create uni_event.Resolver.new_request
  create-IsPlaced = record {
    serves = λ p w h. cc;
    waits = λ p h. cc;
    pends = λ p h. cc;
    owned = λ p w h. cc;
    lined = λ p h. cc;
    once = refl;
    idle = λ p h. refl;
    bounded = λ w h. refl;
  }

  pub Reach-IsPlaced : {s : Resolver} → Reach use_cache max s → IsPlaced s
  Reach-IsPlaced created = create-IsPlaced
  Reach-IsPlaced (starts {s} hit timeout r h k v) =
      start-IsPlaced hit timeout r s h k (Reach-IsPlaced v)
  Reach-IsPlaced (finishes {s} r v) = finish-IsPlaced r s (Reach-IsPlaced v)
  Reach-IsPlaced (answers {s} w v) = worker-IsPlaced w s (Reach-IsPlaced v)
  Reach-IsPlaced (frees {s} hit w lt v) = after-IsPlaced hit w s lt (Reach-IsPlaced v)
  Reach-IsPlaced (goes_on {s} hit w lt b v) =
      next-IsPlaced hit w s.queue s refl lt b (Reach-IsPlaced v)

-- ===== src/Resolver/Started.antt =====
-- A request that is started gets a place (src/panda/unievent/Resolver.cc).
use uni_event.Base.{
  ℕ, zero, suc, ◌+◌, ◌<◌, ◌≤◌, ◌≡◌, refl, sym, ap, ◌∙◌, Bool, true, false, ◌&&◌, ◌||◌, Option, none,
  some, List, [], ◌∷◌, ltb, if◌then◌else◌, arith,
}
use uni_event.Resolver.{
  Request, Resolver, set, is_none, free_worker, worker_resolve, enqueue, assign, dispatch,
  answer_from_cache, resolve,
}
use uni_event.Resolver.Lists.{set-same, some-eq}
use uni_event.Resolver.Places.{IsPlaced, IsWithout, stopped-IsWithout, changed-IsWithout}
use uni_event.Resolver.Settled.{served-IsPlaced, enqueued-IsPlaced, cached-IsPlaced}

free_worker-none :
    (busy : ℕ → Option ℕ) (n w i : ℕ)
    → free_worker busy n w ≡ some i
    → (busy i ≡ none) × (i < w + n)
unfolding free_worker is_none
free_worker-none busy zero w i h = cc
free_worker-none busy (suc n) w i h = go (busy w) refl h (free_worker-none busy n (suc w) i)
  where
    go :
        (o : Option ℕ)
        → busy w ≡ o
        → (if is_none o then some w else free_worker busy n (suc w)) ≡ some i
        → (free_worker busy n (suc w) ≡ some i → (busy i ≡ none) × (i < suc w + n))
        → (busy i ≡ none) × (i < w + suc n)
    go none k l rec = let e : w ≡ i = some-eq l in (sym (ap busy e) ∙ k, omega (arith, e))
    go (some r) k l rec = let t = rec l in (t.0, omega (arith, t.1))

-- More workers, and the timer, concern no request.
grown-IsWithout :
    (r n : ℕ) (b : Bool) (s : Resolver)
    → s.worker_count ≤ n
    → IsWithout r s
    → IsWithout r (record s { worker_count = n; roll_timer = b })
grown-IsWithout r n b s h v = record {
  serves = v.serves;
  waits = v.waits;
  pends = v.pends;
  owned = v.owned;
  lined = v.lined;
  once = v.once;
  idle = v.idle;
  bounded = λ w le. v.bounded w (omega (arith, h, le));
}

-- A request that runs and is nowhere, in its place.
record IsStarting (r : ℕ) (s : Resolver) : Type 0 where
  without : IsWithout r s
  runs : (s.requests r).running ≡ true
  unserved : (s.requests r).worker ≡ none
  unqueued : (s.requests r).queued ≡ false

assign-IsPlaced :
    (o : Option ℕ) (r : ℕ) (s : Resolver)
    → free_worker s.busy s.worker_count 0 ≡ o
    → IsStarting r s
    → IsPlaced (assign o r s)
unfolding assign
assign-IsPlaced (some w) r s e v =
    let t = free_worker-none s.busy s.worker_count 0 w e in
    served-IsPlaced w r (record s { roll_timer = true })
      (grown-IsWithout r s.worker_count true s (omega arith) v.without) v.runs t.0
      (omega (arith, t.1))
assign-IsPlaced none r s e v = go (ltb s.worker_count s.max_workers)
  where
    more : Resolver
    more = record s { worker_count = suc s.worker_count }

    go : (b : Bool) → IsPlaced (if b then worker_resolve s.worker_count r more else enqueue r s)
    go true =
        served-IsPlaced s.worker_count r more
          (grown-IsWithout r (suc s.worker_count) s.roll_timer s (omega arith) v.without) v.runs
          (v.without.bounded s.worker_count (omega arith)) (omega arith)
    go false = enqueued-IsPlaced r s v.without v.runs v.unserved

dispatch-IsPlaced : (l : List ℕ) (r : ℕ) (s : Resolver) → IsStarting r s → IsPlaced (dispatch l r s)
unfolding dispatch
dispatch-IsPlaced [] r s v = assign-IsPlaced (free_worker s.busy s.worker_count 0) r s refl v
dispatch-IsPlaced (q ∷ qs) r s v = enqueued-IsPlaced r s v.without v.runs v.unserved

starting :
    (r : ℕ) (b : Bool) (s : Resolver)
    → IsPlaced s
    → (s.requests r).running ≡ false
    → (s.requests r).worker ≡ none
    → IsStarting r (record s {
      requests = set s.requests r (record (s.requests r) { running = true; timer = b });
    })
starting r b s v h k =
    let q : Request = record (s.requests r) { running = true; timer = b } in
    let same = set-same s.requests r q in
    record {
      without = changed-IsWithout r q s (stopped-IsWithout r s v h);
      runs = ap (λ x. x.running) same;
      unserved = ap (λ x. x.worker) same ∙ k;
      unqueued = ap (λ x. x.queued) same ∙ v.idle r h;
    }

pub start-IsPlaced :
    (hit timeout : Bool) (r : ℕ) (s : Resolver)
    → (s.requests r).running ≡ false
    → (s.requests r).worker ≡ none
    → IsPlaced s
    → IsPlaced (resolve hit timeout r s)
unfolding resolve
start-IsPlaced hit timeout r s h k v = go ((s.requests r).use_cache && hit)
  where
    t : Resolver
    t = record s { requests = set s.requests r (record (s.requests r) { running = true }) }

    u : Resolver
    u = record s {
      requests =
          set s.requests r
            (record (s.requests r) { running = true; timer = timeout || (s.requests r).timer });
    }

    go : (b : Bool) → IsPlaced (if b then answer_from_cache r t else dispatch s.queue r u)
    go true =
        let st = starting r (s.requests r).timer s v h k in
        cached-IsPlaced r t st.without st.runs st.unserved st.unqueued
    go false = dispatch-IsPlaced s.queue r u (starting r (timeout || (s.requests r).timer) s v h k)

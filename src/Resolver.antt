-- ===== src/Resolver.antt =====
-- The requests of the resolver, src/panda/unievent/Resolver.h and Resolver.cc, on other systems than
-- Windows. The answers of the cache are arguments; a request and a worker are numbers.
pub mod Lists
pub mod Places
pub mod Requests
pub mod Settled
pub mod Started
pub mod Taken
pub mod Stale
pub mod Reset
mod Tests
use uni_event.Base.{
  ℕ, zero, suc, ◌+◌, Bool, true, false, not, ◌&&◌, ◌||◌, Option, none, some, List, [], ◌∷◌, ◌++◌,
  ◌==◌, ltb, if◌then◌else◌,
}

pub record Request : Type 0 where
  pub running : Bool
  pub queued : Bool
  pub worker : Option ℕ
  pub use_cache : Bool
  pub timer : Bool
  pub delayed : Bool

-- `busy` gives the request of each worker below `worker_count`, and `called` the requests whose callback
-- was called.
pub record Resolver : Type 0 where
  pub requests : ℕ → Request
  pub busy : ℕ → Option ℕ
  pub worker_count : ℕ
  pub max_workers : ℕ
  pub queue : List ℕ
  pub cache_delayed : List ℕ
  pub roll_timer : Bool
  pub called : List ℕ

pub set {ℓ} : {A : Type ℓ} → (ℕ → A) → ℕ → A → ℕ → A
set f i a j = if j == i then a else f j

pub new_request : Bool → Request
new_request use_cache = record {
  running = false;
  queued = false;
  worker = none;
  use_cache = use_cache;
  timer = false;
  delayed = false;
}

-- The resolver with its first worker.
pub create : (ℕ → Bool) → ℕ → Resolver
unfolding new_request
create use_cache max = record {
  requests = λ r. new_request (use_cache r);
  busy = λ w. none;
  worker_count = 1;
  max_workers = max;
  queue = [];
  cache_delayed = [];
  roll_timer = false;
  called = [];
}

pub erase : ℕ → List ℕ → List ℕ
erase r [] = []
erase r (q ∷ qs) = let rest = erase r qs in if q == r then qs else q ∷ rest

-- `Worker::resolve`.
pub worker_resolve : ℕ → ℕ → Resolver → Resolver
worker_resolve w r s = record s {
  busy = set s.busy w (some r);
  requests = set s.requests r (record (s.requests r) { worker = some w });
}

pub is_none {ℓ} : {A : Type ℓ} → Option A → Bool
is_none none = true
is_none (some a) = false

-- The loop over `n` workers from `w` on, for one without a request.
pub free_worker : (ℕ → Option ℕ) → ℕ → ℕ → Option ℕ
unfolding is_none
free_worker busy zero w = none
free_worker busy (suc n) w =
    let rest = free_worker busy n (suc w) in if is_none (busy w) then some w else rest

pub enqueue : ℕ → Resolver → Resolver
enqueue r s = record s {
  requests = set s.requests r (record (s.requests r) { queued = true });
  queue = s.queue ++ r ∷ [];
}

-- What `resolve` does where the queue is empty, for the free worker if there is one.
pub assign : Option ℕ → ℕ → Resolver → Resolver
unfolding worker_resolve enqueue
assign (some w) r s = worker_resolve w r (record s { roll_timer = true })
assign none r s =
    if ltb s.worker_count s.max_workers
    then worker_resolve s.worker_count r (record s { worker_count = suc s.worker_count })
    else enqueue r s

pub dispatch : List ℕ → ℕ → Resolver → Resolver
unfolding assign free_worker
dispatch [] r s = assign (free_worker s.busy s.worker_count 0) r s
dispatch (q ∷ qs) r s = enqueue r s

pub answer_from_cache : ℕ → Resolver → Resolver
answer_from_cache r s = record s {
  cache_delayed = s.cache_delayed ++ r ∷ [];
  requests = set s.requests r (record (s.requests r) { use_cache = false; delayed = true });
}

-- `hit` is whether the cache has the answer, and `timeout` whether the request has one.
pub resolve : Bool → Bool → ℕ → Resolver → Resolver
unfolding dispatch answer_from_cache
resolve hit timeout r s =
    let t = record s { requests = set s.requests r (record (s.requests r) { running = true }) } in
    let u = record s {
      requests =
          set s.requests r
            (record (s.requests r) { running = true; timer = timeout || (s.requests r).timer });
    } in
    if (s.requests r).use_cache && hit then answer_from_cache r t else dispatch s.queue r u

-- `Worker::cancel` of a worker with a request or without one.
pub worker_cancel : ℕ → Option ℕ → Resolver → Resolver
worker_cancel w none s = s
worker_cancel w (some r) s = record s {
  requests = set s.requests r (record (s.requests r) { worker = none });
  busy = set s.busy w none;
}

-- Where `finish_resolve` takes the request from.
pub take_out : ℕ → Option ℕ → Bool → Resolver → Resolver
unfolding worker_cancel
take_out r (some w) queued s = worker_cancel w (s.busy w) s
take_out r none true s = record s { queue = erase r s.queue }
take_out r none false s = record s { cache_delayed = erase r s.cache_delayed }

pub ended : ℕ → Resolver → Resolver
ended r s = record s {
  requests =
      set s.requests r
        (record (s.requests r) { running = false; queued = false; delayed = false; timer = false });
  called = r ∷ s.called;
}

-- `finish_resolve` up to the callback, without the cache; the callback is further calls.
pub finish_resolve : ℕ → Resolver → Resolver
unfolding take_out ended
finish_resolve r s =
    if (s.requests r).running
    then ended r (take_out r (s.requests r).worker (s.requests r).queued s)
    else s

-- `Worker::finish_resolve`, which moves the request out of the worker; nothing for a canceled one.
pub finish_moved : ℕ → Option ℕ → Resolver → Resolver
unfolding finish_resolve
finish_moved w none s = s
finish_moved w (some r) s = finish_resolve r (record s { busy = set s.busy w none })

pub worker_finish : ℕ → Resolver → Resolver
unfolding finish_moved
worker_finish w s = finish_moved w (s.busy w) s

-- A round of the loop behind the callback, for the worker that became free.
pub next_queued : Bool → ℕ → List ℕ → Resolver → Resolver
unfolding worker_resolve finish_resolve
next_queued hit w [] s = s
next_queued hit w (r ∷ rs) s =
    if (s.requests r).use_cache && hit
    then finish_resolve r
        (record s { requests = set s.requests r (record (s.requests r) { use_cache = false }) })
    else worker_resolve w r (record s { queue = rs })

-- Whether one of `n` workers has a request.
pub any_busy : (ℕ → Option ℕ) → ℕ → Bool
unfolding is_none
any_busy busy zero = false
any_busy busy (suc n) = not (is_none (busy n)) || any_busy busy n

pub free_again : Bool → ℕ → List ℕ → Resolver → Resolver
unfolding any_busy next_queued
free_again hit w [] s = record s { roll_timer = s.roll_timer && any_busy s.busy s.worker_count }
free_again hit w (q ∷ qs) s = next_queued hit w (q ∷ qs) s

-- What follows the callback of a request that had a worker, with the first round of the loop.
pub after_callback : Bool → ℕ → Resolver → Resolver
unfolding free_again
after_callback hit w s = if not (is_none (s.busy w)) then s else free_again hit w s.queue s

-- ===== src/Resolver/Tests.antt =====
-- Runs of the requests of a resolver (src/panda/unievent/Resolver.cc).
use uni_event.Base.{arith, ℕ, ◌≡◌, ◌≢◌, refl, Bool, true, false, some, [], ◌∷◌}
use uni_event.Resolver.{
  Resolver, create, resolve, finish_resolve, worker_finish, next_queued, after_callback,
}
use uni_event.Resolver.Lists.{mem}
use uni_event.Resolver.Requests.{Reach, Reach-IsPlaced}
use uni_event.Resolver.Places.{IsPlaced}
use uni_event.Resolver.Reset.Canceled.{cancel_till-done}
use uni_event.Resolver.Reset.{done, cancel_till, reset, null_pointer, reset-null}
use uni_event.Resolver.Stale.{next-overwritten}

abbrev cached : ℕ → Bool
cached r = true

abbrev first : Resolver
first = resolve false true 1 (create cached 1)

-- One worker, with request 1 at it and request 2 in the queue.
abbrev waiting : Resolver
waiting = resolve false true 2 first

waiting-Reach : Reach cached 1 waiting
unfolding resolve create uni_event.Resolver.set
waiting-Reach =
    Reach.starts {s = first} false true 2 refl refl
      (Reach.starts false true 1 refl refl Reach.created)

waiting-busy : waiting.busy 0 ≡ some 1
unfolding resolve create uni_event.Resolver.set
waiting-busy = refl

waiting-queue : waiting.queue ≡ 2 ∷ []
unfolding resolve create uni_event.Resolver.set
waiting-queue = refl

waiting_run :
    (waiting.worker_count ≡ 1)
    × ((waiting.requests 1).running ≡ true)
    × ((waiting.requests 1).worker ≡ some 0)
    × (waiting.cache_delayed ≡ [])
unfolding resolve create uni_event.Resolver.set
waiting_run = (refl, refl, refl, refl)

-- The callback of the first is over, and the second has the worker.
abbrev served : Resolver
served = after_callback false 0 (worker_finish 0 waiting)

served_run : served.busy 0 ≡ some 2
unfolding resolve create worker_finish after_callback uni_event.Resolver.set
served_run = refl

next-overwritten_example :
    let t : Resolver = next_queued false 0 (2 ∷ []) waiting in
    ((t.requests 1).running ≡ true) × ((u : ℕ) → t.busy u ≢ some 1) × (mem 1 t.queue ≡ false)
next-overwritten_example =
    next-overwritten waiting 0 1 2 [] (Reach-IsPlaced cached 1 waiting-Reach) waiting-busy
      waiting-queue

-- Request 1 has been answered by the worker, which has request 2 now, and the cache answers request 1.
abbrev restarted : Resolver
restarted =
    resolve true true 1
      (resolve false true 2 (worker_finish 0 (resolve false true 1 (create cached 1))))

restarted_run :
    ((restarted.requests 1).running ≡ true)
    × ((restarted.requests 2).running ≡ true)
    × ((restarted.requests 1).worker ≡ some 0)
    × (restarted.busy 0 ≡ some 2)
unfolding resolve create worker_finish uni_event.Resolver.set
restarted_run = (refl, refl, refl, refl)

reset-null_example : reset waiting ≡ null_pointer
reset-null_example =
    reset-null 0 1 2 waiting waiting_run.0 waiting-busy waiting_run.1 waiting_run.2 waiting-queue
      waiting_run.3

cancel_till-done_example :
    (t : Resolver) × (cancel_till (λ u. u.queue) 1 2 (2 ∷ []) waiting ≡ done t) × IsPlaced t
cancel_till-done_example =
    cancel_till-done 1 2 (2 ∷ []) waiting (Reach-IsPlaced cached 1 waiting-Reach) waiting-queue refl
      (omega arith)

-- ===== src/Resolver/Reset.antt =====
-- `Resolver::reset` of src/panda/unievent/Resolver.cc, with callbacks that begin nothing.
pub mod Canceled
use uni_event.Base.{
  ℕ, zero, suc, ◌+◌, ◌≡◌, refl, sym, ap, ◌∙◌, Bool, true, false, not, Option, none, some, List, [],
  ◌∷◌, ◌++◌, ◌==◌, if◌then◌else◌, length,
}
use uni_event.Resolver.{
  Request, Resolver, set, erase, is_none, worker_resolve, worker_cancel, take_out, ended,
  finish_resolve, next_queued, any_busy, free_again, after_callback,
}
use uni_event.Resolver.Lists.{set-same}
use uni_event.Resolver.Stale.{next-served, finish-canceled}

-- What follows the callback of a request, which had a worker or none. No request of the queue is found
-- in the cache.
pub behind : Option ℕ → Resolver → Resolver
unfolding after_callback
behind none s = s
behind (some w) s = after_callback false w s

-- `Request::cancel`.
pub cancel : ℕ → Resolver → Resolver
unfolding finish_resolve behind
cancel r s = if (s.requests r).running then behind (s.requests r).worker (finish_resolve r s) else s

pub cancel_busy : Option ℕ → Resolver → Resolver
unfolding cancel
cancel_busy none s = s
cancel_busy (some r) s = cancel r s

-- The loop over `n` workers from `w` on.
pub cancel_workers : ℕ → ℕ → Resolver → Resolver
unfolding cancel_busy
cancel_workers zero w s = s
cancel_workers (suc n) w s = cancel_workers n (suc w) (cancel_busy (s.busy w) s)

-- The end of a loop: a state, a null pointer that is followed, or no more fuel.
pub data Ending : Type 0 where
  done : Resolver → Ending
  null_pointer : Ending
  no_fuel : Ending

-- A `while` loop up to the request `last`, and its cancellation; `list` is the queue or `cache_delayed`.
pub cancel_till : (Resolver → List ℕ) → ℕ → ℕ → List ℕ → Resolver → Ending
unfolding cancel
cancel_till list fuel last [] s = null_pointer
cancel_till list zero last (r ∷ rs) s = no_fuel
cancel_till list (suc fuel) last (r ∷ rs) s =
    let t = cancel r s in
    let rest = cancel_till list fuel last (list t) t in if r == last then done t else rest

-- The last element.
pub back : List ℕ → Option ℕ
back [] = none
back (r ∷ []) = some r
back (r ∷ q ∷ rs) = back (q ∷ rs)

pub cancel_list : (Resolver → List ℕ) → Option ℕ → Resolver → Ending
unfolding cancel_till
cancel_list list none s = done s
cancel_list list (some last) s = cancel_till list (suc (length (list s))) last (list s) s

pub and_queue : Option ℕ → Ending → Ending
unfolding cancel_list
and_queue last (done s) = cancel_list (λ t. t.queue) last s
and_queue last null_pointer = null_pointer
and_queue last no_fuel = no_fuel

pub reset : Resolver → Ending
unfolding back cancel_workers cancel_list and_queue
reset s =
    let last_cached = back s.cache_delayed in
    let last_queued = back s.queue in
    let t = cancel_workers s.worker_count 0 (record s { roll_timer = false }) in
    and_queue last_queued (cancel_list (λ t. t.cache_delayed) last_cached t)

-- A queue that is empty stays so.
ended-empty : (r : ℕ) (s : Resolver) → s.queue ≡ [] → (ended r s).queue ≡ []
unfolding ended
ended-empty r s e = e

take_out-empty :
    (r : ℕ) (w : Option ℕ) (queued : Bool) (s : Resolver)
    → s.queue ≡ []
    → (take_out r w queued s).queue ≡ []
unfolding take_out
take_out-empty r (some w) queued s e = go (s.busy w)
  where
    go : (p : Option ℕ) → (worker_cancel w p s).queue ≡ []
    go none = unfold worker_cancel in e
    go (some p) = unfold worker_cancel in e
take_out-empty r none true s e = ap (erase r) e ∙ unfold erase in refl
take_out-empty r none false s e = e

finish-empty : (r : ℕ) (s : Resolver) → s.queue ≡ [] → (finish_resolve r s).queue ≡ []
unfolding finish_resolve
finish-empty r s e = go (s.requests r).running
  where
    go :
        (b : Bool)
        → let t : Resolver =
            if b then ended r (take_out r (s.requests r).worker (s.requests r).queued s) else s in
          t.queue ≡ []
    go true =
        ended-empty r (take_out r (s.requests r).worker (s.requests r).queued s)
          (take_out-empty r (s.requests r).worker (s.requests r).queued s e)
    go false = e

behind-empty : (w : Option ℕ) (s : Resolver) → s.queue ≡ [] → (behind w s).queue ≡ []
unfolding behind after_callback
behind-empty none s e = e
behind-empty (some w) s e = go (not (is_none (s.busy w)))
  where
    free : (q : List ℕ) → q ≡ [] → (free_again false w q s).queue ≡ []
    free [] k = unfold free_again in e
    free (q ∷ qs) k = cc

    go :
        (b : Bool)
        → let t : Resolver = if b then s else free_again false w s.queue s in t.queue ≡ []
    go true = e
    go false = free s.queue e

cancel-empty : (r : ℕ) (s : Resolver) → s.queue ≡ [] → (cancel r s).queue ≡ []
unfolding cancel
cancel-empty r s e = go (s.requests r).running
  where
    go :
        (b : Bool)
        → let t : Resolver = if b then behind (s.requests r).worker (finish_resolve r s) else s in
          t.queue ≡ []
    go true = behind-empty (s.requests r).worker (finish_resolve r s) (finish-empty r s e)
    go false = e

busy-empty : (p : Option ℕ) (s : Resolver) → s.queue ≡ [] → (cancel_busy p s).queue ≡ []
unfolding cancel_busy
busy-empty none s e = e
busy-empty (some p) s e = cancel-empty p s e

workers-empty : (n w : ℕ) (s : Resolver) → s.queue ≡ [] → (cancel_workers n w s).queue ≡ []
unfolding cancel_workers
workers-empty zero w s e = e
workers-empty (suc n) w s e =
    workers-empty n (suc w) (cancel_busy (s.busy w) s) (busy-empty (s.busy w) s e)

-- A worker that becomes free takes the only request of the queue.
behind-empties :
    (w q : ℕ) (s : Resolver) → s.busy w ≡ none → s.queue ≡ q ∷ [] → (behind (some w) s).queue ≡ []
unfolding behind after_callback
behind-empties w q s h e =
    ap (λ b. (if not (is_none b) then s else free_again false w s.queue s).queue) h
    ∙ unfold is_none in
      ap (λ l. (free_again false w l s).queue) e
      ∙ unfold free_again in
        ap (λ t. t.queue) (next-served w q [] s) ∙ unfold worker_resolve in refl

cancel-empties :
    (w p q : ℕ) (s : Resolver)
    → (s.requests p).running ≡ true
    → (s.requests p).worker ≡ some w
    → s.busy w ≡ some p
    → s.queue ≡ q ∷ []
    → (cancel p s).queue ≡ []
unfolding cancel
cancel-empties w p q s h k b e =
    let t : Resolver = ended p (record s {
      requests = set s.requests p (record (s.requests p) { worker = none });
      busy = set s.busy w none;
    }) in
    ap (λ c. (if c then behind (s.requests p).worker (finish_resolve p s) else s).queue) h
    ∙ ap (λ v. (behind v (finish_resolve p s)).queue) k
    ∙ ap (λ x. (behind (some w) x).queue) (finish-canceled s w p p h k b)
    ∙ behind-empties w q t (unfold ended in set-same s.busy w none) (unfold ended in e)

till-null :
    (list : Resolver → List ℕ) (fuel last : ℕ) (l : List ℕ) (s : Resolver)
    → l ≡ []
    → cancel_till list fuel last l s ≡ null_pointer
unfolding cancel_till
till-null list fuel last [] s e = refl
till-null list fuel last (r ∷ l) s e = cc

-- A `reset` of a resolver whose first worker has a request, while exactly one request is in the queue and
-- none waits for its answer from the cache: the worker that becomes free takes the request of the queue,
-- and the loop that looks for it there follows a null pointer.
pub reset-null :
    (n p q : ℕ) (s : Resolver)
    → s.worker_count ≡ suc n
    → s.busy 0 ≡ some p
    → (s.requests p).running ≡ true
    → (s.requests p).worker ≡ some 0
    → s.queue ≡ q ∷ []
    → s.cache_delayed ≡ []
    → reset s ≡ null_pointer
unfolding reset
reset-null n p q s c b h k e d =
    ap
      (λ m.
        and_queue (back s.queue)
          (cancel_list (λ t. t.cache_delayed) (back s.cache_delayed) (cancel_workers m 0 s0)))
      c
    ∙ ap (λ l. and_queue (back l) (cancel_list (λ t. t.cache_delayed) (back s.cache_delayed) t)) e
    ∙ ap (λ l. and_queue (back (q ∷ [])) (cancel_list (λ t. t.cache_delayed) (back l) t)) d
    ∙ unfold back and_queue cancel_list in
      till-null (λ t. t.queue) (suc (length t.queue)) q t.queue t empty
  where
    s0 : Resolver
    s0 = record s { roll_timer = false }

    t : Resolver
    t = cancel_workers (suc n) 0 s0

    first : (cancel_busy (s.busy 0) s0).queue ≡ []
    first =
        ap (λ o. (cancel_busy o s0).queue) b ∙ unfold cancel_busy in cancel-empties 0 p q s0 h k b e

    empty : t.queue ≡ []
    empty = unfold cancel_workers in workers-empty n 1 (cancel_busy (s.busy 0) s0) first

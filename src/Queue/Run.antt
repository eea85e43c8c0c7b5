-- ===== src/Queue/Run.antt =====
-- How the queue of src/panda/unievent/Queue.h runs: one step of the code at the top of the stack,
-- with exceptions unwinding it, and the events by which the loop and the user start new code.
pub mod Order
mod Tests
pub mod Locks
pub mod Starts
use uni_event.Base.{
  ℕ, Bool, true, false, Option, none, some, List, [], ◌∷◌, ◌++◌, ◌==◌, if◌then◌else◌,
}
use uni_event.Queue.{
  Act, push, done, cancel, delay, attach, throw, Client, Delayed, own, final, Stage, finalizing,
  start, looping, bumping, Frame, acts, set_async, unlock, leave, rethrow, resuming, canceling,
  Status, running, raising, Machine, incr, decr, update, delay_cancel, delay_for, enter, go_on,
  abort, raise, queue_push, queue_resume, queue_done, queue_cancel,
}

pub act : Client → Act → Machine → Machine
unfolding queue_push queue_done queue_cancel delay_for raise
act c (push r) m = queue_push c r m
act c (done r k) m = queue_done c r k m
act c (cancel pre post till) m = queue_cancel pre post till m
act c (delay r k) m = delay_for (own r k) m
act c (attach r) m = record m { attached = update m.attached r true }
act c throw m = raise m

pub run_acts : Client → List Act → Machine → Machine
unfolding act go_on
run_acts c [] m = m
run_acts c (a ∷ rest) m = act c a (go_on (acts rest) m)

-- `while (finalized_requests.size())`, then `fpre()`.
pub cancel_finalized : Client → ℕ → ℕ → ℕ → Bool → List ℕ → Machine → Machine
unfolding enter go_on delay_cancel
cancel_finalized c gen pre post kept [] m =
    enter (c.prog pre) (go_on (canceling start gen pre post 0 kept) m)
cancel_finalized c gen pre post kept (r ∷ rest) m = enter (c.notify r) (
    go_on (canceling finalizing gen pre post 0 kept) (record m {
      queue = record (m.queue) { finalized = rest };
      delayed = delay_cancel r m.delayed;
      called = m.called ++ r ∷ [];
    }))

-- `cancel_till = nullptr; --locked`, with `exk.throw_if_any()` to come.
pub cancel_release : Bool → Machine → Machine
unfolding go_on
cancel_release kept m =
    let m' = record m { queue = record (m.queue) { cancel_till = none; locked = decr m.locked } } in
    if kept then go_on rethrow m' else m'

-- `cancel_till = nullptr; --locked; resume(); exk.throw_if_any()`.
pub cancel_end : Client → Bool → Machine → Machine
unfolding queue_resume cancel_release
cancel_end c kept m = queue_resume c (cancel_release kept m)

-- `if (gen == cancel_gen) etry(fpost(); ++cancel_gen)`.
pub cancel_post : Client → ℕ → ℕ → ℕ → Bool → Machine → Machine
unfolding enter go_on cancel_end
cancel_post c gen pre post kept m =
    if gen == m.cancel_gen
    then enter (c.prog post) (go_on (canceling bumping gen pre post 0 kept) m)
    else cancel_end c kept m

-- One round of the loop: `cur = requests.front(); etry(cur->cancel(...))`.
pub cancel_round : Client → ℕ → ℕ → ℕ → Bool → List ℕ → Machine → Machine
unfolding enter go_on abort
cancel_round c gen pre post kept [] m = abort m
cancel_round c gen pre post kept (r ∷ rest) m =
    enter (c.cancel r) (go_on (canceling looping gen pre post r kept) m)

-- `if (requests.size() && cancel_till)`.
pub cancel_enter : Client → ℕ → ℕ → ℕ → Bool → List ℕ → Option ℕ → Machine → Machine
unfolding cancel_round cancel_post
cancel_enter c gen pre post kept [] till m = cancel_post c gen pre post kept m
cancel_enter c gen pre post kept (r ∷ rest) none m = cancel_post c gen pre post kept m
cancel_enter c gen pre post kept (r ∷ rest) (some t) m =
    cancel_round c gen pre post kept (r ∷ rest) m

abbrev pub is_front : List ℕ → ℕ → Bool
is_front [] r = false
is_front (q ∷ rest) r = q == r

-- `while (cancel_till && cur != cancel_till)`.
pub cancel_while : Client → ℕ → ℕ → ℕ → ℕ → Bool → Option ℕ → Machine → Machine
unfolding cancel_round cancel_post
cancel_while c gen pre post cur kept none m = cancel_post c gen pre post kept m
cancel_while c gen pre post cur kept (some t) m =
    if t == cur
    then cancel_post c gen pre post kept m
    else cancel_round c gen pre post kept m.requests m

-- Behind `cur->cancel(...)`: `assert(cur != requests.front())`.
pub cancel_next : Client → ℕ → ℕ → ℕ → ℕ → Bool → Machine → Machine
unfolding cancel_while abort
cancel_next c gen pre post cur kept m =
    if is_front m.requests cur
    then abort m
    else cancel_while c gen pre post cur kept m.cancel_till m

-- `++cancel_gen`.
pub bumped : Machine → Machine
bumped m = record m { queue = record (m.queue) { cancel_gen = incr m.cancel_gen } }

pub run_stage : Client → Stage → ℕ → ℕ → ℕ → ℕ → Bool → Machine → Machine
unfolding cancel_finalized cancel_enter cancel_next cancel_end bumped
run_stage c finalizing gen pre post cur kept m = cancel_finalized c gen pre post kept m.finalized m
run_stage c start gen pre post cur kept m =
    cancel_enter c gen pre post kept m.requests m.cancel_till m
run_stage c looping gen pre post cur kept m = cancel_next c gen pre post cur kept m
run_stage c bumping gen pre post cur kept m = cancel_end c kept (bumped m)

-- `ExceptionKeeper::etry` keeps the exception, and the code behind the call goes on.
pub catch_stage : Client → Stage → ℕ → ℕ → ℕ → ℕ → Machine → Machine
unfolding cancel_finalized cancel_enter cancel_next cancel_end
catch_stage c finalizing gen pre post cur m = cancel_finalized c gen pre post true m.finalized m
catch_stage c start gen pre post cur m = cancel_enter c gen pre post true m.requests m.cancel_till m
catch_stage c looping gen pre post cur m = cancel_next c gen pre post cur true m
catch_stage c bumping gen pre post cur m = cancel_end c true m

-- `--locked; ++resume_recursion`, with `--resume_recursion` to come.
pub unlocked : Machine → Machine
unfolding go_on
unlocked m = go_on leave (record m {
  queue = record (m.queue) { locked = decr m.locked; resume_recursion = incr m.resume_recursion };
})

-- The second function of the guard in `done`, which resumes the queue in between.
pub unlock_resume : Client → Machine → Machine
unfolding queue_resume unlocked
unlock_resume c m = queue_resume c (unlocked m)

-- The guard passes the exception on once its second function has run.
pub caught : Machine → Machine
unfolding go_on
caught m = go_on rethrow (record m { status = running })

-- Control comes back to a frame.
pub return_to : Client → Frame → Machine → Machine
unfolding run_acts run_stage unlock_resume raise queue_resume
return_to c (acts todo) m = run_acts c todo m
return_to c (set_async r) m = record m { async = update m.async r true }
return_to c unlock m = unlock_resume c m
return_to c leave m = record m {
  queue = record (m.queue) { resume_recursion = decr m.resume_recursion };
}
return_to c rethrow m = raise m
return_to c resuming m = queue_resume c m
return_to c (canceling stage gen pre post cur kept) m = run_stage c stage gen pre post cur kept m

-- An exception reaches a frame.
pub unwind : Client → Frame → Machine → Machine
unfolding unlock_resume catch_stage caught
unwind c (acts todo) m = m
unwind c (set_async r) m = m
unwind c unlock m = unlock_resume c (caught m)
unwind c leave m = m
unwind c rethrow m = m
unwind c resuming m = m
unwind c (canceling stage gen pre post cur kept) m =
    catch_stage c stage gen pre post cur (record m { status = running })

pub step_stack : Client → Status → List Frame → Machine → Machine
unfolding return_to unwind
step_stack c running (f ∷ rest) m = return_to c f (record m { stack = rest })
step_stack c raising (f ∷ rest) m = unwind c f (record m { stack = rest })
step_stack c _ _ m = m

unfoldable pub step : Client → Machine → Machine
unfolding step_stack
step c m = step_stack c m.status m.stack m

-- The function that `done` hands to `delay`, with `resume()` behind it past the recursion limit.
pub end_delayed : Client → ℕ → ℕ → Bool → List ℕ → Machine → Machine
unfolding enter go_on abort
end_delayed c r k again [] m = abort m
end_delayed c r k again (q ∷ rest) m =
    if q == r
    then enter (c.prog k) (if again then go_on resuming (pop rest m) else pop rest m)
    else abort m
  where
    pop : List ℕ → Machine → Machine
    pop fs n = record n { queue = record (n.queue) { finalized = fs }; called = n.called ++ r ∷ [] }

pub fire : Client → List Delayed → Machine → Machine
unfolding end_delayed enter
fire c [] m = m
fire c (own r k ∷ ds) m = enter (c.prog k) (record m { delayed = ds })
fire c (final r k again ∷ ds) m = end_delayed c r k again m.finalized (record m { delayed = ds })

-- The loop runs client code from an empty stack: a user's call, or the oldest delayed callback.
pub data Event : Type 0 where
  code : ℕ → Event
  tick : Event

pub begin : Client → Event → Machine → Machine
unfolding enter fire
begin c (code k) m = enter (c.prog k) (record m { status = running })
begin c tick m = fire c m.delayed (record m { status = running })

pub handle : Client → Event → List Frame → Status → Machine → Machine
unfolding begin
handle c e [] running m = begin c e m
handle c e [] raising m = begin c e m
handle c e _ _ m = m

pub empty : Machine
empty = record {
  queue = record {
    requests = [];
    finalized = [];
    locked = 0;
    cancel_gen = 0;
    cancel_till = none;
    resume_recursion = 0;
  };
  async = λ r. false;
  attached = λ r. false;
  delayed = [];
  stack = [];
  status = running;
  pushed = [];
  popped = [];
  called = [];
  started = [];
}

-- Every state that the queue can come to, whatever its client does.
pub data Reach (c : Client) : Machine → Type 0 where
  fresh : Reach c empty
  stepped : {m : Machine} → Reach c m → Reach c (step c m)
  handled : {m : Machine} (e : Event) → Reach c m → Reach c (handle c e m.stack m.status m)

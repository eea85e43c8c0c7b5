-- ===== src/Queue/Run/Order.antt =====
-- The order in which the queue of src/panda/unievent/Queue.h takes requests, and how often it
-- calls their callbacks.
use uni_event.Base.{
  ℕ, ◌+◌, ◌≡◌, refl, Bool, true, false, Option, none, some, List, [], ◌∷◌, ◌++◌, append_assoc,
  arith, count, count-append,
}
use uni_event.Queue.{
  Act, push, done, cancel, delay, attach, throw, Client, Delayed, own, final, Stage, finalizing,
  start, looping, bumping, Frame, acts, set_async, unlock, leave, rethrow, resuming, canceling,
  Status, running, raising, Machine, queue_push, resume_front, finish, done_front,
}
use uni_event.Queue.Run.{
  act, cancel_finalized, cancel_release, cancel_end, cancel_post, cancel_round, cancel_enter,
  cancel_while, cancel_next, bumped, run_stage, catch_stage, unlocked, caught, unlock_resume,
  return_to, unwind, step_stack, step, end_delayed, fire, Event, code, tick, begin, handle, empty,
  Reach, fresh, stepped, handled,
}

module _ (a : ℕ) where
  -- What holds of the record of a run, for the request `a`.
  pub record IsOrdered (m : Machine) : Type 0 where
    pub fifo : m.pushed ≡ m.popped ++ m.requests
    pub once : count a m.popped ≡ count a m.called + count a m.finalized

  resume-IsOrdered :
      (c : Client) (rs : List ℕ) (m : Machine) → IsOrdered m → IsOrdered (resume_front c rs m)
  unfolding resume_front
  resume-IsOrdered c [] m v = v
  resume-IsOrdered c (r ∷ rs) m v = ground arith

  push-IsOrdered : (c : Client) (r : ℕ) (m : Machine) → IsOrdered m → IsOrdered (queue_push c r m)
  unfolding queue_push
  push-IsOrdered c r m v = ground (arith, append_assoc m.popped m.requests (r ∷ []))

  finish-IsOrdered :
      (c : Client) (r k : ℕ) (m : Machine)
      → m.pushed ≡ m.popped ++ m.requests
      → count a m.popped ≡ count a m.called + count a m.finalized + count a (r ∷ [])
      → IsOrdered (finish c r k m)
  unfolding finish
  finish-IsOrdered c r k m p q =
      ground (arith, count-append a m.called (r ∷ []), count-append a m.finalized (r ∷ []))

  done-IsOrdered :
      (c : Client) (r k : ℕ) (rs : List ℕ) (m : Machine)
      → m.requests ≡ rs
      → IsOrdered m
      → IsOrdered (done_front c r k rs m)
  unfolding done_front finish
  done-IsOrdered c r k [] m e v = ground arith
  done-IsOrdered c r k (q ∷ rest) m e v = ground (
    arith,
    append_assoc m.popped (r ∷ []) rest,
    count-append a m.popped (r ∷ []),
    count-append a m.called (r ∷ []),
    count-append a m.finalized (r ∷ []),
  )

  end-IsOrdered :
      (c : Client) (kept : Bool) (m : Machine) → IsOrdered m → IsOrdered (cancel_end c kept m)
  unfolding cancel_end
  end-IsOrdered c true m v = resume-IsOrdered c m.requests (cancel_release true m) (ground arith)
  end-IsOrdered c false m v = resume-IsOrdered c m.requests (cancel_release false m) (ground arith)

  finalized-IsOrdered :
      (c : Client) (gen pre post : ℕ) (kept : Bool) (fs : List ℕ) (m : Machine)
      → m.finalized ≡ fs
      → IsOrdered m
      → IsOrdered (cancel_finalized c gen pre post kept fs m)
  unfolding cancel_finalized
  finalized-IsOrdered c gen pre post kept [] m e v = ground arith
  finalized-IsOrdered c gen pre post kept (r ∷ fs) m e v =
      ground (arith, count-append a m.called (r ∷ []))

  post-IsOrdered :
      (c : Client) (gen pre post : ℕ) (kept : Bool) (m : Machine)
      → IsOrdered m
      → IsOrdered (cancel_post c gen pre post kept m)
  unfolding cancel_post
  post-IsOrdered c gen pre post kept m v = ground (arith, end-IsOrdered c kept m v)

  round-IsOrdered :
      (c : Client) (gen pre post : ℕ) (kept : Bool) (rs : List ℕ) (m : Machine)
      → IsOrdered m
      → IsOrdered (cancel_round c gen pre post kept rs m)
  unfolding cancel_round
  round-IsOrdered c gen pre post kept [] m v = ground arith
  round-IsOrdered c gen pre post kept (r ∷ rs) m v = ground arith

  enter-IsOrdered :
      (c : Client) (gen pre post : ℕ) (kept : Bool) (rs : List ℕ) (till : Option ℕ) (m : Machine)
      → IsOrdered m
      → IsOrdered (cancel_enter c gen pre post kept rs till m)
  unfolding cancel_enter
  enter-IsOrdered c gen pre post kept [] till m v = post-IsOrdered c gen pre post kept m v
  enter-IsOrdered c gen pre post kept (r ∷ rs) none m v = post-IsOrdered c gen pre post kept m v
  enter-IsOrdered c gen pre post kept (r ∷ rs) (some t) m v =
      round-IsOrdered c gen pre post kept (r ∷ rs) m v

  while-IsOrdered :
      (c : Client) (gen pre post cur : ℕ) (kept : Bool) (till : Option ℕ) (m : Machine)
      → IsOrdered m
      → IsOrdered (cancel_while c gen pre post cur kept till m)
  unfolding cancel_while
  while-IsOrdered c gen pre post cur kept none m v = post-IsOrdered c gen pre post kept m v
  while-IsOrdered c gen pre post cur kept (some t) m v = ground (
    arith,
    post-IsOrdered c gen pre post kept m v,
    round-IsOrdered c gen pre post kept m.requests m v,
  )

  next-IsOrdered :
      (c : Client) (gen pre post cur : ℕ) (kept : Bool) (m : Machine)
      → IsOrdered m
      → IsOrdered (cancel_next c gen pre post cur kept m)
  unfolding cancel_next
  next-IsOrdered c gen pre post cur kept m v =
      ground (arith, while-IsOrdered c gen pre post cur kept m.cancel_till m v)

  stage-IsOrdered :
      (c : Client) (s : Stage) (gen pre post cur : ℕ) (kept : Bool) (m : Machine)
      → IsOrdered m
      → IsOrdered (run_stage c s gen pre post cur kept m)
  unfolding run_stage
  stage-IsOrdered c finalizing gen pre post cur kept m v =
      finalized-IsOrdered c gen pre post kept m.finalized m refl v
  stage-IsOrdered c start gen pre post cur kept m v =
      enter-IsOrdered c gen pre post kept m.requests m.cancel_till m v
  stage-IsOrdered c looping gen pre post cur kept m v = next-IsOrdered c gen pre post cur kept m v
  stage-IsOrdered c bumping gen pre post cur kept m v =
      end-IsOrdered c kept (bumped m) (ground arith)

  catch-IsOrdered :
      (c : Client) (s : Stage) (gen pre post cur : ℕ) (m : Machine)
      → IsOrdered m
      → IsOrdered (catch_stage c s gen pre post cur m)
  unfolding catch_stage
  catch-IsOrdered c finalizing gen pre post cur m v =
      finalized-IsOrdered c gen pre post true m.finalized m refl v
  catch-IsOrdered c start gen pre post cur m v =
      enter-IsOrdered c gen pre post true m.requests m.cancel_till m v
  catch-IsOrdered c looping gen pre post cur m v = next-IsOrdered c gen pre post cur true m v
  catch-IsOrdered c bumping gen pre post cur m v = end-IsOrdered c true m v

  act-IsOrdered : (c : Client) (x : Act) (m : Machine) → IsOrdered m → IsOrdered (act c x m)
  unfolding act
  act-IsOrdered c (push r) m v = push-IsOrdered c r m v
  act-IsOrdered c (done r k) m v = done-IsOrdered c r k m.requests m refl v
  act-IsOrdered c (cancel pre post till) m v = ground arith
  act-IsOrdered c (delay r k) m v = ground arith
  act-IsOrdered c (attach r) m v = ground arith
  act-IsOrdered c throw m v = ground arith

  unlock-IsOrdered : (c : Client) (m : Machine) → IsOrdered m → IsOrdered (unlock_resume c m)
  unfolding unlock_resume
  unlock-IsOrdered c m v = resume-IsOrdered c m.requests (unlocked m) (ground arith)

  return-IsOrdered :
      (c : Client) (f : Frame) (m : Machine) → IsOrdered m → IsOrdered (return_to c f m)
  unfolding return_to
  return-IsOrdered c (acts []) m v = v
  return-IsOrdered c (acts (x ∷ xs)) m v = act-IsOrdered c x _ (ground arith)
  return-IsOrdered c (set_async r) m v = ground arith
  return-IsOrdered c unlock m v = unlock-IsOrdered c m v
  return-IsOrdered c leave m v = ground arith
  return-IsOrdered c rethrow m v = ground arith
  return-IsOrdered c resuming m v = resume-IsOrdered c m.requests m v
  return-IsOrdered c (canceling s gen pre post cur kept) m v =
      stage-IsOrdered c s gen pre post cur kept m v

  unwind-IsOrdered : (c : Client) (f : Frame) (m : Machine) → IsOrdered m → IsOrdered (unwind c f m)
  unfolding unwind
  unwind-IsOrdered c unlock m v = unlock-IsOrdered c (caught m) (ground arith)
  unwind-IsOrdered c (canceling s gen pre post cur kept) m v =
      catch-IsOrdered c s gen pre post cur _ (ground arith)
  unwind-IsOrdered c _ m v = v

  step-IsOrdered :
      (c : Client) (s : Status) (fs : List Frame) (m : Machine)
      → IsOrdered m
      → IsOrdered (step_stack c s fs m)
  unfolding step_stack
  step-IsOrdered c running (f ∷ fs) m v = return-IsOrdered c f _ (ground arith)
  step-IsOrdered c raising (f ∷ fs) m v = unwind-IsOrdered c f _ (ground arith)
  step-IsOrdered c _ _ m v = v

  delayed-IsOrdered :
      (c : Client) (r k : ℕ) (again : Bool) (fs : List ℕ) (m : Machine)
      → m.finalized ≡ fs
      → IsOrdered m
      → IsOrdered (end_delayed c r k again fs m)
  unfolding end_delayed
  delayed-IsOrdered c r k again [] m e v = ground arith
  delayed-IsOrdered c r k again (q ∷ fs) m e v = ground (arith, count-append a m.called (r ∷ []))

  fire-IsOrdered :
      (c : Client) (ds : List Delayed) (m : Machine) → IsOrdered m → IsOrdered (fire c ds m)
  unfolding fire
  fire-IsOrdered c [] m v = v
  fire-IsOrdered c (own r k ∷ ds) m v = ground arith
  fire-IsOrdered c (final r k again ∷ ds) m v =
      delayed-IsOrdered c r k again m.finalized _ refl (ground arith)

  begin-IsOrdered : (c : Client) (e : Event) (m : Machine) → IsOrdered m → IsOrdered (begin c e m)
  unfolding begin
  begin-IsOrdered c (code k) m v = ground arith
  begin-IsOrdered c tick m v = fire-IsOrdered c m.delayed _ (ground arith)

  handle-IsOrdered :
      (c : Client) (e : Event) (fs : List Frame) (s : Status) (m : Machine)
      → IsOrdered m
      → IsOrdered (handle c e fs s m)
  unfolding handle
  handle-IsOrdered c e [] running m v = begin-IsOrdered c e m v
  handle-IsOrdered c e [] raising m v = begin-IsOrdered c e m v
  handle-IsOrdered c e _ _ m v = v

  Reach-IsOrdered : (c : Client) {m : Machine} → Reach c m → IsOrdered m
  unfolding step empty
  Reach-IsOrdered c fresh = ground arith
  Reach-IsOrdered c (stepped {m} r) = step-IsOrdered c m.status m.stack m (Reach-IsOrdered c r)
  Reach-IsOrdered c (handled {m} e r) =
      handle-IsOrdered c e m.stack m.status m (Reach-IsOrdered c r)

-- In every state that the queue comes to, under any client that pushes, finishes, cancels, delays
-- and throws as it likes, the requests that have left the queue followed by those in it are the
-- requests pushed, in the order of the pushes.
pub Reach-fifo : (c : Client) {m : Machine} → Reach c m → m.pushed ≡ m.popped ++ m.requests
Reach-fifo c r = (Reach-IsOrdered 0 c r).fifo

-- In every such state each push of a request is accounted for once: the request stands in the
-- queue, it is finished and its callback is still due, or its callback has been called.
pub Reach-count :
    (c : Client) (a : ℕ) {m : Machine}
    → Reach c m
    → count a m.pushed ≡ count a m.requests + count a m.finalized + count a m.called
Reach-count c a {m} r =
    let v = Reach-IsOrdered a c r in
    rw v.fifo (omega (arith, count-append a m.popped m.requests, v.once))

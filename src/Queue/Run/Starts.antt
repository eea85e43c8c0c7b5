-- ===== src/Queue/Run/Starts.antt =====
-- When the queue of src/panda/unievent/Queue.h starts a request.
use uni_event.Base.{
  ℕ, ◌<◌, ◌≤◌, ◌≡◌, ◌≢◌, refl, ◌⊎◌, inl, inr, Bool, true, false, Option, none, some, List, [], ◌∷◌,
  ◌++◌, arith, ◌&&◌, ◌==◌, Bool-cases, length,
}
use uni_event.Queue.{
  Act, push, done, cancel, delay, attach, throw, Client, Stage, finalizing, start, looping, bumping,
  Frame, acts, set_async, unlock, leave, rethrow, resuming, canceling, Status, running, raising,
  aborted, Machine, queue_push, resume_front, finish, done_front, go_on, is_empty,
}
use uni_event.Queue.Run.{
  act, cancel_finalized, cancel_release, cancel_end, cancel_post, cancel_round, cancel_enter,
  cancel_while, cancel_next, bumped, run_stage, catch_stage, unlocked, caught, unlock_resume,
  return_to, unwind, step_stack, step, Reach, stepped,
}
use uni_event.Queue.Run.Locks.{locks, Reach-LockedBy}

abbrev pub IsHead : ℕ → List ℕ → Type 0
IsHead r [] = ⊥
IsHead r (q ∷ rest) = q ≡ r

-- `s` are the requests started before the step.
module _ (s : List ℕ) where
  abbrev Before : Machine → Type 0
  Before m = m.started ≡ s

  abbrev Starts : Machine → Type 0
  Starts m =
      (m.started ≡ s) ⊎ ((r : ℕ) × (m.started ≡ s ++ r ∷ []) × (m.locked ≡ 0) × IsHead r m.requests)

  resume-Starts :
      (c : Client) (rs : List ℕ) (m : Machine)
      → m.requests ≡ rs
      → Before m
      → Starts (resume_front c rs m)
  unfolding resume_front
  resume-Starts c [] m e v = inl v
  resume-Starts c (r ∷ rs) m e v = elim (Bool-cases (m.locked == 0)) [
    | inl free ↦ rw free (inr (r, ground arith, ground arith, rw e refl))
    | inr held ↦ rw held (inl v)
  ]

  push_first-Starts :
      (c : Client) (r : ℕ) (m : Machine)
      → m.requests ≡ []
      → m.locked ≡ 0
      → Before m
      → Starts (queue_push c r m)
  unfolding queue_push
  push_first-Starts c r m e f v = inr (r, ground arith, ground arith, rw (e, queue_push, f) refl)

  push-Starts : (c : Client) (r : ℕ) (m : Machine) → Before m → Starts (queue_push c r m)
  unfolding queue_push
  push-Starts c r m v = elim (Bool-cases (is_empty m.requests && m.locked == 0)) [
    | inl now ↦ push_first-Starts c r m (ground arith) (ground arith) v
    | inr later ↦ rw later (inl v)
  ]

  done-Starts :
      (c : Client) (r k : ℕ) (rs : List ℕ) (m : Machine) → Before m → Starts (done_front c r k rs m)
  unfolding done_front finish
  done-Starts c r k [] m v = ground arith
  done-Starts c r k (q ∷ rest) m v = ground arith

  end-Starts : (c : Client) (kept : Bool) (m : Machine) → Before m → Starts (cancel_end c kept m)
  unfolding cancel_end
  end-Starts c true m v = resume-Starts c m.requests (cancel_release true m) refl (ground arith)
  end-Starts c false m v = resume-Starts c m.requests (cancel_release false m) refl (ground arith)

  finalized-Starts :
      (c : Client) (gen pre post : ℕ) (kept : Bool) (fs : List ℕ) (m : Machine)
      → Before m
      → Starts (cancel_finalized c gen pre post kept fs m)
  unfolding cancel_finalized
  finalized-Starts c gen pre post kept [] m v = ground arith
  finalized-Starts c gen pre post kept (r ∷ fs) m v = ground arith

  post-Starts :
      (c : Client) (gen pre post : ℕ) (kept : Bool) (m : Machine)
      → Before m
      → Starts (cancel_post c gen pre post kept m)
  unfolding cancel_post
  post-Starts c gen pre post kept m v = ground (arith, end-Starts c kept m v)

  round-Starts :
      (c : Client) (gen pre post : ℕ) (kept : Bool) (rs : List ℕ) (m : Machine)
      → Before m
      → Starts (cancel_round c gen pre post kept rs m)
  unfolding cancel_round
  round-Starts c gen pre post kept [] m v = ground arith
  round-Starts c gen pre post kept (r ∷ rs) m v = ground arith

  enter-Starts :
      (c : Client) (gen pre post : ℕ) (kept : Bool) (rs : List ℕ) (till : Option ℕ) (m : Machine)
      → Before m
      → Starts (cancel_enter c gen pre post kept rs till m)
  unfolding cancel_enter
  enter-Starts c gen pre post kept [] till m v = post-Starts c gen pre post kept m v
  enter-Starts c gen pre post kept (r ∷ rs) none m v = post-Starts c gen pre post kept m v
  enter-Starts c gen pre post kept (r ∷ rs) (some t) m v =
      round-Starts c gen pre post kept (r ∷ rs) m v

  while-Starts :
      (c : Client) (gen pre post cur : ℕ) (kept : Bool) (till : Option ℕ) (m : Machine)
      → Before m
      → Starts (cancel_while c gen pre post cur kept till m)
  unfolding cancel_while
  while-Starts c gen pre post cur kept none m v = post-Starts c gen pre post kept m v
  while-Starts c gen pre post cur kept (some t) m v =
      ground (
        arith,
        post-Starts c gen pre post kept m v,
        round-Starts c gen pre post kept m.requests m v,
      )

  next-Starts :
      (c : Client) (gen pre post cur : ℕ) (kept : Bool) (m : Machine)
      → Before m
      → Starts (cancel_next c gen pre post cur kept m)
  unfolding cancel_next
  next-Starts c gen pre post cur kept m v =
      ground (arith, while-Starts c gen pre post cur kept m.cancel_till m v)

  stage-Starts :
      (c : Client) (s : Stage) (gen pre post cur : ℕ) (kept : Bool) (m : Machine)
      → Before m
      → Starts (run_stage c s gen pre post cur kept m)
  unfolding run_stage
  stage-Starts c finalizing gen pre post cur kept m v =
      finalized-Starts c gen pre post kept m.finalized m v
  stage-Starts c start gen pre post cur kept m v =
      enter-Starts c gen pre post kept m.requests m.cancel_till m v
  stage-Starts c looping gen pre post cur kept m v = next-Starts c gen pre post cur kept m v
  stage-Starts c bumping gen pre post cur kept m v = end-Starts c kept (bumped m) (ground arith)

  catch-Starts :
      (c : Client) (s : Stage) (gen pre post cur : ℕ) (m : Machine)
      → Before m
      → Starts (catch_stage c s gen pre post cur m)
  unfolding catch_stage
  catch-Starts c finalizing gen pre post cur m v =
      finalized-Starts c gen pre post true m.finalized m v
  catch-Starts c start gen pre post cur m v =
      enter-Starts c gen pre post true m.requests m.cancel_till m v
  catch-Starts c looping gen pre post cur m v = next-Starts c gen pre post cur true m v
  catch-Starts c bumping gen pre post cur m v = end-Starts c true m v

  act-Starts : (c : Client) (x : Act) (m : Machine) → Before m → Starts (act c x m)
  unfolding act
  act-Starts c (push r) m v = push-Starts c r m v
  act-Starts c (done r k) m v = done-Starts c r k m.requests m v
  act-Starts c (cancel pre post till) m v = ground arith
  act-Starts c (delay r k) m v = ground arith
  act-Starts c (attach r) m v = ground arith
  act-Starts c throw m v = ground arith

  unlock-Starts : (c : Client) (m : Machine) → Before m → Starts (unlock_resume c m)
  unfolding unlock_resume
  unlock-Starts c m v = resume-Starts c m.requests (unlocked m) refl (ground arith)

  return-Starts : (c : Client) (f : Frame) (m : Machine) → Before m → Starts (return_to c f m)
  unfolding return_to
  return-Starts c (acts []) m v = inl v
  return-Starts c (acts (x ∷ xs)) m v = act-Starts c x (go_on (acts xs) m) (ground arith)
  return-Starts c (set_async r) m v = ground arith
  return-Starts c unlock m v = unlock-Starts c m v
  return-Starts c leave m v = ground arith
  return-Starts c rethrow m v = ground arith
  return-Starts c resuming m v = resume-Starts c m.requests m refl v
  return-Starts c (canceling s gen pre post cur kept) m v =
      stage-Starts c s gen pre post cur kept m v

  unwind-Starts : (c : Client) (f : Frame) (m : Machine) → Before m → Starts (unwind c f m)
  unfolding unwind
  unwind-Starts c unlock m v = unlock-Starts c (caught m) (ground arith)
  unwind-Starts c (canceling s gen pre post cur kept) m v =
      catch-Starts c s gen pre post cur (record m { status = running }) (ground arith)
  unwind-Starts c (acts todo) m v = inl v
  unwind-Starts c (set_async r) m v = inl v
  unwind-Starts c leave m v = inl v
  unwind-Starts c rethrow m v = inl v
  unwind-Starts c resuming m v = inl v

  step-Starts :
      (c : Client) (t : Status) (fs : List Frame) (m : Machine)
      → Before m
      → Starts (step_stack c t fs m)
  unfolding step_stack
  step-Starts c running (f ∷ fs) m v = return-Starts c f (record m { stack = fs }) v
  step-Starts c raising (f ∷ fs) m v = unwind-Starts c f (record m { stack = fs }) v
  step-Starts c _ _ m v = inl v

locks-le : (fs : List Frame) → locks fs ≤ length fs
locks-le [] = omega arith
locks-le (unlock ∷ fs) = omega (arith, locks-le fs)
locks-le (acts x ∷ fs) = omega (arith, locks-le fs)
locks-le (set_async r ∷ fs) = omega (arith, locks-le fs)
locks-le (leave ∷ fs) = omega (arith, locks-le fs)
locks-le (rethrow ∷ fs) = omega (arith, locks-le fs)
locks-le (resuming ∷ fs) = omega (arith, locks-le fs)
locks-le (canceling g a b d e f ∷ fs) = omega (arith, locks-le fs)

step-cases : (c : Client) (m : Machine) → Starts m.started (step c m)
unfolding step
step-cases c m = step-Starts m.started c m.status m.stack m refl

-- A step that starts a request, in any state that the queue comes to with a stack below 2^32
-- frames and no assertion failed, starts the front of the queue, and then no call of `done` or
-- `cancel` that locks the queue is on the stack: no request is started inside a user's callback.
pub step-starts :
    (c : Client) {m : Machine}
    → Reach c m
    → (step c m).status ≢ aborted
    → length (step c m).stack < 4294967296
    → (step c m).started ≢ m.started
    → (r : ℕ) × ((step c m).started ≡ m.started ++ r ∷ [])
      × IsHead r (step c m).requests
      × (locks (step c m).stack ≡ 0)
step-starts c {m} reached alive small new = elim (step-cases c m) [
  | inl same ↦ absurd (new same)
  | inr (r, e, free, head) ↦ elim (Reach-LockedBy c (stepped reached)) [
    | inl dead ↦ absurd (alive dead)
    | inr h ↦ (r, e, head, omega (arith, locks-le (step c m).stack, h, free, small))
  ]
]

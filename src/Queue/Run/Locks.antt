-- ===== src/Queue/Run/Locks.antt =====
-- The counter `locked` of src/panda/unievent/Queue.h against the calls that hold it.
use uni_event.Base.{
  ℕ, suc, ◌+◌, ◌%◌, ◌≡◌, ◌≢◌, refl, ◌⊎◌, inl, inr, Bool, true, false, Option, none, some, List, [],
  ◌∷◌, arith,
}
use uni_event.Queue.{
  Act, push, done, cancel, delay, attach, throw, Client, Delayed, own, final, Stage, finalizing,
  start, looping, bumping, Frame, acts, set_async, unlock, leave, rethrow, resuming, canceling,
  Status, running, raising, aborted, Machine, queue_push, resume_front, finish, done_front, go_on,
}
use uni_event.Queue.Run.{
  act, cancel_finalized, cancel_release, cancel_end, cancel_post, cancel_round, cancel_enter,
  cancel_while, cancel_next, bumped, run_stage, catch_stage, unlocked, caught, unlock_resume,
  return_to, unwind, step_stack, step, end_delayed, fire, Event, code, tick, begin, handle, empty,
  Reach, fresh, stepped, handled,
}

-- The calls of `done` and `cancel` on the stack that have locked the queue.
abbrev pub locks : List Frame → ℕ
locks [] = 0
locks (unlock ∷ fs) = suc (locks fs)
locks (canceling s gen pre post cur kept ∷ fs) = suc (locks fs)
locks (_ ∷ fs) = locks fs

-- The counter is the number of such calls, `n` of them taken off the stack just now.
abbrev LockedBy : ℕ → Machine → Type 0
LockedBy n m = (m.status ≡ aborted) ⊎ (m.locked ≡ (n + locks m.stack) % 4294967296)

resume-LockedBy :
    (n : ℕ) (c : Client) (rs : List ℕ) (m : Machine)
    → LockedBy n m
    → LockedBy n (resume_front c rs m)
unfolding resume_front
resume-LockedBy n c [] m v = v
resume-LockedBy n c (r ∷ rs) m v = ground arith

push-LockedBy : (c : Client) (r : ℕ) (m : Machine) → LockedBy 0 m → LockedBy 0 (queue_push c r m)
unfolding queue_push
push-LockedBy c r m v = ground arith

done-LockedBy :
    (c : Client) (r k : ℕ) (rs : List ℕ) (m : Machine)
    → LockedBy 0 m
    → LockedBy 0 (done_front c r k rs m)
unfolding done_front finish
done-LockedBy c r k [] m v = ground arith
done-LockedBy c r k (q ∷ rest) m v = ground arith

end-LockedBy :
    (c : Client) (kept : Bool) (m : Machine) → LockedBy 1 m → LockedBy 0 (cancel_end c kept m)
unfolding cancel_end
end-LockedBy c true m v = resume-LockedBy 0 c m.requests (cancel_release true m) (ground arith)
end-LockedBy c false m v = resume-LockedBy 0 c m.requests (cancel_release false m) (ground arith)

finalized-LockedBy :
    (c : Client) (gen pre post : ℕ) (kept : Bool) (fs : List ℕ) (m : Machine)
    → LockedBy 1 m
    → LockedBy 0 (cancel_finalized c gen pre post kept fs m)
unfolding cancel_finalized
finalized-LockedBy c gen pre post kept [] m v = ground arith
finalized-LockedBy c gen pre post kept (r ∷ fs) m v = ground arith

post-LockedBy :
    (c : Client) (gen pre post : ℕ) (kept : Bool) (m : Machine)
    → LockedBy 1 m
    → LockedBy 0 (cancel_post c gen pre post kept m)
unfolding cancel_post
post-LockedBy c gen pre post kept m v = ground (arith, end-LockedBy c kept m v)

round-LockedBy :
    (c : Client) (gen pre post : ℕ) (kept : Bool) (rs : List ℕ) (m : Machine)
    → LockedBy 1 m
    → LockedBy 0 (cancel_round c gen pre post kept rs m)
unfolding cancel_round
round-LockedBy c gen pre post kept [] m v = ground arith
round-LockedBy c gen pre post kept (r ∷ rs) m v = ground arith

enter-LockedBy :
    (c : Client) (gen pre post : ℕ) (kept : Bool) (rs : List ℕ) (till : Option ℕ) (m : Machine)
    → LockedBy 1 m
    → LockedBy 0 (cancel_enter c gen pre post kept rs till m)
unfolding cancel_enter
enter-LockedBy c gen pre post kept [] till m v = post-LockedBy c gen pre post kept m v
enter-LockedBy c gen pre post kept (r ∷ rs) none m v = post-LockedBy c gen pre post kept m v
enter-LockedBy c gen pre post kept (r ∷ rs) (some t) m v =
    round-LockedBy c gen pre post kept (r ∷ rs) m v

while-LockedBy :
    (c : Client) (gen pre post cur : ℕ) (kept : Bool) (till : Option ℕ) (m : Machine)
    → LockedBy 1 m
    → LockedBy 0 (cancel_while c gen pre post cur kept till m)
unfolding cancel_while
while-LockedBy c gen pre post cur kept none m v = post-LockedBy c gen pre post kept m v
while-LockedBy c gen pre post cur kept (some t) m v = ground (
  arith,
  post-LockedBy c gen pre post kept m v,
  round-LockedBy c gen pre post kept m.requests m v,
)

next-LockedBy :
    (c : Client) (gen pre post cur : ℕ) (kept : Bool) (m : Machine)
    → LockedBy 1 m
    → LockedBy 0 (cancel_next c gen pre post cur kept m)
unfolding cancel_next
next-LockedBy c gen pre post cur kept m v =
    ground (arith, while-LockedBy c gen pre post cur kept m.cancel_till m v)

stage-LockedBy :
    (c : Client) (s : Stage) (gen pre post cur : ℕ) (kept : Bool) (m : Machine)
    → LockedBy 1 m
    → LockedBy 0 (run_stage c s gen pre post cur kept m)
unfolding run_stage
stage-LockedBy c finalizing gen pre post cur kept m v =
    finalized-LockedBy c gen pre post kept m.finalized m v
stage-LockedBy c start gen pre post cur kept m v =
    enter-LockedBy c gen pre post kept m.requests m.cancel_till m v
stage-LockedBy c looping gen pre post cur kept m v = next-LockedBy c gen pre post cur kept m v
stage-LockedBy c bumping gen pre post cur kept m v = end-LockedBy c kept (bumped m) (ground arith)

catch-LockedBy :
    (c : Client) (s : Stage) (gen pre post cur : ℕ) (m : Machine)
    → LockedBy 1 m
    → LockedBy 0 (catch_stage c s gen pre post cur m)
unfolding catch_stage
catch-LockedBy c finalizing gen pre post cur m v =
    finalized-LockedBy c gen pre post true m.finalized m v
catch-LockedBy c start gen pre post cur m v =
    enter-LockedBy c gen pre post true m.requests m.cancel_till m v
catch-LockedBy c looping gen pre post cur m v = next-LockedBy c gen pre post cur true m v
catch-LockedBy c bumping gen pre post cur m v = end-LockedBy c true m v

act-LockedBy :
    (c : Client) (x : Act) (m : Machine)
    → m.status ≡ running
    → LockedBy 0 m
    → LockedBy 0 (act c x m)
unfolding act
act-LockedBy c (push r) m e v = push-LockedBy c r m v
act-LockedBy c (done r k) m e v = done-LockedBy c r k m.requests m v
act-LockedBy c (cancel pre post till) m e v = ground arith
act-LockedBy c (delay r k) m e v = ground arith
act-LockedBy c (attach r) m e v = ground arith
act-LockedBy c throw m e v = ground arith

unlock-LockedBy : (c : Client) (m : Machine) → LockedBy 1 m → LockedBy 0 (unlock_resume c m)
unfolding unlock_resume
unlock-LockedBy c m v = resume-LockedBy 0 c m.requests (unlocked m) (ground arith)

return-LockedBy :
    (c : Client) (f : Frame) (m : Machine)
    → m.status ≡ running
    → LockedBy (locks (f ∷ [])) m
    → LockedBy 0 (return_to c f m)
unfolding return_to
return-LockedBy c (acts []) m e v = v
return-LockedBy c (acts (x ∷ xs)) m e v =
    act-LockedBy c x (go_on (acts xs) m) (ground arith) (ground arith)
return-LockedBy c (set_async r) m e v = ground arith
return-LockedBy c unlock m e v = unlock-LockedBy c m v
return-LockedBy c leave m e v = ground arith
return-LockedBy c rethrow m e v = ground arith
return-LockedBy c resuming m e v = resume-LockedBy 0 c m.requests m v
return-LockedBy c (canceling s gen pre post cur kept) m e v =
    stage-LockedBy c s gen pre post cur kept m v

unwind-LockedBy :
    (c : Client) (f : Frame) (m : Machine)
    → m.status ≡ raising
    → LockedBy (locks (f ∷ [])) m
    → LockedBy 0 (unwind c f m)
unfolding unwind
unwind-LockedBy c unlock m e v = unlock-LockedBy c (caught m) (ground arith)
unwind-LockedBy c (canceling s gen pre post cur kept) m e v =
    catch-LockedBy c s gen pre post cur (record m { status = running }) (ground arith)
unwind-LockedBy c (acts todo) m e v = v
unwind-LockedBy c (set_async r) m e v = v
unwind-LockedBy c leave m e v = v
unwind-LockedBy c rethrow m e v = v
unwind-LockedBy c resuming m e v = v

pop-LockedBy :
    (f : Frame) (fs : List Frame) (m : Machine)
    → m.stack ≡ f ∷ fs
    → LockedBy 0 m
    → LockedBy (locks (f ∷ [])) (record m { stack = fs })
pop-LockedBy (acts xs) fs m p v = ground arith
pop-LockedBy (set_async r) fs m p v = ground arith
pop-LockedBy unlock fs m p v = ground arith
pop-LockedBy leave fs m p v = ground arith
pop-LockedBy rethrow fs m p v = ground arith
pop-LockedBy resuming fs m p v = ground arith
pop-LockedBy (canceling s gen pre post cur kept) fs m p v = ground arith

step-LockedBy :
    (c : Client) (s : Status) (fs : List Frame) (m : Machine)
    → m.status ≡ s
    → m.stack ≡ fs
    → LockedBy 0 m
    → LockedBy 0 (step_stack c s fs m)
unfolding step_stack
step-LockedBy c running (f ∷ fs) m e p v =
    return-LockedBy c f (record m { stack = fs }) e (pop-LockedBy f fs m p v)
step-LockedBy c raising (f ∷ fs) m e p v =
    unwind-LockedBy c f (record m { stack = fs }) e (pop-LockedBy f fs m p v)
step-LockedBy c _ _ m e p v = v

delayed-LockedBy :
    (c : Client) (r k : ℕ) (again : Bool) (fs : List ℕ) (m : Machine)
    → LockedBy 0 m
    → LockedBy 0 (end_delayed c r k again fs m)
unfolding end_delayed
delayed-LockedBy c r k again [] m v = ground arith
delayed-LockedBy c r k again (q ∷ fs) m v = ground arith

fire-LockedBy :
    (c : Client) (ds : List Delayed) (m : Machine) → LockedBy 0 m → LockedBy 0 (fire c ds m)
unfolding fire
fire-LockedBy c [] m v = v
fire-LockedBy c (own r k ∷ ds) m v = ground arith
fire-LockedBy c (final r k again ∷ ds) m v =
    delayed-LockedBy c r k again m.finalized (record m { delayed = ds }) (ground arith)

handle-LockedBy :
    (c : Client) (e : Event) (fs : List Frame) (s : Status) (m : Machine)
    → m.status ≡ s
    → LockedBy 0 m
    → LockedBy 0 (handle c e fs s m)
unfolding handle begin
handle-LockedBy c (code k) [] running m p v = ground arith
handle-LockedBy c tick [] running m p v =
    fire-LockedBy c m.delayed (record m { status = running }) (ground arith)
handle-LockedBy c (code k) [] raising m p v = ground arith
handle-LockedBy c tick [] raising m p v =
    fire-LockedBy c m.delayed (record m { status = running }) (ground arith)
handle-LockedBy c e _ _ m p v = v

pub Reach-LockedBy : (c : Client) {m : Machine} → Reach c m → LockedBy 0 m
unfolding step empty
Reach-LockedBy c fresh = ground arith
Reach-LockedBy c (stepped {m} r) = step-LockedBy c m.status m.stack m refl refl (Reach-LockedBy c r)
Reach-LockedBy c (handled {m} e r) =
    handle-LockedBy c e m.stack m.status m refl (Reach-LockedBy c r)

-- In every state that the queue comes to, exceptions included, and no assertion having failed,
-- `locked` is the number, modulo 2^32, of the calls of `done` and `cancel` still on the stack that
-- took the lock: a queue whose stack is empty is unlocked.
pub Reach-locked :
    (c : Client) {m : Machine}
    → Reach c m
    → m.status ≢ aborted
    → (m.locked ≡ locks m.stack % 4294967296) × (m.stack ≡ [] → m.locked ≡ 0)
Reach-locked c {m} r alive = elim (Reach-LockedBy c r) [
  | inl dead ↦ absurd (alive dead)
  | inr h ↦ (ground arith, λ e. ground arith)
]

-- ===== src/Queue.antt =====
-- The request queue of src/panda/unievent/Queue.h with the parts of Request.h that it drives.
-- Callbacks and the virtual methods of a request are client code: programs of queue calls, found
-- under labels. Calls that run such code push frames on an explicit stack, as the C++ call does.
pub mod Run
use uni_event.Base.{
  ℕ, zero, suc, ◌+◌, ◌-◌, ◌%◌, ◌^◌, Bool, true, false, ◌&&◌, not, Option, none, some, List, [], ◌∷◌,
  ◌++◌, ltb, ◌==◌, if◌then◌else◌,
}

-- What client code does. A number names a request, or a program under its label.
pub data Act : Type 0 where
  push : ℕ → Act
  done : ℕ → ℕ → Act
  cancel : ℕ → ℕ → Option ℕ → Act
  delay : ℕ → ℕ → Act
  attach : ℕ → Act
  throw : Act

-- The client: programs by label, and what each request's virtual methods do.
pub record Client : Type 0 where
  pub prog : ℕ → List Act
  pub exec : ℕ → List Act
  pub cancel : ℕ → List Act
  pub notify : ℕ → List Act

-- A callback that waits in the loop: a request's own, or the end of a finished request.
pub data Delayed : Type 0 where
  own : ℕ → ℕ → Delayed
  final : ℕ → ℕ → Bool → Delayed

-- The stages of a running `cancel`: the locals are the generation, the two callbacks, and
-- whether an exception was kept.
pub data Stage : Type 0 where
  finalizing start looping bumping : Stage

-- A C++ activation record, at the point where it goes on once the code above it returns.
pub data Frame : Type 0 where
  acts : List Act → Frame
  set_async : ℕ → Frame
  unlock : Frame
  leave : Frame
  rethrow : Frame
  resuming : Frame
  canceling : (stage : Stage) (gen pre post cur : ℕ) (kept : Bool) → Frame

pub data Status : Type 0 where
  running raising aborted : Status

pub record Queue : Type 0 where
  pub requests : List ℕ
  pub finalized : List ℕ
  pub locked : ℕ  -- uint32_t
  pub cancel_gen : ℕ  -- uint32_t
  pub cancel_till : Option ℕ
  pub resume_recursion : ℕ  -- uint32_t

-- `pushed`, `popped`, `called` and `started` only record what happened, the oldest first.
pub record Machine : Type 0 where
  pub queue : Queue
  pub open queue use *
  pub async : ℕ → Bool
  pub attached : ℕ → Bool
  pub delayed : List Delayed
  pub stack : List Frame
  pub status : Status
  pub pushed : List ℕ
  pub popped : List ℕ
  pub called : List ℕ
  pub started : List ℕ

abbrev pub split_recursion : ℕ
split_recursion = 300

abbrev pub incr : ℕ → ℕ
incr n = (n + 1) % 4294967296

abbrev pub decr : ℕ → ℕ
decr n = (n + 4294967295) % 4294967296

abbrev pub update : (ℕ → Bool) → ℕ → Bool → ℕ → Bool
update f r v x = if x == r then v else f x

abbrev pub is_request : Option ℕ → ℕ → Bool
is_request none r = false
is_request (some t) r = t == r

-- The owner of a delayed callback.
abbrev pub owner : Delayed → ℕ
owner (own r k) = r
owner (final r k again) = r

-- `Request::delay_cancel`.
pub delay_cancel : ℕ → List Delayed → List Delayed
delay_cancel r [] = []
delay_cancel r (d ∷ ds) = if owner d == r then delay_cancel r ds else d ∷ delay_cancel r ds

-- `Request::delay`: a request has one delayed callback at most.
pub delay_for : Delayed → Machine → Machine
unfolding delay_cancel
delay_for d m = record m { delayed = delay_cancel (owner d) m.delayed ++ d ∷ [] }

-- A call of client code.
pub enter : List Act → Machine → Machine
enter body m = record m { stack = acts body ∷ m.stack }

pub go_on : Frame → Machine → Machine
go_on f m = record m { stack = f ∷ m.stack }

pub abort : Machine → Machine
abort m = record m { status = aborted }

pub raise : Machine → Machine
raise m = record m { status = raising }

-- `req->exec()`.
pub exec : Client → ℕ → Machine → Machine
unfolding enter
exec c r m = enter (c.exec r) (record m { started = m.started ++ r ∷ [] })

abbrev pub is_empty {ℓ} : {A : Type ℓ} → List A → Bool
is_empty [] = true
is_empty (x ∷ xs) = false

pub queue_push : Client → ℕ → Machine → Machine
unfolding exec go_on
queue_push c r m =
    let m' = go_on (set_async r) (record m {
      queue = record (m.queue) { requests = m.requests ++ r ∷ [] };
      async = update m.async r false;
      pushed = m.pushed ++ r ∷ [];
    }) in
    if is_empty m.requests && m.locked == 0 then exec c r m' else m'

-- `Queue::resume`.
pub resume_front : Client → List ℕ → Machine → Machine
unfolding exec
resume_front c [] m = m
resume_front c (r ∷ rs) m = if m.locked == 0 then exec c r m else m

pub queue_resume : Client → Machine → Machine
unfolding resume_front
queue_resume c m = resume_front c m.requests m

-- The three ways in which `done` gets to the callback of a finished request.
pub finish : Client → ℕ → ℕ → Machine → Machine
unfolding delay_for enter go_on
finish c r k m =
    if ltb split_recursion m.resume_recursion
    then delay_for (final r k true)
        (record m { queue = record (m.queue) { finalized = m.finalized ++ r ∷ [] } })
    else if m.async r
    then enter (c.prog k) (
        go_on unlock (record m {
          queue = record (m.queue) { locked = incr m.locked };
          called = m.called ++ r ∷ [];
        }))
    else delay_for (final r k false)
        (record m { queue = record (m.queue) { finalized = m.finalized ++ r ∷ [] } })

-- `assert(req == check)`, then the request leaves the queue and the backend.
pub done_front : Client → ℕ → ℕ → List ℕ → Machine → Machine
unfolding finish abort delay_cancel
done_front c r k [] m = abort m
done_front c r k (q ∷ rest) m =
    if q == r
    then finish c r k (record m {
      queue = record (m.queue) {
        requests = rest;
        cancel_till = if is_request m.cancel_till r then none else m.cancel_till;
      };
      attached = update m.attached r false;
      delayed = delay_cancel r m.delayed;
      popped = m.popped ++ r ∷ [];
    })
    else abort m

pub queue_done : Client → ℕ → ℕ → Machine → Machine
unfolding done_front
queue_done c r k m = done_front c r k m.requests m

abbrev pub back : List ℕ → Option ℕ
back [] = none
back (x ∷ []) = some x
back (x ∷ y ∷ xs) = back (y ∷ xs)

abbrev pub or_back : Option ℕ → List ℕ → Option ℕ
or_back none rs = back rs
or_back (some t) rs = some t

pub queue_cancel : ℕ → ℕ → Option ℕ → Machine → Machine
unfolding go_on
queue_cancel pre post till m =
    go_on (canceling finalizing m.cancel_gen pre post 0 false) (record m {
      queue = record (m.queue) { locked = incr m.locked; cancel_till = or_back till m.requests };
    })

-- ===== src/Queue/Run/Tests.antt =====
-- Runs of the queue, and its theorems at them.
use uni_event.Base.{ℕ, zero, suc, ◌+◌, ◌%◌, ◌≡◌, ◌≢◌, refl, none, List, [], ◌∷◌, ◌++◌, arith, count}
use uni_event.Queue.{Act, push, done, cancel, Client, Machine, running, aborted}
use uni_event.Queue.Run.{step, handle, code, empty, Reach, fresh, stepped, handled}
use uni_event.Queue.Run.Order.{Reach-fifo, Reach-count}
use uni_event.Queue.Run.Locks.{locks, Reach-locked}
use uni_event.Queue.Run.Starts.{IsHead, step-starts}

-- Program 0 pushes two requests and finishes the first, whose callback pushes a third; program 2
-- cancels all.
abbrev prog : ℕ → List Act
prog zero = push 1 ∷ push 2 ∷ done 1 1 ∷ []
prog (suc zero) = push 3 ∷ []
prog (suc (suc zero)) = cancel 9 9 none ∷ []
prog _ = []

abbrev client : Client
client = record { prog = prog; exec = λ r. []; cancel = λ r. done r 9 ∷ []; notify = λ r. [] }

abbrev steps : ℕ → Machine → Machine
steps zero m = m
steps (suc n) m = steps n (step client m)

steps-Reach : (n : ℕ) {m : Machine} → Reach client m → Reach client (steps n m)
steps-Reach zero r = r
steps-Reach (suc n) r = steps-Reach n (stepped r)

called : Machine
unfolding empty handle
called = handle client (code 0) [] running empty

called-Reach : Reach client called
unfolding called
called-Reach = handled (code 0) fresh

-- The first request is done, its callback has pushed the third, and the second is started.
two_left :
    ((steps 14 called).requests ≡ 2 ∷ 3 ∷ [])
    × ((steps 14 called).started ≡ 1 ∷ 2 ∷ [])
    × ((steps 14 called).locked ≡ 0)
unfolding step called
two_left = (refl, refl, refl)

Reach-fifo_example :
    (steps 14 called).pushed ≡ (steps 14 called).popped ++ (steps 14 called).requests
Reach-fifo_example = Reach-fifo client (steps-Reach 14 called-Reach)

Reach-count_example :
    let m = steps 14 called in
    count 2 m.pushed ≡ count 2 m.requests + count 2 m.finalized + count 2 m.called
Reach-count_example = Reach-count client 2 (steps-Reach 14 called-Reach)

not_aborted : (steps 14 called).status ≢ aborted
unfolding step called
not_aborted e = cc

Reach-locked_example :
    let m = steps 14 called in
    (m.locked ≡ locks m.stack % 4294967296) × (m.stack ≡ [] → m.locked ≡ 0)
Reach-locked_example = Reach-locked client (steps-Reach 14 called-Reach) not_aborted

grows : ◌≢◌ {A = List ℕ} (1 ∷ 2 ∷ []) (1 ∷ [])
grows e = cc

-- The last step starts the second request.
step-starts_example :
    let m = steps 9 called in
    (r : ℕ) × ((step client m).started ≡ m.started ++ r ∷ [])
    × IsHead r (step client m).requests
    × (locks (step client m).stack ≡ 0)
unfolding step called
step-starts_example = step-starts client (steps-Reach 9 called-Reach) (λ e. cc) (omega arith) grows

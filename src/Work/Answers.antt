-- ===== src/Work/Answers.antt =====
-- The answers of a work (src/panda/unievent/Work.cc).
use uni_event.Base.{
  ℕ, ◌+◌, ◌≡◌, refl, Bool, true, false, Option, none, some, [], ◌∷◌, arith, length, length-append,
  Bool-cases, inl, inr,
}
use uni_event.Work.{Work, create, queue, accept, handle_after_work, cancel}

pub data Reach : Work → Type 0 where
  created : Reach create
  queues : {w : Work} (answer : Option ℕ) → Reach w → Reach (queue answer w).0
  finishes :
      {w : Work} (err : Option ℕ) → w.active ≡ true → Reach w → Reach (handle_after_work err w)
  cancels : {w : Work} (destroyed : Bool) → Reach w → Reach (cancel destroyed w).0

abbrev pub pending : Bool → ℕ
pending true = 1
pending false = 0

abbrev pub IsAnswered : Work → Type 0
IsAnswered w =
    (w.queued ≡ length w.given + pending w.active) × (w.listed ≡ w.failed + pending w.active)

queue-IsAnswered : (answer : Option ℕ) (w : Work) → IsAnswered w → IsAnswered (queue answer w).0
unfolding queue accept
queue-IsAnswered none w v = elim (Bool-cases w.active) [
  | inl e ↦ ground arith
  | inr e ↦ ground arith
]
queue-IsAnswered (some x) w v = elim (Bool-cases w.active) [
  | inl e ↦ ground arith
  | inr e ↦ ground arith
]

after-IsAnswered :
    (err : Option ℕ) (w : Work)
    → w.active ≡ true
    → IsAnswered w
    → IsAnswered (handle_after_work err w)
unfolding handle_after_work
after-IsAnswered err w e v = ground (arith, length-append w.given (err ∷ []))

cancel-IsAnswered : (b : Bool) (w : Work) → IsAnswered w → IsAnswered (cancel b w).0
unfolding cancel handle_after_work
cancel-IsAnswered b w v = elim (Bool-cases w.active) [
  | inl e ↦ ground (arith, length-append w.given (some 125 ∷ []))
  | inr e ↦ ground arith
]

-- Each accepted call of `queue` is answered once, by the end of the work or by its cancellation, or the
-- work is still active. The loop lists the work once while it is active, and once more for every
-- call of `queue` that the backend refused: these places are never given back.
Reach-IsAnswered : {w : Work} → Reach w → IsAnswered w
unfolding create
Reach-IsAnswered created = (refl, refl)
Reach-IsAnswered (queues {w} answer r) = queue-IsAnswered answer w (Reach-IsAnswered r)
Reach-IsAnswered (finishes {w} err e r) = after-IsAnswered err w e (Reach-IsAnswered r)
Reach-IsAnswered (cancels {w} b r) = cancel-IsAnswered b w (Reach-IsAnswered r)

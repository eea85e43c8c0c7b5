-- ===== src/Work/Calls.antt =====
-- The single calls of a work (src/panda/unievent/Work.cc).
use uni_event.Base.{ℕ, ◌≡◌, refl, true, false, Option, none, some, arith}
use uni_event.Work.{Work, queue, accept, handle_after_work, in_progress}

pub queue-accepted :
    (w : Work) → w.active ≡ false → ((queue none w).1 ≡ none) × ((queue none w).0.active ≡ true)
unfolding queue accept
queue-accepted w h = ground arith

pub queue-busy :
    (answer : Option ℕ) (w : Work) → w.active ≡ true → queue answer w ≡ (w, some in_progress)
unfolding queue
queue-busy answer w h = ground arith

pub queue-refused :
    (e : ℕ) (w : Work)
    → w.active ≡ false
    → ((queue (some e) w).1 ≡ some e) × ((queue (some e) w).0.active ≡ false)
unfolding queue accept
queue-refused e w h = ground arith

pub after-inactive : (err : Option ℕ) (w : Work) → (handle_after_work err w).active ≡ false
unfolding handle_after_work
after-inactive err w = refl

pub create-inactive : uni_event.Work.create.active ≡ false
unfolding uni_event.Work.create
create-inactive = refl

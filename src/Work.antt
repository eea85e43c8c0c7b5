-- ===== src/Work.antt =====
-- Work in another thread, src/panda/unievent/Work.h and Work.cc. What the backend answers is an
-- argument; `listed` counts the places that the work has in the list of its loop, where `erase` takes
-- out one.
pub mod Answers
pub mod Calls
mod Tests
use uni_event.Base.{
  ℕ, zero, suc, ◌+◌, ◌-◌, Bool, true, false, not, Option, none, some, List, [], ◌∷◌, ◌++◌,
  if◌then◌else◌,
}

-- `given` records the errors given to `after_work_cb`, where none is a success, and `queued` and
-- `failed` count the calls of `queue` that the backend accepted and refused.
pub record Work : Type 0 where
  pub has_impl : Bool
  pub active : Bool
  pub listed : ℕ
  pub given : List (Option ℕ)
  pub queued : ℕ
  pub failed : ℕ

pub create : Work
create = record { has_impl = false; active = false; listed = 0; given = []; queued = 0; failed = 0 }

abbrev pub in_progress : ℕ
in_progress = 115

abbrev pub canceled : ℕ
canceled = 125

-- The answer of the backend to `queue`, behind `register_work` and `impl()`.
pub accept : Option ℕ → Work → Work × Option ℕ
accept none w = (record w { active = true; queued = suc w.queued }, none)
accept (some e) w = (record w { failed = suc w.failed }, some e)

pub queue : Option ℕ → Work → Work × Option ℕ
unfolding accept
queue answer w =
    if w.active
    then (w, some in_progress)
    else accept answer (record w { listed = suc w.listed; has_impl = true })

pub handle_after_work : Option ℕ → Work → Work
handle_after_work err w = record w {
  listed = w.listed - 1;
  active = false;
  given = w.given ++ err ∷ [];
}

-- `destroyed` is whether the backend could still cancel the work.
pub cancel : Bool → Work → Work × Bool
unfolding handle_after_work
cancel destroyed w =
    if not w.active
    then (w, true)
    else if not destroyed
    then (w, false)
    else (handle_after_work (some canceled) (record w { has_impl = false }), true)

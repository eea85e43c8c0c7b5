-- ===== src/FsPoll/Tests.antt =====
-- Polls of a path whose stat is a number, and the theorems at them.
use uni_event.Base.{ℕ, ◌≡◌, refl, Bool, true, false, none, some, [], ◌∷◌, arith, ◌==◌}
use uni_event.FsPoll.{FsPoll, started, stat_of, carries_on, stops, create, start, stop, answered}
use uni_event.FsPoll.Changes.{polls, changes, start-changes}

abbrev same : ℕ → ℕ → Bool
same a b = a == b

same_refl : (s : ℕ) → same s s ≡ true
same_refl s = ground arith

abbrev running : FsPoll ℕ
running = record {
  ticking = true;
  request = 0;
  busy = true;
  prev = 0;
  prev_err = none;
  fetched = false;
  asked = 0 ∷ [];
  notes = [];
}

start-create : start (create 0) ≡ some running
unfolding start create
start-create = refl

start-changes_example :
    (polls same 0 (5 ∷ 5 ∷ 6 ∷ []) running).notes
    ≡ started (some 5) none ∷ changes same 0 5 (5 ∷ 6 ∷ [])
unfolding create
start-changes_example =
    start-changes same 0 (create 0) running 5 (5 ∷ 6 ∷ []) refl refl start-create

-- The run that its start callback stopped, started again.
abbrev restarted : FsPoll ℕ
restarted = record {
  ticking = true;
  request = 0;
  busy = true;
  prev = 5;
  prev_err = none;
  fetched = true;
  asked = 0 ∷ 0 ∷ [];
  notes = started (some 5) none ∷ [];
}

start-answered : start (answered same 0 0 (stat_of 5) stops carries_on running) ≡ some restarted
unfolding start answered
start-answered = refl

abbrev renewed : FsPoll ℕ
renewed = record {
  ticking = true;
  request = 1;
  busy = true;
  prev = 0;
  prev_err = none;
  fetched = false;
  asked = 0 ∷ 1 ∷ [];
  notes = [];
}

start-stop : start (stop 0 false running) ≡ some renewed
unfolding start stop
start-stop = refl

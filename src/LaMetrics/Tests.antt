-- ===== src/LaMetrics/Tests.antt =====
-- A ring with two measurements, and the theorem at it.
use uni_event.Base.{ℕ, ◌≡◌, refl, some, List, [], ◌∷◌, ◌++◌, length, drop}
use uni_event.LaMetrics.{TimeRow, filled, create, handle_timer, get, load_of}
use uni_event.LaMetrics.Window.{head, measured, get-measured}

abbrev at : ℕ → ℕ → TimeRow
at idle time = record { idle = idle; time = time }

abbrev events : List TimeRow
events = at 5 10 ∷ at 9 20 ∷ []

load_25 : get (at 12 25) (measured events (create (at 0 0))) ≡ some (13, 25)
unfolding get handle_timer create
load_25 = refl

get-measured_example :
    get (at 12 25) (measured events (create (at 0 0)))
    ≡ load_of (at 12 25) (head (drop (length events) (filled 10 (at 0 0) ++ events)))
get-measured_example = get-measured (at 12 25) (at 0 0) events

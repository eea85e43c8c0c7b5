-- ===== src/LaMetrics.antt =====
-- The load average of a loop, src/panda/unievent/backend/LAMetrics.h: a ring of measurements. The idle
-- time of the loop and the time of the system are arguments.
pub mod Window
mod Tests
use uni_event.Base.{
  ℕ, zero, suc, ◌+◌, ◌-◌, ◌*◌, ◌/◌, ◌%◌, Option, none, some, List, [], ◌∷◌, ◌++◌, ◌==◌,
  if◌then◌else◌,
}

abbrev pub la_intervals : ℕ
la_intervals = 10

pub record TimeRow : Type 0 where
  pub idle : ℕ  -- uint64_t
  pub time : ℕ  -- uint64_t

pub record LaMetrics : Type 0 where
  pub times : List TimeRow
  pub ti : ℕ  -- size_t

abbrev pub filled : ℕ → TimeRow → List TimeRow
filled zero r = []
filled (suc n) r = r ∷ filled n r

-- The constructor fills all rows with the first measurement.
pub create : TimeRow → LaMetrics
create r = record { times = filled la_intervals r; ti = 0 }

pub next_idx : ℕ → ℕ
next_idx ti = if ti == 9 then 0 else suc ti

abbrev pub set : ℕ → TimeRow → List TimeRow → List TimeRow
set i r [] = []
set zero r (x ∷ xs) = r ∷ xs
set (suc i) r (x ∷ xs) = x ∷ set i r xs

pub handle_timer : TimeRow → LaMetrics → LaMetrics
unfolding next_idx
handle_timer r m = let i = next_idx m.ti in record { times = set i r m.times; ti = i }

abbrev pub get_row : ℕ → List TimeRow → Option TimeRow
get_row i [] = none
get_row zero (x ∷ xs) = some x
get_row (suc i) (x ∷ xs) = get_row i xs

-- A difference of two numbers of 64 bits.
pub minus : ℕ → ℕ → ℕ
minus a b = (a + (18446744073709551616 - b % 18446744073709551616)) % 18446744073709551616

-- The load from a row to now as a fraction, whose division is one of doubles in the code.
pub load_since : TimeRow → TimeRow → ℕ × ℕ
unfolding minus
load_since now row =
    let total = minus now.time row.time in
    if total == 0 then (0, 1) else (minus total (minus now.idle row.idle), total)

pub load_of : TimeRow → Option TimeRow → Option (ℕ × ℕ)
unfolding load_since
load_of now none = none
load_of now (some row) = some (load_since now row)

-- `get`; none is an index out of the array.
pub get : TimeRow → LaMetrics → Option (ℕ × ℕ)
unfolding next_idx load_of
get now m = load_of now (get_row (next_idx m.ti) m.times)

-- ===== src/Timer.antt =====
-- The timer of src/panda/unievent/Timer.h and Timer.cc, over the timer of a backend.
pub mod Pauses
mod Tests
use uni_event.Base.{ℕ, zero, suc, ◌≡◌, Bool, true, false, not, ◌||◌, ◌==◌, if◌then◌else◌}

-- The timer of the backend: `start` takes the repeat and the first due time, counted from the time of
-- the loop, and `update_time` sets that time to a given one. The laws are what its documentation says
-- of `uv_timer_start`, `uv_timer_stop`, `uv_timer_get_repeat` and `uv_timer_get_due_in`.
pub record Backend {ℓ} (Impl : Type ℓ) : Type ℓ where
  pub start : ℕ → ℕ → Impl → Impl
  pub stop : Impl → Impl
  pub update_time : ℕ → Impl → Impl
  pub active : Impl → Bool
  pub repeat : Impl → ℕ
  pub due_in : Impl → ℕ
  pub start-active : (r i : ℕ) (t : Impl) → active (start r i t) ≡ true
  pub start-repeat : (r i : ℕ) (t : Impl) → repeat (start r i t) ≡ r
  pub start-due_in : (r i : ℕ) (t : Impl) → due_in (start r i t) ≡ i
  pub stop-active : (t : Impl) → active (stop t) ≡ false
  pub stop-repeat : (t : Impl) → repeat (stop t) ≡ repeat t
  pub update-active : (now : ℕ) (t : Impl) → active (update_time now t) ≡ active t
  pub update-repeat : (now : ℕ) (t : Impl) → repeat (update_time now t) ≡ repeat t

-- std::numeric_limits<uint64_t>::max()
abbrev pub never : ℕ
never = 18446744073709551615

pub record Timer {ℓ} (Impl : Type ℓ) : Type ℓ where
  pub impl : Impl
  pub paused_due_in : ℕ  -- uint64_t

-- What a call returns: nothing, or the error of an invalid argument.
pub data Result : Type 0 where
  done invalid_argument : Result

-- `now` is the time that the loop reads at `update_time`.
module _ {ℓ} {Impl : Type ℓ} (backend : Backend Impl) where
  pub start : ℕ → ℕ → ℕ → Timer Impl → Timer Impl
  start now r i t = record t { impl = backend.start r i (backend.update_time now t.impl) }

  pub once : ℕ → ℕ → Timer Impl → Timer Impl
  unfolding start
  once now i t = start now 0 i t

  pub stop : Timer Impl → Timer Impl
  stop t = record { impl = backend.stop t.impl; paused_due_in = never }

  pub pause : ℕ → Timer Impl → Timer Impl
  pause now t =
      if not (backend.active t.impl)
      then t
      else let current = backend.update_time now t.impl in
        record { impl = backend.stop current; paused_due_in = backend.due_in current }

  -- `rpt ? start(rpt, _paused_due_in) : once(_paused_due_in)`
  pub restart : ℕ → ℕ → Timer Impl → Timer Impl
  unfolding start once
  restart now zero t = once now t.paused_due_in t
  restart now (suc r) t = start now (suc r) t.paused_due_in t

  pub resume : ℕ → Timer Impl → Timer Impl × Result
  unfolding restart
  resume now t =
      if backend.active t.impl || t.paused_due_in == never
      then (t, invalid_argument)
      else let current = backend.update_time now t.impl in
        (
          record (restart now (backend.repeat current) (record t { impl = current })) {
            paused_due_in = never;
          },
          done,
        )

  -- `reset` stops the backend's timer only.
  pub reset : Timer Impl → Timer Impl
  reset t = record t { impl = backend.stop t.impl }

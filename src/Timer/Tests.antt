-- ===== src/Timer/Tests.antt =====
-- A timer of a backend that counts, and the theorems at it.
use uni_event.Base.{ℕ, ◌+◌, ◌-◌, refl, Bool, true, false, arith}
use uni_event.Timer.{Backend, never, Timer}

record Clock : Type 0 where
  running : Bool
  every : ℕ
  due : ℕ
  time : ℕ

abbrev counting : Backend Clock
counting = record {
  start = λ r i t. record t { running = true; every = r; due = t.time + i };
  stop = λ t. record t { running = false };
  update_time = λ now t. record t { time = now };
  active = λ t. t.running;
  repeat = λ t. t.every;
  due_in = λ t. t.due - t.time;
  start-active = λ r i t. refl;
  start-repeat = λ r i t. refl;
  start-due_in = λ r i t. omega arith;
  stop-active = λ t. refl;
  stop-repeat = λ t. refl;
  update-active = λ now t. refl;
  update-repeat = λ now t. refl;
}

-- Started at 100 for 50 and every 20, paused at 130 and resumed at 500.
abbrev ticking : Timer Clock
ticking = record {
  impl = record { running = true; every = 20; due = 150; time = 100 };
  paused_due_in = never;
}

-- ===== src/Timer/Pauses.antt =====
-- Pausing and resuming a timer (src/panda/unievent/Timer.cc).
use uni_event.Base.{ℕ, zero, suc, ◌≡◌, refl, sym, ◌∙◌, true, false, ◌==◌}
use uni_event.Timer.{
  Backend, never, Timer, Result, done, invalid_argument, start, once, stop, pause, restart, resume,
  reset,
}

module _ {ℓ} {Impl : Type ℓ} (backend : Backend Impl) where
  restart-is :
      (now r : ℕ) (t : Timer Impl) → restart backend now r t ≡ start backend now r t.paused_due_in t
  unfolding restart once
  restart-is now zero t = refl
  restart-is now (suc r) t = refl

  -- What a resumed timer is.
  abbrev pub Resumed : ℕ → ℕ → Timer Impl × Result → Type 0
  Resumed due r result =
      (result.1 ≡ done)
      × (backend.active result.0.impl ≡ true)
      × (backend.due_in result.0.impl ≡ due)
      × (backend.repeat result.0.impl ≡ r)
      × (result.0.paused_due_in ≡ never)

  resume_lem :
      (now : ℕ) (t : Timer Impl)
      → backend.active t.impl ≡ false
      → (t.paused_due_in == never) ≡ false
      → Resumed t.paused_due_in (backend.repeat t.impl) (resume backend now t)
  unfolding resume start
  resume_lem now t a p =
      let current = backend.update_time now t.impl in
      let r = backend.repeat current in
      let again = backend.update_time now current in
      rw a (
        rw p (
          rw (restart-is now r (record t { impl = current })) (
            refl,
            backend.start-active r t.paused_due_in again,
            backend.start-due_in r t.paused_due_in again,
            backend.start-repeat r t.paused_due_in again ∙ backend.update-repeat now t.impl,
            refl,
          )))

  -- A pause of an active timer stops it, and a later resume succeeds and starts it with the repeat that
  -- it had and with the time that was left at the pause, however long the pause was, unless that time
  -- is the number of 64 bits that marks a timer without a pause.
  resume-pause :
      (now later : ℕ) (t : Timer Impl)
      → backend.active t.impl ≡ true
      → (backend.due_in (backend.update_time now t.impl) == never) ≡ false
      → let p = pause backend now t in
        (backend.active p.impl ≡ false)
        × Resumed
            (backend.due_in (backend.update_time now t.impl))
            (backend.repeat t.impl)
            (resume backend later p)
  unfolding pause
  resume-pause now later t a d =
      let current = backend.update_time now t.impl in
      let p : Timer Impl = record {
        impl = backend.stop current;
        paused_due_in = backend.due_in current;
      } in
      let same : backend.repeat p.impl ≡ backend.repeat t.impl =
        backend.stop-repeat current ∙ backend.update-repeat now t.impl in
      rw a (
        backend.stop-active current,
        rw (sym same) (resume_lem later p (backend.stop-active current) d),
      )

  -- A timer that is paused, unless its time left is the mark above, and then reset can still be resumed:
  -- the resume succeeds and starts it.
  resume-reset :
      (now later : ℕ) (t : Timer Impl)
      → backend.active t.impl ≡ true
      → (backend.due_in (backend.update_time now t.impl) == never) ≡ false
      → let r = resume backend later (reset backend (pause backend now t)) in
        (r.1 ≡ done) × (backend.active r.0.impl ≡ true)
  unfolding pause reset
  resume-reset now later t a d =
      let current = backend.update_time now t.impl in
      let p : Timer Impl = record {
        impl = backend.stop (backend.stop current);
        paused_due_in = backend.due_in current;
      } in
      let w = resume_lem later p (backend.stop-active (backend.stop current)) d in rw a (w.0, w.1)

  -- A stop ends a pause: whatever the state of the timer, after a stop it is not active, and a resume
  -- returns the error and changes nothing.
  resume-stop :
      (now : ℕ) (t : Timer Impl)
      → (backend.active (stop backend t).impl ≡ false)
        × (resume backend now (stop backend t) ≡ (stop backend t, invalid_argument))
  unfolding stop resume
  resume-stop now t = (backend.stop-active t.impl, rw (backend.stop-active t.impl) refl)

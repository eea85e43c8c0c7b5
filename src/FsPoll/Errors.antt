-- ===== src/FsPoll/Errors.antt =====
-- Errors, stops and late answers of a poll (src/panda/unievent/FsPoll.cc).
use uni_event.Base.{
  ℕ, ◌≡◌, ◌≢◌, Bool, true, false, Option, none, some, List, [], ◌∷◌, ◌++◌, arith, inl, inr,
  Bool-cases,
}
use uni_event.FsPoll.{
  FsPoll, started, Answer, stat_of, error_of, Reaction, stops, do_stat, tick, renew, start, stop,
  notify, initial_notify, take_answer, answered, is_error,
}
use uni_event.FsPoll.Changes.{poll, polls, poll-same, poll-changed}

module _ {ℓ} {Stat : Type ℓ} (same : Stat → Stat → Bool) (blank : Stat) where
  abbrev Waits : ℕ → FsPoll Stat → Type 0
  Waits e p = (p.ticking ≡ true) × (p.fetched ≡ true) × (p.prev_err ≡ some e)

  -- The error that was reported last is remembered while the path can be read again.
  polls-Waits :
      (e : ℕ) (ss : List Stat) (p : FsPoll Stat) → Waits e p → Waits e (polls same blank ss p)
  polls-Waits e [] p w = w
  polls-Waits e (s ∷ ss) p w = elim (Bool-cases (same p.prev s)) [
    | inl b ↦
        polls-Waits e ss (poll same blank (stat_of s) p)
          (ground (arith, poll-same same blank s p w.0 w.1 b))
    | inr b ↦
        polls-Waits e ss (poll same blank (stat_of s) p)
          (ground (arith, poll-changed same blank s p w.0 w.1 b))
  ]

  again-silent :
      (e : ℕ) (p : FsPoll Stat) → Waits e p → (poll same blank (error_of e) p).notes ≡ p.notes
  unfolding poll tick do_stat answered take_answer
  again-silent e p w = elim (Bool-cases p.busy) [ inl b ↦ ground arith | inr b ↦ ground arith ]

  is_error_lem : (e : ℕ) (o : Option ℕ) → is_error e o ≡ true → o ≡ some e
  is_error_lem e none h = ground arith
  is_error_lem e (some e') h = ground arith

  error-Waits :
      (e : ℕ) (p : FsPoll Stat) → p.ticking ≡ true → Waits e (poll same blank (error_of e) p)
  unfolding poll tick do_stat answered take_answer initial_notify notify
  error-Waits e p t =
      let w = is_error_lem e p.prev_err in
      elim (Bool-cases p.busy) [
        | inl b ↦ (ground arith, ground arith, ground (arith, w))
        | inr b ↦ (ground arith, ground arith, ground (arith, w))
      ]

  -- After a poll that failed with an error, and any number of polls that succeeded, a poll that fails
  -- with the same error again calls no callback: the second loss of the path is not reported.
  error-again :
      (e : ℕ) (ss : List Stat) (p : FsPoll Stat)
      → p.ticking ≡ true
      → let back = polls same blank ss (poll same blank (error_of e) p) in
        (poll same blank (error_of e) back).notes ≡ back.notes
  error-again e ss p t =
      let failed = poll same blank (error_of e) p in
      again-silent e (polls same blank ss failed) (polls-Waits e ss failed (error-Waits e p t))

  -- If the start callback stops the poll, and the poll is started again while the path has the same
  -- stat, no callback is called: the second start is not reported.
  stops-start :
      ((s : Stat) → same s s ≡ true)
      → (s : Stat) (r : Reaction) (p p' : FsPoll Stat) → p.ticking ≡ true
      → p.fetched ≡ false
      → start (answered same blank p.request (stat_of s) stops r p) ≡ some p'
      → (poll same blank (stat_of s) p').notes ≡ p.notes ++ started (some s) none ∷ []
  unfolding poll tick do_stat answered take_answer notify stop start renew
  stops-start laws s r p p' t f h = ground (arith, laws s)

  -- If a poll is stopped and started again while a stat is under way that cannot be cancelled, the new
  -- run asks another request, and the late answer to the first one has no effect.
  late-answer :
      (a : Answer Stat) (r r' : Reaction) (p p' : FsPoll Stat)
      → p.ticking ≡ true
      → p.busy ≡ true
      → start (stop blank false p) ≡ some p'
      → (p'.request ≢ p.request) × (answered same blank p.request a r r' p' ≡ p')
  unfolding answered stop start renew do_stat
  late-answer a r r' p p' t b h = (ground arith, ground arith)

-- ===== src/FsPoll/Changes.antt =====
-- The events of a poll whose path can be read, and those of a poll that is started again
-- (src/panda/unievent/FsPoll.cc).
use uni_event.Base.{
  ◌≡◌, sym, ◌∙◌, Bool, true, false, none, some, List, [], ◌∷◌, ◌++◌, append_assoc, append-nil,
  arith, if◌then◌else◌, inl, inr, Bool-cases,
}
use uni_event.FsPoll.{
  FsPoll, Note, started, polled, Answer, stat_of, carries_on, do_stat, tick, renew, start, notify,
  take_answer, answered, before,
}

module _ {ℓ} {Stat : Type ℓ} (same : Stat → Stat → Bool) (blank : Stat) where
  -- A tick of the timer, and the answer to the request.
  unfoldable pub poll : Answer Stat → FsPoll Stat → FsPoll Stat
  unfolding tick answered
  poll a p = let p' = tick p in answered same blank p'.request a carries_on carries_on p'

  abbrev pub polls : List Stat → FsPoll Stat → FsPoll Stat
  polls [] p = p
  polls (s ∷ ss) p = polls ss (poll (stat_of s) p)

  -- The changes along a list of stats, each against the last one that was reported.
  pub changes : Stat → List Stat → List (Note Stat)
  changes last [] = []
  changes last (s ∷ ss) =
      if same last s then changes last ss else polled (some last) (some s) none ∷ changes s ss

  -- One poll of a path that can be read, behind the first one.
  pub poll-same :
      (s : Stat) (p : FsPoll Stat)
      → p.ticking ≡ true
      → p.fetched ≡ true
      → same p.prev s ≡ true
      → ((poll (stat_of s) p).notes ≡ p.notes)
        × ((poll (stat_of s) p).prev ≡ p.prev)
        × ((poll (stat_of s) p).ticking ≡ true)
        × ((poll (stat_of s) p).fetched ≡ true)
        × ((poll (stat_of s) p).prev_err ≡ p.prev_err)
  unfolding poll tick do_stat answered take_answer notify
  poll-same s p t f e = elim (Bool-cases p.busy) [ inl b ↦ ground arith | inr b ↦ ground arith ]

  pub poll-changed :
      (s : Stat) (p : FsPoll Stat)
      → p.ticking ≡ true
      → p.fetched ≡ true
      → same p.prev s ≡ false
      → ((poll (stat_of s) p).notes ≡ p.notes ++ polled (before p p.prev_err) (some s) none ∷ [])
        × ((poll (stat_of s) p).prev ≡ s)
        × ((poll (stat_of s) p).ticking ≡ true)
        × ((poll (stat_of s) p).fetched ≡ true)
        × ((poll (stat_of s) p).prev_err ≡ p.prev_err)
  unfolding poll tick do_stat answered take_answer notify
  poll-changed s p t f e = elim (Bool-cases p.busy) [ inl b ↦ ground arith | inr b ↦ ground arith ]

  poll-first :
      (s : Stat) (p : FsPoll Stat)
      → p.ticking ≡ true
      → p.fetched ≡ false
      → ((poll (stat_of s) p).notes ≡ p.notes ++ started (some s) none ∷ [])
        × ((poll (stat_of s) p).prev ≡ s)
        × ((poll (stat_of s) p).ticking ≡ true)
        × ((poll (stat_of s) p).fetched ≡ true)
        × ((poll (stat_of s) p).prev_err ≡ p.prev_err)
  unfolding poll tick do_stat answered take_answer notify
  poll-first s p t f = elim (Bool-cases p.busy) [ inl b ↦ ground arith | inr b ↦ ground arith ]

  polls-changes :
      (ss : List Stat) (p : FsPoll Stat)
      → p.ticking ≡ true
      → p.fetched ≡ true
      → p.prev_err ≡ none
      → (polls ss p).notes ≡ p.notes ++ changes p.prev ss
  unfolding changes poll take_answer notify
  polls-changes [] p t f e = sym (append-nil p.notes)
  polls-changes (s ∷ ss) p t f e = elim (Bool-cases (same p.prev s)) [
    | inl b ↦ ground (arith, poll-same s p t f b, polls-changes ss (poll (stat_of s) p))
    | inr b ↦ ground (
      arith,
      poll-changed s p t f b,
      polls-changes ss (poll (stat_of s) p),
      append_assoc p.notes (polled (some p.prev) (some s) none ∷ []) (changes s ss),
    )
  ]

  start_lem :
      (p p' : FsPoll Stat)
      → start p ≡ some p'
      → (p'.ticking ≡ true)
        × (p'.fetched ≡ p.fetched)
        × (p'.notes ≡ p.notes)
        × (p'.prev_err ≡ p.prev_err)
  unfolding start do_stat renew
  start_lem p p' h = ground arith

  -- After a start of a poll that had no error and is not stopped by its callbacks, the first answer is
  -- reported to the start callback, and of the later ones exactly those that differ from the stat
  -- reported before are reported to the poll callback, with both stats.
  pub start-changes :
      (p p' : FsPoll Stat) (s : Stat) (ss : List Stat)
      → p.fetched ≡ false
      → p.prev_err ≡ none
      → start p ≡ some p'
      → (polls (s ∷ ss) p').notes ≡ p.notes ++ started (some s) none ∷ changes s ss
  unfolding poll take_answer notify start
  start-changes p p' s ss f e h =
      let w = start_lem p p' h in
      let v = poll-first s p' w.0 (w.1 ∙ f) in
      ground (
        arith,
        w,
        v,
        polls-changes ss (poll (stat_of s) p'),
        append_assoc p.notes (started (some s) none ∷ []) (changes s ss),
      )

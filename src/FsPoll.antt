-- ===== src/FsPoll.antt =====
-- Polling a path for changes, src/panda/unievent/FsPoll.h and FsPoll.cc. The stat structure, its
-- comparison and its value of zeros are parameters; an error code is a number. What the timer and the
-- file system answer comes as arguments.
pub mod Changes
pub mod Errors
mod Tests
use uni_event.Base.{
  ℕ, suc, ◌+◌, Bool, true, false, not, ◌&&◌, ◌||◌, Option, none, some, List, [], ◌∷◌, ◌++◌, ◌==◌,
  if◌then◌else◌,
}

-- The calls of the user's callbacks: `start_event`, and `poll_event` with the stat before.
pub data Note {ℓ} (Stat : Type ℓ) : Type ℓ where
  started : Option Stat → Option ℕ → Note Stat
  polled : Option Stat → Option Stat → Option ℕ → Note Stat

-- What a stat request answers.
pub data Answer {ℓ} (Stat : Type ℓ) : Type ℓ where
  stat_of : Stat → Answer Stat
  error_of : ℕ → Answer Stat

-- What a callback of the user does.
pub data Reaction : Type 0 where
  carries_on stops : Reaction

-- `request` is the identity of `fsr` and `busy` tells whether it is active; `asked` records the requests
-- that a stat was asked of, `notes` the calls of the callbacks, the oldest first.
pub record FsPoll {ℓ} (Stat : Type ℓ) : Type ℓ where
  pub ticking : Bool
  pub request : ℕ
  pub busy : Bool
  pub prev : Stat
  pub prev_err : Option ℕ
  pub fetched : Bool
  pub asked : List ℕ
  pub notes : List (Note Stat)

abbrev pub is_error : ℕ → Option ℕ → Bool
is_error e none = false
is_error e (some e') = e == e'

module _ {ℓ} {Stat : Type ℓ} where
  pub create : Stat → FsPoll Stat
  create blank = record {
    ticking = false;
    request = 0;
    busy = false;
    prev = blank;
    prev_err = none;
    fetched = false;
    asked = [];
    notes = [];
  }

  pub do_stat : FsPoll Stat → FsPoll Stat
  do_stat p = record p { busy = true; asked = p.asked ++ p.request ∷ [] }

  -- The handler of the timer.
  pub tick : FsPoll Stat → FsPoll Stat
  unfolding do_stat
  tick p = if p.busy then p else do_stat p

  -- A request that is under way is forgotten: a new one takes its place.
  pub renew : FsPoll Stat → FsPoll Stat
  renew p = if p.busy then record p { request = suc p.request; busy = false } else p

  -- none is the exception.
  pub start : FsPoll Stat → Option (FsPoll Stat)
  unfolding do_stat renew
  start p = if p.ticking then none else some (do_stat (renew (record p { ticking = true })))

  -- `canceled` is what the file system answers to the cancellation of a busy request.
  pub stop : Stat → Bool → FsPoll Stat → FsPoll Stat
  stop blank canceled p = if not p.ticking then p else record p {
    ticking = false;
    prev = blank;
    busy = p.busy && not canceled;
    fetched = false;
  }

  -- A callback of the user, called while the request is not under way.
  pub notify : Stat → Note Stat → Reaction → FsPoll Stat → FsPoll Stat
  unfolding stop
  notify blank n carries_on p = record p { notes = p.notes ++ n ∷ [] }
  notify blank n stops p = stop blank true (record p { notes = p.notes ++ n ∷ [] })

  -- The stat before, as the callbacks get it.
  abbrev pub before : FsPoll Stat → Option ℕ → Option Stat
  before p none = some p.prev
  before p (some e) = none

  pub initial_notify : Stat → Note Stat → Reaction → FsPoll Stat → FsPoll Stat
  unfolding notify
  initial_notify blank n r p = if p.fetched then p else notify blank n r p

  -- The callback of `Fs::Request::stat` behind its guards: the first reaction is the start callback's,
  -- the second the poll callback's.
  pub take_answer :
      (Stat → Stat → Bool) → Stat → Answer Stat → Reaction → Reaction → FsPoll Stat → FsPoll Stat
  unfolding notify initial_notify
  take_answer same blank (error_of e) r1 r2 p =
      if is_error e p.prev_err
      then record p { fetched = true }
      else let p1 =
          initial_notify blank (started none (some e)) r1 (record p { prev_err = some e }) in
        let p2 = notify blank (polled (before p p.prev_err) none (some e)) r2 p1 in
        record p2 { fetched = true }
  take_answer same blank (stat_of st) r1 r2 p =
      if not p.fetched || not (same p.prev st)
      then (let n =
            if p.fetched
            then polled (before p p.prev_err) (some st) none
            else started (some st) none in
          record (notify blank n (if p.fetched then r2 else r1) p) { prev = st; fetched = true })
      else record p { fetched = true }

  -- The answer to the request `q`, which is not under way any more.
  pub answered :
      (Stat → Stat → Bool)
      → Stat
      → ℕ
      → Answer Stat
      → Reaction
      → Reaction
      → FsPoll Stat
      → FsPoll Stat
  unfolding take_answer
  answered same blank q a r1 r2 p =
      let p' = if q == p.request then record p { busy = false } else p in
      if not p.ticking || not (q == p.request) then p' else take_answer same blank a r1 r2 p'

-- ===== src/FsRequest/Tests.antt =====
-- Runs of the asynchronous calls of src/panda/unievent/Fs.cc.
use uni_event.Base.{ℕ, ◌≡◌, refl, true, false, none, List, [], ◌∷◌, ◌++◌}
use uni_event.FsRequest.{
  Outcome, done, failed, gives_string, Request, create, begin, save, perform, after_work, clear,
}
use uni_event.FsRequest.Answers.{Next, run, calls, Told, run-Told, begun}
use uni_event.FsRequest.Mixed.{begin-mixed, begin-cleared}
use uni_event.Work.Calls.{create-inactive, queue-accepted, after-inactive}

abbrev more : List Next
more =
    record { inside = true; op = 2; results = λ k. gives_string (7 ∷ []) }
    ∷ record { inside = false; op = 3; results = λ k. done }
    ∷ []

run-Told_example :
    Told ((1, failed 2) ∷ calls more) (run (λ k. failed 2) more (begin none 1 create)).given
run-Told_example = run-Told 1 (λ k. failed 2) more

-- A call that has been begun.
abbrev busy : Request
busy = begun 1 create

busy-active : busy.work.active ≡ true
unfolding create
busy-active = (queue-accepted uni_event.Work.create create-inactive).1

-- The calls fail, each with its number.
abbrev fails : ℕ → Outcome
fails k = failed k

begin-mixed_example :
    ((after_work none (begin none 2 (perform fails busy))).given
      ≡ busy.given ++ (2, save (failed 1) busy.members) ∷ [])
    × ((after_work none (perform fails (begin none 2 busy))).given
        ≡ busy.given ++ (2, save (failed 2) busy.members) ∷ [])
begin-mixed_example = begin-mixed none 1 2 fails busy busy-active refl refl

-- The request in the callback of the first call.
abbrev in_callback : Request
in_callback = after_work none (perform fails busy)

in_callback-inactive : in_callback.work.active ≡ false
unfolding after_work perform
in_callback-inactive = after-inactive none busy.work

begin-cleared_example :
    (after_work none (clear (perform fails (begin none 2 in_callback)))).given
    ≡ in_callback.given
      ++ (
        2,
        record (save (failed 2) in_callback.members) { err = none; dir_entries = []; string = [] },
      )
        ∷ []
begin-cleared_example = begin-cleared 2 fails in_callback in_callback-inactive

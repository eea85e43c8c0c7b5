-- ===== src/FsRequest/Mixed.antt =====
-- Calls of one request that are under way together (src/panda/unievent/Fs.cc).
use uni_event.Base.{ℕ, ◌≡◌, refl, ap, ◌∙◌, true, false, Option, none, some, [], ◌∷◌, ◌++◌}
use uni_event.Work.Calls.{queue-busy}
use uni_event.FsRequest.{
  Outcome, Phase, waiting, Request, queued, begin, save, run_work, perform, after_work, clear,
}
use uni_event.FsRequest.Answers.{begin-begun}

begin-busy :
    (answer : Option ℕ) (op : ℕ) (r : Request)
    → r.work.active ≡ true
    → begin answer op r ≡ record r { work_cb = some op; after_work_cb = some op }
unfolding begin queued
begin-busy answer op r h = rw (queue-busy answer r.work h) refl

after-given :
    (r : Request) (op : ℕ)
    → r.after_work_cb ≡ some op
    → (after_work none r).given ≡ r.given ++ (op, r.members) ∷ []
unfolding after_work
after-given r op h = rw h refl

perform-work :
    (o : ℕ → Outcome) (op : ℕ) (r : Request)
    → r.phase ≡ waiting
    → r.work_cb ≡ some op
    → perform o r ≡ record r { phase = Phase.finished; members = save (o op) r.members }
unfolding perform run_work
perform-work o op r h k = rw h (rw k refl)

-- A call that is made on a request with a call under way replaces it: where the work of the first has
-- been done already, the callback of the second is called in the place of the first, with what the
-- first gave; where it has not, the function of the first is never run, and the callback of the second
-- is called with what the second gives. In both cases that is the only callback.
pub begin-mixed :
    (answer : Option ℕ) (first op : ℕ) (o : ℕ → Outcome) (r : Request)
    → r.work.active ≡ true
    → r.phase ≡ waiting
    → r.work_cb ≡ some first
    → ((after_work none (begin answer op (perform o r))).given
        ≡ r.given ++ (op, save (o first) r.members) ∷ [])
      × ((after_work none (perform o (begin answer op r))).given
          ≡ r.given ++ (op, save (o op) r.members) ∷ [])
begin-mixed answer first op o r h w k =
    let done : Request = record r { phase = Phase.finished; members = save (o first) r.members } in
    let taken : Request = record done { work_cb = some op; after_work_cb = some op } in
    let late : Request = record r { work_cb = some op; after_work_cb = some op } in
    let gone : Request = record late { phase = Phase.finished; members = save (o op) r.members } in
    (
      ap (λ s. (after_work none (begin answer op s)).given) (perform-work o first r w k)
          ∙ ap (λ s. (after_work none s).given) (begin-busy answer op done h)
          ∙ after-given taken op refl,
      ap (λ s. (after_work none (perform o s)).given) (begin-busy answer op r h)
          ∙ ap (λ s. (after_work none s).given) (perform-work o op late w refl)
          ∙ after-given gone op refl,
    )

-- A call that begins in a callback, that the backend accepts, and whose work the other thread does before
-- what follows that callback, loses its result: its own callback sees no error, and neither text nor
-- entries.
pub begin-cleared :
    (op : ℕ) (o : ℕ → Outcome) (r : Request)
    → r.work.active ≡ false
    → (after_work none (clear (perform o (begin none op r)))).given
      ≡ r.given
        ++ (op, record (save (o op) r.members) { err = none; dir_entries = []; string = [] }) ∷ []
unfolding after_work perform run_work clear
begin-cleared op o r h = rw (begin-begun op r h) refl

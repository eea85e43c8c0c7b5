-- ===== src/FsRequest/Answers.antt =====
-- The callbacks of an asynchronous call that follow one another (src/panda/unievent/Fs.cc).
use uni_event.Base.{
  ℕ, ◌≡◌, refl, ap, ◌∙◌, Bool, true, false, Option, none, some, List, [], ◌∷◌, ◌++◌, append_assoc,
}
use uni_event.Work.{Work, queue, accept, handle_after_work}
use uni_event.Work
use uni_event.FsRequest.{
  Outcome, done, failed, gives_fd, gives_stat, gives_size, gives_bool, gives_string, gives_path_fd,
  gives_entries, Members, Phase, waiting, Request, clean, create, queued, begin, save, run_work,
  perform, after_work, clear,
}
use uni_event.Work.Calls.{queue-accepted, after-inactive, create-inactive}

-- What a callback is to see of the result of its call.
abbrev pub Shows : Outcome → Members → Type 0
Shows done m = m.err ≡ none
Shows (failed e) m = m.err ≡ some e
Shows (gives_fd n) m = (m.err ≡ none) × (m.fd ≡ n)
Shows (gives_stat n) m = (m.err ≡ none) × (m.stat ≡ n)
Shows (gives_size n) m = (m.err ≡ none) × (m.size ≡ n)
Shows (gives_bool b) m = (m.err ≡ none) × (m.bool ≡ b)
Shows (gives_string s) m = (m.err ≡ none) × (m.string ≡ s)
Shows (gives_path_fd s n) m = (m.err ≡ none) × (m.string ≡ s) × (m.fd ≡ n)
Shows (gives_entries es) m = (m.err ≡ none) × (m.dir_entries ≡ es)

-- Calls with their results, and the callbacks: one for each, in order, with its result.
abbrev pub Told : List (ℕ × Outcome) → List (ℕ × Members) → Type 0
Told [] gs = gs ≡ []
Told (c ∷ cs) [] = ⊥
Told (c ∷ cs) (g ∷ gs) = (g.0 ≡ c.0) × Shows c.1 g.1 × Told cs gs

-- A further call, begun in the callback of the one before it or after that, with what
-- each call would give while its work is done.
pub record Next : Type 0 where
  pub inside : Bool
  pub op : ℕ
  pub results : ℕ → Outcome

abbrev pub calls : List Next → List (ℕ × Outcome)
calls [] = []
calls (n ∷ ns) = (n.op, n.results n.op) ∷ calls ns

-- What follows a callback, where a further call is begun in it or after it.
abbrev pub next : Bool → ℕ → Request → Request
next true op r = clear (begin none op r)
next false op r = begin none op (clear r)

-- A request on which a call has been begun: the work is done, and the callback is called; the work of
-- a call that begins in a callback is done after it.
unfoldable pub run : (ℕ → Outcome) → List Next → Request → Request
unfolding begin perform after_work clear
run o [] r = clear (after_work none (perform o r))
run o (n ∷ ns) r = run n.results ns (next n.inside n.op (after_work none (perform o r)))

-- A call has been begun and its work is not done yet.
record IsBegun (op : ℕ) (r : Request) : Type 0 where
  phase : r.phase ≡ waiting
  function : r.work_cb ≡ some op
  callback : r.after_work_cb ≡ some op
  no_error : r.members.err ≡ none

save-Shows : (o : Outcome) (m : Members) → m.err ≡ none → Shows o (save o m)
unfolding save
save-Shows done m h = h
save-Shows (failed e) m h = refl
save-Shows (gives_fd n) m h = (h, refl)
save-Shows (gives_stat n) m h = (h, refl)
save-Shows (gives_size n) m h = (h, refl)
save-Shows (gives_bool b) m h = (h, refl)
save-Shows (gives_string s) m h = (h, refl)
save-Shows (gives_path_fd s n) m h = (h, refl, refl)
save-Shows (gives_entries es) m h = (h, refl)

-- The request in the callback.
abbrev called : ℕ → Outcome → Request → Request
called op o r = record r {
  work = Work.handle_after_work none r.work;
  phase = Phase.idle;
  members = save o r.members;
  given = r.given ++ (op, save o r.members) ∷ [];
}

after-called :
    (op : ℕ) (o : ℕ → Outcome) (r : Request)
    → IsBegun op r
    → after_work none (perform o r) ≡ called op (o op) r
unfolding perform run_work after_work
after-called op o r b = rw b.phase (rw b.function (rw b.callback refl))

-- The request after a call that its work accepts.
abbrev pub begun : ℕ → Request → Request
begun op r = record r {
  work = (Work.queue none r.work).0;
  phase = waiting;
  work_cb = some op;
  after_work_cb = some op;
}

pub begin-begun : (op : ℕ) (r : Request) → r.work.active ≡ false → begin none op r ≡ begun op r
unfolding begin
begin-begun op r h = go (Work.queue none r.work) (queue-accepted r.work h).0
  where
    go :
        (q : Work × Option ℕ)
        → q.1 ≡ none
        → queued q (record r { work_cb = some op; after_work_cb = some op })
          ≡ record r { work = q.0; phase = waiting; work_cb = some op; after_work_cb = some op }
    go (w, none) k = refl
    go (w, some e) k = cc

next-IsBegun : (b : Bool) (op : ℕ) (r : Request) → r.work.active ≡ false → IsBegun op (next b op r)
unfolding clear
next-IsBegun true op r h =
    rw (begin-begun op r h)
      (record { phase = refl; function = refl; callback = refl; no_error = refl })
next-IsBegun false op r h =
    rw (begin-begun op (clear r) h)
      (record { phase = refl; function = refl; callback = refl; no_error = refl })

next-given :
    (b : Bool) (op : ℕ) (r : Request) → r.work.active ≡ false → (next b op r).given ≡ r.given
unfolding clear
next-given true op r h = rw (begin-begun op r h) refl
next-given false op r h = rw (begin-begun op (clear r) h) refl

clear-given : (r : Request) → (clear r).given ≡ r.given
unfolding clear
clear-given r = refl

run-given :
    (op : ℕ) (o : ℕ → Outcome) (ns : List Next) (r : Request)
    → IsBegun op r
    → (gs : List (ℕ × Members)) × ((run o ns r).given ≡ r.given ++ gs)
      × Told ((op, o op) ∷ calls ns) gs
unfolding run
run-given op o [] r b = (
  (op, save (o op) r.members) ∷ [],
  ap (λ s. (clear s).given) (after-called op o r b) ∙ clear-given (called op (o op) r),
  (refl, save-Shows (o op) r.members b.no_error, refl),
)
run-given op o (n ∷ ns) r b =
    let t : Request = called op (o op) r in
    let idle = after-inactive none r.work in
    let s : Request = next n.inside n.op t in
    let rest = run-given n.op n.results ns s (next-IsBegun n.inside n.op t idle) in
    (
      (op, save (o op) r.members) ∷ rest.0,
      ap (λ u. (run n.results ns (next n.inside n.op u)).given) (after-called op o r b)
          ∙ rest.1
          ∙ ap (λ l. l ++ rest.0) (next-given n.inside n.op t idle)
          ∙ append_assoc r.given ((op, save (o op) r.members) ∷ []) rest.0,
      (refl, save-Shows (o op) r.members b.no_error, rest.2),
    )

-- Calls of one request that follow one another, each begun in the callback of the one before or after it
-- and accepted by the backend, are answered by one callback each, in order. The callback sees the
-- error of its own call and no other, or the value, where the work of a call is done after the
-- callback in which it began.
pub run-Told :
    (op : ℕ) (o : ℕ → Outcome) (ns : List Next)
    → Told ((op, o op) ∷ calls ns) (run o ns (begin none op create)).given
unfolding create clean
run-Told op o ns =
    let r : Request = begin none op create in
    let e = begin-begun op create create-inactive in
    let all =
      run-given op o ns (begun op create)
        (record { phase = refl; function = refl; callback = refl; no_error = refl }) in
    rw e (rw all.1 all.2)

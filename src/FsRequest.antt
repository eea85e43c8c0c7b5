-- ===== src/FsRequest.antt =====
-- The asynchronous calls of the file system, src/panda/unievent/Fs.h and Fs.cc, over the work of
-- Work.antt. A call is a number. What each call gives in the other thread is an argument.
pub mod Answers
pub mod Mixed
mod Tests
use uni_event.Base.{
  ℕ, zero, suc, ◌+◌, Bool, true, false, not, Option, none, some, List, [], ◌∷◌, ◌++◌, if◌then◌else◌,
}
use uni_event.Fs.{FilePath, Entry}
use uni_event.Work.{Work}
use uni_event.Work

-- What the call in the other thread gives: an error, nothing, or a value of its kind.
pub data Outcome : Type 0 where
  done : Outcome
  failed gives_fd gives_stat gives_size : ℕ → Outcome
  gives_bool : Bool → Outcome
  gives_string : List ℕ → Outcome
  gives_path_fd : List ℕ → ℕ → Outcome
  gives_entries : List Entry → Outcome

-- The members in which a request keeps what its call gave.
pub record Members : Type 0 where
  pub bool : Bool
  pub fd : ℕ
  pub err : Option ℕ
  pub dir_entries : List Entry
  pub stat : ℕ
  pub size : ℕ
  pub string : List ℕ

-- The other thread has no work of the request, has it still to do, or has done it.
pub data Phase : Type 0 where
  idle waiting finished : Phase

-- `work_cb` and `after_work_cb` are the calls whose functions they hold. `given` records the calls whose
-- callbacks were called, with the members at that time, the latest last. `broken` is set where the
-- work has no function, and decides nothing.
pub record Request : Type 0 where
  pub work : Work
  pub phase : Phase
  pub work_cb : Option ℕ
  pub after_work_cb : Option ℕ
  pub members : Members
  pub given : List (ℕ × Members)
  pub broken : Bool

pub clean : Members
clean = record {
  bool = false;
  fd = 0;
  err = none;
  dir_entries = [];
  stat = 0;
  size = 0;
  string = [];
}

pub create : Request
unfolding clean
create = record {
  work = Work.create;
  phase = idle;
  work_cb = none;
  after_work_cb = none;
  members = clean;
  given = [];
  broken = false;
}

-- The result of `queue()`, which is not looked at.
pub queued : Work × Option ℕ → Request → Request
queued (w, none) r = record r { work = w; phase = waiting }
queued (w, some e) r = record r { work = w }

-- A call: both functions are set, and the work is queued. `answer` is that of the backend.
pub begin : Option ℕ → ℕ → Request → Request
unfolding queued
begin answer op r =
    queued (Work.queue answer r.work) (record r { work_cb = some op; after_work_cb = some op })

-- What the function in the other thread does with the result.
pub save : Outcome → Members → Members
save done m = m
save (failed e) m = record m { err = some e }
save (gives_fd n) m = record m { fd = n }
save (gives_stat n) m = record m { stat = n }
save (gives_size n) m = record m { size = n }
save (gives_bool b) m = record m { bool = b }
save (gives_string s) m = record m { string = s }
save (gives_path_fd s n) m = record m { string = s; fd = n }
save (gives_entries es) m = record m { dir_entries = es }

-- `handle_work` in the other thread: the function that the work holds now.
pub run_work : (ℕ → Outcome) → Option ℕ → Request → Request
unfolding save
run_work results none r = record r { broken = true }
run_work results (some op) r = record r { members = save (results op) r.members }

-- The other thread does the work, if there is one. `results` is what the calls give there.
pub perform : (ℕ → Outcome) → Request → Request
unfolding run_work
perform results r = elim r.phase [
  | idle ↦ r
  | waiting ↦ run_work results r.work_cb (record r { phase = finished })
  | finished ↦ r
]

pub with_error : Option ℕ → Members → Members
with_error none m = m
with_error (some e) m = record m { err = some e }

-- The callback of the user, with the members.
pub tell : Option ℕ → Members → Request → Request
tell none m r = r
tell (some op) m r = record r { members = m; given = r.given ++ (op, m) ∷ [] }

-- `handle_after_work` up to the callback, with the error of the backend or of a cancellation.
pub after_work : Option ℕ → Request → Request
unfolding with_error tell
after_work err r =
    tell r.after_work_cb (with_error err r.members)
      (record r { work = Work.handle_after_work err r.work; phase = idle })

-- What follows the callback.
pub clear : Request → Request
clear r = record r { members = record r.members { err = none; dir_entries = []; string = [] } }

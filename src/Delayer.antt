-- ===== src/Delayer.antt =====
-- The list of delayed callbacks of src/panda/unievent/backend/Delayer.h, with the idle handle that
-- drives it in backend-uv/src/UVDelayer.h. A callback is client code: a program of calls of the
-- delayer, found under a label, with whether it ends by an exception.
pub mod Ids
pub mod Numbers
pub mod Order
mod Tests
use uni_event.Base.{
  ℕ, zero, suc, ◌+◌, ◌-◌, ◌%◌, Bool, true, false, ◌&&◌, ◌||◌, not, Option, none, some, List, [],
  ◌∷◌, ◌++◌, ltb, leb, if◌then◌else◌, length, get_elem?, drop,
}

-- `cb` is none once it is cancelled. `guard` is the object that the callback must not outlive.
pub record Callback : Type 0 where
  pub id : ℕ
  pub cb : Option ℕ
  pub guard : Option ℕ

pub data Op : Type 0 where
  add : ℕ → Option ℕ → Op
  cancel : ℕ → Op

-- What the callbacks do, and which guarding objects are alive.
pub record Client : Type 0 where
  pub prog : ℕ → List Op
  pub throws : ℕ → Bool
  pub alive : ℕ → Bool

-- `idle` tells whether the idle handle is active. `ran` records the callbacks called so far, and
-- `added` the number of calls of `add`.
pub record Delayer : Type 0 where
  pub callbacks : List Callback
  pub reserve : List Callback
  pub lastid : ℕ  -- size_t
  pub idle : Bool
  pub ran : List ℕ
  pub added : ℕ

abbrev pub next_id : ℕ → ℕ
next_id n = (n + 1) % 18446744073709551616

abbrev pub is_empty : List Callback → Bool
is_empty [] = true
is_empty (x ∷ xs) = false

-- `UVDelayer::add` over `Delayer::add`, which returns the new id, `lastid`.
pub delayer_add : ℕ → Option ℕ → Delayer → Delayer
delayer_add k guard d = record d {
  callbacks = d.callbacks ++ record { id = next_id d.lastid; cb = some k; guard = guard } ∷ [];
  lastid = next_id d.lastid;
  idle = if is_empty d.callbacks then true else d.idle;
  added = d.added + 1;
}

-- `list[idx].cb = nullptr`.
pub clear_at : ℕ → List Callback → List Callback
clear_at idx [] = []
clear_at zero (c ∷ cs) = record c { cb = none } ∷ cs
clear_at (suc idx) (c ∷ cs) = c ∷ clear_at idx cs

-- `_delayer_cancel`: what becomes of the list, and whether the id is in it.
pub cancel_in : ℕ → List Callback → List Callback × Bool
unfolding clear_at
cancel_in id [] = ([], false)
cancel_in id (c ∷ cs) =
    if ltb id c.id
    then (c ∷ cs, false)
    else if leb (length (c ∷ cs)) (id - c.id)
    then (c ∷ cs, false)
    else (clear_at (id - c.id) (c ∷ cs), true)

pub delayer_cancel : ℕ → Delayer → Delayer × Bool
unfolding cancel_in
delayer_cancel id d =
    let (cs, found) = cancel_in id d.callbacks in
    let (rs, found') = cancel_in id d.reserve in
    if found then (record d { callbacks = cs }, true) else (record d { reserve = rs }, found')

pub run_op : Op → Delayer → Delayer
unfolding delayer_add delayer_cancel
run_op (add k guard) d = delayer_add k guard d
run_op (cancel id) d = (delayer_cancel id d).0

pub run_ops : List Op → Delayer → Delayer
unfolding run_op
run_ops [] d = d
run_ops (o ∷ os) d = run_ops os (run_op o d)

-- `row.guard.weak_count() && !row.guard`.
abbrev pub guard_dead : Client → Option ℕ → Bool
guard_dead c none = false
guard_dead c (some o) = not (c.alive o)

-- The callback of a row that is neither cancelled nor left by its guard, where the guards that are alive
-- are the same for the whole turn.
abbrev pub runnable : Client → Callback → Option ℕ
runnable c row = if guard_dead c row.guard then none else row.cb

abbrev pub due : Client → Option Callback → Option ℕ
due c none = none
due c (some row) = runnable c row

-- The body of a round: what it leaves, and whether an exception ends the loop.
pub round : Client → Option ℕ → Delayer → Delayer × Bool
unfolding run_ops
round c none d = (d, false)
round c (some k) d = (run_ops (c.prog k) (record d { ran = d.ran ++ k ∷ [] }), c.throws k)

-- `while (i < sz)` with `left` rounds to go; the result has the final `i`.
pub call_loop : Client → (left i : ℕ) → Delayer → Delayer × ℕ × Bool
unfolding round
call_loop c zero i d = (d, i, false)
call_loop c (suc left) i d =
    let (d', thrown) = round c (due c (get_elem? d.reserve i)) d in
    let rest = call_loop c left (i + 1) d' in if thrown then (d', i + 1, true) else rest

-- The second function of the guard: rows that an exception left over go back to the front.
pub put_back : ℕ → Delayer → Delayer
put_back i d = record d { callbacks = drop i d.reserve ++ d.callbacks; reserve = [] }

-- `call`, and whether it ends by an exception.
pub delayer_call : Client → Delayer → Delayer × Bool
unfolding call_loop put_back
delayer_call c d =
    let (d', i, thrown) =
      call_loop c (length d.callbacks) 0 (record d { callbacks = []; reserve = d.callbacks }) in
    (put_back i d', thrown)

-- `handle_idle`: an exception skips the test behind the call.
pub handle_idle : Client → Delayer → Delayer
unfolding delayer_call
handle_idle c d =
    let (d', thrown) = delayer_call c d in
    if thrown then d' else record d' { idle = if is_empty d'.callbacks then false else d'.idle }

pub empty : Delayer
empty = record { callbacks = []; reserve = []; lastid = 0; idle = false; ran = []; added = 0 }

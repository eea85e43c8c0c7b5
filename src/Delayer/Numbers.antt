-- ===== src/Delayer/Numbers.antt =====
-- The ids of src/panda/unievent/backend/Delayer.h over a run, and what `cancel` does by them.
use uni_event.Base.{
  ℕ, zero, suc, ◌+◌, ◌-◌, ◌<◌, ◌≡◌, refl, inl, inr, ◌||◌, Option, none, some, List, [], ◌∷◌, ◌++◌,
  append_assoc, append-nil, arith, length, get_elem?, Bool-cases,
}
use uni_event.Delayer.{
  Op, add, cancel, Client, Delayer, next_id, delayer_add, cancel_in, delayer_cancel, run_op,
  run_ops, round, call_loop, put_back, delayer_call, handle_idle, empty, due,
}
use uni_event.Delayer.Ids.{
  Ends, cancel_id, has_id, cancel_in_lem, Ends-append_right, Ends-append_left, Ends-snoc, Ends-drop,
  Ends-cancel_id, reserve-Misses, cancel_id-absent,
}

-- While the counter of 64 bits has not come round, the ids rise by one along both lists.
pub record IsNumbered (d : Delayer) : Type 0 where
  pub last : d.lastid ≡ d.added
  pub rows : Ends (d.reserve ++ d.callbacks) d.lastid

abbrev pub word : ℕ
word = 18446744073709551616

abbrev Sound : Delayer → Type 0
Sound d = d.added < word → IsNumbered d

-- `cancel` finds the row by arithmetic on its id. With the rows numbered, it takes the callback
-- from the row of that id and from no other, in whichever list the row stands, and its result
-- tells whether there is such a row.
pub cancel-numbered :
    (id : ℕ) (d : Delayer)
    → IsNumbered d
    → delayer_cancel id d ≡ (
      record d { callbacks = cancel_id id d.callbacks; reserve = cancel_id id d.reserve },
      has_id id d.callbacks || has_id id d.reserve,
    )
unfolding delayer_cancel
cancel-numbered id d v =
    rw
      (
        cancel_in_lem id d.lastid d.callbacks
            (Ends-append_right d.lastid d.reserve d.callbacks v.rows),
        cancel_in_lem id (d.lastid - length d.callbacks) d.reserve
            (Ends-append_left d.lastid d.reserve d.callbacks v.rows),
      )
      (elim (Bool-cases (has_id id d.callbacks)) [
        | inl e ↦ rw e (rw ((reserve-Misses id d.lastid d.reserve d.callbacks v.rows e).0) refl)
        | inr e ↦ rw e (rw (cancel_id-absent id d.callbacks e) refl)
      ])

add-IsNumbered : (k : ℕ) (guard : Option ℕ) (d : Delayer) → Sound d → Sound (delayer_add k guard d)
unfolding delayer_add
add-IsNumbered k guard d v small =
    let w = v (omega (arith, small)) in
    record {
      last = omega (arith, w.last, small);
      rows =
          rw (next_id_lem, ← append_assoc d.reserve d.callbacks)
            (Ends-snoc d.lastid (d.reserve ++ d.callbacks)
              (record { id = d.lastid + 1; cb = some k; guard = guard }) w.rows refl);
    }
  where
    next_id_lem : next_id d.lastid ≡ d.lastid + 1
    next_id_lem = omega (arith, (v (omega (arith, small))).last, small)

added-cancel : (id : ℕ) (d : Delayer) → (delayer_cancel id d).0.added ≡ d.added
unfolding delayer_cancel
added-cancel id d = elim (Bool-cases (cancel_in id d.callbacks).1) [
  | inl e ↦ rw e refl
  | inr e ↦ rw e refl
]

cancel-IsNumbered : (id : ℕ) (d : Delayer) → Sound d → Sound (delayer_cancel id d).0
cancel-IsNumbered id d v small =
    let w = v (omega (arith, small, added-cancel id d)) in
    rw (cancel-numbered id d w)
      (record { last = w.last; rows = Ends-cancel_id id d.lastid d.reserve d.callbacks w.rows })

op-IsNumbered : (o : Op) (d : Delayer) → Sound d → Sound (run_op o d)
unfolding run_op
op-IsNumbered (add k guard) d v = add-IsNumbered k guard d v
op-IsNumbered (cancel id) d v = cancel-IsNumbered id d v

ops-IsNumbered : (os : List Op) (d : Delayer) → Sound d → Sound (run_ops os d)
unfolding run_ops
ops-IsNumbered [] d v = v
ops-IsNumbered (o ∷ os) d v = ops-IsNumbered os (run_op o d) (op-IsNumbered o d v)

round-IsNumbered : (c : Client) (k : Option ℕ) (d : Delayer) → Sound d → Sound (round c k d).0
unfolding round
round-IsNumbered c none d v = v
round-IsNumbered c (some k) d v =
    ops-IsNumbered (c.prog k) (record d { ran = d.ran ++ k ∷ [] })
      (λ small. record { last = (v small).last; rows = (v small).rows })

loop-IsNumbered : (c : Client) (left i : ℕ) (d : Delayer) → Sound d → Sound (call_loop c left i d).0
unfolding call_loop
loop-IsNumbered c zero i d v = v
loop-IsNumbered c (suc left) i d v =
    let k = due c (get_elem? d.reserve i) in
    elim (Bool-cases (round c k d).1) [
      | inl e ↦ rw e (round-IsNumbered c k d v)
      | inr e ↦ rw e (loop-IsNumbered c left (i + 1) (round c k d).0 (round-IsNumbered c k d v))
    ]

put_back-IsNumbered : (i : ℕ) (d : Delayer) → Sound d → Sound (put_back i d)
unfolding put_back
put_back-IsNumbered i d v small =
    let w = v small in
    record { last = w.last; rows = Ends-drop i d.lastid d.reserve d.callbacks w.rows }

swap-IsNumbered :
    (d : Delayer)
    → d.reserve ≡ []
    → Sound d
    → Sound (record d { callbacks = []; reserve = d.callbacks })
swap-IsNumbered d e v small =
    let w = v small in
    record {
      last = w.last;
      rows = rw append-nil (Ends-append_right d.lastid d.reserve d.callbacks w.rows);
    }

call-IsNumbered : (c : Client) (d : Delayer) → d.reserve ≡ [] → Sound d → Sound (delayer_call c d).0
unfolding delayer_call
call-IsNumbered c d e v =
    put_back-IsNumbered
      (call_loop c (length d.callbacks) 0 (record d { callbacks = []; reserve = d.callbacks })).1
      (call_loop c (length d.callbacks) 0 (record d { callbacks = []; reserve = d.callbacks })).0
      (loop-IsNumbered c (length d.callbacks) 0 (record d { callbacks = []; reserve = d.callbacks })
        (swap-IsNumbered d e v))

idle-IsNumbered : (c : Client) (d : Delayer) → d.reserve ≡ [] → Sound d → Sound (handle_idle c d)
unfolding handle_idle
idle-IsNumbered c d e v = elim (Bool-cases (delayer_call c d).1) [
  | inl t ↦ rw t (call-IsNumbered c d e v)
  | inr t ↦
      rw t
        (λ small. let w = call-IsNumbered c d e v small in record { last = w.last; rows = w.rows })
]

cancel_reserve : (id : ℕ) (d : Delayer) → d.reserve ≡ [] → (delayer_cancel id d).0.reserve ≡ []
unfolding delayer_cancel cancel_in
cancel_reserve id d e = elim (Bool-cases (cancel_in id d.callbacks).1) [
  | inl t ↦ rw t e
  | inr t ↦ rw t (rw e refl)
]

op_reserve : (o : Op) (d : Delayer) → d.reserve ≡ [] → (run_op o d).reserve ≡ []
unfolding run_op delayer_add
op_reserve (add k guard) d e = e
op_reserve (cancel id) d e = cancel_reserve id d e

-- What the delayer can come to between two calls of it from outside, whatever its callbacks do.
pub data Reach (c : Client) : Delayer → Type 0 where
  fresh : Reach c empty
  called : {d : Delayer} (o : Op) → Reach c d → Reach c (run_op o d)
  idled : {d : Delayer} → Reach c d → Reach c (handle_idle c d)

pub reserve-Reach : (c : Client) {d : Delayer} → Reach c d → d.reserve ≡ []
unfolding empty handle_idle delayer_call put_back
reserve-Reach c fresh = refl
reserve-Reach c (called {d} o r) = op_reserve o d (reserve-Reach c r)
reserve-Reach c (idled {d} r) = elim (Bool-cases (delayer_call c d).1) [
  | inl t ↦ rw t refl
  | inr t ↦ rw t refl
]

Reach-Sound : (c : Client) {d : Delayer} → Reach c d → Sound d
unfolding empty
Reach-Sound c fresh small = record { last = refl; rows = tt }
Reach-Sound c (called {d} o r) small = op-IsNumbered o d (Reach-Sound c r) small
Reach-Sound c (idled {d} r) small = idle-IsNumbered c d (reserve-Reach c r) (Reach-Sound c r) small

-- After any calls from outside and any turns of the idle handle, exceptions included, no list is
-- left behind by a turn, and the ids of the waiting callbacks rise by one up to the last id given.
pub Reach-IsNumbered :
    (c : Client) {d : Delayer} → Reach c d → d.added < word → (d.reserve ≡ []) × IsNumbered d
Reach-IsNumbered c r small = (reserve-Reach c r, Reach-Sound c r small)

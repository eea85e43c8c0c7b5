-- ===== src/Delayer/Tests.antt =====
-- Runs of the delayer, and its theorems at them.
use uni_event.Base.{
  ℕ, zero, suc, ◌≡◌, refl, Bool, true, false, ◌||◌, none, List, [], ◌∷◌, ◌++◌, arith,
}
use uni_event.Delayer.{
  Callback, Op, add, Client, Delayer, delayer_cancel, run_op, delayer_call, handle_idle, empty,
}
use uni_event.Delayer.Ids.{cancel_id, has_id}
use uni_event.Delayer.Numbers.{Reach, fresh, called, cancel-numbered, Reach-IsNumbered}
use uni_event.Delayer.Order.{OnlyAdds, due_labels, contents, all_additions, call-order}

-- Callback 1 delays callback 2, and callback 3 throws.
abbrev prog : ℕ → List Op
prog zero = []
prog (suc zero) = add 2 none ∷ []
prog _ = []

abbrev throws : ℕ → Bool
throws (suc (suc (suc zero))) = true
throws _ = false

abbrev client : Client
client = record { prog = prog; throws = throws; alive = λ o. false }

three : Delayer
unfolding run_op empty
three = run_op (add 1 none) (run_op (add 3 none) (run_op (add 1 none) empty))

three-Reach : Reach client three
unfolding three
three-Reach = called (add 1 none) (called (add 3 none) (called (add 1 none) fresh))

-- The exception keeps the last row, in front of the one that the first callback added.
turn_keeps : ((handle_idle client three).ran ≡ 1 ∷ 3 ∷ [])
unfolding handle_idle three
turn_keeps = refl

cancel-numbered_example : delayer_cancel 2 three ≡ (
  record three { callbacks = cancel_id 2 three.callbacks; reserve = cancel_id 2 three.reserve },
  has_id 2 three.callbacks || has_id 2 three.reserve,
)
unfolding three
cancel-numbered_example =
    cancel-numbered 2 three (Reach-IsNumbered client three-Reach (omega arith)).1

only_adds : OnlyAdds client
only_adds zero = tt
only_adds (suc zero) = (tt, tt)
only_adds _ = tt

call-order_example :
    let (d', thrown) = delayer_call client three in
    (called : List Callback) × (left : List Callback) × (fresh : List Callback) × (three.callbacks
      ≡ called ++ left)
    × (d'.ran ≡ three.ran ++ due_labels client called)
    × (d'.callbacks ≡ left ++ fresh)
    × (contents fresh ≡ all_additions client (due_labels client called))
    × (thrown ≡ false → left ≡ [])
call-order_example = call-order client three only_adds

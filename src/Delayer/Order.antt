-- ===== src/Delayer/Order.antt =====
-- Which callbacks a turn of src/panda/unievent/backend/Delayer.h calls, and which it keeps.
use uni_event.Base.{
  ℕ, zero, suc, ◌+◌, ◌≡◌, refl, sym, ap, ◌∙◌, inl, inr, Bool, true, false, Option, none, some, List,
  [], ◌∷◌, ◌++◌, append_assoc, append-nil, length, get_elem?, drop, All, Bool-cases,
}
use native.Mathlib.Numerals.{add-one}
use uni_event.Delayer.{
  Callback, Op, add, cancel, Client, Delayer, next_id, delayer_add, run_op, run_ops, runnable,
  round, call_loop, put_back, delayer_call,
}

abbrev IsAdd : Op → Type 0
IsAdd (add k guard) = Unit {0}
IsAdd (cancel id) = ⊥

-- The callbacks of the client cancel nothing.
abbrev pub OnlyAdds : Client → Type 0
OnlyAdds c = (k : ℕ) → All IsAdd (c.prog k)

abbrev add_label : Option ℕ → List ℕ → List ℕ
add_label none ks = ks
add_label (some k) ks = k ∷ ks

-- The callbacks that a turn has to call, in the order of the rows.
abbrev pub due_labels : Client → List Callback → List ℕ
due_labels c [] = []
due_labels c (r ∷ rs) = add_label (runnable c r) (due_labels c rs)

-- The callbacks that a program adds, with their guards, in order.
abbrev pub additions : List Op → List (Option ℕ × Option ℕ)
additions [] = []
additions (add k guard ∷ os) = (some k, guard) ∷ additions os
additions (cancel id ∷ os) = additions os

-- The callbacks that the called ones add.
abbrev pub all_additions : Client → List ℕ → List (Option ℕ × Option ℕ)
all_additions c [] = []
all_additions c (k ∷ ks) = additions (c.prog k) ++ all_additions c ks

-- The callbacks of rows, with their guards.
abbrev pub contents : List Callback → List (Option ℕ × Option ℕ)
contents [] = []
contents (r ∷ rs) = (r.cb, r.guard) ∷ contents rs

contents-append : (xs ys : List Callback) → contents (xs ++ ys) ≡ contents xs ++ contents ys
contents-append [] ys = refl
contents-append (x ∷ xs) ys = ap (◌∷◌ (x.cb, x.guard)) (contents-append xs ys)

additions-label :
    (c : Client) (k : Option ℕ) (ks : List ℕ)
    → all_additions c (add_label k []) ++ all_additions c ks ≡ all_additions c (add_label k ks)
additions-label c none ks = refl
additions-label c (some k) ks =
    ap (λ l. l ++ all_additions c ks) (append-nil (additions (c.prog k)))

-- What adding calls leave alone.
record Extends (d d' : Delayer) (os : List Op) : Type 0 where
  fresh : List Callback
  told : contents fresh ≡ additions os
  grown : d'.callbacks ≡ d.callbacks ++ fresh
  kept : d'.reserve ≡ d.reserve
  same : d'.ran ≡ d.ran

ops-Extends : (os : List Op) (d : Delayer) → All IsAdd os → Extends d (run_ops os d) os
unfolding run_ops run_op delayer_add
ops-Extends [] d h = record {
  fresh = [];
  told = refl;
  grown = rw append-nil refl;
  kept = refl;
  same = refl;
}
ops-Extends (add k guard ∷ os) d h =
    let e = ops-Extends os (delayer_add k guard d) h.1 in
    let row : Callback = record { id = next_id d.lastid; cb = some k; guard = guard } in
    record {
      fresh = row ∷ e.fresh;
      told = ap (◌∷◌ (some k, guard)) e.told;
      grown = e.grown ∙ append_assoc d.callbacks (row ∷ []) e.fresh;
      kept = e.kept;
      same = e.same;
    }
ops-Extends (cancel id ∷ os) d h = absurd h.0

drop_head :
    (i : ℕ) (xs : List Callback) {r : Callback} {rs : List Callback}
    → drop i xs ≡ r ∷ rs
    → (get_elem? xs i ≡ some r) × (drop (suc i) xs ≡ rs)
drop_head zero [] e = cc
drop_head zero (x ∷ xs) e = (cc, cc)
drop_head (suc i) [] e = cc
drop_head (suc i) (x ∷ xs) e = drop_head i xs e

-- How a loop over the rows `todo` comes to its end.
record Turn (c : Client) (d d' : Delayer) (todo : List Callback) (i : ℕ) (thrown : Bool)
    : Type 0 where
  called : List Callback
  left : List Callback
  fresh : List Callback
  split : todo ≡ called ++ left
  rest : drop i d.reserve ≡ left
  told : contents fresh ≡ all_additions c (due_labels c called)
  ran : d'.ran ≡ d.ran ++ due_labels c called
  grown : d'.callbacks ≡ d.callbacks ++ fresh
  kept : d'.reserve ≡ d.reserve
  whole : thrown ≡ false → left ≡ []

record Round (c : Client) (d d' : Delayer) (k : Option ℕ) : Type 0 where
  fresh : List Callback
  told : contents fresh ≡ all_additions c (add_label k [])
  grown : d'.callbacks ≡ d.callbacks ++ fresh
  kept : d'.reserve ≡ d.reserve
  ran : d'.ran ≡ d.ran ++ add_label k []

round-Round : (c : Client) (k : Option ℕ) (d : Delayer) → OnlyAdds c → Round c d (round c k d).0 k
unfolding round
round-Round c none d h = record {
  fresh = [];
  told = refl;
  grown = rw append-nil refl;
  kept = refl;
  ran = rw append-nil refl;
}
round-Round c (some k) d h =
    let e = ops-Extends (c.prog k) (record d { ran = d.ran ++ k ∷ [] }) (h k) in
    record {
      fresh = e.fresh;
      told = e.told ∙ sym (append-nil (additions (c.prog k)));
      grown = e.grown;
      kept = e.kept;
      ran = e.same;
    }

add_label-append : (k : Option ℕ) (ks : List ℕ) → add_label k [] ++ ks ≡ add_label k ks
add_label-append none ks = refl
add_label-append (some k) ks = refl

Turn-stop :
    (c : Client) (d d' : Delayer) (r : Callback) (rs : List Callback) (i : ℕ)
    → Round c d d' (runnable c r)
    → drop (i + 1) d.reserve ≡ rs
    → Turn c d d' (r ∷ rs) (i + 1) true
Turn-stop c d d' r rs i t e = record {
  called = r ∷ [];
  left = rs;
  fresh = t.fresh;
  split = refl;
  rest = e;
  told = t.told;
  ran = t.ran;
  grown = t.grown;
  kept = t.kept;
  whole = λ h. cc;
}

Turn-more :
    (c : Client) (d d' d'' : Delayer) (r : Callback) (rs : List Callback) (i : ℕ) (thrown : Bool)
    → Round c d d' (runnable c r)
    → Turn c d' d'' rs i thrown
    → Turn c d d'' (r ∷ rs) i thrown
Turn-more c d d' d'' r rs i thrown t u = record {
  called = r ∷ u.called;
  left = u.left;
  fresh = t.fresh ++ u.fresh;
  split = ap (◌∷◌ r) u.split;
  rest = rw (← t.kept) u.rest;
  told =
      contents-append t.fresh u.fresh
      ∙ rw (t.told, u.told) (additions-label c (runnable c r) (due_labels c u.called));
  ran =
      rw (u.ran, t.ran)
        (append_assoc d.ran (add_label (runnable c r) []) (due_labels c u.called)
          ∙ ap (◌++◌ d.ran) (add_label-append (runnable c r) (due_labels c u.called)));
  grown = rw (u.grown, t.grown) (append_assoc d.callbacks t.fresh u.fresh);
  kept = u.kept ∙ t.kept;
  whole = u.whole;
}

loop-Turn :
    (c : Client)
    → OnlyAdds c
    → (todo : List Callback) (i : ℕ) (d : Delayer) → drop i d.reserve ≡ todo
    → let (d', i', thrown) = call_loop c (length todo) i d in Turn c d d' todo i' thrown
unfolding call_loop
loop-Turn c h [] i d e = record {
  called = [];
  left = [];
  fresh = [];
  split = refl;
  rest = e;
  told = refl;
  ran = rw append-nil refl;
  grown = rw append-nil refl;
  kept = refl;
  whole = λ _. refl;
}
loop-Turn c h (r ∷ rs) i d e =
    let (at, rest) = drop_head i d.reserve e in
    let d' = (round c (runnable c r) d).0 in
    let t = round-Round c (runnable c r) d h in
    rw at (elim (Bool-cases (round c (runnable c r) d).1) [
      | inl stop ↦ rw stop (Turn-stop c d d' r rs i t (rw add-one rest))
      | inr more ↦
          rw more (
            Turn-more c d d' _ r rs _ _ t (loop-Turn c h rs (i + 1) d' (rw (add-one, t.kept) rest)))
    ])

-- With callbacks that cancel nothing, a turn over the waiting rows calls, in their order, the
-- callbacks due among the first of them, each once. The other rows are kept, in front of exactly the
-- callbacks, with their guards, that the called ones added, in the order of their calls; if no
-- callback throws, none of the waiting rows is left over.
pub call-order :
    (c : Client) (d : Delayer)
    → OnlyAdds c
    → let (d', thrown) = delayer_call c d in
      (called : List Callback) × (left : List Callback) × (fresh : List Callback) × (d.callbacks
        ≡ called ++ left)
      × (d'.ran ≡ d.ran ++ due_labels c called)
      × (d'.callbacks ≡ left ++ fresh)
      × (contents fresh ≡ all_additions c (due_labels c called))
      × (thrown ≡ false → left ≡ [])
unfolding delayer_call put_back
call-order c d h =
    let t = loop-Turn c h d.callbacks 0 (record d { callbacks = []; reserve = d.callbacks }) refl in
    (t.called, t.left, t.fresh, t.split, t.ran, rw (t.kept, t.rest, t.grown) refl, t.told, t.whole)

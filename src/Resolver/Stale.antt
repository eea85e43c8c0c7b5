-- ===== src/Resolver/Stale.antt =====
-- How requests of the resolver can be lost (src/panda/unievent/Resolver.cc).
use uni_event.Base.{
  ℕ, ◌≡◌, ◌≢◌, refl, sym, ap, ◌∙◌, Bool, true, false, none, some, List, ◌∷◌, ◌==◌, arith,
  Bool-cases, inl, inr,
}
use uni_event.Resolver.{
  Request, Resolver, set, worker_resolve, worker_cancel, take_out, ended, finish_resolve,
  next_queued,
}
use uni_event.Resolver.Lists.{
  set-same, set-other, some-eq, eq_lem, mem, self-eq, mem-first, mem-later,
}
use uni_event.Resolver.Places.{IsPlaced}

pub next-served :
    (w r : ℕ) (rs : List ℕ) (s : Resolver)
    → next_queued false w (r ∷ rs) s ≡ worker_resolve w r (record s { queue = rs })
unfolding next_queued
next-served w r rs s = ground arith

never : {b : Bool} → b ≡ true → b ≡ false → ⊥
never {b} h k = ground arith

-- A round of the loop behind a callback whose worker is not free any more, because the callback of a
-- request that the cache answered has started one, puts the first request of the queue in its place: the
-- other one runs, but no worker has it and it is not in the queue.
pub next-overwritten :
    (s : Resolver) (w p r : ℕ) (rs : List ℕ)
    → IsPlaced s
    → s.busy w ≡ some p
    → s.queue ≡ r ∷ rs
    → let t : Resolver = next_queued false w (r ∷ rs) s in
      ((t.requests p).running ≡ true) × ((u : ℕ) → t.busy u ≢ some p) × (mem p t.queue ≡ false)
unfolding worker_resolve
next-overwritten s w p r rs v b e = rw (next-served w r rs s) (runs, gone, away)
  where
    t : Resolver
    t = worker_resolve w r (record s { queue = rs })

    mine : ((s.requests p).running ≡ true) × ((s.requests p).worker ≡ some w)
    mine = v.owned p w b

    apart : (p == r) ≡ false
    apart = elim (Bool-cases (p == r)) [
      | inl k ↦
          let same = ap (λ q. (s.requests q).worker) (eq_lem p r k) in
          let o = v.lined r (ap (mem r) e ∙ mem-first r rs) in let m = mine in cc
      | inr k ↦ k
    ]

    runs : (t.requests p).running ≡ true
    runs =
        ap (λ q. q.running)
          (set-other s.requests r (record (s.requests r) { worker = some w }) p apart)
        ∙ mine.0

    gone : (u : ℕ) → t.busy u ≢ some p
    gone u k = elim (Bool-cases (u == w)) [
      | inl h ↦
          let pr : p ≡ r =
            some-eq
              (sym k ∙ ap (set s.busy w (some r)) (eq_lem u w h) ∙ set-same s.busy w (some r)) in
          never (ap (λ q. q == r) pr ∙ self-eq r) apart
      | inr h ↦
          let o = v.owned p u (sym (set-other s.busy w (some r) u h) ∙ k) in
          let uw : u ≡ w = some-eq (sym o.1 ∙ mine.1) in never (ap (λ q. q == w) uw ∙ self-eq w) h
    ]

    away : mem p t.queue ≡ false
    away = elim (Bool-cases (mem p rs)) [
      | inl m ↦ let o = v.lined p (ap (mem p) e ∙ mem-later p r rs m) in let k = mine in cc
      | inr m ↦ m
    ]

pub finish-canceled :
    (s : Resolver) (w p r : ℕ)
    → (s.requests r).running ≡ true
    → (s.requests r).worker ≡ some w
    → s.busy w ≡ some p
    → finish_resolve r s
      ≡ ended r (record s {
        requests = set s.requests p (record (s.requests p) { worker = none });
        busy = set s.busy w none;
      })
unfolding finish_resolve take_out worker_cancel
finish-canceled s w p r h k b = rw h (rw k (rw b refl))

-- A request keeps its worker when the worker has answered it. When such a request is started again and
-- ends, from the cache or canceled, while its former worker has another one, it takes that one out of the
-- worker: the other one runs and has no worker.
finish-stale :
    (s : Resolver) (w p r : ℕ)
    → (p == r) ≡ false
    → (s.requests r).running ≡ true
    → (s.requests p).running ≡ true
    → (s.requests r).worker ≡ some w
    → s.busy w ≡ some p
    → let t : Resolver = finish_resolve r s in
      ((t.requests p).running ≡ true) × ((t.requests p).worker ≡ none) × (t.busy w ≡ none)
unfolding ended
finish-stale s w p r n h i k b =
    let q : Request = record (s.requests p) { worker = none } in
    let t : Resolver = record s { requests = set s.requests p q; busy = set s.busy w none } in
    let ends : Request = record (t.requests r) {
      running = false;
      queued = false;
      delayed = false;
      timer = false;
    } in
    let other : set t.requests r ends p ≡ q =
      set-other t.requests r ends p n ∙ set-same s.requests p q in
    rw (finish-canceled s w p r h k b)
      (ap (λ x. x.running) other ∙ i, ap (λ x. x.worker) other, set-same s.busy w none)

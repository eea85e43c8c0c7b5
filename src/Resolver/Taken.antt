-- ===== src/Resolver/Taken.antt =====
-- How the resolver takes a request from its place (src/panda/unievent/Resolver.cc).
use uni_event.Base.{
  ℕ, ◌≡◌, refl, sym, ap, ◌∙◌, Bool, true, false, Option, none, some, List, ◌∷◌, ◌==◌, if◌then◌else◌,
  Bool-cases, inl, inr,
}
use uni_event.Resolver.{
  Request, Resolver, set, erase, worker_cancel, take_out, ended, finish_resolve, finish_moved,
  worker_finish,
}
use uni_event.Resolver.Lists.{
  set-same, set-other, some-eq, eq_lem, mem, nodup, mem-erase, mem-erased, erase-gone, nodup-erase,
  self-eq, mem-first, mem-rest, mem-later, nodup-apart, nodup-rest,
}
use uni_event.Resolver.Places.{IsPlaced, IsWithout, changed-IsWithout}
use uni_event.Resolver.Settled.{ended-IsPlaced}

-- Two requests of which something is different.
apart :
    {A : Type 0} (s : Resolver) (f : Request → A) (p r : ℕ)
    → (f (s.requests p) ≡ f (s.requests r) → ⊥)
    → (p == r) ≡ false
apart s f p r h = elim (Bool-cases (p == r)) [
  | inl e ↦ absurd (h (ap (λ q. f (s.requests q)) (eq_lem p r e)))
  | inr e ↦ e
]

-- The request of a worker is moved out of it.
moved-IsWithout :
    (w r : ℕ) (s : Resolver)
    → IsPlaced s
    → s.busy w ≡ some r
    → IsWithout r (record s { busy = set s.busy w none })
moved-IsWithout w r s v b =
    let mine = v.owned r w b in
    let else_where : (p u : ℕ) → (p == r) ≡ false → s.busy u ≡ some p → (u == w) ≡ false =
      λ p u n k. elim (Bool-cases (u == w)) [
        | inl e ↦
            let same = ap s.busy (eq_lem u w e) in
            let pr : p ≡ r = some-eq (sym k ∙ same ∙ b) in
            let t = ap (λ q. q == r) pr in let u = self-eq r in cc
        | inr e ↦ e
      ] in
    let others : (p u : ℕ) → (u == w) ≡ false → s.busy u ≡ some p → (p == r) ≡ false = λ p u n k.
      elim (Bool-cases (p == r)) [
        | inl e ↦
            let o = v.owned p u k in
            let same = ap (λ q. (s.requests q).worker) (eq_lem p r e) in
            let uw : u ≡ w = some-eq (sym o.1 ∙ same ∙ mine.1) in
            let t = ap (λ q. q == w) uw in let k = self-eq w in cc
        | inr e ↦ e
      ] in
    record {
      serves = λ p u n k l.
          let k = v.serves p u k l in set-other s.busy w none u (else_where p u n k) ∙ k;
      waits = λ p n. v.waits p;
      pends = λ p n. v.pends p;
      owned = λ p u k. elim (Bool-cases (u == w)) [
        | inl e ↦ let gone = ap (set s.busy w none) (eq_lem u w e) ∙ set-same s.busy w none in cc
        | inr e ↦
            let k = sym (set-other s.busy w none u e) ∙ k in
            let o = v.owned p u k in (others p u e k, o.0, o.1)
      ];
      lined = λ p m. let o = v.lined p m in (apart s (λ q. q.worker) p r (λ e. cc), o.0, o.1, o.2);
      once = v.once;
      idle = λ p n. v.idle p;
      bounded = λ u le. elim (Bool-cases (u == w)) [
        | inl e ↦ ap (set s.busy w none) (eq_lem u w e) ∙ set-same s.busy w none
        | inr e ↦ set-other s.busy w none u e ∙ v.bounded u le
      ];
    }

-- A request that waits in the queue is erased.
erased-IsWithout :
    (r : ℕ) (s : Resolver)
    → IsPlaced s
    → (s.requests r).worker ≡ none
    → IsWithout r (record s { queue = erase r s.queue })
erased-IsWithout r s v b = record {
  serves = λ p u n. v.serves p u;
  waits = λ p n k l m. mem-erase r p s.queue n ∙ v.waits p k l m;
  pends = λ p n. v.pends p;
  owned = λ p u k. let o = v.owned p u k in (apart s (λ q. q.worker) p r (λ e. cc), o.0, o.1);
  lined = λ p m.
      let o = v.lined p (mem-erased r p s.queue m) in
      (
        elim (Bool-cases (p == r)) [
          | inl e ↦
              let gone = erase-gone r s.queue v.once in
              let here = ap (λ q. mem q (erase r s.queue)) (eq_lem p r e) in cc
          | inr e ↦ e
        ],
        o.0,
        o.1,
        o.2,
      );
  once = nodup-erase r s.queue v.once;
  idle = λ p n. v.idle p;
  bounded = v.bounded;
}

-- A request that the cache answers is erased.
forgotten-IsWithout :
    (r : ℕ) (s : Resolver)
    → IsPlaced s
    → (s.requests r).worker ≡ none
    → (s.requests r).queued ≡ false
    → IsWithout r (record s { cache_delayed = erase r s.cache_delayed })
forgotten-IsWithout r s v b f = record {
  serves = λ p u n. v.serves p u;
  waits = λ p n. v.waits p;
  pends = λ p n k l m. mem-erase r p s.cache_delayed n ∙ v.pends p k l m;
  owned = λ p u k. let o = v.owned p u k in (apart s (λ q. q.worker) p r (λ e. cc), o.0, o.1);
  lined = λ p m. let o = v.lined p m in (apart s (λ q. q.queued) p r (λ e. cc), o.0, o.1, o.2);
  once = v.once;
  idle = λ p n. v.idle p;
  bounded = v.bounded;
}

-- A request with a worker is canceled there.
canceled-IsWithout :
    (w r : ℕ) (o : Option ℕ) (s : Resolver)
    → IsPlaced s
    → s.busy w ≡ some r
    → o ≡ some r
    → IsWithout r (worker_cancel w o s)
unfolding worker_cancel
canceled-IsWithout w r none s v b h = cc
canceled-IsWithout w r (some q) s v b h = rw (some-eq h) (
    changed-IsWithout r (record (s.requests r) { worker = none })
      (record s { busy = set s.busy w none }) (moved-IsWithout w r s v b))

taken-IsWithout :
    (r : ℕ) (o : Option ℕ) (b : Bool) (s : Resolver)
    → IsPlaced s
    → (s.requests r).running ≡ true
    → (s.requests r).worker ≡ o
    → (s.requests r).queued ≡ b
    → IsWithout r (take_out r o b s)
unfolding take_out
taken-IsWithout r (some w) b s v h k l =
    let mine = v.serves r w h k in canceled-IsWithout w r (s.busy w) s v mine mine
taken-IsWithout r none true s v h k l = erased-IsWithout r s v k
taken-IsWithout r none false s v h k l = forgotten-IsWithout r s v k l

-- The first request of the queue leaves it.
pub popped-IsWithout :
    (r : ℕ) (rs : List ℕ) (s : Resolver)
    → IsPlaced s
    → s.queue ≡ r ∷ rs
    → IsWithout r (record s { queue = rs })
popped-IsWithout r rs s v e =
    let first : mem r s.queue ≡ true = ap (mem r) e ∙ mem-first r rs in
    let mine = v.lined r first in
    let once : nodup (r ∷ rs) ≡ true = sym (ap nodup e) ∙ v.once in
    record {
      serves = λ p u n. v.serves p u;
      waits = λ p n k l m. mem-rest p r rs n (sym (ap (mem p) e) ∙ v.waits p k l m);
      pends = λ p n. v.pends p;
      owned = λ p u k. let o = v.owned p u k in (apart s (λ q. q.worker) p r (λ e. cc), o.0, o.1);
      lined = λ p m.
          let o = v.lined p (ap (mem p) e ∙ mem-later p r rs m) in
          (nodup-apart p r rs once m, o.0, o.1, o.2);
      once = nodup-rest r rs once;
      idle = λ p n. v.idle p;
      bounded = v.bounded;
    }

pub finish-IsPlaced : (r : ℕ) (s : Resolver) → IsPlaced s → IsPlaced (finish_resolve r s)
unfolding finish_resolve
finish-IsPlaced r s v = go (s.requests r).running refl
  where
    out : Resolver
    out = take_out r (s.requests r).worker (s.requests r).queued s

    go : (b : Bool) → (s.requests r).running ≡ b → IsPlaced (if b then ended r out else s)
    go true h =
        ended-IsPlaced r out
          (taken-IsWithout r (s.requests r).worker (s.requests r).queued s v h refl refl)
    go false h = v

-- The request of a worker, for which the worker has nothing to cancel any more.
moved-take_out :
    (w r : ℕ) (o : Option ℕ) (b : Bool) (s : Resolver)
    → o ≡ some w
    → take_out r o b (record s { busy = set s.busy w none }) ≡ record s { busy = set s.busy w none }
unfolding take_out worker_cancel
moved-take_out w r none b s h = cc
moved-take_out w r (some u) b s h = rw (some-eq h) (rw (set-same s.busy w none) refl)

if_true : (b : Bool) (x y : Resolver) → b ≡ true → (if b then x else y) ≡ x
if_true true x y h = refl
if_true false x y h = cc

finish-moved :
    (w r : ℕ) (s : Resolver)
    → (s.requests r).running ≡ true
    → (s.requests r).worker ≡ some w
    → finish_resolve r (record s { busy = set s.busy w none })
      ≡ ended r (record s { busy = set s.busy w none })
unfolding finish_resolve
finish-moved w r s h k =
    let t : Resolver = record s { busy = set s.busy w none } in
    if_true (s.requests r).running _ t h
    ∙ ap (ended r) (moved-take_out w r (s.requests r).worker (s.requests r).queued s k)

moved-IsPlaced :
    (w : ℕ) (o : Option ℕ) (s : Resolver)
    → IsPlaced s
    → s.busy w ≡ o
    → IsPlaced (finish_moved w o s)
unfolding finish_moved
moved-IsPlaced w none s v b = v
moved-IsPlaced w (some r) s v b =
    let o = v.owned r w b in
    let t : Resolver = record s { busy = set s.busy w none } in
    rw (finish-moved w r s o.0 o.1) (ended-IsPlaced r t (moved-IsWithout w r s v b))

pub worker-IsPlaced : (w : ℕ) (s : Resolver) → IsPlaced s → IsPlaced (worker_finish w s)
unfolding worker_finish
worker-IsPlaced w s v = moved-IsPlaced w (s.busy w) s v refl

-- ===== src/Resolver/Settled.antt =====
-- The places that the resolver gives to a request (src/panda/unievent/Resolver.cc).
use uni_event.Base.{
  ℕ, ◌<◌, ◌≡◌, refl, sym, ap, ◌∙◌, true, false, none, some, [], ◌∷◌, ◌++◌, ◌==◌, arith, Bool-cases,
  inl, inr,
}
use uni_event.Resolver.{Request, Resolver, set, worker_resolve, enqueue, answer_from_cache, ended}
use uni_event.Resolver.Lists.{
  set-same, set-other, set-cases, some-eq, eq_lem, mem, mem-end, nodup-end, self-eq, mem-last,
  mem-cases,
}
use uni_event.Resolver.Places.{IsPlaced, IsWithout}

free-other : (s : Resolver) (w u p : ℕ) → s.busy w ≡ none → s.busy u ≡ some p → (u == w) ≡ false
free-other s w u p b c = elim (Bool-cases (u == w)) [
  | inl e ↦ let same = ap s.busy (eq_lem u w e) in cc
  | inr e ↦ e
]

-- A request is put with a worker that has none.
pub served-IsPlaced :
    (w r : ℕ) (s : Resolver)
    → IsWithout r s
    → (s.requests r).running ≡ true
    → s.busy w ≡ none
    → w < s.worker_count
    → IsPlaced (worker_resolve w r s)
unfolding worker_resolve
served-IsPlaced w r s v h b lt =
    let q : Request = record (s.requests r) { worker = some w } in
    record {
      serves = λ p u.
          set-cases s.requests r q
            (λ p q'. q'.running ≡ true → q'.worker ≡ some u → set s.busy w (some r) u ≡ some p)
            (λ k l. rw⁻¹ (some-eq l) (set-same s.busy w (some r)))
            (λ p n k l.
              set-other s.busy w (some r) u (free-other s w u p b (v.serves p u n k l))
              ∙ v.serves p u n k l)
            p;
      waits =
          set-cases s.requests r q
            (λ p q'. q'.running ≡ true → q'.worker ≡ none → q'.queued ≡ true → mem p s.queue ≡ true)
            (λ k l. cc) v.waits;
      pends =
          set-cases s.requests r q
            (λ p q'.
              q'.running ≡ true
              → q'.worker ≡ none
              → q'.queued ≡ false
              → mem p s.cache_delayed ≡ true)
            (λ k l. cc) v.pends;
      owned = λ p u k. elim (Bool-cases (u == w)) [
        | inl e ↦
            let same : p ≡ r =
              some-eq
                (sym k ∙ ap (set s.busy w (some r)) (eq_lem u w e) ∙ set-same s.busy w (some r)) in
            rw same (rw (set-same s.requests r q) (h, ap some (sym (eq_lem u w e))))
        | inr e ↦
            let o = v.owned p u (sym (set-other s.busy w (some r) u e) ∙ k) in
            rw (set-other s.requests r q p o.0) (o.1, o.2)
      ];
      lined = λ p m. let o = v.lined p m in rw (set-other s.requests r q p o.0) (o.1, o.2, o.3);
      once = v.once;
      idle =
          set-cases s.requests r q (λ p q'. q'.running ≡ false → q'.queued ≡ false) (λ k. cc)
            v.idle;
      bounded = λ u le. elim (Bool-cases (u == w)) [
        | inl e ↦ absurd (omega (arith, eq_lem u w e))
        | inr e ↦ set-other s.busy w (some r) u e ∙ v.bounded u le
      ];
    }

not-lined : (r : ℕ) (s : Resolver) → IsWithout r s → mem r s.queue ≡ false
not-lined r s v = elim (Bool-cases (mem r s.queue)) [
  | inl m ↦ let e = self-eq r in let o = v.lined r m in cc
  | inr m ↦ m
]

-- A request is put at the end of the queue.
pub enqueued-IsPlaced :
    (r : ℕ) (s : Resolver)
    → IsWithout r s
    → (s.requests r).running ≡ true
    → (s.requests r).worker ≡ none
    → IsPlaced (enqueue r s)
unfolding enqueue
enqueued-IsPlaced r s v h b =
    let q : Request = record (s.requests r) { queued = true } in
    record {
      serves = λ p u.
          set-cases s.requests r q
            (λ p q'. q'.running ≡ true → q'.worker ≡ some u → s.busy u ≡ some p) (λ k l. cc)
            (λ p n. v.serves p u n) p;
      waits =
          set-cases s.requests r q
            (λ p q'.
              q'.running ≡ true
              → q'.worker ≡ none
              → q'.queued ≡ true
              → mem p (s.queue ++ r ∷ []) ≡ true)
            (λ k l m. mem-last r s.queue)
            (λ p n k l m. let e = v.waits p n k l m in let f = mem-end p r s.queue in ground arith);
      pends =
          set-cases s.requests r q
            (λ p q'.
              q'.running ≡ true
              → q'.worker ≡ none
              → q'.queued ≡ false
              → mem p s.cache_delayed ≡ true)
            (λ k l m. cc) v.pends;
      owned = λ p u k. let o = v.owned p u k in rw (set-other s.requests r q p o.0) (o.1, o.2);
      lined = λ p m. elim (mem-cases p r s.queue m) [
        | inl k ↦ let o = v.lined p k in rw (set-other s.requests r q p o.0) (o.1, o.2, o.3)
        | inr e ↦ rw e (rw (set-same s.requests r q) (h, b, refl))
      ];
      once = nodup-end r s.queue v.once (not-lined r s v);
      idle =
          set-cases s.requests r q (λ p q'. q'.running ≡ false → q'.queued ≡ false) (λ k. cc)
            v.idle;
      bounded = v.bounded;
    }

-- A request is answered from the cache.
pub cached-IsPlaced :
    (r : ℕ) (s : Resolver)
    → IsWithout r s
    → (s.requests r).running ≡ true
    → (s.requests r).worker ≡ none
    → (s.requests r).queued ≡ false
    → IsPlaced (answer_from_cache r s)
unfolding answer_from_cache
cached-IsPlaced r s v h b n =
    let q : Request = record (s.requests r) { use_cache = false; delayed = true } in
    record {
      serves = λ p u.
          set-cases s.requests r q
            (λ p q'. q'.running ≡ true → q'.worker ≡ some u → s.busy u ≡ some p) (λ k l. cc)
            (λ p n. v.serves p u n) p;
      waits =
          set-cases s.requests r q
            (λ p q'. q'.running ≡ true → q'.worker ≡ none → q'.queued ≡ true → mem p s.queue ≡ true)
            (λ k l m. cc) v.waits;
      pends =
          set-cases s.requests r q
            (λ p q'.
              q'.running ≡ true
              → q'.worker ≡ none
              → q'.queued ≡ false
              → mem p (s.cache_delayed ++ r ∷ []) ≡ true)
            (λ k l m. mem-last r s.cache_delayed)
            (λ p n k l m.
              let e = v.pends p n k l m in let f = mem-end p r s.cache_delayed in ground arith);
      owned = λ p u k. let o = v.owned p u k in rw (set-other s.requests r q p o.0) (o.1, o.2);
      lined = λ p m. let o = v.lined p m in rw (set-other s.requests r q p o.0) (o.1, o.2, o.3);
      once = v.once;
      idle =
          set-cases s.requests r q (λ p q'. q'.running ≡ false → q'.queued ≡ false) (λ k. cc)
            v.idle;
      bounded = v.bounded;
    }

-- A request ends.
pub ended-IsPlaced : (r : ℕ) (s : Resolver) → IsWithout r s → IsPlaced (ended r s)
unfolding ended
ended-IsPlaced r s v =
    let q : Request = record (s.requests r) {
      running = false;
      queued = false;
      delayed = false;
      timer = false;
    } in
    record {
      serves = λ p u.
          set-cases s.requests r q
            (λ p q'. q'.running ≡ true → q'.worker ≡ some u → s.busy u ≡ some p) (λ k l. cc)
            (λ p n. v.serves p u n) p;
      waits =
          set-cases s.requests r q
            (λ p q'. q'.running ≡ true → q'.worker ≡ none → q'.queued ≡ true → mem p s.queue ≡ true)
            (λ k l m. cc) v.waits;
      pends =
          set-cases s.requests r q
            (λ p q'.
              q'.running ≡ true
              → q'.worker ≡ none
              → q'.queued ≡ false
              → mem p s.cache_delayed ≡ true)
            (λ k l m. cc) v.pends;
      owned = λ p u k. let o = v.owned p u k in rw (set-other s.requests r q p o.0) (o.1, o.2);
      lined = λ p m. let o = v.lined p m in rw (set-other s.requests r q p o.0) (o.1, o.2, o.3);
      once = v.once;
      idle =
          set-cases s.requests r q (λ p q'. q'.running ≡ false → q'.queued ≡ false) (λ k. refl)
            v.idle;
      bounded = v.bounded;
    }

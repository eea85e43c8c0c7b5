-- ===== src/Resolver/Places.antt =====
-- Where the running requests of a resolver are (src/panda/unievent/Resolver.cc).
use uni_event.Base.{ℕ, ◌≤◌, ◌≡◌, ap, true, false, none, some, ◌==◌, Bool-cases, inl, inr}
use uni_event.Resolver.{Request, Resolver, set}
use uni_event.Resolver.Lists.{set-other, eq_lem, mem, nodup}

-- A running request is with its worker, in the queue, or among those that were found in the cache; the
-- workers and the queue have no others, and none twice.
pub record IsPlaced (s : Resolver) : Type 0 where
  pub serves :
      (p w : ℕ) → (s.requests p).running ≡ true → (s.requests p).worker ≡ some w → s.busy w ≡ some p
  pub waits :
      (p : ℕ)
      → (s.requests p).running ≡ true
      → (s.requests p).worker ≡ none
      → (s.requests p).queued ≡ true
      → mem p s.queue ≡ true
  pub pends :
      (p : ℕ)
      → (s.requests p).running ≡ true
      → (s.requests p).worker ≡ none
      → (s.requests p).queued ≡ false
      → mem p s.cache_delayed ≡ true
  pub owned :
      (p w : ℕ)
      → s.busy w ≡ some p
      → ((s.requests p).running ≡ true) × ((s.requests p).worker ≡ some w)
  pub lined :
      (p : ℕ)
      → mem p s.queue ≡ true
      → ((s.requests p).running ≡ true)
        × ((s.requests p).worker ≡ none)
        × ((s.requests p).queued ≡ true)
  pub once : nodup s.queue ≡ true
  pub idle : (p : ℕ) → (s.requests p).running ≡ false → (s.requests p).queued ≡ false
  pub bounded : (w : ℕ) → s.worker_count ≤ w → s.busy w ≡ none

-- The same of all requests but one, which is nowhere.
pub record IsWithout (r : ℕ) (s : Resolver) : Type 0 where
  pub serves :
      (p w : ℕ)
      → (p == r) ≡ false
      → (s.requests p).running ≡ true
      → (s.requests p).worker ≡ some w
      → s.busy w ≡ some p
  pub waits :
      (p : ℕ)
      → (p == r) ≡ false
      → (s.requests p).running ≡ true
      → (s.requests p).worker ≡ none
      → (s.requests p).queued ≡ true
      → mem p s.queue ≡ true
  pub pends :
      (p : ℕ)
      → (p == r) ≡ false
      → (s.requests p).running ≡ true
      → (s.requests p).worker ≡ none
      → (s.requests p).queued ≡ false
      → mem p s.cache_delayed ≡ true
  pub owned :
      (p w : ℕ)
      → s.busy w ≡ some p
      → ((p == r) ≡ false) × ((s.requests p).running ≡ true) × ((s.requests p).worker ≡ some w)
  pub lined :
      (p : ℕ)
      → mem p s.queue ≡ true
      → ((p == r) ≡ false)
        × ((s.requests p).running ≡ true)
        × ((s.requests p).worker ≡ none)
        × ((s.requests p).queued ≡ true)
  pub once : nodup s.queue ≡ true
  pub idle :
      (p : ℕ) → (p == r) ≡ false → (s.requests p).running ≡ false → (s.requests p).queued ≡ false
  pub bounded : (w : ℕ) → s.worker_count ≤ w → s.busy w ≡ none

differs :
    (s : Resolver) (p r : ℕ)
    → (s.requests p).running ≡ true
    → (s.requests r).running ≡ false
    → (p == r) ≡ false
differs s p r h k = elim (Bool-cases (p == r)) [
  | inl e ↦ let same = ap (λ q. (s.requests q).running) (eq_lem p r e) in cc
  | inr e ↦ e
]

-- A request that does not run is nowhere.
pub stopped-IsWithout :
    (r : ℕ) (s : Resolver) → IsPlaced s → (s.requests r).running ≡ false → IsWithout r s
stopped-IsWithout r s v h = record {
  serves = λ p w n. v.serves p w;
  waits = λ p n. v.waits p;
  pends = λ p n. v.pends p;
  owned = λ p w b. let o = v.owned p w b in (differs s p r o.0 h, o.0, o.1);
  lined = λ p m. let o = v.lined p m in (differs s p r o.0 h, o.0, o.1, o.2);
  once = v.once;
  idle = λ p n. v.idle p;
  bounded = v.bounded;
}

-- What becomes of the fields of a request that is nowhere concerns no other.
pub changed-IsWithout :
    (r : ℕ) (q : Request) (s : Resolver)
    → IsWithout r s
    → IsWithout r (record s { requests = set s.requests r q })
changed-IsWithout r q s v = record {
  serves = λ p w n. rw (set-other s.requests r q p n) (v.serves p w n);
  waits = λ p n. rw (set-other s.requests r q p n) (v.waits p n);
  pends = λ p n. rw (set-other s.requests r q p n) (v.pends p n);
  owned = λ p w b. let o = v.owned p w b in rw (set-other s.requests r q p o.0) o;
  lined = λ p m. let o = v.lined p m in rw (set-other s.requests r q p o.0) o;
  once = v.once;
  idle = λ p n. rw (set-other s.requests r q p n) (v.idle p n);
  bounded = v.bounded;
}

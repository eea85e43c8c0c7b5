-- ===== src/Resolver/Reset/Canceled.antt =====
-- The loop over the queue in `Resolver::reset` (src/panda/unievent/Resolver.cc).
use uni_event.Base.{
  ℕ, zero, suc, ◌≤◌, ◌≡◌, refl, ap, ◌∙◌, Bool, true, false, none, List, [], ◌∷◌, ◌==◌,
  if◌then◌else◌, length, arith,
}
use uni_event.Resolver.{Resolver, erase, take_out, ended, finish_resolve}
use uni_event.Resolver.Lists.{mem, mem-first, self-eq}
use uni_event.Resolver.Places.{IsPlaced}
use uni_event.Resolver.Taken.{finish-IsPlaced}
use uni_event.Resolver.Reset.{behind, cancel, done, cancel_till}

erase-first : (r : ℕ) (rs : List ℕ) → erase r (r ∷ rs) ≡ rs
unfolding erase
erase-first r rs = ap (λ b. if b then rs else r ∷ erase r rs) (self-eq r)

-- A request of the queue is canceled by its end, which takes it out.
cancel-queued :
    (r : ℕ) (s : Resolver)
    → (s.requests r).running ≡ true
    → (s.requests r).worker ≡ none
    → cancel r s ≡ finish_resolve r s
unfolding cancel
cancel-queued r s h k =
    ap (λ b. if b then behind (s.requests r).worker (finish_resolve r s) else s) h
    ∙ ap (λ w. behind w (finish_resolve r s)) k
    ∙ unfold behind in refl

finish-queue :
    (r : ℕ) (rs : List ℕ) (s : Resolver)
    → (s.requests r).running ≡ true
    → (s.requests r).worker ≡ none
    → (s.requests r).queued ≡ true
    → s.queue ≡ r ∷ rs
    → (finish_resolve r s).queue ≡ rs
unfolding finish_resolve
finish-queue r rs s h k q e =
    ap
      (λ b.
        (if b then ended r (take_out r (s.requests r).worker (s.requests r).queued s) else s).queue)
      h
    ∙ ap (λ w. (ended r (take_out r w (s.requests r).queued s)).queue) k
    ∙ ap (λ b. (ended r (take_out r none b s)).queue) q
    ∙ unfold ended take_out in ap (erase r) e ∙ erase-first r rs

-- From a state in which the requests are where they should be, the loop of `reset` over the queue comes to
-- its end in as many rounds as the queue is long, without a null pointer, if the request that it is
-- to stop at is in the queue; the requests are then where they should be again.
pub cancel_till-done :
    (fuel last : ℕ) (l : List ℕ) (s : Resolver)
    → IsPlaced s
    → s.queue ≡ l
    → mem last l ≡ true
    → length l ≤ fuel
    → (t : Resolver) × (cancel_till (λ u. u.queue) fuel last l s ≡ done t) × IsPlaced t
unfolding cancel_till
cancel_till-done fuel last [] s v e m small = cc
cancel_till-done zero last (r ∷ rs) s v e m small = absurd (omega (arith, small))
cancel_till-done (suc fuel) last (r ∷ rs) s v e m small =
    go (r == last) refl (cancel_till-done fuel last rs t placed queue)
  where
    place :
        ((s.requests r).running ≡ true)
        × ((s.requests r).worker ≡ none)
        × ((s.requests r).queued ≡ true)
    place = v.lined r (ap (mem r) e ∙ mem-first r rs)

    t : Resolver
    t = cancel r s

    ends : t ≡ finish_resolve r s
    ends = cancel-queued r s place.0 place.1

    placed : IsPlaced t
    placed = rw ends (finish-IsPlaced r s v)

    queue : t.queue ≡ rs
    queue = ap (λ u. u.queue) ends ∙ finish-queue r rs s place.0 place.1 place.2 e

    go :
        (b : Bool)
        → (r == last) ≡ b
        → (mem last rs ≡ true
            → length rs ≤ fuel
            → (u : Resolver) × (cancel_till (λ u. u.queue) fuel last rs t ≡ done u) × IsPlaced u)
        → (u : Resolver) × ((if b then done t else cancel_till (λ u. u.queue) fuel last t.queue t)
            ≡ done u)
          × IsPlaced u
    go true k rest = (t, refl, placed)
    go false k rest =
        let x = rest (ground (arith, m)) (omega (arith, small)) in
        (x.0, ap (λ l. cancel_till (λ u. u.queue) fuel last l t) queue ∙ x.1, x.2)

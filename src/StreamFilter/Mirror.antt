-- ===== src/StreamFilter/Mirror.antt =====
-- The way back of a request through the filters (src/panda/unievent/StreamFilter.cc).
use uni_event.Base.{ℕ, ◌≡◌, refl, sym, ap, ◌∙◌, List, [], ◌∷◌, ◌++◌, append_assoc, append-nil, true}
use uni_event.StreamFilter.{
  Act, passes, wraps, holds, Underway, create, subrequest, write, exec, Told, handled, subreq_done,
  handle_write, handle_event,
}

-- A list, from its end on.
abbrev pub backwards : List ℕ → List ℕ
backwards [] = []
backwards (x ∷ xs) = backwards xs ++ x ∷ []

-- The filters in front, before a request is given to a further one.
abbrev Mirrors : (ℕ → Act) → List ℕ → Underway → Underway → Type 0
Mirrors act front u v =
    (new : List ℕ) × (v.seen ≡ u.seen ++ new)
    × ((handle_event act v).filters ≡ backwards new ++ (handle_write act front u.requests).filters)
    × ((handle_event act v).requests ≡ (handle_write act front u.requests).requests)

-- A filter, on the way back.
abbrev behind : ℕ → Told → Told
behind f x = record { filters = f ∷ x.filters; requests = x.requests }

handle-behind :
    (act : ℕ → Act) (a : Act) (f : ℕ) (front rs : List ℕ)
    → act f ≡ a
    → handle_write act (f ∷ front) rs ≡ behind f (handle_write act front (handled a rs))
unfolding handle_write
handle-behind act a f front rs k = ap (λ a. behind f (handle_write act front (handled a rs))) k

-- What is seen after one filter more.
further :
    (act : ℕ → Act) (f : ℕ) (front : List ℕ) (u t v : Underway)
    → t.seen ≡ u.seen ++ f ∷ []
    → handle_write act (f ∷ front) t.requests ≡ behind f (handle_write act front u.requests)
    → Mirrors act (f ∷ front) t v
    → Mirrors act front u v
further act f front u t v seen e m = (
  f ∷ m.0,
  m.1 ∙ ap (λ l. l ++ m.0) seen ∙ append_assoc u.seen (f ∷ []) m.0,
  m.2
      ∙ ap (λ x. backwards m.0 ++ x.filters) e
      ∙ sym (append_assoc (backwards m.0) (f ∷ []) (handle_write act front u.requests).filters),
  m.3 ∙ ap (λ x. x.requests) e,
)

still :
    (act : ℕ → Act) (front : List ℕ) (u v : Underway)
    → v.last_filter ≡ front
    → v.seen ≡ u.seen
    → v.requests ≡ u.requests
    → Mirrors act front u v
unfolding handle_event
still act front u v e s r =
    let x : handle_write act v.last_filter v.requests ≡ handle_write act front u.requests =
      ap (λ l. handle_write act l v.requests) e ∙ ap (handle_write act front) r in
    ([], s ∙ sym (append-nil u.seen), ap (λ x. x.filters) x, ap (λ x. x.requests) x)

-- The state of a filter that has been given a request.
abbrev given : ℕ → List ℕ → Underway → Underway
given f front u = record u { last_filter = f ∷ front; seen = u.seen ++ f ∷ [] }

write-Mirrors :
    (act : ℕ → Act) (fs front : List ℕ) (u : Underway)
    → u.last_filter ≡ front
    → Mirrors act front u (write act front fs u)
unfolding write
write-Mirrors act [] front u e = still act front u (record u { finalized = true }) e refl refl
write-Mirrors act (f ∷ fs) front u e = go (write-Mirrors act fs (f ∷ front)) (act f) refl
  where
    go :
        ((t : Underway)
          → t.last_filter ≡ f ∷ front
          → Mirrors act (f ∷ front) t (write act (f ∷ front) fs t))
        → (a : Act) → act f ≡ a
        → Mirrors act front u (elim a [
          | passes ↦ write act (f ∷ front) fs (given f front u)
          | wraps ↦ write act (f ∷ front) fs (subrequest (given f front u))
          | holds ↦ given f front u
        ])
    go rest passes k =
        let t = given f front u in
        further act f front u t (write act (f ∷ front) fs t) refl
          (unfold handled in handle-behind act passes f front u.requests k) (rest t refl)
    go rest wraps k =
        let t : Underway = subrequest (given f front u) in
        further act f front u t (write act (f ∷ front) fs t) (unfold subrequest in refl)
          (unfold subrequest handled subreq_done in
            handle-behind act wraps f front (u.fresh ∷ u.requests) k)
          (rest t (unfold subrequest in refl))
    go rest holds k =
        let t = given f front u in
        further act f front u t t refl
          (unfold handled in handle-behind act holds f front u.requests k)
          (still act (f ∷ front) t t refl refl refl)

-- A request that has gone through the filters of a stream as far as they let it, some of them with a
-- subrequest of their own: its end goes back through the filters that it was given to, each once, the
-- last one first, and when the stream is told, all subrequests are done and the request is left.
pub handle-exec :
    (act : ℕ → Act) (chain : List ℕ) (r : ℕ)
    → let u = exec act chain r in
      ((handle_event act u).filters ≡ backwards u.seen) × ((handle_event act u).requests ≡ r ∷ [])
unfolding exec
handle-exec act chain r =
    let m = write-Mirrors act chain [] (create r) (unfold create in refl) in
    let e : handle_write act [] (create r).requests ≡ record { filters = []; requests = r ∷ [] } =
      unfold handle_write create in refl in
    let seen : (write act [] chain (create r)).seen ≡ m.0 = m.1 ∙ unfold create in refl in
    (
      m.2
          ∙ ap (λ x. backwards m.0 ++ x.filters) e
          ∙ append-nil (backwards m.0)
          ∙ ap backwards (sym seen),
      m.3 ∙ ap (λ x. x.requests) e,
    )

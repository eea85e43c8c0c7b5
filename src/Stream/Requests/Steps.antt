-- ===== src/Stream/Requests/Steps.antt =====
-- The steps of a stream with requests (src/panda/unievent/Stream.cc).
use uni_event.Base.{
  ℕ, ◌≡◌, sym, ap, ◌∙◌, Option, none, some, List, [], ◌∷◌, ◌++◌, inl, inr, append_assoc, ◌==◌,
  ==_iff, Bool-cases, if◌then◌else◌,
}
use uni_event.Stream.{Stream, read_start, read_stop, read_ignore, handle_eof}
use uni_event.Stream.Requests.{
  Req, connect_request, write_request, shutdown_request, disconnect_request, Problem, not_connected,
  backend, next_turn, Requests, fresh, connect, write, shutdown, disconnect, complete, expire,
  reset, clear, before,
}

-- What the user and the backend do to the reading.
pub data Reads : Stream → Stream → Type 0 where
  starts : {s : Stream} (answer : Option ℕ) → Reads s (read_start answer s).0
  stops : {s : Stream} → Reads s (read_stop s)
  ignores : {s : Stream} → Reads s (read_ignore s)
  ends : {s : Stream} → Reads s (handle_eof s).0

-- The states, with the numbers of the requests that were begun, in order.
pub data Reach : List ℕ → Requests → Type 0 where
  created : Reach [] fresh
  connects : {is : List ℕ} {t : Requests} (i : ℕ) → Reach is t → Reach (is ++ i ∷ []) (connect i t)
  writes :
      {is : List ℕ} {t : Requests} (i : ℕ) (ns : List ℕ)
      → Reach is t
      → Reach (is ++ i ∷ []) (write i ns t)
  shuts : {is : List ℕ} {t : Requests} (i : ℕ) → Reach is t → Reach (is ++ i ∷ []) (shutdown i t)
  disconnects : {is : List ℕ} {t : Requests} → Reach is t → Reach is (disconnect t)
  reports :
      {is : List ℕ} {t : Requests} (o : Option Problem) (answer : Option ℕ)
      → t.awaits ≡ backend
      → Reach is t
      → Reach is (complete o answer t)
  turns :
      {is : List ℕ} {t : Requests}
      → t.awaits ≡ next_turn
      → Reach is t
      → Reach is (complete (some not_connected) none t)
  expires : {is : List ℕ} {t : Requests} (i : ℕ) → Reach is t → Reach is (expire i t)
  resets : {is : List ℕ} {t : Requests} → Reach is t → Reach is (reset t)
  clears : {is : List ℕ} {t : Requests} → Reach is t → Reach is (clear t)
  reading :
      {is : List ℕ} {t : Requests} {s : Stream}
      → Reads t.stream s
      → Reach is t
      → Reach is (record t { stream = s })

-- What the timer of a shutdown request cancels is the front of the queue up to it.
pub before-split :
    (i : ℕ) (passed q p rs : List Req)
    → before i passed q ≡ some (p, rs)
    → passed ++ q ≡ p ++ shutdown_request i ∷ rs
unfolding before
before-split i passed [] p rs h = cc
before-split i passed (connect_request j ∷ q) p rs h =
    sym (append_assoc passed (connect_request j ∷ []) q)
    ∙ before-split i (passed ++ connect_request j ∷ []) q p rs h
before-split i passed (write_request j ns ∷ q) p rs h =
    sym (append_assoc passed (write_request j ns ∷ []) q)
    ∙ before-split i (passed ++ write_request j ns ∷ []) q p rs h
before-split i passed (disconnect_request ∷ q) p rs h =
    sym (append_assoc passed (disconnect_request ∷ []) q)
    ∙ before-split i (passed ++ disconnect_request ∷ []) q p rs h
before-split i passed (shutdown_request j ∷ q) p rs h = elim (Bool-cases (i == j)) [
  | inl same ↦
      let e : some (passed, q) ≡ some (p, rs) =
        ap (λ b. if b then some (passed, q) else before i (passed ++ shutdown_request j ∷ []) q)
          (sym same)
        ∙ h in
      let k : i ≡ j = (==_iff i j).0 same in cc
  | inr other ↦
      let e : before i (passed ++ shutdown_request j ∷ []) q ≡ some (p, rs) =
        ap (λ b. if b then some (passed, q) else before i (passed ++ shutdown_request j ∷ []) q)
          (sym other)
        ∙ h in
      sym (append_assoc passed (shutdown_request j ∷ []) q)
      ∙ before-split i (passed ++ shutdown_request j ∷ []) q p rs e
]

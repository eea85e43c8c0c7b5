-- ===== src/Tcp/Once.antt =====
-- How a connect request of a TCP stream ends (src/panda/unievent/Tcp.cc).
use uni_event.Base.{
  ℕ, ◌+◌, ◌≤◌, ◌≡◌, refl, sym, ap, ◌∙◌, Bool, true, false, Option, none, some, List, [], ◌∷◌, ◌++◌,
  if◌then◌else◌, length, arith, ◌&&◌, not,
}
use uni_event.Tcp.{
  Problem, canceled, timed_out, failed, resolve_error, is_canceled, TcpConnect, create, connect_now,
  connect_to, finalize_connect, exec, is_bad, finish, handle_event, Resolved, no_address, found,
  on_resolve,
}

-- The backend reports `o`; the timer fires; the next turn comes; the stream cancels the request.
pub data Reach : TcpConnect → Type 0 where
  started :
      (host cached timeout : Bool) (addr answer : Option ℕ)
      → Reach (exec answer (create host cached timeout addr))
  resolved :
      {r : TcpConnect} (v : Resolved) → r.resolve_request ≡ true → Reach r → Reach (on_resolve v r)
  connects :
      {r : TcpConnect} (o : Option Problem)
      → r.connecting ≡ true
      → Reach r
      → Reach (handle_event o r)
  turns :
      {r : TcpConnect} (p : Problem)
      → r.delayed ≡ some p
      → Reach r
      → Reach (handle_event (some p) r)
  fires : {r : TcpConnect} → r.timer ≡ true → Reach r → Reach (handle_event (some timed_out) r)
  cancels : {r : TcpConnect} → r.told ≡ [] → Reach r → Reach (handle_event (some canceled) r)

abbrev pub one : Bool → ℕ
one true = 1
one false = 0

abbrev pub some_one : Option Problem → ℕ
some_one none = 0
some_one (some p) = 1

-- What a request waits for.
abbrev pub waits : TcpConnect → ℕ
waits r = one r.resolve_request + (one r.connecting + some_one r.delayed)

-- The addresses that the events of a request mark.
abbrev pub marks : TcpConnect → List (Option Problem) → List (Option ℕ)
marks r [] = []
marks r (o ∷ os) = (if is_bad o r then r.addr ∷ [] else []) ++ marks r os

abbrev pub IsOnce : TcpConnect → Type 0
IsOnce r =
    (waits r + length r.told ≡ 1) × (one r.timer + length r.told ≤ 1) × (r.marked ≡ marks r r.told)

-- A request that has not been told of its end.
abbrev IsUntold : TcpConnect → Type 0
IsUntold r = (r.told ≡ []) × (r.marked ≡ [])

empty-length : (os : List (Option Problem)) → length os ≡ 0 → os ≡ []
empty-length [] e = refl
empty-length (o ∷ os) e = absurd (omega (arith, e))

untold : (r : TcpConnect) → IsOnce r → length r.told ≡ 0 → IsUntold r
untold r w e = let n = empty-length r.told e in (n, w.2 ∙ ap (marks r) n)

resolving-IsUntold : (r : TcpConnect) → IsOnce r → r.resolve_request ≡ true → IsUntold r
resolving-IsUntold r w e = let k = w.0 in untold r w (omega (arith, k, ap one e))

connecting-IsUntold : (r : TcpConnect) → IsOnce r → r.connecting ≡ true → IsUntold r
connecting-IsUntold r w e = let k = w.0 in untold r w (omega (arith, k, ap one e))

delayed-IsUntold : (r : TcpConnect) (p : Problem) → IsOnce r → r.delayed ≡ some p → IsUntold r
delayed-IsUntold r p w e = let k = w.0 in untold r w (omega (arith, k, ap some_one e))

timer-IsUntold : (r : TcpConnect) → IsOnce r → r.timer ≡ true → IsUntold r
timer-IsUntold r w e = let k = w.1 in untold r w (omega (arith, k, ap one e))

handle-IsOnce : (o : Option Problem) (r : TcpConnect) → IsUntold r → IsOnce (handle_event o r)
unfolding handle_event finish is_bad
handle-IsOnce none r u = rw u.0 (refl, omega arith, u.1)
handle-IsOnce (some p) r u =
    rw u.0 (refl, omega arith, go (not (is_canceled p) && r.host && r.cached))
  where
    go :
        (b : Bool)
        → (if b then r.marked ++ r.addr ∷ [] else r.marked) ≡ (if b then r.addr ∷ [] else []) ++ []
    go true = ap (λ l. l ++ r.addr ∷ []) u.1
    go false = u.1

one-bound : (b : Bool) → one b + 0 ≤ 1
one-bound true = omega arith
one-bound false = omega arith

exec-IsOnce :
    (host cached timeout : Bool) (addr answer : Option ℕ)
    → IsOnce (exec answer (create host cached timeout addr))
unfolding exec finalize_connect connect_to connect_now create
exec-IsOnce host cached timeout none answer = (refl, one-bound timeout, refl)
exec-IsOnce host cached timeout (some a) none = (refl, one-bound timeout, refl)
exec-IsOnce host cached timeout (some a) (some n) = (refl, one-bound timeout, refl)

resolved-IsOnce :
    (v : Resolved) (r : TcpConnect) → IsOnce r → r.resolve_request ≡ true → IsOnce (on_resolve v r)
unfolding on_resolve
resolved-IsOnce (no_address p) r w e =
    handle-IsOnce (some (resolve_error p)) (record r { resolve_request = false })
      (resolving-IsUntold r w e)
resolved-IsOnce (found a none) r w e =
    let u = resolving-IsUntold r w e in
    let k = w.0 in
    let after : TcpConnect = record r {
      resolve_request = false;
      addr = some a;
      connecting = true;
    } in
    (omega (arith, k, ap one e), w.1, u.1 ∙ ap (marks after) (sym u.0))
resolved-IsOnce (found a (some n)) r w e =
    handle-IsOnce (some (failed n)) (record r { resolve_request = false; addr = some a })
      (resolving-IsUntold r w e)

-- From its start on, a connect request of a TCP stream has in every state either exactly one thing that it
-- waits for, the resolver, the backend or its own delayed cancellation, or exactly one event behind it.
-- Its timer does not run behind the event. The address has been marked as bad exactly if the event
-- was an error other than a cancellation and the request has a host and uses the cache.
pub Reach-IsOnce : {r : TcpConnect} → Reach r → IsOnce r
Reach-IsOnce (started host cached timeout addr answer) = exec-IsOnce host cached timeout addr answer
Reach-IsOnce (resolved {r} v e h) = resolved-IsOnce v r (Reach-IsOnce h) e
Reach-IsOnce (connects {r} o e h) = handle-IsOnce o r (connecting-IsUntold r (Reach-IsOnce h) e)
Reach-IsOnce (turns {r} p e h) = handle-IsOnce (some p) r (delayed-IsUntold r p (Reach-IsOnce h) e)
Reach-IsOnce (fires {r} e h) =
    handle-IsOnce (some timed_out) r (timer-IsUntold r (Reach-IsOnce h) e)
Reach-IsOnce (cancels {r} e h) =
    let w = Reach-IsOnce h in handle-IsOnce (some canceled) r (e, w.2 ∙ ap (marks r) e)

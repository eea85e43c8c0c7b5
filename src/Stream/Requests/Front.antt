-- ===== src/Stream/Requests/Front.antt =====
-- What a stream is at while it has requests (src/panda/unievent/Stream.cc).
use uni_event.Base.{
  ℕ, ◌≡◌, refl, ap, ◌∙◌, Bool, true, false, ◌&&◌, Option, none, some, List, [], ◌∷◌, ◌++◌, inl, inr,
  if◌then◌else◌, length, ◌==◌,
}
use uni_event.Stream.{
  Stream, create, connecting_bit, established_bit, has, raise, write_queued, clear_state,
}
use uni_event.Stream.Flags.{establishes, clears, apply}
use uni_event.Stream.Requests.{
  Req, connect_request, write_request, shutdown_request, disconnect_request, Problem, canceled,
  timed_out, Requests, fresh, reset_stream, resume, push, connect, write, shutdown, disconnect,
  left, leave, cancel_all, reset, clear, connect_event, connected, happened, complete, is_empty,
  before, expired, expire,
}
use uni_event.Stream.Requests.Steps.{Reach, before-split}
use uni_event.Stream.Requests.Bits.{Linked, apply-Linked, set_connect_result-Linked, Reads-Linked}
use uni_event.Stream.Requests.Moves.{
  is_connect, Waiting, IsStarted, reset_stream-Linked, resume-IsStarted, push-IsStarted,
  leave-Linked, again-Linked, cancel_all-Linked, reset-IsStarted,
}

clear-IsStarted : (t : Requests) → IsStarted t → IsStarted (clear t)
unfolding clear resume clear_state apply
clear-IsStarted t w =
    let u = cancel_all t.queue t in
    (apply-Linked clears false u.stream.flags (cancel_all-Linked t.queue t w.0), refl)

connect_event-Linked :
    (o : Option Problem) (answer : Option ℕ) (s : Stream) (b : Bool)
    → Linked b s.flags
    → Linked false (connect_event o answer s).0.flags
unfolding connect_event
connect_event-Linked none answer s b w =
    set_connect_result-Linked b true answer (record s { flags = raise established_bit s.flags })
      (unfold apply in apply-Linked establishes b s.flags w)
connect_event-Linked (some p) answer s b w = set_connect_result-Linked b false none s w

connected-IsStarted :
    (i : ℕ) (rs : List Req) (t : Requests) (e : Stream × Option Problem)
    → Linked false e.0.flags
    → IsStarted (connected i rs t e)
unfolding connected left
connected-IsStarted i rs t (s, none) w =
    resume-IsStarted rs (left (connect_request i) none (record t { stream = s })) w
connected-IsStarted i rs t (s, some p) w =
    let u = left (connect_request i) (some p) (record t { stream = s }) in
    let v = cancel_all rs u in
    resume-IsStarted [] (reset_stream v) (reset_stream-Linked v false (again-Linked rs u w))

happened-IsStarted :
    (q : List Req) (o : Option Problem) (answer : Option ℕ) (t : Requests)
    → t.queue ≡ q
    → Linked (is_connect q) t.stream.flags × Waiting q t.awaits
    → IsStarted (happened q o answer t)
unfolding happened
happened-IsStarted [] o answer t e w = rw e w
happened-IsStarted (connect_request i ∷ rs) o answer t e w =
    connected-IsStarted i rs t (connect_event o answer t.stream)
      (connect_event-Linked o answer t.stream true w.0)
happened-IsStarted (write_request i ns ∷ rs) o answer t e w =
    resume-IsStarted rs (leave (write_request i ns) o t)
      (leave-Linked (write_request i ns) rs o t w.0)
happened-IsStarted (shutdown_request i ∷ rs) o answer t e w =
    resume-IsStarted rs (leave (shutdown_request i) o t)
      (leave-Linked (shutdown_request i) rs o t w.0)
happened-IsStarted (disconnect_request ∷ rs) o answer t e w = absurd w.1

complete-IsStarted :
    (o : Option Problem) (answer : Option ℕ) (t : Requests)
    → IsStarted t
    → IsStarted (complete o answer t)
unfolding complete
complete-IsStarted o answer t w = happened-IsStarted t.queue o answer t refl w

-- The queue up to a shutdown request, whose timer has fired.
passed-Linked :
    (i : ℕ) (p rs : List Req) (t : Requests)
    → Linked (is_connect (p ++ shutdown_request i ∷ rs)) t.stream.flags
    → Linked false (leave (shutdown_request i) (some timed_out) (cancel_all p t)).stream.flags
unfolding cancel_all
passed-Linked i [] rs t w = leave-Linked (shutdown_request i) rs (some timed_out) t w
passed-Linked i (r ∷ p) rs t w =
    let u : Requests = leave r (some canceled) t in
    leave-Linked (shutdown_request i) rs (some timed_out) (cancel_all p u)
      (again-Linked p u (leave-Linked r (p ++ shutdown_request i ∷ rs) (some canceled) t w))

expired-IsStarted :
    (i : ℕ) (x : Option (List Req × List Req)) (t : Requests)
    → before i [] t.queue ≡ x
    → IsStarted t
    → IsStarted (expired i x t)
unfolding expired
expired-IsStarted i none t e w = w
expired-IsStarted i (some (p, rs)) t e w =
    resume-IsStarted rs (leave (shutdown_request i) (some timed_out) (cancel_all p t))
      (passed-Linked i p rs t (w.0.0, w.0.1 ∙ ap is_connect (before-split i [] t.queue p rs e)))

expire-IsStarted : (i : ℕ) (t : Requests) → IsStarted t → IsStarted (expire i t)
unfolding expire
expire-IsStarted i t w = expired-IsStarted i (before i [] t.queue) t refl w

disconnect-IsStarted : (t : Requests) → IsStarted t → IsStarted (disconnect t)
unfolding disconnect
disconnect-IsStarted t w = go t.queue refl w
  where
    inner :
        (c : Bool) (r : Req) (rs : List Req)
        → Linked (is_connect (r ∷ rs)) t.stream.flags × Waiting (r ∷ rs) t.awaits
        → IsStarted (if c then reset t else push disconnect_request (r ∷ rs) t)
    inner true r rs v = reset-IsStarted t w
    inner false r rs v = push-IsStarted disconnect_request (r ∷ rs) t (inr (λ e. cc)) v

    go :
        (q : List Req)
        → t.queue ≡ q
        → Linked (is_connect q) t.stream.flags × Waiting q t.awaits
        → IsStarted (
            if is_empty q
            then reset_stream t
            else if length q == 1 && has connecting_bit t.stream.flags
            then reset t
            else push disconnect_request q t)
    go [] e v = let l = reset_stream-Linked t false v.0 in unfold reset_stream in rw e (l, v.1)
    go (r ∷ rs) e v = inner (length (r ∷ rs) == 1 && has connecting_bit t.stream.flags) r rs v

fresh-Linked : Linked false 0
unfolding has
fresh-Linked = (refl, refl)

-- In every state of a stream without filters: its connecting bit is set exactly while a connect request
-- is at the front of its queue; a request at the front waits for the backend or for its delayed
-- cancellation, and is no disconnect request; with no request nothing is waited for.
pub Reach-IsStarted : {is : List ℕ} {t : Requests} → Reach is t → IsStarted t
unfolding connect write shutdown write_queued fresh create
Reach-IsStarted Reach.created = (fresh-Linked, refl)
Reach-IsStarted (Reach.connects {t = t} i h) =
    push-IsStarted (connect_request i) t.queue t (inl (λ e. cc)) (Reach-IsStarted h)
Reach-IsStarted (Reach.writes {t = t} i ns h) =
    push-IsStarted (write_request i ns) t.queue (record t { stream = write_queued ns t.stream })
      (inl (λ e. cc)) (Reach-IsStarted h)
Reach-IsStarted (Reach.shuts {t = t} i h) =
    push-IsStarted (shutdown_request i) t.queue t (inl (λ e. cc)) (Reach-IsStarted h)
Reach-IsStarted (Reach.disconnects {t = t} h) = disconnect-IsStarted t (Reach-IsStarted h)
Reach-IsStarted (Reach.reports {t = t} o answer a h) =
    complete-IsStarted o answer t (Reach-IsStarted h)
Reach-IsStarted (Reach.turns {t = t} a h) = complete-IsStarted _ none t (Reach-IsStarted h)
Reach-IsStarted (Reach.expires {t = t} i h) = expire-IsStarted i t (Reach-IsStarted h)
Reach-IsStarted (Reach.resets {t = t} h) = reset-IsStarted t (Reach-IsStarted h)
Reach-IsStarted (Reach.clears {t = t} h) = clear-IsStarted t (Reach-IsStarted h)
Reach-IsStarted (Reach.reading {t = t} r h) =
    let w = Reach-IsStarted h in (Reads-Linked (is_connect t.queue) r w.0, w.1)

-- ===== src/Stream/Requests/Moves.antt =====
-- The front request of a stream under the parts of its operations (src/panda/unievent/Stream.cc).
use uni_event.Base.{
  ℕ, ◌≡◌, ◌≢◌, ◌⊎◌, refl, ◌∙◌, Bool, true, false, Option, none, some, List, [], ◌∷◌, inl, inr,
  if◌then◌else◌,
}
use uni_event.Stream.{
  Stream, out_connected_bit, shutting_bit, has, raise, lower, write_exec, sub_sizes, Started,
  handed_on, canceled_later, clear_out, reset_state,
}
use uni_event.Stream.Flags.{connects, shuts, ends_out, resets, shuts_down, apply}
use uni_event.Stream.Requests.{
  connect_exec, shutdown_exec, write_event, shutdown_event, Req, connect_request, write_request,
  shutdown_request, disconnect_request, Problem, canceled, Awaits, nobody, backend, next_turn,
  Requests, after_start, exec, started, reset_stream, buffers, resume, push, is_broken, succeeded,
  settle, left, leave, cancel_all, reset,
}
use uni_event.Stream.Requests.Bits.{Linked, apply-Linked, set_connect_result-Linked}

abbrev pub is_connect : List Req → Bool
is_connect [] = false
is_connect (connect_request i ∷ rs) = true
is_connect (write_request i ns ∷ rs) = false
is_connect (shutdown_request i ∷ rs) = false
is_connect (disconnect_request ∷ rs) = false

-- A request at the front waits for something, and is no disconnect request.
abbrev pub Waiting : List Req → Awaits → Type 0
Waiting [] a = a ≡ nobody
Waiting (disconnect_request ∷ rs) a = ⊥
Waiting (connect_request i ∷ rs) a = a ≢ nobody
Waiting (write_request i ns ∷ rs) a = a ≢ nobody
Waiting (shutdown_request i ∷ rs) a = a ≢ nobody

-- The connecting bit is set exactly while a connect request is at the front.
abbrev pub IsStarted : Requests → Type 0
IsStarted t = Linked (is_connect t.queue) t.stream.flags × Waiting t.queue t.awaits

backend-waits : backend ≢ nobody
backend-waits e = cc

turn-waits : next_turn ≢ nobody
turn-waits e = cc

write-IsStarted :
    (i : ℕ) (ns : List ℕ) (rs : List Req) (t : Requests)
    → Linked false t.stream.flags
    → IsStarted (started (exec (write_request i ns) t.stream) (write_request i ns ∷ rs) t)
unfolding started exec connect_exec shutdown_exec write_exec
write-IsStarted i ns rs t w = go (has out_connected_bit t.stream.flags)
  where
    go :
        (c : Bool)
        → let x : Stream × Started =
            if c
            then (record t.stream { wq_size = sub_sizes ns t.stream.wq_size }, handed_on)
            else (t.stream, canceled_later) in
          IsStarted (started (x.0, after_start x.1) (write_request i ns ∷ rs) t)
    go true = unfold started after_start in (w, backend-waits)
    go false = unfold started after_start in (w, turn-waits)

shutdown-IsStarted :
    (i : ℕ) (rs : List Req) (t : Requests)
    → Linked false t.stream.flags
    → IsStarted (started (exec (shutdown_request i) t.stream) (shutdown_request i ∷ rs) t)
unfolding started exec connect_exec shutdown_exec
shutdown-IsStarted i rs t w = go (has out_connected_bit t.stream.flags)
  where
    go :
        (c : Bool)
        → let x : Stream × Awaits =
            if c
            then (record t.stream { flags = raise shutting_bit t.stream.flags }, backend)
            else (t.stream, next_turn) in
          IsStarted (started x (shutdown_request i ∷ rs) t)
    go true = unfold started apply in (apply-Linked shuts false t.stream.flags w, backend-waits)
    go false = unfold started in (w, turn-waits)

pub reset_stream-Linked :
    (t : Requests) (b : Bool) → Linked b t.stream.flags → Linked false (reset_stream t).stream.flags
unfolding reset_stream reset_state apply lower
reset_stream-Linked t b w = apply-Linked resets b t.stream.flags w

pub resume-IsStarted :
    (rs : List Req) (t : Requests) → Linked false t.stream.flags → IsStarted (resume rs t)
unfolding resume
resume-IsStarted [] t w = (w, refl)
resume-IsStarted (connect_request i ∷ rs) t w =
    unfold exec connect_exec shutdown_exec started apply in
    (apply-Linked connects false t.stream.flags w, backend-waits)
resume-IsStarted (write_request i ns ∷ rs) t w = write-IsStarted i ns rs t w
resume-IsStarted (shutdown_request i ∷ rs) t w = shutdown-IsStarted i rs t w
resume-IsStarted (disconnect_request ∷ rs) t w =
    resume-IsStarted rs (record (reset_stream t) { forgotten = buffers rs })
      (reset_stream-Linked t false w)

pub push-IsStarted :
    (r : Req) (q : List Req) (t : Requests)
    → r ≢ disconnect_request ⊎ q ≢ []
    → Linked (is_connect q) t.stream.flags × Waiting q t.awaits
    → IsStarted (push r q t)
unfolding push resume
push-IsStarted (connect_request i) [] t n w = resume-IsStarted (connect_request i ∷ []) t w.0
push-IsStarted (write_request i ns) [] t n w = write-IsStarted i ns [] t w.0
push-IsStarted (shutdown_request i) [] t n w = shutdown-IsStarted i [] t w.0
push-IsStarted disconnect_request [] t (inl n) w = absurd (n refl)
push-IsStarted disconnect_request [] t (inr n) w = absurd (n refl)
push-IsStarted r (connect_request i ∷ q) t n w = w
push-IsStarted r (write_request i ns ∷ q) t n w = w
push-IsStarted r (shutdown_request i ∷ q) t n w = w
push-IsStarted r (disconnect_request ∷ q) t n w = w

-- A request that is told of something leaves a stream that does not connect.
pub settle-Linked :
    (r : Req) (o : Option Problem) (s : Stream) (b : Bool)
    → b ≡ false ⊎ (is_connect (r ∷ []) ≡ true)
    → Linked b s.flags
    → Linked false (settle r o s).flags
unfolding settle write_event shutdown_event
settle-Linked (connect_request i) o s b h w = set_connect_result-Linked b false none s w
settle-Linked (write_request i ns) o s b (inl h) w = go (is_broken o)
  where
    v : Linked false s.flags
    v = (w.0, w.1 ∙ h)

    go :
        (c : Bool)
        → let r : Stream = if c then record s { flags = clear_out s.flags } else s in
          Linked false r.flags
    go true = unfold apply in apply-Linked ends_out false s.flags v
    go false = v
settle-Linked (write_request i ns) o s b (inr h) w = cc
settle-Linked (shutdown_request i) o s b (inl h) w =
    unfold apply in apply-Linked (shuts_down (succeeded o)) false s.flags (w.0, w.1 ∙ h)
settle-Linked (shutdown_request i) o s b (inr h) w = cc
settle-Linked disconnect_request o s b (inl h) w = (w.0, w.1 ∙ h)
settle-Linked disconnect_request o s b (inr h) w = cc

-- The front of a queue, and what the connecting bit then is.
Front-cases :
    (r : Req) (rs : List Req) → (is_connect (r ∷ rs) ≡ false) ⊎ (is_connect (r ∷ []) ≡ true)
Front-cases (connect_request i) rs = inr refl
Front-cases (write_request i ns) rs = inl refl
Front-cases (shutdown_request i) rs = inl refl
Front-cases disconnect_request rs = inl refl

pub leave-Linked :
    (r : Req) (rs : List Req) (o : Option Problem) (t : Requests)
    → Linked (is_connect (r ∷ rs)) t.stream.flags
    → Linked false (leave r o t).stream.flags
unfolding leave left
leave-Linked r rs o t w = settle-Linked r o t.stream (is_connect (r ∷ rs)) (Front-cases r rs) w

pub again-Linked :
    (rs : List Req) (t : Requests)
    → Linked false t.stream.flags
    → Linked false (cancel_all rs t).stream.flags
unfolding cancel_all leave left
again-Linked [] t w = w
again-Linked (r ∷ rs) t w =
    again-Linked rs (leave r (some canceled) t)
      (settle-Linked r (some canceled) t.stream false (inl refl) w)

pub cancel_all-Linked :
    (rs : List Req) (t : Requests)
    → Linked (is_connect rs) t.stream.flags
    → Linked false (cancel_all rs t).stream.flags
unfolding cancel_all
cancel_all-Linked [] t w = w
cancel_all-Linked (r ∷ rs) t w =
    again-Linked rs (leave r (some canceled) t) (leave-Linked r rs (some canceled) t w)

pub reset-IsStarted : (t : Requests) → IsStarted t → IsStarted (reset t)
unfolding reset
reset-IsStarted t w =
    let u = cancel_all t.queue t in
    resume-IsStarted [] (reset_stream u)
      (reset_stream-Linked u false (cancel_all-Linked t.queue t w.0))

-- ===== src/Stream/Requests.antt =====
-- The requests of a stream without filters: connect, write, shutdown and disconnect of
-- src/panda/unievent/Stream.h and Stream.cc. The queue is the one of Queue.h between two calls of client
-- code: its front request is started.
pub mod Steps
pub mod Bits
pub mod Moves
pub mod Front
pub mod Bytes
pub mod Sums
pub mod Sizes
pub mod Answers
pub mod Failure
pub mod Forgotten
mod Tests
use uni_event.Base.{
  ℕ, Bool, true, false, Option, none, some, List, [], ◌∷◌, ◌++◌, ◌==◌, if◌then◌else◌, length, ◌&&◌,
}
use uni_event.Stream.{
  Stream, create, connecting_bit, established_bit, out_connected_bit, shutting_bit, has, raise,
  connect_flags, set_connect_result, clear_out, shutdown_done, reset_state, clear_state,
  write_queued, write_exec, Started, handed_on, canceled_later,
}

-- A request with its number, a write request with the lengths of its buffers. A disconnect request
-- has no callback, and no number.
pub data Req : Type 0 where
  connect_request shutdown_request : ℕ → Req
  write_request : ℕ → List ℕ → Req
  disconnect_request : Req

pub data Problem : Type 0 where
  canceled not_connected timed_out broken_pipe : Problem
  read_start_error failed : ℕ → Problem

-- What the front request waits for: the backend, or the cancellation that it has delayed.
pub data Awaits : Type 0 where
  nobody backend next_turn : Awaits

-- `answered` records the calls of callbacks, the latest last, and `lost` the writes that have left the
-- queue since the last reset without having been handed on; `forgotten` those that stood in the queue
-- when a disconnect request reset the stream. Both decide nothing.
pub record Requests : Type 0 where
  pub stream : Stream
  pub queue : List Req
  pub awaits : Awaits
  pub answered : List (ℕ × Option Problem)
  pub lost : List (List ℕ)
  pub forgotten : List (List ℕ)

pub fresh : Requests
unfolding create
fresh = record {
  stream = create;
  queue = [];
  awaits = nobody;
  answered = [];
  lost = [];
  forgotten = [];
}

pub after_start : Started → Awaits
after_start handed_on = backend
after_start canceled_later = next_turn

-- `ConnectRequest::exec`.
pub connect_exec : Stream → Stream × Awaits
unfolding raise
connect_exec s = (record s { flags = raise connecting_bit s.flags }, backend)

-- `ShutdownRequest::exec` and `finalize_shutdown`.
pub shutdown_exec : Stream → Stream × Awaits
unfolding has raise
shutdown_exec s =
    if has out_connected_bit s.flags
    then (record s { flags = raise shutting_bit s.flags }, backend)
    else (s, next_turn)

-- The `exec` of a request.
pub exec : Req → Stream → Stream × Awaits
unfolding connect_exec write_exec after_start shutdown_exec reset_state
exec (connect_request i) s = connect_exec s
exec (write_request i ns) s = let w = write_exec ns s in (w.0, after_start w.1)
exec (shutdown_request i) s = shutdown_exec s
exec disconnect_request s = (reset_state s, nobody)

pub started : Stream × Awaits → List Req → Requests → Requests
started (s, a) rs t = record t { stream = s; awaits = a; queue = rs }

-- `_reset` behind a cancellation or from a disconnect request.
pub reset_stream : Requests → Requests
unfolding reset_state
reset_stream t = record t { stream = reset_state t.stream; lost = []; forgotten = [] }

-- The write requests of a queue.
abbrev pub buffers : List Req → List (List ℕ)
buffers [] = []
buffers (write_request i ns ∷ rs) = ns ∷ buffers rs
buffers (connect_request i ∷ rs) = buffers rs
buffers (shutdown_request i ∷ rs) = buffers rs
buffers (disconnect_request ∷ rs) = buffers rs

-- `Queue::resume`: a disconnect request ends at once.
pub resume : List Req → Requests → Requests
unfolding started exec reset_stream
resume [] t = record t { queue = []; awaits = nobody }
resume (connect_request i ∷ rs) t =
    started (exec (connect_request i) t.stream) (connect_request i ∷ rs) t
resume (write_request i ns ∷ rs) t =
    started (exec (write_request i ns) t.stream) (write_request i ns ∷ rs) t
resume (shutdown_request i ∷ rs) t =
    started (exec (shutdown_request i) t.stream) (shutdown_request i ∷ rs) t
resume (disconnect_request ∷ rs) t = resume rs (record (reset_stream t) { forgotten = buffers rs })

-- `Queue::push`.
pub push : Req → List Req → Requests → Requests
unfolding started exec
push r [] t = started (exec r t.stream) (r ∷ []) t
push r (q ∷ qs) t = record t { queue = q ∷ qs ++ r ∷ [] }

pub connect : ℕ → Requests → Requests
unfolding push
connect i t = push (connect_request i) t.queue t

pub write : ℕ → List ℕ → Requests → Requests
unfolding push write_queued
write i ns t = push (write_request i ns) t.queue (record t { stream = write_queued ns t.stream })

pub shutdown : ℕ → Requests → Requests
unfolding push
shutdown i t = push (shutdown_request i) t.queue t

pub is_broken : Option Problem → Bool
is_broken (some broken_pipe) = true
is_broken _ = false

pub succeeded : Option Problem → Bool
succeeded none = true
succeeded (some p) = false

-- `WriteRequest::handle_event` on the stream.
pub write_event : Option Problem → Stream → Stream
unfolding is_broken clear_out
write_event o s = if is_broken o then record s { flags = clear_out s.flags } else s

-- `finalize_handle_shutdown` on the stream.
pub shutdown_event : Option Problem → Stream → Stream
unfolding shutdown_done succeeded
shutdown_event o s = record s { flags = shutdown_done (succeeded o) s.flags }

-- What the event of a request changes in the stream; of a connect request, the event of an error.
pub settle : Req → Option Problem → Stream → Stream
unfolding set_connect_result write_event shutdown_event
settle (connect_request i) o s = (set_connect_result false none s).0
settle (write_request i ns) o s = write_event o s
settle (shutdown_request i) o s = shutdown_event o s
settle disconnect_request o s = s

-- The call of the callback.
pub told : Req → Option Problem → List (ℕ × Option Problem)
told (connect_request i) o = (i, o) ∷ []
told (write_request i ns) o = (i, o) ∷ []
told (shutdown_request i) o = (i, o) ∷ []
told disconnect_request o = []

-- The buffers of a write request that leaves the queue before it has been handed on.
pub skipped : Req → Awaits → List (List ℕ)
skipped (write_request i ns) backend = []
skipped (write_request i ns) _ = ns ∷ []
skipped _ a = []

-- `Queue::done` for the front request, up to `resume`.
pub left : Req → Option Problem → Requests → Requests
unfolding told skipped
left r o t = record t {
  awaits = nobody;
  answered = t.answered ++ told r o;
  lost = t.lost ++ skipped r t.awaits;
}

-- An event for the front request, up to `resume`; `handle_event` with the result, or `cancel`.
pub leave : Req → Option Problem → Requests → Requests
unfolding left settle
leave r o t = left r o (record t { stream = settle r o t.stream })

-- The loop of `Queue::cancel`.
pub cancel_all : List Req → Requests → Requests
unfolding leave
cancel_all [] t = t
cancel_all (r ∷ rs) t = cancel_all rs (leave r (some canceled) t)

pub reset : Requests → Requests
unfolding cancel_all reset_stream resume
reset t = resume [] (reset_stream (cancel_all t.queue t))

pub clear : Requests → Requests
unfolding cancel_all clear_state resume
clear t =
    let u = cancel_all t.queue t in
    resume [] (record u { stream = clear_state u.stream; lost = []; forgotten = [] })

-- `!queue.size()`.
abbrev pub is_empty : List Req → Bool
is_empty [] = true
is_empty (r ∷ rs) = false

pub disconnect : Requests → Requests
unfolding reset_stream reset push has
disconnect t =
    if is_empty t.queue
    then reset_stream t
    else if length t.queue == 1 && has connecting_bit t.stream.flags
    then reset t
    else push disconnect_request t.queue t

-- The status of a connect that succeeds, of what the start of the reading gives.
pub read_error : Option ℕ → Option Problem
read_error none = none
read_error (some e) = some (read_start_error e)

-- `ConnectRequest::handle_event` and `finalize_handle_connect` on the stream, with the status that the
-- callbacks get. `answer` is what the backend answers to the start of the reading.
pub connect_event : Option Problem → Option ℕ → Stream → Stream × Option Problem
unfolding set_connect_result raise read_error
connect_event none answer s =
    let r = set_connect_result true answer (record s { flags = raise established_bit s.flags }) in
    (r.0, read_error r.1)
connect_event (some p) answer s = ((set_connect_result false none s).0, some p)

-- What follows in `finalize_handle_connect`: on an error everything is cancelled.
pub connected : ℕ → List Req → Requests → Stream × Option Problem → Requests
unfolding left resume reset_stream cancel_all
connected i rs t (s, none) = resume rs (left (connect_request i) none (record t { stream = s }))
connected i rs t (s, some p) =
    resume []
      (reset_stream (cancel_all rs (left (connect_request i) (some p) (record t { stream = s }))))

pub happened : List Req → Option Problem → Option ℕ → Requests → Requests
unfolding connected connect_event resume leave
happened [] o answer t = t
happened (connect_request i ∷ rs) o answer t = connected i rs t (connect_event o answer t.stream)
happened (write_request i ns ∷ rs) o answer t = resume rs (leave (write_request i ns) o t)
happened (shutdown_request i ∷ rs) o answer t = resume rs (leave (shutdown_request i) o t)
happened (disconnect_request ∷ rs) o answer t = t

-- The front request is told of its result, by the backend or by a cancellation.
pub complete : Option Problem → Option ℕ → Requests → Requests
unfolding happened
complete o answer t = happened t.queue o answer t

-- The timer of a shutdown request: what stands before it is cancelled, and it is told that the time
-- is over.
pub before : ℕ → List Req → List Req → Option (List Req × List Req)
before i passed [] = none
before i passed (shutdown_request j ∷ rs) =
    if i == j then some (passed, rs) else before i (passed ++ shutdown_request j ∷ []) rs
before i passed (r ∷ rs) = before i (passed ++ r ∷ []) rs

pub expired : ℕ → Option (List Req × List Req) → Requests → Requests
unfolding resume leave cancel_all
expired i none t = t
expired i (some (passed, rs)) t =
    resume rs (leave (shutdown_request i) (some timed_out) (cancel_all passed t))

pub expire : ℕ → Requests → Requests
unfolding expired before
expire i t = expired i (before i [] t.queue) t

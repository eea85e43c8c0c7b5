-- ===== src/SslFilter.antt =====
-- The handshake of a TLS filter, src/panda/unievent/ssl/SslFilter.h and SslFilter.cc. What OpenSSL and
-- the stream answer are arguments. A callback may reset the stream; its writes are other runs of `write`.
pub mod Answers
pub mod Handshakes
pub mod Reads
pub mod Sound
mod Tests
use uni_event.Base.{
  ℕ, zero, suc, ◌+◌, Bool, true, false, not, ◌&&◌, ◌||◌, Option, none, some, List, [], ◌∷◌, ◌++◌,
  ◌==◌, if◌then◌else◌,
}

pub data State : Type 0 where
  initial negotiating error terminal : State

pub data Profile : Type 0 where
  unknown server client : Profile

-- A nested code is one with `errc::ssl_error` around it.
pub data ErrorCode : Type 0 where
  success : ErrorCode
  code : ℕ → ErrorCode
  nested : ErrorCode → ErrorCode

-- What the filter does, with the numbers of the requests. The calls `NextFilter::handle_connect`,
-- `handle_connection` of the filter that listens, `handle_read`, `handle_eof` and `handle_write` of the
-- next filter; its writes below, under their parent; and, to read the record, the requests that come, those
-- that a reset drops, those for which the filter that listens is gone, and a negotiation on a handle
-- that is connected already.
pub data Event : Type 0 where
  came : ℕ → Event
  was_reset : Option ℕ → Event
  connected connection lost : ErrorCode → Option ℕ → Event
  refused : ErrorCode → ℕ → Event
  read_data : List ℕ → Event
  read_as_is : List ℕ → ErrorCode → Event
  read_error : ErrorCode → Event
  ended : Event
  handshake_write : ℕ → List ℕ → Bool → Event
  data_write : ℕ → List (List ℕ) → Event
  write_failed : ℕ → ErrorCode → Event
  written : ErrorCode → ℕ → Event
  reading_started reading_stopped renegotiated : Event

-- `events` has the newest first. `broken` is set where the code follows a null pointer, and `asserted`
-- is false after a failed assertion; both decide nothing.
pub record SslFilter : Type 0 where
  pub state : State
  pub profile : Profile
  pub source_request : Option ℕ
  pub has_server : Bool
  pub events : List Event
  pub broken : Bool
  pub asserted : Bool

pub create : Bool → SslFilter
create accepted = record {
  state = initial;
  profile = unknown;
  source_request = none;
  has_server = accepted;
  events = [];
  broken = false;
  asserted = true;
}

abbrev pub log : Event → SslFilter → SslFilter
log e f = record f { events = e ∷ f.events }

abbrev pub checked : Bool → SslFilter → SslFilter
checked b f = record f { asserted = f.asserted && b }

abbrev pub is_state : State → State → Bool
is_state initial initial = true
is_state negotiating negotiating = true
is_state error error = true
is_state terminal terminal = true
is_state _ _ = false

abbrev pub is_error : ErrorCode → Bool
is_error success = false
is_error _ = true

-- SSL_ERROR_WANT_READ, SSL_ERROR_WANT_WRITE, SSL_ERROR_ZERO_RETURN and SSL_ERROR_SSL.
abbrev pub want_read : ℕ
want_read = 2

abbrev pub want_write : ℕ
want_write = 3

abbrev pub zero_return : ℕ
zero_return = 6

abbrev pub connection_aborted : ErrorCode
connection_aborted = code 103

pub nest_ssl_error : ErrorCode → ErrorCode
nest_ssl_error err = if is_error err then nested err else err

pub reset : SslFilter → SslFilter
reset f = if is_state f.state initial then f else record f {
  source_request = none;
  state = initial;
  events = was_reset f.source_request ∷ f.events;
}

-- A callback, which resets the stream or does not.
pub react : Bool → SslFilter → SslFilter
unfolding reset
react resets f = if resets then reset f else f

-- The end of `negotiation_finished`, for the request that was moved out of the filter.
pub answer : Profile → Bool → ErrorCode → Option ℕ → SslFilter → SslFilter
unfolding react nest_ssl_error
answer client resets err req f = react resets (log (connected (nest_ssl_error err) req) f)
answer _ resets err req f =
    if f.has_server
    then react resets (log (connection (nest_ssl_error err) req) f)
    else log (lost (nest_ssl_error err) req) f

-- `is_connected` is `handle->connected()`.
pub negotiation_finished : Bool → Bool → ErrorCode → SslFilter → SslFilter
unfolding answer
negotiation_finished is_connected resets err f =
    if is_state f.state terminal || is_state f.state error
    then f
    else if is_connected
    then record f { state = terminal; events = renegotiated ∷ f.events }
    else answer f.profile resets err f.source_request (record f {
      events = reading_stopped ∷ f.events;
      state = if is_error err then error else terminal;
      source_request = none;
    })

-- What a call of `negotiate` meets: the result of `read_start`; the code of `SSL_get_error` with what
-- `make_ssl_error_code` makes of it, where the handshake gives 0 or less; what it wrote; whether it is
-- finished before and after, with the data pending; and the handle, whose callback may reset it.
pub record Handshake : Type 0 where
  pub renegotiate : Bool
  pub init_finished : Bool
  pub connecting : Bool
  pub start_error : ErrorCode
  pub result : Option (ℕ × ErrorCode)
  pub write_buf : List ℕ
  pub finished : Bool
  pub pending : ℕ
  pub is_connected : Bool
  pub resets : Bool

-- `subreq_write(source_request, wreq)`, which follows the pointer to the request.
pub subreq_write : List ℕ → Bool → SslFilter → SslFilter
subreq_write buf final f = elim f.source_request [
  | none ↦ record f { broken = true }
  | some r ↦ log (handshake_write r buf final) f
]

-- `negotiate` behind the handshake, with what it wrote.
pub after_handshake : Handshake → List ℕ → SslFilter → SslFilter × ℕ
unfolding subreq_write negotiation_finished
after_handshake h [] f =
    if h.finished
    then (negotiation_finished h.is_connected h.resets success f, h.pending)
    else (f, 0)
after_handshake h (c ∷ cs) f = (subreq_write (c ∷ cs) h.finished f, 0)

pub fatal : ℕ → Bool
fatal c = not (c == want_read) && not (c == want_write)

pub handshake_result : Handshake → Option (ℕ × ErrorCode) → SslFilter → SslFilter × ℕ
unfolding after_handshake fatal
handshake_result h none f = after_handshake h h.write_buf f
handshake_result h (some (c, err)) f =
    if fatal c
    then (negotiation_finished h.is_connected h.resets err f, 0)
    else after_handshake h h.write_buf f

pub negotiate : Handshake → SslFilter → SslFilter × ℕ
unfolding handshake_result
negotiate h f =
    let start = checked ((not h.init_finished && h.connecting) || h.renegotiate) f in
    let g = record start { state = negotiating; events = reading_started ∷ f.events } in
    if is_error h.start_error
    then (negotiation_finished h.is_connected h.resets h.start_error g, 0)
    else handshake_result h h.result g

pub start_ssl_connection : Profile → Handshake → SslFilter → SslFilter
unfolding negotiate
start_ssl_connection p h f = (negotiate h (record f { profile = p })).0

pub handle_connect : ErrorCode → ℕ → Handshake → SslFilter → SslFilter
unfolding start_ssl_connection reset
handle_connect err req h f =
    let g = log (came req) (reset f) in
    if is_error err
    then react h.resets (log (connected err (some req)) g)
    else start_ssl_connection client h (record g { source_request = some req })

-- The filter of a client that was accepted.
pub accept_filter : ℕ → Handshake → SslFilter
unfolding start_ssl_connection create
accept_filter req h =
    start_ssl_connection server h
      (record (log (came req) (create true)) { source_request = some req })

-- The filter that listens, and the one of the client where there is one.
pub handle_connection : ErrorCode → ℕ → Handshake → SslFilter → SslFilter × Option SslFilter
unfolding accept_filter
handle_connection err req h f =
    if is_error err then (log (refused err req) f, none) else (f, some (accept_filter req h))

-- A read of `SSL_read` with what its callback does.
pub record Piece : Type 0 where
  pub data_read : List ℕ
  pub resets : Bool
  pub wantread : Bool

-- What a call of `handle_read` meets. `reads` are those that give data, one after the other, and
-- `read_code` is the code of the one that gives none, with what `make_ssl_error_code` makes of it and
-- what it leaves to write.
pub record Reading : Type 0 where
  pub encbuf : List ℕ
  pub err : ErrorCode
  pub connecting : Bool
  pub is_connected : Bool
  pub init_finished : Bool
  pub in_buffer : ℕ
  pub handshake : Handshake
  pub reads : List Piece
  pub read_code : ℕ
  pub code_error : ErrorCode
  pub write_buf : List ℕ

-- What follows the loop of `handle_read`.
pub read_end : Reading → SslFilter → SslFilter
unfolding subreq_write nest_ssl_error
read_end r f =
    if r.read_code == want_read
    then f
    else if r.read_code == zero_return
    then log ended f
    else if r.read_code == want_write
    then subreq_write r.write_buf false f
    else log (read_error (nest_ssl_error r.code_error)) f

pub read_loop : Reading → List Piece → SslFilter → SslFilter
unfolding read_end react
read_loop r [] f = if is_state f.state initial then f else read_end r f
read_loop r (p ∷ ps) f =
    let g = react p.resets (log (read_data p.data_read) f) in
    let rest = read_loop r ps g in
    if is_state f.state initial then f else if p.wantread then rest else g

-- The data is decrypted unless none is pending or the handshake waits for its last write.
pub read_pending : Reading → SslFilter × ℕ → SslFilter
unfolding read_loop
read_pending r (f, zero) = f
read_pending r (f, suc n) = if is_state f.state negotiating then f else read_loop r r.reads f

pub read_failed : Reading → SslFilter → SslFilter
unfolding negotiation_finished
read_failed r f =
    if not r.connecting
    then f
    else if not r.init_finished
    then negotiation_finished r.is_connected r.handshake.resets r.err f
    else log (read_as_is r.encbuf r.err) f

abbrev pub size : List ℕ → ℕ
size [] = 0
size (c ∷ cs) = suc (size cs)

pub handle_read : Reading → SslFilter → SslFilter
unfolding read_failed read_pending negotiate
handle_read r f =
    let g = checked (r.connecting || r.is_connected) f in
    if is_state f.state error
    then log (read_as_is r.encbuf r.err) f
    else if is_error r.err
    then read_failed r g
    else if not r.init_finished
    then read_pending r (negotiate r.handshake g)
    else read_pending r (g, r.in_buffer + size r.encbuf)

-- The loop of `write` over the buffers, with what `SSL_write` gives for each of them: none fails.
pub encrypt : List (List ℕ × Option (List ℕ)) → Option (List (List ℕ))
encrypt [] = some []
encrypt (([], o) ∷ bs) = encrypt bs
encrypt ((c ∷ cs, none) ∷ bs) = none
encrypt ((c ∷ cs, some buf) ∷ bs) = elim (encrypt bs) [
  | none ↦ none
  | some rest ↦ some (buf ∷ rest)
]

-- The error is `make_ssl_error_code(SSL_ERROR_SSL)`, given with a delay.
pub write : List (List ℕ × Option (List ℕ)) → ErrorCode → ℕ → SslFilter → SslFilter
unfolding encrypt
write bufs err req f = elim (encrypt bufs) [
  | none ↦ log (write_failed req (nest_ssl_error err)) (checked (is_state f.state terminal) f)
  | some out ↦ log (data_write req out) (checked (is_state f.state terminal) f)
]

-- `orig` is the request that the data is of, or none for the handshake; then comes the flag `final`.
pub handle_write : ErrorCode → Option ℕ → Bool → Reading → SslFilter → SslFilter
unfolding handle_read negotiation_finished
handle_write err (some orig) final r f = log (written err orig) f
handle_write err none final r f =
    let g = negotiation_finished r.is_connected r.handshake.resets err f in
    let fake = handle_read (record r { encbuf = []; err = success }) g in
    if is_error err
    then g
    else if not final
    then f
    else if not (r.in_buffer == 0) && f.has_server
    then fake
    else g

pub handle_eof : Bool → Bool → SslFilter → SslFilter
unfolding negotiation_finished
handle_eof is_connected resets f =
    if is_state f.state terminal
    then log ended f
    else if is_state f.state negotiating
    then negotiation_finished is_connected resets connection_aborted f
    else f

-- ===== src/Tcp.antt =====
-- The connect request of a TCP stream without filters, src/panda/unievent/Tcp.h and Tcp.cc, from its start
-- to its event. What the stream makes of the event is in Stream/Requests.antt.
pub mod Once
mod Tests
use uni_event.Base.{
  ℕ, Bool, true, false, ◌&&◌, not, Option, none, some, List, [], ◌∷◌, ◌++◌, if◌then◌else◌,
}

pub data Problem : Type 0 where
  canceled timed_out : Problem
  failed : ℕ → Problem
  resolve_error : Problem → Problem

-- `err & operation_canceled`, which looks into the causes as well.
pub is_canceled : Problem → Bool
is_canceled canceled = true
is_canceled timed_out = false
is_canceled (failed n) = false
is_canceled (resolve_error p) = is_canceled p

-- An address is a number. `resolve_request` tells whether there is one, `timer` whether the timer runs,
-- `connecting` whether the backend connects, and `delayed` is the cancellation for the next turn.
-- `told` records the events for the stream and `marked` the calls of `mark_bad_address`.
pub record TcpConnect : Type 0 where
  pub host : Bool
  pub cached : Bool
  pub timeout : Bool
  pub addr : Option ℕ
  pub timer : Bool
  pub resolve_request : Bool
  pub connecting : Bool
  pub delayed : Option Problem
  pub told : List (Option Problem)
  pub marked : List (Option ℕ)

-- A request with its parameters.
pub create : Bool → Bool → Bool → Option ℕ → TcpConnect
create host cached timeout addr = record {
  host = host;
  cached = cached;
  timeout = timeout;
  addr = addr;
  timer = false;
  resolve_request = false;
  connecting = false;
  delayed = none;
  told = [];
  marked = [];
}

-- The call of the backend, whose answer is an argument, when the address is there at the start.
pub connect_now : Option ℕ → TcpConnect → TcpConnect
connect_now none r = record r { connecting = true }
connect_now (some e) r = record r { delayed = some (failed e) }

pub connect_to : Option ℕ → Option ℕ → TcpConnect → TcpConnect
unfolding connect_now
connect_to (some a) answer r = connect_now answer r
connect_to none answer r = record r { resolve_request = true }

pub finalize_connect : Option ℕ → TcpConnect → TcpConnect
unfolding connect_to
finalize_connect answer r = connect_to r.addr answer r

pub exec : Option ℕ → TcpConnect → TcpConnect
unfolding finalize_connect
exec answer r = finalize_connect answer (record r { timer = r.timeout })

-- Whether the address is marked as bad.
pub is_bad : Option Problem → TcpConnect → Bool
unfolding is_canceled
is_bad none r = false
is_bad (some p) r = not (is_canceled p) && r.host && r.cached

-- What the stream does with the event: the timer stops, and the request is done.
pub finish : Option Problem → TcpConnect → TcpConnect
finish o r = record r { timer = false; connecting = false; delayed = none; told = r.told ++ o ∷ [] }

pub handle_event : Option Problem → TcpConnect → TcpConnect
unfolding is_bad finish
handle_event o r = finish o (record r {
  marked = if is_bad o r then r.marked ++ r.addr ∷ [] else r.marked;
  resolve_request = false;
})

-- The callback of the resolve request, with an error, or with an address and the backend's answer.
pub data Resolved : Type 0 where
  no_address : Problem → Resolved
  found : ℕ → Option ℕ → Resolved

pub on_resolve : Resolved → TcpConnect → TcpConnect
unfolding handle_event
on_resolve (no_address p) r =
    handle_event (some (resolve_error p)) (record r { resolve_request = false })
on_resolve (found a none) r = record r { resolve_request = false; addr = some a; connecting = true }
on_resolve (found a (some e)) r =
    handle_event (some (failed e)) (record r { resolve_request = false; addr = some a })

-- ===== src/Udp.antt =====
-- The requests to send of src/panda/unievent/Udp.h and Udp.cc, and the size of the send queue. The queue
-- is the one of Queue.h between two calls of client code: its front request is started.
pub mod Sizes
mod Tests
use uni_event.Base.{ℕ, zero, suc, Option, none, some, List, [], ◌∷◌, ◌++◌}
use uni_event.Stream.{bytes, add_sizes, sub_sizes}

-- A request is the lengths of its buffers. `unsent` records the requests that a
-- reset took from the queue before they were started.
pub record Udp : Type 0 where
  pub sending : Option (List ℕ)
  pub waiting : List (List ℕ)
  pub sq_size : ℕ  -- size_t
  pub unsent : List (List ℕ)

pub create : Udp
create = record { sending = none; waiting = []; sq_size = 0; unsent = [] }

-- `SendRequest::exec`, which makes the request the one under way.
pub send_exec : List ℕ → Udp → Udp
send_exec r u = record u { sending = some r; sq_size = sub_sizes r u.sq_size }

pub push : List ℕ → Option (List ℕ) → Udp → Udp
unfolding send_exec
push r none u = send_exec r u
push r (some q) u = record u { waiting = u.waiting ++ r ∷ [] }

pub send : List ℕ → Udp → Udp
unfolding push
send r u = push r u.sending (record u { sq_size = add_sizes r u.sq_size })

-- The next request is started when the one under way is done, with an error or without.
pub resume : List (List ℕ) → Udp → Udp
unfolding send_exec
resume [] u = record u { sending = none }
resume (r ∷ rs) u = send_exec r (record u { waiting = rs })

pub handle_event : Udp → Udp
unfolding resume
handle_event u = resume u.waiting u

-- `reset` and `clear` cancel all requests.
pub reset : Udp → Udp
reset u = record u { sending = none; waiting = []; unsent = u.unsent ++ u.waiting }

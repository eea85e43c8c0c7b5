-- ===== src/Streamer/Ends.antt =====
-- The ends of a streamer that are streams, src/panda/unievent/streamer/Stream.h and Stream.cc. The calls
-- of the stream are those of Stream.antt, with the answers of the backend as arguments; a listener is a
-- number, and so is a request.
pub mod Restored
pub mod Reports
mod Tests
use uni_event.Base.{
  ℕ, Bool, true, false, not, ◌&&◌, Option, none, some, List, [], ◌∷◌, ◌++◌, ◌==◌, if◌then◌else◌,
}
use uni_event.Stream.{Stream, wantread, read_start, read_stop}

-- The stream with its listener, and the fields of the streamer's end.
pub record StreamInput : Type 0 where
  pub stream : Stream
  pub listener : Option ℕ
  pub prev_lst : Option ℕ
  pub prev_wantread : Bool

pub input_create : Stream → Option ℕ → StreamInput
input_create s listener = record {
  stream = s;
  listener = listener;
  prev_lst = none;
  prev_wantread = false;
}

-- The result of `read_start` in `start`.
pub input_started : ℕ → Stream × Option ℕ → StreamInput → StreamInput × Option ℕ
input_started self (s, none) i = (record i { stream = s; listener = some self }, none)
input_started self (s, some e) i = (record i { stream = s }, some e)

pub input_start : ℕ → Option ℕ → StreamInput → StreamInput × Option ℕ
unfolding input_started
input_start self answer i =
    input_started self (read_start answer i.stream)
      (record i { prev_lst = i.listener; prev_wantread = wantread i.stream })

pub input_stop : Option ℕ → StreamInput → StreamInput
input_stop answer i =
    let s = if i.prev_wantread then (read_start answer i.stream).0 else read_stop i.stream in
    record i { stream = s; listener = i.prev_lst }

pub start_reading : Option ℕ → StreamInput → StreamInput × Option ℕ
start_reading answer i = let r = read_start answer i.stream in (record i { stream = r.0 }, r.1)

pub stop_reading : StreamInput → StreamInput
stop_reading i = record i { stream = read_stop i.stream }

-- `given` records what `handle_write` of the streamer is called with.
pub record StreamOutput : Type 0 where
  pub listener : Option ℕ
  pub prev_lst : Option ℕ
  pub first_wreq : Option ℕ
  pub handle_write_started : Bool
  pub given : List (Option ℕ)

pub output_create : Option ℕ → StreamOutput
output_create listener = record {
  listener = listener;
  prev_lst = none;
  first_wreq = none;
  handle_write_started = false;
  given = [];
}

pub output_start : ℕ → StreamOutput → StreamOutput
output_start self o = record o { prev_lst = o.listener; listener = some self }

-- `wreq` is the request that the stream makes.
pub output_write : ℕ → StreamOutput → StreamOutput
output_write wreq o = elim o.first_wreq [ none ↦ record o { first_wreq = some wreq } | some r ↦ o ]

-- `wreq == first_wreq`.
pub is_first : ℕ → Option ℕ → Bool
is_first wreq none = false
is_first wreq (some r) = wreq == r

pub on_write : Option ℕ → ℕ → StreamOutput → StreamOutput
unfolding is_first
on_write err wreq o =
    if not o.handle_write_started && not (is_first wreq o.first_wreq)
    then o
    else record o { handle_write_started = true; given = o.given ++ err ∷ [] }

pub output_stop : StreamOutput → StreamOutput
output_stop o = record o { listener = o.prev_lst; first_wreq = none; handle_write_started = false }

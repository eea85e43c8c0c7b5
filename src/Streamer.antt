-- ===== src/Streamer.antt =====
-- The streamer of src/panda/unievent/Streamer.h and Streamer.cc. What the input and the output
-- answer is an argument of each call, and the calls that the streamer makes are recorded.
pub mod Flow
pub mod Ending
mod Tests
pub mod File
pub mod Ends
use uni_event.Base.{
  ℕ, ◌+◌, ◌*◌, ◌/◌, ◌%◌, Bool, true, false, not, ◌&&◌, Option, none, some, List, [], ◌∷◌, ◌++◌, leb,
  ◌==◌, if◌then◌else◌,
}

-- An error of the streamer: `nest_error(streamer_errc::…, err)` or a cancellation.
pub data Error : Type 0 where
  read_error write_error : ℕ → Error
  canceled : Error

pub data Call : Type 0 where
  input_start input_stop start_reading stop_reading output_start output_stop output_write : Call
  finish_event : Option Error → Call

pub record Streamer : Type 0 where
  pub max_buf : ℕ  -- size_t
  pub thr_buf : ℕ  -- size_t
  pub nread : ℕ  -- size_t
  pub nwrite : ℕ  -- size_t
  pub started : Bool
  pub inread : Bool
  pub eof : Bool
  pub calls : List Call

-- The answers: error codes, none for success, and the size of the output's queue.
pub record Peer : Type 0 where
  pub input_starts : Option ℕ
  pub output_starts : Option ℕ
  pub writes : Option ℕ
  pub restarts : Option ℕ
  pub write_queue_size : ℕ

abbrev pub word : ℕ
word = 18446744073709551616

-- The constructor.
pub create : ℕ → Streamer
create max_buf = record {
  max_buf = max_buf;
  thr_buf = max_buf * 2 % word / 3;
  nread = 0;
  nwrite = 0;
  started = false;
  inread = true;
  eof = false;
  calls = [];
}

pub call : Call → Streamer → Streamer
call c s = record s { calls = s.calls ++ c ∷ [] }

pub finish : Option Error → Streamer → Streamer
unfolding call
finish err s =
    if s.started
    then call (finish_event err) (record (call output_stop (call input_stop s)) {
      started = false;
      inread = true;
      eof = false;
      nread = 0;
      nwrite = 0;
    })
    else s

-- `output->start`, once the input has started.
pub start_output : Option ℕ → Streamer → Streamer
unfolding call
start_output none s = record (call output_start s) { started = true }
start_output (some e) s =
    call (finish_event (some (write_error e))) (call input_stop (call output_start s))

pub start_input : Peer → Option ℕ → Streamer → Streamer
unfolding call start_output
start_input p none s = start_output p.output_starts (call input_start s)
start_input p (some e) s = call (finish_event (some (read_error e))) (call input_start s)

pub start : Peer → Streamer → Streamer
unfolding start_input
start p s = start_input p p.input_starts s

pub stop : Streamer → Streamer
unfolding finish
stop s = finish (some canceled) s

-- `handle_read` behind `output->write`.
pub written : Peer → Option ℕ → Streamer → Streamer
unfolding finish call
written p (some e) s = finish (some (write_error e)) s
written p none s =
    if not (s.max_buf == 0) && leb s.max_buf p.write_queue_size
    then record (call stop_reading s) { inread = false }
    else s

pub handle_read : Peer → Option ℕ → Streamer → Streamer
unfolding finish call written
handle_read p (some e) s = finish (some (read_error e)) s
handle_read p none s =
    written p p.writes (call output_write (record s { nread = (s.nread + 1) % word }))

-- `handle_write` behind `input->start_reading`.
pub restarted : Option ℕ → Streamer → Streamer
unfolding finish
restarted (some e) s = finish (some (read_error e)) s
restarted none s = record s { inread = true }

-- `handle_write` behind the count.
pub after_write : Peer → Streamer → Streamer
unfolding finish call restarted
after_write p s =
    if s.eof && s.nwrite == s.nread
    then finish none s
    else if not s.inread && leb p.write_queue_size s.thr_buf
    then restarted p.restarts (call start_reading s)
    else s

pub handle_write : Peer → Option ℕ → Streamer → Streamer
unfolding finish after_write
handle_write p (some e) s = finish (some (write_error e)) s
handle_write p none s = after_write p (record s { nwrite = (s.nwrite + 1) % word })

pub handle_eof : Streamer → Streamer
unfolding finish
handle_eof s = if s.nwrite == s.nread then finish none s else record s { eof = true }

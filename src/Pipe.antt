-- ===== src/Pipe.antt =====
-- Opening a pipe from a descriptor, src/panda/unievent/Pipe.cc, over the flags of Stream.antt. The answers
-- of the backend are arguments.
pub mod Opened
mod Tests
use uni_event.Base.{ℕ, Bool, true, false, Option, none, some, ◌==◌, if◌then◌else◌}
use uni_event.Stream.{Stream, has, read_stop, clear_out, set_connect_result, reset_state}

-- `Mode`.
abbrev pub not_connected : ℕ
not_connected = 0

abbrev pub readable : ℕ
readable = 1

abbrev pub writable : ℕ
writable = 2

-- The end of `open`, with the error of the start of the reading.
pub limited : ℕ → Stream × Option ℕ → Stream × Option ℕ
unfolding has
limited mode (s, error) =
    (if has writable mode then s else record s { flags = clear_out s.flags }, error)

-- `Pipe::open`: `error` is the backend's answer, `answer` that to the start of the reading. An error
-- is overwritten when the pipe is to be connected.
pub open_pipe : Option ℕ → ℕ → Option ℕ → Stream → Stream × Option ℕ
unfolding limited has
open_pipe error mode answer s =
    if mode == not_connected
    then (s, error)
    else limited mode
        (set_connect_result true answer (if has readable mode then s else read_stop s))

-- What `pair` does with the opened ends; the second one is opened only if the first one was.
pub paired : Stream × Option ℕ → Stream → Stream × Option ℕ → (Stream × Stream) × Option ℕ
paired (h1, none) closed (h2, none) = ((h1, h2), none)
paired (h1, none) closed (h2, some e) = ((reset_state h1, reset_state h2), some e)
paired (h1, some e) closed opened = ((reset_state h1, reset_state closed), some e)

-- `Pipe::pair`, behind the making of the descriptors, with handles that have no requests.
pub pair :
    Option ℕ → Option ℕ → Option ℕ → Option ℕ → Stream → Stream → (Stream × Stream) × Option ℕ
unfolding open_pipe paired
pair error1 answer1 error2 answer2 h1 h2 =
    paired (open_pipe error1 readable answer1 h1) h2 (open_pipe error2 writable answer2 h2)

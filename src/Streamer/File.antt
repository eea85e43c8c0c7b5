-- ===== src/Streamer/File.antt =====
-- The file ends of a streamer, src/panda/unievent/streamer/File.h and File.cc. The requests to the
-- file system are recorded; what the streamer does inside a handler is an argument.
pub mod Writes
pub mod Reads
mod Tests
use uni_event.Base.{
  ℕ, ◌+◌, ◌-◌, ◌%◌, Bool, true, false, not, Option, none, some, List, [], ◌∷◌, ◌++◌, length, ltb,
  ◌==◌, if◌then◌else◌,
}

pub data FsCall : Type 0 where
  open_file read_file close_file cancel_request : FsCall
  write_file : List ℕ → FsCall

-- What the streamer makes the file do while it handles what the file reports.
pub data Reaction : Type 0 where
  carries_on stops pauses : Reaction

abbrev pub word : ℕ
word = 18446744073709551616

-- `active` tells whether `fsreq` is under way. `given` and `sent` record the data handed to `write`
-- and the data of the requests made, the oldest first.
pub record FileOutput : Type 0 where
  pub has_request : Bool
  pub active : Bool
  pub opened : Bool
  pub bufs : List (List ℕ)
  pub bufsz : ℕ  -- size_t
  pub calls : List FsCall
  pub given : List (List ℕ)
  pub sent : List (List ℕ)

pub output_create : FileOutput
output_create = record {
  has_request = false;
  active = false;
  opened = false;
  bufs = [];
  bufsz = 0;
  calls = [];
  given = [];
  sent = [];
}

-- `FileOutput::start` up to the answer of `Fs::open`.
pub output_start : FileOutput → FileOutput
output_start o = record o { has_request = true; active = true; calls = o.calls ++ open_file ∷ [] }

-- `FileOutput::do_write`, with the front of the buffers.
pub do_write : List (List ℕ) → FileOutput → FileOutput
do_write [] o = o
do_write (b ∷ bs) o = record o {
  has_request = true;
  active = true;
  calls = o.calls ++ write_file b ∷ [];
  sent = o.sent ++ b ∷ [];
}

pub output_write : List ℕ → FileOutput → FileOutput
unfolding do_write
output_write b o =
    let o' = record o {
      bufsz = (o.bufsz + length b) % word;
      bufs = o.bufs ++ b ∷ [];
      given = o.given ++ b ∷ [];
    } in
    if length o'.bufs == 1 then (if o.opened then do_write o'.bufs o' else o') else o'

pub output_cancel : FileOutput → FileOutput
output_cancel o =
    if o.has_request
    then record o { has_request = false; active = false; calls = o.calls ++ cancel_request ∷ [] }
    else o

pub output_close : FileOutput → FileOutput
output_close o =
    if o.opened then record o { opened = false; calls = o.calls ++ close_file ∷ [] } else o

pub output_stop : FileOutput → FileOutput
unfolding output_cancel output_close
output_stop o = output_close (output_cancel o)

-- `handle_write`: an output is never told to pause.
pub output_react : Reaction → FileOutput → FileOutput
unfolding output_stop
output_react stops o = output_stop o
output_react _ o = o

-- The answer of `Fs::open`.
pub output_opened : Option ℕ → Reaction → FileOutput → FileOutput
unfolding output_react do_write
output_opened (some e) r o = output_react r (record o { active = false })
output_opened none r o = do_write o.bufs (record o { active = false; opened = true })

-- The answer of `Fs::write`, up to `handle_write`.
pub pop_buf : List (List ℕ) → FileOutput → FileOutput
pop_buf [] o = o
pop_buf (b ∷ bs) o = record o {
  active = false;
  bufsz = (o.bufsz + (word - length b % word)) % word;
  bufs = bs;
}

pub output_written : Reaction → FileOutput → FileOutput
unfolding pop_buf output_react do_write
output_written r o = let o' = output_react r (pop_buf o.bufs o) in do_write o'.bufs o'

-- `ended` records that the end of the file was reported.
pub record FileInput : Type 0 where
  pub chunk_size : ℕ  -- size_t
  pub has_request : Bool
  pub active : Bool
  pub opened : Bool
  pub pause : Bool
  pub ended : Bool
  pub calls : List FsCall

pub input_start : FileInput → FileInput
input_start f = record f { has_request = true; active = true; calls = f.calls ++ open_file ∷ [] }

pub do_read : FileInput → FileInput
do_read f = record f { has_request = true; active = true; calls = f.calls ++ read_file ∷ [] }

pub input_cancel : FileInput → FileInput
input_cancel f =
    if f.has_request
    then record f { has_request = false; active = false; calls = f.calls ++ cancel_request ∷ [] }
    else f

pub input_stop : FileInput → FileInput
unfolding input_cancel
input_stop f =
    let f' = input_cancel f in
    if f'.opened then record f' { opened = false; calls = f'.calls ++ close_file ∷ [] } else f'

pub input_react : Reaction → FileInput → FileInput
unfolding input_stop
input_react carries_on f = f
input_react stops f = input_stop f
input_react pauses f = record f { pause = true }

pub start_reading : FileInput → FileInput
unfolding do_read
start_reading f =
    if f.active then record f { pause = false } else do_read (record f { pause = false })

pub input_opened : Option ℕ → Reaction → FileInput → FileInput
unfolding input_react do_read
input_opened (some e) r f = input_react r (record f { active = false })
input_opened none r f = do_read (record f { active = false; opened = true })

-- Behind `handle_read(data, err)`, for data of that length.
pub input_more : ℕ → Reaction → FileInput → FileInput
unfolding input_react do_read
input_more n at_end f =
    if ltb n f.chunk_size
    then input_react at_end (record f { ended = true })
    else if f.pause
    then f
    else do_read f

-- The answer of `Fs::read`: an error, or data of that length.
pub input_read : Option ℕ → ℕ → Reaction → Reaction → FileInput → FileInput
unfolding input_react input_more
input_read (some e) n r at_end f = input_react r (record f { active = false })
input_read none n r at_end f =
    input_more n at_end
      (if n == 0 then record f { active = false } else input_react r (record f { active = false }))

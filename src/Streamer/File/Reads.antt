-- ===== src/Streamer/File/Reads.antt =====
-- The reads of `FileInput` in src/panda/unievent/streamer/File.cc.
use uni_event.Base.{ℕ, ◌≡◌, true, false, none, [], arith, ◌⊎◌}
use uni_event.Streamer.File.{
  Reaction, carries_on, pauses, FileInput, input_start, do_read, input_react, start_reading,
  input_opened, input_more, input_read,
}

-- An input behind its constructor.
abbrev pub created : ℕ → FileInput
created chunk_size = record {
  chunk_size = chunk_size;
  has_request = false;
  active = false;
  opened = false;
  pause = false;
  ended = false;
  calls = [];
}

abbrev KeepsOpen : Reaction → Type 0
KeepsOpen r = (r ≡ carries_on) ⊎ (r ≡ pauses)

-- The states of an input from its start to its stop.
pub data Reach (chunk_size : ℕ) : FileInput → Type 0 where
  starts : Reach chunk_size (input_start (created chunk_size))
  opens :
      {f : FileInput}
      → f.opened ≡ false
      → Reach chunk_size f
      → Reach chunk_size (input_opened none carries_on f)
  pausing : {f : FileInput} → Reach chunk_size f → Reach chunk_size (input_react pauses f)
  resumes : {f : FileInput} → Reach chunk_size f → Reach chunk_size (start_reading f)
  reads :
      {f : FileInput} (n : ℕ) (r at_end : Reaction)
      → f.active ≡ true
      → f.opened ≡ true
      → KeepsOpen r
      → KeepsOpen at_end
      → Reach chunk_size f
      → Reach chunk_size (input_read none n r at_end f)

-- A file that is not open has its opening under way, and an open one is read on unless it is paused or
-- at its end.
abbrev pub IsLive : FileInput → Type 0
IsLive f =
    (f.opened ≡ false → f.active ≡ true)
    × (f.opened ≡ true → f.pause ≡ false → (f.active ≡ true) ⊎ (f.ended ≡ true))

-- While the streamer does not stop it, a file input never stalls: an unopened file is being opened,
-- and an open one has a read under way, unless the streamer has paused it or its end was reported.
pub Reach-IsLive : (chunk_size : ℕ) {f : FileInput} → Reach chunk_size f → IsLive f
unfolding input_start input_opened do_read input_react start_reading input_read input_more
Reach-IsLive c starts = ground arith
Reach-IsLive c (opens {f} e w) = ground (arith, Reach-IsLive c w)
Reach-IsLive c (pausing {f} w) = ground (arith, Reach-IsLive c w)
Reach-IsLive c (resumes {f} w) = ground (arith, Reach-IsLive c w)
Reach-IsLive c (reads {f} n r at_end a o k l w) = ground (arith, Reach-IsLive c w)

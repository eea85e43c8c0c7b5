-- ===== src/Streamer/Tests.antt =====
-- Runs of the streamer, and its theorems at them.
use uni_event.Base.{◌≡◌, refl, true, false, none, [], ◌∷◌, arith}
use uni_event.Streamer.{Streamer, Peer, create, start, handle_read, handle_eof}
use uni_event.Streamer.Flow.{World, started, read, ended, Reach, fresh, next}
use uni_event.Streamer.Ending.{report_all, Finishes, eof-Finishes}

-- A peer whose calls succeed and whose queue has 12 bytes.
abbrev busy : Peer
busy = record {
  input_starts = none;
  output_starts = none;
  writes = none;
  restarts = none;
  write_queue_size = 12;
}

abbrev idle : Peer
idle = record {
  input_starts = none;
  output_starts = none;
  writes = none;
  restarts = none;
  write_queue_size = 0;
}

after_start : Streamer
unfolding create start
after_start = start busy (create 10)

after_read : Streamer
unfolding after_start handle_read
after_read = handle_read busy none after_start

after_eof : Streamer
unfolding after_read handle_eof
after_eof = handle_eof after_read

-- A buffer of 10 bytes: one read of 12 stops the input, and its end is seen with a write pending.
ended_paused : (after_eof.inread ≡ false) × (after_eof.eof ≡ true) × (after_eof.started ≡ true)
unfolding after_eof
ended_paused = (refl, refl, refl)

abbrev ended_world : World
ended_world = record { streamer = after_eof; pending = 1; starts = 1; last_queue = 0 }

ended-Reach : Reach 10 ended_world
unfolding after_eof
ended-Reach =
    next
      (next
        (next fresh (
          started (record { streamer = create 10; pending = 0; starts = 0; last_queue = 0 }) busy
            refl))
        (read (record { streamer = after_start; pending = 0; starts = 1; last_queue = 0 }) busy none
          refl (omega arith)))
      (ended (record { streamer = after_read; pending = 1; starts = 1; last_queue = 0 }) refl)

eof-Finishes_example : Finishes (report_all (idle ∷ []) after_eof)
unfolding after_eof
eof-Finishes_example = eof-Finishes 10 (idle ∷ []) ended-Reach refl refl refl (refl, tt)

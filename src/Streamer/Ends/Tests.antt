-- ===== src/Streamer/Ends/Tests.antt =====
-- Runs of the streamer ends of src/panda/unievent/streamer/Stream.cc.
use uni_event.Base.{◌≡◌, true, false, none, some, List, [], ◌∷◌}
use uni_event.Stream.{Stream, wantread}
use uni_event.Stream.Flags.{Change, connects, results, run-sound, zero-sound}
use uni_event.Streamer.Ends.{input_create, input_start, input_stop}
use uni_event.Streamer.Ends.Restored.{Command, resumes, pauses, run, stop-start}

-- A stream that has been connected.
abbrev established : Stream
established = record {
  flags = uni_event.Stream.Flags.run (connects ∷ results true ∷ []) 0;
  wq_size = 0;
  impl_reading = false;
}

abbrev commands : List Command
commands = pauses ∷ resumes none ∷ pauses ∷ []

stop-start_example :
    ((input_stop none
        (run commands (input_start 5 none (input_create established (some 3))).0)).listener
      ≡ some 3)
    × (wantread
          (input_stop none
            (run commands (input_start 5 none (input_create established (some 3))).0)).stream
        ≡ wantread established)
stop-start_example =
    stop-start 5 none none commands established (some 3)
      (run-sound (connects ∷ results true ∷ []) 0 zero-sound)

-- ===== src/SslFilter/Tests.antt =====
-- Runs of the TLS filter (src/panda/unievent/ssl/SslFilter.cc).
use uni_event.Base.{◌≡◌, refl, true, false, none, some, [], ◌∷◌, ◌++◌}
use uni_event.SslFilter.{
  success, Event, SslFilter, create, Handshake, Reading, handle_connect, handle_read, want_read,
}
use uni_event.SslFilter.Sound.{coming, ending, requests, is_trusted, is_ordered}
use uni_event.SslFilter.Answers.{Reach, Reach-coming, Reach-ordered}

-- A handshake that has written its first message and waits for the answer.
abbrev hello : Handshake
hello = record {
  renegotiate = false;
  init_finished = false;
  connecting = true;
  start_error = success;
  result = some (want_read, success);
  write_buf = 22 ∷ [];
  finished = false;
  pending = 0;
  is_connected = false;
  resets = false;
}

-- The end of the handshake, with some data behind it.
abbrev done : Handshake
done = record hello { result = none; write_buf = []; finished = true; pending = 4 }

abbrev last_message : Reading
last_message = record {
  encbuf = 1 ∷ 2 ∷ 3 ∷ 4 ∷ [];
  err = success;
  connecting = true;
  is_connected = false;
  init_finished = false;
  in_buffer = 4;
  handshake = done;
  reads = record { data_read = 9 ∷ []; resets = false; wantread = true } ∷ [];
  read_code = want_read;
  code_error = success;
  write_buf = [];
}

abbrev opened : SslFilter
opened = handle_read last_message (handle_connect success 7 hello (create false))

opened_run :
    opened.events
    ≡ Event.read_data (9 ∷ [])
      ∷ Event.connected success (some 7)
      ∷ Event.reading_stopped
      ∷ Event.reading_started
      ∷ Event.handshake_write 7 (22 ∷ []) false
      ∷ Event.reading_started
      ∷ Event.came 7
      ∷ []
unfolding handle_connect handle_read create
opened_run = refl

abbrev opened-Reach : Reach opened
opened-Reach = Reach.reads last_message (Reach.connects success 7 hello Reach.created)

Reach-coming_example : coming opened.events ≡ requests opened.source_request ++ ending opened.events
Reach-coming_example = Reach-coming opened-Reach

-- A second handshake on the connection, with data behind it.
abbrev second : Reading
second = record last_message {
  connecting = false;
  is_connected = true;
  handshake = record done { renegotiate = true; connecting = false; is_connected = true };
}

abbrev again : SslFilter
again = handle_read second opened

again_run :
    again.events
    ≡ Event.read_data (9 ∷ []) ∷ Event.renegotiated ∷ Event.reading_started ∷ opened.events
unfolding handle_connect handle_read create
again_run = refl

again-trusted : is_trusted again.events ≡ true
unfolding handle_connect handle_read create
again-trusted = refl

Reach-ordered_example : is_ordered again.events ≡ true
Reach-ordered_example = Reach-ordered (Reach.reads second opened-Reach) again-trusted

-- ===== src/Pipe/Tests.antt =====
-- A pair of pipes that the backend refuses to open, and the theorem about it.
use uni_event.Base.{◌≡◌, false, true, none, some}
use uni_event.Stream.{Stream, wantread}
use uni_event.Stream.Flags.{zero-sound}
use uni_event.Stream.Connected.{Connects}
use uni_event.Pipe.{pair}
use uni_event.Pipe.Opened.{pair-Connects}

abbrev closed : Stream
closed = record { flags = 0; wq_size = 0; impl_reading = false }

pair-Connects_example :
    let r = pair (some 9) none (some 9) none closed closed in
    (r.1 ≡ none) × Connects true false (wantread closed) r.0.0 × Connects true true false r.0.1
pair-Connects_example = pair-Connects (some 9) (some 9) closed closed zero-sound zero-sound

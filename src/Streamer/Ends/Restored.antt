-- ===== src/Streamer/Ends/Restored.antt =====
-- What a streamer leaves of a stream that was its input (src/panda/unievent/streamer/Stream.cc).
use uni_event.Base.{
  ℕ, ◌≡◌, refl, ◌∙◌, Bool, true, false, Option, none, some, List, [], ◌∷◌, if◌then◌else◌,
}
use uni_event.Stream.{Stream, wantread, read_start, read_stop}
use uni_event.Stream.Flags.{sound}
use uni_event.Stream.Wishes.{read_start-Wants, read_stop-Wants}
use uni_event.Streamer.Ends.{
  StreamInput, input_create, input_started, input_start, input_stop, start_reading, stop_reading,
}

-- What the streamer asks of its input between `start` and `stop`, with the answers of the backend.
pub data Command : Type 0 where
  resumes : Option ℕ → Command
  pauses : Command

unfoldable pub run : List Command → StreamInput → StreamInput
unfolding start_reading stop_reading
run [] i = i
run (resumes answer ∷ cs) i = run cs (start_reading answer i).0
run (pauses ∷ cs) i = run cs (stop_reading i)

-- The input remembers the listener and the wish that its stream had.
abbrev Remembers : Option ℕ → Bool → StreamInput → Type 0
Remembers l b i = (sound i.stream.flags ≡ true) × (i.prev_lst ≡ l) × (i.prev_wantread ≡ b)

run-Remembers :
    (l : Option ℕ) (b : Bool) (cs : List Command) (i : StreamInput)
    → Remembers l b i
    → Remembers l b (run cs i)
unfolding run
run-Remembers l b [] i r = r
run-Remembers l b (resumes answer ∷ cs) i r =
    run-Remembers l b cs (start_reading answer i).0
      ((read_start-Wants answer i.stream r.0).0, r.1, r.2)
run-Remembers l b (pauses ∷ cs) i r =
    run-Remembers l b cs (stop_reading i) ((read_stop-Wants i.stream r.0).0, r.1, r.2)

start-Remembers :
    (self : ℕ) (answer : Option ℕ) (s : Stream) (l : Option ℕ)
    → sound s.flags ≡ true
    → Remembers l (wantread s) (input_start self answer (input_create s l)).0
unfolding input_start input_create
start-Remembers self answer s l h = go (read_start answer s) (read_start-Wants answer s h).0
  where
    go :
        (r : Stream × Option ℕ)
        → sound r.0.flags ≡ true
        → Remembers l
            (wantread s)
            (input_started self r
              (record { stream = s; listener = l; prev_lst = l; prev_wantread = wantread s })).0
    go (t, none) k = (k, refl, refl)
    go (t, some e) k = (k, refl, refl)

stop-wantread :
    (answer : Option ℕ) (i : StreamInput)
    → sound i.stream.flags ≡ true
    → wantread (input_stop answer i).stream ≡ i.prev_wantread
unfolding input_stop
stop-wantread answer i h = go i.prev_wantread
  where
    go :
        (b : Bool)
        → let s : Stream = if b then (read_start answer i.stream).0 else read_stop i.stream in
          wantread s ≡ b
    go true = (read_start-Wants answer i.stream h).1
    go false = (read_stop-Wants i.stream h).1

stop-listener : (answer : Option ℕ) (i : StreamInput) → (input_stop answer i).listener ≡ i.prev_lst
unfolding input_stop
stop-listener answer i = refl

-- After `start`, whether it succeeds or not, any number of calls of `start_reading` and `stop_reading`,
-- and `stop`, the stream has the listener that it had, and its user's wish to read or not.
pub stop-start :
    (self : ℕ) (answer later : Option ℕ) (cs : List Command) (s : Stream) (l : Option ℕ)
    → sound s.flags ≡ true
    → let i : StreamInput =
        input_stop later (run cs (input_start self answer (input_create s l)).0) in
      (i.listener ≡ l) × (wantread i.stream ≡ wantread s)
stop-start self answer later cs s l h =
    let i : StreamInput = run cs (input_start self answer (input_create s l)).0 in
    let r =
      run-Remembers l (wantread s) cs (input_start self answer (input_create s l)).0
        (start-Remembers self answer s l h) in
    (stop-listener later i ∙ r.1, stop-wantread later i r.0 ∙ r.2)

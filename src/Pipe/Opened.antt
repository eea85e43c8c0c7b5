-- ===== src/Pipe/Opened.antt =====
-- What the ends of a pipe are after they were opened (src/panda/unievent/Pipe.cc).
use uni_event.Base.{ℕ, ◌≡◌, refl, ◌∙◌, true, false, Option, none, some}
use uni_event.Stream.{Stream, has, clear_out, read_stop, wantread, set_connect_result}
use uni_event.Stream.Flags.{sound}
use uni_event.Stream.Wishes.{read_stop-Wants}
use uni_event.Stream.Connected.{Connects, set_connect_result-Connects}
use uni_event.Pipe.{readable, writable, limited, open_pipe, paired, pair}

limited-read :
    (r : Stream × Option ℕ)
    → r.1 ≡ none
    → limited readable r ≡ (record r.0 { flags = clear_out r.0.flags }, none)
unfolding limited has
limited-read (s, none) e = refl
limited-read (s, some n) e = cc

limited-write : (r : Stream × Option ℕ) → r.1 ≡ none → limited writable r ≡ (r.0, none)
unfolding limited has
limited-write (s, none) e = refl
limited-write (s, some n) e = cc

-- The ends, opened.
read_end :
    (error : Option ℕ) (s : Stream)
    → sound s.flags ≡ true
    → (r : Stream) × (open_pipe error readable none s ≡ (r, none))
      × Connects true false (wantread s) r
unfolding open_pipe has
read_end error s h =
    let w = set_connect_result-Connects s h in
    let r = set_connect_result true none s in
    (record r.0 { flags = clear_out r.0.flags }, limited-read r w.2, w.1)

write_end :
    (error : Option ℕ) (s : Stream)
    → sound s.flags ≡ true
    → (r : Stream) × (open_pipe error writable none s ≡ (r, none)) × Connects true true false r
unfolding open_pipe has
write_end error s h =
    let stopped = read_stop-Wants s h in
    let w = set_connect_result-Connects (read_stop s) stopped.0 in
    let r = set_connect_result true none (read_stop s) in
    (r.0, limited-write r w.2, (w.0.0, w.0.1, w.0.2, w.0.3 ∙ stopped.1))

-- `pair`, when the backend starts to read: whatever it answers to the opening of the two ends, no error
-- is reported and both ends are connected. The first one is connected for reading only, with its
-- user's wish to read as it was; the second one for writing too, and it is not to read.
pub pair-Connects :
    (error1 error2 : Option ℕ) (h1 h2 : Stream)
    → sound h1.flags ≡ true
    → sound h2.flags ≡ true
    → let r = pair error1 none error2 none h1 h2 in
      (r.1 ≡ none) × Connects true false (wantread h1) r.0.0 × Connects true true false r.0.1
unfolding pair paired
pair-Connects error1 error2 h1 h2 s1 s2 =
    let a = read_end error1 h1 s1 in
    let b = write_end error2 h2 s2 in rw a.1 (rw b.1 (refl, a.2, b.2))

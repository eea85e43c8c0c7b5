-- ===== src/Streamer/Ending.antt =====
-- A run of src/panda/unievent/Streamer.cc comes to its end once the input has ended.
use uni_event.Base.{
  ℕ, suc, ◌+◌, ◌%◌, ◌<◌, ◌≡◌, true, false, none, List, [], ◌∷◌, ◌++◌, arith, length, All,
}
use uni_event.Streamer.{
  Call, finish_event, input_stop, output_stop, Streamer, Peer, word, finish, call, restarted,
  after_write, handle_write,
}
use uni_event.Streamer.Flow.{World, Reach, Reach-IsSound}

-- The output reports writes one after another, all of them done.
abbrev pub report_all : List Peer → Streamer → Streamer
report_all [] s = s
report_all (p ∷ ps) s = report_all ps (handle_write p none s)

abbrev pub Restarts : Peer → Type 0
Restarts p = p.restarts ≡ none

record IsEnding (n : ℕ) (s : Streamer) : Type 0 where
  running : s.started ≡ true
  ended : s.eof ≡ true
  balanced : s.nread ≡ (s.nwrite + n) % word
  counters : (s.nread < word) × (s.nwrite < word)

report-IsEnding :
    (n : ℕ) (p : Peer) (s : Streamer)
    → Restarts p
    → suc n < word
    → 0 < n
    → IsEnding (suc n) s
    → IsEnding n (handle_write p none s)
unfolding handle_write after_write restarted call
report-IsEnding n p s r small pos v = rw r (ground arith)

-- How a run ends without an error.
abbrev pub Finishes : Streamer → Type 0
Finishes s = (s.started ≡ false) × ((cs : List Call) × (s.calls ≡ cs ++ finish_event none ∷ []))

report-Finishes : (p : Peer) (s : Streamer) → IsEnding 1 s → Finishes (handle_write p none s)
unfolding handle_write after_write finish call
report-Finishes p s v =
    (ground arith, ((s.calls ++ input_stop ∷ []) ++ output_stop ∷ [], ground arith))

report_all-Finishes :
    (p : Peer) (ps : List Peer) (s : Streamer)
    → All Restarts (p ∷ ps)
    → length (p ∷ ps) < word
    → IsEnding (length (p ∷ ps)) s
    → Finishes (report_all (p ∷ ps) s)
report_all-Finishes p [] s r small v = report-Finishes p s v
report_all-Finishes p (q ∷ ps) s r small v =
    report_all-Finishes q ps (handle_write p none s) r.1 (omega arith)
      (report-IsEnding (length (q ∷ ps)) p s r.0 small (omega arith) v)

-- Once the input of a running streamer has ended, the reports of the pending writes, one each,
-- finish the run without an error, whatever the sizes of the output's queue, if the input can be
-- resumed.
pub eof-Finishes :
    (max_buf : ℕ) {w : World} (ps : List Peer)
    → Reach max_buf w
    → w.streamer.started ≡ true
    → w.streamer.eof ≡ true
    → length ps ≡ w.pending
    → All Restarts ps
    → Finishes (report_all ps w.streamer)
eof-Finishes max_buf [] r e f n h = absurd (omega (arith, (Reach-IsSound max_buf r).ending f))
eof-Finishes max_buf (p ∷ ps) r e f n h =
    let v = Reach-IsSound max_buf r in
    report_all-Finishes p ps _ h (omega (arith, v.small))
      (record { running = e; ended = f; balanced = rw n v.balanced; counters = v.counters })

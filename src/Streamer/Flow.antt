-- ===== src/Streamer/Flow.antt =====
-- Back pressure and the end of a run in src/panda/unievent/Streamer.cc.
use uni_event.Base.{
  ℕ, suc, ◌+◌, ◌%◌, ◌<◌, ◌≡◌, refl, Bool, true, false, Option, none, some, List, [], ◌∷◌, ◌++◌,
  arith, if◌then◌else◌, inl, inr, Bool-cases, ◌⊎◌,
}
use uni_event.Streamer.{
  Error, write_error, read_error, canceled, Call, finish_event, stop_reading, start_reading,
  output_write, input_start, output_start, finish, call, written, restarted, after_write,
  start_output, start_input, Streamer, Peer, word, create, start, stop, handle_read, handle_write,
  handle_eof,
}

abbrev as_count : Bool → ℕ
as_count true = 1
as_count false = 0

-- How often the finish event was called.
abbrev pub finishes : List Call → ℕ
finishes [] = 0
finishes (finish_event e ∷ cs) = suc (finishes cs)
finishes (_ ∷ cs) = finishes cs

finishes-append : (xs ys : List Call) → finishes (xs ++ ys) ≡ finishes xs + finishes ys
finishes-append [] ys = omega arith
finishes-append (finish_event e ∷ cs) ys = omega (arith, finishes-append cs ys)
finishes-append (Call.input_start ∷ cs) ys = finishes-append cs ys
finishes-append (Call.input_stop ∷ cs) ys = finishes-append cs ys
finishes-append (Call.start_reading ∷ cs) ys = finishes-append cs ys
finishes-append (Call.stop_reading ∷ cs) ys = finishes-append cs ys
finishes-append (Call.output_start ∷ cs) ys = finishes-append cs ys
finishes-append (Call.output_stop ∷ cs) ys = finishes-append cs ys
finishes-append (Call.output_write ∷ cs) ys = finishes-append cs ys

-- A streamer with the number of writes that its output has taken and not reported, the number of times
-- it was started, and the size of the output's queue at the last report.
pub record World : Type 0 where
  pub streamer : Streamer
  pub pending : ℕ
  pub starts : ℕ
  pub last_queue : ℕ

-- After a step: an output that was stopped reports nothing more.
abbrev settle : ℕ → ℕ → ℕ → Streamer → World
settle pending starts queue s = record {
  streamer = s;
  pending = if s.started then pending else 0;
  starts = starts;
  last_queue = queue;
}

-- The steps of a world: the user starts a stopped streamer and stops it when he likes; the input
-- delivers data, an error or its end while the streamer runs; and the output reports each write once,
-- with any size of its queue.
pub data Step : World → World → Type 0 where
  started :
      (w : World) (p : Peer)
      → w.streamer.started ≡ false
      → Step w (settle 0 (w.starts + 1) 0 (start p w.streamer))
  stopped : (w : World) → Step w (settle w.pending w.starts w.last_queue (stop w.streamer))
  read :
      (w : World) (p : Peer) (err : Option ℕ)
      → w.streamer.started ≡ true
      → w.pending + 1 < word
      → Step w (settle (w.pending + 1) w.starts w.last_queue (handle_read p err w.streamer))
  wrote :
      (w : World) (p : Peer) (err : Option ℕ) (n : ℕ)
      → w.streamer.started ≡ true
      → w.pending ≡ suc n
      → Step w (settle n w.starts p.write_queue_size (handle_write p err w.streamer))
  ended :
      (w : World)
      → w.streamer.started ≡ true
      → Step w (settle w.pending w.starts w.last_queue (handle_eof w.streamer))

pub data Reach (max_buf : ℕ) : World → Type 0 where
  fresh : Reach max_buf (settle 0 0 0 (create max_buf))
  next : {w w' : World} → Reach max_buf w → Step w w' → Reach max_buf w'

pub record IsSound (w : World) : Type 0 where
  pub balanced : w.streamer.nread ≡ (w.streamer.nwrite + w.pending) % word
  pub small : w.pending < word
  pub counters : (w.streamer.nread < word) × (w.streamer.nwrite < word)
  pub idle :
      w.streamer.started ≡ false
      → (w.streamer.nread ≡ 0)
        × (w.streamer.nwrite ≡ 0)
        × (w.streamer.inread ≡ true)
        × (w.streamer.eof ≡ false)
        × (w.pending ≡ 0)
  pub paused : w.streamer.inread ≡ false → (0 < w.pending) ⊎ (w.streamer.thr_buf < w.last_queue)
  pub ending : w.streamer.eof ≡ true → 0 < w.pending
  pub finished : finishes w.streamer.calls + as_count w.streamer.started ≡ w.starts

finish-IsSound :
    (n k q : ℕ) (err : Option Error) (s : Streamer)
    → s.started ≡ true
    → finishes s.calls + 1 ≡ k
    → IsSound (settle n k q (finish err s))
unfolding finish call
finish-IsSound n k q err s e h = rw e (record {
  balanced = omega arith;
  small = omega arith;
  counters = omega arith;
  idle = λ _. (refl, refl, refl, refl, refl);
  paused = λ p. cc;
  ending = λ p. cc;
  finished = simp finishes-append (omega (arith, h));
})

written-IsSound :
    (n k q : ℕ) (p : Peer) (r : Option ℕ) (s : Streamer)
    → s.started ≡ true
    → 0 < n
    → IsSound (record { streamer = s; pending = n; starts = k; last_queue = q })
    → IsSound (settle n k q (written p r s))
unfolding written call
written-IsSound n k q p (some x) s e h v =
    finish-IsSound n k q (some (write_error x)) s e (ground (arith, v.finished))
written-IsSound n k q p none s e h v = ground (arith, finishes-append s.calls (stop_reading ∷ []))

read-IsSound :
    (n k q : ℕ) (p : Peer) (err : Option ℕ) (s : Streamer)
    → s.started ≡ true
    → n + 1 < word
    → IsSound (record { streamer = s; pending = n; starts = k; last_queue = q })
    → IsSound (settle (n + 1) k q (handle_read p err s))
unfolding handle_read call
read-IsSound n k q p (some x) s e h v =
    finish-IsSound (n + 1) k q (some (read_error x)) s e (ground (arith, v.finished))
read-IsSound n k q p none s e h v =
    written-IsSound (n + 1) k q p p.writes
      (call output_write (record s { nread = (s.nread + 1) % word })) e (omega arith)
      (ground (arith, finishes-append s.calls (output_write ∷ [])))

restarted-IsSound :
    (n k q : ℕ) (r : Option ℕ) (s : Streamer)
    → s.started ≡ true
    → (s.nread ≡ (s.nwrite + n) % word)
    → n < word
    → (s.nread < word) × (s.nwrite < word)
    → (s.eof ≡ true → 0 < n)
    → finishes s.calls + 1 ≡ k
    → IsSound (settle n k q (restarted r s))
unfolding restarted
restarted-IsSound n k q (some x) s e b h c f g = finish-IsSound n k q (some (read_error x)) s e g
restarted-IsSound n k q none s e b h c f g = ground arith

after-IsSound :
    (n k : ℕ) (p : Peer) (s : Streamer)
    → s.started ≡ true
    → s.nread ≡ (s.nwrite + n) % word
    → n < word
    → (s.nread < word) × (s.nwrite < word)
    → finishes s.calls + 1 ≡ k
    → IsSound (settle n k p.write_queue_size (after_write p s))
unfolding after_write call
after-IsSound n k p s e b h c g = ground (
  arith,
  finish-IsSound n k p.write_queue_size none s e g,
  restarted-IsSound n k p.write_queue_size p.restarts (call start_reading s) e b h c,
  finishes-append s.calls (start_reading ∷ []),
)

wrote-IsSound :
    (n k q : ℕ) (p : Peer) (err : Option ℕ) (s : Streamer)
    → s.started ≡ true
    → IsSound (record { streamer = s; pending = suc n; starts = k; last_queue = q })
    → IsSound (settle n k p.write_queue_size (handle_write p err s))
unfolding handle_write
wrote-IsSound n k q p (some x) s e v =
    finish-IsSound n k p.write_queue_size (some (write_error x)) s e (ground (arith, v.finished))
wrote-IsSound n k q p none s e v =
    after-IsSound n k p (record s { nwrite = (s.nwrite + 1) % word }) e (omega (arith, v.balanced))
      (omega (arith, v.small)) (omega (arith, v.counters)) (ground (arith, v.finished))

eof-IsSound :
    (n k q : ℕ) (s : Streamer)
    → s.started ≡ true
    → IsSound (record { streamer = s; pending = n; starts = k; last_queue = q })
    → IsSound (settle n k q (handle_eof s))
unfolding handle_eof
eof-IsSound n k q s e v = ground (arith, finish-IsSound n k q none s e)

start_output-IsSound :
    (k : ℕ) (r : Option ℕ) (s : Streamer)
    → s.started ≡ false
    → IsSound (settle 0 k 0 s)
    → IsSound (settle 0 (k + 1) 0 (start_output r s))
unfolding start_output call
start_output-IsSound k none s e v = ground (arith, finishes-append s.calls (output_start ∷ []))
start_output-IsSound k (some x) s e v = record {
  balanced = ground (arith, v.balanced);
  small = omega arith;
  counters = v.counters;
  idle = ground (arith, v.idle);
  paused = ground (arith, v.paused, v.idle);
  ending = ground (arith, v.ending, v.idle);
  finished = simp (finishes-append, e) (ground (arith, v.finished));
}

start-IsSound :
    (k : ℕ) (p : Peer) (r : Option ℕ) (s : Streamer)
    → s.started ≡ false
    → IsSound (settle 0 k 0 s)
    → IsSound (settle 0 (k + 1) 0 (start_input p r s))
unfolding start_input call
start-IsSound k p none s e v =
    start_output-IsSound k p.output_starts (call input_start s) e
      (ground (arith, finishes-append s.calls (input_start ∷ [])))
start-IsSound k p (some x) s e v = record {
  balanced = ground (arith, v.balanced);
  small = omega arith;
  counters = v.counters;
  idle = ground (arith, v.idle);
  paused = ground (arith, v.paused, v.idle);
  ending = ground (arith, v.ending, v.idle);
  finished = simp (finishes-append, e) (ground (arith, v.finished));
}

stop-IsSound :
    (w : World) → IsSound w → IsSound (settle w.pending w.starts w.last_queue (stop w.streamer))
unfolding stop finish
stop-IsSound w v = elim (Bool-cases w.streamer.started) [
  | inl e ↦
      finish-IsSound w.pending w.starts w.last_queue (some canceled) w.streamer e
        (ground (arith, v.finished))
  | inr e ↦ ground arith
]

pub Step-IsSound : {w w' : World} → Step w w' → IsSound w → IsSound w'
unfolding start handle_eof
Step-IsSound (started w p e) v =
    start-IsSound w.starts p p.input_starts w.streamer e (ground (arith, v.idle))
Step-IsSound (stopped w) v = stop-IsSound w v
Step-IsSound (read w p err e h) v =
    read-IsSound w.pending w.starts w.last_queue p err w.streamer e h v
Step-IsSound (wrote w p err n e h) v =
    wrote-IsSound n w.starts w.last_queue p err w.streamer e (ground arith)
Step-IsSound (ended w e) v = eof-IsSound w.pending w.starts w.last_queue w.streamer e v

pub Reach-IsSound : (max_buf : ℕ) {w : World} → Reach max_buf w → IsSound w
unfolding create
Reach-IsSound max_buf fresh = ground arith
Reach-IsSound max_buf (next r st) = Step-IsSound st (Reach-IsSound max_buf r)

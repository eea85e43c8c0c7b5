-- ===== src/Streamer/File/Writes.antt =====
-- The buffers of `FileOutput` in src/panda/unievent/streamer/File.cc.
use uni_event.Base.{
  ℕ, ◌+◌, ◌%◌, ◌≡◌, refl, Bool, true, false, none, List, [], ◌∷◌, ◌++◌, append_assoc, append-nil,
  arith, length, length-append,
}
use uni_event.Streamer.File.{
  write_file, close_file, cancel_request, carries_on, stops, word, FileOutput, output_create,
  output_start, do_write, output_write, output_stop, output_cancel, output_close, output_react,
  output_opened, pop_buf, output_written,
}

abbrev pub total : List (List ℕ) → ℕ
total [] = 0
total (b ∷ bs) = length b + total bs

total-append : (xs ys : List (List ℕ)) → total (xs ++ ys) ≡ total xs + total ys
total-append [] ys = omega arith
total-append (x ∷ xs) ys = omega (arith, total-append xs ys)

-- The states of an output from one start to its stop.
pub data Reach : FileOutput → Type 0 where
  created : Reach (output_start output_create)
  opens : {o : FileOutput} → o.opened ≡ false → Reach o → Reach (output_opened none carries_on o)
  gives : {o : FileOutput} (b : List ℕ) → Reach o → Reach (output_write b o)
  writes :
      {o : FileOutput}
      → o.active ≡ true
      → o.opened ≡ true
      → Reach o
      → Reach (output_written carries_on o)

-- The requests made and the data that waits, for an open or a closed file.
abbrev pub Flow : Bool → List (List ℕ) → FileOutput → Type 0
Flow false bs o = (o.active ≡ true) × (o.sent ≡ []) × (o.given ≡ bs)
Flow true [] o = (o.active ≡ false) × (o.sent ≡ o.given)
Flow true (b ∷ bs) o = (o.active ≡ true) × (o.sent ++ bs ≡ o.given)

pub record IsOrdered (o : FileOutput) : Type 0 where
  pub size : o.bufsz ≡ total o.bufs % word
  pub flow : Flow o.opened o.bufs o

opens-IsOrdered :
    (bs : List (List ℕ)) (o : FileOutput)
    → o.bufs ≡ bs
    → o.opened ≡ false
    → IsOrdered o
    → IsOrdered (output_opened none carries_on o)
unfolding output_opened do_write
opens-IsOrdered [] o e c v = ground arith
opens-IsOrdered (b ∷ bs) o e c v = ground arith

gives-IsOrdered :
    (bs : List (List ℕ)) (c : Bool) (b : List ℕ) (o : FileOutput)
    → o.bufs ≡ bs
    → o.opened ≡ c
    → IsOrdered o
    → IsOrdered (output_write b o)
unfolding output_write do_write
gives-IsOrdered [] false b o e c v = ground arith
gives-IsOrdered [] true b o e c v = ground (arith, append-nil (o.sent ++ b ∷ []))
gives-IsOrdered (x ∷ xs) false b o e c v =
    ground (arith, total-append xs (b ∷ []), length-append xs (b ∷ []))
gives-IsOrdered (x ∷ xs) true b o e c v =
    ground
      (arith, total-append xs (b ∷ []), length-append xs (b ∷ []), append_assoc o.sent xs (b ∷ []))

writes-IsOrdered :
    (bs : List (List ℕ)) (o : FileOutput)
    → o.bufs ≡ bs
    → o.opened ≡ true
    → IsOrdered o
    → IsOrdered (output_written carries_on o)
unfolding output_written pop_buf output_react do_write
writes-IsOrdered [] o e c v = ground arith
writes-IsOrdered (x ∷ []) o e c v = ground (arith, append-nil o.sent)
writes-IsOrdered (x ∷ y ∷ xs) o e c v = ground (arith, append_assoc o.sent (y ∷ []) xs)

-- While the streamer carries on, the data is sent to the file buffer by buffer in the order in which
-- it was given, each buffer once: what was sent and what waits make up what was given, one request at
-- a time is under way, and none only when nothing waits. `bufsz` is the size of the buffers that wait,
-- modulo 2^64.
pub Reach-IsOrdered : {o : FileOutput} → Reach o → IsOrdered o
unfolding output_start output_create
Reach-IsOrdered created = ground arith
Reach-IsOrdered (opens {o} c w) = opens-IsOrdered o.bufs o refl c (Reach-IsOrdered w)
Reach-IsOrdered (gives {o} b w) = gives-IsOrdered o.bufs o.opened b o refl refl (Reach-IsOrdered w)
Reach-IsOrdered (writes {o} a c w) = writes-IsOrdered o.bufs o refl c (Reach-IsOrdered w)

-- If the streamer stops the output while it handles the report of a write, and other buffers wait,
-- the output closes the file and then still asks for the next buffer to be written to it.
written-stops_late :
    (o : FileOutput) (b b' : List ℕ) (bs : List (List ℕ))
    → o.bufs ≡ b ∷ b' ∷ bs
    → o.opened ≡ true
    → o.has_request ≡ true
    → ((output_written stops o).opened ≡ false)
      × ((output_written stops o).calls
          ≡ ((o.calls ++ cancel_request ∷ []) ++ close_file ∷ []) ++ write_file b' ∷ [])
unfolding output_written pop_buf output_react output_stop output_cancel output_close do_write
written-stops_late o b b' bs e f g = ground arith

-- ===== src/Stream/Requests/Bytes.antt =====
-- The bytes of the requests of a stream, and the operations that leave the size of the write queue alone
-- (src/panda/unievent/Stream.h and Stream.cc).
use uni_event.Base.{
  ℕ, ◌+◌, ◌≡◌, refl, Bool, true, false, not, ◌&&◌, ◌||◌, Option, none, some, List, [], ◌∷◌, ◌++◌,
  arith, if◌then◌else◌,
}
use uni_event.Stream.{
  Stream, bytes, established_bit, reading_bit, has, lower, clear_out, clear_in, connect_flags,
  wantread, set_wantread, try_read_start, begin_reading, set_connect_result, read_start, read_stop,
  read_ignore, handle_eof, ignore_read_bit,
}
use uni_event.Stream.Requests.{
  write_event, shutdown_event, Req, connect_request, write_request, shutdown_request,
  disconnect_request, Problem, Awaits, nobody, backend, next_turn, buffers, is_broken, settle,
  skipped,
}
use uni_event.Stream.Requests.Steps.{Reads}

-- The bytes of a request, of a queue, and of several requests.
abbrev pub size : Req → ℕ
size (write_request i ns) = bytes ns
size _ = 0

abbrev pub total : List Req → ℕ
total [] = 0
total (r ∷ rs) = size r + total rs

abbrev pub sum : List (List ℕ) → ℕ
sum [] = 0
sum (ns ∷ l) = bytes ns + sum l

pub sum-append : (xs ys : List (List ℕ)) → sum (xs ++ ys) ≡ sum xs + sum ys
sum-append [] ys = omega arith
sum-append (x ∷ xs) ys = omega (arith, sum-append xs ys)

pub total-append : (xs ys : List Req) → total (xs ++ ys) ≡ total xs + total ys
total-append [] ys = omega arith
total-append (x ∷ xs) ys = omega (arith, total-append xs ys)

-- The bytes of a queue that have not been handed on: the front request has been when the backend is
-- waited for.
abbrev pub unsent : Awaits → List Req → ℕ
unsent a [] = 0
unsent backend (r ∷ rs) = total rs
unsent nobody (r ∷ rs) = total (r ∷ rs)
unsent next_turn (r ∷ rs) = total (r ∷ rs)

-- The changes of the flags leave the size alone.
begin-size : (answer : Option ℕ) (s : Stream) → (begin_reading answer s).0.wq_size ≡ s.wq_size
unfolding begin_reading try_read_start
begin-size none s = go (has reading_bit s.flags || not (has established_bit s.flags))
  where
    go :
        (c : Bool)
        → let r : Stream × Option ℕ = if c then (s, none) else try_read_start none s in
          r.0.wq_size ≡ s.wq_size
    go true = refl
    go false = refl
begin-size (some e) s = go (has reading_bit s.flags || not (has established_bit s.flags))
  where
    go :
        (c : Bool)
        → let r : Stream × Option ℕ = if c then (s, none) else try_read_start (some e) s in
          r.0.wq_size ≡ s.wq_size
    go true = refl
    go false = refl

pub set_connect_result-size :
    (ok : Bool) (answer : Option ℕ) (s : Stream)
    → (set_connect_result ok answer s).0.wq_size ≡ s.wq_size
unfolding set_connect_result
set_connect_result-size ok answer s = go (ok && wantread s')
  where
    s' : Stream
    s' = record s { flags = connect_flags ok s.flags }

    go :
        (c : Bool)
        → let r : Stream × Option ℕ = if c then begin_reading answer s' else (s', none) in
          r.0.wq_size ≡ s.wq_size
    go true = begin-size answer s'
    go false = refl

pub settle-size : (r : Req) (o : Option Problem) (s : Stream) → (settle r o s).wq_size ≡ s.wq_size
unfolding settle write_event shutdown_event
settle-size (connect_request i) o s = set_connect_result-size false none s
settle-size (write_request i ns) o s = go (is_broken o)
  where
    go :
        (c : Bool)
        → let r : Stream = if c then record s { flags = clear_out s.flags } else s in
          r.wq_size ≡ s.wq_size
    go true = refl
    go false = refl
settle-size (shutdown_request i) o s = refl
settle-size disconnect_request o s = refl

pub Reads-size : {s s' : Stream} → Reads s s' → s'.wq_size ≡ s.wq_size
unfolding read_start read_stop read_ignore handle_eof
Reads-size {s} (Reads.starts answer) =
    begin-size answer (record s { flags = lower ignore_read_bit (set_wantread true s.flags) })
Reads-size {s} Reads.stops = go (has reading_bit (set_wantread false s.flags))
  where
    f : ℕ
    f = set_wantread false s.flags

    go :
        (c : Bool)
        → let r : Stream =
            if c
            then record s { flags = lower reading_bit f; impl_reading = false }
            else record s { flags = f } in
          r.wq_size ≡ s.wq_size
    go true = refl
    go false = refl
Reads-size {s} Reads.ignores = refl
Reads-size {s} Reads.ends = go (not (has established_bit s.flags))
  where
    go :
        (c : Bool)
        → let r : Stream × Bool =
            if c then (s, false) else (record s { flags = clear_in s.flags }, true) in
          r.0.wq_size ≡ s.wq_size
    go true = refl
    go false = refl

-- A request that leaves the queue.
pub skipped-unsent :
    (r : Req) (rs : List Req) (a : Awaits) → unsent a (r ∷ rs) ≡ total rs + sum (skipped r a)
unfolding skipped
skipped-unsent (connect_request i) rs nobody = omega arith
skipped-unsent (connect_request i) rs backend = omega arith
skipped-unsent (connect_request i) rs next_turn = omega arith
skipped-unsent (write_request i ns) rs nobody = omega arith
skipped-unsent (write_request i ns) rs backend = omega arith
skipped-unsent (write_request i ns) rs next_turn = omega arith
skipped-unsent (shutdown_request i) rs nobody = omega arith
skipped-unsent (shutdown_request i) rs backend = omega arith
skipped-unsent (shutdown_request i) rs next_turn = omega arith
skipped-unsent disconnect_request rs nobody = omega arith
skipped-unsent disconnect_request rs backend = omega arith
skipped-unsent disconnect_request rs next_turn = omega arith

pub unsent-nobody : (rs : List Req) → unsent nobody rs ≡ total rs
unsent-nobody [] = refl
unsent-nobody (r ∷ rs) = refl

pub buffers-total : (rs : List Req) → sum (buffers rs) ≡ total rs
buffers-total [] = refl
buffers-total (connect_request i ∷ rs) = omega (arith, buffers-total rs)
buffers-total (write_request i ns ∷ rs) = omega (arith, buffers-total rs)
buffers-total (shutdown_request i ∷ rs) = omega (arith, buffers-total rs)
buffers-total (disconnect_request ∷ rs) = omega (arith, buffers-total rs)

pub unsent-append :
    (a : Awaits) (q : Req) (qs : List Req) (r : Req)
    → unsent a (q ∷ qs ++ r ∷ []) ≡ size r + unsent a (q ∷ qs)
unsent-append nobody q qs r = omega (arith, total-append qs (r ∷ []))
unsent-append backend q qs r = omega (arith, total-append qs (r ∷ []))
unsent-append next_turn q qs r = omega (arith, total-append qs (r ∷ []))

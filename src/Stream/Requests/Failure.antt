-- ===== src/Stream/Requests/Failure.antt =====
-- Failed connects and resets of a stream with requests (src/panda/unievent/Stream.cc).
use uni_event.Base.{
  ℕ, ◌≡◌, refl, sym, ap, ◌∙◌, Bool, true, false, not, ◌||◌, Option, none, some, List, [], ◌∷◌, ◌++◌,
  arith, append_assoc, append-nil, ◌==◌,
}
use Prim.Native.Nat.{bit_and}
use uni_event.Stream.{
  Stream, dontread_bit, has, set_connect_result, connect_flags, shutdown_done, reset_state,
}
use uni_event.Stream.Flags.{
  Change, results, shuts_down, apply, sound, apply-sound, all_below, all_below_lem,
}
use uni_event.Stream.Requests.{
  write_event, shutdown_event, Req, connect_request, write_request, shutdown_request,
  disconnect_request, Problem, canceled, nobody, Requests, reset_stream, resume, is_broken,
  succeeded, settle, told, left, leave, cancel_all, connect_event, connected, happened, complete,
  reset,
}

-- The callbacks of a queue that is cancelled.
abbrev pub all_told : List Req → List (ℕ × Option Problem)
all_told [] = []
all_told (connect_request i ∷ rs) = (i, some canceled) ∷ all_told rs
all_told (write_request i ns ∷ rs) = (i, some canceled) ∷ all_told rs
all_told (shutdown_request i ∷ rs) = (i, some canceled) ∷ all_told rs
all_told (disconnect_request ∷ rs) = all_told rs

told-all : (r : Req) (rs : List Req) → told r (some canceled) ++ all_told rs ≡ all_told (r ∷ rs)
unfolding told
told-all (connect_request i) rs = refl
told-all (write_request i ns) rs = refl
told-all (shutdown_request i) rs = refl
told-all disconnect_request rs = refl

-- The bit of the user's wish, under the changes that a cancellation makes.
abbrev keeps : Change → ℕ → Bool
keeps c f = not (sound f) || (bit_and (apply c f) dontread_bit == bit_and f dontread_bit)

-- Flags as they occur, with a wish.
abbrev Wishes : ℕ → Stream → Type 0
Wishes n s = (sound s.flags ≡ true) × (bit_and s.flags dontread_bit ≡ n)

kept :
    (c : Change)
    → all_below 1024 (keeps c) ≡ true
    → (n f : ℕ) → (sound f ≡ true) × (bit_and f dontread_bit ≡ n)
    → (sound (apply c f) ≡ true) × (bit_and (apply c f) dontread_bit ≡ n)
kept c table n f w = (apply-sound c f w.0, ground (arith, fact, w))
  where
    fact : keeps c f ≡ true
    fact = let h = w.0 in all_below_lem 1024 (keeps c) f table (ground arith)

settle-Wishes : (r : Req) (n : ℕ) (s : Stream) → Wishes n s → Wishes n (settle r (some canceled) s)
unfolding settle write_event shutdown_event set_connect_result is_broken succeeded apply
settle-Wishes (connect_request i) n s w =
    kept (results false) (unfold all_below has apply connect_flags in refl) n s.flags w
settle-Wishes (write_request i ns) n s w = w
settle-Wishes (shutdown_request i) n s w =
    kept (shuts_down false) (unfold all_below has apply shutdown_done in refl) n s.flags w
settle-Wishes disconnect_request n s w = w

cancel_all-Wishes :
    (rs : List Req) (n : ℕ) (t : Requests) → Wishes n t.stream → Wishes n (cancel_all rs t).stream
unfolding cancel_all leave left
cancel_all-Wishes [] n t w = w
cancel_all-Wishes (r ∷ rs) n t w =
    cancel_all-Wishes rs n (leave r (some canceled) t) (settle-Wishes r n t.stream w)

cancel_all-told :
    (rs : List Req) (t : Requests) → (cancel_all rs t).answered ≡ t.answered ++ all_told rs
unfolding cancel_all leave left
cancel_all-told [] t = sym (append-nil t.answered)
cancel_all-told (r ∷ rs) t =
    cancel_all-told rs (leave r (some canceled) t)
    ∙ append_assoc t.answered (told r (some canceled)) (all_told rs)
    ∙ ap (λ l. t.answered ++ l) (told-all r rs)

-- A stream that is idle, with a history of callbacks and a wish.
pub record IsIdle (answers : List (ℕ × Option Problem)) (wish : ℕ) (t : Requests) : Type 0 where
  queue : t.queue ≡ []
  awaits : t.awaits ≡ nobody
  answered : t.answered ≡ answers
  flags : t.stream.flags ≡ wish
  wq_size : t.stream.wq_size ≡ 0
  impl_reading : t.stream.impl_reading ≡ false

reset_stream-IsIdle :
    (n : ℕ) (t : Requests) → Wishes n t.stream → IsIdle t.answered n (resume [] (reset_stream t))
unfolding resume reset_stream reset_state
reset_stream-IsIdle n t w = record {
  queue = refl;
  awaits = refl;
  answered = refl;
  flags = w.1;
  wq_size = refl;
  impl_reading = refl;
}

-- From flags as they occur: `reset` tells every request of the queue, in order, that it is cancelled,
-- and leaves an idle stream of which only the wish not to read is kept.
pub reset-IsIdle :
    (t : Requests)
    → sound t.stream.flags ≡ true
    → IsIdle (t.answered ++ all_told t.queue) (bit_and t.stream.flags dontread_bit) (reset t)
unfolding reset
reset-IsIdle t h =
    let u = cancel_all t.queue t in
    let wish = bit_and t.stream.flags dontread_bit in
    rw (sym (cancel_all-told t.queue t))
      (reset_stream-IsIdle wish u (cancel_all-Wishes t.queue wish t (h, refl)))

failed-IsIdle :
    (i : ℕ) (rs : List Req) (p : Problem) (t : Requests) (s : Stream) (wish : ℕ)
    → Wishes wish s
    → IsIdle (t.answered ++ (i, some p) ∷ all_told rs) wish (connected i rs t (s, some p))
unfolding connected
failed-IsIdle i rs p t s wish w =
    let u = left (connect_request i) (some p) (record t { stream = s }) in
    let answers : (cancel_all rs u).answered ≡ t.answered ++ (i, some p) ∷ all_told rs =
      cancel_all-told rs u
      ∙ unfold left told in append_assoc t.answered ((i, some p) ∷ []) (all_told rs) in
    rw (sym answers)
      (reset_stream-IsIdle wish (cancel_all rs u) (cancel_all-Wishes rs wish u (unfold left in w)))

-- A failed connect, from flags as they occur: its own callback gets the error, then every request
-- behind it is told, in order, that it is cancelled, and the stream is idle, with the wish not to read.
pub complete-failed :
    (i : ℕ) (rs : List Req) (p : Problem) (answer : Option ℕ) (t : Requests)
    → t.queue ≡ connect_request i ∷ rs
    → sound t.stream.flags ≡ true
    → IsIdle
        (t.answered ++ (i, some p) ∷ all_told rs)
        (bit_and t.stream.flags dontread_bit)
        (complete (some p) answer t)
complete-failed i rs p answer t e h =
    let wish = bit_and t.stream.flags dontread_bit in
    let f = (set_connect_result false none t.stream).0 in
    let k : complete (some p) answer t ≡ connected i rs t (f, some p) =
      unfold complete happened connect_event in ap (λ q. happened q (some p) answer t) e in
    rw k (
      failed-IsIdle i rs p t f wish (
        unfold settle write_event shutdown_event in
        settle-Wishes (connect_request i) wish t.stream (h, refl)))

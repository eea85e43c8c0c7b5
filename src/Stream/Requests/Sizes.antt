-- ===== src/Stream/Requests/Sizes.antt =====
-- The size of the write queue of a stream with requests (src/panda/unievent/Stream.cc).
use uni_event.Base.{
  ℕ, ◌+◌, ◌%◌, ◌≡◌, refl, sym, ap, ◌∙◌, Bool, true, false, ◌&&◌, Option, none, some, List, [], ◌∷◌,
  ◌++◌, inl, inr, arith, if◌then◌else◌, length, ◌==◌,
}
use uni_event.Stream.{
  Stream, create, bytes, word, connecting_bit, established_bit, has, raise, write_queued,
  reset_state, clear_state,
}
use uni_event.Stream.Writes.{add_sizes_lem}
use uni_event.Stream.Requests.{
  Req, connect_request, write_request, shutdown_request, disconnect_request, Problem, timed_out,
  Requests, fresh, reset_stream, resume, push, connect, write, shutdown, disconnect, left, leave,
  cancel_all, reset, clear, connect_event, connected, happened, complete, is_empty, before, expired,
  expire,
}
use uni_event.Stream.Requests.Steps.{Reach, before-split}
use uni_event.Stream.Requests.Bytes.{sum, unsent, set_connect_result-size, Reads-size}
use uni_event.Stream.Requests.Sums.{
  Sums, IsCounted, left-Sums, leave-Sums, resume-IsCounted, push-IsCounted, cancel_all-Sums,
  reset_stream-IsCounted,
}

pub connect_event-size :
    (o : Option Problem) (answer : Option ℕ) (s : Stream)
    → (connect_event o answer s).0.wq_size ≡ s.wq_size
unfolding connect_event
connect_event-size none answer s =
    set_connect_result-size true answer (record s { flags = raise established_bit s.flags })
connect_event-size (some p) answer s = set_connect_result-size false none s

connected-IsCounted :
    (i : ℕ) (rs : List Req) (t : Requests) (e : Stream × Option Problem)
    → e.0.wq_size ≡ t.stream.wq_size
    → Sums (unsent t.awaits (connect_request i ∷ rs)) t
    → IsCounted (connected i rs t e)
unfolding connected
connected-IsCounted i rs t (s, none) e w =
    resume-IsCounted rs (left (connect_request i) none (record t { stream = s }))
      (left-Sums (connect_request i) rs none t s e w)
connected-IsCounted i rs t (s, some p) e w =
    reset_stream-IsCounted
      (cancel_all rs (left (connect_request i) (some p) (record t { stream = s })))

happened-IsCounted :
    (q : List Req) (o : Option Problem) (answer : Option ℕ) (t : Requests)
    → t.queue ≡ q
    → Sums (unsent t.awaits q) t
    → IsCounted (happened q o answer t)
unfolding happened
happened-IsCounted [] o answer t e w =
    (w.0, w.1 ∙ ap (λ q. (unsent t.awaits q + sum t.lost) % word) (sym e))
happened-IsCounted (connect_request i ∷ rs) o answer t e w =
    connected-IsCounted i rs t (connect_event o answer t.stream)
      (connect_event-size o answer t.stream) w
happened-IsCounted (write_request i ns ∷ rs) o answer t e w =
    resume-IsCounted rs (leave (write_request i ns) o t) (leave-Sums (write_request i ns) rs o t w)
happened-IsCounted (shutdown_request i ∷ rs) o answer t e w =
    resume-IsCounted rs (leave (shutdown_request i) o t) (leave-Sums (shutdown_request i) rs o t w)
happened-IsCounted (disconnect_request ∷ rs) o answer t e w =
    (w.0, w.1 ∙ ap (λ q. (unsent t.awaits q + sum t.lost) % word) (sym e))

complete-IsCounted :
    (o : Option Problem) (answer : Option ℕ) (t : Requests)
    → IsCounted t
    → IsCounted (complete o answer t)
unfolding complete
complete-IsCounted o answer t w = happened-IsCounted t.queue o answer t refl w

expired-IsCounted :
    (i : ℕ) (x : Option (List Req × List Req)) (t : Requests)
    → before i [] t.queue ≡ x
    → IsCounted t
    → IsCounted (expired i x t)
unfolding expired
expired-IsCounted i none t e w = w
expired-IsCounted i (some (p, rs)) t e w =
    let u = cancel_all p t in
    let v : Sums (unsent t.awaits (p ++ shutdown_request i ∷ rs)) t = (
      w.0,
      w.1 ∙ ap (λ q. (unsent t.awaits q + sum t.lost) % word) (before-split i [] t.queue p rs e),
    ) in
    resume-IsCounted rs (leave (shutdown_request i) (some timed_out) u) (
      leave-Sums (shutdown_request i) rs (some timed_out) u
        (cancel_all-Sums p (shutdown_request i ∷ rs) t v))

expire-IsCounted : (i : ℕ) (t : Requests) → IsCounted t → IsCounted (expire i t)
unfolding expire
expire-IsCounted i t w = expired-IsCounted i (before i [] t.queue) t refl w

-- A request without buffers.
Sums-none : (n : ℕ) (t : Requests) → Sums n t → Sums (0 + n) t
Sums-none n t w = let same = w.1 in (w.0, omega (arith, same))

disconnect-IsCounted : (t : Requests) → IsCounted t → IsCounted (disconnect t)
unfolding disconnect
disconnect-IsCounted t w = go t.queue refl w
  where
    inner :
        (c : Bool) (r : Req) (rs : List Req)
        → Sums (unsent t.awaits (r ∷ rs)) t
        → IsCounted (if c then reset t else push disconnect_request (r ∷ rs) t)
    inner true r rs v = unfold reset in reset_stream-IsCounted (cancel_all t.queue t)
    inner false r rs v =
        push-IsCounted disconnect_request (r ∷ rs) t (inr (λ e. cc))
          (Sums-none (unsent t.awaits (r ∷ rs)) t v)

    go :
        (q : List Req)
        → t.queue ≡ q
        → Sums (unsent t.awaits q) t
        → IsCounted (
            if is_empty q
            then reset_stream t
            else if length q == 1 && has connecting_bit t.stream.flags
            then reset t
            else push disconnect_request q t)
    go [] e v =
        unfold reset_stream reset_state in
        (omega arith, ap (λ q. (unsent t.awaits q + 0) % word) (sym e))
    go (r ∷ rs) e v = inner (length (r ∷ rs) == 1 && has connecting_bit t.stream.flags) r rs v

write-Sums :
    (ns : List ℕ) (t : Requests) (n : ℕ)
    → Sums n t
    → Sums (bytes ns + n) (record t { stream = write_queued ns t.stream })
unfolding write_queued
write-Sums ns t n w =
    let small = w.0 in
    let same = w.1 in
    let e = add_sizes_lem ns t.stream.wq_size small in (omega (arith, e), omega (arith, e, same))

-- In every state of a stream without filters, the size of the write queue is less than 2^64, and is
-- modulo 2^64 the size of the writes that have not been handed on, with those that have left the queue
-- since the last reset without being handed on, less those that stood in the queue when a disconnect
-- request last reset the stream.
pub Reach-IsCounted : {is : List ℕ} {t : Requests} → Reach is t → IsCounted t
unfolding connect write shutdown reset clear clear_state resume fresh create write_queued
Reach-IsCounted Reach.created = (omega arith, refl)
Reach-IsCounted (Reach.connects {t = t} i h) =
    push-IsCounted (connect_request i) t.queue t (inl (λ e. cc))
      (Sums-none (unsent t.awaits t.queue) t (Reach-IsCounted h))
Reach-IsCounted (Reach.writes {t = t} i ns h) =
    push-IsCounted (write_request i ns) t.queue (record t { stream = write_queued ns t.stream })
      (inl (λ e. cc)) (write-Sums ns t (unsent t.awaits t.queue) (Reach-IsCounted h))
Reach-IsCounted (Reach.shuts {t = t} i h) =
    push-IsCounted (shutdown_request i) t.queue t (inl (λ e. cc))
      (Sums-none (unsent t.awaits t.queue) t (Reach-IsCounted h))
Reach-IsCounted (Reach.disconnects {t = t} h) = disconnect-IsCounted t (Reach-IsCounted h)
Reach-IsCounted (Reach.reports {t = t} o answer a h) =
    complete-IsCounted o answer t (Reach-IsCounted h)
Reach-IsCounted (Reach.turns {t = t} a h) = complete-IsCounted _ none t (Reach-IsCounted h)
Reach-IsCounted (Reach.expires {t = t} i h) = expire-IsCounted i t (Reach-IsCounted h)
Reach-IsCounted (Reach.resets {t = t} h) = reset_stream-IsCounted (cancel_all t.queue t)
Reach-IsCounted (Reach.clears {t = t} h) = (omega arith, refl)
Reach-IsCounted (Reach.reading {t = t} r h) =
    let e = Reads-size r in
    let w = Reach-IsCounted h in
    let small = w.0 in let same = w.1 in (omega (arith, e, small), omega (arith, e, same))

-- ===== src/Stream/Requests/Sums.antt =====
-- The size of the write queue under the parts of the operations (src/panda/unievent/Stream.cc).
use uni_event.Base.{
  ℕ, ◌+◌, ◌-◌, ◌%◌, ◌<◌, ◌≡◌, ◌≢◌, ◌⊎◌, refl, Bool, true, false, Option, some, List, [], ◌∷◌, ◌++◌,
  inl, inr, arith, if◌then◌else◌,
}
use uni_event.Stream.{
  Stream, bytes, word, out_connected_bit, shutting_bit, has, raise, sub_sizes, write_exec, Started,
  handed_on, canceled_later, reset_state,
}
use uni_event.Stream.Writes.{sub_sizes_lem}
use uni_event.Stream.Requests.{
  connect_exec, shutdown_exec, Req, connect_request, write_request, shutdown_request,
  disconnect_request, Problem, canceled, Awaits, backend, next_turn, Requests, after_start, exec,
  started, reset_stream, buffers, resume, push, settle, skipped, left, leave, cancel_all,
}
use uni_event.Stream.Requests.Bytes.{
  size, total, sum, sum-append, unsent, unsent-append, settle-size, skipped-unsent, unsent-nobody,
  buffers-total,
}

-- A size that makes up `left` bytes and those that are lost, without those that were forgotten.
abbrev pub Sums : ℕ → Requests → Type 0
Sums n t =
    (t.stream.wq_size < word)
    × ((t.stream.wq_size + sum t.forgotten) % word ≡ (n + sum t.lost) % word)

abbrev pub IsCounted : Requests → Type 0
IsCounted t = Sums (unsent t.awaits t.queue) t

pub left-Sums :
    (r : Req) (rs : List Req) (o : Option Problem) (t : Requests) (s : Stream)
    → s.wq_size ≡ t.stream.wq_size
    → Sums (unsent t.awaits (r ∷ rs)) t
    → Sums (total rs) (left r o (record t { stream = s }))
unfolding left
left-Sums r rs o t s e w =
    let f = skipped-unsent r rs t.awaits in
    let g = sum-append t.lost (skipped r t.awaits) in
    let small = w.0 in let same = w.1 in (omega (arith, e, small), omega (arith, e, f, g, same))

pub leave-Sums :
    (r : Req) (rs : List Req) (o : Option Problem) (t : Requests)
    → Sums (unsent t.awaits (r ∷ rs)) t
    → Sums (total rs) (leave r o t)
unfolding leave
leave-Sums r rs o t w = left-Sums r rs o t (settle r o t.stream) (settle-size r o t.stream) w

write-IsCounted :
    (i : ℕ) (ns : List ℕ) (rs : List Req) (t : Requests)
    → Sums (bytes ns + total rs) t
    → IsCounted (started (exec (write_request i ns) t.stream) (write_request i ns ∷ rs) t)
unfolding started exec connect_exec shutdown_exec write_exec
write-IsCounted i ns rs t w = go (has out_connected_bit t.stream.flags)
  where
    size_left : ℕ
    size_left = (t.stream.wq_size + (word - bytes ns % word)) % word

    taken : sub_sizes ns t.stream.wq_size ≡ size_left
    taken =
        let small = w.0 in sub_sizes_lem ns t.stream.wq_size size_left (omega arith) (omega arith)

    go :
        (c : Bool)
        → let x : Stream × Started =
            if c
            then (record t.stream { wq_size = sub_sizes ns t.stream.wq_size }, handed_on)
            else (t.stream, canceled_later) in
          IsCounted (started (x.0, after_start x.1) (write_request i ns ∷ rs) t)
    go true =
        let same = w.1 in
        unfold started after_start in (omega (arith, taken), omega (arith, taken, same))
    go false = unfold started after_start in w

shutdown-IsCounted :
    (i : ℕ) (rs : List Req) (t : Requests)
    → Sums (total rs) t
    → IsCounted (started (exec (shutdown_request i) t.stream) (shutdown_request i ∷ rs) t)
unfolding started exec connect_exec shutdown_exec
shutdown-IsCounted i rs t w = go (has out_connected_bit t.stream.flags)
  where
    go :
        (c : Bool)
        → let x : Stream × Awaits =
            if c
            then (record t.stream { flags = raise shutting_bit t.stream.flags }, backend)
            else (t.stream, next_turn) in
          IsCounted (started x (shutdown_request i ∷ rs) t)
    go true = unfold started in w
    go false = let same = w.1 in unfold started in (w.0, omega (arith, same))

pub resume-IsCounted : (rs : List Req) (t : Requests) → Sums (total rs) t → IsCounted (resume rs t)
unfolding resume
resume-IsCounted [] t w = w
resume-IsCounted (connect_request i ∷ rs) t w =
    let same = w.1 in unfold exec connect_exec shutdown_exec started in (w.0, omega (arith, same))
resume-IsCounted (write_request i ns ∷ rs) t w = write-IsCounted i ns rs t w
resume-IsCounted (shutdown_request i ∷ rs) t w =
    let same = w.1 in shutdown-IsCounted i rs t (w.0, omega (arith, same))
resume-IsCounted (disconnect_request ∷ rs) t w =
    let e = buffers-total rs in
    resume-IsCounted rs (record (reset_stream t) { forgotten = buffers rs })
      (unfold reset_stream reset_state in (omega arith, omega (arith, e)))

pub push-IsCounted :
    (r : Req) (q : List Req) (t : Requests)
    → r ≢ disconnect_request ⊎ q ≢ []
    → Sums (size r + unsent t.awaits q) t
    → IsCounted (push r q t)
unfolding push resume
push-IsCounted (connect_request i) [] t n w = resume-IsCounted (connect_request i ∷ []) t w
push-IsCounted (write_request i ns) [] t n w = write-IsCounted i ns [] t w
push-IsCounted (shutdown_request i) [] t n w = shutdown-IsCounted i [] t w
push-IsCounted disconnect_request [] t (inl n) w = absurd (n refl)
push-IsCounted disconnect_request [] t (inr n) w = absurd (n refl)
push-IsCounted r (q ∷ qs) t n w =
    let e = unsent-append t.awaits q qs r in let same = w.1 in (w.0, omega (arith, e, same))

-- A cancellation of the front of a queue, with what stands behind it.
pub cancel_all-Sums :
    (p rs : List Req) (t : Requests)
    → Sums (unsent t.awaits (p ++ rs)) t
    → Sums (unsent (cancel_all p t).awaits rs) (cancel_all p t)
unfolding cancel_all
cancel_all-Sums [] rs t w = w
cancel_all-Sums (r ∷ p) rs t w =
    let u = leave r (some canceled) t in
    let v : Sums (total (p ++ rs)) u = leave-Sums r (p ++ rs) (some canceled) t w in
    let e = unsent-nobody (p ++ rs) in
    let same = v.1 in cancel_all-Sums p rs u (v.0, unfold leave left in omega (arith, same, e))

pub reset_stream-IsCounted : (t : Requests) → IsCounted (resume [] (reset_stream t))
unfolding resume reset_stream reset_state
reset_stream-IsCounted t = (omega arith, refl)

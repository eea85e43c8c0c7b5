-- ===== src/Stream/Requests/Forgotten.antt =====
-- Writes behind a disconnect request of a stream (src/panda/unievent/Stream.cc).
use uni_event.Base.{
  ℕ, ◌-◌, ◌<◌, ◌≡◌, refl, ap, ◌∙◌, true, false, Option, none, some, List, ◌∷◌, arith, inl,
}
use uni_event.Stream.{
  Stream, bytes, word, established_bit, connecting_bit, out_connected_bit, has, raise, lower,
  sub_sizes, write_exec, reset_state,
}
use uni_event.Stream.Flags.{connects, establishes, resets, apply, sound, apply-sound}
use uni_event.Stream.Connected.{set_connect_result-Connects}
use uni_event.Stream.Writes.{sub_sizes_lem}
use uni_event.Stream.Requests.{
  connect_exec, shutdown_exec, Req, connect_request, write_request, disconnect_request, Problem,
  Requests, exec, started, reset_stream, resume, settle, left, leave, connect_event, read_error,
  connected, happened, complete,
}
use uni_event.Stream.Requests.Moves.{is_connect, settle-Linked}
use uni_event.Stream.Requests.Steps.{Reach}
use uni_event.Stream.Requests.Front.{Reach-IsStarted}
use uni_event.Stream.Requests.Sizes.{connect_event-size}

-- A connect that succeeds, when the backend starts to read.
connect_event-joined :
    (s : Stream)
    → sound s.flags ≡ true
    → let x = connect_event none none s in (x.1 ≡ none) × (has out_connected_bit x.0.flags ≡ true)
unfolding connect_event
connect_event-joined s h =
    let w =
      set_connect_result-Connects (record s { flags = raise established_bit s.flags })
        (unfold apply in apply-sound establishes s.flags h) in
    (ap read_error w.2 ∙ unfold read_error in refl, w.0.1)

-- A connect that succeeds starts the write behind it.
connected-write :
    (j k : ℕ) (ns : List ℕ) (rs : List Req) (t : Requests) (e : Stream × Option Problem)
    → e.1 ≡ none
    → has out_connected_bit e.0.flags ≡ true
    → let u = connected j (write_request k ns ∷ rs) t e in
      (u.queue ≡ write_request k ns ∷ rs) × (u.stream.wq_size ≡ sub_sizes ns e.0.wq_size)
unfolding connected left resume exec connect_exec shutdown_exec started write_exec
connected-write j k ns rs t (s, none) e h = rw h (refl, refl)
connected-write j k ns rs t (s, some p) e h = cc

reset-sound :
    (s : Stream) → sound s.flags ≡ true → sound (raise connecting_bit (reset_state s).flags) ≡ true
unfolding reset_state apply lower
reset-sound s h = apply-sound connects (apply resets s.flags) (apply-sound resets s.flags h)

-- In a state of a stream whose queue has a write, a disconnect, a connect and a further write at its
-- front, the last one of at least one byte and less than 2^64: once the first is done and the connect
-- succeeds, with the backend starting to read, the further write is started, and the size of the
-- write queue has wrapped around: it is 2^64 less the bytes of that write.
pub complete-wraps :
    {is : List ℕ} (i j k : ℕ) (ms ns : List ℕ) (rs : List Req) (o : Option Problem) (t : Requests)
    → Reach is t
    → t.queue
      ≡ write_request i ms ∷ disconnect_request ∷ connect_request j ∷ write_request k ns ∷ rs
    → 0 < bytes ns
    → bytes ns < word
    → let u = complete none none (complete o none t) in
      (u.queue ≡ write_request k ns ∷ rs) × (u.stream.wq_size ≡ word - bytes ns)
unfolding complete happened resume leave left exec connect_exec shutdown_exec started reset_stream
    reset_state
complete-wraps i j k ms ns rs o t h e some_bytes small =
    let w = Reach-IsStarted h in
    let connects_not : has connecting_bit t.stream.flags ≡ false = w.0.1 ∙ ap is_connect e in
    let s : Stream = settle (write_request i ms) o t.stream in
    let fine : sound s.flags ≡ true =
      (settle-Linked (write_request i ms) o t.stream false (inl refl) (w.0.0, connects_not)).0 in
    let s' : Stream = record (reset_state s) {
      flags = raise connecting_bit (reset_state s).flags;
    } in
    let x = connect_event none none s' in
    let joined = connect_event-joined s' (reset-sound s fine) in
    let empty : x.0.wq_size ≡ 0 = connect_event-size none none s' in
    let v : Requests =
      happened
        (write_request i ms ∷ disconnect_request ∷ connect_request j ∷ write_request k ns ∷ rs) o
        none t in
    let c : complete o none t ≡ v = ap (λ q. happened q o none t) e in
    let r = connected-write j k ns rs v x joined.0 joined.1 in
    let size : sub_sizes ns x.0.wq_size ≡ word - bytes ns =
      sub_sizes_lem ns x.0.wq_size (word - bytes ns) (omega arith) (omega arith) in
    rw c (r.0, r.1 ∙ size)

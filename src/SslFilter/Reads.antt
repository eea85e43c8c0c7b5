-- ===== src/SslFilter/Reads.antt =====
-- The reads of a TLS filter keep its invariant (src/panda/unievent/ssl/SslFilter.cc).
use uni_event.Base.{
  ℕ, zero, suc, ◌+◌, ◌≡◌, refl, Bool, true, false, not, ◌&&◌, ◌||◌, Option, none, some, List, [],
  ◌∷◌, if◌then◌else◌, arith, inl, inr, ◌⊎◌,
}
use uni_event.SslFilter.{
  State, initial, negotiating, error, terminal, ErrorCode, success, Event, read_data, log, checked,
  is_state, is_error, SslFilter, reset, react, answer, negotiation_finished, Handshake,
  after_handshake, fatal, handshake_result, negotiate, Piece, Reading, read_loop, read_pending,
  read_failed, handle_read, size,
}
use uni_event.SslFilter.Sound.{is_open, fits, IsSound, react-IsSound, if-IsSound, finished-IsSound}
use uni_event.SslFilter.Handshakes.{negotiate-IsSound, end-IsSound}

-- The states in which the loop of reads begins.
abbrev runs : State → Bool
runs s = is_state s initial || is_state s terminal

open-reads :
    (s : State) (es : List Event)
    → runs s ≡ true
    → is_state s initial ≡ false
    → fits s es ≡ true
    → is_open es ≡ true
open-reads initial es r i h = cc
open-reads negotiating es r i h = cc
open-reads error es r i h = cc
open-reads terminal es r i h = h

react-runs : (b : Bool) (f : SslFilter) → runs f.state ≡ true → runs (react b f).state ≡ true
unfolding react reset
react-runs b f h = ground arith

both : {a b : Bool} → a ≡ true → b ≡ true → a && b ≡ true
both {a} {b} h k = ground arith

loop-IsSound :
    (r : Reading) (ps : List Piece) (f : SslFilter)
    → IsSound f
    → runs f.state ≡ true
    → IsSound (read_loop r ps f)
unfolding read_loop
loop-IsSound r [] f v t =
    if-IsSound (is_state f.state initial) _ _ (λ h. v) (λ h. end-IsSound r f v)
loop-IsSound r (p ∷ ps) f v t =
    let given : SslFilter = log (read_data p.data_read) f in
    let g : SslFilter = react p.resets given in
    let rest : SslFilter = read_loop r ps g in
    let sound : is_state f.state initial ≡ false → IsSound g = λ h.
      react-IsSound p.resets given
        (v.0, v.1, v.2, λ u. both (open-reads f.state f.events t h (v.2 u)) (v.3 u)) in
    if-IsSound (is_state f.state initial) f (if p.wantread then rest else g) (λ h. v)
      (λ h.
        if-IsSound p.wantread rest g
          (λ k. loop-IsSound r ps g (sound h) (react-runs p.resets given t)) (λ k. sound h))

-- A filter that is to read is not in error.
abbrev IsAlive : SslFilter × ℕ → Type 0
IsAlive r = (r.1 ≡ 0) ⊎ (is_state r.0.state error ≡ false)

if-IsAlive : (b : Bool) (x y : SslFilter × ℕ) → IsAlive x → IsAlive y → IsAlive (if b then x else y)
if-IsAlive true x y h k = h
if-IsAlive false x y h k = k

finished-alive :
    (c resets : Bool) (f : SslFilter)
    → f.state ≡ negotiating
    → is_state (negotiation_finished c resets success f).state error ≡ false
unfolding negotiation_finished answer react reset
finished-alive c resets f h = ground arith

after-IsAlive :
    (h : Handshake) (buf : List ℕ) (f : SslFilter)
    → f.state ≡ negotiating
    → IsAlive (after_handshake h buf f)
unfolding after_handshake
after-IsAlive h [] f n =
    if-IsAlive h.finished _ _ (inr (finished-alive h.is_connected h.resets f n)) (inl refl)
after-IsAlive h (c ∷ cs) f n = inl refl

result-IsAlive :
    (h : Handshake) (o : Option (ℕ × ErrorCode)) (f : SslFilter)
    → f.state ≡ negotiating
    → IsAlive (handshake_result h o f)
unfolding handshake_result
result-IsAlive h none f n = after-IsAlive h h.write_buf f n
result-IsAlive h (some (c, err)) f n =
    if-IsAlive (fatal c) _ _ (inl refl) (after-IsAlive h h.write_buf f n)

negotiate-IsAlive : (h : Handshake) (f : SslFilter) → IsAlive (negotiate h f)
unfolding negotiate
negotiate-IsAlive h f =
    if-IsAlive (is_error h.start_error) _ _ (inl refl) (result-IsAlive h h.result _ refl)

runs-from : (s : State) → is_state s error ≡ false → is_state s negotiating ≡ false → runs s ≡ true
runs-from initial h k = refl
runs-from negotiating h k = cc
runs-from error h k = cc
runs-from terminal h k = refl

pending-IsSound :
    (r : Reading) (x : SslFilter × ℕ) → IsSound x.0 → IsAlive x → IsSound (read_pending r x)
unfolding read_pending
pending-IsSound r (f, zero) v a = v
pending-IsSound r (f, suc n) v (inl e) = absurd (omega (arith, e))
pending-IsSound r (f, suc n) v (inr e) =
    if-IsSound (is_state f.state negotiating) _ _ (λ h. v)
      (λ h. loop-IsSound r r.reads f v (runs-from f.state e h))

failed-IsSound : (r : Reading) (f : SslFilter) → IsSound f → IsSound (read_failed r f)
unfolding read_failed
failed-IsSound r f v =
    if-IsSound (not r.connecting) _ _ (λ h. v)
      (λ h.
        if-IsSound (not r.init_finished) _ _
          (λ k. finished-IsSound r.is_connected r.handshake.resets r.err f v) (λ k. v))

pub read-IsSound : (r : Reading) (f : SslFilter) → IsSound f → IsSound (handle_read r f)
unfolding handle_read
read-IsSound r f v =
    let g : SslFilter = checked (r.connecting || r.is_connected) f in
    if-IsSound (is_state f.state error) _ _ (λ h. v)
      (λ h.
        if-IsSound (is_error r.err) _ _ (λ k. failed-IsSound r g v)
          (λ k.
            if-IsSound (not r.init_finished) _ _
              (λ l.
                pending-IsSound r (negotiate r.handshake g)
                  (negotiate-IsSound r.handshake g (v.0, v.3)) (negotiate-IsAlive r.handshake g))
              (λ l. pending-IsSound r (g, r.in_buffer + size r.encbuf) v (inr h))))

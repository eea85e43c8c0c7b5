-- ===== src/SslFilter/Handshakes.antt =====
-- The handshake of a TLS filter keeps its invariant (src/panda/unievent/ssl/SslFilter.cc).
use uni_event.Base.{
  ℕ, ◌≡◌, refl, sym, ap, ◌∙◌, Bool, true, false, not, ◌&&◌, ◌||◌, Option, none, some, List, [], ◌∷◌,
  ◌++◌, ◌==◌, arith,
}
use uni_event.SslFilter.{
  initial, negotiating, Profile, server, client, ErrorCode, success, Event, came, connected, log,
  checked, is_error, SslFilter, create, reset, Handshake, subreq_write, after_handshake, fatal,
  handshake_result, negotiate, start_ssl_connection, handle_connect, accept_filter, Reading,
  read_end,
}
use uni_event.SslFilter.Sound.{
  coming, ending, requests, waiting, fits, is_trusted, is_ordered, IsSound, reset-IsSound,
  react-IsSound, if-IsSound, if-first, waiting-negotiating, finished-IsSound,
}

pub subreq-IsSound :
    (buf : List ℕ) (final : Bool) (f : SslFilter) → IsSound f → IsSound (subreq_write buf final f)
unfolding subreq_write
subreq-IsSound buf final f v = go f.source_request
  where
    go :
        (o : Option ℕ)
        → IsSound (elim o [
          | none ↦ record f { broken = true }
          | some r ↦ log (Event.handshake_write r buf final) f
        ])
    go none = v
    go (some r) = v

after-IsSound :
    (h : Handshake) (buf : List ℕ) (f : SslFilter) → IsSound f → IsSound (after_handshake h buf f).0
unfolding after_handshake
after-IsSound h [] f v =
    if-first h.finished _ _ (finished-IsSound h.is_connected h.resets success f v) v
after-IsSound h (c ∷ cs) f v = subreq-IsSound (c ∷ cs) h.finished f v

result-IsSound :
    (h : Handshake) (o : Option (ℕ × ErrorCode)) (f : SslFilter)
    → IsSound f
    → IsSound (handshake_result h o f).0
unfolding handshake_result
result-IsSound h none f v = after-IsSound h h.write_buf f v
result-IsSound h (some (c, err)) f v =
    if-first (fatal c) _ _ (finished-IsSound h.is_connected h.resets err f v)
      (after-IsSound h h.write_buf f v)

-- All that `negotiate` needs: the state may be any.
abbrev pub IsReady : SslFilter → Type 0
IsReady f =
    (coming f.events ≡ requests f.source_request ++ ending f.events)
    × (is_trusted f.events ≡ true → is_ordered f.events ≡ true)

pub negotiate-IsSound : (h : Handshake) (f : SslFilter) → IsReady f → IsSound (negotiate h f).0
unfolding negotiate
negotiate-IsSound h f v =
    if-first (is_error h.start_error) _ _
      (finished-IsSound h.is_connected h.resets h.start_error g sound)
      (result-IsSound h h.result g sound)
  where
    start : SslFilter
    start = checked ((not h.init_finished && h.connecting) || h.renegotiate) f

    g : SslFilter
    g = record start { state = negotiating; events = Event.reading_started ∷ f.events }

    sound : IsSound g
    sound = (v.0, waiting-negotiating f.source_request, λ _. refl, v.1)

reset-none : (f : SslFilter) → IsSound f → (reset f).source_request ≡ none
unfolding reset
reset-none f v = ground arith

reset-initial : (f : SslFilter) → (reset f).state ≡ initial
unfolding reset
reset-initial f = ground arith

start-IsSound :
    (p : Profile) (h : Handshake) (f : SslFilter) → IsReady f → IsSound (start_ssl_connection p h f)
unfolding start_ssl_connection
start-IsSound p h f v = negotiate-IsSound h (record f { profile = p }) v

-- After a reset each request that came has had its end.
reset-ended : (f : SslFilter) → IsSound f → coming (reset f).events ≡ ending (reset f).events
reset-ended f v =
    (reset-IsSound f v).0 ∙ ap (λ r. requests r ++ ending (reset f).events) (reset-none f v)

pub connect-IsSound :
    (err : ErrorCode) (req : ℕ) (h : Handshake) (f : SslFilter)
    → IsSound f
    → IsSound (handle_connect err req h f)
unfolding handle_connect
connect-IsSound err req h f v =
    if-IsSound (is_error err) _ _ (λ k. react-IsSound h.resets passed passed-IsSound)
      (λ k.
        start-IsSound client h waits (ap (λ l. req ∷ l) (reset-ended f v), (reset-IsSound f v).3))
  where
    g : SslFilter
    g = log (came req) (reset f)

    passed : SslFilter
    passed = log (connected err (some req)) g

    waits : SslFilter
    waits = record g { source_request = some req }

    passed-IsSound : IsSound passed
    passed-IsSound = (
      ap (λ l. req ∷ l) (reset-ended f v)
          ∙ ap (λ r. requests r ++ req ∷ ending (reset f).events) (sym (reset-none f v)),
      ap (λ r. waiting r (reset f).state) (reset-none f v),
      λ _.
          ap (λ s. fits s (connected err (some req) ∷ came req ∷ (reset f).events))
            (reset-initial f),
      (reset-IsSound f v).3,
    )

pub accept-IsSound : (req : ℕ) (h : Handshake) → IsSound (accept_filter req h)
unfolding accept_filter create
accept-IsSound req h =
    start-IsSound server h (record (log (came req) (create true)) { source_request = some req })
      (refl, λ _. refl)

pub end-IsSound : (r : Reading) (f : SslFilter) → IsSound f → IsSound (read_end r f)
unfolding read_end
end-IsSound r f v =
    if-IsSound (r.read_code == 2) _ _ (λ h. v)
      (λ h.
        if-IsSound (r.read_code == 6) _ _ (λ h. v)
          (λ h.
            if-IsSound (r.read_code == 3) _ _ (λ h. subreq-IsSound r.write_buf false f v) (λ h. v)))

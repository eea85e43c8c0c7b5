-- ===== src/SslFilter/Answers.antt =====
-- The answers to the requests that come to a TLS filter (src/panda/unievent/ssl/SslFilter.cc).
use uni_event.Base.{
  ℕ, ◌≡◌, refl, Bool, true, false, not, ◌&&◌, Option, none, some, List, [], ◌++◌, ◌==◌,
}
use uni_event.SslFilter.{
  negotiating, terminal, ErrorCode, success, Event, log, checked, is_state, is_error,
  nest_ssl_error, SslFilter, create, reset, negotiation_finished, Handshake, handle_connect,
  accept_filter, Reading, handle_read, write, encrypt, handle_write, handle_eof, connection_aborted,
}
use uni_event.SslFilter.Sound.{
  coming, ending, requests, is_trusted, is_ordered, IsSound, reset-IsSound, finished-IsSound,
  if-IsSound,
}
use uni_event.SslFilter.Handshakes.{connect-IsSound, accept-IsSound}
use uni_event.SslFilter.Reads.{read-IsSound}

-- The steps of the filter of one stream, which connects or is of a client that was accepted. The
-- arguments are anything that OpenSSL, the stream and the callbacks may do.
pub data Reach : SslFilter → Type 0 where
  created : Reach (create false)
  accepts : (req : ℕ) (h : Handshake) → Reach (accept_filter req h)
  connects :
      {f : SslFilter} (err : ErrorCode) (req : ℕ) (h : Handshake)
      → Reach f
      → Reach (handle_connect err req h f)
  reads : {f : SslFilter} (r : Reading) → Reach f → Reach (handle_read r f)
  writes :
      {f : SslFilter} (bufs : List (List ℕ × Option (List ℕ))) (err : ErrorCode) (req : ℕ)
      → Reach f
      → Reach (write bufs err req f)
  written_to :
      {f : SslFilter} (err : ErrorCode) (orig : Option ℕ) (final : Bool) (r : Reading)
      → Reach f
      → Reach (handle_write err orig final r f)
  ends : {f : SslFilter} (c resets : Bool) → Reach f → Reach (handle_eof c resets f)
  resets : {f : SslFilter} → Reach f → Reach (reset f)

write-IsSound :
    (bufs : List (List ℕ × Option (List ℕ))) (err : ErrorCode) (req : ℕ) (f : SslFilter)
    → IsSound f
    → IsSound (write bufs err req f)
unfolding write
write-IsSound bufs err req f v = go (encrypt bufs)
  where
    g : SslFilter
    g = checked (is_state f.state terminal) f

    go :
        (o : Option (List (List ℕ)))
        → IsSound (elim o [
          | none ↦ log (Event.write_failed req (nest_ssl_error err)) g
          | some out ↦ log (Event.data_write req out) g
        ])
    go none = v
    go (some out) = v

done-IsSound :
    (err : ErrorCode) (orig : Option ℕ) (final : Bool) (r : Reading) (f : SslFilter)
    → IsSound f
    → IsSound (handle_write err orig final r f)
unfolding handle_write
done-IsSound err (some orig) final r f v = v
done-IsSound err none final r f v =
    let g : SslFilter = negotiation_finished r.is_connected r.handshake.resets err f in
    let sound : IsSound g = finished-IsSound r.is_connected r.handshake.resets err f v in
    if-IsSound (is_error err) _ _ (λ h. sound)
      (λ h.
        if-IsSound (not final) _ _ (λ k. v)
          (λ k.
            if-IsSound (not (r.in_buffer == 0) && f.has_server) _ _
              (λ l. read-IsSound (record r { encbuf = []; err = success }) g sound) (λ l. sound)))

eof-IsSound : (c b : Bool) (f : SslFilter) → IsSound f → IsSound (handle_eof c b f)
unfolding handle_eof
eof-IsSound c b f v =
    if-IsSound (is_state f.state terminal) _ _ (λ h. v)
      (λ h.
        if-IsSound (is_state f.state negotiating) _ _
          (λ k. finished-IsSound c b connection_aborted f v) (λ k. v))

Reach-IsSound : {f : SslFilter} → Reach f → IsSound f
unfolding create
Reach-IsSound created = (refl, refl, λ _. refl, λ _. refl)
Reach-IsSound (accepts req h) = accept-IsSound req h
Reach-IsSound (connects {f} err req h r) = connect-IsSound err req h f (Reach-IsSound r)
Reach-IsSound (reads {f} a r) = read-IsSound a f (Reach-IsSound r)
Reach-IsSound (writes {f} bufs err req r) = write-IsSound bufs err req f (Reach-IsSound r)
Reach-IsSound (written_to {f} err orig final a r) =
    done-IsSound err orig final a f (Reach-IsSound r)
Reach-IsSound (ends {f} c b r) = eof-IsSound c b f (Reach-IsSound r)
Reach-IsSound (resets {f} r) = reset-IsSound f (Reach-IsSound r)

-- The requests that came to a filter are those that have had their end, an answer or a reset or the loss
-- of the filter that listens, each of them once and in the same order, and after them the one that
-- waits, if any.
pub Reach-coming :
    {f : SslFilter} → Reach f → coming f.events ≡ requests f.source_request ++ ending f.events
Reach-coming r = (Reach-IsSound r).0

-- Where a negotiation finds its handle connected only on an open connection, decrypted data is passed
-- on only on an open connection. A connection is open after a success as the last answer to a
-- request, or as the answer that the loss of the filter that listens took away, until a reset or a new
-- request comes.
pub Reach-ordered :
    {f : SslFilter} → Reach f → is_trusted f.events ≡ true → is_ordered f.events ≡ true
Reach-ordered r = (Reach-IsSound r).3

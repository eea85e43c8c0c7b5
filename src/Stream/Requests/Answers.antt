-- ===== src/Stream/Requests/Answers.antt =====
-- The callbacks of the requests of a stream (src/panda/unievent/Stream.cc).
use uni_event.Base.{
  ℕ, ◌≡◌, refl, sym, ap, ◌∙◌, Bool, true, false, ◌&&◌, Option, none, some, List, [], ◌∷◌, ◌++◌,
  append_assoc, append-nil, if◌then◌else◌, length, ◌==◌,
}
use uni_event.Stream.{Stream, connecting_bit, has, write_queued}
use uni_event.Stream.Requests.{
  Req, connect_request, write_request, shutdown_request, disconnect_request, Problem, canceled,
  timed_out, Awaits, Requests, fresh, exec, started, reset_stream, buffers, resume, push, connect,
  write, shutdown, disconnect, settle, told, left, leave, cancel_all, reset, clear, connect_event,
  connected, happened, complete, is_empty, before, expired, expire,
}
use uni_event.Stream.Requests.Steps.{Reach, before-split}

-- The numbers of the requests of a queue that have a callback, and of the callbacks called.
abbrev pub ids : List Req → List ℕ
ids [] = []
ids (connect_request i ∷ rs) = i ∷ ids rs
ids (write_request i ns ∷ rs) = i ∷ ids rs
ids (shutdown_request i ∷ rs) = i ∷ ids rs
ids (disconnect_request ∷ rs) = ids rs

abbrev pub numbers : List (ℕ × Option Problem) → List ℕ
numbers [] = []
numbers (a ∷ l) = a.0 ∷ numbers l

numbers-append : (xs ys : List (ℕ × Option Problem)) → numbers (xs ++ ys) ≡ numbers xs ++ numbers ys
numbers-append [] ys = refl
numbers-append (x ∷ xs) ys = ap (λ l. x.0 ∷ l) (numbers-append xs ys)

ids-append : (xs ys : List Req) → ids (xs ++ ys) ≡ ids xs ++ ids ys
ids-append [] ys = refl
ids-append (connect_request i ∷ xs) ys = ap (λ l. i ∷ l) (ids-append xs ys)
ids-append (write_request i ns ∷ xs) ys = ap (λ l. i ∷ l) (ids-append xs ys)
ids-append (shutdown_request i ∷ xs) ys = ap (λ l. i ∷ l) (ids-append xs ys)
ids-append (disconnect_request ∷ xs) ys = ids-append xs ys

-- The requests that are answered, and then those of a queue.
abbrev pub asked : Requests → List Req → List ℕ
asked t q = numbers t.answered ++ ids q

told-ids :
    (r : Req) (o : Option Problem) (rs : List Req) → numbers (told r o) ++ ids rs ≡ ids (r ∷ rs)
unfolding told
told-ids (connect_request i) o rs = refl
told-ids (write_request i ns) o rs = refl
told-ids (shutdown_request i) o rs = refl
told-ids disconnect_request o rs = refl

left-asked :
    (r : Req) (rs : List Req) (o : Option Problem) (t : Requests) (s : Stream)
    → asked (left r o (record t { stream = s })) rs ≡ asked t (r ∷ rs)
unfolding left
left-asked r rs o t s =
    ap (λ l. l ++ ids rs) (numbers-append t.answered (told r o))
    ∙ append_assoc (numbers t.answered) (numbers (told r o)) (ids rs)
    ∙ ap (λ l. numbers t.answered ++ l) (told-ids r o rs)

leave-asked :
    (r : Req) (rs : List Req) (o : Option Problem) (t : Requests)
    → asked (leave r o t) rs ≡ asked t (r ∷ rs)
unfolding leave
leave-asked r rs o t = left-asked r rs o t (settle r o t.stream)

cancel_all-asked : (p rs : List Req) (t : Requests) → asked (cancel_all p t) rs ≡ asked t (p ++ rs)
unfolding cancel_all
cancel_all-asked [] rs t = refl
cancel_all-asked (r ∷ p) rs t =
    cancel_all-asked p rs (leave r (some canceled) t) ∙ leave-asked r (p ++ rs) (some canceled) t

started-asked :
    (x : Stream × Awaits) (q : List Req) (t : Requests)
    → asked (started x q t) (started x q t).queue ≡ asked t q
unfolding started
started-asked (s, a) q t = refl

resume-asked : (q : List Req) (t : Requests) → asked (resume q t) (resume q t).queue ≡ asked t q
unfolding resume
resume-asked [] t = refl
resume-asked (connect_request i ∷ rs) t =
    started-asked (exec (connect_request i) t.stream) (connect_request i ∷ rs) t
resume-asked (write_request i ns ∷ rs) t =
    started-asked (exec (write_request i ns) t.stream) (write_request i ns ∷ rs) t
resume-asked (shutdown_request i ∷ rs) t =
    started-asked (exec (shutdown_request i) t.stream) (shutdown_request i ∷ rs) t
resume-asked (disconnect_request ∷ rs) t =
    resume-asked rs (record (reset_stream t) { forgotten = buffers rs })
    ∙ unfold reset_stream in refl

push-asked :
    (r : Req) (q : List Req) (t : Requests)
    → asked (push r q t) (push r q t).queue ≡ asked t q ++ ids (r ∷ [])
unfolding push
push-asked r [] t =
    started-asked (exec r t.stream) (r ∷ []) t
    ∙ ap (λ l. l ++ ids (r ∷ [])) (sym (append-nil (numbers t.answered)))
push-asked r (q ∷ qs) t =
    ap (λ l. numbers t.answered ++ l) (ids-append (q ∷ qs) (r ∷ []))
    ∙ sym (append_assoc (numbers t.answered) (ids (q ∷ qs)) (ids (r ∷ [])))

-- A state of which the numbers that were begun are known.
abbrev pub InOrder : List ℕ → Requests → Type 0
InOrder is t = asked t t.queue ≡ is

cancelled-asked : (t : Requests) → asked (cancel_all t.queue t) [] ≡ asked t t.queue
cancelled-asked t = cancel_all-asked t.queue [] t ∙ ap (asked t) (append-nil t.queue)

reset-InOrder : {is : List ℕ} (t : Requests) → InOrder is t → InOrder is (reset t)
unfolding reset
reset-InOrder t w =
    resume-asked [] (reset_stream (cancel_all t.queue t))
    ∙ unfold reset_stream in (cancelled-asked t ∙ w)

clear-InOrder : {is : List ℕ} (t : Requests) → InOrder is t → InOrder is (clear t)
unfolding clear resume
clear-InOrder t w = cancelled-asked t ∙ w

connected-asked :
    (i : ℕ) (rs : List Req) (t : Requests) (e : Stream × Option Problem)
    → asked (connected i rs t e) (connected i rs t e).queue ≡ asked t (connect_request i ∷ rs)
unfolding connected
connected-asked i rs t (s, none) =
    resume-asked rs (left (connect_request i) none (record t { stream = s }))
    ∙ left-asked (connect_request i) rs none t s
connected-asked i rs t (s, some p) =
    let u = left (connect_request i) (some p) (record t { stream = s }) in
    resume-asked [] (reset_stream (cancel_all rs u))
    ∙ unfold reset_stream in
      (cancel_all-asked rs [] u
        ∙ ap (asked u) (append-nil rs)
        ∙ left-asked (connect_request i) rs (some p) t s)

happened-asked :
    (q : List Req) (o : Option Problem) (answer : Option ℕ) (t : Requests)
    → t.queue ≡ q
    → asked (happened q o answer t) (happened q o answer t).queue ≡ asked t q
unfolding happened
happened-asked [] o answer t e = ap (asked t) e
happened-asked (connect_request i ∷ rs) o answer t e =
    connected-asked i rs t (connect_event o answer t.stream)
happened-asked (write_request i ns ∷ rs) o answer t e =
    resume-asked rs (leave (write_request i ns) o t) ∙ leave-asked (write_request i ns) rs o t
happened-asked (shutdown_request i ∷ rs) o answer t e =
    resume-asked rs (leave (shutdown_request i) o t) ∙ leave-asked (shutdown_request i) rs o t
happened-asked (disconnect_request ∷ rs) o answer t e = ap (asked t) e

expired-asked :
    (i : ℕ) (x : Option (List Req × List Req)) (t : Requests)
    → before i [] t.queue ≡ x
    → asked (expired i x t) (expired i x t).queue ≡ asked t t.queue
unfolding expired
expired-asked i none t e = refl
expired-asked i (some (p, rs)) t e =
    resume-asked rs (leave (shutdown_request i) (some timed_out) (cancel_all p t))
    ∙ leave-asked (shutdown_request i) rs (some timed_out) (cancel_all p t)
    ∙ cancel_all-asked p (shutdown_request i ∷ rs) t
    ∙ ap (asked t) (sym (before-split i [] t.queue p rs e))

disconnect-InOrder : {is : List ℕ} (t : Requests) → InOrder is t → InOrder is (disconnect t)
unfolding disconnect
disconnect-InOrder {is} t w = go (is_empty t.queue)
  where
    inner : (c : Bool) → InOrder is (if c then reset t else push disconnect_request t.queue t)
    inner true = reset-InOrder t w
    inner false = push-asked disconnect_request t.queue t ∙ append-nil (asked t t.queue) ∙ w

    go :
        (c : Bool)
        → InOrder is (
            if c
            then reset_stream t
            else if length t.queue == 1 && has connecting_bit t.stream.flags
            then reset t
            else push disconnect_request t.queue t)
    go true = unfold reset_stream in w
    go false = inner (length t.queue == 1 && has connecting_bit t.stream.flags)

-- In every state of a stream without filters, the requests that were begun are, in order, those whose
-- callback was called, and then those in the queue: each is answered once, the first one first, also
-- when requests are cancelled.
pub Reach-InOrder : {is : List ℕ} {t : Requests} → Reach is t → InOrder is t
unfolding connect write shutdown complete expire fresh
Reach-InOrder Reach.created = refl
Reach-InOrder (Reach.connects {t = t} i h) =
    push-asked (connect_request i) t.queue t ∙ ap (λ l. l ++ i ∷ []) (Reach-InOrder h)
Reach-InOrder (Reach.writes {t = t} i ns h) =
    push-asked (write_request i ns) t.queue (record t { stream = write_queued ns t.stream })
    ∙ ap (λ l. l ++ i ∷ []) (Reach-InOrder h)
Reach-InOrder (Reach.shuts {t = t} i h) =
    push-asked (shutdown_request i) t.queue t ∙ ap (λ l. l ++ i ∷ []) (Reach-InOrder h)
Reach-InOrder (Reach.disconnects {t = t} h) = disconnect-InOrder t (Reach-InOrder h)
Reach-InOrder (Reach.reports {t = t} o answer a h) =
    happened-asked t.queue o answer t refl ∙ Reach-InOrder h
Reach-InOrder (Reach.turns {t = t} a h) = happened-asked t.queue _ none t refl ∙ Reach-InOrder h
Reach-InOrder (Reach.expires {t = t} i h) =
    expired-asked i (before i [] t.queue) t refl ∙ Reach-InOrder h
Reach-InOrder (Reach.resets {t = t} h) = reset-InOrder t (Reach-InOrder h)
Reach-InOrder (Reach.clears {t = t} h) = clear-InOrder t (Reach-InOrder h)
Reach-InOrder (Reach.reading {t = t} r h) = Reach-InOrder h

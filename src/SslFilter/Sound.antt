-- ===== src/SslFilter/Sound.antt =====
-- What every step of a TLS filter keeps (src/panda/unievent/ssl/SslFilter.cc).
use uni_event.Base.{
  ℕ, ◌≡◌, refl, Bool, true, false, not, ◌&&◌, ◌||◌, Option, none, some, List, [], ◌∷◌, ◌++◌,
  if◌then◌else◌, arith,
}
use uni_event.SslFilter.{
  State, negotiating, error, terminal, Profile, unknown, server, client, ErrorCode, success, Event,
  came, was_reset, connected, connection, lost, renegotiated, log, is_state, is_error,
  nest_ssl_error, SslFilter, reset, react, answer, negotiation_finished,
}

abbrev pub requests : Option ℕ → List ℕ
requests none = []
requests (some r) = r ∷ []

-- The requests that came, and those that have had an end: an answer, or a reset, or no filter that
-- listens any more. Both have the newest first.
abbrev pub coming : List Event → List ℕ
coming [] = []
coming (came r ∷ es) = r ∷ coming es
coming (_ ∷ es) = coming es

abbrev pub ending : List Event → List ℕ
ending [] = []
ending (was_reset r ∷ es) = requests r ++ ending es
ending (connected e r ∷ es) = requests r ++ ending es
ending (connection e r ∷ es) = requests r ++ ending es
ending (lost e r ∷ es) = requests r ++ ending es
ending (_ ∷ es) = ending es

abbrev pub waiting : Option ℕ → State → Bool
waiting none s = true
waiting (some r) s = is_state s negotiating || is_state s terminal

-- Whether the last request was answered with a success, or lost where that was its answer, and no reset
-- and no new request came after that.
abbrev pub is_open : List Event → Bool
is_open [] = false
is_open (came r ∷ es) = false
is_open (was_reset r ∷ es) = false
is_open (connected e r ∷ es) = not (is_error e)
is_open (connection e r ∷ es) = not (is_error e)
is_open (lost e r ∷ es) = not (is_error e)
is_open (_ ∷ es) = is_open es

-- A negotiation finds its handle connected only on an open connection.
abbrev pub is_trusted : List Event → Bool
is_trusted [] = true
is_trusted (Event.renegotiated ∷ es) = is_open es && is_trusted es
is_trusted (_ ∷ es) = is_trusted es

-- Decrypted data is given only on an open connection.
abbrev pub is_ordered : List Event → Bool
is_ordered [] = true
is_ordered (Event.read_data d ∷ es) = is_open es && is_ordered es
is_ordered (_ ∷ es) = is_ordered es

abbrev pub fits : State → List Event → Bool
fits s es = if is_state s terminal then is_open es else true

-- The invariant, of the fields that it is about.
abbrev pub Sound : State → Option ℕ → List Event → Type 0
Sound s r es =
    (coming es ≡ requests r ++ ending es)
    × (waiting r s ≡ true)
    × (is_trusted es ≡ true → fits s es ≡ true)
    × (is_trusted es ≡ true → is_ordered es ≡ true)

abbrev pub IsSound : SslFilter → Type 0
IsSound f = Sound f.state f.source_request f.events

pub reset-IsSound : (f : SslFilter) → IsSound f → IsSound (reset f)
unfolding reset
reset-IsSound f v = ground arith

pub react-IsSound : (b : Bool) (f : SslFilter) → IsSound f → IsSound (react b f)
unfolding react
react-IsSound true f v = reset-IsSound f v
react-IsSound false f v = v

-- The state after a negotiation.
abbrev after : ErrorCode → State
after err = if is_error err then error else terminal

fits-after :
    (err : ErrorCode) (es : List Event)
    → is_open es ≡ not (is_error err)
    → fits (after err) es ≡ true
fits-after success es h = h
fits-after (ErrorCode.code n) es h = refl
fits-after (ErrorCode.nested e) es h = refl

nest-error : (err : ErrorCode) → not (is_error (nest_ssl_error err)) ≡ not (is_error err)
unfolding nest_ssl_error
nest-error success = refl
nest-error (ErrorCode.code n) = refl
nest-error (ErrorCode.nested e) = refl

-- The filter that `negotiation_finished` leaves to `answer`.
abbrev ending_filter : ErrorCode → List Event → SslFilter → SslFilter
ending_filter err es f = record f {
  events = es;
  state = if is_error err then error else terminal;
  source_request = none;
}

pub if-IsSound :
    (b : Bool) (f g : SslFilter)
    → (b ≡ true → IsSound f)
    → (b ≡ false → IsSound g)
    → IsSound (if b then f else g)
if-IsSound true f g h k = h refl
if-IsSound false f g h k = k refl

pub if-first :
    (b : Bool) (x y : SslFilter × ℕ)
    → IsSound x.0
    → IsSound y.0
    → let z : SslFilter × ℕ = if b then x else y in IsSound z.0
if-first true x y h k = h
if-first false x y h k = k

answer-IsSound :
    (p : Profile) (b : Bool) (err : ErrorCode) (req : Option ℕ) (es : List Event) (f : SslFilter)
    → coming es ≡ requests req ++ ending es
    → (is_trusted es ≡ true → is_ordered es ≡ true)
    → IsSound (answer p b err req (ending_filter err es f))
unfolding answer
answer-IsSound p b err req es f c o = go p
  where
    e : ErrorCode
    e = nest_ssl_error err

    own : IsSound (log (connected e req) (ending_filter err es f))
    own = (c, refl, λ _. fits-after err (connected e req ∷ es) (nest-error err), o)

    there : IsSound (log (connection e req) (ending_filter err es f))
    there = (c, refl, λ _. fits-after err (connection e req ∷ es) (nest-error err), o)

    gone : IsSound (log (lost e req) (ending_filter err es f))
    gone = (c, refl, λ _. fits-after err (lost e req ∷ es) (nest-error err), o)

    served : IsSound (
        if f.has_server
        then react b (log (connection e req) (ending_filter err es f))
        else log (lost e req) (ending_filter err es f))
    served =
        if-IsSound f.has_server _ _
          (λ k. react-IsSound b (log (connection e req) (ending_filter err es f)) there) (λ k. gone)

    go : (q : Profile) → IsSound (answer q b err req (ending_filter err es f))
    go client = react-IsSound b (log (connected e req) (ending_filter err es f)) own
    go unknown = served
    go server = served

waiting-terminal : (r : Option ℕ) → waiting r terminal ≡ true
waiting-terminal none = refl
waiting-terminal (some r) = refl

pub waiting-negotiating : (r : Option ℕ) → waiting r negotiating ≡ true
waiting-negotiating none = refl
waiting-negotiating (some r) = refl

both-first : (a b : Bool) → a && b ≡ true → a ≡ true
both-first a b h = ground arith

both-second : (a b : Bool) → a && b ≡ true → b ≡ true
both-second a b h = ground arith

pub finished-IsSound :
    (c resets : Bool) (err : ErrorCode) (f : SslFilter)
    → IsSound f
    → IsSound (negotiation_finished c resets err f)
unfolding negotiation_finished
finished-IsSound c resets err f v =
    if-IsSound (is_state f.state terminal || is_state f.state error) f
      (if c then already else answered) (λ h. v)
      (λ h.
        if-IsSound c already answered
          (λ k. (
            v.0,
            waiting-terminal f.source_request,
            both-first (is_open f.events) (is_trusted f.events),
            λ t. v.3 (both-second (is_open f.events) (is_trusted f.events) t),
          ))
          (λ k.
            answer-IsSound f.profile resets err f.source_request (Event.reading_stopped ∷ f.events)
              f v.0 v.3))
  where
    already : SslFilter
    already = record f { state = terminal; events = renegotiated ∷ f.events }

    answered : SslFilter
    answered =
        answer f.profile resets err f.source_request
          (ending_filter err (Event.reading_stopped ∷ f.events) f)

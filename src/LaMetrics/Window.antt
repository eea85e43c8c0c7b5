-- ===== src/LaMetrics/Window.antt =====
-- The ring of measurements as a window on the last ten (src/panda/unievent/backend/LAMetrics.h).
use uni_event.Base.{
  ℕ, suc, ◌≡◌, refl, sym, ap, ◌∙◌, Option, none, some, List, [], ◌∷◌, ◌++◌, append-nil, length,
  take, drop,
}
use uni_event.LaMetrics.{TimeRow, LaMetrics, filled, create, next_idx, handle_timer, get, load_of}

-- The rows from the oldest to the newest.
pub window : LaMetrics → List TimeRow
window m = drop (suc m.ti) m.times ++ take (suc m.ti) m.times

abbrev pub head : List TimeRow → Option TimeRow
head [] = none
head (r ∷ rs) = some r

-- The places of the ring.
data Slot : ℕ → Type 0 where
  s0 : Slot 0
  s1 : Slot 1
  s2 : Slot 2
  s3 : Slot 3
  s4 : Slot 4
  s5 : Slot 5
  s6 : Slot 6
  s7 : Slot 7
  s8 : Slot 8
  s9 : Slot 9

data IsTen : List TimeRow → Type 0 where
  ten : (a b c d e f g h i j : TimeRow) → IsTen (a ∷ b ∷ c ∷ d ∷ e ∷ f ∷ g ∷ h ∷ i ∷ j ∷ [])

next_idx-Slot : {i : ℕ} → Slot i → Slot (next_idx i)
unfolding next_idx
next_idx-Slot s0 = s1
next_idx-Slot s1 = s2
next_idx-Slot s2 = s3
next_idx-Slot s3 = s4
next_idx-Slot s4 = s5
next_idx-Slot s5 = s6
next_idx-Slot s6 = s7
next_idx-Slot s7 = s8
next_idx-Slot s8 = s9
next_idx-Slot s9 = s0

timer-IsTen :
    {i : ℕ} {ts : List TimeRow} (r : TimeRow)
    → Slot i
    → IsTen ts
    → IsTen (handle_timer r (record { times = ts; ti = i })).times
unfolding handle_timer next_idx
timer-IsTen r s0 (ten a b c d e f g h i j) = ten a r c d e f g h i j
timer-IsTen r s1 (ten a b c d e f g h i j) = ten a b r d e f g h i j
timer-IsTen r s2 (ten a b c d e f g h i j) = ten a b c r e f g h i j
timer-IsTen r s3 (ten a b c d e f g h i j) = ten a b c d r f g h i j
timer-IsTen r s4 (ten a b c d e f g h i j) = ten a b c d e r g h i j
timer-IsTen r s5 (ten a b c d e f g h i j) = ten a b c d e f r h i j
timer-IsTen r s6 (ten a b c d e f g h i j) = ten a b c d e f g r i j
timer-IsTen r s7 (ten a b c d e f g h i j) = ten a b c d e f g h r j
timer-IsTen r s8 (ten a b c d e f g h i j) = ten a b c d e f g h i r
timer-IsTen r s9 (ten a b c d e f g h i j) = ten r b c d e f g h i j

timer-window :
    {i : ℕ} {ts : List TimeRow} (r : TimeRow)
    → Slot i
    → IsTen ts
    → window (handle_timer r (record { times = ts; ti = i }))
      ≡ drop 1 (window (record { times = ts; ti = i }) ++ r ∷ [])
unfolding window handle_timer next_idx
timer-window r s0 (ten a b c d e f g h i j) = refl
timer-window r s1 (ten a b c d e f g h i j) = refl
timer-window r s2 (ten a b c d e f g h i j) = refl
timer-window r s3 (ten a b c d e f g h i j) = refl
timer-window r s4 (ten a b c d e f g h i j) = refl
timer-window r s5 (ten a b c d e f g h i j) = refl
timer-window r s6 (ten a b c d e f g h i j) = refl
timer-window r s7 (ten a b c d e f g h i j) = refl
timer-window r s8 (ten a b c d e f g h i j) = refl
timer-window r s9 (ten a b c d e f g h i j) = refl

get-window :
    {i : ℕ} {ts : List TimeRow} (now : TimeRow)
    → Slot i
    → IsTen ts
    → get now (record { times = ts; ti = i })
      ≡ load_of now (head (window (record { times = ts; ti = i })))
unfolding window get next_idx
get-window now s0 (ten a b c d e f g h i j) = refl
get-window now s1 (ten a b c d e f g h i j) = refl
get-window now s2 (ten a b c d e f g h i j) = refl
get-window now s3 (ten a b c d e f g h i j) = refl
get-window now s4 (ten a b c d e f g h i j) = refl
get-window now s5 (ten a b c d e f g h i j) = refl
get-window now s6 (ten a b c d e f g h i j) = refl
get-window now s7 (ten a b c d e f g h i j) = refl
get-window now s8 (ten a b c d e f g h i j) = refl
get-window now s9 (ten a b c d e f g h i j) = refl

-- The measurements of the timer, the first one first.
abbrev pub measured : List TimeRow → LaMetrics → LaMetrics
measured [] m = m
measured (r ∷ rs) m = measured rs (handle_timer r m)

window-IsTen :
    {i : ℕ} {ts : List TimeRow} → Slot i → IsTen ts → IsTen (window (record { times = ts; ti = i }))
unfolding window
window-IsTen s0 (ten a b c d e f g h i j) = ten b c d e f g h i j a
window-IsTen s1 (ten a b c d e f g h i j) = ten c d e f g h i j a b
window-IsTen s2 (ten a b c d e f g h i j) = ten d e f g h i j a b c
window-IsTen s3 (ten a b c d e f g h i j) = ten e f g h i j a b c d
window-IsTen s4 (ten a b c d e f g h i j) = ten f g h i j a b c d e
window-IsTen s5 (ten a b c d e f g h i j) = ten g h i j a b c d e f
window-IsTen s6 (ten a b c d e f g h i j) = ten h i j a b c d e f g
window-IsTen s7 (ten a b c d e f g h i j) = ten i j a b c d e f g h
window-IsTen s8 (ten a b c d e f g h i j) = ten j a b c d e f g h i
window-IsTen s9 (ten a b c d e f g h i j) = ten a b c d e f g h i j

drop-IsTen :
    {ts : List TimeRow} (n : ℕ) (r : TimeRow) (rs : List TimeRow)
    → IsTen ts
    → drop n (drop 1 (ts ++ r ∷ []) ++ rs) ≡ drop (suc n) (ts ++ r ∷ rs)
drop-IsTen n r rs (ten a b c d e f g h i j) = refl

measured-window :
    (rs : List TimeRow) {i : ℕ} {ts : List TimeRow}
    → Slot i
    → IsTen ts
    → let m : LaMetrics = record { times = ts; ti = i } in
      window (measured rs m) ≡ drop (length rs) (window m ++ rs)
unfolding handle_timer
measured-window [] {i} {ts} s t = sym (append-nil (window (record { times = ts; ti = i })))
measured-window (r ∷ rs) s t =
    measured-window rs (next_idx-Slot s) (timer-IsTen r s t)
    ∙ ap (λ w. drop (length rs) (w ++ rs)) (timer-window r s t)
    ∙ drop-IsTen (length rs) r rs (window-IsTen s t)

measured-get :
    (now : TimeRow) (rs : List TimeRow) {i : ℕ} {ts : List TimeRow}
    → Slot i
    → IsTen ts
    → let m = measured rs (record { times = ts; ti = i }) in
      get now m ≡ load_of now (head (window m))
unfolding handle_timer
measured-get now [] s t = get-window now s t
measured-get now (r ∷ rs) s t = measured-get now rs (next_idx-Slot s) (timer-IsTen r s t)

-- The load average is taken since the measurement that the timer made nine events before its last one,
-- and since the creation while there are fewer events: after the events `rs` of a ring that was created
-- with `r`, that is the row at the place `length rs` of ten times `r` and then `rs`.
pub get-measured :
    (now r : TimeRow) (rs : List TimeRow)
    → get now (measured rs (create r)) ≡ load_of now (head (drop (length rs) (filled 10 r ++ rs)))
unfolding create window
get-measured now r rs =
    measured-get now rs s0 (ten r r r r r r r r r r)
    ∙ ap (λ w. load_of now (head w)) (measured-window rs s0 (ten r r r r r r r r r r))

-- ===== src/Stream/Requests/Bits.antt =====
-- The connecting bit of a stream under the changes of Stream/Flags.antt and under its reading
-- (src/panda/unievent/Stream.h and Stream.cc).
use uni_event.Base.{
  ℕ, ◌≡◌, refl, ap, ◌∙◌, Bool, true, false, not, ◌&&◌, ◌||◌, Option, none, some, arith, ◌<◌,
  if◌then◌else◌,
}
use uni_event.Stream.{
  Stream, connecting_bit, reading_bit, established_bit, has, lower, wantread, connect_flags,
  set_connect_result, set_wantread, try_read_start, begin_reading, read_start, read_stop,
  read_ignore, handle_eof, clear_in,
}
use uni_event.Stream.Flags.{
  Change, listens, connects, establishes, shuts, ends_out, ends_in, ignores, heeds, resets, clears,
  results, wants, reads, shuts_down, apply, sound, apply-sound, all_below, all_below_lem, same,
  same_lem,
}
use uni_event.Stream.Requests.Steps.{Reads}

abbrev pub connecting_after : Change → Bool → Bool
connecting_after connects b = true
connecting_after (results succeeded) b = false
connecting_after resets b = false
connecting_after clears b = false
connecting_after _ b = b

abbrev tracks : Change → ℕ → Bool
tracks c f = same (has connecting_bit (apply c f)) (connecting_after c (has connecting_bit f))

tracks-table : (c : Change) → all_below 1024 (tracks c) ≡ true
unfolding all_below apply has
tracks-table listens = refl
tracks-table connects = refl
tracks-table establishes = refl
tracks-table shuts = refl
tracks-table ends_out = refl
tracks-table ends_in = refl
tracks-table ignores = refl
tracks-table heeds = refl
tracks-table resets = refl
tracks-table clears = refl
tracks-table (results true) = refl
tracks-table (results false) = refl
tracks-table (wants true) = refl
tracks-table (wants false) = refl
tracks-table (reads true) = refl
tracks-table (reads false) = refl
tracks-table (shuts_down true) = refl
tracks-table (shuts_down false) = refl

-- Flags as they occur, whose connecting bit is known.
abbrev pub Linked : Bool → ℕ → Type 0
Linked b f = (sound f ≡ true) × (has connecting_bit f ≡ b)

pub apply-Linked :
    (c : Change) (b : Bool) (f : ℕ) → Linked b f → Linked (connecting_after c b) (apply c f)
apply-Linked c b f w = (
  apply-sound c f w.0,
  same_lem _ _ (all_below_lem 1024 (tracks c) f (tracks-table c) small)
      ∙ ap (connecting_after c) w.1,
)
  where
    small : f < 1024
    small = let h = w.0 in ground arith

try-Linked :
    (b : Bool) (answer : Option ℕ) (s : Stream)
    → Linked b s.flags
    → Linked b (try_read_start answer s).0.flags
unfolding try_read_start apply
try-Linked b none s w = apply-Linked (reads true) b s.flags w
try-Linked b (some e) s w = w

begin-Linked :
    (b : Bool) (answer : Option ℕ) (s : Stream)
    → Linked b s.flags
    → Linked b (begin_reading answer s).0.flags
unfolding begin_reading
begin-Linked b answer s w = go (has reading_bit s.flags || not (has established_bit s.flags))
  where
    go :
        (c : Bool)
        → let r : Stream × Option ℕ = if c then (s, none) else try_read_start answer s in
          Linked b r.0.flags
    go true = w
    go false = try-Linked b answer s w

-- The answer to a connect request takes the bit away.
pub set_connect_result-Linked :
    (b ok : Bool) (answer : Option ℕ) (s : Stream)
    → Linked b s.flags
    → Linked false (set_connect_result ok answer s).0.flags
unfolding set_connect_result
set_connect_result-Linked b ok answer s w = go (ok && wantread s')
  where
    s' : Stream
    s' = record s { flags = connect_flags ok s.flags }

    w' : Linked false (connect_flags ok s.flags)
    w' = unfold apply in apply-Linked (results ok) b s.flags w

    go :
        (c : Bool)
        → let r : Stream × Option ℕ = if c then begin_reading answer s' else (s', none) in
          Linked false r.0.flags
    go true = begin-Linked false answer s' w'
    go false = w'

stop-Linked : (b : Bool) (s : Stream) → Linked b s.flags → Linked b (read_stop s).flags
unfolding read_stop
stop-Linked b s w = go (has reading_bit f)
  where
    f : ℕ
    f = set_wantread false s.flags

    v : Linked b f
    v = unfold apply in apply-Linked (wants false) b s.flags w

    go :
        (c : Bool)
        → let r : Stream =
            if c
            then record s { flags = lower reading_bit f; impl_reading = false }
            else record s { flags = f } in
          Linked b r.flags
    go true = unfold apply in apply-Linked (reads false) b f v
    go false = v

eof-Linked : (b : Bool) (s : Stream) → Linked b s.flags → Linked b (handle_eof s).0.flags
unfolding handle_eof
eof-Linked b s w = go (not (has established_bit s.flags))
  where
    go :
        (c : Bool)
        → let r : Stream × Bool =
            if c then (s, false) else (record s { flags = clear_in s.flags }, true) in
          Linked b r.0.flags
    go true = w
    go false = unfold apply in apply-Linked ends_in b s.flags w

start-Linked :
    (b : Bool) (answer : Option ℕ) (s : Stream)
    → Linked b s.flags
    → Linked b (read_start answer s).0.flags
unfolding read_start apply
start-Linked b answer s w =
    begin-Linked b answer _
      (apply-Linked heeds b (set_wantread true s.flags) (apply-Linked (wants true) b s.flags w))

pub Reads-Linked : {s s' : Stream} (b : Bool) → Reads s s' → Linked b s.flags → Linked b s'.flags
unfolding read_ignore apply
Reads-Linked {s} b (Reads.starts answer) w = start-Linked b answer s w
Reads-Linked {s} b Reads.stops w = stop-Linked b s w
Reads-Linked {s} b Reads.ignores w = apply-Linked ignores b s.flags w
Reads-Linked {s} b Reads.ends w = eof-Linked b s w

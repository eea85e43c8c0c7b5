-- ===== src/Stream/Reading.antt =====
-- Whether a stream reads: its flag, its user's wish and its backend (src/panda/unievent/Stream.cc).
use uni_event.Base.{
  ℕ, ◌<◌, ◌≡◌, refl, sym, Bool, true, false, not, ◌&&◌, ◌||◌, Option, none, some, arith, Bool-cases,
  inl, inr,
}
use uni_event.Stream.{
  Stream, reading_bit, dontread_bit, established_bit, ignore_read_bit, has, lower, wantread,
  set_wantread, connect_flags, try_read_start, begin_reading, read_start, read_stop, read_ignore,
  set_connect_result, handle_eof, reset_state, clear_state, create,
}
use uni_event.Stream.Flags.{
  Change, ends_in, ignores, heeds, resets, results, wants, reads, apply, sound, apply-sound,
  reading-apply, reading_after, same, all_below, all_below_lem,
}

-- What happens to a stream; `changed` is one of the changes that do not concern reading.
pub data Event : Type 0 where
  changed : Change → Event
  starts : Option ℕ → Event
  stops ignores_data ended resets_all clears_all : Event
  connected : Bool → Option ℕ → Event

abbrev Silent : Change → Type 0
Silent c = (b : Bool) → reading_after c b ≡ b

unfoldable pub step : Event → Stream → Stream
unfolding read_start read_stop read_ignore handle_eof reset_state clear_state set_connect_result
step (changed c) s = record s { flags = apply c s.flags }
step (starts answer) s = (read_start answer s).0
step stops s = read_stop s
step ignores_data s = read_ignore s
step ended s = (handle_eof s).0
step resets_all s = reset_state s
step clears_all s = clear_state s
step (connected succeeded answer) s = (set_connect_result succeeded answer s).0

-- The event leaves the reading bit to the functions of the stream.
abbrev pub Allowed : Event → Type 0
Allowed (changed c) = Silent c
Allowed _ = Unit {0}

pub data Reach : Stream → Type 0 where
  fresh : Reach create
  next : {s : Stream} (e : Event) → Allowed e → Reach s → Reach (step e s)

pub record IsReading (s : Stream) : Type 0 where
  pub flags_sound : sound s.flags ≡ true
  pub mirrored : s.impl_reading ≡ has reading_bit s.flags

flags_small : (f : ℕ) → sound f ≡ true → f < 1024
flags_small f h = ground arith

-- A change keeps what is known of the flags.
changed-IsReading :
    (c : Change) (s : Stream)
    → IsReading s
    → IsReading
        (record s { flags = apply c s.flags; impl_reading = reading_after c s.impl_reading })
changed-IsReading c s v = record {
  flags_sound = apply-sound c s.flags v.flags_sound;
  mirrored = rw v.mirrored (sym (reading-apply c s.flags (flags_small s.flags v.flags_sound)));
}

begin-IsReading :
    (answer : Option ℕ) (s : Stream) → IsReading s → IsReading (begin_reading answer s).0
unfolding begin_reading try_read_start apply
begin-IsReading none s v =
    elim (Bool-cases (has reading_bit s.flags || not (has established_bit s.flags))) [
      | inl e ↦ rw e v
      | inr e ↦ rw e (changed-IsReading (reads true) s v)
    ]
begin-IsReading (some x) s v =
    elim (Bool-cases (has reading_bit s.flags || not (has established_bit s.flags))) [
      | inl e ↦ rw e v
      | inr e ↦ rw e v
    ]

start-IsReading : (answer : Option ℕ) (s : Stream) → IsReading s → IsReading (read_start answer s).0
unfolding read_start apply
start-IsReading answer s v =
    begin-IsReading answer (record s { flags = lower ignore_read_bit (set_wantread true s.flags) })
      (changed-IsReading heeds (record s { flags = set_wantread true s.flags })
        (changed-IsReading (wants true) s v))

stop-IsReading : (s : Stream) → IsReading s → IsReading (read_stop s)
unfolding read_stop apply
stop-IsReading s v =
    let w = changed-IsReading (wants false) s v in
    elim (Bool-cases (has reading_bit (set_wantread false s.flags))) [
      | inl e ↦
          rw e (changed-IsReading (reads false) (record s { flags = set_wantread false s.flags }) w)
      | inr e ↦ rw e w
    ]

connect-IsReading :
    (ok : Bool) (answer : Option ℕ) (s : Stream)
    → IsReading s
    → IsReading (set_connect_result ok answer s).0
unfolding set_connect_result apply
connect-IsReading ok answer s v =
    let s' : Stream = record s { flags = connect_flags ok s.flags } in
    let w = changed-IsReading (results ok) s v in
    elim (Bool-cases (ok && wantread s')) [
      | inl e ↦ rw e (begin-IsReading answer s' w)
      | inr e ↦ rw e w
    ]

eof-IsReading : (s : Stream) → IsReading s → IsReading (handle_eof s).0
unfolding handle_eof apply
eof-IsReading s v = elim (Bool-cases (not (has established_bit s.flags))) [
  | inl e ↦ rw e v
  | inr e ↦ rw e (changed-IsReading ends_in s v)
]

step-IsReading : (e : Event) (s : Stream) → Allowed e → IsReading s → IsReading (step e s)
unfolding step read_ignore reset_state clear_state apply has
step-IsReading (changed c) s a v = record {
  flags_sound = (changed-IsReading c s v).flags_sound;
  mirrored = rw (sym (a s.impl_reading)) (changed-IsReading c s v).mirrored;
}
step-IsReading (starts answer) s a v = start-IsReading answer s v
step-IsReading stops s a v = stop-IsReading s v
step-IsReading ignores_data s a v = changed-IsReading ignores s v
step-IsReading ended s a v = eof-IsReading s v
step-IsReading resets_all s a v =
    let w = changed-IsReading resets s v in
    record { flags_sound = w.flags_sound; mirrored = w.mirrored }
step-IsReading clears_all s a v = record { flags_sound = refl; mirrored = refl }
step-IsReading (connected ok answer) s a v = connect-IsReading ok answer s v

-- In every state of a stream, the reading flag tells whether the backend reads, whatever the backend
-- answered, and a stream connected for either direction is established.
pub Reach-IsReading : {s : Stream} → Reach s → IsReading s
unfolding create has
Reach-IsReading fresh = record { flags_sound = refl; mirrored = refl }
Reach-IsReading (next {s} e a r) = step-IsReading e s a (Reach-IsReading r)

-- The flags of a stream that is reset and connects again.
abbrev again : ℕ → ℕ
again f = connect_flags true (lower 4294967263 f)

abbrev reconnects : ℕ → Bool
reconnects f =
    same (has dontread_bit (again f)) (has dontread_bit f)
    && has established_bit (again f)
    && not (has reading_bit (again f))

reconnects-table : all_below 1024 reconnects ≡ true
unfolding all_below has connect_flags lower
reconnects-table = refl

-- A stream that is reset and connects again reads exactly if its user wanted it to read before the
-- reset, given that the backend can read.
pub connect-reset :
    {s : Stream}
    → Reach s
    → (set_connect_result true none (reset_state s)).0.impl_reading ≡ wantread s
unfolding set_connect_result reset_state begin_reading try_read_start wantread lower
connect-reset {s} r =
    let v = Reach-IsReading r in
    let t =
      all_below_lem 1024 reconnects s.flags reconnects-table (flags_small s.flags v.flags_sound) in
    ground (arith, t)

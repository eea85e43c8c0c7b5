-- ===== src/Stream/Flags.antt =====
-- The flag operations of src/panda/unievent/Stream.h, by tables over the values of the ten bits.
use uni_event.Base.{
  ℕ, zero, suc, ◌<◌, ◌≡◌, refl, sym, ◌==◌, List, [], ◌∷◌, Bool, true, false, not, ◌&&◌, ◌||◌, arith,
  ltb, if◌then◌else◌,
}
use uni_event.Stream.{
  listening_bit, connecting_bit, established_bit, in_connected_bit, out_connected_bit, reading_bit,
  shutting_bit, ignore_read_bit, has, raise, lower, clear_out, clear_in, shutdown_done,
  connect_flags, set_wantread,
}

-- The changes that the code makes to the flags; `reset` keeps one bit and `clear` none.
pub data Change : Type 0 where
  listens connects establishes shuts ends_out ends_in ignores heeds resets clears : Change
  results wants reads shuts_down : Bool → Change

unfoldable pub apply : Change → ℕ → ℕ
unfolding raise lower clear_out clear_in shutdown_done connect_flags set_wantread
apply listens f = raise listening_bit f
apply connects f = raise connecting_bit f
apply establishes f = raise established_bit f
apply shuts f = raise shutting_bit f
apply ends_out f = clear_out f
apply ends_in f = clear_in f
apply ignores f = raise ignore_read_bit f
apply heeds f = lower ignore_read_bit f
apply resets f = lower 4294967263 f
apply clears f = 0
apply (results succeeded) f = connect_flags succeeded f
apply (wants on) f = set_wantread on f
apply (reads on) f = if on then raise reading_bit f else lower reading_bit f
apply (shuts_down succeeded) f = shutdown_done succeeded f

-- A stream that is connected for reading or for writing is established, and only the ten bits are used.
abbrev pub sound : ℕ → Bool
sound f =
    ltb f 1024
    && ((not (has in_connected_bit f) && not (has out_connected_bit f)) || has established_bit f)

unfoldable pub all_below : ℕ → (ℕ → Bool) → Bool
all_below zero p = true
all_below (suc n) p = p n && all_below n p

pub all_below_lem : (n : ℕ) (p : ℕ → Bool) (f : ℕ) → all_below n p ≡ true → f < n → p f ≡ true
unfolding all_below
all_below_lem zero p f h lt = absurd (omega arith)
all_below_lem (suc n) p f h lt = ground (arith, all_below_lem n p f)

abbrev pub same : Bool → Bool → Bool
same true b = b
same false b = not b

pub same_lem : (a b : Bool) → same a b ≡ true → a ≡ b
same_lem true b h = sym h
same_lem false true h = h
same_lem false false h = refl

abbrev keeps : Change → ℕ → Bool
keeps c f = not (sound f) || sound (apply c f)

keeps-table : (c : Change) → all_below 1024 (keeps c) ≡ true
unfolding all_below apply has
keeps-table listens = refl
keeps-table connects = refl
keeps-table establishes = refl
keeps-table shuts = refl
keeps-table ends_out = refl
keeps-table ends_in = refl
keeps-table ignores = refl
keeps-table heeds = refl
keeps-table resets = refl
keeps-table clears = refl
keeps-table (results true) = refl
keeps-table (results false) = refl
keeps-table (wants true) = refl
keeps-table (wants false) = refl
keeps-table (reads true) = refl
keeps-table (reads false) = refl
keeps-table (shuts_down true) = refl
keeps-table (shuts_down false) = refl

pub apply-sound : (c : Change) (f : ℕ) → sound f ≡ true → sound (apply c f) ≡ true
apply-sound c f h = ground (arith, all_below_lem 1024 (keeps c) f (keeps-table c))

-- A history of changes, the first one first.
abbrev pub run : List Change → ℕ → ℕ
run [] f = f
run (c ∷ cs) f = run cs (apply c f)

pub zero-sound : sound 0 ≡ true
unfolding has
zero-sound = refl

pub run-sound : (cs : List Change) (f : ℕ) → sound f ≡ true → sound (run cs f) ≡ true
run-sound [] f h = h
run-sound (c ∷ cs) f h = run-sound cs (apply c f) (apply-sound c f h)

-- After any history of flag changes of a new stream, one that is connected for reading or for writing
-- is established, and no bit above the ten is set.
run-established :
    (cs : List Change)
    → (run cs 0 < 1024)
      × (has in_connected_bit (run cs 0) ≡ true → has established_bit (run cs 0) ≡ true)
      × (has out_connected_bit (run cs 0) ≡ true → has established_bit (run cs 0) ≡ true)
run-established cs =
    let h = run-sound cs 0 zero-sound in (ground arith, λ e. ground arith, λ e. ground arith)

-- What the end of one direction does.
abbrev half_closed : ℕ → Bool
half_closed f =
    not (sound f)
    || (clear_in (clear_out f) == lower 28 f
        && clear_out (clear_in f) == lower 28 f
        && same (has established_bit (clear_out f))
            (has established_bit f && has in_connected_bit f)
        && same (has established_bit (clear_in f))
            (has established_bit f && has out_connected_bit f))

half_closed-table : all_below 1024 half_closed ≡ true
unfolding all_below has clear_in clear_out
half_closed-table = refl

-- From flags as they occur: the end of one direction leaves a stream established exactly if the other
-- direction is still connected, and the ends of both, in either order, clear the three connection
-- bits and no other.
clear_in-clear_out :
    (f : ℕ)
    → sound f ≡ true
    → (clear_in (clear_out f) ≡ lower 28 f)
      × (clear_out (clear_in f) ≡ lower 28 f)
      × (has established_bit (clear_out f) ≡ (has established_bit f && has in_connected_bit f))
      × (has established_bit (clear_in f) ≡ (has established_bit f && has out_connected_bit f))
clear_in-clear_out f h =
    let t = all_below_lem 1024 half_closed f half_closed-table in
    (ground (arith, t), ground (arith, t), ground (arith, t), ground (arith, t))

-- Which changes touch the reading bit.
abbrev pub reading_after : Change → Bool → Bool
reading_after (reads on) b = on
reading_after resets b = false
reading_after clears b = false
reading_after _ b = b

abbrev tracks : Change → ℕ → Bool
tracks c f = same (has reading_bit (apply c f)) (reading_after c (has reading_bit f))

tracks-table : (c : Change) → all_below 1024 (tracks c) ≡ true
unfolding all_below apply has
tracks-table listens = refl
tracks-table connects = refl
tracks-table establishes = refl
tracks-table shuts = refl
tracks-table ends_out = refl
tracks-table ends_in = refl
tracks-table ignores = refl
tracks-table heeds = refl
tracks-table resets = refl
tracks-table clears = refl
tracks-table (results true) = refl
tracks-table (results false) = refl
tracks-table (wants true) = refl
tracks-table (wants false) = refl
tracks-table (reads true) = refl
tracks-table (reads false) = refl
tracks-table (shuts_down true) = refl
tracks-table (shuts_down false) = refl

pub reading-apply :
    (c : Change) (f : ℕ)
    → f < 1024
    → has reading_bit (apply c f) ≡ reading_after c (has reading_bit f)
reading-apply c f h = same_lem _ _ (all_below_lem 1024 (tracks c) f (tracks-table c) h)

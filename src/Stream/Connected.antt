-- ===== src/Stream/Connected.antt =====
-- What a successful connect and the end of the writing leave in the flags (src/panda/unievent/Stream.h).
use uni_event.Base.{
  ℕ, ◌≡◌, refl, ap, ◌∙◌, Bool, true, false, not, ◌&&◌, ◌||◌, Option, none, arith, if◌then◌else◌,
}
use uni_event.Stream.{
  Stream, in_connected_bit, out_connected_bit, established_bit, dontread_bit, reading_bit, has,
  clear_out, wantread, connect_flags, try_read_start, begin_reading, set_connect_result,
}
use uni_event.Stream.Flags.{
  Change, results, reads, apply, sound, all_below, all_below_lem, same, same_lem,
}

-- Flags as they occur, of a stream that is connected in both directions.
abbrev full : ℕ → Bool
full f = sound f && has in_connected_bit f && has out_connected_bit f && has established_bit f

-- Such flags after a change that leaves the wish to read.
abbrev fills : Change → (ℕ → Bool) → ℕ → Bool
fills c from f =
    not (from f) || (full (apply c f) && same (has dontread_bit (apply c f)) (has dontread_bit f))

abbrev ends : ℕ → Bool
ends f =
    not (full f)
    || (sound (clear_out f)
        && has in_connected_bit (clear_out f)
        && not (has out_connected_bit (clear_out f))
        && has established_bit (clear_out f)
        && same (has dontread_bit (clear_out f)) (has dontread_bit f))

ends-table : all_below 1024 ends ≡ true
unfolding all_below has clear_out
ends-table = refl

-- A stream that is connected in both directions, with a wish to read or without.
abbrev pub IsFull : Bool → Stream → Type 0
IsFull b s = (full s.flags ≡ true) × (has dontread_bit s.flags ≡ b)

filled :
    (c : Change) (from : ℕ → Bool)
    → all_below 1024 (fills c from) ≡ true
    → (b : Bool) (f : ℕ) → from f ≡ true
    → sound f ≡ true
    → has dontread_bit f ≡ b
    → (full (apply c f) ≡ true) × (has dontread_bit (apply c f) ≡ b)
filled c from table b f h small e = (
  ground (arith, fact, h),
  same_lem (has dontread_bit (apply c f)) (has dontread_bit f) (ground (arith, fact, h)) ∙ e,
)
  where
    fact : fills c from f ≡ true
    fact = all_below_lem 1024 (fills c from) f table (ground arith)

begin-IsFull : (b : Bool) (s : Stream) → IsFull b s → IsFull b (begin_reading none s).0
unfolding begin_reading try_read_start
begin-IsFull b s w = go (has reading_bit s.flags || not (has established_bit s.flags))
  where
    fine : sound s.flags ≡ true
    fine = let h = w.0 in ground arith

    go :
        (c : Bool)
        → let r : Stream × Option ℕ = if c then (s, none) else try_read_start none s in IsFull b r.0
    go true = w
    go false =
        unfold apply in
        filled (reads true) full (unfold all_below apply has in refl) b s.flags w.0 fine w.1

begin-none : (s : Stream) → (begin_reading none s).1 ≡ none
unfolding begin_reading try_read_start
begin-none s = go (has reading_bit s.flags || not (has established_bit s.flags))
  where
    go :
        (c : Bool)
        → let r : Stream × Option ℕ = if c then (s, none) else try_read_start none s in r.1 ≡ none
    go true = refl
    go false = refl

pub set_connect_result-IsFull :
    (s : Stream)
    → sound s.flags ≡ true
    → IsFull (has dontread_bit s.flags) (set_connect_result true none s).0
      × ((set_connect_result true none s).1 ≡ none)
unfolding set_connect_result
set_connect_result-IsFull s h = go (wantread s')
  where
    s' : Stream
    s' = record s { flags = connect_flags true s.flags }

    w : IsFull (has dontread_bit s.flags) s'
    w =
        unfold apply in
        filled (results true) sound (unfold all_below apply has in refl) (has dontread_bit s.flags)
          s.flags h h refl

    go :
        (c : Bool)
        → let r : Stream × Option ℕ = if c then begin_reading none s' else (s', none) in
          IsFull (has dontread_bit s.flags) r.0 × (r.1 ≡ none)
    go true = (begin-IsFull (has dontread_bit s.flags) s' w, begin-none s')
    go false = (w, refl)

-- The directions that a stream is connected for, and whether its user wants it to read.
abbrev pub Connects : Bool → Bool → Bool → Stream → Type 0
Connects inside outside wanted s =
    (has in_connected_bit s.flags ≡ inside)
    × (has out_connected_bit s.flags ≡ outside)
    × (has established_bit s.flags ≡ true)
    × (wantread s ≡ wanted)

full-Connects : (b : Bool) (s : Stream) → IsFull b s → Connects true true (not b) s
unfolding wantread
full-Connects b s w = let h = w.0 in (ground arith, ground arith, ground arith, ap not w.1)

ended-Connects :
    (b : Bool) (s : Stream)
    → IsFull b s
    → Connects true false (not b) (record s { flags = clear_out s.flags })
unfolding wantread
ended-Connects b s w = (
  ground (arith, fact, w),
  ground (arith, fact, w),
  ground (arith, fact, w),
  ap not (same_lem _ _ (ground (arith, fact, w)) ∙ w.1),
)
  where
    fact : ends s.flags ≡ true
    fact = let h = w.0 in all_below_lem 1024 ends s.flags ends-table (ground arith)

-- A connect that succeeds, and one with the end of the writing behind it, when the backend starts to
-- read.
pub set_connect_result-Connects :
    (s : Stream)
    → sound s.flags ≡ true
    → let r = set_connect_result true none s in
      Connects true true (wantread s) r.0
      × Connects true false (wantread s) (record r.0 { flags = clear_out r.0.flags })
      × (r.1 ≡ none)
unfolding wantread
set_connect_result-Connects s h =
    let w = set_connect_result-IsFull s h in
    let b = has dontread_bit s.flags in
    (
      full-Connects b (set_connect_result true none s).0 w.0,
      ended-Connects b (set_connect_result true none s).0 w.0,
      w.1,
    )

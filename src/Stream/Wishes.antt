-- ===== src/Stream/Wishes.antt =====
-- What `read_start` and `read_stop` make of the user's wish to read (src/panda/unievent/Stream.cc).
use uni_event.Base.{
  ℕ, ◌≡◌, refl, sym, ap, ◌∙◌, Bool, true, false, not, ◌&&◌, ◌||◌, Option, none, some, arith,
  if◌then◌else◌,
}
use uni_event.Stream.{
  Stream, dontread_bit, reading_bit, ignore_read_bit, established_bit, has, raise, lower, wantread,
  set_wantread, try_read_start, begin_reading, read_start, read_stop,
}
use uni_event.Stream.Flags.{sound, all_below, all_below_lem, same, same_lem}

-- A change after which the bit is `b`, of the bit before, and the flags are sound.
abbrev moves : (ℕ → ℕ) → (Bool → Bool) → ℕ → Bool
moves change b f =
    not (sound f)
    || (sound (change f) && same (b (has dontread_bit f)) (has dontread_bit (change f)))

moved :
    (change : ℕ → ℕ) (b : Bool → Bool)
    → all_below 1024 (moves change b) ≡ true
    → (f : ℕ) → sound f ≡ true
    → (sound (change f) ≡ true) × (has dontread_bit (change f) ≡ b (has dontread_bit f))
moved change b table f h = (
  ground (arith, fact),
  sym (same_lem (b (has dontread_bit f)) (has dontread_bit (change f)) (ground (arith, fact))),
)
  where
    fact : moves change b f ≡ true
    fact = all_below_lem 1024 (moves change b) f table (ground arith)

raised :
    (f : ℕ)
    → sound f ≡ true
    → (sound (raise reading_bit f) ≡ true)
      × (has dontread_bit (raise reading_bit f) ≡ has dontread_bit f)
raised = moved (raise reading_bit) (λ b. b) (unfold all_below has raise in refl)

lowered :
    (f : ℕ)
    → sound f ≡ true
    → (sound (lower reading_bit f) ≡ true)
      × (has dontread_bit (lower reading_bit f) ≡ has dontread_bit f)
lowered = moved (lower reading_bit) (λ b. b) (unfold all_below has lower in refl)

asked :
    (f : ℕ)
    → sound f ≡ true
    → (sound (lower ignore_read_bit (set_wantread true f)) ≡ true)
      × (has dontread_bit (lower ignore_read_bit (set_wantread true f)) ≡ false)
asked =
    moved (λ f. lower ignore_read_bit (set_wantread true f)) (λ b. false)
      (unfold all_below has lower set_wantread in refl)

refused :
    (f : ℕ)
    → sound f ≡ true
    → (sound (set_wantread false f) ≡ true) × (has dontread_bit (set_wantread false f) ≡ true)
refused = moved (set_wantread false) (λ b. true) (unfold all_below has set_wantread in refl)

-- A stream whose flags are sound, and whose user wants it to read or not.
abbrev pub Wants : Bool → Stream → Type 0
Wants b s = (sound s.flags ≡ true) × (wantread s ≡ b)

try-Wants :
    (b : Bool) (answer : Option ℕ) (s : Stream) → Wants b s → Wants b (try_read_start answer s).0
unfolding try_read_start wantread
try-Wants b none s w = let t = raised s.flags w.0 in (t.0, ap not t.1 ∙ w.1)
try-Wants b (some e) s w = w

begin-Wants :
    (b : Bool) (answer : Option ℕ) (s : Stream) → Wants b s → Wants b (begin_reading answer s).0
unfolding begin_reading
begin-Wants b answer s w = go (has reading_bit s.flags || not (has established_bit s.flags))
  where
    go :
        (c : Bool)
        → let r : Stream × Option ℕ = if c then (s, none) else try_read_start answer s in
          Wants b r.0
    go true = w
    go false = try-Wants b answer s w

pub read_start-Wants :
    (answer : Option ℕ) (s : Stream) → sound s.flags ≡ true → Wants true (read_start answer s).0
unfolding read_start
read_start-Wants answer s h =
    let t = asked s.flags h in
    begin-Wants true answer (record s { flags = lower ignore_read_bit (set_wantread true s.flags) })
      (t.0, unfold wantread in ap not t.1)

pub read_stop-Wants : (s : Stream) → sound s.flags ≡ true → Wants false (read_stop s)
unfolding read_stop wantread
read_stop-Wants s h = go (has reading_bit f)
  where
    f : ℕ
    f = set_wantread false s.flags

    t : (sound f ≡ true) × (has dontread_bit f ≡ true)
    t = refused s.flags h

    u :
        (sound (lower reading_bit f) ≡ true)
        × (has dontread_bit (lower reading_bit f) ≡ has dontread_bit f)
    u = lowered f t.0

    go :
        (c : Bool)
        → Wants false (
            if c
            then record s { flags = lower reading_bit f; impl_reading = false }
            else record s { flags = f })
    go true = (u.0, ap not (u.1 ∙ t.1))
    go false = (t.0, ap not t.1)

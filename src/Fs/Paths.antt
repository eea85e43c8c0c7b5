-- ===== src/Fs/Paths.antt =====
-- Which directories `mkpath` makes (src/panda/unievent/Fs.cc).
use uni_event.Base.{
  ℕ, zero, suc, ◌≤◌, ◌<◌, ◌≡◌, refl, sym, ap, ◌∙◌, Bool, true, false, not, ◌&&◌, some, List, [],
  ◌∷◌, ◌++◌, append_assoc, append-nil, arith, length, if◌then◌else◌, Bool-cases, inl, inr,
}
use uni_event.Fs.{
  Result, ok, err, FilePath, FileSystem, is_slash, skip_slash, find_part, World, make_one,
  mkpath_loop, mkpath,
}

abbrev pub ends_part : FilePath → Bool
ends_part [] = true
ends_part (d ∷ ds) = is_slash d

-- The paths that a path passes: those that end in front of a separator, or at its end.
pub prefixes : FilePath → FilePath → List FilePath
prefixes before [] = []
prefixes before (c ∷ cs) =
    let rest = prefixes (before ++ c ∷ []) cs in
    if not (is_slash c) && ends_part cs then (before ++ c ∷ []) ∷ rest else rest

-- One character of `find_part` and of `prefixes`.
find-inside :
    (c : ℕ) (cs : FilePath)
    → is_slash c ≡ false
    → find_part (c ∷ cs) ≡ (c ∷ (find_part cs).0, (find_part cs).1)
unfolding find_part
find-inside c cs e = rw e

find-end : (c : ℕ) (cs : FilePath) → is_slash c ≡ true → find_part (c ∷ cs) ≡ ([], c ∷ cs)
unfolding find_part
find-end c cs e = rw e

prefixes-slash :
    (before : FilePath) (c : ℕ) (cs : FilePath)
    → is_slash c ≡ true
    → prefixes before (c ∷ cs) ≡ prefixes (before ++ c ∷ []) cs
unfolding prefixes
prefixes-slash before c cs e = rw e

prefixes-end :
    (before : FilePath) (c : ℕ) (cs : FilePath)
    → is_slash c ≡ false
    → ends_part cs ≡ true
    → prefixes before (c ∷ cs) ≡ (before ++ c ∷ []) ∷ prefixes (before ++ c ∷ []) cs
unfolding prefixes
prefixes-end before c cs e f = rw e (rw f refl)

prefixes-inside :
    (before : FilePath) (c : ℕ) (cs : FilePath)
    → ends_part cs ≡ false
    → prefixes before (c ∷ cs) ≡ prefixes (before ++ c ∷ []) cs
unfolding prefixes
prefixes-inside before c cs f = rw f (ground arith)

skip-slash :
    (c : ℕ) (cs : FilePath)
    → is_slash c ≡ true
    → skip_slash (c ∷ cs) ≡ (c ∷ (skip_slash cs).0, (skip_slash cs).1)
unfolding skip_slash
skip-slash c cs e = rw e

skip-part : (c : ℕ) (cs : FilePath) → is_slash c ≡ false → skip_slash (c ∷ cs) ≡ ([], c ∷ cs)
unfolding skip_slash
skip-part c cs e = rw e

prefixes-skip :
    (before cs : FilePath)
    → prefixes before cs ≡ prefixes (before ++ (skip_slash cs).0) (skip_slash cs).1
prefixes-skip before [] = unfold prefixes skip_slash in refl
prefixes-skip before (c ∷ cs) = elim (Bool-cases (is_slash c)) [
  | inl e ↦ rw (skip-slash c cs e) (
      prefixes-slash before c cs e
      ∙ prefixes-skip (before ++ c ∷ []) cs
      ∙ ap (λ b. prefixes b (skip_slash cs).1) (append_assoc before (c ∷ []) (skip_slash cs).0))
  | inr e ↦ rw (skip-part c cs e) (ap (λ b. prefixes b (c ∷ cs)) (sym (append-nil before)))
]

-- A part that begins in front of `c`.
prefixes-find :
    (before : FilePath) (c : ℕ) (cs : FilePath)
    → is_slash c ≡ false
    → let part = find_part (c ∷ cs) in
      prefixes before (c ∷ cs) ≡ (before ++ part.0) ∷ prefixes (before ++ part.0) part.1
prefixes-find before c [] e =
    rw (find-inside c [] e) (unfold find_part in prefixes-end before c [] e refl)
prefixes-find before c (d ∷ ds) e = elim (Bool-cases (is_slash d)) [
  | inl f ↦
      rw (find-inside c (d ∷ ds) e) (rw (find-end d ds f) (prefixes-end before c (d ∷ ds) e f))
  | inr f ↦
      let part = find_part (d ∷ ds) in
      rw (find-inside c (d ∷ ds) e) (
        prefixes-inside before c (d ∷ ds) f
        ∙ prefixes-find (before ++ c ∷ []) d ds f
        ∙ ap (λ b. b ∷ prefixes b part.1) (append_assoc before (c ∷ []) part.0))
]

length-skip : (cs : FilePath) → length (skip_slash cs).1 ≤ length cs
unfolding skip_slash
length-skip [] = omega arith
length-skip (c ∷ cs) = ground (arith, length-skip cs)

length-part : (cs : FilePath) → length (find_part cs).1 ≤ length cs
unfolding find_part
length-part [] = omega arith
length-part (c ∷ cs) = ground (arith, length-part cs)

length-find :
    (c : ℕ) (cs : FilePath) → is_slash c ≡ false → length (find_part (c ∷ cs)).1 < length (c ∷ cs)
length-find c cs e = rw (find-inside c cs e) (omega (arith, length-part cs))

-- What `skip_slash` leaves does not begin with a separator.
abbrev Begins : FilePath → Type 0
Begins [] = Unit
Begins (c ∷ cs) = is_slash c ≡ false

skip-Begins : (cs : FilePath) → Begins (skip_slash cs).1
unfolding skip_slash
skip-Begins [] = tt
skip-Begins (c ∷ cs) = elim (Bool-cases (is_slash c)) [
  | inl e ↦ rw e (skip-Begins cs)
  | inr e ↦ rw e e
]

module _ (fs : FileSystem) where
  -- `mkdir` on each path of a list, up to the first error.
  unfoldable pub make_all : ℕ → List FilePath → World fs → Result (Unit {0}) × World fs
  make_all mode [] w = (ok tt, w)
  make_all mode (p ∷ ps) w =
      let r = make_one fs mode p w in
      elim r.0 [ ok u ↦ make_all mode ps r.1 | err e ↦ (err e, r.1) ]

  loop-prefixes :
      (mode fuel : ℕ) (before cs : FilePath) (w : World fs)
      → Begins cs
      → length cs ≤ fuel
      → mkpath_loop fs mode fuel before cs w ≡ some (make_all mode (prefixes before cs) w)
  unfolding mkpath_loop make_all
  loop-prefixes mode fuel before [] w b h = unfold prefixes in refl
  loop-prefixes mode zero before (c ∷ cs) w b h = absurd (omega arith)
  loop-prefixes mode (suc fuel) before (c ∷ cs) w b h =
      let part = find_part (c ∷ cs) in
      let slashes = skip_slash part.1 in
      let parts =
        prefixes-find before c cs b
        ∙ ap (λ ps. (before ++ part.0) ∷ ps) (prefixes-skip (before ++ part.0) part.1) in
      let again =
        loop-prefixes mode fuel ((before ++ part.0) ++ slashes.0) slashes.1
          (make_one fs mode (before ++ part.0) w).1 (skip-Begins part.1)
          (omega (arith, length-find c cs b, length-skip part.1)) in
      rw parts (ground (arith, again))

  -- `mkpath` returns, and its loop comes to this: `mkdir` on each path that ends in front of a separator
  -- or at the end, in order and up to the first error, where a directory that is there is none.
  pub mkpath-prefixes :
      (mode : ℕ) (path : FilePath) (w : World fs)
      → mkpath fs mode path w ≡ some (make_all mode (prefixes [] path) w)
  unfolding mkpath
  mkpath-prefixes mode [] w = unfold prefixes make_all in refl
  mkpath-prefixes mode (c ∷ cs) w =
      let slashes = skip_slash (c ∷ cs) in
      loop-prefixes mode (length (c ∷ cs)) slashes.0 slashes.1 w (skip-Begins (c ∷ cs))
        (length-skip (c ∷ cs))
      ∙ ap (λ ps. some (make_all mode ps w)) (sym (prefixes-skip [] (c ∷ cs)))

-- ===== src/Fs/Made.antt =====
-- The directories that are there after a `mkpath` (src/panda/unievent/Fs.cc).
use uni_event.Base.{ℕ, ◌≡◌, refl, sym, ap, ◌∙◌, true, some, List, [], ◌∷◌, ◌++◌, arith, All}
use uni_event.Fs.{
  Result, ok, err, FilePath, FileSystem, World, made, type_is, is_dir_type, isdir, made_or_there,
  make_one, mkpath,
}
use uni_event.Fs.Paths.{prefixes, make_all, mkpath-prefixes}

-- What `mkpath` needs of the system: a directory that was made is one, and making one removes none.
pub record IsLawful (fs : FileSystem) : Type 0 where
  pub isdir-mkdir :
      (p : FilePath) (mode : ℕ) (s : fs.State)
      → (fs.mkdir p mode s).0 ≡ ok tt
      → type_is fs (is_dir_type fs) (fs.stat p (fs.mkdir p mode s).1) ≡ true
  pub isdir-kept :
      (p q : FilePath) (mode : ℕ) (s : fs.State)
      → type_is fs (is_dir_type fs) (fs.stat q s) ≡ true
      → type_is fs (is_dir_type fs) (fs.stat q (fs.mkdir p mode s).1) ≡ true

module _ (fs : FileSystem) (lawful : IsLawful fs) where
  made-world :
      (p : FilePath) (r : Result (Unit {0})) (w : World fs) → (made_or_there fs p (r, w)).1 ≡ w
  unfolding made_or_there
  made-world p (ok u) w = refl
  made-world p (err e) w = ground arith

  made-isdir :
      (p : FilePath) (r : Result (Unit {0})) (w : World fs)
      → (r ≡ ok tt → isdir fs p w ≡ true)
      → (made_or_there fs p (r, w)).0 ≡ ok tt
      → isdir fs p w ≡ true
  unfolding made_or_there
  made-isdir p (ok u) w h k = h k
  made-isdir p (err e) w h k = ground arith

  make_one-isdir :
      (mode : ℕ) (p : FilePath) (w : World fs)
      → (make_one fs mode p w).0 ≡ ok tt
      → isdir fs p (make_one fs mode p w).1 ≡ true
  unfolding make_one
  make_one-isdir mode p w h =
      let r = fs.mkdir p mode w.state in
      let w' : World fs = record { state = r.1; calls = w.calls ++ made p ∷ [] } in
      rw (made-world p r.0 w')
        (made-isdir p r.0 w' (λ e. unfold isdir in lawful.isdir-mkdir p mode w.state e) h)

  make_one-kept :
      (mode : ℕ) (p q : FilePath) (w : World fs)
      → isdir fs q w ≡ true
      → isdir fs q (make_one fs mode p w).1 ≡ true
  unfolding make_one
  make_one-kept mode p q w h =
      let r = fs.mkdir p mode w.state in
      let w' : World fs = record { state = r.1; calls = w.calls ++ made p ∷ [] } in
      rw (made-world p r.0 w') (unfold isdir in lawful.isdir-kept p q mode w.state h)

  make_all-kept :
      (mode : ℕ) (ps : List FilePath) (q : FilePath) (w : World fs)
      → isdir fs q w ≡ true
      → isdir fs q (make_all fs mode ps w).1 ≡ true
  unfolding make_all
  make_all-kept mode [] q w h = h
  make_all-kept mode (p ∷ ps) q w h =
      ground (arith, make_one-kept mode p q w h, make_all-kept mode ps q (make_one fs mode p w).1)

  make_all-first :
      (mode : ℕ) (p : FilePath) (ps : List FilePath) (w : World fs)
      → (make_all fs mode (p ∷ ps) w).0 ≡ ok tt
      → (make_one fs mode p w).0 ≡ ok tt
  unfolding make_all
  make_all-first mode p ps w h = ground arith

  make_all-rest :
      (mode : ℕ) (p : FilePath) (ps : List FilePath) (w : World fs)
      → (make_one fs mode p w).0 ≡ ok tt
      → make_all fs mode (p ∷ ps) w ≡ make_all fs mode ps (make_one fs mode p w).1
  unfolding make_all
  make_all-rest mode p ps w h = ground arith

  make_all-isdir :
      (mode : ℕ) (ps : List FilePath) (w w' : World fs)
      → make_all fs mode ps w ≡ (ok tt, w')
      → All (λ p. isdir fs p w' ≡ true) ps
  make_all-isdir mode [] w w' h = tt
  make_all-isdir mode (p ∷ ps) w w' h =
      let one = make_all-first mode p ps w (ap (λ r. r.0) h) in
      let next : World fs = (make_one fs mode p w).1 in
      let rest = sym (make_all-rest mode p ps w one) ∙ h in
      let first = make_all-kept mode ps p next (make_one-isdir mode p w one) in
      (sym (ap (λ r. isdir fs p r.1) rest) ∙ first, make_all-isdir mode ps next w' rest)

  -- After a `mkpath` that succeeds, each path that ends in front of a separator of the path or at its
  -- end is a directory, if `mkdir` makes a directory where it succeeds and removes none.
  mkpath-isdir :
      (mode : ℕ) (path : FilePath) (w : World fs) {w' : World fs}
      → mkpath fs mode path w ≡ some (ok tt, w')
      → All (λ p. isdir fs p w' ≡ true) (prefixes [] path)
  mkpath-isdir mode path w {w'} h =
      make_all-isdir mode (prefixes [] path) w w' (cc (mkpath-prefixes fs mode path w))

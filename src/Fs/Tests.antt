-- ===== src/Fs/Tests.antt =====
-- Runs of the calls of src/panda/unievent/Fs.cc on a small file system.
use uni_event.Base.{
  ℕ, ◌≡◌, refl, sym, ◌∙◌, Bool, true, false, ◌&&◌, some, List, [], ◌∷◌, ◌++◌, arith, if◌then◌else◌,
  ◌==◌, Bool-cases, inl, inr,
}
use uni_event.Fs.{
  Result, ok, err, FileType, dir, regular, FilePath, Entry, FileSystem, World, Call, made, type_is,
  is_dir_type, isdir, mkpath, rmtree, truncate, opened, truncated, closed,
}
use uni_event.Fs.Paths.{prefixes, make_all, mkpath-prefixes}
use uni_event.Fs.Made.{IsLawful}
use uni_event.Fs.Tree.{Children, entries, removals, node, ScannedChildren, rmtree-removals}
use uni_event.Fs.Returns.{Bounded, Returns, rmtree-Returns}

abbrev path_eq : FilePath → FilePath → Bool
path_eq [] [] = true
path_eq [] (d ∷ ds) = false
path_eq (c ∷ cs) [] = false
path_eq (c ∷ cs) (d ∷ ds) = c == d && path_eq cs ds

abbrev has : FilePath → List FilePath → Bool
has p [] = false
has p (q ∷ qs) = if path_eq p q then true else has p qs

-- The directories that there are. A path of one character holds a file `f`, and nothing is below others.
abbrev scan_small : FilePath → List FilePath → Result (List Entry)
scan_small [] s = err 2
scan_small (c ∷ []) s = ok (record { name = b'f' ∷ []; type = regular } ∷ [])
scan_small (c ∷ d ∷ ds) s = err 20

abbrev stat_small : FilePath → List FilePath → Result ℕ
stat_small p s = if has p s then ok 16877 else err 2

abbrev mkdir_small : FilePath → ℕ → List FilePath → Result (Unit {0}) × List FilePath
mkdir_small p mode s = if has p s then (err 17, s) else (ok tt, p ∷ s)

abbrev small : FileSystem
small = record {
  State = List FilePath;
  stat = stat_small;
  scandir = scan_small;
  mkdir = mkdir_small;
  rmdir = λ p s. (ok tt, s);
  unlink = λ p s. (ok tt, s);
  open_file = λ p f m s. (ok 3, s);
  close = λ fd s. (err 5, s);
  truncate = λ fd n s. (err 28, s);
  utime = λ p t s. (ok tt, s);
  gettimeofday = λ s. ok 7;
}

abbrev empty : World small
empty = record { state = []; calls = [] }

abbrev ab : FilePath
ab = b'/' ∷ b'a' ∷ b'/' ∷ b'/' ∷ b'b' ∷ []

mkpath_run :
    mkpath small 493 ab empty
    ≡ some (
      ok tt,
      record {
        state = ab ∷ (b'/' ∷ b'a' ∷ []) ∷ [];
        calls = made (b'/' ∷ b'a' ∷ []) ∷ made ab ∷ [];
      },
    )
unfolding mkpath uni_event.Fs.is_slash
mkpath_run = refl

mkpath-prefixes_example :
    mkpath small 493 ab empty ≡ some (make_all small 493 (prefixes [] ab) empty)
mkpath-prefixes_example = mkpath-prefixes small 493 ab empty

path_eq-same : (p : FilePath) → path_eq p p ≡ true
path_eq-same [] = refl
path_eq-same (c ∷ cs) = ground (arith, path_eq-same cs)

stat-has :
    (p : FilePath) (s : List FilePath)
    → type_is small (is_dir_type small) (stat_small p s) ≡ has p s
unfolding uni_event.Fs.ftype
stat-has p s = elim (Bool-cases (has p s)) [ inl e ↦ rw e refl | inr e ↦ rw e refl ]

has-made : (p : FilePath) (mode : ℕ) (s : List FilePath) → has p (mkdir_small p mode s).1 ≡ true
has-made p mode s = elim (Bool-cases (has p s)) [
  | inl e ↦ rw e e
  | inr e ↦ rw e (rw (path_eq-same p) refl)
]

has-kept :
    (p q : FilePath) (mode : ℕ) (s : List FilePath)
    → has q s ≡ true
    → has q (mkdir_small p mode s).1 ≡ true
has-kept p q mode s h = elim (Bool-cases (has p s)) [
  | inl e ↦ rw e h
  | inr e ↦ elim (Bool-cases (path_eq q p)) [ inl f ↦ rw e (rw f refl) | inr f ↦ rw e (rw f h) ]
]

small-IsLawful : IsLawful small
small-IsLawful = record {
  isdir-mkdir = λ p mode s h. stat-has p (mkdir_small p mode s).1 ∙ has-made p mode s;
  isdir-kept = λ p q mode s h.
      stat-has q (mkdir_small p mode s).1 ∙ has-kept p q mode s (sym (stat-has q s) ∙ h);
}

small-Bounded : Bounded small 1
small-Bounded [] s h = absurd (omega arith)
small-Bounded (c ∷ []) s h = absurd (omega arith)
small-Bounded (c ∷ d ∷ ds) s h = (20, refl)

rmtree-Returns_example : Returns small (rmtree small 2) (b'a' ∷ []) empty
rmtree-Returns_example =
    rmtree-Returns small 1 small-Bounded 2 (b'a' ∷ []) empty (omega arith) (omega arith)

-- A directory `a` holds an empty directory `d` and a file `f`.
abbrev scan_nested : FilePath → List FilePath → Result (List Entry)
scan_nested [] s = err 2
scan_nested (c ∷ []) s =
    ok (record { name = b'd' ∷ []; type = dir } ∷ record { name = b'f' ∷ []; type = regular } ∷ [])
scan_nested (c ∷ d ∷ ds) s = ok []

abbrev nested : FileSystem
nested = record small { scandir = scan_nested }

abbrev full : World nested
full = record { state = []; calls = [] }

abbrev emptied : World nested
emptied = record {
  state = [];
  calls =
      Call.removed_dir (b'a' ∷ b'/' ∷ b'd' ∷ [])
      ∷ Call.unlinked (b'a' ∷ b'/' ∷ b'f' ∷ [])
      ∷ Call.removed_dir (b'a' ∷ [])
      ∷ [];
}

rmtree_run : rmtree nested 2 (b'a' ∷ []) full ≡ some (ok tt, emptied)
unfolding rmtree
rmtree_run = refl

rmtree-removals_example :
    (cs : Children) × (scan_nested (b'a' ∷ []) [] ≡ ok (entries cs))
    × (emptied.calls ≡ [] ++ removals (b'a' ∷ []) (node cs))
    × ScannedChildren nested [] (b'a' ∷ []) cs
rmtree-removals_example = rmtree-removals nested 2 (b'a' ∷ []) full emptied rmtree_run

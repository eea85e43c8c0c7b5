-- ===== src/Fs/Tree.antt =====
-- What `_rmtree` of src/panda/unievent/Fs.cc removes, and that it returns.
use uni_event.Base.{
  ℕ, zero, suc, ◌≡◌, refl, sym, ap, ◌∙◌, Option, none, some, List, [], ◌∷◌, ◌++◌, append_assoc,
  arith,
}
use uni_event.Fs.{
  Result, ok, err, FileType, dir, FilePath, Entry, FileSystem, World, Call, removed_dir, unlinked,
  below, remove_entry, remove_entries, rmtree,
}

-- What the scans found below a path: for each entry its name and type, and what was found below it.
mutual
  pub data Tree : Type 0 where
    leaf : FileType → Tree
    node : Children → Tree

  pub data Children : Type 0 where
    nil : Children
    child : FilePath → Tree → Children → Children

abbrev pub type_of : Tree → FileType
type_of (leaf t) = t
type_of (node cs) = dir

pub entries : Children → List Entry
entries nil = []
entries (child n t cs) = record { name = n; type = type_of t } ∷ entries cs

-- The calls that remove a tree: all that is below a directory, in order, and then the directory.
mutual
  pub removals : FilePath → Tree → List Call
  removals path (leaf t) = unlinked path ∷ []
  removals path (node cs) = inner path cs ++ removed_dir path ∷ []

  pub inner : FilePath → Children → List Call
  inner path nil = []
  inner path (child n t cs) = removals (path ++ b'/' ∷ n) t ++ inner path cs

module _ (fs : FileSystem) where
  abbrev pub Step : Type 0
  Step = FilePath → World fs → Option (Result (Unit {0}) × World fs)

  -- A scan of a directory, after the calls `before`, gave these entries.
  abbrev pub Found : List Call → FilePath → Children → Type 0
  Found before path cs =
      (w : World fs) × (w.calls ≡ before) × (fs.scandir path w.state ≡ ok (entries cs))

  -- A tree was there to be removed, below a path and after the calls `before`: each directory in it was
  -- scanned after the calls that remove all that comes before it, and has the entries that the scan
  -- gave; and the type of a directory is not that of a file that is unlinked.
  mutual
    pub Scanned : List Call → FilePath → Tree → Type 0
    Scanned before path (leaf t) = ¬ (t ≡ dir)
    Scanned before path (node cs) = Found before path cs × ScannedChildren before path cs

    pub ScannedChildren : List Call → FilePath → Children → Type 0
    ScannedChildren before path nil = Unit {0}
    ScannedChildren before path (child n t cs) =
        Scanned before (path ++ b'/' ∷ n) t
        × ScannedChildren (before ++ removals (path ++ b'/' ∷ n) t) path cs

  -- Where it succeeds, it removes a tree below the path.
  abbrev Removes : Step → Type 0
  Removes again =
      (path : FilePath) (w w' : World fs)
      → again path w ≡ some (ok tt, w')
      → (cs : Children) × (fs.scandir path w.state ≡ ok (entries cs))
        × (w'.calls ≡ w.calls ++ removals path (node cs))
        × ScannedChildren w.calls path cs

  entry-removals :
      (again : Step)
      → Removes again
      → (path : FilePath) (t : FileType) (w w' : World fs)
      → remove_entry fs again path t w ≡ some (ok tt, w')
      → (tree : Tree) × (type_of tree ≡ t)
        × (w'.calls ≡ w.calls ++ removals path tree)
        × Scanned w.calls path tree
  unfolding remove_entry removals Scanned
  entry-removals again r path FileType.dir w w' h =
      let found = r path w w' h in (node found.0, refl, found.2, ((w, refl, found.1), found.3))
  entry-removals again r path FileType.unknown w w' h =
      (leaf FileType.unknown, refl, ground arith, λ e. cc)
  entry-removals again r path FileType.block w w' h =
      (leaf FileType.block, refl, ground arith, λ e. cc)
  entry-removals again r path FileType.char_device w w' h =
      (leaf FileType.char_device, refl, ground arith, λ e. cc)
  entry-removals again r path FileType.fifo w w' h =
      (leaf FileType.fifo, refl, ground arith, λ e. cc)
  entry-removals again r path FileType.link w w' h =
      (leaf FileType.link, refl, ground arith, λ e. cc)
  entry-removals again r path FileType.regular w w' h =
      (leaf FileType.regular, refl, ground arith, λ e. cc)
  entry-removals again r path FileType.socket w w' h =
      (leaf FileType.socket, refl, ground arith, λ e. cc)

  -- The first entry is gone and the loop goes on, where it succeeds.
  entries-first :
      (again : Step) (path : FilePath) (e : Entry) (es : List Entry) (w w' : World fs)
      → remove_entries fs again path (e ∷ es) w ≡ some (ok tt, w')
      → (next : World fs) × (remove_entry fs again (below fs path e.name) e.type w
          ≡ some (ok tt, next))
        × (remove_entries fs again path es next ≡ some (ok tt, w'))
  unfolding remove_entries
  entries-first again path e es w w' h =
      go (remove_entry fs again (below fs path e.name) e.type w) refl h
    where
      go :
          (o : Option (Result (Unit {0}) × World fs))
          → remove_entry fs again (below fs path e.name) e.type w ≡ o
          → (elim o [
            | none ↦ none
            | some r ↦ elim r.0 [
              | ok u ↦ remove_entries fs again path es r.1
              | err x ↦ some (err x, r.1)
            ]
          ])
            ≡ some (ok tt, w')
          → (next : World fs) × (remove_entry fs again (below fs path e.name) e.type w
              ≡ some (ok tt, next))
            × (remove_entries fs again path es next ≡ some (ok tt, w'))
      go none k l = cc
      go (some (ok u, next)) k l = (next, k, l)
      go (some (err x, next)) k l = cc

  entries-removals :
      (again : Step)
      → Removes again
      → (path : FilePath) (es : List Entry) (w w' : World fs)
      → remove_entries fs again path es w ≡ some (ok tt, w')
      → (cs : Children) × (entries cs ≡ es)
        × (w'.calls ≡ w.calls ++ removals path (node cs))
        × ScannedChildren w.calls path cs
  unfolding entries removals ScannedChildren
  entries-removals again r path [] w w' h = (nil, refl, unfold remove_entries in ground arith, tt)
  entries-removals again r path (e ∷ es) w w' h =
      let first = entries-first again path e es w w' h in
      let next : World fs = first.0 in
      let gone = entry-removals again r (below fs path e.name) e.type w next first.1 in
      let rest = entries-removals again r path es next w' first.2 in
      let all = inner path rest.0 ++ removed_dir path ∷ [] in
      let these = removals (below fs path e.name) gone.0 in
      (
        child e.name gone.0 rest.0,
        ground (arith, gone.1, rest.1),
        rest.2
            ∙ ap (λ l. l ++ all) gone.2
            ∙ append_assoc w.calls these all
            ∙ ap (λ l. w.calls ++ l)
                (sym (append_assoc these (inner path rest.0) (removed_dir path ∷ []))),
        (gone.3, rw (← gone.2) rest.3),
      )

  -- Where `_rmtree` succeeds, it has made these calls and no other: for the entries that the scan of
  -- the directory gave, in order, all that removes them, and then the call that removes the directory.
  -- All that removes an entry is one unlink where its type is not that of a directory; for a directory
  -- it is again all that removes the entries of its own scan, made when all before it was removed, and
  -- then the call that removes it.
  pub rmtree-removals :
      (fuel : ℕ) (path : FilePath) (w w' : World fs)
      → rmtree fs fuel path w ≡ some (ok tt, w')
      → (cs : Children) × (fs.scandir path w.state ≡ ok (entries cs))
        × (w'.calls ≡ w.calls ++ removals path (node cs))
        × ScannedChildren w.calls path cs
  unfolding rmtree
  rmtree-removals zero path w w' h = cc
  rmtree-removals (suc fuel) path w w' h =
      go (λ p u u' m. rmtree-removals fuel p u u' m) (fs.scandir path w.state) refl h
    where
      go :
          Removes (rmtree fs fuel)
          → (scan : Result (List Entry)) → fs.scandir path w.state ≡ scan
          → (elim scan [
            | ok es ↦ remove_entries fs (rmtree fs fuel) path es w
            | err e ↦ some (err e, w)
          ])
            ≡ some (ok tt, w')
          → (cs : Children) × (fs.scandir path w.state ≡ ok (entries cs))
            × (w'.calls ≡ w.calls ++ removals path (node cs))
            × ScannedChildren w.calls path cs
      go below_it (ok es) k l =
          let found = entries-removals (rmtree fs fuel) below_it path es w w' l in
          (found.0, k ∙ ap ok (sym found.1), found.2, found.3)
      go below_it (err e) k l = cc

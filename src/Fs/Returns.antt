-- ===== src/Fs/Returns.antt =====
-- That `_rmtree` of src/panda/unievent/Fs.cc returns.
use uni_event.Base.{
  ℕ, zero, suc, ◌+◌, ◌≤◌, ◌<◌, ◌≡◌, refl, ◌∙◌, some, List, [], ◌∷◌, arith, length, length-append,
  ltb, Bool-cases, inl, inr,
}
use uni_event.Fs.{
  Result, ok, err, FileType, FilePath, Entry, FileSystem, World, removed_dir, below, recorded,
  remove_entry, remove_entries, rmtree,
}
use uni_event.Fs.Tree.{Step}

module _ (fs : FileSystem) where
  -- A path longer than the limit of the system cannot be scanned.
  abbrev pub Bounded : ℕ → Type 0
  Bounded limit =
      (path : FilePath) (s : fs.State) → limit < length path → (e : ℕ) × (fs.scandir path s ≡ err e)

  abbrev pub Returns : Step fs → FilePath → World fs → Type 0
  Returns again path w = (r : Result (Unit {0}) × World fs) × (again path w ≡ some r)

  entry-Returns :
      (again : Step fs) (path : FilePath) (t : FileType) (w : World fs)
      → Returns again path w
      → Returns (λ p u. remove_entry fs again p t u) path w
  unfolding remove_entry
  entry-Returns again path FileType.dir w r = r
  entry-Returns again path FileType.unknown w r = (_, refl)
  entry-Returns again path FileType.block w r = (_, refl)
  entry-Returns again path FileType.char_device w r = (_, refl)
  entry-Returns again path FileType.fifo w r = (_, refl)
  entry-Returns again path FileType.link w r = (_, refl)
  entry-Returns again path FileType.regular w r = (_, refl)
  entry-Returns again path FileType.socket w r = (_, refl)

  entries-next :
      (again : Step fs) (path : FilePath) (e : Entry) (es : List Entry) (w next : World fs)
      → remove_entry fs again (below fs path e.name) e.type w ≡ some (ok tt, next)
      → remove_entries fs again path (e ∷ es) w ≡ remove_entries fs again path es next
  unfolding remove_entries
  entries-next again path e es w next k = ground arith

  entries-error :
      (again : Step fs) (path : FilePath) (e : Entry) (es : List Entry) (w next : World fs) (x : ℕ)
      → remove_entry fs again (below fs path e.name) e.type w ≡ some (err x, next)
      → remove_entries fs again path (e ∷ es) w ≡ some (err x, next)
  unfolding remove_entries
  entries-error again path e es w next x k = ground arith

  entries-last :
      (again : Step fs) (path : FilePath) (w : World fs)
      → remove_entries fs again path [] w ≡ some (recorded fs (removed_dir path) (fs.rmdir path) w)
  unfolding remove_entries
  entries-last again path w = refl

  entries-Returns :
      (again : Step fs) (path : FilePath) (es : List Entry) (w : World fs)
      → ((name : FilePath) (u : World fs) → Returns again (below fs path name) u)
      → Returns (λ p u. remove_entries fs again p es u) path w
  entries-Returns again path [] w r = (_, entries-last again path w)
  entries-Returns again path (e ∷ es) w r =
      go (entry-Returns again (below fs path e.name) e.type w (r e.name w))
        (λ u. entries-Returns again path es u r)
    where
      go :
          Returns (λ p u. remove_entry fs again p e.type u) (below fs path e.name) w
          → ((u : World fs) → Returns (λ p v. remove_entries fs again p es v) path u)
          → Returns (λ p u. remove_entries fs again p (e ∷ es) u) path w
      go ((ok u, next), k) rest =
          ((rest next).0, entries-next again path e es w next k ∙ (rest next).1)
      go ((err x, next), k) rest = ((err x, next), entries-error again path e es w next x k)

  short-scan :
      (limit : ℕ)
      → Bounded limit
      → (path : FilePath) (w : World fs) (es : List Entry) → fs.scandir path w.state ≡ ok es
      → length path ≤ limit
  short-scan limit b path w es e = elim (Bool-cases (ltb limit (length path))) [
    | inl h ↦ let refused = b path w.state (ground arith) in cc
    | inr h ↦ ground arith
  ]

  rmtree-scan :
      (fuel : ℕ) (path : FilePath) (w : World fs) (es : List Entry)
      → fs.scandir path w.state ≡ ok es
      → rmtree fs (suc fuel) path w ≡ remove_entries fs (rmtree fs fuel) path es w
  unfolding rmtree
  rmtree-scan fuel path w es e = ground arith

  rmtree-error :
      (fuel : ℕ) (path : FilePath) (w : World fs) (x : ℕ)
      → fs.scandir path w.state ≡ err x
      → rmtree fs (suc fuel) path w ≡ some (err x, w)
  unfolding rmtree
  rmtree-error fuel path w x e = ground arith

  -- Where paths of more than `limit` characters cannot be scanned, `_rmtree` returns: it calls itself
  -- `limit + 2` times at most, less the characters of the path, one inside the other.
  pub rmtree-Returns :
      (limit : ℕ)
      → Bounded limit
      → (fuel : ℕ) (path : FilePath) (w : World fs) → 0 < fuel
      → limit + 2 ≤ fuel + length path
      → Returns (rmtree fs fuel) path w
  rmtree-Returns limit b zero path w h k = absurd (omega arith)
  rmtree-Returns limit b (suc fuel) path w h k =
      go
        (λ short name u.
          rmtree-Returns limit b fuel (below fs path name) u (omega (arith, short))
            (omega (arith, short, length-append path (b'/' ∷ name))))
        (fs.scandir path w.state) refl
    where
      go :
          (length path ≤ limit
            → (name : FilePath) (u : World fs) → Returns (rmtree fs fuel) (below fs path name) u)
          → (scan : Result (List Entry)) → fs.scandir path w.state ≡ scan
          → Returns (rmtree fs (suc fuel)) path w
      go rec (ok es) e =
          let r =
            entries-Returns (rmtree fs fuel) path es w (rec (short-scan limit b path w es e)) in
          (r.0, rmtree-scan fuel path w es e ∙ r.1)
      go rec (err x) e = ((err x, w), rmtree-error fuel path w x e)

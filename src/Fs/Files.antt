-- ===== src/Fs/Files.antt =====
-- The files that `truncate` and `touch` open by a path (src/panda/unievent/Fs.cc).
use uni_event.Base.{ℕ, ◌≡◌, refl, sym, ap, ◌∙◌, List, [], ◌∷◌, ◌++◌, append_assoc}
use uni_event.Fs.{
  Result, ok, err, FilePath, FileSystem, World, Call, opened, closed, truncated, recorded,
  close_after, truncate_opened, truncate,
}

-- The first error of two results.
abbrev pub first_error {ℓ} : {A : Type ℓ} → Result A → Result A → Result A
first_error (ok u) r = r
first_error (err e) r = err e

abbrev ok_of {ℓ} : {A : Type ℓ} → A → Result A → A
ok_of d (ok a) = a
ok_of d (err e) = d

ok_eq : {a b : ℕ} → ok a ≡ ok b → b ≡ a
ok_eq {a} {b} h = sym (ap (ok_of a) h)

module _ (fs : FileSystem) where
  close-first :
      (fd : ℕ) (r : Result (Unit {0})) (w : World fs)
      → close_after fs fd (r, w) ≡ (
        first_error r (fs.close fd w.state).0,
        record { state = (fs.close fd w.state).1; calls = w.calls ++ closed fd ∷ [] },
      )
  unfolding close_after
  close-first fd (ok u) w = refl
  close-first fd (err e) w = refl

  calls-three :
      (cs : List Call) (a b c : Call) → ((cs ++ a ∷ []) ++ b ∷ []) ++ c ∷ [] ≡ cs ++ a ∷ b ∷ c ∷ []
  calls-three cs a b c =
      append_assoc (cs ++ a ∷ []) (b ∷ []) (c ∷ []) ∙ append_assoc cs (a ∷ []) (b ∷ c ∷ [])

  opened-truncated :
      (n fd : ℕ) (r : Result ℕ) (w : World fs)
      → r ≡ ok fd
      → truncate_opened fs n (r, w)
        ≡ close_after fs fd (recorded fs (truncated fd) (fs.truncate fd n) w)
  unfolding truncate_opened
  opened-truncated n fd (ok d) w h = rw (ok_eq h) refl
  opened-truncated n fd (err e) w h = cc

  -- A path that `truncate` has opened is closed: with the truncation between them, whether that works or
  -- not, and the first error of the two is the answer.
  truncate-closes :
      (mode : ℕ) (path : FilePath) (n fd : ℕ) (w : World fs)
      → (fs.open_file path 1 mode w.state).0 ≡ ok fd
      → let s = (fs.open_file path 1 mode w.state).1 in
        let t = fs.truncate fd n s in
        let c = fs.close fd t.1 in
        truncate fs mode path n w ≡ (
          first_error t.0 c.0,
          record { state = c.1; calls = w.calls ++ opened path ∷ truncated fd ∷ closed fd ∷ [] },
        )
  unfolding truncate
  truncate-closes mode path n fd w h =
      let s : fs.State = (fs.open_file path 1 mode w.state).1 in
      let t : Result (Unit {0}) × fs.State = fs.truncate fd n s in
      let c : Result (Unit {0}) × fs.State = fs.close fd t.1 in
      let w1 : World fs = record { state = s; calls = w.calls ++ opened path ∷ [] } in
      let w2 : World fs = record { state = t.1; calls = w1.calls ++ truncated fd ∷ [] } in
      opened-truncated n fd (fs.open_file path 1 mode w.state).0 w1 h
      ∙ close-first fd t.0 w2
      ∙ ap (λ l. (first_error t.0 c.0, record { state = c.1; calls = l }))
          (calls-three w.calls (opened path) (truncated fd) (closed fd))

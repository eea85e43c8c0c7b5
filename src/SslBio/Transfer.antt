-- ===== src/SslBio/Transfer.antt =====
-- What goes into the memory buffer comes out of it (src/panda/unievent/ssl/SslBio.cc).
use uni_event.Base.{
  ℕ, zero, suc, ◌-◌, ◌≡◌, refl, sym, ap, ◌∙◌, Bool, true, false, none, some, List, [], ◌∷◌, ◌++◌,
  append_assoc, append-nil, length, take-append-drop, if◌then◌else◌,
}
use uni_event.SslBio.{
  ℤ, pos, negsuc, as_int, Bio, grown, bio_write, read_length, read_nothing, read_bytes, bio_read,
  line_length, get_line, bio_gets, set_buf, steal_buf,
}

-- What a client of the buffer does. A write that finds the buffer full is given an empty string.
pub data Op : Type 0 where
  writes : Bool → List ℕ → Op
  sets : List ℕ → Op
  reads gets : ℕ → Op
  steals : Op

-- The bytes that an operation takes out, and those that it puts in.
unfoldable pub step : Op → Bio → List ℕ × Bio
unfolding bio_write bio_read bio_gets set_buf steal_buf
step (writes full bs) b = ([], (bio_write (if full then some [] else none) bs b).0)
step (sets bs) b = ([], set_buf bs b)
step (reads n) b = let r = bio_read n b in (r.0, r.1)
step (gets n) b = let r = bio_gets n b in (r.0, r.1)
step steals b = steal_buf b

abbrev pub added : Op → List ℕ
added (writes full bs) = bs
added (sets bs) = bs
added _ = []

abbrev pub run : List Op → Bio → List ℕ × Bio
run [] b = ([], b)
run (op ∷ ops) b = let r = step op b in let rest = run ops r.1 in (r.0 ++ rest.0, rest.1)

abbrev pub written : List Op → List ℕ
written [] = []
written (op ∷ ops) = added op ++ written ops

read_nothing-buf :
    (n : ℤ) (bs : List ℕ) (b : Bio) → (read_nothing n bs b).0 ++ (read_nothing n bs b).1.buf ≡ b.buf
unfolding read_nothing
read_nothing-buf n [] b = refl
read_nothing-buf n (c ∷ cs) b = refl

read_bytes-buf : (n : ℤ) (b : Bio) → (read_bytes n b).0 ++ (read_bytes n b).1.buf ≡ b.buf
unfolding read_bytes
read_bytes-buf (pos (suc n)) b = take-append-drop (suc n) b.buf
read_bytes-buf (pos zero) b = read_nothing-buf (pos 0) b.buf b
read_bytes-buf (negsuc n) b = read_nothing-buf (negsuc n) b.buf b

bio_read-buf : (n : ℕ) (b : Bio) → (bio_read n b).0 ++ (bio_read n b).1.buf ≡ b.buf
unfolding bio_read
bio_read-buf n b = read_bytes-buf (read_length n (as_int (length b.buf))) b

get_line-buf : (j : ℤ) (b : Bio) → (get_line j b).0 ++ (get_line j b).1.buf ≡ b.buf
unfolding get_line
get_line-buf (pos (suc j)) b = bio_read-buf (line_length (suc j) b.buf) (record b { retry = false })
get_line-buf (pos zero) b = refl
get_line-buf (negsuc j) b = refl

bio_gets-buf : (n : ℕ) (b : Bio) → (bio_gets n b).0 ++ (bio_gets n b).1.buf ≡ b.buf
unfolding bio_gets
bio_gets-buf n b = get_line-buf (read_length (n - 1) (as_int (length b.buf))) b

grown-buf : (full : Bool) (buf : List ℕ) → grown (if full then some [] else none) buf ≡ buf
unfolding grown
grown-buf false buf = refl
grown-buf true [] = refl
grown-buf true (c ∷ cs) = refl

step-buf : (op : Op) (b : Bio) → (step op b).0 ++ (step op b).1.buf ≡ b.buf ++ added op
unfolding step bio_write grown set_buf steal_buf
step-buf (writes true bs) b = ap (λ l. l ++ bs) (grown-buf true b.buf)
step-buf (writes false bs) b = ap (λ l. l ++ bs) (grown-buf false b.buf)
step-buf (sets bs) b = refl
step-buf (reads n) b = bio_read-buf n b ∙ sym (append-nil b.buf)
step-buf (gets n) b = bio_gets-buf n b ∙ sym (append-nil b.buf)
step-buf steals b = refl

-- Along any operations, the bytes read so far and the bytes left are the bytes at the start and the
-- bytes written, in the order of the writes, none lost and none twice.
run-written : (ops : List Op) (b : Bio) → (run ops b).0 ++ (run ops b).1.buf ≡ b.buf ++ written ops
run-written [] b = sym (append-nil b.buf)
run-written (op ∷ ops) b =
    let r : List ℕ × Bio = step op b in
    let rest : List ℕ × Bio = run ops r.1 in
    append_assoc r.0 rest.0 rest.1.buf
    ∙ ap (λ l. r.0 ++ l) (run-written ops r.1)
    ∙ sym (append_assoc r.0 r.1.buf (written ops))
    ∙ ap (λ l. l ++ written ops) (step-buf op b)
    ∙ append_assoc b.buf (added op) (written ops)

-- ===== src/SslBio/Lines.antt =====
-- What one read of the memory buffer gives (src/panda/unievent/ssl/SslBio.cc).
use uni_event.Base.{
  ℕ, zero, suc, ◌-◌, ◌<◌, ◌≤◌, ◌≡◌, refl, sym, ap, ◌∙◌, false, List, [], ◌∷◌, arith, length, take,
  drop, ◌==◌, ltb, if◌then◌else◌, Bool-cases, inl, inr,
}
use uni_event.SslBio.{
  ℤ, pos, as_int, Bio, read_length, read_bytes, bio_read, line_length, get_line, bio_gets,
}

as_int_lem : (n : ℕ) → n < 2147483648 → as_int n ≡ pos n
unfolding as_int
as_int_lem n h = ground arith

module _ {ℓ} {A : Type ℓ} where
  take-all : (n : ℕ) (xs : List A) → length xs ≤ n → take n xs ≡ xs
  take-all zero [] h = refl
  take-all zero (x ∷ xs) h = absurd (omega arith)
  take-all (suc n) [] h = refl
  take-all (suc n) (x ∷ xs) h = ap (λ l. x ∷ l) (take-all n xs (omega arith))

  drop-all : (n : ℕ) (xs : List A) → length xs ≤ n → drop n xs ≡ []
  drop-all zero [] h = refl
  drop-all zero (x ∷ xs) h = absurd (omega arith)
  drop-all (suc n) [] h = refl
  drop-all (suc n) (x ∷ xs) h = drop-all n xs (omega arith)

  length-take : (n : ℕ) (xs : List A) → n ≤ length xs → length (take n xs) ≡ n
  length-take zero xs h = refl
  length-take (suc n) [] h = absurd (omega arith)
  length-take (suc n) (x ∷ xs) h = ap suc (length-take n xs (omega arith))

-- The result of a read that copies `bs`.
abbrev pub copied : List ℕ → List ℕ → Bio → List ℕ × Bio × ℤ
copied bs rest b = (bs, record b { buf = rest; retry = false }, pos (length bs))

read_some :
    (n : ℕ) (b : Bio)
    → 0 < n
    → n ≤ length b.buf
    → read_bytes (pos n) b ≡ copied (take n b.buf) (drop n b.buf) b
unfolding read_bytes
read_some zero b h k = absurd (omega arith)
read_some (suc n) b h k =
    ap (λ m. (take (suc n) b.buf, record b { buf = drop (suc n) b.buf; retry = false }, pos m))
      (sym (length-take (suc n) b.buf k))

-- A read of a buffer that holds fewer than 2^31 bytes, and is not empty, gives as many of the first
-- bytes as are asked for and there are, drops them, and returns their number.
bio_read-copied :
    (n : ℕ) (b : Bio)
    → 0 < n
    → 0 < length b.buf
    → length b.buf < 2147483648
    → bio_read n b ≡ copied (take n b.buf) (drop n b.buf) b
unfolding bio_read read_length
bio_read-copied n b h k l = elim (Bool-cases (ltb (length b.buf) n)) [
  | inl e ↦
      let takes =
        take-all (length b.buf) b.buf (omega arith) ∙ sym (take-all n b.buf (ground arith)) in
      let drops =
        drop-all (length b.buf) b.buf (omega arith) ∙ sym (drop-all n b.buf (ground arith)) in
      rw (as_int_lem (length b.buf) l)
        (rw e (read_some (length b.buf) b k (omega arith) ∙ rw takes (rw drops refl)))
  | inr e ↦ rw (as_int_lem (length b.buf) l) (rw e (read_some n b h (ground arith)))
]

-- A line of `k` bytes at most, with its newline.
unfoldable pub line : ℕ → List ℕ → List ℕ
line zero cs = []
line (suc k) [] = []
line (suc k) (c ∷ cs) = if c == 10 then c ∷ [] else c ∷ line k cs

take-line_length : (k : ℕ) (cs : List ℕ) → take (line_length k cs) cs ≡ line k cs
unfolding line_length line
take-line_length zero cs = refl
take-line_length (suc k) [] = refl
take-line_length (suc k) (c ∷ cs) = elim (Bool-cases (c == 10)) [
  | inl e ↦ rw e refl
  | inr e ↦ rw e (ap (λ l. c ∷ l) (take-line_length k cs))
]

line_length-le : (k : ℕ) (cs : List ℕ) → line_length k cs ≤ length cs
unfolding line_length
line_length-le zero cs = omega arith
line_length-le (suc k) [] = omega arith
line_length-le (suc k) (c ∷ cs) = ground (arith, line_length-le k cs)

line_length-pos : (k : ℕ) (cs : List ℕ) → 0 < k → 0 < length cs → 0 < line_length k cs
unfolding line_length
line_length-pos zero cs h l = absurd (omega arith)
line_length-pos (suc k) [] h l = absurd (omega arith)
line_length-pos (suc k) (c ∷ cs) h l = ground arith

line_length-all :
    (k : ℕ) (cs : List ℕ) → length cs ≤ k → line_length (length cs) cs ≡ line_length k cs
unfolding line_length
line_length-all zero [] h = refl
line_length-all (suc k) [] h = refl
line_length-all zero (c ∷ cs) h = absurd (omega arith)
line_length-all (suc k) (c ∷ cs) h = elim (Bool-cases (c == 10)) [
  | inl e ↦ rw e refl
  | inr e ↦ rw e (ap suc (line_length-all k cs (omega arith)))
]

-- A buffer that is read by as many bytes as its line has.
read-line :
    (j k : ℕ) (b : Bio)
    → 0 < j
    → 0 < length b.buf
    → length b.buf < 2147483648
    → line_length j b.buf ≡ line_length k b.buf
    → get_line (pos j) b ≡ copied (line k b.buf) (drop (line_length k b.buf) b.buf) b
unfolding get_line
read-line zero k b h l m e = absurd (omega arith)
read-line (suc j) k b h l m e =
    bio_read-copied (line_length (suc j) b.buf) (record b { retry = false })
      (line_length-pos (suc j) b.buf h l) l m
    ∙ rw e (rw (take-line_length k b.buf) refl)

-- `bio_gets` with room for a byte and the terminating zero, on a buffer that is not empty and holds fewer
-- than 2^31 bytes, gives the bytes up to the first newline and with it, but no more than there is room
-- for, drops them, and returns their number.
pub bio_gets-line :
    (size : ℕ) (b : Bio)
    → 1 < size
    → 0 < length b.buf
    → length b.buf < 2147483648
    → bio_gets size b ≡ copied (line (size - 1) b.buf) (drop (line_length (size - 1) b.buf) b.buf) b
unfolding bio_gets read_length
bio_gets-line size b h k l = elim (Bool-cases (ltb (length b.buf) (size - 1))) [
  | inl e ↦ rw (as_int_lem (length b.buf) l) (
      rw e (
        read-line (length b.buf) (size - 1) b k k l
          (line_length-all (size - 1) b.buf (ground arith))))
  | inr e ↦
      rw (as_int_lem (length b.buf) l)
        (rw e (read-line (size - 1) (size - 1) b (omega arith) k l refl))
]

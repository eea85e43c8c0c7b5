-- ===== src/SslBio.antt =====
-- The memory buffer of a TLS connection, src/panda/unievent/ssl/SslBio.cc and SslBio.h, with OpenSSL 1.1
-- or later. The lengths that OpenSSL passes are not negative; the length of the buffer is cut to an
-- `int` where the code does so.
pub mod Transfer
pub mod Lines
mod Tests
use uni_event.Base.{
  ℕ, zero, suc, ◌+◌, ◌-◌, ◌%◌, Bool, true, false, Option, none, some, List, [], ◌∷◌, ◌++◌, ◌==◌,
  ltb, leb, if◌then◌else◌, length, take, drop,
}

-- A signed number of the source.
pub data ℤ : Type 0 where
  pos negsuc : ℕ → ℤ

pub as_int : ℕ → ℤ
as_int n = let m = n % 4294967296 in if ltb m 2147483648 then pos m else negsuc (4294967295 - m)

-- `retry` is the flag that `BIO_set_retry_read` sets.
pub record Bio : Type 0 where
  pub buf : List ℕ
  pub shutdown : ℕ  -- int
  pub retry : Bool

pub bio_new : Bio
bio_new = record { buf = []; shutdown = 1; retry = false }

-- A full buffer moves to a new one, behind what the allocator put there.
pub grown : Option (List ℕ) → List ℕ → List ℕ
grown none buf = buf
grown (some newbuf) [] = newbuf
grown (some newbuf) (c ∷ cs) = newbuf ++ c ∷ cs

-- `alloc` is the string of `buf_alloc` when the capacity is too small.
pub bio_write : Option (List ℕ) → List ℕ → Bio → Bio × ℕ
unfolding grown
bio_write alloc bs b = (record b { buf = grown alloc b.buf ++ bs; retry = false }, length bs)

-- The number of bytes that `bio_read` copies, before its test of the empty buffer.
pub read_length : ℕ → ℤ → ℤ
read_length outl (negsuc n) = negsuc n
read_length outl (pos n) = if ltb n outl then pos n else pos outl

-- Nothing is copied: an empty buffer asks for a retry.
pub read_nothing : ℤ → List ℕ → Bio → List ℕ × Bio × ℤ
read_nothing n [] b = ([], record b { retry = true }, negsuc 0)
read_nothing n (c ∷ cs) b = ([], record b { retry = false }, n)

-- The bytes, the state and the result.
pub read_bytes : ℤ → Bio → List ℕ × Bio × ℤ
unfolding read_nothing
read_bytes (pos (suc n)) b =
    (take (suc n) b.buf, record b { buf = drop (suc n) b.buf; retry = false }, pos (suc n))
read_bytes n b = read_nothing n b.buf b

pub bio_read : ℕ → Bio → List ℕ × Bio × ℤ
unfolding as_int read_length read_bytes
bio_read outl b = read_bytes (read_length outl (as_int (length b.buf))) b

-- `i` of `bio_gets`: up to the first newline, and `j` bytes at most.
pub line_length : ℕ → List ℕ → ℕ
line_length zero cs = 0
line_length (suc j) [] = 0
line_length (suc j) (c ∷ cs) = if c == 10 then 1 else suc (line_length j cs)

-- `j` of `bio_gets`. The terminating zero, which `out` has room for, is left out.
pub get_line : ℤ → Bio → List ℕ × Bio × ℤ
unfolding line_length bio_read
get_line (pos (suc j)) b = bio_read (line_length (suc j) b.buf) (record b { retry = false })
get_line j b = ([], record b { retry = false }, pos 0)

pub bio_gets : ℕ → Bio → List ℕ × Bio × ℤ
unfolding as_int read_length get_line
bio_gets size b = get_line (read_length (size - 1) (as_int (length b.buf))) b

pub set_buf : List ℕ → Bio → Bio
set_buf bs b = record b { buf = b.buf ++ bs }

pub steal_buf : Bio → List ℕ × Bio
steal_buf b = (b.buf, record b { buf = [] })

-- The commands of `bio_ctrl`, with the arguments that they use; `others` are all that it does not know.
pub data Ctrl : Type 0 where
  reset eof set_eof_return info get_mem_ptr get_close wpending pending dup flush push pop others :
      Ctrl
  set_mem : List ℕ → ℕ → Ctrl
  set_close : ℕ → Ctrl

pub bio_ctrl : Ctrl → Bio → Bio × ℕ
bio_ctrl reset b = (record b { buf = [] }, 1)
bio_ctrl eof b = (b, if length b.buf == 0 then 1 else 0)
bio_ctrl set_eof_return b = (b, 0)
bio_ctrl info b = (b, length b.buf)
bio_ctrl (set_mem bs n) b = (record b { buf = bs; shutdown = n }, 1)
bio_ctrl get_mem_ptr b = (b, 1)
bio_ctrl get_close b = (b, b.shutdown)
bio_ctrl (set_close n) b = (record b { shutdown = n }, 1)
bio_ctrl wpending b = (b, 0)
bio_ctrl pending b = (b, length b.buf)
bio_ctrl dup b = (b, 1)
bio_ctrl flush b = (b, 1)
bio_ctrl _ b = (b, 0)

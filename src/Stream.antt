-- ===== src/Stream.antt =====
-- The flags of a stream and its reading, src/panda/unievent/Stream.h and Stream.cc. The flags are the
-- bits of a 32-bit word. What the backend answers is an argument.
pub mod Flags
pub mod Reading
pub mod Wishes
pub mod Connected
pub mod Writes
pub mod Filters
pub mod Requests
mod Tests
use Prim.Native.Nat.{bit_and, bit_or}
use uni_event.Base.{
  ℕ, ◌+◌, ◌-◌, ◌%◌, Bool, true, false, not, ◌&&◌, ◌||◌, Option, none, some, List, [], ◌∷◌, ◌==◌,
  if◌then◌else◌, length,
}

abbrev pub listening_bit : ℕ
listening_bit = 1

abbrev pub connecting_bit : ℕ
connecting_bit = 2

abbrev pub established_bit : ℕ
established_bit = 4

abbrev pub in_connected_bit : ℕ
in_connected_bit = 8

abbrev pub out_connected_bit : ℕ
out_connected_bit = 16

abbrev pub dontread_bit : ℕ
dontread_bit = 32

abbrev pub reading_bit : ℕ
reading_bit = 64

abbrev pub shutting_bit : ℕ
shutting_bit = 128

abbrev pub shut_bit : ℕ
shut_bit = 256

abbrev pub ignore_read_bit : ℕ
ignore_read_bit = 512

-- `flags & bits`, `flags |= bits` and `flags &= ~bits`.
unfoldable pub has : ℕ → ℕ → Bool
has bits flags = not (bit_and flags bits == 0)

pub raise : ℕ → ℕ → ℕ
raise bits flags = bit_or flags bits

pub lower : ℕ → ℕ → ℕ
lower bits flags = bit_and flags (4294967295 - bits)

-- `clear_out_connected`, `clear_in_connected` and `set_shutdown` on the flags.
pub clear_out : ℕ → ℕ
unfolding lower has
clear_out flags =
    let f = lower out_connected_bit flags in
    if has in_connected_bit f then f else lower established_bit f

pub clear_in : ℕ → ℕ
unfolding lower has
clear_in flags =
    let f = lower in_connected_bit flags in
    if has out_connected_bit f then f else lower established_bit f

pub shutdown_done : Bool → ℕ → ℕ
unfolding lower raise clear_out
shutdown_done succeeded flags =
    let f = raise shut_bit (lower shutting_bit flags) in if succeeded then clear_out f else f

-- The flags of `set_connect_result`, before it starts to read.
pub connect_flags : Bool → ℕ → ℕ
unfolding lower raise
connect_flags succeeded flags =
    let f = lower connecting_bit flags in
    if succeeded
    then raise established_bit (raise out_connected_bit (raise in_connected_bit f))
    else f

-- `impl_reading` tells whether the backend reads.
pub record Stream : Type 0 where
  pub flags : ℕ  -- uint32_t
  pub wq_size : ℕ  -- size_t
  pub impl_reading : Bool

pub wantread : Stream → Bool
unfolding has
wantread s = not (has dontread_bit s.flags)

pub set_wantread : Bool → ℕ → ℕ
unfolding lower raise
set_wantread on flags = if on then lower dontread_bit flags else raise dontread_bit flags

-- `_read_start`, with the answer of the backend: the new state, and an error.
pub try_read_start : Option ℕ → Stream → Stream × Option ℕ
unfolding raise
try_read_start none s = (record s { flags = raise reading_bit s.flags; impl_reading = true }, none)
try_read_start (some e) s = (s, some e)

pub begin_reading : Option ℕ → Stream → Stream × Option ℕ
unfolding has try_read_start
begin_reading answer s =
    if has reading_bit s.flags || not (has established_bit s.flags)
    then (s, none)
    else try_read_start answer s

-- `read_start`.
pub read_start : Option ℕ → Stream → Stream × Option ℕ
unfolding set_wantread lower begin_reading
read_start answer s =
    begin_reading answer (record s { flags = lower ignore_read_bit (set_wantread true s.flags) })

pub read_stop : Stream → Stream
unfolding set_wantread has lower
read_stop s =
    let f = set_wantread false s.flags in
    if has reading_bit f
    then record s { flags = lower reading_bit f; impl_reading = false }
    else record s { flags = f }

pub read_ignore : Stream → Stream
unfolding raise
read_ignore s = record s { flags = raise ignore_read_bit s.flags }

pub set_connect_result : Bool → Option ℕ → Stream → Stream × Option ℕ
unfolding connect_flags wantread begin_reading
set_connect_result succeeded answer s =
    let s' = record s { flags = connect_flags succeeded s.flags } in
    if succeeded && wantread s' then begin_reading answer s' else (s', none)

-- `handle_eof`: the new state, and whether the filters and the user are told. What libuv does by itself
-- at the end of the input is left out.
pub handle_eof : Stream → Stream × Bool
unfolding has clear_in
handle_eof s =
    if not (has established_bit s.flags)
    then (s, false)
    else (record s { flags = clear_in s.flags }, true)

-- What the filters and the user are told.
pub data Told : Type 0 where
  nothing data_read end_of_input : Told

-- `handle_read`: a reset connection counts as the end of the input.
pub handle_read : Bool → Stream → Stream × Told
unfolding has handle_eof
handle_read was_reset s =
    let ended = handle_eof s in
    if was_reset
    then (ended.0, if ended.1 then end_of_input else nothing)
    else (s, if has ignore_read_bit s.flags then nothing else data_read)

-- `_reset` and `_clear`: the backend's handle is destroyed.
pub reset_state : Stream → Stream
reset_state s = record { flags = bit_and s.flags dontread_bit; wq_size = 0; impl_reading = false }

pub clear_state : Stream → Stream
clear_state s = record { flags = 0; wq_size = 0; impl_reading = false }

-- The constructor.
pub create : Stream
create = record { flags = 0; wq_size = 0; impl_reading = false }

-- The bytes of a write request, which has several buffers.
abbrev pub bytes : List ℕ → ℕ
bytes [] = 0
bytes (n ∷ ns) = n + bytes ns

abbrev pub word : ℕ
word = 18446744073709551616

-- `Stream::write` before the push: each buffer counts.
pub add_sizes : List ℕ → ℕ → ℕ
add_sizes [] wq = wq
add_sizes (n ∷ ns) wq = add_sizes ns ((wq + n) % word)

pub sub_sizes : List ℕ → ℕ → ℕ
sub_sizes [] wq = wq
sub_sizes (n ∷ ns) wq = sub_sizes ns ((wq + (word - n % word)) % word)

pub write_queued : List ℕ → Stream → Stream
unfolding add_sizes
write_queued ns s = record s { wq_size = add_sizes ns s.wq_size }

-- What the start of a write request does next: hand it to the filters, or cancel it at the next turn.
pub data Started : Type 0 where
  handed_on canceled_later : Started

-- `WriteRequest::exec`.
pub write_exec : List ℕ → Stream → Stream × Started
unfolding has sub_sizes
write_exec ns s =
    if has out_connected_bit s.flags
    then (record s { wq_size = sub_sizes ns s.wq_size }, handed_on)
    else (s, canceled_later)

-- ===== src/Stream/Writes.antt =====
-- The size of the write queue of a stream, `_wq_size` of src/panda/unievent/Stream.cc.
use uni_event.Base.{ℕ, ◌+◌, ◌-◌, ◌%◌, ◌<◌, ◌≡◌, refl, true, false, List, [], ◌∷◌, arith}
use uni_event.Stream.{
  Stream, out_connected_bit, has, bytes, word, add_sizes, sub_sizes, write_queued, handed_on,
  canceled_later, write_exec,
}

pub add_sizes_lem : (ns : List ℕ) (wq : ℕ) → wq < word → add_sizes ns wq ≡ (wq + bytes ns) % word
unfolding add_sizes
add_sizes_lem [] wq h = omega arith
add_sizes_lem (n ∷ ns) wq h = omega (arith, add_sizes_lem ns ((wq + n) % word) (omega arith))

pub sub_sizes_lem :
    (ns : List ℕ) (wq left : ℕ)
    → left < word
    → wq ≡ (left + bytes ns) % word
    → sub_sizes ns wq ≡ left
unfolding sub_sizes
sub_sizes_lem [] wq left h e = omega arith
sub_sizes_lem (n ∷ ns) wq left h e =
    sub_sizes_lem ns ((wq + (word - n % word)) % word) left h (omega arith)

-- A write request that is started while the stream is connected for writing gives back all that it
-- added to the size of the write queue, modulo 2^64, whatever its buffers.
write-exec_connected :
    (ns : List ℕ) (s : Stream)
    → s.wq_size < word
    → has out_connected_bit s.flags ≡ true
    → write_exec ns (write_queued ns s) ≡ (s, handed_on)
unfolding write_exec write_queued
write-exec_connected ns s h c =
    rw (c, sub_sizes_lem ns (add_sizes ns s.wq_size) s.wq_size h (add_sizes_lem ns s.wq_size h))
      refl

-- A write request that is started while the stream is not connected for writing is cancelled without
-- giving back its bytes: the size of the write queue stays higher by them, modulo 2^64.
write-exec_unconnected :
    (ns : List ℕ) (s : Stream)
    → s.wq_size < word
    → has out_connected_bit s.flags ≡ false
    → ((write_exec ns (write_queued ns s)).1 ≡ canceled_later)
      × ((write_exec ns (write_queued ns s)).0.wq_size ≡ (s.wq_size + bytes ns) % word)
unfolding write_exec write_queued
write-exec_unconnected ns s h c = rw c (refl, add_sizes_lem ns s.wq_size h)

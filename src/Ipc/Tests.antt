-- ===== src/Ipc/Tests.antt =====
-- A process with one ring in use, and the theorems of the library at it.
use fast_ipc.Base.{
  ℕ, ◌+◌, ◌-◌, ◌≡◌, ◌≤◌, refl, arith, List, [], ◌∷◌, none, some, ok, replicate, set,
}
use fast_ipc.Memory.{Mem, load_le, load64, store64, store_le, byte_of}
use fast_ipc.Ipc.{
  UserRingBuf, Process, descriptor, create_ring_buf, ringbuf_start_write, ringbuf_start_read,
  find_free, ready, buf_size, load, store,
}
use fast_ipc.Ipc.Descriptors.{create_ring_buf_new}
use fast_ipc.Ipc.Counters.{Holds, start_same_address}
use fast_ipc.Ipc.Stream.{
  System, outside, offered, Reach, IsSafe, offers_are_counted, start, later, by_writer, by_reader,
  w_load, w_offer, w_use, w_fetch, w_store, r_load, r_offer,
}

abbrev no_ring : UserRingBuf
no_ring = record { buf = 0; book = 0; exists = 0; name = [] }

abbrev bye : List ℕ
bye = b'B' ∷ b'y' ∷ b'e' ∷ []

abbrev base : ℕ
base = 0x1000000

abbrev ring : UserRingBuf
ring = record { buf = base; book = base + 131072; exists = 1; name = bye }

abbrev zeroes : Mem
zeroes x = 0

abbrev fresh : Process
fresh = record { user_ring_bufs = replicate 10 no_ring; mem = zeroes }

abbrev joined : Process
joined = record { user_ring_bufs = set (replicate 10 no_ring) 0 ring; mem = zeroes }

found : descriptor joined 0 ≡ ok (some ring)
unfolding descriptor
found = refl

held : Holds zeroes ring.book 0 0
unfolding load64 load_le
held = omega arith

create_ring_buf_new_example : descriptor (create_ring_buf fresh bye (some 1) base).1 0 ≡ ok none
unfolding create_ring_buf find_free
create_ring_buf_new_example = create_ring_buf_new fresh bye 1 base 0 refl (omega arith) refl

start_same_address_example :
    (ringbuf_start_write joined 0 ≡ ok (ready base (buf_size - (0 - 0))))
    × (ringbuf_start_read joined 0 ≡ ok (ready base (0 - 0)))
start_same_address_example = start_same_address joined 0 ring 0 0 found held

abbrev quiet : System
quiet = record { mem = zeroes; writer = outside; reader = outside; given = 0; taken = 0 }

quiet-IsSafe : IsSafe base ring.book quiet
quiet-IsSafe = record { held = held; writer_knows = tt; reader_knows = tt }

-- Five bytes are written; then the writer is offered the others of the buffer, and the reader these.
abbrev both_offered : System
both_offered = record {
  mem = store zeroes (ring.book + 8) 5;
  writer = offered base 65531;
  reader = offered base 5;
  given = 5;
  taken = 0;
}

both_reached : Reach base ring.book quiet both_offered
unfolding load store load64 load_le store64 store_le byte_of
both_reached =
    later
      (later
        (later
          (later
            (later
              (later
                (later (later (later start (by_writer w_load)) (by_writer w_offer))
                  (by_writer (w_use {n = 5} (omega arith))))
                (by_writer w_fetch))
              (by_writer w_store))
            (by_writer w_load))
          (by_writer w_offer))
        (by_reader r_load))
      (by_reader r_offer)

offers_are_counted_example :
    Holds both_offered.mem ring.book 0 5
    × ((addr bytes : ℕ)
        → both_offered.writer ≡ offered addr bytes
        → ((5 - 0) + bytes ≤ buf_size) × (addr ≡ base))
    × ((addr bytes : ℕ)
        → both_offered.reader ≡ offered addr bytes
        → (bytes ≤ 5 - 0) × (addr ≡ base))
offers_are_counted_example = offers_are_counted base ring.book quiet-IsSafe both_reached

-- ===== src/Ipc/Counters.antt =====
-- The counters of a ring. The code cuts them to 32 bits at each load and store, and they count on
-- for the life of the ring; the functions still behave as if they were unbounded.
use fast_ipc.Base.{
  ℕ, ◌+◌, ◌-◌, ◌^◌, ◌<◌, ◌≤◌, ◌≡◌, ◌≢◌, refl, arith, none, some, ok, true, u64, sub64, to_int,
  extend, inl, inr, Outcome-cases, ◌∙◌,
}
use fast_ipc.Memory.{Mem, load64}
use fast_ipc.Memory.Words.{load64-store64_self, load64-store64_ne}
use fast_ipc.Ipc.{
  Process, UserRingBuf, descriptor, ringbuf_start_write, ringbuf_start_read, ringbuf_finish_write,
  ringbuf_finish_read, load, store, ready, exited, buf_size, room_left,
}

-- The word that stands for a count.

abbrev pub enc : ℕ → ℕ
enc n = extend (to_int n)

pub enc-lt : (n : ℕ) → enc n < 2 ^ 64
enc-lt n = ground arith

pub enc-enc : (n : ℕ) → enc (enc n) ≡ enc n
enc-enc n = ground arith

pub room-enc :
    (r w : ℕ) → r ≤ w → w ≤ r + buf_size → to_int (room_left (enc r) (enc w)) ≡ buf_size - (w - r)
room-enc r w lo hi = ground arith

pub used-enc : (r w : ℕ) → r ≤ w → w ≤ r + buf_size → to_int (sub64 (enc w) (enc r)) ≡ w - r
used-enc r w lo hi = ground arith

pub advance-enc : (w n : ℕ) → n ≤ buf_size → enc (u64 (enc w + extend n)) ≡ enc (w + n)
advance-enc w n le = ground arith

-- The book page at `book` holds the counts `r` of bytes read and `w` of bytes written, at most a
-- buffer apart.
pub record Holds (m : Mem) (book r w : ℕ) : Type 0 where
  pub reads : load64 m book ≡ enc r
  pub writes : load64 m (book + 8) ≡ enc w
  pub order : r ≤ w
  pub fits : w ≤ r + buf_size

pub load-Holds : (m : Mem) (p n : ℕ) → load64 m p ≡ enc n → load m p ≡ enc n
unfolding load
load-Holds m p n e = rw e (enc-enc n)

module _ (u : Process) (rd : ℕ) (ring : UserRingBuf)
    (found : descriptor u rd ≡ ok (some ring)) where
  -- The writer is offered the room that is left.
  pub start_write_lem :
      (r w : ℕ)
      → Holds u.mem ring.book r w
      → ringbuf_start_write u rd ≡ ok (ready ring.buf (buf_size - (w - r)))
  unfolding ringbuf_start_write
  start_write_lem r w h = ground (
    arith,
    found,
    load-Holds u.mem ring.book r h.reads,
    load-Holds u.mem (ring.book + 8) w h.writes,
    room-enc r w h.order h.fits,
  )

  -- The reader is offered the bytes that are there.
  pub start_read_lem :
      (r w : ℕ) → Holds u.mem ring.book r w → ringbuf_start_read u rd ≡ ok (ready ring.buf (w - r))
  unfolding ringbuf_start_read
  start_read_lem r w h = ground (
    arith,
    found,
    load-Holds u.mem ring.book r h.reads,
    load-Holds u.mem (ring.book + 8) w h.writes,
    used-enc r w h.order h.fits,
  )

  -- Finishing a write of at most the room that is left adds to the bytes written.
  pub finish_write_lem :
      (r w n : ℕ)
      → Holds u.mem ring.book r w
      → n ≤ buf_size - (w - r)
      → (u' : Process) × (ringbuf_finish_write u rd n ≡ ok (true, u'))
        × (u'.user_ring_bufs ≡ u.user_ring_bufs)
        × Holds u'.mem ring.book r (w + n)
  unfolding ringbuf_finish_write store
  finish_write_lem r w n h le = (
    record u { mem = store u.mem (ring.book + 8) (u64 (load u.mem (ring.book + 8) + extend n)) },
    ground (arith, found),
    refl,
    record {
      reads = load64-store64_ne u.mem (ring.book + 8) ring.book _ (omega arith) ∙ h.reads;
      writes = rw (load-Holds u.mem (ring.book + 8) w h.writes) (
          load64-store64_self u.mem (ring.book + 8) _ (enc-lt (u64 (enc w + extend n)))
          ∙ advance-enc w n (omega (arith, h.order)));
      order = omega (arith, h.order);
      fits = omega (arith, h.order, h.fits);
    },
  )

  -- Finishing a read of at most the bytes that are there adds to the bytes read.
  pub finish_read_lem :
      (r w n : ℕ)
      → Holds u.mem ring.book r w
      → n ≤ w - r
      → (u' : Process) × (ringbuf_finish_read u rd n ≡ ok (true, u'))
        × (u'.user_ring_bufs ≡ u.user_ring_bufs)
        × Holds u'.mem ring.book (r + n) w
  unfolding ringbuf_finish_read store
  finish_read_lem r w n h le = (
    record u { mem = store u.mem ring.book (u64 (load u.mem ring.book + extend n)) },
    ground (arith, found),
    refl,
    record {
      reads = rw (load-Holds u.mem ring.book r h.reads) (
          load64-store64_self u.mem ring.book _ (enc-lt (u64 (enc r + extend n)))
          ∙ advance-enc r n (omega (arith, h.order, h.fits)));
      writes = load64-store64_ne u.mem ring.book (ring.book + 8) _ (omega arith) ∙ h.writes;
      order = omega (arith, h.order);
      fits = omega (arith, h.order, h.fits);
    },
  )

-- The test for a negative buffer never holds, as it is made on unsigned numbers: no call of
-- `ringbuf_start_write` or `ringbuf_start_read` ends in `exit(1)`, whatever the counters are.
pub start_never_exits :
    (u : Process) (rd : ℕ)
    → (ringbuf_start_write u rd ≢ ok exited) × (ringbuf_start_read u rd ≢ ok exited)
unfolding ringbuf_start_write ringbuf_start_read
start_never_exits u rd = elim (Outcome-cases (descriptor u rd)) [
  | inl (none, e) ↦ ground (arith, e)
  | inl (some r, e) ↦ ground (arith, e)
  | inr (inl e) ↦ ground (arith, e)
  | inr (inr e) ↦ ground (arith, e)
]

-- Both starts hand out the base of the buffer: where bytes are unread, the writer is given the
-- address at which the reader is to read them.
pub start_same_address :
    (u : Process) (rd : ℕ) (ring : UserRingBuf) (r w : ℕ)
    → descriptor u rd ≡ ok (some ring)
    → Holds u.mem ring.book r w
    → (ringbuf_start_write u rd ≡ ok (ready ring.buf (buf_size - (w - r))))
      × (ringbuf_start_read u rd ≡ ok (ready ring.buf (w - r)))
start_same_address u rd ring r w found h =
    (start_write_lem u rd ring found r w h, start_read_lem u rd ring found r w h)

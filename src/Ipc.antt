-- ===== src/Ipc.antt =====
-- The user library of ring buffers, user/fastipc.h: a table of descriptors, and the two counters
-- of each ring in its book page, which the processes that share the ring both map.
-- An `int` is its 32-bit pattern and an `unsigned long` its 64-bit pattern. The atomic accesses to
-- the counters are sequentially consistent, so each is one step on the shared memory. A function
-- that returns -1 returns `none` here.
pub mod Descriptors
pub mod Counters
pub mod Stream
mod Tests
use fast_ipc.Base.{
  ℕ, zero, suc, ◌+◌, ◌-◌, ◌*◌, ◌≡◌, List, [], ◌∷◌, Option, none, some, Outcome, ok, panic, fault,
  ◌>>=◌, Bool, true, false, not, ◌||◌, ◌&&◌, get_elem?, set, length, ltb, leb, ◌==◌, if◌then◌else◌,
  sub64, u64, to_int, extend, is_negative, pos, ℤ, negsuc,
}
use fast_ipc.Memory.{Mem, load64, store64}
use fast_ipc.Text.{strcmp}

abbrev pub max_ringbufs : ℕ
max_ringbufs = 10

abbrev pub buf_size : ℕ
buf_size = 65536

abbrev pub book_offset : ℕ
book_offset = 131072

-- `struct user_ring_buf`, with `book` the address of the book page
pub record UserRingBuf : Type 0 where
  pub buf : ℕ
  pub book : ℕ
  pub exists : ℕ
  pub name : List ℕ

-- The process: the table `user_ring_bufs`, and the memory it sees.
pub record Process : Type 0 where
  pub user_ring_bufs : List UserRingBuf
  pub mem : Mem

-- `load`: the counter cut to an `int`, and extended again where it is assigned.
pub load : Mem → ℕ → ℕ
load m p = extend (to_int (load64 m p))

-- `store`: the argument is an `int`.
pub store : Mem → ℕ → ℕ → Mem
store m p v = store64 m p (extend (to_int v))

-- The addresses of `book->read_done` and `book->write_done`.
abbrev pub read_done : UserRingBuf → ℕ
read_done r = r.book

abbrev pub write_done : UserRingBuf → ℕ
write_done r = r.book + 8

-- `(rd > MAX_RINGBUFS) || (user_ring_bufs[rd].exists != 1)`: the descriptor, or `none` where the
-- test holds. The test reads the table at `rd`, which faults outside it.
pub descriptor : Process → ℕ → Outcome (Option UserRingBuf)
descriptor u rd =
    if not (is_negative rd) && ltb max_ringbufs rd
    then ok none
    else elim (get_elem? u.user_ring_bufs rd) [
      | none ↦ fault
      | some r ↦ ok (if r.exists == 1 then some r else none)
    ]

-- What `ringbuf_start_write` and `ringbuf_start_read` come to: -1, a call of `exit(1)`, or the
-- values put through `addr` and `bytes`.
pub data Start : Type 0 where
  invalid : Start
  exited : Start
  ready : (addr bytes : ℕ) → Start

-- `BUF_SIZE - (write - read)`, in `unsigned long`
abbrev pub room_left : ℕ → ℕ → ℕ
room_left read write = sub64 buf_size (sub64 write read)

start_with : UserRingBuf → (read write bytes : ℕ) → Start
start_with r read write bytes =
    if ltb (room_left read write) 0 then exited else ready r.buf (to_int bytes)

pub ringbuf_start_write : Process → ℕ → Outcome Start
unfolding start_with
ringbuf_start_write u rd = descriptor u rd >>= elim [
  | none ↦ ok invalid
  | some r ↦
      (let read = load u.mem (read_done r) in
        let write = load u.mem (write_done r) in
        ok (start_with r read write (room_left read write)))
]

pub ringbuf_start_read : Process → ℕ → Outcome Start
unfolding start_with
ringbuf_start_read u rd = descriptor u rd >>= elim [
  | none ↦ ok invalid
  | some r ↦
      (let read = load u.mem (read_done r) in
        let write = load u.mem (write_done r) in ok (start_with r read write (sub64 write read)))
]

-- `counter += bytes` at an address: a load and a store.
advance : Process → ℕ → ℕ → Process
advance u p bytes = record u { mem = store u.mem p (u64 (load u.mem p + extend bytes)) }

-- The `Bool` is whether it returned 0 rather than -1.
pub ringbuf_finish_write : Process → (rd bytes : ℕ) → Outcome (Bool × Process)
unfolding advance
ringbuf_finish_write u rd bytes =
    descriptor u rd
    >>= elim [ none ↦ ok (false, u) | some r ↦ ok (true, advance u (write_done r) bytes) ]

pub ringbuf_finish_read : Process → (rd bytes : ℕ) → Outcome (Bool × Process)
unfolding advance
ringbuf_finish_read u rd bytes =
    descriptor u rd
    >>= elim [ none ↦ ok (false, u) | some r ↦ ok (true, advance u (read_done r) bytes) ]

-- The loop of `createRingBuf`: the first entry from `i` on with `exists != 1`, and its index.
pub find_free : List UserRingBuf → ℕ → Option (ℕ × UserRingBuf)
find_free [] i = none
find_free (r ∷ rs) i = if r.exists == 1 then find_free rs (i + 1) else some (i, r)

-- The body of that loop at entry `i`. `user_ring_bufs[i].exists = 1` is the whole of the `else`
-- branch, whose only other statement is commented out.
pub install : Process → (exists ringbuf : ℕ) → List ℕ → ℕ → UserRingBuf → Process
install u exists ringbuf straddr i r =
    if exists == 0 then put u.mem 1 else put (store (store u.mem book 0) (book + 8) 0) r.exists
  where
    book : ℕ
    book = ringbuf + book_offset

    put : Mem → ℕ → Process
    put m e = record {
      user_ring_bufs =
          set u.user_ring_bufs i
            (record { buf = ringbuf; book = book; exists = e; name = straddr });
      mem = m;
    }

-- `createRingBuf` after the system call, which returned `reply` and put `ringbuf` through its
-- pointer.
pub create_ring_buf : Process → List ℕ → (reply : Option ℕ) → (ringbuf : ℕ) → Option ℕ × Process
unfolding find_free install
create_ring_buf u straddr none ringbuf = (none, u)
create_ring_buf u straddr (some exists) ringbuf =
    if ltb 16 (length straddr) then (none, u) else elim (find_free u.user_ring_bufs 0) [
      | none ↦ (none, u)
      | some (i, r) ↦ (some i, install u exists ringbuf straddr i r)
    ]

is_zero : ℤ → Bool
is_zero (pos zero) = true
is_zero (pos (suc n)) = false
is_zero (negsuc n) = false

-- `closeRingBuf` up to the call of `closebuf`, which it makes where the `Bool` is true, and whose
-- result it returns; else it returns -1.
pub close_ring_buf : Process → List ℕ → ℕ → Outcome (Bool × Process)
unfolding is_zero
close_ring_buf u straddr rd = descriptor u rd >>= elim [
  | none ↦ ok (false, u)
  | some r ↦ ok (
      if is_zero (strcmp r.name straddr)
      then (true, record u { user_ring_bufs = set u.user_ring_bufs rd (record r { exists = 0 }) })
      else (false, u))
]

-- ===== src/Ipc/Stream.antt =====
-- A writer and a reader on two processors, each in its loop of start and finish calls on one ring,
-- interleaved at each access to a counter, as user/fastipc.h makes them.
use fast_ipc.Base.{ℕ, ◌+◌, ◌-◌, ◌≤◌, ◌≡◌, refl, ◌∙◌, arith, u64, sub64, to_int, extend}
use fast_ipc.Memory.{Mem}
use fast_ipc.Memory.Words.{load64-store64_self, load64-store64_ne}
use fast_ipc.Ipc.{load, store, room_left, buf_size}
use fast_ipc.Ipc.Counters.{Holds, enc, enc-lt, room-enc, used-enc, advance-enc, load-Holds}

-- Where a process stands, with the locals that are live there: outside the calls; in a start
-- function, with `read_done` loaded; with an offer of `bytes` bytes from the
-- address `addr` on; in a finish function with `n` bytes,
-- before its load, and before its store of what it loaded plus `n`.

pub data Pc : Type 0 where
  outside : Pc
  loaded : (read : ℕ) → Pc
  offered : (addr bytes : ℕ) → Pc
  finishing : (n : ℕ) → Pc
  storing : (old n : ℕ) → Pc

-- `given` and `taken` count the bytes of the finished writes and reads; the code has no such
-- variables.
pub record System : Type 0 where
  pub mem : Mem
  pub writer : Pc
  pub reader : Pc
  pub given : ℕ
  pub taken : ℕ

module _ (buf book : ℕ) where
  -- The writer may use any part of what it is offered, and may drop an offer.
  pub data WriterStep (s : System) : Pc → System → Type 0 where
    w_load : WriterStep s outside (record s { writer = loaded (load s.mem book) })
    w_offer :
        {read : ℕ}
        → WriterStep s
            (loaded read)
            (record s { writer = offered buf (to_int (room_left read (load s.mem (book + 8)))) })
    w_drop : {addr bytes : ℕ} → WriterStep s (offered addr bytes) (record s { writer = outside })
    w_use :
        {addr bytes n : ℕ}
        → n ≤ bytes
        → WriterStep s (offered addr bytes) (record s { writer = finishing n })
    w_fetch :
        {n : ℕ}
        → WriterStep s (finishing n) (record s { writer = storing (load s.mem (book + 8)) n })
    w_store :
        {old n : ℕ}
        → WriterStep s (storing old n) (record s {
          mem = store s.mem (book + 8) (u64 (old + extend n));
          writer = outside;
          given = s.given + n;
        })

  pub data ReaderStep (s : System) : Pc → System → Type 0 where
    r_load : ReaderStep s outside (record s { reader = loaded (load s.mem book) })
    r_offer :
        {read : ℕ}
        → ReaderStep s
            (loaded read)
            (record s { reader = offered buf (to_int (sub64 (load s.mem (book + 8)) read)) })
    r_drop : {addr bytes : ℕ} → ReaderStep s (offered addr bytes) (record s { reader = outside })
    r_use :
        {addr bytes n : ℕ}
        → n ≤ bytes
        → ReaderStep s (offered addr bytes) (record s { reader = finishing n })
    r_fetch :
        {n : ℕ} → ReaderStep s (finishing n) (record s { reader = storing (load s.mem book) n })
    r_store :
        {old n : ℕ}
        → ReaderStep s (storing old n) (record s {
          mem = store s.mem book (u64 (old + extend n));
          reader = outside;
          taken = s.taken + n;
        })

  pub data Step (s t : System) : Type 0 where
    by_writer : WriterStep s s.writer t → Step s t
    by_reader : ReaderStep s s.reader t → Step s t

  pub data Reach (s : System) : System → Type 0 where
    start : Reach s s
    later : {t u : System} → Reach s t → Step t u → Reach s u

-- What the locals of the writer and of the reader say about the counts.
abbrev pub WriterKnows : (buf w r : ℕ) → Pc → Type 0
WriterKnows buf w r outside = Unit {0}
WriterKnows buf w r (loaded read) =
    (a : ℕ) × (read ≡ enc a) × (a ≤ r) × (a ≤ w) × (w ≤ a + buf_size)
WriterKnows buf w r (offered addr bytes) = (addr ≡ buf) × (w + bytes ≤ r + buf_size)
WriterKnows buf w r (finishing n) = w + n ≤ r + buf_size
WriterKnows buf w r (storing old n) = (old ≡ enc w) × (w + n ≤ r + buf_size)

abbrev pub ReaderKnows : (buf w r : ℕ) → Pc → Type 0
ReaderKnows buf w r outside = Unit {0}
ReaderKnows buf w r (loaded read) = read ≡ enc r
ReaderKnows buf w r (offered addr bytes) = (addr ≡ buf) × (r + bytes ≤ w)
ReaderKnows buf w r (finishing n) = r + n ≤ w
ReaderKnows buf w r (storing old n) = (old ≡ enc r) × (r + n ≤ w)

pub record IsSafe (buf book : ℕ) (s : System) : Type 0 where
  pub held : Holds s.mem book s.taken s.given
  pub writer_knows : WriterKnows buf s.given s.taken s.writer
  pub reader_knows : ReaderKnows buf s.given s.taken s.reader

-- The other side's progress takes nothing from what a side knows.
WriterKnows-mono :
    (buf w r r' : ℕ) (p : Pc) → r ≤ r' → WriterKnows buf w r p → WriterKnows buf w r' p
WriterKnows-mono buf w r r' outside le k = tt
WriterKnows-mono buf w r r' (loaded read) le k = (k.0, k.1, omega (arith, k.2), k.3, k.4)
WriterKnows-mono buf w r r' (offered addr bytes) le k = (k.0, omega (arith, k.1))
WriterKnows-mono buf w r r' (finishing n) le k = omega arith
WriterKnows-mono buf w r r' (storing old n) le k = (k.0, omega (arith, k.1))

ReaderKnows-mono :
    (buf w w' r : ℕ) (p : Pc) → w ≤ w' → ReaderKnows buf w r p → ReaderKnows buf w' r p
ReaderKnows-mono buf w w' r outside le k = tt
ReaderKnows-mono buf w w' r (loaded read) le k = k
ReaderKnows-mono buf w w' r (offered addr bytes) le k = (k.0, omega (arith, k.1))
ReaderKnows-mono buf w w' r (finishing n) le k = omega arith
ReaderKnows-mono buf w w' r (storing old n) le k = (k.0, omega (arith, k.1))

-- Storing the counter of bytes written, and of bytes read.
store-given :
    (m : Mem) (book r w n old : ℕ)
    → Holds m book r w
    → old ≡ enc w
    → w + n ≤ r + buf_size
    → Holds (store m (book + 8) (u64 (old + extend n))) book r (w + n)
unfolding store
store-given m book r w n old h e le = record {
  reads = load64-store64_ne m (book + 8) book _ (omega arith) ∙ h.reads;
  writes = rw e (
      load64-store64_self m (book + 8) _ (enc-lt (u64 (enc w + extend n)))
      ∙ advance-enc w n (omega (arith, h.order)));
  order = omega (arith, h.order);
  fits = le;
}

store-taken :
    (m : Mem) (book r w n old : ℕ)
    → Holds m book r w
    → old ≡ enc r
    → r + n ≤ w
    → Holds (store m book (u64 (old + extend n))) book (r + n) w
unfolding store
store-taken m book r w n old h e le = record {
  reads = rw e (
      load64-store64_self m book _ (enc-lt (u64 (enc r + extend n)))
      ∙ advance-enc r n (omega (arith, h.order, h.fits)));
  writes = load64-store64_ne m book (book + 8) _ (omega arith) ∙ h.writes;
  order = le;
  fits = omega (arith, h.fits);
}

WriterStep-IsSafe :
    (buf book : ℕ) {s t : System} {p : Pc}
    → WriterStep buf book s p t
    → WriterKnows buf s.given s.taken p
    → IsSafe buf book s
    → IsSafe buf book t
WriterStep-IsSafe buf book {s} w_load k v = record {
  held = v.held;
  writer_knows =
      (s.taken, load-Holds s.mem book s.taken v.held.reads, omega arith, v.held.order, v.held.fits);
  reader_knows = v.reader_knows;
}
WriterStep-IsSafe buf book {s} w_offer (a, e, old, below, fits) v = record {
  held = v.held;
  writer_knows = (
    refl,
    rw (e, load-Holds s.mem (book + 8) s.given v.held.writes, room-enc a s.given below fits)
        (omega arith),
  );
  reader_knows = v.reader_knows;
}
WriterStep-IsSafe buf book w_drop k v = record {
  held = v.held;
  writer_knows = tt;
  reader_knows = v.reader_knows;
}
WriterStep-IsSafe buf book (w_use le) (_, k) v = record {
  held = v.held;
  writer_knows = omega arith;
  reader_knows = v.reader_knows;
}
WriterStep-IsSafe buf book {s} w_fetch k v = record {
  held = v.held;
  writer_knows = (load-Holds s.mem (book + 8) s.given v.held.writes, k);
  reader_knows = v.reader_knows;
}
WriterStep-IsSafe buf book {s} (w_store {old} {n}) (e, le) v = record {
  held = store-given s.mem book s.taken s.given n old v.held e le;
  writer_knows = tt;
  reader_knows =
      ReaderKnows-mono buf s.given (s.given + n) s.taken s.reader (omega arith) v.reader_knows;
}

ReaderStep-IsSafe :
    (buf book : ℕ) {s t : System} {p : Pc}
    → ReaderStep buf book s p t
    → ReaderKnows buf s.given s.taken p
    → IsSafe buf book s
    → IsSafe buf book t
ReaderStep-IsSafe buf book {s} r_load k v = record {
  held = v.held;
  writer_knows = v.writer_knows;
  reader_knows = load-Holds s.mem book s.taken v.held.reads;
}
ReaderStep-IsSafe buf book {s} r_offer e v = record {
  held = v.held;
  writer_knows = v.writer_knows;
  reader_knows = (
    refl,
    rw
        (
          e,
          load-Holds s.mem (book + 8) s.given v.held.writes,
          used-enc s.taken s.given v.held.order v.held.fits,
        )
        (omega (arith, v.held.order)),
  );
}
ReaderStep-IsSafe buf book r_drop k v = record {
  held = v.held;
  writer_knows = v.writer_knows;
  reader_knows = tt;
}
ReaderStep-IsSafe buf book (r_use le) (_, k) v = record {
  held = v.held;
  writer_knows = v.writer_knows;
  reader_knows = omega arith;
}
ReaderStep-IsSafe buf book {s} r_fetch k v = record {
  held = v.held;
  writer_knows = v.writer_knows;
  reader_knows = (load-Holds s.mem book s.taken v.held.reads, k);
}
ReaderStep-IsSafe buf book {s} (r_store {old} {n}) (e, le) v = record {
  held = store-taken s.mem book s.taken s.given n old v.held e le;
  writer_knows =
      WriterKnows-mono buf s.given s.taken (s.taken + n) s.writer (omega arith) v.writer_knows;
  reader_knows = tt;
}

-- Every step of either side keeps the safety of the ring.
pub Step-IsSafe :
    (buf book : ℕ) {s t : System} → Step buf book s t → IsSafe buf book s → IsSafe buf book t
Step-IsSafe buf book (by_writer st) v = WriterStep-IsSafe buf book st v.writer_knows v
Step-IsSafe buf book (by_reader st) v = ReaderStep-IsSafe buf book st v.reader_knows v

Reach-IsSafe :
    (buf book : ℕ) {s t : System} → IsSafe buf book s → Reach buf book s t → IsSafe buf book t
Reach-IsSafe buf book v start = v
Reach-IsSafe buf book v (later r st) = Step-IsSafe buf book st (Reach-IsSafe buf book v r)

-- In every state that the two sides reach, in any interleaving, the counters in the book page stand
-- for the numbers of bytes given and taken, which are at most a buffer apart; the number of bytes
-- that the writer is offered and the number that are unread are together at most a buffer; the
-- number that the reader is offered is at most the number unread; and both offers are at the start
-- of the buffer, whatever the counters say.
pub offers_are_counted :
    (buf book : ℕ) {s t : System}
    → IsSafe buf book s
    → Reach buf book s t
    → Holds t.mem book t.taken t.given
      × ((addr bytes : ℕ)
          → t.writer ≡ offered addr bytes
          → ((t.given - t.taken) + bytes ≤ buf_size) × (addr ≡ buf))
      × ((addr bytes : ℕ)
          → t.reader ≡ offered addr bytes
          → (bytes ≤ t.given - t.taken) × (addr ≡ buf))
offers_are_counted buf book {s} {t} v r =
    let u : IsSafe buf book t = Reach-IsSafe buf book v r in
    (
      u.held,
      λ addr bytes e.
          let k : WriterKnows buf t.given t.taken (offered addr bytes) = rw e at u.writer_knows in
          (omega (arith, k.1, u.held.order), k.0),
      λ addr bytes e.
          let k : ReaderKnows buf t.given t.taken (offered addr bytes) = rw e at u.reader_knows in
          (omega (arith, k.1, u.held.order), k.0),
    )

-- ===== src/Ipc/Descriptors.antt =====
-- Which descriptors the library accepts, and what creating and closing do to them.
use fast_ipc.Base.{
  ℕ, suc, ◌+◌, ◌-◌, ◌^◌, ◌<◌, ◌≤◌, ◌≡◌, ◌≢◌, ◌⊎◌, ◌↔◌, refl, sym, arith, List, [], ◌∷◌, Option,
  none, some, ok, fault, true, get_elem?, set, length, get_elem?-set_self, get_elem?_lt, length-set,
  ◌==◌, Bool-cases, Option-cases, inl, inr, get_elem?-set_ne, get_elem?-none, if◌then◌else◌,
}
use fast_ipc.Text.Order.{strcmp_refl}
use fast_ipc.Ipc.{
  Process, UserRingBuf, descriptor, create_ring_buf, close_ring_buf, find_free, install,
  max_ringbufs, book_offset,
}

-- The table has its ten entries.

abbrev pub IsTable : Process → Type 0
IsTable u = length u.user_ring_bufs ≡ max_ringbufs

-- The test of a descriptor faults at 10, the first index past the table, which the comparison
-- `rd > MAX_RINGBUFS` lets through, at every negative descriptor, and nowhere else.
pub descriptor_faults :
    (u : Process) (rd : ℕ)
    → IsTable u
    → rd < 2 ^ 32
    → (descriptor u rd ≡ fault) ↔ ((rd ≡ 10) ⊎ (2 ^ 31 ≤ rd))
unfolding descriptor
descriptor_faults u rd t lt = elim (Option-cases (get_elem? u.user_ring_bufs rd)) [
  | inl e ↦ ground (arith, e, t, get_elem?-none u.user_ring_bufs rd e)
  | inr (r, e) ↦ ground (arith, e, t, get_elem?_lt u.user_ring_bufs rd e)
]

-- At an index of the table the test gives the entry there, if it is in use.
pub descriptor_at :
    (u : Process) (rd : ℕ) (r : UserRingBuf)
    → IsTable u
    → get_elem? u.user_ring_bufs rd ≡ some r
    → descriptor u rd ≡ ok (if r.exists == 1 then some r else none)
unfolding descriptor
descriptor_at u rd r t e = ground (arith, e, t, get_elem?_lt u.user_ring_bufs rd e)

find_free-some :
    (rs : List UserRingBuf) (k i : ℕ) (r : UserRingBuf)
    → find_free rs k ≡ some (i, r)
    → (k ≤ i) × (get_elem? rs (i - k) ≡ some r) × (r.exists ≢ 1)
unfolding find_free
find_free-some [] k i r e = cc
find_free-some (q ∷ rs) k i r e = elim (Bool-cases (q.exists == 1)) [
  | inl used ↦
      (let (le, at, free) = find_free-some rs (k + 1) i r (rw used at e) in
        let step : i - k ≡ suc (i - (k + 1)) = omega arith in (omega arith, rw step at, free))
  | inr here ↦
      (let zero_step : i - k ≡ 0 = ground arith in
        (ground arith, rw zero_step (ground arith), ground arith))
]

-- Where creating returns `i`, it has installed the ring in entry `i`, which was not in use.
create_ring_buf-some :
    (u : Process) (straddr : List ℕ) (reply ringbuf i : ℕ)
    → (create_ring_buf u straddr (some reply) ringbuf).0 ≡ some i
    → (r : UserRingBuf) × (get_elem? u.user_ring_bufs i ≡ some r)
      × (r.exists ≢ 1)
      × ((create_ring_buf u straddr (some reply) ringbuf).1 ≡ install u reply ringbuf straddr i r)
unfolding create_ring_buf
create_ring_buf-some u straddr reply ringbuf i e =
    elim (Option-cases (find_free u.user_ring_bufs 0)) [
      | inl full ↦ absurd (ground (arith, full, e))
      | inr ((j, r), found) ↦
          (let same : j ≡ i = ground (arith, found, e) in
            let (le, at, free) = find_free-some u.user_ring_bufs 0 j r found in
            let from_zero : j - 0 ≡ i = omega arith in
            (r, rw from_zero at at, free, ground (arith, found, e)))
    ]

-- The entry that `install` writes.
abbrev entry : (exists ringbuf : ℕ) → List ℕ → UserRingBuf → UserRingBuf
entry exists ringbuf straddr r = record {
  buf = ringbuf;
  book = ringbuf + book_offset;
  exists = if exists == 0 then 1 else r.exists;
  name = straddr;
}

install-entry :
    (u : Process) (exists ringbuf i : ℕ) (straddr : List ℕ) (r : UserRingBuf)
    → IsTable u
    → i < max_ringbufs
    → IsTable (install u exists ringbuf straddr i r)
      × (get_elem? (install u exists ringbuf straddr i r).user_ring_bufs i
          ≡ some (entry exists ringbuf straddr r))
unfolding install
install-entry u exists ringbuf i straddr r t lt = elim (Bool-cases (exists == 0)) [
  | inl old ↦ rw old (shape 1)
  | inr new ↦ rw new (shape r.exists)
]
  where
    filled : ℕ → UserRingBuf
    filled e = record { buf = ringbuf; book = ringbuf + book_offset; exists = e; name = straddr }

    shape :
        (e : ℕ)
        → (length (set u.user_ring_bufs i (filled e)) ≡ max_ringbufs)
          × (get_elem? (set u.user_ring_bufs i (filled e)) i ≡ some (filled e))
    shape e = (
      omega (arith, length-set u.user_ring_bufs i (filled e), t),
      get_elem?-set_self u.user_ring_bufs i (filled e) (omega (arith, t)),
    )

-- What the descriptor that `createRingBuf` returns is good for.
create_ring_buf-entry :
    (u : Process) (straddr : List ℕ) (reply ringbuf i : ℕ)
    → IsTable u
    → (create_ring_buf u straddr (some reply) ringbuf).0 ≡ some i
    → (r : UserRingBuf) × (r.exists ≢ 1)
      × (descriptor (create_ring_buf u straddr (some reply) ringbuf).1 i
          ≡ ok (
              if (entry reply ringbuf straddr r).exists == 1
              then some (entry reply ringbuf straddr r)
              else none))
create_ring_buf-entry u straddr reply ringbuf i t e =
    let (r, at, free, eq) = create_ring_buf-some u straddr reply ringbuf i e in
    let lt : i < max_ringbufs = omega (arith, t, get_elem?_lt u.user_ring_bufs i at) in
    let (t', at') = install-entry u reply ringbuf i straddr r t lt in
    (r, free, rw eq (descriptor_at _ i _ t' at'))

-- A descriptor for a ring that the kernel has just made (it returned a number other than 0) is
-- refused by every later call: the entry is filled in and not marked as in use.
pub create_ring_buf_new :
    (u : Process) (straddr : List ℕ) (reply ringbuf i : ℕ)
    → IsTable u
    → reply ≢ 0
    → (create_ring_buf u straddr (some reply) ringbuf).0 ≡ some i
    → descriptor (create_ring_buf u straddr (some reply) ringbuf).1 i ≡ ok none
create_ring_buf_new u straddr reply ringbuf i t ne e =
    let (r, free, at) = create_ring_buf-entry u straddr reply ringbuf i t e in
    ground (arith, at, free, ne)

-- A descriptor for a ring that another process had made (the kernel returned 0) is usable: it
-- stands for the ring's address, its book page and its name.
pub create_ring_buf_joined :
    (u : Process) (straddr : List ℕ) (ringbuf i : ℕ)
    → IsTable u
    → (create_ring_buf u straddr (some 0) ringbuf).0 ≡ some i
    → descriptor (create_ring_buf u straddr (some 0) ringbuf).1 i
      ≡ ok (
          some (record { buf = ringbuf; book = ringbuf + book_offset; exists = 1; name = straddr }))
create_ring_buf_joined u straddr ringbuf i t e =
    let (r, free, at) = create_ring_buf-entry u straddr 0 ringbuf i t e in at

-- Every entry is in use.
abbrev pub AllUsed : List UserRingBuf → Type 0
AllUsed [] = Unit {0}
AllUsed (r ∷ rs) = (r.exists ≡ 1) × AllUsed rs

find_free-none : (rs : List UserRingBuf) (k : ℕ) → (find_free rs k ≡ none) ↔ AllUsed rs
unfolding find_free
find_free-none [] k = (λ e. tt, λ a. refl)
find_free-none (r ∷ rs) k = ground (arith, find_free-none rs (k + 1))

-- `createRingBuf` fails, leaving the process as it was, exactly where the system call failed, the
-- name has more than 16 bytes, or every entry is in use.
pub create_ring_buf_fails :
    (u : Process) (straddr : List ℕ) (reply : Option ℕ) (ringbuf : ℕ)
    → ((create_ring_buf u straddr reply ringbuf ≡ (none, u))
        → (reply ≡ none) ⊎ ((16 < length straddr) ⊎ AllUsed u.user_ring_bufs))
      × ((reply ≡ none) ⊎ ((16 < length straddr) ⊎ AllUsed u.user_ring_bufs)
          → create_ring_buf u straddr reply ringbuf ≡ (none, u))
unfolding create_ring_buf
create_ring_buf_fails u straddr none ringbuf = (λ e. inl refl, λ h. refl)
create_ring_buf_fails u straddr (some reply) ringbuf =
    ground (arith, find_free-none u.user_ring_bufs 0)

-- Closing a descriptor in use by its own name succeeds; then the descriptor is refused, and the
-- others are as they were.
pub close_ring_buf_lem :
    (u : Process) (rd : ℕ) (r : UserRingBuf)
    → IsTable u
    → get_elem? u.user_ring_bufs rd ≡ some r
    → r.exists ≡ 1
    → (u' : Process) × (close_ring_buf u r.name rd ≡ ok (true, u'))
      × (descriptor u' rd ≡ ok none)
      × ((i : ℕ) → i ≢ rd → descriptor u' i ≡ descriptor u i)
unfolding close_ring_buf
close_ring_buf_lem u rd r t at used = (
  u',
  ground (arith, descriptor_at u rd r t at, used, strcmp_refl r.name),
  ground (arith, descriptor_at u' rd freed t' (get_elem?-set_self u.user_ring_bufs rd freed lt)),
  λ i ne.
      unfold descriptor in (rw (get_elem?-set_ne u.user_ring_bufs rd i freed (λ e. ne (sym e)))),
)
  where
    freed : UserRingBuf
    freed = record r { exists = 0 }

    u' : Process
    u' = record u { user_ring_bufs = set u.user_ring_bufs rd freed }

    lt : rd < length u.user_ring_bufs
    lt = get_elem?_lt u.user_ring_bufs rd at

    t' : IsTable u'
    t' = omega (arith, t, length-set u.user_ring_bufs rd freed)

-- ===== src/Ringbuf/Calls/Create.antt =====
-- `createbuf` as a whole: which of its paths a name takes, and what each leaves.
use fast_ipc.Base.{
  ℕ, suc, ◌+◌, ◌-◌, ◌<◌, ◌≤◌, ◌≡◌, ◌≢◌, inl, inr, sym, ap, ◌∙◌, arith, List, [], ◌∷◌, none, some,
  true, ◌==◌, ok, fault, set, length, take, get_or, get_or-set_ne, get_or-set_self, Bool-cases,
}
use fast_ipc.Ringbuf.{Kernel, Ringbuf, entry, pid_of, find_name, find_unused, no_ring}
use fast_ipc.Ringbuf.Calls.{createbuf, set_up, join, inc}
use fast_ipc.Ringbuf.Calls.Slots.{set_up_lem, set_up_fails, join_lem}

module _ (k : Kernel) (straddr : List ℕ) (opdesc retvaddr : ℕ) (le : opdesc ≤ 1) where
  at_new :
      (i : ℕ)
      → find_name straddr k.ringbufs 0 ≡ none
      → find_unused k.ringbufs 0 ≡ some i
      → createbuf k straddr opdesc retvaddr ≡ set_up k straddr i opdesc retvaddr 1
  unfolding createbuf
  at_new i e u = ground arith

  at_zero :
      (i : ℕ)
      → find_name straddr k.ringbufs 0 ≡ some 0
      → find_unused k.ringbufs 0 ≡ some i
      → createbuf k straddr opdesc retvaddr ≡ set_up k straddr i opdesc retvaddr 0
  unfolding createbuf
  at_zero i e u = ground arith

  at_above :
      (i : ℕ)
      → find_name straddr k.ringbufs 0 ≡ some (suc i)
      → createbuf k straddr opdesc retvaddr ≡ join k (suc i) opdesc retvaddr
  unfolding createbuf
  at_above i e = ground arith

  -- With the name unknown and every entry in use the call indexes the table with -1.
  pub createbuf_full :
      find_name straddr k.ringbufs 0 ≡ none
      → find_unused k.ringbufs 0 ≡ none
      → createbuf k straddr opdesc retvaddr ≡ fault
  unfolding createbuf
  createbuf_full e u = ground arith

-- What the two searches find.
pub find_unused-some :
    (rs : List Ringbuf) (j i : ℕ)
    → find_unused rs j ≡ some i
    → (j ≤ i) × (i - j < length rs) × ((get_or rs (i - j) no_ring).refcount ≡ 0)
unfolding find_unused
find_unused-some [] j i e = absurd (cc)
find_unused-some (r ∷ rs) j i e = elim (Bool-cases (r.refcount == 0)) [
  | inl here ↦
      (let same : i - j ≡ 0 = ground arith in (ground arith, ground arith, rw same (ground arith)))
  | inr there ↦
      (let (le, lt, free) = find_unused-some rs (j + 1) i (rw there at e) in
        let step : i - j ≡ suc (i - (j + 1)) = omega arith in
        (omega arith, omega (arith, lt), rw step free))
]

unused_at :
    (k : Kernel) (i : ℕ)
    → find_unused k.ringbufs 0 ≡ some i
    → (i < length k.ringbufs) × ((entry k i).refcount ≡ 0)
unused_at k i u =
    let (le, lt, free) = find_unused-some k.ringbufs 0 i u in
    let same : i - 0 ≡ i = omega arith in (omega arith, rw same at free)

-- An entry that is counted is not found.
pub find_unused-ne :
    (k : Kernel) (i : ℕ) → (entry k i).refcount ≢ 0 → find_unused k.ringbufs 0 ≢ some i
find_unused-ne k i used e = used (unused_at k i e).1

module _ (k : Kernel) (straddr : List ℕ) (opdesc retvaddr i : ℕ) (le : opdesc ≤ 1)
    (unused : find_unused k.ringbufs 0 ≡ some i) where
  -- A new name is given the first entry not in use: on success the call returns 1, the entry counts
  -- one user, whose end the caller has, the other end is free, the name is cut to seven bytes, and
  -- every other entry is as it was.
  pub createbuf_new :
      {v : ℕ} {k' : Kernel}
      → find_name straddr k.ringbufs 0 ≡ none
      → createbuf k straddr opdesc retvaddr ≡ ok (some v, k')
      → (r : Ringbuf) × (v ≡ 1)
        × (k'.valid_ring_buf ≡ true)
        × (k'.ringbufs ≡ set k.ringbufs i r)
        × (r.refcount ≡ 1)
        × (r.name ≡ take 7 straddr)
        × (pid_of r opdesc ≡ k.pid)
        × (pid_of r (1 - opdesc) ≡ 0)
  createbuf_new missing e =
      let (lt, free) = unused_at k i unused in
      let (r, v, valid, table, c, n, mine, other) =
        set_up_lem k straddr i opdesc retvaddr 1 lt le
          (sym (at_new k straddr opdesc retvaddr le i missing unused) ∙ e) in
      (r, v, valid, table, omega (arith, c, free), n, mine, other)

  -- A name that is found at index 0 is not joined: the first entry not in use becomes a second ring
  -- of that name, with the caller as its only user; entry 0 is as it was; and the call returns 0,
  -- as if the ring had existed.
  pub createbuf_slot_zero :
      {v : ℕ} {k' : Kernel}
      → (entry k 0).refcount ≢ 0
      → find_name straddr k.ringbufs 0 ≡ some 0
      → createbuf k straddr opdesc retvaddr ≡ ok (some v, k')
      → (r : Ringbuf) × (v ≡ 0)
        × (k'.ringbufs ≡ set k.ringbufs i r)
        × (entry k' 0 ≡ entry k 0)
        × (r.refcount ≡ 1)
        × (r.name ≡ take 7 straddr)
        × (pid_of r opdesc ≡ k.pid)
        × (pid_of r (1 - opdesc) ≡ 0)
  createbuf_slot_zero used found e =
      let (lt, free) = unused_at k i unused in
      let (r, v, valid, table, c, n, mine, other) =
        set_up_lem k straddr i opdesc retvaddr 0 lt le
          (sym (at_zero k straddr opdesc retvaddr le i found unused) ∙ e) in
      (
        r,
        v,
        table,
        ap (λ rs. get_or rs 0 no_ring) table
            ∙ get_or-set_ne k.ringbufs i 0 r no_ring (λ z. used (rw z at free)),
        omega (arith, c, free),
        n,
        mine,
        other,
      )

  -- A new ring whose pages cannot be mapped leaves its entry without name and pids, and counted, so
  -- that no later call finds the entry unused.
  pub createbuf_leaks :
      {k' : Kernel}
      → find_name straddr k.ringbufs 0 ≡ none
      → createbuf k straddr opdesc retvaddr ≡ ok (none, k')
      → (find_unused k'.ringbufs 0 ≢ some i)
        × ((entry k' i).name ≡ [])
        × ((entry k' i).pid0 ≡ 0)
        × ((entry k' i).pid1 ≡ 0)
  createbuf_leaks {k'} missing e =
      let (lt, free) = unused_at k i unused in
      let (r, table, c, n, p0, p1) =
        set_up_fails k straddr i opdesc retvaddr 1 lt le
          (sym (at_new k straddr opdesc retvaddr le i missing unused) ∙ e) in
      let at : entry k' i ≡ r =
        ap (λ rs. get_or rs i no_ring) table ∙ get_or-set_self k.ringbufs i r no_ring lt in
      (find_unused-ne k' i (rw at (omega (arith, c, free))), rw at n, rw at p0, rw at p1)

-- A name found at an index above 0 is joined where the end asked for is free: on success the call
-- returns 0, and the entry has the caller at that end, the other end and the name as they were, and
-- one user more; every other entry is as it was.
pub createbuf_join :
    (k : Kernel) (straddr : List ℕ) (opdesc retvaddr i : ℕ) {v : ℕ} {k' : Kernel}
    → opdesc ≤ 1
    → suc i < length k.ringbufs
    → find_name straddr k.ringbufs 0 ≡ some (suc i)
    → createbuf k straddr opdesc retvaddr ≡ ok (some v, k')
    → (r : Ringbuf) × (v ≡ 0)
      × (pid_of (entry k (suc i)) opdesc ≡ 0)
      × (k'.valid_ring_buf ≡ true)
      × (k'.ringbufs ≡ set k.ringbufs (suc i) r)
      × (r.refcount ≡ inc (entry k (suc i)).refcount)
      × (r.name ≡ (entry k (suc i)).name)
      × (pid_of r opdesc ≡ k.pid)
      × (pid_of r (1 - opdesc) ≡ pid_of (entry k (suc i)) (1 - opdesc))
createbuf_join k straddr opdesc retvaddr i le lt found e =
    join_lem k (suc i) opdesc retvaddr lt le
      (sym (at_above k straddr opdesc retvaddr le i found) ∙ e)

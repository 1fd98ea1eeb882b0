-- ===== src/Ringbuf/Calls/Slots.antt =====
-- What `createbuf` leaves in the table, on each of its paths.
use fast_ipc.Base.{
  ℕ, ◌-◌, ◌^◌, ◌<◌, ◌≤◌, ◌≡◌, inl, inr, refl, sym, ap, ◌∙◌, arith, List, [], Option, none, some,
  true, false, not, ◌||◌, ◌==◌, ok, >>=-eq-ok, set, set-set, set-get_or, get_or, get_or-set_self,
  length, take, is_negative, Bool-cases,
}
use mathlib.Core.Path.{ap₂}
use fast_ipc.Text.Order.{safestrcpy-take}
use fast_ipc.Vm.Copy.{copyout}
use fast_ipc.Ringbuf.{Kernel, Ringbuf, entry, update, pid_of, process_space_mapper, no_ring}
use fast_ipc.Ringbuf.Calls.{set_up, join, hand_over, inc, setting_up, given_up, joining, unjoined}
use fast_ipc.Ringbuf.Mapper.{Mapped, process_space_mapper-Mapped, second_of_ok}

hand_over-eq-ok :
    (k : Kernel) (i retvaddr exists : ℕ) {o : Option ℕ} {k' : Kernel}
    → hand_over k i retvaddr exists ≡ ok (o, k')
    → (some exists ≡ o) × (k'.ringbufs ≡ k.ringbufs) × (k'.valid_ring_buf ≡ true)
unfolding hand_over
hand_over-eq-ok k i retvaddr exists e =
    let (r, done, last) = >>=-eq-ok (copyout k.pagetable retvaddr _ 8 _) _ e in
    let (same, final) = second_of_ok last in
    (
      same,
      ap (λ (x : Kernel). x.ringbufs) (sym final),
      ap (λ (x : Kernel). x.valid_ring_buf) (sym final),
    )

-- A mapper run over an entry that was just written leaves the entry with its count, name and pids.
remapped :
    (k : Kernel) (i : ℕ) (q : Ringbuf) (k' : Kernel)
    → i < length k.ringbufs
    → Mapped (update k i q) i k'
    → (r : Ringbuf) × (k'.ringbufs ≡ set k.ringbufs i r)
      × (entry k' i ≡ r)
      × (r.refcount ≡ q.refcount)
      × (r.name ≡ q.name)
      × (r.pid0 ≡ q.pid0)
      × (r.pid1 ≡ q.pid1)
remapped k i q k' lt m = (
  m.r,
  m.table ∙ set-set k.ringbufs i q m.r,
  ap (λ rs. get_or rs i no_ring) (m.table ∙ set-set k.ringbufs i q m.r)
      ∙ get_or-set_self k.ringbufs i m.r no_ring lt,
  m.refcount ∙ ap (λ (x : Ringbuf). x.refcount) here,
  m.name ∙ ap (λ (x : Ringbuf). x.name) here,
  m.pid0 ∙ ap (λ (x : Ringbuf). x.pid0) here,
  m.pid1 ∙ ap (λ (x : Ringbuf). x.pid1) here,
)
  where
    here : get_or (set k.ringbufs i q) i no_ring ≡ q
    here = get_or-set_self k.ringbufs i q no_ring lt

-- What the written entries hold.
setting_up_parts :
    (r : Ringbuf) (straddr : List ℕ) (opdesc pid : ℕ)
    → opdesc ≤ 1
    → let q = setting_up r straddr opdesc pid in
      (q.refcount ≡ inc r.refcount)
      × (q.name ≡ take 7 straddr)
      × (pid_of q opdesc ≡ pid)
      × (pid_of q (1 - opdesc) ≡ 0)
unfolding setting_up
setting_up_parts r straddr opdesc pid le =
    (ground arith, safestrcpy-take r.name straddr 7, ground arith, ground arith)

given_up_parts :
    (r q : Ringbuf) (straddr : List ℕ) (opdesc pid : ℕ)
    → opdesc ≤ 1
    → r.refcount ≡ (setting_up q straddr opdesc pid).refcount
    → r.pid0 ≡ (setting_up q straddr opdesc pid).pid0
    → r.pid1 ≡ (setting_up q straddr opdesc pid).pid1
    → let f = given_up r opdesc in
      (f.refcount ≡ inc q.refcount) × (f.name ≡ []) × (f.pid0 ≡ 0) × (f.pid1 ≡ 0)
unfolding setting_up given_up
given_up_parts r q straddr opdesc pid le c p0 p1 =
    (ground arith, safestrcpy-take r.name [] 3, ground arith, ground arith)

joining_parts :
    (r : Ringbuf) (opdesc pid : ℕ)
    → opdesc ≤ 1
    → let q = joining r opdesc pid in
      (q.refcount ≡ inc r.refcount)
      × (q.name ≡ r.name)
      × (pid_of q opdesc ≡ pid)
      × (pid_of q (1 - opdesc) ≡ pid_of r (1 - opdesc))
unfolding joining
joining_parts r opdesc pid le = (ground arith, ground arith, ground arith, ground arith)

unjoined_parts :
    (r q : Ringbuf) (opdesc pid : ℕ)
    → opdesc ≤ 1
    → q.refcount < 2 ^ 31
    → pid_of q opdesc ≡ 0
    → r.refcount ≡ (joining q opdesc pid).refcount
    → r.name ≡ (joining q opdesc pid).name
    → r.pid0 ≡ (joining q opdesc pid).pid0
    → r.pid1 ≡ (joining q opdesc pid).pid1
    → let f = unjoined r opdesc in
      (f.refcount ≡ q.refcount) × (f.name ≡ q.name) × (f.pid0 ≡ q.pid0) × (f.pid1 ≡ q.pid1)
unfolding joining unjoined
unjoined_parts r q opdesc pid le small free c n p0 p1 =
    (ground arith, ground arith, ground arith, ground arith)

-- The record parts that tell rings apart carry over from an entry to one that agrees with it.
carry :
    (r q : Ringbuf) (opdesc : ℕ)
    → r.pid0 ≡ q.pid0
    → r.pid1 ≡ q.pid1
    → pid_of r opdesc ≡ pid_of q opdesc
carry r q opdesc p0 p1 = ground arith

module _ (k : Kernel) (straddr : List ℕ) (i opdesc retvaddr exists : ℕ) (lt : i < length k.ringbufs)
    (le : opdesc ≤ 1) where
  -- Setting up a ring in entry `i` that ends well: the entry holds the caller's end alone, is
  -- counted once more, and has the first seven bytes of the name; the other entries are untouched.
  pub set_up_lem :
      {v : ℕ} {k' : Kernel}
      → set_up k straddr i opdesc retvaddr exists ≡ ok (some v, k')
      → (r : Ringbuf) × (v ≡ exists)
        × (k'.valid_ring_buf ≡ true)
        × (k'.ringbufs ≡ set k.ringbufs i r)
        × (r.refcount ≡ inc (entry k i).refcount)
        × (r.name ≡ take 7 straddr)
        × (pid_of r opdesc ≡ k.pid)
        × (pid_of r (1 - opdesc) ≡ 0)
  unfolding set_up
  set_up_lem {v} {k'} e =
      let (s, e1, rest) = >>=-eq-ok (process_space_mapper _ i true) _ e in
      let (r, table, at, counted, named, p0, p1) =
        remapped k i _ s.1 lt (process_space_mapper-Mapped _ i true e1) in
      let (c, n, mine, other) = setting_up_parts (entry k i) straddr opdesc k.pid le in
      elim (Bool-cases s.0) [
        | inl done ↦
            (let (same, kept, valid) = hand_over-eq-ok s.1 i retvaddr exists (rw done at rest) in
              (
                r,
                cc,
                valid,
                kept ∙ table,
                counted ∙ c,
                named ∙ n,
                carry r (setting_up (entry k i) straddr opdesc k.pid) opdesc p0 p1 ∙ mine,
                carry r (setting_up (entry k i) straddr opdesc k.pid) (1 - opdesc) p0 p1 ∙ other,
              ))
        | inr stopped ↦ absurd (cc (rw stopped at rest))
      ]

  -- Setting up a ring whose mapping fails: the entry loses its name and its pids, and keeps the
  -- count of one user more, so that it is never found unused again.
  pub set_up_fails :
      {k' : Kernel}
      → set_up k straddr i opdesc retvaddr exists ≡ ok (none, k')
      → (r : Ringbuf) × (k'.ringbufs ≡ set k.ringbufs i r)
        × (r.refcount ≡ inc (entry k i).refcount)
        × (r.name ≡ [])
        × (r.pid0 ≡ 0)
        × (r.pid1 ≡ 0)
  unfolding set_up
  set_up_fails {k'} e =
      let (s, e1, rest) = >>=-eq-ok (process_space_mapper _ i true) _ e in
      let (r, table, at, counted, named, p0, p1) =
        remapped k i _ s.1 lt (process_space_mapper-Mapped _ i true e1) in
      elim (Bool-cases s.0) [
        | inl done ↦ absurd (
            let (same, kept, valid) = hand_over-eq-ok s.1 i retvaddr exists (rw done at rest) in
            cc same)
        | inr stopped ↦
            (let (c, n, none0, none1) =
                given_up_parts r (entry k i) straddr opdesc k.pid le counted p0 p1 in
              let final : k' ≡ update s.1 i (given_up (entry s.1 i) opdesc) =
                sym (second_of_ok (rw stopped at rest)).1 in
              (
                given_up r opdesc,
                ap (λ (x : Kernel). x.ringbufs) final
                    ∙ ap₂ (λ rs q. set rs i (given_up q opdesc)) table at
                    ∙ set-set k.ringbufs i r (given_up r opdesc),
                c,
                n,
                none0,
                none1,
              ))
      ]

module _ (k : Kernel) (i opdesc retvaddr : ℕ) (lt : i < length k.ringbufs) (le : opdesc ≤ 1) where
  -- Joining the ring in entry `i` with success: the end was free and is the caller's, the other end
  -- and the name are as they were, and the entry is counted once more.
  pub join_lem :
      {v : ℕ} {k' : Kernel}
      → join k i opdesc retvaddr ≡ ok (some v, k')
      → (r : Ringbuf) × (v ≡ 0)
        × (pid_of (entry k i) opdesc ≡ 0)
        × (k'.valid_ring_buf ≡ true)
        × (k'.ringbufs ≡ set k.ringbufs i r)
        × (r.refcount ≡ inc (entry k i).refcount)
        × (r.name ≡ (entry k i).name)
        × (pid_of r opdesc ≡ k.pid)
        × (pid_of r (1 - opdesc) ≡ pid_of (entry k i) (1 - opdesc))
  unfolding join
  join_lem {v} {k'} e =
      elim (Bool-cases (not (pid_of (entry k i) opdesc == 0) || is_negative (entry k i).refcount)) [
        | inl refused ↦ absurd (cc (rw refused at e))
        | inr fine ↦
            (let (s, e1, rest) =
                >>=-eq-ok
                  (process_space_mapper (update k i (joining (entry k i) opdesc k.pid)) i false) _
                  (rw fine at e) in
              let (r, table, at, counted, named, p0, p1) =
                remapped k i (joining (entry k i) opdesc k.pid) s.1 lt
                  (process_space_mapper-Mapped _ i false e1) in
              let (c, n, mine, other) = joining_parts (entry k i) opdesc k.pid le in
              elim (Bool-cases s.0) [
                | inl done ↦
                    (let (same, kept, valid) = hand_over-eq-ok s.1 i retvaddr 0 (rw done at rest) in
                      (
                        r,
                        cc,
                        ground (arith, fine),
                        valid,
                        kept ∙ table,
                        counted ∙ c,
                        named ∙ n,
                        carry r (joining (entry k i) opdesc k.pid) opdesc p0 p1 ∙ mine,
                        carry r (joining (entry k i) opdesc k.pid) (1 - opdesc) p0 p1 ∙ other,
                      ))
                | inr stopped ↦ absurd (cc (rw stopped at rest))
              ])
      ]

  -- Joining without success leaves each entry's count, name and pids as they were.
  pub join_fails :
      {k' : Kernel}
      → (entry k i).refcount < 2 ^ 31 - 1
      → join k i opdesc retvaddr ≡ ok (none, k')
      → (r : Ringbuf) × (k'.ringbufs ≡ set k.ringbufs i r)
        × (r.refcount ≡ (entry k i).refcount)
        × (r.name ≡ (entry k i).name)
        × (r.pid0 ≡ (entry k i).pid0)
        × (r.pid1 ≡ (entry k i).pid1)
  unfolding join
  join_fails {k'} small e =
      elim (Bool-cases (not (pid_of (entry k i) opdesc == 0) || is_negative (entry k i).refcount)) [
        | inl refused ↦ (
          entry k i,
          ap (λ (x : Kernel). x.ringbufs) (sym (second_of_ok (rw refused at e)).1)
              ∙ sym (set-get_or k.ringbufs i no_ring),
          refl,
          refl,
          refl,
          refl,
        )
        | inr fine ↦
            (let (s, e1, rest) =
                >>=-eq-ok
                  (process_space_mapper (update k i (joining (entry k i) opdesc k.pid)) i false) _
                  (rw fine at e) in
              let (r, table, at, counted, named, p0, p1) =
                remapped k i (joining (entry k i) opdesc k.pid) s.1 lt
                  (process_space_mapper-Mapped _ i false e1) in
              elim (Bool-cases s.0) [
                | inl done ↦ absurd (
                    let (same, kept, valid) = hand_over-eq-ok s.1 i retvaddr 0 (rw done at rest) in
                    cc same)
                | inr stopped ↦
                    (let (c, n, same0, same1) =
                        unjoined_parts r (entry k i) opdesc k.pid le (omega arith)
                          (ground (arith, fine)) counted named p0 p1 in
                      let final : k' ≡ update s.1 i (unjoined (entry s.1 i) opdesc) =
                        sym (second_of_ok (rw stopped at rest)).1 in
                      (
                        unjoined r opdesc,
                        ap (λ (x : Kernel). x.ringbufs) final
                            ∙ ap₂ (λ rs q. set rs i (unjoined q opdesc)) table at
                            ∙ set-set k.ringbufs i r (unjoined r opdesc),
                        c,
                        n,
                        same0,
                        same1,
                      ))
              ])
      ]

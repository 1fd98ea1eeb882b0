-- ===== src/Ringbuf/Mapper.antt =====
-- What `processSpace_mapper` leaves of the table.
use fast_ipc.Base.{
  ℕ, ◌*◌, ◌≡◌, inl, inr, refl, sym, ap, ◌∙◌, List, Option, none, some, Bool, Outcome, ok, >>=-eq-ok,
  set, set-get_or, Bool-cases,
}
use fast_ipc.Kalloc.{Kmem}
use fast_ipc.Ringbuf.{
  Kernel, Ringbuf, entry, process_space_mapper, ringbuf_size, find_space, map_pages, map_book,
  map_start, map_found, no_ring,
}

-- The mapper touches entry `i` alone, and of it neither the count, the name nor the pids.

pub record Mapped (k : Kernel) (i : ℕ) (k' : Kernel) : Type 0 where
  pub r : Ringbuf
  pub table : k'.ringbufs ≡ set k.ringbufs i r
  pub refcount : r.refcount ≡ (entry k i).refcount
  pub name : r.name ≡ (entry k i).name
  pub pid0 : r.pid0 ≡ (entry k i).pid0
  pub pid1 : r.pid1 ≡ (entry k i).pid1

Mapped-of_path :
    (k : Kernel) (i : ℕ) (k' : Kernel) (m : Kmem) (vabuf book : ℕ) (pages : List ℕ)
    → record k {
      ringbufs =
          set k.ringbufs i (record (entry k i) { vabuf = vabuf; pages = pages; book = book });
      kmem = m;
    }
      ≡ k'
    → Mapped k i k'
Mapped-of_path k i k' m vabuf book pages e = record {
  r = record (entry k i) { vabuf = vabuf; pages = pages; book = book };
  table = ap (λ (x : Kernel). x.ringbufs) (sym e);
  refcount = refl;
  name = refl;
  pid0 = refl;
  pid1 = refl;
}

pub second_of_ok {ℓ κ} :
    {A : Type ℓ} {B : Type κ} {a b : A} {x y : B}
    → ◌≡◌ {A = Outcome (A × B)} (ok (a, x)) (ok (b, y))
    → (a ≡ b) × (x ≡ y)
second_of_ok e = (cc, cc)

map_found-Mapped :
    (k : Kernel) (i : ℕ) (newmap : Bool) (o : Option ℕ) {b : Bool} {k' : Kernel}
    → map_found k i newmap o ≡ ok (b, k')
    → Mapped k i k'
unfolding map_found
map_found-Mapped k i newmap none {b} {k'} e = record {
  r = entry k i;
  table =
      ap (λ (x : Kernel). x.ringbufs) (sym (second_of_ok e).1)
      ∙ sym (set-get_or k.ringbufs i no_ring);
  refcount = refl;
  name = refl;
  pid0 = refl;
  pid1 = refl;
}
map_found-Mapped k i newmap (some start) {b} {k'} e =
    let (s, e1, rest) =
      >>=-eq-ok (map_pages (2 * ringbuf_size) 0 newmap k.pagetable start 0 (entry k i).pages k.kmem)
        _ e in
    elim (Bool-cases s.0) [
      | inl done ↦
          (let (bk, e2, last) =
              >>=-eq-ok (map_book newmap k.pagetable start (entry k i).book s.2) _
                (rw done at rest) in
            Mapped-of_path k i k' bk.1 start bk.0 s.1 (second_of_ok last).1)
      | inr stopped ↦
          Mapped-of_path k i k' s.2 start (entry k i).book s.1 (second_of_ok (rw stopped at rest)).1
    ]

pub process_space_mapper-Mapped :
    (k : Kernel) (i : ℕ) (newmap : Bool) {b : Bool} {k' : Kernel}
    → process_space_mapper k i newmap ≡ ok (b, k')
    → Mapped k i k'
unfolding process_space_mapper
process_space_mapper-Mapped k i newmap e =
    let (o, found, rest) = >>=-eq-ok (find_space 11 k.pagetable map_start k.kmem) _ e in
    map_found-Mapped k i newmap o rest

-- ===== src/Ringbuf.antt =====
-- The kernel's table of ring buffers and the mapping of a ring into a process, kernel/ringbuf.c.
-- `ringbuf_lock` is held over each call, so a call is one step. An `int` is its 32-bit pattern, and
-- a function that returns -1 returns `none` or `false`.
pub mod Calls
pub mod Mapper
use fast_ipc.Base.{
  ℕ, zero, suc, ◌+◌, ◌-◌, ◌*◌, ◌%◌, ◌^◌, List, [], ◌∷◌, Option, none, some, Bool, true, false, not,
  ◌&&◌, ◌||◌, ltb, leb, ◌==◌, if◌then◌else◌, Outcome, ok, panic, fault, ◌>>=◌, set, get_or,
  get_elem?, ℤ, pos, negsuc,
}
use fast_ipc.Kalloc.{Kmem, kalloc, kfree, page_size}
use fast_ipc.Text.{strcmp}
use fast_ipc.Vm.{walkaddr, mappages, uvmunmap, max_va, pte_u, pte_r, pte_w, pte_v}

abbrev pub max_ringbufs : ℕ
max_ringbufs = 10

abbrev pub ringbuf_size : ℕ
ringbuf_size = 16

abbrev pub map_start : ℕ
map_start = max_va - 2 * page_size - 10 * 34 * page_size

abbrev pub space_jump : ℕ
space_jump = 34 * page_size

abbrev pub max_map_loc : ℕ
max_map_loc = max_va - 36 * page_size

-- `struct ringbuf`; `pid0` and `pid1` are `pidsRW`, and `name` the bytes before the NUL
pub record Ringbuf : Type 0 where
  pub refcount : ℕ
  pub name : List ℕ
  pub pid0 : ℕ
  pub pid1 : ℕ
  pub pages : List ℕ  -- `bufPA`
  pub vabuf : ℕ
  pub book : ℕ

-- The table, where it lies in memory, the memory, and of the running process its pid, its page table
-- and its flag `validRingBuf`.
pub record Kernel : Type 0 where
  pub ringbufs : List Ringbuf
  pub table_at : ℕ
  pub kmem : Kmem
  pub pid : ℕ
  pub pagetable : ℕ
  pub valid_ring_buf : Bool

-- `pidsRW[opdesc]`, for `opdesc` 0 or 1
abbrev pub pid_of : Ringbuf → ℕ → ℕ
pid_of r opdesc = if opdesc == 0 then r.pid0 else r.pid1

abbrev pub with_pid : Ringbuf → ℕ → ℕ → Ringbuf
with_pid r opdesc pid = if opdesc == 0 then record r { pid0 = pid } else record r { pid1 = pid }

abbrev pub no_ring : Ringbuf
no_ring = record { refcount = 0; name = []; pid0 = 0; pid1 = 0; pages = []; vabuf = 0; book = 0 }

-- An entry of the table; the code reads it only at an index of the table.
abbrev pub entry : Kernel → ℕ → Ringbuf
entry k i = get_or k.ringbufs i no_ring

abbrev pub update : Kernel → ℕ → Ringbuf → Kernel
update k i r = record k { ringbufs = set k.ringbufs i r }

pub is_zero : ℤ → Bool
is_zero (pos zero) = true
is_zero (pos (suc n)) = false
is_zero (negsuc n) = false

-- The search by name of `createbuf` and `closebuf`, from index `i` on.
pub find_name : List ℕ → List Ringbuf → (i : ℕ) → Option ℕ
unfolding is_zero
find_name straddr [] i = none
find_name straddr (r ∷ rs) i =
    if is_zero (strcmp straddr r.name) then some i else find_name straddr rs (i + 1)

-- The search of `createbuf` for an entry that is not in use.
pub find_unused : List Ringbuf → (i : ℕ) → Option ℕ
find_unused [] i = none
find_unused (r ∷ rs) i = if r.refcount == 0 then some i else find_unused rs (i + 1)

-- The first loop of `processSpace_mapper`, on fuel: the first place whose page is not mapped.
pub find_space : (fuel pagetable start : ℕ) → Kmem → Outcome (Option ℕ)
find_space zero pagetable start m = fault
find_space (suc fuel) pagetable start m =
    let rest = find_space fuel pagetable (start + space_jump) m in
    walkaddr pagetable start m >>= λ pa.
    if pa == 0
    then ok (some start)
    else if ltb max_map_loc (start + space_jump)
    then ok none
    else rest

abbrev pub ring_perm : ℕ
ring_perm = pte_u + pte_r + pte_w + pte_v

-- The clean-up of `processSpace_mapper`: each of `count` rounds unmaps the page at `start`.
pub undo_map : (count pagetable start : ℕ) → Kmem → Outcome Kmem
undo_map zero pagetable start m = ok m
undo_map (suc count) pagetable start m =
    uvmunmap pagetable start 1 true m >>= undo_map count pagetable start

-- Its second loop from round `i` on, with `left` rounds to go: page `i` of the 32, over the ring's
-- 16 pages twice. `page` is the variable `mem`, the page that the last round allocated.
pub map_pages :
    (left i : ℕ)
    → (newmap : Bool) → (pagetable start page : ℕ) → List ℕ
    → Kmem
    → Outcome (Bool × List ℕ × Kmem)
unfolding undo_map
map_pages zero i newmap pagetable start page pages m = ok (true, pages, m)
map_pages (suc left) i newmap pagetable start page pages m =
    let fresh = ltb i ringbuf_size && newmap in
    let page' = if fresh then (kalloc m).0 else page in
    let m' = if fresh then (kalloc m).1 else m in
    let pages' = if fresh then set pages i page' else pages in
    mappages pagetable (start + i * page_size) page_size (get_or pages' (i % ringbuf_size) 0)
      ring_perm m'
    >>= λ r.
        if r.0
        then map_pages left (i + 1) newmap pagetable start page' pages' r.1
        else undo_map i pagetable start r.1 >>= λ m''.
            (if ltb i ringbuf_size then kfree page' m'' else ok m'') >>= λ m'''.
            ok (false, pages', m''')

-- Its last part: the book page, behind the 32 others. Where it cannot be mapped the code panics.
pub map_book : (newmap : Bool) → (pagetable start book : ℕ) → Kmem → Outcome (ℕ × Kmem)
map_book newmap pagetable start book m =
    let book' = if newmap then (kalloc m).0 else book in
    let m' = if newmap then (kalloc m).1 else m in
    mappages pagetable (start + 2 * ringbuf_size * page_size) page_size book' ring_perm m' >>= λ r.
    if r.0 then ok (book', r.1) else panic

-- The rest of `processSpace_mapper`, after the first loop.
pub map_found : Kernel → (current_index : ℕ) → (newmap : Bool) → Option ℕ → Outcome (Bool × Kernel)
map_found k i newmap none = ok (false, k)
map_found k i newmap (some start) =
    map_pages (2 * ringbuf_size) 0 newmap k.pagetable start 0 (entry k i).pages k.kmem >>= λ s.
    let r = record (entry k i) { vabuf = start; pages = s.1 } in
    if s.0
    then (map_book newmap k.pagetable start (entry k i).book s.2 >>= λ b.
        ok (true, record k { ringbufs = set k.ringbufs i (record r { book = b.0 }); kmem = b.1 }))
    else ok (false, record k { ringbufs = set k.ringbufs i r; kmem = s.2 })

-- `processSpace_mapper`. A place is found or given up after ten jumps at most.
pub process_space_mapper : Kernel → (current_index : ℕ) → (newmap : Bool) → Outcome (Bool × Kernel)
process_space_mapper k i newmap =
    find_space 11 k.pagetable map_start k.kmem >>= map_found k i newmap

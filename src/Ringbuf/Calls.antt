-- ===== src/Ringbuf/Calls.antt =====
-- `createbuf`, `closebuf` and `ringbufCleanup` of kernel/ringbuf.c.
pub mod Names
pub mod Slots
pub mod Create
pub mod Close
mod Tests
use fast_ipc.Base.{
  ℕ, zero, suc, ◌+◌, ◌-◌, ◌*◌, ◌%◌, ◌^◌, List, [], ◌∷◌, Option, none, some, Bool, true, false, not,
  ◌&&◌, ◌||◌, ltb, leb, ◌==◌, if◌then◌else◌, Outcome, ok, panic, fault, ◌>>=◌, set, is_negative,
  to_int,
}
use fast_ipc.Kalloc.{Kmem, page_size}
use fast_ipc.Memory.{store64}
use fast_ipc.Text.{safestrcpy}
use fast_ipc.Vm.{uvmunmap}
use fast_ipc.Vm.Copy.{copyout}
use fast_ipc.Ringbuf.{
  Kernel, Ringbuf, entry, update, pid_of, with_pid, find_name, find_unused, process_space_mapper,
  ringbuf_size,
}

-- `refcount++` and `--refcount`, on `int`
abbrev pub inc : ℕ → ℕ
inc n = to_int (n + 1)

abbrev pub dec : ℕ → ℕ
dec n = to_int (n + 2 ^ 32 - 1)

-- `&ringbufs[i].vabuf`, by the layout of `struct ringbuf`
abbrev pub vabuf_at : Kernel → ℕ → ℕ
vabuf_at k i = k.table_at + 176 * i + 160

-- The end of `createbuf`: the address is copied to the caller and the flag of the process is set.
-- The result of `copyout` is not looked at.
pub hand_over : Kernel → (i retvaddr exists : ℕ) → Outcome (Option ℕ × Kernel)
hand_over k i retvaddr exists =
    let m = record (k.kmem) { mem = store64 k.kmem.mem (vabuf_at k i) (entry k i).vabuf } in
    copyout k.pagetable retvaddr (vabuf_at k i) 8 m >>= λ r.
    ok (some exists, record k { kmem = r.1; valid_ring_buf = true })

-- The entry as `createbuf` writes it before the mapping, and after one that failed, where the name
-- was found at an index above 0.
pub joining : Ringbuf → (opdesc pid : ℕ) → Ringbuf
joining r opdesc pid = record (with_pid r opdesc pid) { refcount = inc r.refcount }

pub unjoined : Ringbuf → (opdesc : ℕ) → Ringbuf
unjoined r opdesc = record (with_pid r opdesc 0) { refcount = dec r.refcount }

-- `createbuf` there.
pub join : Kernel → (i opdesc retvaddr : ℕ) → Outcome (Option ℕ × Kernel)
join k i opdesc retvaddr =
    if not (pid_of (entry k i) opdesc == 0) || is_negative (entry k i).refcount
    then ok (none, k)
    else process_space_mapper (update k i (joining (entry k i) opdesc k.pid)) i false >>= λ r.
        if r.0
        then hand_over r.1 i retvaddr 0
        else ok (none, update r.1 i (unjoined (entry r.1 i) opdesc))

-- The entry as `createbuf` writes it for a ring that it sets up, and after a mapping that failed.
-- `sizeof(straddr)` is the size of a pointer, and `sizeof(0)` that of an `int`.
pub setting_up : Ringbuf → List ℕ → (opdesc pid : ℕ) → Ringbuf
setting_up r straddr opdesc pid = record (with_pid (with_pid r (1 - opdesc) 0) opdesc pid) {
  refcount = inc r.refcount;
  name = safestrcpy r.name straddr 8;
}

pub given_up : Ringbuf → (opdesc : ℕ) → Ringbuf
given_up r opdesc = record (with_pid r opdesc 0) { name = safestrcpy r.name [] 4 }

-- `createbuf` where a ring is set up in entry `i`, which is one not in use, or, if every entry is in
-- use, the entry of the name.
pub set_up : Kernel → List ℕ → (i opdesc retvaddr exists : ℕ) → Outcome (Option ℕ × Kernel)
set_up k straddr i opdesc retvaddr exists =
    process_space_mapper (update k i (setting_up (entry k i) straddr opdesc k.pid)) i true >>= λ s.
    if s.0
    then hand_over s.1 i retvaddr exists
    else ok (none, update s.1 i (given_up (entry s.1 i) opdesc))

-- `current_index > 0` sends a name found at index 0 to the second branch; there an index of -1 that
-- is not replaced faults.
pub createbuf : Kernel → List ℕ → (opdesc retvaddr : ℕ) → Outcome (Option ℕ × Kernel)
createbuf k straddr opdesc retvaddr =
    if is_negative opdesc || ltb 1 opdesc
    then ok (none, k)
    else elim (find_name straddr k.ringbufs 0) [
      | none ↦ elim (find_unused k.ringbufs 0) [
        | none ↦ fault
        | some i ↦ set_up k straddr i opdesc retvaddr 1
      ]
      | some zero ↦ elim (find_unused k.ringbufs 0) [
        | none ↦ set_up k straddr 0 opdesc retvaddr 0
        | some i ↦ set_up k straddr i opdesc retvaddr 0
      ]
      | some (suc i) ↦ join k (suc i) opdesc retvaddr
    ]

-- The three groups of `uvmunmap` calls of `closebuf`, with `count` calls to go in a group.
pub unmap_each : (count pagetable d : ℕ) → (do_free : Bool) → Kmem → Outcome Kmem
unmap_each zero pagetable d do_free m = ok m
unmap_each (suc count) pagetable d do_free m =
    uvmunmap pagetable d 1 do_free m >>= unmap_each count pagetable (d + page_size) do_free

pub unmap_ring : (pagetable d : ℕ) → (unmapphypage : Bool) → Kmem → Outcome Kmem
unmap_ring pagetable d unmapphypage m = unmap_each ringbuf_size pagetable d unmapphypage m >>= λ m1.
    unmap_each ringbuf_size pagetable (d + ringbuf_size * page_size) false m1 >>= λ m2.
    uvmunmap pagetable (d + 2 * ringbuf_size * page_size) 1 unmapphypage m2

-- Does the process have an end of some ring?
pub has_end : ℕ → List Ringbuf → Bool
has_end pid [] = false
has_end pid (r ∷ rs) = r.pid0 == pid || r.pid1 == pid || has_end pid rs

abbrev pub emptied : Ringbuf → Ringbuf
emptied r = record r { refcount = 0; name = []; pid0 = 0; pid1 = 0; vabuf = 0; book = 0 }

-- `--refcount >= 1`, and the entry after it.
abbrev pub still_open : Ringbuf → Bool
still_open r = leb 1 (dec r.refcount) && not (is_negative (dec r.refcount))

pub closing : Ringbuf → Ringbuf
closing r = if still_open r then record r { refcount = dec r.refcount } else emptied r

-- `closebuf` after its search.
pub close_at : Kernel → (current_index : ℕ) → Outcome Kernel
close_at k i =
    unmap_ring k.pagetable (entry k i).vabuf (not (still_open (entry k i))) k.kmem >>= λ m.
    let ringbufs' = set k.ringbufs i (closing (entry k i)) in
    ok (record k { ringbufs = ringbufs'; kmem = m; valid_ring_buf = has_end k.pid ringbufs' })

-- `closebuf`. The search runs over `RINGBUF_SIZE` entries, so where the name is not among the ten of
-- the table it reads on past them. Its argument `opdesc` is not used.
pub closebuf : Kernel → List ℕ → Outcome Kernel
closebuf k straddr = elim (find_name straddr k.ringbufs 0) [ none ↦ fault | some i ↦ close_at k i ]

-- The loop of `ringbufCleanup` from index `i` on.
pub cleanup_from : (left i : ℕ) → Kernel → Outcome Kernel
cleanup_from zero i k = ok k
cleanup_from (suc left) i k =
    (if (entry k i).pid0 == k.pid then closebuf k (entry k i).name else ok k) >>= λ k1.
    (if (entry k1 i).pid1 == k1.pid then closebuf k1 (entry k1 i).name else ok k1)
    >>= cleanup_from left (i + 1)

pub ringbuf_cleanup : Kernel → Outcome Kernel
ringbuf_cleanup k = cleanup_from 10 0 k

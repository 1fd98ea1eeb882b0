-- ===== src/Ringbuf/Calls/Tests.antt =====
-- A table with rings in it, and runs of the calls.
use fast_ipc.Base.{
  ℕ, ◌-◌, ◌≡◌, refl, arith, List, [], ◌∷◌, ◌++◌, Option, none, some, Bool, true, false, Outcome, ok,
  panic, fault, set, length, replicate,
}
use fast_ipc.Memory.{Mem, load64, load_le, store64, store_le, byte_of}
use fast_ipc.Kalloc.{kalloc}
use fast_ipc.Text.{strcmp}
use fast_ipc.Vm.{
  walk, walk_from, descend, walkaddr, mappages, map_from, uvmunmap, unmap_page, unmap_from, max_va,
}
use fast_ipc.Vm.Copy.{copyout, copyout_from}
use fast_ipc.Vm.Sample.{empty_tables, full_tables, with_mem}
use fast_ipc.Ringbuf.{
  Kernel, Ringbuf, find_name, find_unused, no_ring, is_zero, process_space_mapper, find_space,
  map_found, map_pages, map_book,
}
use fast_ipc.Ringbuf.Calls.Create.{createbuf_new}
use fast_ipc.Ringbuf.Calls.Names.{createbuf_long}
use fast_ipc.Ringbuf.Calls.Close.{closebuf_twice}
use fast_ipc.Ringbuf.Calls.{
  unjoined, createbuf, set_up, join, hand_over, setting_up, given_up, joining, closebuf, close_at,
  closing, unmap_ring, unmap_each, has_end,
}

-- What a call replied.

reply : Outcome (Option ℕ × Kernel) → Option (Option ℕ)
reply (ok (o, k)) = some o
reply panic = none
reply fault = none

reply_ok :
    (m : Outcome (Option ℕ × Kernel)) {o : Option ℕ}
    → reply m ≡ some o
    → (k' : Kernel) × (m ≡ ok (o, k'))
unfolding reply
reply_ok (ok (o, k)) e = (k, ground arith)
reply_ok panic e = cc
reply_ok fault e = cc

abbrev bye : List ℕ
bye = b'B' ∷ b'y' ∷ b'e' ∷ []

-- A kernel with the given rings in front, and a process 7 whose tables are at 0x1000.
abbrev kernel : List Ringbuf → Mem → Kernel
kernel rings m = record {
  ringbufs = rings ++ replicate (10 - length rings) no_ring;
  table_at = 0x80010000;
  kmem = with_mem m;
  pid = 7;
  pagetable = 0x1000;
  valid_ring_buf = false;
}

abbrev ring : List ℕ → (refcount pid0 pid1 vabuf : ℕ) → Ringbuf
ring name refcount pid0 pid1 vabuf = record {
  refcount = refcount;
  name = name;
  pid0 = pid0;
  pid1 = pid1;
  pages = replicate 16 0;
  vabuf = vabuf;
  book = 0;
}

-- What the call returns for a new ring, and for one that it found.
abbrev made_it : ℕ
made_it = 1

abbrev found_it : ℕ
found_it = 0

abbrev fresh_kernel : Kernel
fresh_kernel = kernel [] empty_tables

create_new : (k' : Kernel) × (createbuf fresh_kernel bye 0 max_va ≡ ok (some 1, k'))
unfolding reply createbuf set_up join hand_over setting_up given_up joining unjoined find_name
    is_zero strcmp find_unused process_space_mapper find_space map_found map_pages map_book walkaddr
    walk walk_from descend mappages map_from load64 load_le store64 store_le byte_of kalloc copyout
    copyout_from
create_new = reply_ok (createbuf fresh_kernel bye 0 max_va) refl

createbuf_new_example :
    (r : Ringbuf) × (made_it ≡ 1)
    × (create_new.0.valid_ring_buf ≡ true)
    × (create_new.0.ringbufs ≡ set fresh_kernel.ringbufs 0 r)
    × (r.refcount ≡ 1)
    × (r.name ≡ bye)
    × (r.pid0 ≡ 7)
    × (r.pid1 ≡ 0)
unfolding find_name is_zero strcmp find_unused
createbuf_new_example =
    createbuf_new fresh_kernel bye 0 max_va 0 (omega arith) refl refl create_new.1

-- The ring `bye` at index 0, with process 5 at its first end.
abbrev zero_kernel : Kernel
zero_kernel = kernel (ring bye 1 5 0 0x5000 ∷ []) empty_tables

create_at_zero : (k' : Kernel) × (createbuf zero_kernel bye 1 max_va ≡ ok (some 0, k'))
unfolding reply createbuf set_up join hand_over setting_up given_up joining unjoined find_name
    is_zero strcmp find_unused process_space_mapper find_space map_found map_pages map_book walkaddr
    walk walk_from descend mappages map_from load64 load_le store64 store_le byte_of kalloc copyout
    copyout_from
create_at_zero = reply_ok (createbuf zero_kernel bye 1 max_va) refl

-- The same ring at index 1.
abbrev one_kernel : Kernel
one_kernel = kernel (no_ring ∷ ring bye 1 5 0 0x5000 ∷ []) empty_tables

create_at_one : (k' : Kernel) × (createbuf one_kernel bye 1 max_va ≡ ok (some 0, k'))
unfolding reply createbuf set_up join hand_over setting_up given_up joining unjoined find_name
    is_zero strcmp find_unused process_space_mapper find_space map_found map_pages map_book walkaddr
    walk walk_from descend mappages map_from load64 load_le store64 store_le byte_of kalloc copyout
    copyout_from
create_at_one = reply_ok (createbuf one_kernel bye 1 max_va) refl

-- No place for a ring is left.
abbrev full_kernel : Kernel
full_kernel = kernel [] full_tables

create_without_space : (k' : Kernel) × (createbuf full_kernel bye 0 max_va ≡ ok (none, k'))
unfolding reply createbuf set_up join hand_over setting_up given_up joining unjoined find_name
    is_zero strcmp find_unused process_space_mapper find_space map_found map_pages map_book walkaddr
    walk walk_from descend mappages map_from load64 load_le store64 store_le byte_of kalloc copyout
    copyout_from
create_without_space = reply_ok (createbuf full_kernel bye 0 max_va) refl

-- `good bye`
abbrev long_name : List ℕ
long_name = b'g' ∷ b'o' ∷ b'o' ∷ b'd' ∷ b' ' ∷ bye

create_long : (k' : Kernel) × (createbuf fresh_kernel long_name 0 max_va ≡ ok (some 1, k'))
unfolding reply createbuf set_up join hand_over setting_up given_up joining unjoined find_name
    is_zero strcmp find_unused process_space_mapper find_space map_found map_pages map_book walkaddr
    walk walk_from descend mappages map_from load64 load_le store64 store_le byte_of kalloc copyout
    copyout_from
create_long = reply_ok (createbuf fresh_kernel long_name 0 max_va) refl

createbuf_long_example :
    (made_it ≡ 1)
    × (find_name long_name create_long.0.ringbufs 0 ≡ none)
    × (closebuf create_long.0 long_name ≡ fault)
unfolding find_unused
createbuf_long_example =
    createbuf_long fresh_kernel long_name 0 max_va 0 (omega arith) (omega arith) (omega arith)
      (ground arith) refl create_long.1

-- Ten rings of other processes.
abbrev crowded_kernel : Kernel
crowded_kernel = kernel (replicate 10 (ring [] 1 5 0 0x5000)) empty_tables

-- Process 7 has the ring `bye` open together with process 5, and all its pages are mapped.
abbrev shared_kernel : Kernel
shared_kernel = kernel (ring bye 2 5 7 0x100000 ∷ []) full_tables

closes : Outcome Kernel → Bool
closes (ok k) = true
closes panic = false
closes fault = false

closes_ok : (m : Outcome Kernel) → closes m ≡ true → (k' : Kernel) × (m ≡ ok k')
unfolding closes
closes_ok (ok k) e = (k, refl)
closes_ok panic e = cc
closes_ok fault e = cc

close_once : (k' : Kernel) × (closebuf shared_kernel bye ≡ ok k')
unfolding closes closebuf close_at closing unmap_ring unmap_each has_end find_name is_zero strcmp
    walk walk_from descend uvmunmap unmap_page unmap_from load64 load_le store64 store_le byte_of
close_once = closes_ok (closebuf shared_kernel bye) refl

closebuf_twice_example : closebuf close_once.0 bye ≡ panic
unfolding find_name is_zero strcmp
closebuf_twice_example =
    closebuf_twice shared_kernel bye 0 (omega arith) (omega arith) refl refl close_once.1

-- ===== src/Proc/Life.antt =====
-- The life of a process: what the functions of kernel/proc.c change, and those of them by which an
-- entry of the table is set up, grown and freed, with all that they call.
use fast_ipc.Base.{
  ℕ, ◌+◌, ◌*◌, Bool, true, false, not, ◌==◌, if◌then◌else◌, List, [], ◌∷◌, Option, none, some, set,
  replicate, Outcome, ok, fault, ◌>>=◌, u64, to_int, is_negative,
}
use fast_ipc.Memory.{store_le, store64}
use fast_ipc.Text.{safestrcpy}
use fast_ipc.Kalloc.{Kmem, kalloc, kfree, page_size}
use fast_ipc.Vm.{pte_r, pte_w, pte_x, mappages, uvmunmap}
use fast_ipc.Vm.Grow.{uvmcreate, uvminit, uvmalloc, uvmdealloc, uvmfree}
use fast_ipc.File.{File}
use fast_ipc.Fs.Icache.{Store}
use fast_ipc.Fs.Path.{slash, namei}
use fast_ipc.Log.{Log}
use fast_ipc.Proc.{Proc, unused, used, runnable, proc_at, find_unused, trampoline_va, trapframe_va}

-- What the functions change, with the addresses that the linker gives: the array `proc`, the page
-- of the trampoline, `forkret`.

pub record Sys : Type 0 where
  pub procs : List Proc
  pub nextpid : ℕ
  pub initproc : Option ℕ
  pub kmem : Kmem
  pub files : List File
  pub store : Store
  pub log : Log
  pub proc_base : ℕ
  pub trampoline : ℕ
  pub forkret : ℕ

-- `sizeof(struct proc)`, and where `xstate` lies in it.
abbrev pub proc_size : ℕ
proc_size = 368

abbrev pub address : Sys → ℕ → ℕ
address s i = s.proc_base + proc_size * i

-- A pointer to a process as a channel.
abbrev pub chan_of : Sys → Option ℕ → ℕ
chan_of s none = 0
chan_of s (some i) = address s i

abbrev pub xstate_at : Sys → ℕ → ℕ
xstate_at s i = address s i + 44

-- `p->xstate = status`, for an `int`
abbrev pub set_xstate : Sys → (i status : ℕ) → Kmem
set_xstate s i status = record (s.kmem) { mem = store_le s.kmem.mem (xstate_at s i) 4 status }

abbrev pub put_proc : Sys → (i : ℕ) → Proc → Sys
put_proc s i p = record s { procs = set s.procs i p }

unfoldable pub proc_pagetable : (trampoline trapframe : ℕ) → Kmem → Outcome (ℕ × Kmem)
proc_pagetable trampoline trapframe k =
    let (pagetable, k1) = uvmcreate k in
    if pagetable == 0
    then ok (0, k1)
    else mappages pagetable trampoline_va page_size trampoline (pte_r + pte_x) k1 >>= λ r.
        if not r.0
        then (uvmfree pagetable 0 r.1 >>= λ k2. ok (0, k2))
        else mappages pagetable trapframe_va page_size trapframe (pte_r + pte_w) r.1 >>= λ r2.
            if not r2.0
            then (uvmunmap pagetable trampoline_va 1 false r2.1 >>= uvmfree pagetable 0 >>= λ k3.
                ok (0, k3))
            else ok (pagetable, r2.1)

pub proc_freepagetable : (pagetable sz : ℕ) → Kmem → Outcome Kmem
proc_freepagetable pagetable sz k =
    uvmunmap pagetable trampoline_va 1 false k
    >>= uvmunmap pagetable trapframe_va 1 false
    >>= uvmfree pagetable sz

-- The fields that `freeproc` sets.
unfoldable pub freed : Proc → Proc
freed p = record p {
  trapframe = 0;
  pagetable = 0;
  sz = 0;
  pid = 0;
  parent = none;
  name = [];
  chan = 0;
  killed = 0;
  state = unused;
}

-- The memory that `freeproc` gives back.
unfoldable pub free_memory : Proc → Kmem → Outcome Kmem
free_memory p k = (if p.trapframe == 0 then ok k else kfree p.trapframe k) >>= λ k1.
    if p.pagetable == 0 then ok k1 else proc_freepagetable p.pagetable p.sz k1

unfoldable pub freeproc : Sys → (i : ℕ) → Outcome Sys
freeproc s i = free_memory (proc_at s.procs i) s.kmem >>= λ k.
    let s1 = record s { kmem = k; procs = set s.procs i (freed (proc_at s.procs i)) } in
    ok (record s1 { kmem = set_xstate s1 i 0 })

-- `allocpid` and the new state, for the entry at `i`.
unfoldable pub claimed : Sys → (i : ℕ) → Sys
claimed s i = record s {
  procs = set s.procs i (record (proc_at s.procs i) { pid = s.nextpid; state = used });
  nextpid = to_int (s.nextpid + 1);
}

abbrev pub with_trapframe : Sys → (i : ℕ) → ℕ × Kmem → Sys
with_trapframe s i r = record s {
  procs = set s.procs i (record (proc_at s.procs i) { trapframe = r.0 });
  kmem = r.1;
}

abbrev pub with_pagetable : Sys → (i : ℕ) → ℕ × Kmem → Sys
with_pagetable s i r = record s {
  procs = set s.procs i (record (proc_at s.procs i) { pagetable = r.0 });
  kmem = r.1;
}

-- The context that begins at `forkret` on the process's own stack.
abbrev pub with_context : Sys → (i : ℕ) → Sys
with_context s i =
    let p = proc_at s.procs i in
    put_proc s i (record p { context = s.forkret ∷ u64 (p.kstack + page_size) ∷ replicate 12 0 })

-- The clean-up of a failed `allocproc`, `freeproc(p); return 0;`
unfoldable pub give_up : Sys → (i : ℕ) → Outcome (Option ℕ × Sys)
give_up s i = freeproc s i >>= λ s'. ok (none, s')

-- `allocproc` from `found` on: the index, if it did not run out of memory.
unfoldable pub set_up_proc : Sys → (i : ℕ) → Outcome (Option ℕ × Sys)
set_up_proc s i =
    let s1 = claimed s i in
    let s2 = with_trapframe s1 i (kalloc s1.kmem) in
    if (kalloc s1.kmem).0 == 0
    then give_up s2 i
    else proc_pagetable s2.trampoline (kalloc s1.kmem).0 s2.kmem >>= λ r.
        if r.0 == 0
        then give_up (with_pagetable s2 i r) i
        else ok (some i, with_context (with_pagetable s2 i r) i)

unfoldable pub allocproc : Sys → Outcome (Option ℕ × Sys)
allocproc s = elim (find_unused 0 s.procs) [ none ↦ ok (none, s) | some i ↦ set_up_proc s i ]

-- The 52 bytes at `initcode`, and `namei("/")` by a process with no directory.
unfoldable pub first_user : (initcode : ℕ) → (i : ℕ) → Sys → Outcome Sys
first_user initcode i s =
    let p = proc_at s.procs i in
    uvminit p.pagetable initcode 52 s.kmem >>= λ k.
    let m = store64 (store64 k.mem (p.trapframe + 24) 0) (p.trapframe + 48) page_size in
    namei s.store 0 (slash ∷ []) >>= λ r. ok (record s {
      initproc = some i;
      kmem = record k { mem = m };
      store = r.1;
      procs = set s.procs i (record p {
        sz = page_size;
        name = safestrcpy p.name (0x69 ∷ 0x6e ∷ 0x69 ∷ 0x74 ∷ 0x63 ∷ 0x6f ∷ 0x64 ∷ 0x65 ∷ []) 16;
        cwd = r.0;
        state = runnable;
      });
    })

-- A null pointer from `allocproc` is used without a test.
unfoldable pub userinit : (initcode : ℕ) → Sys → Outcome Sys
userinit initcode s =
    allocproc s >>= λ r. elim r.0 [ none ↦ fault | some i ↦ first_user initcode i r.1 ]

-- `sz = ...; p->sz = sz;`, cut to a `uint`.
abbrev pub with_size : Sys → (i : ℕ) → ℕ × Kmem → Sys
with_size s i r = record s {
  procs = set s.procs i (record (proc_at s.procs i) { sz = to_int r.0 });
  kmem = r.1;
}

-- `growproc`, for the pattern of an `int` n: `false` for -1. `sz + n` is a `uint`.
unfoldable pub growproc : (me n : ℕ) → Sys → Outcome (Bool × Sys)
growproc me n s =
    let p = proc_at s.procs me in
    let sz = to_int p.sz in
    if is_negative n
    then (uvmdealloc p.pagetable sz (to_int (sz + n)) s.kmem >>= λ r. ok (true, with_size s me r))
    else if n == 0
    then ok (true, with_size s me (sz, s.kmem))
    else uvmalloc p.pagetable sz (to_int (sz + n)) s.kmem >>= λ r.
        if to_int r.0 == 0 then ok (false, record s { kmem = r.1 }) else ok (true, with_size s me r)

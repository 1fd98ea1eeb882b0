-- ===== src/Proc.antt =====
-- The table of processes, kernel/proc.c and kernel/proc.h: what one process's state is, and the
-- operations that run over the table. `p->lock` is held over each change of an entry, so each round
-- of a loop is one step; a pointer to a process is the index of its entry.
pub mod Life
pub mod Calls
pub mod Run
pub mod Kills
pub mod Wakes
pub mod Family
pub mod Pass
pub mod Limits
mod Tests
use fast_ipc.Base.{
  ℕ, zero, suc, ◌+◌, ◌-◌, ◌*◌, Bool, true, false, not, ◌&&◌, ◌==◌, if◌then◌else◌, List, [], ◌∷◌,
  Option, none, some, get_or, set, Outcome, ok, panic, ◌>>=◌, ◌⊎◌, inl, inr,
}
use fast_ipc.Kalloc.{Kmem, kalloc, page_size}
use fast_ipc.Vm.{max_va, pte_r, pte_w, kvmmap}

-- `enum procstate`
pub data ProcState : Type 0 where
  unused used sleeping runnable running zombie : ProcState

abbrev pub is_unused : ProcState → Bool
is_unused st = elim st [ unused ↦ true | _ ↦ false ]

abbrev pub is_sleeping : ProcState → Bool
is_sleeping st = elim st [ sleeping ↦ true | _ ↦ false ]

abbrev pub is_runnable : ProcState → Bool
is_runnable st = elim st [ runnable ↦ true | _ ↦ false ]

abbrev pub is_running : ProcState → Bool
is_running st = elim st [ running ↦ true | _ ↦ false ]

abbrev pub is_zombie : ProcState → Bool
is_zombie st = elim st [ zombie ↦ true | _ ↦ false ]

-- `struct proc`, without its lock and the field `validRingBuf`, which nothing reads. `xstate`, whose
-- address `wait` passes on, lies in the memory of the kernel. `context` is its fourteen words.
pub record Proc : Type 0 where
  pub state : ProcState
  pub chan : ℕ
  pub killed : ℕ
  pub pid : ℕ
  pub parent : Option ℕ
  pub kstack : ℕ
  pub sz : ℕ
  pub pagetable : ℕ
  pub trapframe : ℕ
  pub context : List ℕ
  pub ofile : List (Option ℕ)
  pub cwd : Option ℕ
  pub name : List ℕ

abbrev pub no_proc : Proc
no_proc = record {
  state = unused;
  chan = 0;
  killed = 0;
  pid = 0;
  parent = none;
  kstack = 0;
  sz = 0;
  pagetable = 0;
  trapframe = 0;
  context = [];
  ofile = [];
  cwd = none;
  name = [];
}

abbrev pub proc_at : List Proc → ℕ → Proc
proc_at ps i = get_or ps i no_proc

-- Is this the process at index `i`?
abbrev pub is_proc : Option ℕ → ℕ → Bool
is_proc none i = false
is_proc (some j) i = j == i

-- The body of the loop of `wakeup`, by the process `me`, for the entry at index `i`.
pub wake : (me : Option ℕ) → (chan i : ℕ) → Proc → Proc
wake me chan i p =
    if not (is_proc me i) && (is_sleeping p.state && p.chan == chan)
    then record p { state = runnable }
    else p

-- The loop of `wakeup` from index `i` on.
pub wake_from : (me : Option ℕ) → (chan i : ℕ) → List Proc → List Proc
wake_from me chan i [] = []
wake_from me chan i (p ∷ ps) = wake me chan i p ∷ wake_from me chan (i + 1) ps

pub wakeup : (me : Option ℕ) → (chan : ℕ) → List Proc → List Proc
wakeup me chan ps = wake_from me chan 0 ps

-- What `kill` does to the process it finds.
pub killed_proc : Proc → Proc
killed_proc p = record p { killed = 1; state = if is_sleeping p.state then runnable else p.state }

-- `kill`: `false` for -1.
pub kill : (pid : ℕ) → List Proc → Bool × List Proc
kill pid [] = (false, [])
kill pid (p ∷ ps) =
    let rest = kill pid ps in
    if p.pid == pid then (true, killed_proc p ∷ ps) else (rest.0, p ∷ rest.1)

-- The loop of `reparent` from index `i` on, with `left` entries to go; `chan` is `initproc`, the
-- channel.
pub reparent_from : (initproc : Option ℕ) → (chan me left i : ℕ) → List Proc → List Proc
reparent_from initproc chan me zero i ps = ps
reparent_from initproc chan me (suc left) i ps =
    let p = proc_at ps i in
    let adopted = wakeup (some me) chan (set ps i (record p { parent = initproc })) in
    reparent_from initproc chan me left (i + 1) (if is_proc p.parent me then adopted else ps)

-- `sleep` up to its call of `sched`, and what it does after it.
pub fall_asleep : (me chan : ℕ) → List Proc → List Proc
fall_asleep me chan ps = set ps me (record (proc_at ps me) { chan = chan; state = sleeping })

pub tidy_up : (me : ℕ) → List Proc → List Proc
tidy_up me ps = set ps me (record (proc_at ps me) { chan = 0 })

-- What the loop of `wait` from index `i` on finds: a child that has exited, or else whether there are
-- children.
pub scan_children : (me i : ℕ) → (havekids : Bool) → List Proc → ℕ ⊎ Bool
scan_children me i havekids [] = inr havekids
scan_children me i havekids (p ∷ ps) =
    let on = scan_children me (i + 1) true ps in
    let past = scan_children me (i + 1) havekids ps in
    if is_proc p.parent me then (if is_zombie p.state then inl i else on) else past

-- The first loop of `allocproc` from index `i` on.
pub find_unused : (i : ℕ) → List Proc → Option ℕ
find_unused i [] = none
find_unused i (p ∷ ps) =
    let later = find_unused (i + 1) ps in if is_unused p.state then some i else later

-- `TRAMPOLINE`, `TRAPFRAME` and `KSTACK(p)` of kernel/memlayout.h
abbrev pub trampoline_va : ℕ
trampoline_va = max_va - page_size

abbrev pub trapframe_va : ℕ
trapframe_va = trampoline_va - page_size

abbrev pub kstack_va : ℕ → ℕ
kstack_va i = trampoline_va - (i + 1) * (2 * page_size)

-- `procinit` from index `i` on: the kernel stack of each entry, in an array that is zero at boot.
pub procinit_from : (left i : ℕ) → List Proc
procinit_from zero i = []
procinit_from (suc left) i = record no_proc { kstack = kstack_va i } ∷ procinit_from left (i + 1)

-- `proc_mapstacks`
pub mapstacks_from : (left i kpgtbl : ℕ) → Kmem → Outcome Kmem
mapstacks_from zero i kpgtbl k = ok k
mapstacks_from (suc left) i kpgtbl k =
    let (page, k1) = kalloc k in
    if page == 0
    then panic
    else kvmmap kpgtbl (kstack_va i) page page_size (pte_r + pte_w) k1
      >>= mapstacks_from left (i + 1) kpgtbl

-- ===== src/Proc/Tests.antt =====
-- Tables of a few processes, and runs of the calls.
use fast_ipc.Base.{
  ℕ, zero, suc, ◌+◌, ◌*◌, ◌/◌, ◌%◌, ◌^◌, ◌<◌, ◌≡◌, ◌≢◌, refl, sym, subst, arith, Bool, true, false,
  ltb, if◌then◌else◌, List, [], ◌∷◌, Option, none, some, length, Outcome, ok, panic, fault, ◌⊎◌,
}
use fast_ipc.Memory.{
  memset, memset_from, load64, load_le, store64, store_le, byte_of, store8, memmove,
}
use fast_ipc.Kalloc.{Kmem, kalloc, kfree}
use fast_ipc.Vm.{mappages, map_from, walk, walk_from, descend, uvmunmap, unmap_from, unmap_page}
use fast_ipc.Vm.Grow.{uvmcreate, uvminit, uvmcopy, copy_pages, uvmdealloc}
use fast_ipc.File.{Release}
use fast_ipc.File.Counts.{count}
use fast_ipc.Log.{begin_op, end_op}
use fast_ipc.Fs.Inode.{Inode}
use fast_ipc.Fs.Icache.{no_inode, iput, iget, find_inode}
use fast_ipc.Fs.Path.{namex, namex_from, skipelem, skip_slashes}
use fast_ipc.Spinlock.{Cpu, SpinLock, initlock}
use fast_ipc.Proc.{
  ProcState, Proc, unused, sleeping, runnable, running, zombie, no_proc, proc_at, is_proc, kill,
  find_unused, wakeup,
}
use fast_ipc.Proc.Life.{
  Sys, allocproc, set_up_proc, claimed, proc_pagetable, first_user, address, userinit, growproc,
}
use fast_ipc.Proc.Calls.{
  exit, close_all, put_dir, close_files, fork, fork_start, fork_into, dup_files, wait, reap,
}
use fast_ipc.Proc.Run.{dispatched, scheduler, sleep}
use fast_ipc.Proc.Wakes.{wakeup_lem, IsWaiting}
use fast_ipc.Proc.Pass.{scheduler_lem, sleep_lem}
use fast_ipc.Proc.Limits.{fork_full}
use fast_ipc.Proc.Family.{free, live, ties, IsFamily}
use fast_ipc.Proc.Family.Updates.{IsSound}
use fast_ipc.Proc.Family.Boots.{IsBoot}
use fast_ipc.Proc.Family.Steps.{starts, goes_on, others, forks, Reached-IsSound}
use fast_ipc.Proc.Family.Owns.{dispatches, works, grows}
use fast_ipc.Proc.Family.Making.{no_makers, set_maker}
use fast_ipc.Proc.Family.Reports.{wait-exit}
use fast_ipc.Proc.Kills.{kill-IsFamily, kill_zero}

-- Every page from 0x80100000 on is free.

abbrev free_pages : Kmem
free_pages = record {
  mem = λ x. if ltb (x % 4096) 8 then (x / 4096 + 1) * 4096 / 256 ^ (x % 4096) % 256 else 0;
  freelist = 0x80100000;
  kernel_end = 0x80100000;
}

abbrev root_dir : Inode
root_dir = record no_inode { dev = 1; inum = 1; ref = 5; valid = true; type = 1; nlink = 1 }

abbrev sys : List Proc → Option ℕ → ℕ → Sys
sys ps root next = record {
  procs = ps;
  nextpid = next;
  initproc = root;
  kmem = free_pages;
  files = [];
  store = record {
    inodes = root_dir ∷ no_inode ∷ [];
    fs = record {
      sb = record { size = 8; ninodes = 16; inodestart = 2; bmapstart = 1 };
      blocks = λ b x. 0;
      logged = [];
    };
  };
  log = record { start = 2; size = 40; outstanding = 0; committing = false; lh = [] };
  proc_base = 0x80010000;
  trampoline = 0x80007000;
  forkret = 0x80002000;
}

abbrev process : ProcState → (pid : ℕ) → Option ℕ → Proc
process st pid parent = record no_proc { state = st; pid = pid; parent = parent; cwd = some 0 }

-- The first process waits for its child, which runs, beside an entry that is not in use.
abbrev waiting : List Proc
waiting =
    record (process sleeping 1 none) { chan = 0x80010000 }
    ∷ no_proc
    ∷ process running 2 (some 0)
    ∷ []

abbrev family : Sys
family = sys waiting (some 0) 3

waiting-IsFamily : IsFamily 0 3 (ties waiting)
waiting-IsFamily = record {
  root_lives = refl;
  parent_lives = parents;
  pid_given = given;
  free_pid = idle;
  pids_differ = differ;
}
  where
    parents :
        (i : ℕ)
        → (ties waiting i).0 ≢ free
        → i ≢ 0
        → (q : ℕ) × ((ties waiting i).1 ≡ some q) × ((ties waiting q).0 ≡ live)
    parents zero u ne = absurd (ne refl)
    parents (suc zero) u ne = absurd (u refl)
    parents (suc (suc zero)) u ne = (0, refl, refl)
    parents (suc (suc (suc i))) u ne = absurd (u refl)

    given :
        (i : ℕ) → (ties waiting i).0 ≢ free → (0 < (ties waiting i).2) × ((ties waiting i).2 < 3)
    given zero u = (omega arith, omega arith)
    given (suc zero) u = absurd (u refl)
    given (suc (suc zero)) u = (omega arith, omega arith)
    given (suc (suc (suc i))) u = absurd (u refl)

    idle : (i : ℕ) → (ties waiting i).0 ≡ free → (ties waiting i).2 ≡ 0
    idle zero u = cc
    idle (suc zero) u = refl
    idle (suc (suc zero)) u = cc
    idle (suc (suc (suc i))) u = refl

    differ :
        (i j : ℕ)
        → (ties waiting i).0 ≢ free
        → (ties waiting j).0 ≢ free
        → (ties waiting i).2 ≡ (ties waiting j).2
        → i ≡ j
    differ zero zero u v e = refl
    differ zero (suc zero) u v e = absurd (v refl)
    differ zero (suc (suc zero)) u v e = absurd (omega (arith, e))
    differ zero (suc (suc (suc j))) u v e = absurd (v refl)
    differ (suc zero) j u v e = absurd (u refl)
    differ (suc (suc zero)) zero u v e = absurd (omega (arith, e))
    differ (suc (suc zero)) (suc zero) u v e = absurd (v refl)
    differ (suc (suc zero)) (suc (suc zero)) u v e = refl
    differ (suc (suc zero)) (suc (suc (suc j))) u v e = absurd (v refl)
    differ (suc (suc (suc i))) j u v e = absurd (u refl)

-- The process 1 sleeps.
kill-IsFamily_example :
    let ps' = (kill 1 waiting).1 in
    ((kill 1 waiting).0 ≡ true)
    × ((proc_at ps' 0).killed ≡ 1)
    × ((proc_at waiting 0).state ≡ sleeping → (proc_at ps' 0).state ≡ runnable)
    × ((proc_at waiting 0).state ≢ sleeping → (proc_at ps' 0).state ≡ (proc_at waiting 0).state)
    × (record (proc_at ps' 0) {
      killed = (proc_at waiting 0).killed;
      state = (proc_at waiting 0).state;
    }
        ≡ proc_at waiting 0)
    × ((j : ℕ) → j ≢ 0 → proc_at ps' j ≡ proc_at waiting j)
kill-IsFamily_example = kill-IsFamily 0 3 1 0 waiting waiting-IsFamily (λ e. cc) refl

kill_zero_example :
    (j : ℕ) × ((proc_at family.procs j).state ≡ unused)
    × ((kill 0 family.procs).0 ≡ true)
    × ((s' : Sys)
        → allocproc (record family { procs = (kill 0 family.procs).1 }) ≡ ok (some j, s')
        → (proc_at s'.procs j).killed ≡ 1)
unfolding find_unused
kill_zero_example = kill_zero 0 3 1 family waiting-IsFamily refl

is_ok {ℓ} : {X : Type ℓ} → Outcome X → Bool
is_ok (ok s) = true
is_ok panic = false
is_ok fault = false

abbrev value_or {ℓ} : {X : Type ℓ} → X → Outcome X → X
value_or d (ok x) = x
value_or d panic = d
value_or d fault = d

is_ok-eq {ℓ} : {X : Type ℓ} (d : X) (run : Outcome X) → is_ok run ≡ true → run ≡ ok (value_or d run)
unfolding is_ok
is_ok-eq d (ok x) e = refl
is_ok-eq d panic e = cc
is_ok-eq d fault e = cc

abbrev boot : Sys
boot = sys (no_proc ∷ no_proc ∷ []) none 1

boots : is_ok (userinit 0x80003000 boot) ≡ true
unfolding is_ok userinit allocproc find_unused set_up_proc claimed proc_pagetable first_user
    uvmcreate uvminit kalloc mappages map_from walk walk_from descend memset memset_from load64
    load_le store64 store_le byte_of store8 memmove namex namex_from skipelem skip_slashes iget
    find_inode
boots = refl

booted : IsBoot boot
booted = record { first_pid = refl; all_unused = idle; no_parents = orphans; no_pids = zeros }
  where
    idle : (j : ℕ) → (proc_at boot.procs j).state ≡ unused
    idle zero = refl
    idle (suc zero) = refl
    idle (suc (suc j)) = refl

    orphans : (j : ℕ) → (proc_at boot.procs j).parent ≡ none
    orphans zero = refl
    orphans (suc zero) = refl
    orphans (suc (suc j)) = refl

    zeros : (j : ℕ) → (proc_at boot.procs j).pid ≡ 0
    zeros zero = refl
    zeros (suc zero) = refl
    zeros (suc (suc j)) = refl

abbrev first : Sys
first = value_or boot (userinit 0x80003000 boot)

-- The first process is dispatched, and starts a `fork`.
abbrev runs : Sys
runs = dispatched first 0

-- A memory all of whose words are entries of one page table for one page.
abbrev mirrored : Kmem
mirrored = record free_pages { mem = λ x. 0x2008001f / 256 ^ (x % 8) % 256 }

-- The first process gives up its memory, and what the kernel does meanwhile leaves other memory free.
abbrev mirroring : Sys
mirroring = record runs { kmem = mirrored }

abbrev shrunk : Bool × Sys
shrunk = value_or (true, boot) (growproc 0 0xfffff000 mirroring)

shrinks : is_ok (growproc 0 0xfffff000 mirroring) ≡ true
unfolding is_ok growproc dispatched userinit allocproc find_unused set_up_proc claimed
    proc_pagetable first_user uvmcreate uvminit kalloc mappages map_from walk walk_from descend
    memset memset_from load64 load_le store64 store_le byte_of store8 memmove namex namex_from
    skipelem skip_slashes iget find_inode uvmdealloc uvmunmap unmap_from unmap_page kfree
shrinks = refl

abbrev roomy : Sys
roomy = record (shrunk.1) { kmem = free_pages }

abbrev started : ℕ × ℕ × Sys
started = value_or (0, 0, boot) (fork_start 0 roomy)

starts_fork : is_ok (fork_start 0 roomy) ≡ true
unfolding is_ok growproc dispatched userinit allocproc find_unused set_up_proc claimed
    proc_pagetable first_user uvmcreate uvminit kalloc mappages map_from walk walk_from descend
    memset memset_from load64 load_le store64 store_le byte_of store8 memmove namex namex_from
    skipelem skip_slashes iget find_inode uvmdealloc uvmunmap unmap_from unmap_page kfree fork_start
    fork_into uvmcopy copy_pages dup_files
starts_fork = refl

first_ready : (proc_at first.procs 0).state ≡ runnable
unfolding dispatched userinit allocproc find_unused set_up_proc claimed proc_pagetable first_user
    uvmcreate uvminit kalloc mappages map_from walk walk_from descend memset memset_from load64
    load_le store64 store_le byte_of store8 memmove namex namex_from skipelem skip_slashes iget
    find_inode
first_ready = refl

first_runs : (proc_at runs.procs 0).state ≡ running
unfolding dispatched userinit allocproc find_unused set_up_proc claimed proc_pagetable first_user
    uvmcreate uvminit kalloc mappages map_from walk walk_from descend memset memset_from load64
    load_le store64 store_le byte_of store8 memmove namex namex_from skipelem skip_slashes iget
    find_inode
first_runs = refl

still_runs : ((proc_at roomy.procs 0).state ≡ running) × (roomy.nextpid ≡ 2)
unfolding dispatched userinit allocproc find_unused set_up_proc claimed proc_pagetable first_user
    uvmcreate uvminit kalloc mappages map_from walk walk_from descend memset memset_from load64
    load_le store64 store_le byte_of store8 memmove namex namex_from skipelem skip_slashes iget
    find_inode growproc uvmdealloc uvmunmap unmap_from unmap_page kfree
still_runs = (refl, refl)

few_pids : roomy.nextpid + 1 < 2 ^ 31
few_pids = subst (λ n. n + 1 < 2 ^ 31) (sym still_runs.1) (omega arith)

-- A `fork` of the first process has made its child, whose parent it has not set.
Reached-IsSound_example : IsSound (set_maker no_makers started.0 (some 0)) started.2
Reached-IsSound_example = Reached-IsSound booted (
    goes_on
      (goes_on
        (goes_on
          (goes_on
            (goes_on (starts 0x80003000 (is_ok-eq boot (userinit 0x80003000 boot) boots))
              (others (dispatches 0 first_ready)))
            (others (works mirrored runs.files runs.store runs.log)))
          (others (
            grows 0 0xfffff000 shrunk.0 first_runs
              (is_ok-eq (true, boot) (growproc 0 0xfffff000 mirroring) shrinks))))
        (others (works free_pages (shrunk.1).files (shrunk.1).store (shrunk.1).log)))
      (forks 0 started.0 started.1 still_runs.0 (λ i e. cc) few_pids
        (is_ok-eq (0, 0, boot) (fork_start 0 roomy) starts_fork)))

-- The child exits.
abbrev state_of : Outcome (List Release × Option Bool × Sys) → Sys
state_of (ok (rs, c, s)) = s
state_of panic = family
state_of fault = family

abbrev after_exit : Sys
after_exit = state_of (exit 2 7 family)

exits : exit 2 7 family ≡ ok ([], some true, after_exit)
unfolding exit close_all close_files put_dir begin_op end_op iput
exits = refl

wait-exit_example :
    (IsWaiting (address family 0) (proc_at family.procs 0)
      → (proc_at after_exit.procs 0).state ≡ runnable)
    × ((i : ℕ) × ((proc_at after_exit.procs i).state ≡ zombie)
        × (is_proc (proc_at after_exit.procs i).parent 0 ≡ true)
        × ((addr : ℕ) → wait 0 addr after_exit ≡ reap 0 i addr after_exit))
wait-exit_example = wait-exit 2 7 0 0 family exits refl refl refl (λ e. omega (arith, e))

wakeup_lem_example :
    (is_proc (some 2) 0 ≡ false
      → (proc_at waiting 0).state ≡ sleeping
      → (proc_at waiting 0).chan ≡ 0x80010000
      → proc_at (wakeup (some 2) 0x80010000 waiting) 0
        ≡ record (proc_at waiting 0) { state = runnable })
    × (is_proc (some 2) 0 ≡ true
          ⊎ ((proc_at waiting 0).state ≢ sleeping ⊎ (proc_at waiting 0).chan ≢ 0x80010000)
        → proc_at (wakeup (some 2) 0x80010000 waiting) 0 ≡ proc_at waiting 0)
wakeup_lem_example = wakeup_lem (some 2) 0x80010000 waiting 0

-- Two are ready, and each runs until it gives way at once.
abbrev ready : Sys
ready = sys (process runnable 1 none ∷ no_proc ∷ process runnable 2 (some 0) ∷ []) (some 0) 3

scheduler_lem_example : count 2 (scheduler (λ i s. s) ready).0 ≡ 1
scheduler_lem_example = scheduler_lem (λ i s. s) ready 2 (λ i s k ne r. r) refl

abbrev cpu : Cpu
cpu = record { id = 1; noff = 1; intena = true; enabled = false }

abbrev held_lock : SpinLock
held_lock = record { locked = true; cpu = some 1 }

sleep_lem_example :
    (cpu.noff ≡ 1
      → (c1 : Cpu) × (c1.noff ≡ 1)
        × (c1.enabled ≡ false)
        × (c1.id ≡ 1)
        × (sleep initlock held_lock (λ c. c) cpu ≡ ok (some (record c1 { intena = true }))))
    × (cpu.noff ≢ 1 → sleep initlock held_lock (λ c. c) cpu ≡ panic)
sleep_lem_example = sleep_lem initlock held_lock (λ c. c) cpu refl refl (omega arith) (omega arith)

abbrev full : Sys
full = sys (process running 1 none ∷ process zombie 2 (some 0) ∷ []) (some 0) 3

fork_full_example : fork 0 full ≡ panic
fork_full_example = fork_full 0 full all_used
  where
    all_used : (j : ℕ) → j < length full.procs → (proc_at full.procs j).state ≢ unused
    all_used zero lt = λ e. cc
    all_used (suc zero) lt = λ e. cc
    all_used (suc (suc j)) lt = absurd (omega arith)

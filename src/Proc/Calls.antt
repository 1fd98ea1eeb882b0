-- ===== src/Proc/Calls.antt =====
-- The calls by which processes multiply and end, kernel/proc.c: `fork`, `exit` and `wait`, with all
-- that they call.
use fast_ipc.Base.{
  ℕ, ◌+◌, Bool, true, false, not, ◌||◌, ◌==◌, if◌then◌else◌, List, [], ◌∷◌, Option, none, some,
  length, set, Outcome, ok, panic, fault, ◌>>=◌, inl, inr,
}
use fast_ipc.Memory.{Mem, store64, memmove}
use fast_ipc.Text.{safestrcpy}
use fast_ipc.Kalloc.{Kmem}
use fast_ipc.Vm.Grow.{uvmcopy}
use fast_ipc.Vm.Copy.{copyout}
use fast_ipc.File.{File, Release, filedup, fileclose}
use fast_ipc.Fs.Icache.{Store, idup, iput}
use fast_ipc.Log.{begin_op, end_op}
use fast_ipc.Proc.{
  Proc, runnable, zombie, proc_at, is_proc, wakeup, reparent_from, fall_asleep, scan_children,
}
use fast_ipc.Proc.Life.{Sys, address, chan_of, put_proc, xstate_at, set_xstate, freeproc, allocproc}

-- The loop of `fork` over the open files, `from` those of the parent.
unfoldable pub dup_files :
    (from to : List (Option ℕ)) → List File → Outcome (List (Option ℕ) × List File)
dup_files [] to fs = ok (to, fs)
dup_files (f ∷ from) [] fs = ok ([], fs)
dup_files (none ∷ from) (g ∷ to) fs = dup_files from to fs >>= λ r. ok (g ∷ r.0, r.1)
dup_files (some f ∷ from) (g ∷ to) fs =
    filedup fs f >>= λ fs1. dup_files from to fs1 >>= λ r. ok (some f ∷ r.0, r.1)

abbrev pub dup_dir : Option ℕ → Store → Outcome Store
dup_dir none s = fault
dup_dir (some ip) s = ok (record s { inodes = idup s.inodes ip })

-- `*(np->trapframe) = *(p->trapframe); np->trapframe->a0 = 0;`
abbrev pub copy_trapframe : Mem → (to from : ℕ) → Mem
copy_trapframe m to from = store64 (memmove m to from 288) (to + 112) 0

-- The child, as `fork` leaves it where it first releases its lock: without a parent.
unfoldable pub child_of : (p np : Proc) → (ofile : List (Option ℕ)) → Proc
child_of p np ofile = record np {
  sz = p.sz;
  ofile = ofile;
  cwd = p.cwd;
  name = safestrcpy np.name p.name 16;
}

-- From the copy of the memory on up to the first `release(&np->lock)`, into the entry at `i`.
unfoldable pub fork_into : (me i : ℕ) → Sys → Outcome (ℕ × Sys)
fork_into me i s =
    let p = proc_at s.procs me in
    let np = proc_at s.procs i in
    uvmcopy p.pagetable np.pagetable p.sz s.kmem >>= λ r.
    if not r.0
    then panic
    else dup_files p.ofile np.ofile s.files >>= λ fs. dup_dir p.cwd s.store >>= λ store. ok (
      np.pid,
      record s {
        kmem = record (r.1) { mem = copy_trapframe r.1.mem np.trapframe p.trapframe };
        files = fs.1;
        store = store;
        procs = set s.procs i (child_of p np fs.0);
      },
    )

-- `fork` up to its first `release(&np->lock)`: the child's entry, its pid and the state. Both errors
-- panic, before the code that would return -1.
unfoldable pub fork_start : (me : ℕ) → Sys → Outcome (ℕ × ℕ × Sys)
fork_start me s = allocproc s >>= λ r. elim r.0 [
  | none ↦ panic
  | some i ↦ fork_into me i r.1 >>= λ c. ok (i, c.0, c.1)
]

-- `np->parent = p`, under `wait_lock`.
unfoldable pub link_child : (me i : ℕ) → Sys → Sys
link_child me i s = put_proc s i (record (proc_at s.procs i) { parent = some me })

-- `np->state = RUNNABLE`, under the child's lock.
unfoldable pub make_ready : (i : ℕ) → Sys → Sys
make_ready i s = put_proc s i (record (proc_at s.procs i) { state = runnable })

-- `fork`, where nothing else runs between its parts.
unfoldable pub fork : (me : ℕ) → Sys → Outcome (ℕ × Sys)
fork me s = fork_start me s >>= λ r. ok (r.1, make_ready r.0 (link_child me r.0 r.2))

-- The loop of `exit` over the open files: what each `fileclose` leaves to do.
unfoldable pub close_files :
    List (Option ℕ) → List File → Outcome (List Release × List (Option ℕ) × List File)
close_files [] fs = ok ([], [], fs)
close_files (none ∷ ofile) fs = close_files ofile fs >>= λ r. ok (r.0, none ∷ r.1, r.2)
close_files (some f ∷ ofile) fs =
    fileclose fs f >>= λ c. close_files ofile c.1 >>= λ r. ok (c.0 ∷ r.0, none ∷ r.1, r.2)

-- `exit` from `acquire(&wait_lock)` on, up to `sched`.
unfoldable pub leave : (me status : ℕ) → Sys → Sys
leave me status s =
    let ps = reparent_from s.initproc (chan_of s s.initproc) me (length s.procs) 0 s.procs in
    let ps1 = wakeup (some me) (chan_of s (proc_at ps me).parent) ps in
    record s {
      procs = set ps1 me (record (proc_at ps1 me) { state = zombie });
      kmem = set_xstate s me status;
    }

-- `begin_op(); iput(p->cwd); end_op(); p->cwd = 0;`: `none` where `begin_op` sleeps, and else whether
-- `end_op` commits.
unfoldable pub put_dir : (me : ℕ) → Sys → Outcome (Option (Bool × Sys))
put_dir me s =
    let p = proc_at s.procs me in
    elim (begin_op s.log) [
      | none ↦ ok none
      | some log ↦ elim p.cwd [
        | none ↦ fault
        | some ip ↦ iput s.store ip >>= λ store. end_op log >>= λ r. ok (
            some (
              r.0,
              record s {
                log = r.1;
                store = store;
                procs = set s.procs me (record p { cwd = none });
              },
            ))
      ]
    ]

-- `exit` up to the transaction.
unfoldable pub close_all : (me : ℕ) → Sys → Outcome (List Release × Sys)
close_all me s =
    let p = proc_at s.procs me in
    if is_proc s.initproc me
    then panic
    else close_files p.ofile s.files >>= λ r.
        ok (r.0, record s { files = r.2; procs = set s.procs me (record p { ofile = r.1 }) })

-- `exit`, with what the closes of files leave to do, and what the transaction says; `none`, with the
-- files closed, where `begin_op` sleeps.
unfoldable pub exit : (me status : ℕ) → Sys → Outcome (List Release × Option Bool × Sys)
exit me status s = close_all me s >>= λ c. put_dir me c.1 >>= λ d. elim d [
  | none ↦ ok (c.0, none, c.1)
  | some r ↦ ok (c.0, some r.0, leave me status r.1)
]

-- What one round of `wait` does: it returns a pid, or -1, or sleeps.
pub data Waited : Type 0 where
  child : (pid : ℕ) → Waited
  failed asleep : Waited

-- `addr != 0 && copyout(...) < 0`, the other way round.
abbrev pub report : (me i addr : ℕ) → Sys → Outcome (Bool × Kmem)
report me i addr s =
    if addr == 0
    then ok (true, s.kmem)
    else copyout (proc_at s.procs me).pagetable addr (xstate_at s i) 4 s.kmem

-- The zombie at `i` is reported and freed.
unfoldable pub reap : (me i addr : ℕ) → Sys → Outcome (Waited × Sys)
reap me i addr s = report me i addr s >>= λ r.
    let s1 = record s { kmem = r.1 } in
    if r.0
    then (freeproc s1 i >>= λ s2. ok (child (proc_at s.procs i).pid, s2))
    else ok (failed, s1)

unfoldable pub wait : (me addr : ℕ) → Sys → Outcome (Waited × Sys)
wait me addr s = elim (scan_children me 0 false s.procs) [
  | inl i ↦ reap me i addr s
  | inr havekids ↦
      if not havekids || not ((proc_at s.procs me).killed == 0)
      then ok (failed, s)
      else ok (asleep, record s { procs = fall_asleep me (address s me) s.procs })
]

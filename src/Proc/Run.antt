-- ===== src/Proc/Run.antt =====
-- How processes take turns, kernel/proc.c: the scheduler, the way into it by `sched`, `yield` and
-- `sleep`, and the copies that a process makes to or from its own memory or the kernel's. `swtch` is
-- assembly: what runs between a switch and the switch back is an argument.
use fast_ipc.Base.{
  ℕ, zero, suc, ◌+◌, Bool, true, not, ◌==◌, if◌then◌else◌, List, [], ◌∷◌, Option, none, some, set,
  length, Outcome, ok, panic, ◌>>=◌,
}
use fast_ipc.Memory.{memmove}
use fast_ipc.Vm.Copy.{copyout, copyin}
use fast_ipc.Spinlock.{Cpu, SpinLock, holding, acquire, release}
use fast_ipc.Proc.{
  ProcState, Proc, unused, used, sleeping, runnable, running, zombie, proc_at, is_runnable,
  is_unused, is_running,
}
use fast_ipc.Proc.Life.{Sys}

-- `p->state = RUNNING`
unfoldable pub dispatched : Sys → (i : ℕ) → Sys
dispatched s i = record s { procs = set s.procs i (record (proc_at s.procs i) { state = running }) }

-- `p->state = RUNNABLE`, with which a process gives way in `yield`.
unfoldable pub gave_way : Sys → (me : ℕ) → Sys
gave_way s me = record s {
  procs = set s.procs me (record (proc_at s.procs me) { state = runnable });
}

-- The inner loop of `scheduler` from index `i` on, with `left` entries to go: the processes that it
-- switched to, in order. `run` is what happens from the switch to a process until it switches back.
unfoldable pub sched_from : (run : ℕ → Sys → Sys) → (left i : ℕ) → Sys → List ℕ × Sys
sched_from run zero i s = ([], s)
sched_from run (suc left) i s =
    let after = sched_from run left (i + 1) (run i (dispatched s i)) in
    let past = sched_from run left (i + 1) s in
    if is_runnable (proc_at s.procs i).state then (i ∷ after.0, after.1) else past

-- One round of the outer loop, over the whole table.
unfoldable pub scheduler : (run : ℕ → Sys → Sys) → Sys → List ℕ × Sys
scheduler run s = sched_from run (length s.procs) 0 s

-- `sched` of a process that is in `state`: the processor after the switch back, which leaves the
-- processor as `swtch` says.
unfoldable pub sched : (lock : SpinLock) → ProcState → (swtch : Cpu → Cpu) → Cpu → Outcome Cpu
sched lock state swtch c =
    if not (holding lock c)
    then panic
    else if not (c.noff == 1)
    then panic
    else if is_running state
    then panic
    else if c.enabled
    then panic
    else ok (record (swtch c) { intena = c.intena })

-- What follows an `acquire`: nothing yet where the processor goes on spinning.
abbrev pub taken : Option SpinLock × Cpu → (SpinLock → Cpu → Outcome Cpu) → Outcome (Option Cpu)
taken r next = elim r.0 [ none ↦ ok none | some held ↦ next held r.1 >>= λ c. ok (some c) ]

-- `yield` up to the switch back, by a process whose own lock is `lock`.
unfoldable pub yield : (lock : SpinLock) → (swtch : Cpu → Cpu) → Cpu → Outcome (Option Cpu)
yield lock swtch c = acquire lock c >>= λ r. taken r (λ held. sched held runnable swtch)

-- `release(lk)` and the rest of `sleep`, up to the switch back.
abbrev pub sleep_holding : (held lk : SpinLock) → (swtch : Cpu → Cpu) → Cpu → Outcome Cpu
sleep_holding held lk swtch c = release lk c >>= λ r. sched held sleeping swtch r.1

unfoldable pub sleep : (lock lk : SpinLock) → (swtch : Cpu → Cpu) → Cpu → Outcome (Option Cpu)
sleep lock lk swtch c = acquire lock c >>= λ r. taken r (λ held. sleep_holding held lk swtch)

-- `either_copyout` and `either_copyin` by the process `me`: `false` for -1.
pub either_copyout : (me : ℕ) → (user_dst : Bool) → (dst src len : ℕ) → Sys → Outcome (Bool × Sys)
either_copyout me user_dst dst src len s =
    if user_dst
    then (copyout (proc_at s.procs me).pagetable dst src len s.kmem >>= λ r.
        ok (r.0, record s { kmem = r.1 }))
    else ok (true, record s { kmem = record (s.kmem) { mem = memmove s.kmem.mem dst src len } })

pub either_copyin :
    (me : ℕ) → (dst : ℕ) → (user_src : Bool) → (src len : ℕ) → Sys → Outcome (Bool × Sys)
either_copyin me dst user_src src len s =
    if user_src
    then (copyin (proc_at s.procs me).pagetable dst src len s.kmem >>= λ r.
        ok (r.0, record s { kmem = r.1 }))
    else ok (true, record s { kmem = record (s.kmem) { mem = memmove s.kmem.mem dst src len } })

-- The words of `procdump`; there is none for `USED`.
pub data Shown : Type 0 where
  unused_ sleep_ runble run_ zombie_ unknown : Shown

abbrev pub shown : ProcState → Shown
shown st = elim st [
  | unused ↦ unused_
  | used ↦ unknown
  | sleeping ↦ sleep_
  | runnable ↦ runble
  | running ↦ run_
  | zombie ↦ zombie_
]

-- `procdump`: a line for each entry in use.
pub procdump : List Proc → List (ℕ × Shown × List ℕ)
procdump [] = []
procdump (p ∷ ps) =
    let rest = procdump ps in
    if is_unused p.state then rest else (p.pid, shown p.state, p.name) ∷ rest

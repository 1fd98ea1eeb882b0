-- ===== src/Proc/Pass.antt =====
-- A pass of the scheduler of kernel/proc.c over the table, and the ways into it.
use fast_ipc.Base.{
  ℕ, zero, suc, ◌+◌, ◌-◌, ◌<◌, ◌≤◌, ◌^◌, ◌≡◌, ◌≢◌, inl, inr, refl, sym, ap, ◌∙◌, arith, true, false,
  ◌==◌, List, [], ◌∷◌, some, length, get_or-set_ne, is_negative, to_int, ltb, ◌||◌, Bool-cases, ok,
  panic, ◌>>=◌,
}
use fast_ipc.File.Counts.{count}
use fast_ipc.Spinlock.{Cpu, SpinLock, initlock, holding, acquire, release, push_off, pop_off}
use fast_ipc.Proc.{
  ProcState, Proc, unused, sleeping, runnable, running, no_proc, proc_at, is_runnable,
}
use fast_ipc.Proc.Life.{Sys}
use fast_ipc.Proc.Run.{dispatched, sched_from, scheduler, sched, sleep}

is_runnable-eq : (st : ProcState) → st ≡ runnable → is_runnable st ≡ true
is_runnable-eq st e = rw e refl

runnable_in_table : (ps : List Proc) (j : ℕ) → (proc_at ps j).state ≡ runnable → j < length ps
runnable_in_table [] j e = absurd (let h : unused ≡ runnable = e in cc)
runnable_in_table (p ∷ ps) zero e = omega arith
runnable_in_table (p ∷ ps) (suc j) e = omega (arith, runnable_in_table ps j e)

not_same : {a b : ℕ} → a ≡ b → (a == b) ≡ false → ⊥
not_same e d = ground arith

module _ (run : ℕ → Sys → Sys) where
  -- The rest of a pass never comes back to an entry.
  count-past : (left i j : ℕ) (s : Sys) → j < i → count j (sched_from run left i s).0 ≡ 0
  unfolding sched_from
  count-past zero i j s lt = refl
  count-past (suc left) i j s lt =
      let later = count-past left (i + 1) j (run i (dispatched s i)) (omega arith) in
      let past = count-past left (i + 1) j s (omega arith) in
      let differs : (j == i) ≡ false = ground arith in
      elim (Bool-cases (is_runnable (proc_at s.procs i).state)) [
        | inl t ↦ rw (t, differs) later
        | inr f ↦ rw f past
      ]

module _ (run : ℕ → Sys → Sys)
    (keeps : (i : ℕ) (s : Sys) (j : ℕ)
      → j ≢ i
      → (proc_at s.procs j).state ≡ runnable
      → (proc_at (run i s).procs j).state ≡ runnable) where
  stays :
      (i j : ℕ) (s : Sys)
      → j ≢ i
      → (proc_at s.procs j).state ≡ runnable
      → (proc_at (run i (dispatched s i)).procs j).state ≡ runnable
  unfolding dispatched
  stays i j s ne r = keeps i (dispatched s i) j ne (
      ap (λ (p : Proc). p.state)
        (get_or-set_ne s.procs i j (record (proc_at s.procs i) { state = running }) no_proc
          (λ e. ne (sym e)))
      ∙ r)

  count-sched_from :
      (left i j : ℕ) (s : Sys)
      → i ≤ j
      → j < i + left
      → (proc_at s.procs j).state ≡ runnable
      → count j (sched_from run left i s).0 ≡ 1
  unfolding sched_from
  count-sched_from zero i j s le lt r = absurd (omega arith)
  count-sched_from (suc left) i j s le lt r = elim (Bool-cases (j == i)) [
    | inl same ↦
        let e : j ≡ i = ground arith in
        let t : is_runnable (proc_at s.procs i).state ≡ true = is_runnable-eq _ (rw e at r) in
        rw (t, same) (ap suc (count-past run left (i + 1) j (run i (dispatched s i)) (omega arith)))
    | inr differs ↦
        let ne : j ≢ i = λ e. not_same e differs in
        let later =
          count-sched_from left (i + 1) j (run i (dispatched s i)) (ground arith) (omega arith)
            (stays i j s ne r) in
        let past = count-sched_from left (i + 1) j s (ground arith) (omega arith) r in
        elim (Bool-cases (is_runnable (proc_at s.procs i).state)) [
          | inl t ↦ rw (t, differs) later
          | inr f ↦ rw f past
        ]
  ]

-- Where no process that is not running itself makes a runnable one anything else, a pass of the
-- scheduler switches exactly once to each process that is runnable when the pass begins.
pub scheduler_lem :
    (run : ℕ → Sys → Sys) (s : Sys) (j : ℕ)
    → ((i : ℕ) (s1 : Sys) (k : ℕ)
        → k ≢ i
        → (proc_at s1.procs k).state ≡ runnable
        → (proc_at (run i s1).procs k).state ≡ runnable)
    → (proc_at s.procs j).state ≡ runnable
    → count j (scheduler run s).0 ≡ 1
unfolding scheduler
scheduler_lem run s j keeps r =
    count-sched_from run keeps (length s.procs) 0 j s (omega arith)
      (omega (arith, runnable_in_table s.procs j r)) r

-- What `acquire` of a free lock and `release` of a held one make of the processor, within a section.
abbrev own : Cpu → SpinLock
own c = record { locked = true; cpu = some c.id }

acquire-free :
    (lock : SpinLock) (c : Cpu)
    → lock.locked ≡ false
    → acquire lock c ≡ ok (some (own c), push_off c)
unfolding acquire push_off
acquire-free lock c free = rw free refl

push_off_lem :
    (c : Cpu)
    → 0 < c.noff
    → c.noff < 2 ^ 31 - 1
    → ((push_off c).noff ≡ c.noff + 1)
      × ((push_off c).intena ≡ c.intena)
      × ((push_off c).enabled ≡ false)
unfolding push_off
push_off_lem c pos few = (ground arith, ground arith, refl)

release-held :
    (lk : SpinLock) (c : Cpu)
    → holding lk c ≡ true
    → c.enabled ≡ false
    → 1 < c.noff
    → c.noff < 2 ^ 31
    → release lk c ≡ ok (initlock, record c { noff = c.noff - 1; enabled = false })
unfolding release pop_off
release-held lk c held off pos few =
    let some_left : (is_negative c.noff || ltb c.noff 1) ≡ false = ground arith in
    let left : to_int (c.noff + 2 ^ 32 - 1) ≡ c.noff - 1 = ground arith in
    let more : ((c.noff - 1) == 0) ≡ false = ground arith in
    rw (held, off, some_left, left, more) refl

sched-cases :
    (lock : SpinLock) (st : ProcState) (swtch : Cpu → Cpu) (c : Cpu)
    → holding lock c ≡ true
    → c.enabled ≡ false
    → st ≢ running
    → (c.noff ≡ 1 → sched lock st swtch c ≡ ok (record (swtch c) { intena = c.intena }))
      × (c.noff ≢ 1 → sched lock st swtch c ≡ panic)
unfolding sched
sched-cases lock st swtch c held off ne =
    (λ one. rw (held, off) (ground arith), λ more. rw held (ground arith))

-- The processor as it enters `sched`.
abbrev entering : Cpu → Cpu
entering c = record (push_off c) { noff = (push_off c).noff - 1; enabled = false }

holding-push_off : (lk : SpinLock) (c : Cpu) → holding lk c ≡ true → holding lk (push_off c) ≡ true
unfolding push_off
holding-push_off lk c held = held

holding-own : (c : Cpu) → holding (own c) (entering c) ≡ true
unfolding push_off
holding-own c = ground arith

push_off-id : (c : Cpu) → (push_off c).id ≡ c.id
unfolding push_off
push_off-id c = refl

sleep-sched :
    (lock lk : SpinLock) (swtch : Cpu → Cpu) (c : Cpu)
    → lock.locked ≡ false
    → holding lk c ≡ true
    → 0 < c.noff
    → c.noff < 2 ^ 31 - 1
    → sleep lock lk swtch c ≡ (sched (own c) sleeping swtch (entering c) >>= λ c1. ok (some c1))
unfolding sleep
sleep-sched lock lk swtch c free held pos few =
    let (n, _, off) = push_off_lem c pos few in
    rw
      (
        acquire-free lock c free,
        release-held lk (push_off c) (holding-push_off lk c held) off (omega (arith, n))
            (omega (arith, n)),
      )
      refl

-- A process that sleeps while `lk` is the only lock that it holds gets to the switch, with interrupts
-- disabled and no lock but its own, and one that holds a further lock panics instead.
pub sleep_lem :
    (lock lk : SpinLock) (swtch : Cpu → Cpu) (c : Cpu)
    → lock.locked ≡ false
    → holding lk c ≡ true
    → 0 < c.noff
    → c.noff < 2 ^ 31 - 1
    → (c.noff ≡ 1
        → (c1 : Cpu) × (c1.noff ≡ 1)
          × (c1.enabled ≡ false)
          × (c1.id ≡ c.id)
          × (sleep lock lk swtch c ≡ ok (some (record (swtch c1) { intena = c.intena }))))
      × (c.noff ≢ 1 → sleep lock lk swtch c ≡ panic)
sleep_lem lock lk swtch c free held pos few =
    let (n, i, off) = push_off_lem c pos few in
    let (gets, stops) =
      sched-cases (own c) sleeping swtch (entering c) (holding-own c) refl (λ e. cc) in
    (
      λ one. (
        entering c,
        omega (arith, n, one),
        refl,
        push_off-id c,
        sleep-sched lock lk swtch c free held pos few
            ∙ ap (λ r. r >>= λ c1. ok (some c1)) (gets (omega (arith, n, one)))
            ∙ ap (λ b. ok (some (record (swtch (entering c)) { intena = b }))) i,
      ),
      λ more.
          sleep-sched lock lk swtch c free held pos few
          ∙ ap (λ r. r >>= λ c1. ok (some c1)) (stops (λ e. more (omega (arith, n, e)))),
    )

-- ===== src/Spinlock.antt =====
-- Spin locks and the nesting of disabled interrupts, kernel/spinlock.c. A hart runs the calls; what
-- others do to the lock meanwhile is a change of its argument.
pub mod Nesting
mod Tests
use fast_ipc.Base.{
  ℕ, ◌+◌, ◌-◌, ◌%◌, ◌^◌, Option, none, some, Bool, true, false, not, ◌&&◌, ◌||◌, ltb, ◌==◌,
  if◌then◌else◌, Outcome, ok, panic, ◌>>=◌, to_int, is_negative,
}

-- `struct cpu`, without the process it runs, with its number and whether interrupts are enabled
pub record Cpu : Type 0 where
  pub id : ℕ
  pub noff : ℕ
  pub intena : Bool
  pub enabled : Bool

-- `struct spinlock`, without the name; no hart is the null pointer
pub record SpinLock : Type 0 where
  pub locked : Bool
  pub cpu : Option ℕ

abbrev pub initlock : SpinLock
initlock = record { locked = false; cpu = none }

unfoldable pub push_off : Cpu → Cpu
push_off c = record c {
  enabled = false;
  intena = if c.noff == 0 then c.enabled else c.intena;
  noff = to_int (c.noff + 1);
}

unfoldable pub pop_off : Cpu → Outcome Cpu
pop_off c =
    let left = to_int (c.noff + 2 ^ 32 - 1) in
    if c.enabled
    then panic
    else if is_negative c.noff || ltb c.noff 1
    then panic
    else ok (record c { noff = left; enabled = left == 0 && c.intena })

abbrev pub is_hart : Option ℕ → ℕ → Bool
is_hart none i = false
is_hart (some j) i = j == i

abbrev pub holding : SpinLock → Cpu → Bool
holding lk c = lk.locked && is_hart lk.cpu c.id

-- `acquire` up to one round of its loop: `none` for the lock where the hart goes on spinning.
unfoldable pub acquire : SpinLock → Cpu → Outcome (Option SpinLock × Cpu)
acquire lk c =
    let c' = push_off c in
    if holding lk c'
    then panic
    else ok (if lk.locked then none else some (record { locked = true; cpu = some c.id }), c')

unfoldable pub release : SpinLock → Cpu → Outcome (SpinLock × Cpu)
release lk c =
    if not (holding lk c)
    then panic
    else pop_off c >>= λ c'. ok (record { locked = false; cpu = none }, c')

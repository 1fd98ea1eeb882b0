-- ===== src/Sleeplock.antt =====
-- The sleep locks of kernel/sleeplock.c. The spin lock inside is held over each call, so a call is
-- one step. `wakeup`, by which `releasesleep` lets the sleepers try again, is of the scheduler.
use fast_ipc.Base.{ℕ, Option, none, some, Bool, true, false, ◌&&◌, ◌==◌, if◌then◌else◌}

-- `struct sleeplock`, without the spin lock and the name
pub record SleepLock : Type 0 where
  pub locked : Bool
  pub pid : ℕ

abbrev pub no_lock : SleepLock
no_lock = record { locked = false; pid = 0 }

-- One round of `acquiresleep` by the process `pid`: `none` where it sleeps.
unfoldable pub acquiresleep : SleepLock → (pid : ℕ) → Option SleepLock
acquiresleep lk pid = if lk.locked then none else some (record { locked = true; pid = pid })

-- `releasesleep` leaves the lock as `initsleeplock` does.
abbrev pub releasesleep : SleepLock → SleepLock
releasesleep lk = record lk { locked = false; pid = 0 }

abbrev pub holdingsleep : SleepLock → (pid : ℕ) → Bool
holdingsleep lk pid = lk.locked && lk.pid == pid

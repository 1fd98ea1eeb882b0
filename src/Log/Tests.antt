-- ===== src/Log/Tests.antt =====
-- A transaction of two blocks on a disk whose log is in the blocks 2 to 33.
use fast_ipc.Base.{
  ℕ, ◌≡◌, ◌≢◌, ◌≤◌, ◌+◌, ◌↔◌, ◌⊎◌, inr, refl, arith, [], ◌∷◌, false, length, panic, take,
  if◌then◌else◌, ◌==◌,
}
use fast_ipc.Log.{
  absorb, Block, Header, Disk, Cache, after_all, commit, recover, Log, begin_op, end_op, log_write,
}
use fast_ipc.Log.Recovery.{Begins, Holds, commit_atomic}
use fast_ipc.Log.Space.{
  System, Reach, Reach-adds, adds, begins, start, later, IsReserved, log_write_overflows,
}

abbrev old : ℕ → Block
old n = []

abbrev new : ℕ → Block
new n = if n == 40 then 1 ∷ [] else if n == 50 then 2 ∷ [] else []

abbrev changed : Header
changed = 40 ∷ 50 ∷ []

abbrev disk : Disk
disk = record { blocks = old; header = [] }

abbrev cache : Cache
cache = record { contents = new; pins = λ n. 1 }

begun : Begins 2 32 old new changed cache disk
begun = record {
  listed = (inr (omega arith), (inr (omega arith), tt));
  fits = omega arith;
  cached = λ n o. refl;
  on_disk = (refl, λ n o. refl);
  rest = λ n o. ground arith;
}

-- A stop after the fourth write, with one block installed, and another in the recovery.
commit_atomic_example :
    let d1 = after_all disk (take 4 (commit 2 changed cache).0) in
    let d2 = after_all d1 (take 1 (recover 2 d1)) in
    let d3 = after_all d2 (recover 2 d2) in Holds 2 32 old d3 ⊎ Holds 2 32 new d3
commit_atomic_example = commit_atomic 2 32 old new changed cache disk 4 1 begun

-- A log of `LOGSIZE` blocks, as the file system image has.
abbrev quiet : Log
quiet = record { start = 2; size = 30; outstanding = 0; committing = false; lh = [] }

-- The log when nothing runs.
abbrev at_rest : System
at_rest = record { log = quiet; running = [] }

at_rest-IsReserved : IsReserved at_rest
at_rest-IsReserved = record {
  counted = refl;
  few = tt;
  room = omega arith;
  at_most = omega arith;
  alone = λ q. refl;
}

three_begin :
    Reach at_rest (record { log = record quiet { outstanding = 3 }; running = 10 ∷ 10 ∷ 10 ∷ [] })
unfolding begin_op
three_begin = later (later (later start (begins refl)) (begins refl)) (begins refl)

-- Two of the operations write ten blocks, and the third nine.
abbrev full : Log
full = adds (adds (adds (record quiet { outstanding = 3 }) 40 10) 50 10) 60 9

full_reached : Reach at_rest (record { log = full; running = 0 ∷ 0 ∷ 1 ∷ [] })
unfolding absorb
full_reached =
    Reach-adds (0 ∷ 0 ∷ []) [] 10 1 9 60 _ refl (omega arith) (omega arith) (omega arith)
      (omega arith)
      (Reach-adds (0 ∷ []) (10 ∷ []) 10 0 10 50 _ refl (omega arith) (omega arith) (omega arith)
        (omega arith)
        (Reach-adds [] (10 ∷ 10 ∷ []) 10 0 10 40 _ refl (omega arith) (omega arith) (omega arith)
          (omega arith) three_begin))

log_write_overflows_example :
    (log_write full 69 ≡ panic ↔ (30 ≤ length full.lh + 1))
    × (end_op full ≢ panic)
    × (full.committing ≡ false)
log_write_overflows_example =
    log_write_overflows full (0 ∷ 0 ∷ []) [] 0 69 at_rest-IsReserved full_reached

-- So the tenth block of the third is too many.
full_panics : log_write full 69 ≡ panic
unfolding absorb
full_panics =
    (log_write_overflows full (0 ∷ 0 ∷ []) [] 0 69 at_rest-IsReserved full_reached).0.1
      (omega arith)

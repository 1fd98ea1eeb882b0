-- ===== src/Bio/Tests.antt =====
-- A cache of two buffers, and a process that reads block 5 of device 1 and releases it.
use fast_ipc.Base.{
  ℕ, ◌+◌, ◌<◌, ◌≡◌, refl, arith, List, [], ◌∷◌, true, false, ok, panic, ◌^◌, zero, suc,
}
use fast_ipc.Sleeplock.{acquiresleep, holdingsleep, releasesleep}
use fast_ipc.Bio.{
  Buf, Device, binit, buf_at, no_buf, bread, bget, find_block, find_idle, ready, brelse,
}
use fast_ipc.Bio.Contents.{Holds, Holds-binit}
use fast_ipc.Bio.Read.{Ready, bread_lem}
use fast_ipc.Bio.Release.{brelse_lem}

abbrev disk : Device
disk d n x = d + n + x

abbrev read : List Buf
read =
    no_buf
    ∷ record {
      valid = true;
      dev = 1;
      blockno = 5;
      lock = record { locked = true; pid = 7 };
      refcnt = 1;
      bytes = disk 1 5;
    }
    ∷ []

few : (j : ℕ) → (buf_at (binit 2) j).refcnt + 1 < 2 ^ 32
unfolding binit
few zero = omega arith
few (suc zero) = omega arith
few (suc (suc j)) = omega arith

reads : bread disk 7 (binit 2) 1 5 ≡ ok (ready 1 read)
unfolding binit bread bget find_block find_idle acquiresleep
reads = refl

bread_lem_example : Ready (binit 2) disk disk 7 1 5 1 read
bread_lem_example =
    bread_lem (binit 2) disk disk 7 1 5 1 read (Holds-binit 2 disk) (omega arith) few reads

brelse_lem_example :
    (holdingsleep (buf_at read 1).lock 7 ≡ true
      → (l' : List Buf) × (brelse 7 read 1 ≡ ok l')
        × Holds l' disk disk
        × ((buf_at read 1).refcnt ≡ 1
            → buf_at l' 0
              ≡ record (buf_at read 1) { refcnt = 0; lock = releasesleep (buf_at read 1).lock }))
    × (holdingsleep (buf_at read 1).lock 7 ≡ false → brelse 7 read 1 ≡ panic)
brelse_lem_example =
    brelse_lem read disk disk 7 1 held (omega arith) (omega arith) (omega arith) (λ one val. refl)
  where
    held : Holds read disk disk
    held =
        (bread_lem (binit 2) disk disk 7 1 5 1 read (Holds-binit 2 disk) (omega arith) few
          reads).holds

-- ===== src/Pipe.antt =====
-- Pipes, kernel/pipe.c: a ring of 512 bytes with two free-running 32-bit counters.
-- `pi->lock` is held over each run between two sleeps, so such a run is one step here. A process
-- that sleeps returns `asleep`, and runs on from there, over the pipe as others left it.
pub mod Queue
pub mod Refine
mod Tests
use fast_ipc.Base.{
  ℕ, zero, suc, ◌+◌, ◌%◌, ◌^◌, List, [], ◌∷◌, Option, none, some, Bool, true, false, not, ◌||◌,
  ◌&&◌, ◌==◌, if◌then◌else◌, get_or, set,
}

abbrev pub pipe_size : ℕ
pipe_size = 512

abbrev u32 : ℕ → ℕ
u32 n = n % 2 ^ 32

-- `struct pipe` without its lock; `buf` is its `data`
pub record Pipe : Type 0 where
  pub buf : List ℕ
  pub nread : ℕ
  pub nwrite : ℕ
  pub readopen : Bool
  pub writeopen : Bool

-- What `pipealloc` puts into the page that `kalloc` gave it, whose bytes are `junk`.
pub new_pipe : List ℕ → Pipe
new_pipe junk = record { buf = junk; nread = 0; nwrite = 0; readopen = true; writeopen = true }

-- `pipeclose`: the pipe, and whether its page is freed.
pub pipeclose : Pipe → (writable : Bool) → Bool × Pipe
pipeclose p writable =
    let p' = if writable then record p { writeopen = false } else record p { readopen = false } in
    (not p'.readopen && not p'.writeopen, p')

-- How a run of `pipewrite` or `piperead` ends: with a return of `n` or of -1, or asleep on one of
-- the pipe's counters, in the loop at `i`.
pub data Stop : Type 0 where
  returned : (n : ℕ) → Stop
  failed : Stop
  asleep : (i : ℕ) → Stop

abbrev pub is_full : Pipe → Bool
is_full p = p.nwrite == u32 (p.nread + pipe_size)

abbrev pub is_empty : Pipe → Bool
is_empty p = p.nread == p.nwrite

-- `pi->data[pi->nwrite++ % PIPESIZE] = ch`
pub put : Pipe → ℕ → Pipe
put p ch = record p { buf = set p.buf (p.nwrite % pipe_size) ch; nwrite = u32 (p.nwrite + 1) }

-- `pi->data[pi->nread++ % PIPESIZE]`
pub get : Pipe → ℕ × Pipe
get p = (get_or p.buf (p.nread % pipe_size) 0, record p { nread = u32 (p.nread + 1) })

-- The loop of `pipewrite` from `i` on. The list is what `copyin` finds at `addr + i` and after, one
-- entry for each byte that is left to write, and `none` where it returns -1.
pub pipewrite : (killed : Bool) → Pipe → List (Option ℕ) → (i : ℕ) → Stop × Pipe
pipewrite killed p [] i = (returned i, p)
pipewrite killed p (c ∷ cs) i =
    if not p.readopen || killed
    then (failed, p)
    else if is_full p
    then (asleep i, p)
    else elim c [ none ↦ (returned i, p) | some ch ↦ pipewrite killed (put p ch) cs (i + 1) ]

-- The second loop of `piperead` from `i` on. The list says for each byte that is left to read
-- whether `copyout` succeeds at its address. The result is the count, the bytes that reached the
-- user, and the pipe.
pub read_loop : Pipe → List Bool → (i : ℕ) → ℕ × List ℕ × Pipe
read_loop p [] i = (i, [], p)
read_loop p (fits ∷ rest) i =
    let (ch, p') = get p in
    let (n, chs, q) = read_loop p' rest (i + 1) in
    if is_empty p then (i, [], p) else if fits then (n, ch ∷ chs, q) else (i, [], p')

pub piperead : (killed : Bool) → Pipe → List Bool → Stop × List ℕ × Pipe
piperead killed p places =
    if is_empty p && p.writeopen
    then (if killed then failed else asleep 0, [], p)
    else let (n, chs, q) = read_loop p places 0 in (returned n, chs, q)

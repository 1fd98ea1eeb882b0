-- ===== src/Pipe/Refine.antt =====
-- `pipewrite`, `piperead` and `pipeclose` against a bounded queue of bytes.
use fast_ipc.Base.{
  ℕ, zero, suc, ◌+◌, ◌-◌, ◌<◌, ◌≤◌, ◌≡◌, ◌≢◌, ◌↔◌, ◌⊎◌, inl, inr, refl, ap, ◌∙◌, arith, List, [],
  ◌∷◌, ◌++◌, Option, none, some, Bool, true, false, length, length-append, ◌&&◌, replicate,
  if◌then◌else◌,
}
use mathlib.Core.List.{append-nil, append_assoc, map}
use fast_ipc.Pipe.{
  Pipe, Stop, returned, failed, asleep, put, get, pipe_size, is_full, is_empty, pipewrite, piperead,
  read_loop, pipeclose,
}
use fast_ipc.Pipe.Queue.{Contains, full_test, empty_test, put-Contains, get-Contains}

-- The bytes that fit into `room` free places, up to the first that cannot be copied in.

pub accepted : (room : ℕ) → List (Option ℕ) → List ℕ
accepted zero cs = []
accepted (suc room) [] = []
accepted (suc room) (none ∷ cs) = []
accepted (suc room) (some c ∷ cs) = c ∷ accepted room cs

-- How the writer stops, begun at `i` with `room` free places: at the end of its bytes and at one
-- that cannot be copied in it returns, and where there is no place for the next byte it sleeps.
pub write_stop : (room : ℕ) → List (Option ℕ) → (i : ℕ) → Stop
write_stop room [] i = returned i
write_stop zero (c ∷ cs) i = asleep i
write_stop (suc room) (none ∷ cs) i = returned i
write_stop (suc room) (some c ∷ cs) i = write_stop room cs (i + 1)

not_full : (p : Pipe) (q : List ℕ) → Contains p q → length q < pipe_size → is_full p ≡ false
not_full p q v lt = ground (arith, full_test p q v)

put-readopen : (p : Pipe) (c : ℕ) → (put p c).readopen ≡ p.readopen
unfolding put
put-readopen p c = refl

-- One round of the writer's loop, by what it meets.
module _ (p : Pipe) (cs : List (Option ℕ)) (i : ℕ) (opened : p.readopen ≡ true) where
  pipewrite_full : (c : Option ℕ) → is_full p ≡ true → pipewrite false p (c ∷ cs) i ≡ (asleep i, p)
  unfolding pipewrite
  pipewrite_full c e = ground arith

  pipewrite_unreadable : is_full p ≡ false → pipewrite false p (none ∷ cs) i ≡ (returned i, p)
  unfolding pipewrite
  pipewrite_unreadable e = ground arith

  pipewrite-put :
      (c : ℕ)
      → is_full p ≡ false
      → pipewrite false p (some c ∷ cs) i ≡ pipewrite false (put p c) cs (i + 1)
  unfolding pipewrite
  pipewrite-put c e = ground arith

-- While the read end is open and the writer lives, a run of `pipewrite` appends just the bytes that
-- fit, in order, and stops as the queue would have it.
pub pipewrite_refines :
    (cs : List (Option ℕ)) (room : ℕ) (p : Pipe) (q : List ℕ) (i : ℕ)
    → Contains p q
    → p.readopen ≡ true
    → length q + room ≡ pipe_size
    → ((pipewrite false p cs i).0 ≡ write_stop room cs i)
      × Contains (pipewrite false p cs i).1 (q ++ accepted room cs)
unfolding write_stop accepted
pipewrite_refines [] zero p q i v o r = unfold pipewrite in (refl, rw append-nil v)
pipewrite_refines [] (suc room) p q i v o r = unfold pipewrite in (refl, rw append-nil v)
pipewrite_refines (c ∷ cs) zero p q i v o r =
    rw (pipewrite_full p cs i o c ((full_test p q v).1 (omega arith)), append-nil) (refl, v)
pipewrite_refines (none ∷ cs) (suc room) p q i v o r =
    rw (pipewrite_unreadable p cs i o (not_full p q v (omega arith)), append-nil) (refl, v)
pipewrite_refines (some c ∷ cs) (suc room) p q i v o r =
    rw (pipewrite-put p cs i o c (not_full p q v (omega arith))) (
      let (stop, held) =
        pipewrite_refines cs room (put p c) (q ++ c ∷ []) (i + 1)
          (put-Contains p q c v (omega arith)) (put-readopen p c ∙ o)
          (omega (arith, length-append q (c ∷ []))) in
      (stop, rw (append_assoc q (c ∷ []) (accepted room cs)) at held))

-- With the read end closed, or the writer killed, and a byte to write, `pipewrite` returns -1 and
-- leaves the pipe as it is; with nothing to write it returns.
pub pipewrite_broken :
    (killed : Bool) (p : Pipe) (c : Option ℕ) (cs : List (Option ℕ)) (i : ℕ)
    → (p.readopen ≡ false) ⊎ (killed ≡ true)
    → (pipewrite killed p (c ∷ cs) i ≡ (failed, p)) × (pipewrite killed p [] i ≡ (returned i, p))
unfolding pipewrite
pipewrite_broken killed p c cs i h = (ground arith, refl)

-- The bytes that reach the user, and those that are left: a byte whose place cannot be written is
-- taken from the pipe and lost, and ends the read.
pub delivered : List ℕ → List Bool → List ℕ
delivered q [] = []
delivered [] (b ∷ places) = []
delivered (c ∷ q) (true ∷ places) = c ∷ delivered q places
delivered (c ∷ q) (false ∷ places) = []

pub left_over : List ℕ → List Bool → List ℕ
left_over q [] = q
left_over [] (b ∷ places) = []
left_over (c ∷ q) (true ∷ places) = left_over q places
left_over (c ∷ q) (false ∷ places) = q

not_empty : (p : Pipe) (c : ℕ) (q : List ℕ) → Contains p (c ∷ q) → is_empty p ≡ false
not_empty p c q v = ground (arith, empty_test p (c ∷ q) v)

read_loop_lem :
    (places : List Bool) (p : Pipe) (q : List ℕ) (i : ℕ)
    → Contains p q
    → let (n, chs, p') = read_loop p places i in
      (n ≡ i + length (delivered q places))
      × (chs ≡ delivered q places)
      × Contains p' (left_over q places)
unfolding read_loop delivered left_over
read_loop_lem [] p [] i v = (omega arith, refl, v)
read_loop_lem [] p (c ∷ q) i v = (omega arith, refl, v)
read_loop_lem (b ∷ places) p [] i v = rw ((empty_test p [] v).1 refl) (omega arith, refl, v)
read_loop_lem (false ∷ places) p (c ∷ q) i v =
    rw (not_empty p c q v) (omega arith, refl, (get-Contains p c q v).1)
read_loop_lem (true ∷ places) p (c ∷ q) i v = rw (not_empty p c q v) (
    let (got, v') = get-Contains p c q v in
    let (n, chs, held) = read_loop_lem places (get p).1 q (i + 1) v' in
    (omega (arith, n), rw (got, chs) refl, held))

accepted_all : (cs : List ℕ) (room : ℕ) → length cs ≤ room → accepted room (map some cs) ≡ cs
unfolding accepted
accepted_all [] zero le = refl
accepted_all [] (suc room) le = refl
accepted_all (c ∷ cs) zero le = absurd (omega arith)
accepted_all (c ∷ cs) (suc room) le = ap (λ r. c ∷ r) (accepted_all cs room (omega arith))

write_stop_all :
    (cs : List ℕ) (room i : ℕ)
    → length cs ≤ room
    → write_stop room (map some cs) i ≡ returned (i + length cs)
unfolding write_stop
write_stop_all [] zero i le = ap returned (omega arith)
write_stop_all [] (suc room) i le = ap returned (omega arith)
write_stop_all (c ∷ cs) zero i le = absurd (omega arith)
write_stop_all (c ∷ cs) (suc room) i le =
    write_stop_all cs room (i + 1) (omega arith) ∙ ap returned (omega arith)

delivered_all : (q : List ℕ) → delivered q (replicate (length q) true) ≡ q
unfolding delivered
delivered_all [] = refl
delivered_all (c ∷ q) = ap (λ r. c ∷ r) (delivered_all q)

left_over_all : (q : List ℕ) → left_over q (replicate (length q) true) ≡ []
unfolding left_over
left_over_all [] = refl
left_over_all (c ∷ q) = left_over_all q

piperead_runs :
    (killed : Bool) (places : List Bool) (p : Pipe)
    → (is_empty p && p.writeopen) ≡ false
    → let (n, chs, q) = read_loop p places 0 in piperead killed p places ≡ (returned n, chs, q)
unfolding piperead
piperead_runs killed places p e = ground arith

-- A run of `piperead` on a pipe that holds a byte, or whose write end is closed, delivers the bytes
-- at the front in order, as many as are there, asked for and can be delivered, returns their
-- number, and leaves the rest.
pub piperead_refines :
    (killed : Bool) (places : List Bool) (p : Pipe) (q : List ℕ)
    → Contains p q
    → (q ≢ []) ⊎ (p.writeopen ≡ false)
    → let (stop, chs, p') = piperead killed p places in
      (stop ≡ returned (length (delivered q places)))
      × (chs ≡ delivered q places)
      × Contains p' (left_over q places)
piperead_refines killed places p q v h =
    let (n, chs, held) = read_loop_lem places p q 0 v in
    rw (piperead_runs killed places p (runs q v h)) (ap returned (omega (arith, n)), chs, held)
  where
    runs :
        (q : List ℕ)
        → Contains p q
        → (q ≢ []) ⊎ (p.writeopen ≡ false)
        → (is_empty p && p.writeopen) ≡ false
    runs [] v (inl ne) = absurd (ne refl)
    runs [] v (inr closed) = ground arith
    runs (c ∷ q) v h = rw (not_empty p c q v)

-- On an empty pipe whose write end is open the reader sleeps, or fails if it is killed, and takes
-- nothing.
pub piperead_waits :
    (killed : Bool) (places : List Bool) (p : Pipe)
    → Contains p []
    → p.writeopen ≡ true
    → piperead killed p places ≡ (if killed then failed else asleep 0, [], p)
unfolding piperead
piperead_waits killed places p v o = ground (arith, empty_test p [] v)

-- Bytes written and then read arrive as they were sent, in order, behind what was there: for a
-- pipe that holds `q` and has room for `cs`, reading all of it delivers `q` and then `cs`, and the
-- pipe is empty.
pub piperead-pipewrite :
    (p : Pipe) (q cs : List ℕ)
    → Contains p q
    → p.readopen ≡ true
    → length q + length cs ≤ pipe_size
    → q ++ cs ≢ []
    → let (sent, p1) = pipewrite false p (map some cs) 0 in
      let (stop, chs, p2) = piperead false p1 (replicate (length (q ++ cs)) true) in
      (sent ≡ returned (length cs))
      × (stop ≡ returned (length (q ++ cs)))
      × (chs ≡ q ++ cs)
      × Contains p2 []
piperead-pipewrite p q cs v o le ne =
    let (sent, held) =
      pipewrite_refines (map some cs) (pipe_size - length q) p q 0 v o (omega (arith, v.room)) in
    let all : accepted (pipe_size - length q) (map some cs) ≡ cs =
      accepted_all cs (pipe_size - length q) (omega arith) in
    let (stop, chs, rest) =
      piperead_refines false (replicate (length (q ++ cs)) true) _ (q ++ cs) (rw all at held)
        (inl ne) in
    (
      sent ∙ write_stop_all cs (pipe_size - length q) 0 (omega arith) ∙ ap returned (omega arith),
      rw (delivered_all (q ++ cs)) at stop,
      rw (delivered_all (q ++ cs)) at chs,
      rw (left_over_all (q ++ cs)) at rest,
    )

-- `pipeclose` closes one end, and frees the page exactly when then both are closed.
pub pipeclose_lem :
    (p : Pipe) (writable : Bool) (q : List ℕ)
    → Contains p q
    → let (freed, p') = pipeclose p writable in
      Contains p' q
      × ((freed ≡ true) ↔ ((p'.readopen ≡ false) × (p'.writeopen ≡ false)))
      × ((if writable then p'.writeopen else p'.readopen) ≡ false)
      × ((if writable then p'.readopen else p'.writeopen)
          ≡ (if writable then p.readopen else p.writeopen))
unfolding pipeclose
pipeclose_lem p true q v = (kept, ground arith, refl, refl)
  where
    kept : Contains (record p { writeopen = false }) q
    kept = record {
      size = v.size;
      read_fits = v.read_fits;
      written = v.written;
      room = v.room;
      stored = v.stored;
    }
pipeclose_lem p false q v = (kept, ground arith, refl, refl)
  where
    kept : Contains (record p { readopen = false }) q
    kept = record {
      size = v.size;
      read_fits = v.read_fits;
      written = v.written;
      room = v.room;
      stored = v.stored;
    }

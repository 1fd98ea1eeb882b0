-- ===== src/Log/Space.antt =====
-- The room in the log: operations reserve it in `begin_op`, and use it in `log_write`.
use fast_ipc.Base.{
  ℕ, zero, suc, ◌+◌, ◌*◌, ◌^◌, ◌<◌, ◌≤◌, ◌≡◌, ◌≢◌, ◌⊎◌, ◌↔◌, inl, inr, refl, subst, arith, List, [],
  ◌∷◌, ◌++◌, Bool, true, false, some, length, length-append, ◌==◌, Bool-cases, if◌then◌else◌, ok,
  panic,
}
use fast_ipc.Log.{
  Header, Log, begin_op, end_op, committed, absorb, log_write, log_size, max_op_blocks,
}
use fast_ipc.Log.Recovery.{In}

-- No block is listed twice.

abbrev pub Distinct : Header → Type 0
Distinct [] = Unit {0}
Distinct (b ∷ bs) = (In b bs → ⊥) × Distinct bs

-- What `absorb` makes of a header.
record Absorbed (bs : Header) (n : ℕ) (added : Bool) (bs' : Header) : Type 0 where
  listed : (m : ℕ) → In m bs' ↔ ((m ≡ n) ⊎ In m bs)
  count : length bs' ≡ (if added then suc (length bs) else length bs)
  new_one : (added ≡ true) ↔ (In n bs → ⊥)
  kept : Distinct bs → Distinct bs'

absorb-Absorbed : (bs : Header) (n : ℕ) → Absorbed bs n (absorb bs n).0 (absorb bs n).1
unfolding absorb
absorb-Absorbed [] n = record {
  listed = λ m. (λ q. q, λ q. q);
  count = refl;
  new_one = (λ e q. q, λ f. refl);
  kept = λ k. (λ q. q, tt);
}
absorb-Absorbed (b ∷ bs) n = elim (Bool-cases (b == n)) [
  | inl here ↦
      (let same : b ≡ n = ground arith in
        rw here (record {
          listed = λ m. ground (arith, same);
          count = refl;
          new_one = ground (arith, same);
          kept = λ k. (rw same at k.0, k.1);
        }))
  | inr there ↦
      (let differ : b ≢ n = ground arith in
        let rest = absorb-Absorbed bs n in
        rw there (record {
          listed = λ m. ground (arith, rest.listed m);
          count = ground (arith, rest.count);
          new_one = ground (arith, rest.new_one, differ);
          kept = λ k. (λ q. ground (arith, k.0, differ, (rest.listed b).0 q), rest.kept k.1);
        }))
]

-- Within an operation and with room left in the log, `log_write` succeeds: the log then lists the
-- block besides those that it listed before, longer by one exactly where the block was not listed,
-- which is where the buffer is pinned; and no block is listed twice if none was.
pub log_write_lem :
    (l : Log) (n : ℕ)
    → 0 < l.outstanding
    → l.outstanding < 2 ^ 31
    → length l.lh < log_size
    → length l.lh + 1 < l.size
    → (pinned : Bool) × (l' : Log) × (log_write l n ≡ ok (pinned, l'))
      × (l'.outstanding ≡ l.outstanding)
      × ((m : ℕ) → In m l'.lh ↔ ((m ≡ n) ⊎ In m l.lh))
      × (length l'.lh ≡ (if pinned then suc (length l.lh) else length l.lh))
      × ((pinned ≡ true) ↔ (In n l.lh → ⊥))
      × (Distinct l.lh → Distinct l'.lh)
unfolding log_write
log_write_lem l n some_running few room fits =
    let a = absorb-Absorbed l.lh n in
    (
      (absorb l.lh n).0,
      record l { lh = (absorb l.lh n).1 },
      ground arith,
      refl,
      a.listed,
      a.count,
      a.new_one,
      a.kept,
    )

-- The log, and for each running operation how many blocks it may still write. The code has no such
-- numbers; an operation is taken to write at most `MAXOPBLOCKS` blocks.
pub record System : Type 0 where
  pub log : Log
  pub running : List ℕ

pub data Step : System → System → Type 0 where
  begins :
      {l l' : Log} {rs : List ℕ}
      → begin_op l ≡ some l'
      → Step (record { log = l; running = rs }) (record { log = l'; running = max_op_blocks ∷ rs })
  writes :
      {l l' : Log} {pinned : Bool}
      → (xs ys : List ℕ) (r n : ℕ) → log_write l n ≡ ok (pinned, l')
      → Step
          (record { log = l; running = xs ++ suc r ∷ ys })
          (record { log = l'; running = xs ++ r ∷ ys })
  ends :
      {l l' : Log} {last : Bool}
      → (xs ys : List ℕ) (r : ℕ) → end_op l ≡ ok (last, l')
      → Step (record { log = l; running = xs ++ r ∷ ys }) (record { log = l'; running = xs ++ ys })
  commits :
      {l : Log} {rs : List ℕ}
      → l.committing ≡ true
      → Step (record { log = l; running = rs }) (record { log = committed l; running = rs })

pub data Reach (s : System) : System → Type 0 where
  start : Reach s s
  later : {t u : System} → Reach s t → Step t u → Reach s u

abbrev total : List ℕ → ℕ
total [] = 0
total (r ∷ rs) = r + total rs

abbrev Few : List ℕ → Type 0
Few [] = Unit {0}
Few (r ∷ rs) = (r ≤ max_op_blocks) × Few rs

-- What is reserved fits into the log, and nothing runs while a commit is made.
pub record IsReserved (s : System) : Type 0 where
  pub counted : length s.running ≡ s.log.outstanding
  pub few : Few s.running
  pub room : length s.log.lh + total s.running ≤ log_size
  pub at_most : s.log.outstanding ≤ 3
  pub alone : s.log.committing ≡ true → s.log.outstanding ≡ 0

total_le : (rs : List ℕ) → Few rs → total rs ≤ length rs * max_op_blocks
total_le [] f = omega arith
total_le (r ∷ rs) f = omega (arith, f.0, total_le rs f.1)

total-append : (xs ys : List ℕ) → total (xs ++ ys) ≡ total xs + total ys
total-append [] ys = omega arith
total-append (x ∷ xs) ys = omega (arith, total-append xs ys)

Few-append : (xs ys : List ℕ) → Few (xs ++ ys) ↔ (Few xs × Few ys)
Few-append [] ys = (λ f. (tt, f), λ f. f.1)
Few-append (x ∷ xs) ys = ground (arith, Few-append xs ys)

begin_op-some :
    (l l' : Log)
    → begin_op l ≡ some l'
    → (l.committing ≡ false)
      × (length l.lh + (l.outstanding + 1) * max_op_blocks ≤ log_size)
      × (l' ≡ record l { outstanding = l.outstanding + 1 })
unfolding begin_op
begin_op-some l l' e = ground arith

log_write_ok :
    (l l' : Log) (n : ℕ) (pinned : Bool)
    → log_write l n ≡ ok (pinned, l')
    → l' ≡ record l { lh = (absorb l.lh n).1 }
unfolding log_write
log_write_ok l l' n pinned e = ground arith

-- One operation fewer.
end_op_ok :
    (l l' : Log) (last : Bool)
    → 0 < l.outstanding
    → l.outstanding ≤ 3
    → end_op l ≡ ok (last, l')
    → (l'.lh ≡ l.lh)
      × (l'.outstanding + 1 ≡ l.outstanding)
      × (l'.committing ≡ true → l'.outstanding ≡ 0)
unfolding end_op
end_op_ok l l' last some_running few e = ground arith

length-absorb : (bs : Header) (n : ℕ) → length (absorb bs n).1 ≤ length bs + 1
length-absorb bs n = ground (arith, (absorb-Absorbed bs n).count)

Step-IsReserved : {s t : System} → Step s t → IsReserved s → IsReserved t
unfolding committed
Step-IsReserved (begins {l} {l'} {rs} e) v =
    let (idle, room, made) = begin_op-some l l' e in
    rw made (record {
      counted = omega (arith, v.counted);
      few = (omega arith, v.few);
      room = omega (arith, total_le rs v.few, v.counted);
      at_most = omega arith;
      alone = λ q. absurd (cc);
    })
Step-IsReserved (writes {l} {l'} {pinned} xs ys r n e) v =
    let f = (Few-append xs (suc r ∷ ys)).0 v.few in
    rw (log_write_ok l l' n pinned e) (record {
      counted = omega (arith, v.counted, length-append xs (suc r ∷ ys), length-append xs (r ∷ ys));
      few = (Few-append xs (r ∷ ys)).1 (f.0, (omega (arith, f.1.0), f.1.1));
      room = omega (
        arith,
        v.room,
        total-append xs (suc r ∷ ys),
        total-append xs (r ∷ ys),
        length-absorb l.lh n,
      );
      at_most = v.at_most;
      alone = v.alone;
    })
Step-IsReserved (ends {l} {l'} {last} xs ys r e) v =
    let f = (Few-append xs (r ∷ ys)).0 v.few in
    let (same, fewer, idle) =
      end_op_ok l l' last (omega (arith, v.counted, length-append xs (r ∷ ys))) v.at_most e in
    record {
      counted = omega (arith, v.counted, length-append xs (r ∷ ys), length-append xs ys);
      few = (Few-append xs ys).1 (f.0, f.1.1);
      room = rw same (omega (arith, v.room, total-append xs (r ∷ ys), total-append xs ys));
      at_most = omega (arith, v.at_most);
      alone = idle;
    }
Step-IsReserved (commits {l} {rs} e) v = record {
  counted = v.counted;
  few = v.few;
  room = omega (arith, v.room);
  at_most = v.at_most;
  alone = λ q. v.alone e;
}

Reach-IsReserved : {s t : System} → IsReserved s → Reach s t → IsReserved t
Reach-IsReserved v start = v
Reach-IsReserved v (later r st) = Step-IsReserved st (Reach-IsReserved v r)

-- In every state that operations reach from one in which the reservations hold, a call of
-- `log_write` by an operation that has not yet used up its blocks panics exactly where the header
-- lists all blocks but one that the log on disk has; its call of `end_op` does not panic; and no
-- commit is being made.
pub log_write_overflows :
    {s : System} (l : Log) (xs ys : List ℕ) (r n : ℕ)
    → IsReserved s
    → Reach s (record { log = l; running = xs ++ suc r ∷ ys })
    → (log_write l n ≡ panic ↔ (l.size ≤ length l.lh + 1))
      × (end_op l ≢ panic)
      × (l.committing ≡ false)
unfolding log_write end_op
log_write_overflows l xs ys r n v reach =
    let w = Reach-IsReserved v reach in
    let one : 0 < l.outstanding = omega (arith, w.counted, length-append xs (suc r ∷ ys)) in
    let few : l.outstanding ≤ 3 = w.at_most in
    let room : length l.lh < log_size = omega (arith, w.room, total-append xs (suc r ∷ ys)) in
    let idle : l.committing ≡ false = ground (arith, w.alone) in
    ((λ e. ground arith, λ le. ground arith), ground arith, idle)

-- The log after a running operation has written `k` blocks, from `n` on.
abbrev pub adds : Log → (n k : ℕ) → Log
adds l n zero = l
adds l n (suc k) = adds (record l { lh = (absorb l.lh n).1 }) (n + 1) k

-- An operation can write as many blocks as it has left, and as fit into the log.
pub Reach-adds :
    {s : System} (xs ys : List ℕ) (q r k n : ℕ) (l : Log)
    → q ≡ k + r
    → 0 < l.outstanding
    → l.outstanding ≤ 3
    → length l.lh + k ≤ log_size
    → length l.lh + k < l.size
    → Reach s (record { log = l; running = xs ++ q ∷ ys })
    → Reach s (record { log = adds l n k; running = xs ++ r ∷ ys })
unfolding log_write
Reach-adds {s} xs ys q r zero n l same one few room fits reach =
    let e : q ≡ r = omega (arith, same) in
    subst (λ m. Reach s (record { log = l; running = xs ++ m ∷ ys })) e reach
Reach-adds {s} xs ys q r (suc k) n l same one few room fits reach =
    let l' : Log = record l { lh = (absorb l.lh n).1 } in
    let e : log_write l n ≡ ok ((absorb l.lh n).0, l') = ground arith in
    let short = length-absorb l.lh n in
    let next : q ≡ suc (k + r) = omega (arith, same) in
    Reach-adds xs ys (k + r) r k (n + 1) l' refl one few (omega arith) (omega arith) (
      later (subst (λ m. Reach s (record { log = l; running = xs ++ m ∷ ys })) next reach)
        (writes xs ys (k + r) n e))

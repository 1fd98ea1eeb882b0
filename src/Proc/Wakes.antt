-- ===== src/Proc/Wakes.antt =====
-- Sleeping and waking, `sleep` and `wakeup` of kernel/proc.c: which processes a call wakes.
use fast_ipc.Base.{
  ℕ, zero, suc, ◌+◌, ◌≡◌, ◌≢◌, ◌⊎◌, inl, inr, refl, sym, ap, ◌∙◌, subst, arith, true, false, not,
  ◌&&◌, ◌==◌, if◌then◌else◌, List, [], ◌∷◌, Option, some, length, set, Bool-cases,
}
use fast_ipc.Proc.{
  Proc, sleeping, runnable, proc_at, is_proc, is_sleeping, wake, wake_from, wakeup, reparent_from,
}

-- An entry that is not in the table reads as one that is not in use, and nothing wakes it.

proc_at-wake_from :
    (me : Option ℕ) (chan k : ℕ) (ps : List Proc) (i : ℕ)
    → proc_at (wake_from me chan k ps) i ≡ wake me chan (k + i) (proc_at ps i)
unfolding wake wake_from
proc_at-wake_from me chan k [] i = ground arith
proc_at-wake_from me chan k (p ∷ ps) zero =
    ap (λ n. wake me chan n p) (let e : k ≡ k + 0 = omega arith in e)
proc_at-wake_from me chan k (p ∷ ps) (suc i) =
    proc_at-wake_from me chan (k + 1) ps i
    ∙ ap (λ n. wake me chan n (proc_at ps i)) (let e : k + 1 + i ≡ k + suc i = omega arith in e)

-- After `wakeup` the entry at `i` is what its own round makes of it.
pub proc_at-wakeup :
    (me : Option ℕ) (chan : ℕ) (ps : List Proc) (i : ℕ)
    → proc_at (wakeup me chan ps) i ≡ wake me chan i (proc_at ps i)
unfolding wakeup
proc_at-wakeup me chan ps i =
    proc_at-wake_from me chan 0 ps i
    ∙ ap (λ n. wake me chan n (proc_at ps i)) (let e : 0 + i ≡ i = omega arith in e)

pub length-wake_from :
    (me : Option ℕ) (chan k : ℕ) (ps : List Proc) → length (wake_from me chan k ps) ≡ length ps
unfolding wake_from
length-wake_from me chan k [] = refl
length-wake_from me chan k (p ∷ ps) = ap suc (length-wake_from me chan (k + 1) ps)

pub length-wakeup :
    (me : Option ℕ) (chan : ℕ) (ps : List Proc) → length (wakeup me chan ps) ≡ length ps
unfolding wakeup
length-wakeup me chan ps = length-wake_from me chan 0 ps

wake-sleeper :
    (me : Option ℕ) (chan i : ℕ) (p : Proc)
    → is_proc me i ≡ false
    → p.state ≡ sleeping
    → p.chan ≡ chan
    → wake me chan i p ≡ record p { state = runnable }
unfolding wake
wake-sleeper me chan i p other asleep_ on = ground arith

wake-else :
    (me : Option ℕ) (chan i : ℕ) (p : Proc)
    → is_proc me i ≡ true ⊎ (p.state ≢ sleeping ⊎ p.chan ≢ chan)
    → wake me chan i p ≡ p
unfolding wake
wake-else me chan i p not_one = ground arith

woken :
    (me : Option ℕ) (chan i : ℕ) (p : Proc)
    → is_proc me i ≡ false
    → (p.state ≡ runnable) ⊎ ((p.state ≡ sleeping) × (p.chan ≡ chan))
    → (wake me chan i p).state ≡ runnable
unfolding wake
woken me chan i p other w = ground arith

-- Exactly the processes that sleep on `chan` become runnable, but for the one that calls, and nothing
-- else of any process changes.
pub wakeup_lem :
    (me : Option ℕ) (chan : ℕ) (ps : List Proc) (i : ℕ)
    → (is_proc me i ≡ false
        → (proc_at ps i).state ≡ sleeping
        → (proc_at ps i).chan ≡ chan
        → proc_at (wakeup me chan ps) i ≡ record (proc_at ps i) { state = runnable })
      × (is_proc me i ≡ true ⊎ ((proc_at ps i).state ≢ sleeping ⊎ (proc_at ps i).chan ≢ chan)
          → proc_at (wakeup me chan ps) i ≡ proc_at ps i)
wakeup_lem me chan ps i = (
  λ other asleep_ on.
      proc_at-wakeup me chan ps i ∙ wake-sleeper me chan i (proc_at ps i) other asleep_ on,
  λ not_one. proc_at-wakeup me chan ps i ∙ wake-else me chan i (proc_at ps i) not_one,
)

-- A process sleeps on `chan` or is woken already.
abbrev pub IsWaiting : (chan : ℕ) → Proc → Type 0
IsWaiting chan p = (p.state ≡ runnable) ⊎ ((p.state ≡ sleeping) × (p.chan ≡ chan))

pub wake-IsWaiting :
    (me : Option ℕ) (c i chan : ℕ) (p : Proc) → IsWaiting chan p → IsWaiting chan (wake me c i p)
unfolding wake
wake-IsWaiting me c i chan p w =
    elim (Bool-cases (not (is_proc me i) && (is_sleeping p.state && p.chan == c))) [
      | inl t ↦ rw t (inl refl)
      | inr f ↦ rw f w
    ]

pub wakeup-IsWaiting :
    (me : Option ℕ) (c chan : ℕ) (ps : List Proc) (i : ℕ)
    → IsWaiting chan (proc_at ps i)
    → IsWaiting chan (proc_at (wakeup me c ps) i)
wakeup-IsWaiting me c chan ps i w =
    subst (λ p. IsWaiting chan p) (sym (proc_at-wakeup me c ps i))
      (wake-IsWaiting me c i chan (proc_at ps i) w)

-- The channel's own `wakeup` ends the wait.
pub wakeup-ends :
    (me : Option ℕ) (chan : ℕ) (ps : List Proc) (i : ℕ)
    → is_proc me i ≡ false
    → IsWaiting chan (proc_at ps i)
    → (proc_at (wakeup me chan ps) i).state ≡ runnable
wakeup-ends me chan ps i other w =
    ap (λ (p : Proc). p.state) (proc_at-wakeup me chan ps i)
    ∙ woken me chan i (proc_at ps i) other w

-- Setting a parent leaves a wait as it is.
adopted-IsWaiting :
    (chan i j : ℕ) (o : Option ℕ) (ps : List Proc)
    → IsWaiting chan (proc_at ps j)
    → IsWaiting chan (proc_at (set ps i (record (proc_at ps i) { parent = o })) j)
adopted-IsWaiting chan i j o [] w = w
adopted-IsWaiting chan zero zero o (p ∷ ps) w = w
adopted-IsWaiting chan zero (suc j) o (p ∷ ps) w = w
adopted-IsWaiting chan (suc i) zero o (p ∷ ps) w = w
adopted-IsWaiting chan (suc i) (suc j) o (p ∷ ps) w = adopted-IsWaiting chan i j o ps w

pub reparent_from-IsWaiting :
    (o : Option ℕ) (c me left i chan j : ℕ) (ps : List Proc)
    → IsWaiting chan (proc_at ps j)
    → IsWaiting chan (proc_at (reparent_from o c me left i ps) j)
unfolding reparent_from
reparent_from-IsWaiting o c me zero i chan j ps w = w
reparent_from-IsWaiting o c me (suc left) i chan j ps w =
    let p = proc_at ps i in
    let adopted = wakeup (some me) c (set ps i (record p { parent = o })) in
    reparent_from-IsWaiting o c me left (i + 1) chan j (if is_proc p.parent me then adopted else ps)
      (elim (Bool-cases (is_proc p.parent me)) [
        | inl t ↦ rw t (wakeup-IsWaiting (some me) c chan _ j (adopted-IsWaiting chan i j o ps w))
        | inr f ↦ rw f w
      ])

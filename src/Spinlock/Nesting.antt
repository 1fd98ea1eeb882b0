-- ===== src/Spinlock/Nesting.antt =====
-- Disabled interrupts nest.
use fast_ipc.Base.{
  ℕ, ◌+◌, ◌-◌, ◌^◌, ◌<◌, ◌≡◌, inl, inr, refl, sym, ◌∙◌, subst, arith, none, some, Option, true,
  false, ◌&&◌, ◌||◌, ltb, ◌==◌, if◌then◌else◌, Bool-cases, Outcome, ok, panic, ◌>>=◌, to_int,
  is_negative,
}
use fast_ipc.Spinlock.{Cpu, SpinLock, push_off, pop_off, holding, acquire, release}

-- Within a critical section interrupts are disabled.

abbrev pub IsCpu : Cpu → Type 0
IsCpu c = 0 < c.noff → c.enabled ≡ false

-- Sections one after the other, each with what is inside it.
pub data Sections : Type 0 where
  nothing : Sections
  section : (inside after : Sections) → Sections

-- How deep they go.
unfoldable pub depth : Sections → ℕ
depth nothing = 0
depth (section s t) = if ltb (depth s + 1) (depth t) then depth t else depth s + 1

unfoldable pub run : Sections → Cpu → Outcome Cpu
run nothing c = ok c
run (section s t) c = run s (push_off c) >>= λ c1. pop_off c1 >>= λ c2. run t c2

push_off-IsCpu : (c : Cpu) → IsCpu (push_off c)
unfolding push_off
push_off-IsCpu c lt = refl

pushed : (c : Cpu) → c.noff + 1 < 2 ^ 31 → (push_off c).noff ≡ c.noff + 1
unfolding push_off
pushed c lt = ground arith

-- What stays: where the count is 0 the old value of `intena` is not used again.
abbrev pub Same : Cpu → Cpu → Type 0
Same c c' =
    (c'.id ≡ c.id)
    × (c'.noff ≡ c.noff)
    × (c'.enabled ≡ c.enabled)
    × (0 < c.noff → c'.intena ≡ c.intena)

pop_off-push_off :
    (c c1 : Cpu)
    → IsCpu c
    → c.noff + 1 < 2 ^ 31
    → Same (push_off c) c1
    → (c2 : Cpu) × (pop_off c1 ≡ ok c2) × Same c c2
unfolding push_off pop_off
pop_off-push_off c c1 v fits (same_id, count, off, kept) =
    let more : c1.noff ≡ c.noff + 1 = ground arith in
    let some_left : (is_negative c1.noff || ltb c1.noff 1) ≡ false = ground arith in
    let left : to_int (c1.noff + 2 ^ 32 - 1) ≡ c.noff = ground arith in
    (
      record c1 { noff = c.noff; enabled = c.noff == 0 && c1.intena },
      rw (off, some_left, left),
      (
        same_id,
        refl,
        restored,
        λ lt. inner ∙ (let deep : (c.noff == 0) ≡ false = ground arith in rw deep),
      ),
    )
  where
    inner : c1.intena ≡ (if c.noff == 0 then c.enabled else c.intena)
    inner = kept (ground arith)

    restored : (c.noff == 0 && c1.intena) ≡ c.enabled
    restored = elim (Bool-cases (c.noff == 0)) [
      | inl outer ↦ rw outer (rw outer at inner)
      | inr deep ↦ rw deep (sym (v (ground arith)))
    ]

Same-trans : (c c1 c2 : Cpu) → Same c c1 → Same c1 c2 → Same c c2
Same-trans c c1 c2 (i1, n1, e1, k1) (i2, n2, e2, k2) =
    (i2 ∙ i1, n2 ∙ n1, e2 ∙ e1, λ lt. k2 (rw n1 lt) ∙ k1 lt)

IsCpu-Same : (c c1 : Cpu) → IsCpu c → Same c c1 → IsCpu c1
IsCpu-Same c c1 v (i1, n1, e1, k1) lt = e1 ∙ v (rw n1 at lt)

-- Any sections, each closed before the one around it, run without a panic where the count does not
-- overflow, and leave the count and the interrupts of the hart as they were: disabled within an
-- outer section, and otherwise as before the first one.
pub nested_sections :
    (s : Sections) (c : Cpu)
    → IsCpu c
    → c.noff + depth s < 2 ^ 31
    → (c' : Cpu) × (run s c ≡ ok c') × Same c c'
unfolding run depth
nested_sections nothing c v fits = (c, refl, (refl, refl, refl, λ lt. refl))
nested_sections (section s t) c v fits =
    let count : (push_off c).noff ≡ c.noff + 1 = pushed c (ground arith) in
    let (c1, e1, m1) = nested_sections s (push_off c) (push_off-IsCpu c) (ground (arith, count)) in
    let (c2, e2, m2) = pop_off-push_off c c1 v (ground arith) m1 in
    let (c3, e3, m3) = nested_sections t c2 (IsCpu-Same c c2 v m2) (ground (arith, m2.1)) in
    (c3, rw (e1, e2) e3, Same-trans c c2 c3 m2 m3)

abbrev taken_by : Cpu → SpinLock
taken_by c = record { locked = true; cpu = some c.id }

-- What `acquire` returns where it gets the lock.
acquire-some :
    (lk lk' : SpinLock) (c c' : Cpu)
    → acquire lk c ≡ ok (some lk', c')
    → (lk.locked ≡ false) × (taken_by c ≡ lk') × (push_off c ≡ c')
unfolding acquire
acquire-some lk lk' c c' e = elim (Bool-cases (holding lk (push_off c))) [
  | inl twice ↦
      (let q : ◌≡◌ {A = Outcome (Option SpinLock × Cpu)} panic (ok (some lk', c')) =
          rw twice at e in
        cc)
  | inr once ↦ elim (Bool-cases lk.locked) [
    | inl busy ↦
        (let q : ◌≡◌ {A = Outcome (Option SpinLock × Cpu)} (ok (none, push_off c))
              (ok (some lk', c')) =
            rw (once, busy) at e in
          cc)
    | inr free ↦
        (let q : ok (some (taken_by c), push_off c) ≡ ok (some lk', c') = rw (once, free) at e in
          (free, cc q, cc q))
  ]
]

-- Where `acquire` gets the lock, interrupts are disabled and the hart holds the lock; `release` then
-- frees it and leaves the count and the interrupts as they were before `acquire`.
pub release-acquire :
    (lk lk' : SpinLock) (c c' : Cpu)
    → IsCpu c
    → c.noff + 1 < 2 ^ 31
    → acquire lk c ≡ ok (some lk', c')
    → (lk.locked ≡ false)
      × (c'.enabled ≡ false)
      × (holding lk' c' ≡ true)
      × ((c'' : Cpu) × (release lk' c' ≡ ok (record { locked = false; cpu = none }, c''))
          × Same c c'')
unfolding release push_off
release-acquire lk lk' c c' v fits e =
    let (free, e1, e2) = acquire-some lk lk' c c' e in
    let (c'', out, same) = pop_off-push_off c (push_off c) v fits (refl, refl, refl, λ lt. refl) in
    let mine : holding (taken_by c) (push_off c) ≡ true = ground arith in
    let let_go : release (taken_by c) (push_off c)
        ≡ ok (record { locked = false; cpu = none }, c'') =
      rw (mine, out) in
    subst (λ x. Held x c') e1
      (subst (λ x. Held (taken_by c) x) e2 (free, refl, mine, (c'', let_go, same)))
  where
    Held : SpinLock → Cpu → Type 0
    Held l x =
        (lk.locked ≡ false)
        × (x.enabled ≡ false)
        × (holding l x ≡ true)
        × ((c'' : Cpu) × (release l x ≡ ok (record { locked = false; cpu = none }, c''))
            × Same c c'')

-- ===== src/Spinlock/Tests.antt =====
-- A hart with interrupts enabled, a lock within a lock, and one more lock after it.
use fast_ipc.Base.{◌≡◌, refl, arith, none, some, true, false, ok}
use fast_ipc.Spinlock.{Cpu, SpinLock, initlock, push_off, acquire, release, holding}
use fast_ipc.Spinlock.Nesting.{
  Same, Sections, nothing, section, run, depth, nested_sections, release-acquire,
}

abbrev hart : Cpu
hart = record { id = 1; noff = 0; intena = false; enabled = true }

abbrev sections : Sections
sections = section (section nothing nothing) (section nothing nothing)

nested_sections_example : (c : Cpu) × (run sections hart ≡ ok c) × Same hart c
unfolding depth
nested_sections_example = nested_sections sections hart (λ lt. absurd (omega arith)) (omega arith)

abbrev inside : Cpu
inside = record { id = 1; noff = 1; intena = true; enabled = false }

abbrev held : SpinLock
held = record { locked = true; cpu = some 1 }

acquires : acquire initlock hart ≡ ok (some held, inside)
unfolding acquire push_off
acquires = refl

release-acquire_example :
    (false ≡ false)
    × (false ≡ false)
    × (holding held inside ≡ true)
    × ((c : Cpu) × (release held inside ≡ ok (record { locked = false; cpu = none }, c))
        × Same hart c)
release-acquire_example =
    release-acquire initlock held hart inside (λ lt. absurd (omega arith)) (omega arith) acquires

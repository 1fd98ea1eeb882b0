-- ===== src/Memory/Tests.antt =====
-- Runs of the copying routines, and the theorems at small inputs.
use fast_ipc.Base.{◌+◌, ◌%◌, ◌≡◌, refl, arith}
use fast_ipc.Memory.{
  Mem, memmove, mymemmove, takes_words, store8, copy_up, copy_down, copy_words, load64, load_le,
  store64, store_le, byte_of,
}
use fast_ipc.Memory.Words.{IsBytes}
use fast_ipc.Memory.Moves.{copied, mymemmove_drops_tail, memmove_lem}

-- Cell `x` holds the low byte of `x`.

abbrev ramp : Mem
ramp x = x % 256

ramp-IsBytes : IsBytes ramp
ramp-IsBytes x = omega arith

memmove_overlapping_run : memmove ramp 18 16 8 20 ≡ 18
unfolding memmove copy_up copy_down store8
memmove_overlapping_run = refl

mymemmove_run : mymemmove ramp 4096 8200 16 4105 ≡ 17
unfolding mymemmove takes_words copy_words load64 load_le store64 store_le byte_of
mymemmove_run = refl

memmove_lem_example : memmove ramp 18 16 8 20 ≡ copied ramp 18 16 8 20
memmove_lem_example = memmove_lem ramp 18 16 8 20

mymemmove_drops_tail_example :
    (mymemmove ramp 4096 8200 12 (4096 + 9) ≡ ramp (4096 + 9))
    × (memmove ramp 4096 8200 12 (4096 + 9) ≡ ramp (8200 + 9))
unfolding takes_words
mymemmove_drops_tail_example =
    mymemmove_drops_tail ramp 4096 8200 12 9 ramp-IsBytes refl (omega arith) (omega arith)

-- ===== src/Vm/Tests.antt =====
-- Runs of the page-table code on the memories of Vm/Sample.antt.
use fast_ipc.Base.{◌≡◌, arith, refl, [], Bool, true, false, Outcome, ok, panic, fault}
use fast_ipc.Memory.{load64, load_le, store64, store_le, byte_of}
use fast_ipc.Kalloc.{Kmem}
use fast_ipc.Vm.{walk, walk_from, descend, walkaddr, mappages, map_from}
use fast_ipc.Vm.Walk.{IsPath}
use fast_ipc.Vm.Walk.Map.{walkaddr-mappages}
use fast_ipc.Vm.Sample.{empty_tables, with_mem, empty_tables-IsBytes, with_mem-IsFree}

-- Did `mappages` return 0?

maps : Outcome (Bool × Kmem) → Bool
maps (ok (b, k)) = b
maps panic = false
maps fault = false

maps_ok : (m : Outcome (Bool × Kmem)) → maps m ≡ true → (k' : Kmem) × (m ≡ ok (true, k'))
unfolding maps
maps_ok (ok (b, k)) e = (k, ground arith)
maps_ok panic e = cc
maps_ok fault e = cc

abbrev k0 : Kmem
k0 = with_mem empty_tables

map_run : (k' : Kmem) × (mappages 0x1000 0x7000 4096 0x5000 22 k0 ≡ ok (true, k'))
unfolding maps mappages map_from walk walk_from descend load64 load_le store64 store_le byte_of
map_run = maps_ok (mappages 0x1000 0x7000 4096 0x5000 22 k0) refl

path : IsPath 2 0x1000 0x7000 empty_tables [] []
unfolding load64 load_le
path = (
  refl,
  tt,
  tt,
  λ v. (refl, tt, (omega arith, tt), λ v'. (refl, tt, (omega arith, (omega arith, tt)))),
)

walkaddr-mappages_example : walkaddr 0x1000 0x7000 map_run.0 ≡ ok 0x5000
walkaddr-mappages_example =
    walkaddr-mappages 0x1000 0x7000 0x5000 22 k0 [] map_run.0 refl (omega arith) refl (omega arith)
      (omega arith) refl (with_mem-IsFree empty_tables-IsBytes) path map_run.1

-- ===== src/File/Tests.antt =====
-- One open file, held twice.
use fast_ipc.Base.{ℕ, ◌≡◌, refl, arith, List, [], ◌∷◌, true, false, zero, suc, get_or}
use fast_ipc.File.{File, fd_pipe, no_file}
use fast_ipc.File.Counts.{IsCounted, count}

abbrev table : List File
table =
    record { kind = fd_pipe; ref = 2; readable = true; writable = false; pipe = 0x9000; ip = 0 }
    ∷ []

table-IsCounted : IsCounted table (0 ∷ 0 ∷ [])
table-IsCounted = record { refs = counted; few = omega arith }
  where
    counted : (i : ℕ) → (get_or table i no_file).ref ≡ count i (0 ∷ 0 ∷ [])
    counted zero = refl
    counted (suc i) = ground arith

abbrev unused_table : List File
unused_table = no_file ∷ []

unused-IsCounted : IsCounted unused_table []
unused-IsCounted = record { refs = counted; few = omega arith }
  where
    counted : (i : ℕ) → (get_or unused_table i no_file).ref ≡ count i []
    counted zero = refl
    counted (suc i) = refl

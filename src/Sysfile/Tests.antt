-- ===== src/Sysfile/Tests.antt =====
-- Calls on a small file system, and a descriptor that is duplicated.
use fast_ipc.Base.{◌≡◌, ◌≢◌, ℕ, ◌<◌, refl, arith, List, [], ◌∷◌, Option, none, some, true, ok}
use fast_ipc.Fs.Icache.{Store, no_inode}
use fast_ipc.File.{File, fd_inode, filedup, nothing}
use fast_ipc.Sysfile.{argfd, dup, close, fdalloc}
use fast_ipc.Sysfile.Descriptors.{close-dup}

-- The root directory, with no entries, and room for inodes.

abbrev sample : Store
sample = record {
  inodes =
      record no_inode { dev = 1; inum = 1; ref = 1; valid = true; type = 1; nlink = 1 }
      ∷ no_inode
      ∷ no_inode
      ∷ [];
  fs = record {
    sb = record { size = 8; ninodes = 16; inodestart = 2; bmapstart = 1 };
    blocks = λ b x. 0;
    logged = [];
  };
}

abbrev a_path : List ℕ
a_path = b'/' ∷ b'a' ∷ []

abbrev b_path : List ℕ
b_path = b'/' ∷ b'b' ∷ []

abbrev open_file : File
open_file = record { kind = fd_inode; ref = 1; readable = true; writable = true; pipe = 0; ip = 0 }

abbrev descriptors : List (Option ℕ)
descriptors = some 0 ∷ none ∷ none ∷ []

abbrev duplicated : List (Option ℕ)
duplicated = some 0 ∷ some 0 ∷ none ∷ []

duplicates :
    dup 0 descriptors (open_file ∷ []) ≡ ok (some 1, duplicated, record open_file { ref = 2 } ∷ [])
unfolding dup fdalloc filedup
duplicates = refl

close-dup_example :
    (argfd descriptors 1 ≡ none)
    × ((j : ℕ) → j < 1 → argfd descriptors j ≢ none)
    × (close 1 duplicated (record open_file { ref = 2 } ∷ [])
        ≡ ok (some nothing, descriptors, open_file ∷ []))
close-dup_example =
    close-dup 0 1 0 descriptors duplicated (open_file ∷ []) (record open_file { ref = 2 } ∷ []) refl
      (omega arith) (omega arith) duplicates

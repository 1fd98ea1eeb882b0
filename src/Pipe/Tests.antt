-- ===== src/Pipe/Tests.antt =====
-- A pipe whose counters are about to wrap, and the theorems of pipes at it.
use fast_ipc.Base.{
  ℕ, ◌-◌, ◌^◌, ◌≡◌, refl, arith, List, [], ◌∷◌, ◌++◌, some, true, false, length, replicate, inl,
}
use mathlib.Core.List.{map}
use fast_ipc.Pipe.{Pipe, returned, pipewrite, piperead, put}
use fast_ipc.Pipe.Queue.{Contains}
use fast_ipc.Pipe.Refine.{
  accepted, write_stop, pipewrite_refines, delivered, left_over, piperead_refines,
  piperead-pipewrite,
}

-- Both counters stand one byte before the wrap.

abbrev late : Pipe
late = record {
  buf = replicate 512 0;
  nread = 2 ^ 32 - 1;
  nwrite = 2 ^ 32 - 1;
  readopen = true;
  writeopen = true;
}

late-Contains : Contains late []
late-Contains = record {
  size = refl;
  read_fits = omega arith;
  written = refl;
  room = omega arith;
  stored = tt;
}

abbrev abc : List ℕ
abc = 97 ∷ 98 ∷ 99 ∷ []

write_run : (pipewrite false late (map some abc) 0).1.nwrite ≡ 2
unfolding pipewrite put
write_run = refl

pipewrite_refines_example :
    ((pipewrite false late (map some abc) 0).0 ≡ write_stop 512 (map some abc) 0)
    × Contains (pipewrite false late (map some abc) 0).1 ([] ++ accepted 512 (map some abc))
pipewrite_refines_example = pipewrite_refines (map some abc) 512 late [] 0 late-Contains refl refl

held : Contains (put late 97) (97 ∷ [])
unfolding put
held = record {
  size = refl;
  read_fits = omega arith;
  written = refl;
  room = omega arith;
  stored = (refl, tt);
}

piperead_refines_example :
    let (stop, chs, p') = piperead false (put late 97) (true ∷ true ∷ []) in
    (stop ≡ returned (length (delivered (97 ∷ []) (true ∷ true ∷ []))))
    × (chs ≡ delivered (97 ∷ []) (true ∷ true ∷ []))
    × Contains p' (left_over (97 ∷ []) (true ∷ true ∷ []))
piperead_refines_example =
    piperead_refines false (true ∷ true ∷ []) (put late 97) (97 ∷ []) held (inl (λ e. ground arith))

piperead-pipewrite_example :
    let (sent, p1) = pipewrite false late (map some abc) 0 in
    let (stop, chs, p2) = piperead false p1 (replicate 3 true) in
    (sent ≡ returned 3) × (stop ≡ returned 3) × (chs ≡ abc) × Contains p2 []
piperead-pipewrite_example =
    piperead-pipewrite late [] abc late-Contains refl (omega arith) (λ e. ground arith)

-- ===== src/Pipe/Queue.antt =====
-- The bytes that a pipe holds, oldest first, and one byte in or out. The counters wrap at 2^32,
-- a multiple of the size of the ring, so the places in the ring do not jump there.
use fast_ipc.Base.{
  ℕ, zero, suc, ◌+◌, ◌%◌, ◌^◌, ◌<◌, ◌≤◌, ◌≡◌, ◌↔◌, refl, ◌∙◌, arith, List, [], ◌∷◌, ◌++◌, some,
  true, get_elem?, get_or, set, length, length-set, length-append, get_elem?-set_self,
  get_elem?-set_ne,
}
use fast_ipc.Pipe.{Pipe, put, get, pipe_size, is_full, is_empty, new_pipe}

-- The ring holds the bytes `q` from place `i` on.

abbrev pub Stored : List ℕ → ℕ → List ℕ → Type 0
Stored buf i [] = Unit {0}
Stored buf i (c ∷ q) = (get_elem? buf (i % pipe_size) ≡ some c) × Stored buf (i + 1) q

-- The pipe holds exactly the bytes `q`.
pub record Contains (p : Pipe) (q : List ℕ) : Type 0 where
  pub size : length p.buf ≡ pipe_size
  pub read_fits : p.nread < 2 ^ 32
  pub written : p.nwrite ≡ (p.nread + length q) % 2 ^ 32
  pub room : length q ≤ pipe_size
  pub stored : Stored p.buf p.nread q

Stored-mod :
    (buf : List ℕ) (i j : ℕ) (q : List ℕ)
    → i % pipe_size ≡ j % pipe_size
    → Stored buf i q
    → Stored buf j q
Stored-mod buf i j [] e s = tt
Stored-mod buf i j (c ∷ q) e s = (rw (← e) s.0, Stored-mod buf (i + 1) (j + 1) q (omega arith) s.1)

-- A byte put behind the last one.
Stored-set :
    (buf : List ℕ) (i k c : ℕ) (q : List ℕ)
    → length buf ≡ pipe_size
    → length q < pipe_size
    → k ≡ (i + length q) % pipe_size
    → Stored buf i q
    → Stored (set buf k c) i (q ++ c ∷ [])
Stored-set buf i k c [] size room e s = (
  let same : i % pipe_size ≡ k = omega arith in rw same (get_elem?-set_self buf k c (omega arith)),
  tt,
)
Stored-set buf i k c (d ∷ q) size room e s = (
  get_elem?-set_ne buf k (i % pipe_size) c (omega arith) ∙ s.0,
  Stored-set buf (i + 1) k c q size (omega arith) (omega arith) s.1,
)

get_or_of_some : (xs : List ℕ) (i d : ℕ) {a : ℕ} → get_elem? xs i ≡ some a → get_or xs i d ≡ a
get_or_of_some [] i d e = absurd (ground arith)
get_or_of_some (x ∷ xs) zero d e = ground arith
get_or_of_some (x ∷ xs) (suc i) d e = get_or_of_some xs i d e

pub new_pipe-Contains : (junk : List ℕ) → length junk ≡ pipe_size → Contains (new_pipe junk) []
unfolding new_pipe
new_pipe-Contains junk h = record {
  size = h;
  read_fits = omega arith;
  written = refl;
  room = omega arith;
  stored = tt;
}

-- The test for a full pipe and for an empty one are right, across the wrap of the counters.
pub full_test : (p : Pipe) (q : List ℕ) → Contains p q → (is_full p ≡ true) ↔ (length q ≡ pipe_size)
full_test p q v = ground (arith, v.read_fits, v.written, v.room)

pub empty_test : (p : Pipe) (q : List ℕ) → Contains p q → (is_empty p ≡ true) ↔ (length q ≡ 0)
empty_test p q v = ground (arith, v.read_fits, v.written, v.room)

pub put-Contains :
    (p : Pipe) (q : List ℕ) (c : ℕ)
    → Contains p q
    → length q < pipe_size
    → Contains (put p c) (q ++ c ∷ [])
unfolding put
put-Contains p q c v lt = record {
  size = omega (arith, length-set p.buf (p.nwrite % pipe_size) c, v.size);
  read_fits = v.read_fits;
  written = omega (arith, length-append q (c ∷ []), v.written);
  room = omega (arith, length-append q (c ∷ []));
  stored =
      Stored-set p.buf p.nread (p.nwrite % pipe_size) c q v.size lt (omega (arith, v.written))
        v.stored;
}

pub get-Contains :
    (p : Pipe) (c : ℕ) (q : List ℕ) → Contains p (c ∷ q) → ((get p).0 ≡ c) × Contains (get p).1 q
unfolding get
get-Contains p c q v = (
  get_or_of_some p.buf (p.nread % pipe_size) 0 v.stored.0,
  record {
    size = v.size;
    read_fits = omega arith;
    written = omega (arith, v.written, v.read_fits);
    room = omega (arith, v.room);
    stored = Stored-mod p.buf (p.nread + 1) ((p.nread + 1) % 2 ^ 32) q (omega arith) v.stored.1;
  },
)

-- ===== src/File/Counts.antt =====
-- The counts of the open files against the references that are held.
use fast_ipc.Base.{
  ℕ, zero, suc, ◌+◌, ◌-◌, ◌^◌, ◌<◌, ◌≤◌, ◌≡◌, inl, inr, refl, sym, ap, ◌∙◌, arith, List, [], ◌∷◌,
  false, some, length, ◌==◌, Bool-cases, if◌then◌else◌, ok, set, get_or, get_or-set_self,
  get_or-set_ne, to_int,
}
use fast_ipc.File.{
  File, no_file, filealloc, filedup, fileclose, Release, nothing, release, fd_none, is_unused,
}

-- How often file `i` is held.

abbrev pub count : ℕ → List ℕ → ℕ
count i [] = 0
count i (h ∷ hs) = if i == h then suc (count i hs) else count i hs

-- Each count is the number of the references held to the file, and there are fewer than 2^31.
pub record IsCounted (fs : List File) (hs : List ℕ) : Type 0 where
  pub refs : (i : ℕ) → (get_or fs i no_file).ref ≡ count i hs
  pub few : length hs < 2 ^ 31

count_le : (i : ℕ) (hs : List ℕ) → count i hs ≤ length hs
count_le i [] = omega arith
count_le i (h ∷ hs) = ground (arith, count_le i hs)

-- An entry with a reference lies in the table.
pub in_table : (fs : List File) (i : ℕ) → 0 < (get_or fs i no_file).ref → i < length fs
in_table [] i lt = elim lt [ ]
in_table (f ∷ fs) zero lt = omega arith
in_table (f ∷ fs) (suc i) lt = omega (arith, in_table fs i lt)

-- Setting one count.
refs-set :
    (fs : List File) (i j : ℕ) (f : File)
    → i < length fs
    → (get_or (set fs i f) j no_file).ref ≡ (if j == i then f.ref else (get_or fs j no_file).ref)
refs-set fs i j f lt = elim (Bool-cases (j == i)) [
  | inl same ↦
      (let e : j ≡ i = ground arith in
        rw (same, e) (ap (λ (q : File). q.ref) (get_or-set_self fs i f no_file lt)))
  | inr differ ↦
      rw differ (ap (λ (q : File). q.ref) (get_or-set_ne fs i j f no_file (ground arith)))
]

-- A holder can duplicate a reference: the call succeeds, and one reference more is counted.
pub filedup_lem :
    (fs : List File) (hs : List ℕ) (i : ℕ)
    → IsCounted fs hs
    → 0 < count i hs
    → length hs + 1 < 2 ^ 31
    → (fs' : List File) × (filedup fs i ≡ ok fs') × IsCounted fs' (i ∷ hs)
unfolding filedup
filedup_lem fs hs i v held few =
    let lt : i < length fs = in_table fs i (rw (v.refs i) held) in
    let f = get_or fs i no_file in
    (
      set fs i (record f { ref = to_int (f.ref + 1) }),
      ground (arith, v.refs i, count_le i hs),
      record {
        refs = λ j. ground (
          arith,
          refs-set fs i j (record f { ref = to_int (f.ref + 1) }) lt,
          v.refs i,
          v.refs j,
          count_le i hs,
        );
        few = omega arith;
      },
    )

-- A holder can close its reference: the call succeeds and one reference fewer is counted; where
-- another reference to the file is left, nothing is released, and with the last one the file's pipe
-- or inode is.
pub fileclose_lem :
    (fs : List File) (hs : List ℕ) (i : ℕ)
    → IsCounted fs (i ∷ hs)
    → (r : Release) × (fs' : List File) × (fileclose fs i ≡ ok (r, fs'))
      × IsCounted fs' hs
      × (r ≡ (if count i hs == 0 then release (get_or fs i no_file) else nothing))
unfolding fileclose
fileclose_lem fs hs i v =
    let f = get_or fs i no_file in
    let now : f.ref ≡ suc (count i hs) = ground (arith, v.refs i) in
    let bound = count_le i hs in
    let lt : i < length fs = in_table fs i (omega (arith, now)) in
    let used : is_unused f ≡ false = ground (arith, now, bound, v.few) in
    elim (Bool-cases (count i hs == 0)) [
      | inl last ↦ (
        release f,
        set fs i (record f { ref = 0; kind = fd_none }),
        ground (arith, now, last, used),
        record {
          refs = λ j.
              ground
                (arith, refs-set fs i j (record f { ref = 0; kind = fd_none }) lt, v.refs j, last);
          few = omega (arith, v.few);
        },
        rw last refl,
      )
      | inr more ↦ (
        nothing,
        set fs i (record f { ref = to_int (f.ref + 2 ^ 32 - 1) }),
        ground (arith, now, more, used, bound, v.few),
        record {
          refs = λ j. ground (
            arith,
            refs-set fs i j (record f { ref = to_int (f.ref + 2 ^ 32 - 1) }) lt,
            v.refs j,
            now,
            bound,
            v.few,
          );
          few = omega (arith, v.few);
        },
        rw more refl,
      )
    ]

-- What the search of `filealloc` from index `k` on takes.
filealloc-some :
    (fs : List File) (k i : ℕ)
    → (filealloc fs k).0 ≡ some i
    → (k ≤ i)
      × (i - k < length fs)
      × ((get_or fs (i - k) no_file).ref ≡ 0)
      × ((filealloc fs k).1 ≡ set fs (i - k) (record (get_or fs (i - k) no_file) { ref = 1 }))
unfolding filealloc
filealloc-some [] k i e = absurd (cc)
filealloc-some (f ∷ fs) k i e = elim (Bool-cases (f.ref == 0)) [
  | inl here ↦
      (let same : i - k ≡ 0 = ground arith in
        (ground arith, ground arith, rw same (ground arith), rw (same, here) refl))
  | inr there ↦
      (let (le, lt, free, made) = filealloc-some fs (k + 1) i (rw there at e) in
        let step : i - k ≡ suc (i - (k + 1)) = omega arith in
        (omega arith, omega (arith, lt), rw step free, rw (step, there) (ap (λ r. f ∷ r) made)))
]

-- Where `filealloc` returns a file it is one of the table that nobody holds, and the one new
-- reference is counted.
pub filealloc_lem :
    (fs : List File) (hs : List ℕ) (i : ℕ)
    → IsCounted fs hs
    → length hs + 1 < 2 ^ 31
    → (filealloc fs 0).0 ≡ some i
    → (i < length fs) × (count i hs ≡ 0) × IsCounted (filealloc fs 0).1 (i ∷ hs)
filealloc_lem fs hs i v few e =
    let (le, lt, free, made) = filealloc-some fs 0 i e in
    let same : i - 0 ≡ i = omega arith in
    let inside : i < length fs = omega arith in
    let idle : count i hs ≡ 0 = sym (v.refs i) ∙ (rw same at free) in
    (
      inside,
      idle,
      rw made (record {
        refs = λ j. rw same (
            ground (
              arith,
              refs-set fs i j (record (get_or fs i no_file) { ref = 1 }) inside,
              v.refs j,
              idle,
            ));
        few = omega arith;
      }),
    )

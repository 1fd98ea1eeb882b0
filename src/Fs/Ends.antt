-- ===== src/Fs/Ends.antt =====
-- The loops of `balloc`, `bmap`, `readi` and `writei` do not run out of their rounds, so each call
-- returns or panics.
use fast_ipc.Base.{
  EndsIn-ne-fault, leb, fault, ◌≢◌, ◌*◌, ℕ, zero, suc, ◌+◌, ◌-◌, ◌*◌, ◌/◌, ◌≤◌, ◌≡◌, inl, inr, refl,
  ◌∙◌, arith, List, Option, Bool, false, ◌==◌, ◌||◌, ltb, if◌then◌else◌, Bool-cases, Outcome, ◌>>=◌,
  EndsIn, EndsIn-ok, EndsIn-panic, EndsIn->>=, get_or,
}
use fast_ipc.Memory.{load_le}
use fast_ipc.Fs.{Fs, bsize, balloc, bfree}
use fast_ipc.Fs.Alloc.{used, balloc_lem, bfree_lem}
use fast_ipc.Fs.Inode.{maxfile, Inode, ndirect, nindirect, bmap, bmap_indirect, at_least}
use fast_ipc.Fs.Content.{write_from, writei, chunk, uint, read_from, readi}
use fast_ipc.Fs.Content.Reads.{chunk_lem}

-- Nothing is said of the value.

abbrev pub Any {ℓ} : {X : Type ℓ} → X → Type 0
Any x = Unit {0}

abbrev pub Ends {ℓ} : {X : Type ℓ} → Outcome X → Type 0
Ends run = EndsIn Any run

pub >>=-Ends {ℓ ι} :
    {X : Type ℓ} {Y : Type ι} (run : Outcome X) (next : X → Outcome Y)
    → Ends run
    → ((x : X) → Ends (next x))
    → Ends (run >>= next)
>>=-Ends run next h g = EndsIn->>= Any Any run next h (λ x p. g x)

balloc-Ends : (f : Fs) → Ends (balloc f)
balloc-Ends f = elim (balloc_lem f) [
  | inl (n, f', q, lt, free, first, made) ↦ rw q (EndsIn-ok Any tt)
  | inr (q, full) ↦ rw q (EndsIn-panic Any)
]

bfree-Ends : (f : Fs) (b : ℕ) → Ends (bfree f b)
bfree-Ends f b = elim (Bool-cases (used f b)) [
  | inl u ↦ rw ((bfree_lem f b).0 u).1 (EndsIn-ok Any tt)
  | inr u ↦ rw ((bfree_lem f b).1 u) (EndsIn-panic Any)
]

at_least-Ends : (f : Fs) (a : ℕ) → Ends (at_least f a)
at_least-Ends f a = elim (Bool-cases (a == 0)) [
  | inl e ↦ rw e (balloc-Ends f)
  | inr e ↦ rw e (EndsIn-ok Any tt)
]

bmap_indirect-Ends : (f : Fs) (a bn : ℕ) → Ends (bmap_indirect f a bn)
unfolding bmap_indirect
bmap_indirect-Ends f a bn = elim (Bool-cases (load_le (f.blocks a) (4 * bn) 4 == 0)) [
  | inl e ↦ rw e (>>=-Ends (balloc f) _ (balloc-Ends f) (λ r. (EndsIn-ok Any tt)))
  | inr e ↦ rw e (EndsIn-ok Any tt)
]

-- The inode keeps its size and its place.
abbrev pub Sized : Inode → Inode → Type 0
Sized ip ip' = ip'.size ≡ ip.size

abbrev SizedMap : Inode → ℕ × Inode × Fs → Type 0
SizedMap ip r = Sized ip r.1

bmap-Ends : (f : Fs) (ip : Inode) (bn : ℕ) → EndsIn (SizedMap ip) (bmap f ip bn)
unfolding bmap
bmap-Ends f ip bn = elim (Bool-cases (ltb bn ndirect)) [
  | inl low ↦ rw low (
      EndsIn->>= Any (SizedMap ip) (at_least f (get_or ip.addrs bn 0)) _ (at_least-Ends f _)
        (λ r p. EndsIn-ok (SizedMap ip) refl))
  | inr high ↦ elim (Bool-cases (ltb (bn - ndirect) nindirect)) [
    | inl inside ↦
        rw (high, inside)
          (EndsIn->>= Any (SizedMap ip) (at_least f (get_or ip.addrs ndirect 0)) _
            (at_least-Ends f _)
            (λ r p.
              EndsIn->>= Any (SizedMap ip) (bmap_indirect r.1 r.0 (bn - ndirect)) _
                (bmap_indirect-Ends r.1 r.0 _) (λ s q. EndsIn-ok (SizedMap ip) refl)))
    | inr past ↦ rw (high, past) (EndsIn-panic (SizedMap ip))
  ]
]

abbrev pub SizedRead : Inode → Option ℕ × List ℕ × Inode × Fs → Type 0
SizedRead ip r = Sized ip r.2

read_from-Ends :
    (fuel tot n off : ℕ) (copies : ℕ → Bool) (ip : Inode) (f : Fs)
    → n - tot ≤ fuel
    → EndsIn (SizedRead ip) (read_from (suc fuel) tot n off copies ip f)
unfolding read_from
read_from-Ends zero tot n off copies ip f enough =
    let done : ltb tot n ≡ false = ground arith in rw done (EndsIn-ok (SizedRead ip) refl)
read_from-Ends (suc fuel) tot n off copies ip f enough = elim (Bool-cases (ltb tot n)) [
  | inr done ↦ rw done (EndsIn-ok (SizedRead ip) refl)
  | inl more ↦
      (let fewer : n - (tot + chunk (n - tot) off) ≤ fuel =
          omega (arith, (chunk_lem (n - tot) off (ground arith)).0) in
        rw more (
          EndsIn->>= (SizedMap ip) (SizedRead ip) (bmap f ip (off / bsize)) _ (bmap-Ends f ip _)
            (λ r p. elim (Bool-cases (copies tot)) [
              | inr stop ↦ rw stop (EndsIn-ok (SizedRead ip) p)
              | inl whole ↦ rw whole (
                  EndsIn->>= (SizedRead r.1) (SizedRead ip)
                    (read_from (suc fuel) (tot + chunk (n - tot) off) n (off + chunk (n - tot) off)
                      copies r.1 r.2)
                    _ (read_from-Ends fuel (tot + chunk (n - tot) off) n _ copies r.1 r.2 fewer)
                    (λ s q. EndsIn-ok (SizedRead ip) (q ∙ p)))
            ])))
]

readi-Ends :
    (f : Fs) (ip : Inode) (copies : ℕ → Bool) (off n : ℕ)
    → EndsIn (SizedRead ip) (readi f ip copies off n)
unfolding readi
readi-Ends f ip copies off n = elim (Bool-cases (ltb ip.size off || ltb (uint (off + n)) off)) [
  | inl stop ↦ rw stop (EndsIn-ok (SizedRead ip) refl)
  | inr go ↦ rw go (
      let n' = if ltb ip.size (uint (off + n)) then ip.size - off else n in
      read_from-Ends n' 0 n' off copies ip f (omega arith))
]

write_from-Ends :
    (fuel tot n off : ℕ) (src copies : ℕ → ℕ) (ip : Inode) (f : Fs)
    → n - tot ≤ fuel
    → Ends (write_from (suc fuel) tot n off src copies ip f)
unfolding write_from
write_from-Ends zero tot n off src copies ip f enough =
    let done : ltb tot n ≡ false = ground arith in rw done (EndsIn-ok Any tt)
write_from-Ends (suc fuel) tot n off src copies ip f enough = elim (Bool-cases (ltb tot n)) [
  | inr done ↦ rw done (EndsIn-ok Any tt)
  | inl more ↦
      (let fewer : n - (tot + chunk (n - tot) off) ≤ fuel =
          omega (arith, (chunk_lem (n - tot) off (ground arith)).0) in
        rw more (
          EndsIn->>= (SizedMap ip) Any (bmap f ip (off / bsize)) _ (bmap-Ends f ip _) (λ r p.
            elim (Bool-cases (leb (chunk (n - tot) off) (copies tot))) [
              | inr stop ↦ rw stop (EndsIn-ok Any tt)
              | inl whole ↦ rw whole (
                  write_from-Ends fuel (tot + chunk (n - tot) off) n (off + chunk (n - tot) off) src
                    copies r.1 _ fewer)
            ])))
]

-- `writei` returns or panics.
pub writei_ends :
    (f : Fs) (ip : Inode) (src copies : ℕ → ℕ) (off n : ℕ) → writei f ip src copies off n ≢ fault
unfolding writei
writei_ends f ip src copies off n =
    EndsIn-ne-fault Any (writei f ip src copies off n)
      (elim (Bool-cases (ltb ip.size off || ltb (uint (off + n)) off)) [
        | inl stop ↦ rw stop (EndsIn-ok Any tt)
        | inr go ↦ elim (Bool-cases (ltb (maxfile * bsize) (uint (off + n)))) [
          | inl large ↦ rw (go, large) (EndsIn-ok Any tt)
          | inr fits ↦
              rw (go, fits)
                (>>=-Ends (write_from (suc n) 0 n off src copies ip f) _
                  (write_from-Ends n 0 n off src copies ip f (omega arith)) (λ r. EndsIn-ok Any tt))
        ]
      ])

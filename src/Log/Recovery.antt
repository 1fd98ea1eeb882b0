-- ===== src/Log/Recovery.antt =====
-- A commit against a disk that may stop between any two writes.
use fast_ipc.Base.{
  ℕ, zero, suc, ◌+◌, ◌<◌, ◌≤◌, ◌≡◌, ◌⊎◌, inl, inr, refl, ap, arith, List, [], ◌∷◌, ◌++◌, Bool, true,
  false, length, take,
}
use fast_ipc.Log.{
  Block, Header, Disk, Write, block, head, put, after, after_all, Cache, install_from,
  write_log_from, commit, recover,
}

abbrev pub In : ℕ → Header → Type 0
In n [] = ⊥
In n (b ∷ bs) = (n ≡ b) ⊎ In n bs

-- `p` holds before the writes and after each of them.
abbrev pub Throughout : (Disk → Type 0) → Disk → List Write → Type 0
Throughout p d [] = p d
Throughout p d (w ∷ ws) = p d × Throughout p (after d w) ws

Throughout-append :
    (p : Disk → Type 0) (d : Disk) (ws vs : List Write)
    → Throughout p d ws
    → Throughout p (after_all d ws) vs
    → Throughout p d (ws ++ vs)
Throughout-append p d [] vs h g = g
Throughout-append p d (w ∷ ws) vs h g = (h.0, Throughout-append p (after d w) ws vs h.1 g)

Throughout-last :
    (p : Disk → Type 0) (d : Disk) (ws : List Write) → Throughout p d ws → p (after_all d ws)
Throughout-last p d [] h = h
Throughout-last p d (w ∷ ws) h = Throughout-last p (after d w) ws h.1

Throughout-take :
    (p : Disk → Type 0) (d : Disk) (ws : List Write) (k : ℕ)
    → Throughout p d ws
    → p (after_all d (take k ws))
Throughout-take p d [] zero h = h
Throughout-take p d [] (suc k) h = h
Throughout-take p d (w ∷ ws) zero h = h.0
Throughout-take p d (w ∷ ws) (suc k) h = Throughout-take p (after d w) ws k h.1

Throughout-map :
    (p q : Disk → Type 0) (d : Disk) (ws : List Write)
    → ((e : Disk) → p e → q e)
    → Throughout p d ws
    → Throughout q d ws
Throughout-map p q d [] f h = f d h
Throughout-map p q d (w ∷ ws) f h = (f d h.0, Throughout-map p q (after d w) ws f h.1)

after-append :
    (d : Disk) (ws vs : List Write) → after_all d (ws ++ vs) ≡ after_all (after_all d ws) vs
after-append d [] vs = refl
after-append d (w ∷ ws) vs = after-append (after d w) ws vs

-- The log lies in the `size` blocks from `start` on.
abbrev pub Outside : (start size n : ℕ) → Type 0
Outside start size n = (n < start) ⊎ (start + size ≤ n)

abbrev pub AllOutside : (start size : ℕ) → Header → Type 0
AllOutside start size [] = Unit {0}
AllOutside start size (b ∷ bs) = Outside start size b × AllOutside start size bs

-- The blocks of the log from `tail` on hold the new contents of those that the header lists.
abbrev pub Logged : (start tail : ℕ) → (new contents : ℕ → Block) → Header → Type 0
Logged start tail new m [] = Unit {0}
Logged start tail new m (b ∷ bs) = (m (start + tail + 1) ≡ new b) × Logged start (tail + 1) new m bs

module _ (start size : ℕ) where
  -- No transaction is in the log, and the blocks outside it are those of `m`.
  abbrev pub Holds : (ℕ → Block) → Disk → Type 0
  Holds m d = (d.header ≡ []) × ((n : ℕ) → Outside start size n → d.blocks n ≡ m n)

  -- The transaction `lh` is in the log, and every block that it does not list is as in `new`.
  abbrev pub Pending : (ℕ → Block) → Header → Disk → Type 0
  Pending new lh d =
      (d.header ≡ lh)
      × Logged start 0 new d.blocks lh
      × ((n : ℕ) → Outside start size n → (d.blocks n ≡ new n) ⊎ In n lh)

  Logged-put :
      (tail : ℕ) (new m : ℕ → Block) (bs : Header) (n : ℕ) (b : Block)
      → (n ≤ start + tail) ⊎ (start + size ≤ n)
      → tail + length bs < size
      → Logged start tail new m bs
      → Logged start tail new (put m n b) bs
  Logged-put tail new m [] n b out fits h = tt
  Logged-put tail new m (c ∷ bs) n b out fits h = (
    ground (arith, h.0, out),
    Logged-put (tail + 1) new m bs n b (ground (arith, out)) (omega arith) h.1,
  )

  -- The first phase of a commit: the new contents are copied into the log.
  write_log_lem :
      (new old : ℕ → Block) (tail : ℕ) (bs : Header) (c : Cache) (d : Disk)
      → AllOutside start size bs
      → tail + length bs < size
      → ((n : ℕ) → Outside start size n → c.contents n ≡ new n)
      → Holds old d
      → let (ws, c') = write_log_from start tail bs c in
        Throughout (Holds old) d ws
        × ((n : ℕ) → Outside start size n → c'.contents n ≡ new n)
        × ((n : ℕ)
            → n ≤ start + tail
            → (c'.contents n ≡ c.contents n) × ((after_all d ws).blocks n ≡ d.blocks n))
        × Logged start tail new c'.contents bs
        × Logged start tail new (after_all d ws).blocks bs
  unfolding write_log_from
  write_log_lem new old tail [] c d out fits same h = (h, same, λ n le. (refl, refl), tt, tt)
  write_log_lem new old tail (b ∷ bs) c d out fits same h =
      let at = start + tail + 1 in
      let c1 = record c { contents = put c.contents at (c.contents b) } in
      let d1 = after d (block at (c.contents b)) in
      let (thr, same', keep, inc, ind) =
        write_log_lem new old (tail + 1) bs c1 d1 out.1 (omega arith)
          (λ n o. ground (arith, o, same n o)) (h.0, λ n o. ground (arith, o, h.1 n o)) in
      (
        (h, thr),
        same',
        (λ n le. ground (arith, keep n (omega arith))),
        (ground (arith, keep at (omega arith), same b out.0), inc),
        (ground (arith, keep at (omega arith), same b out.0), ind),
      )

  -- Installing the blocks from `tail` on, while the transaction is in the log.
  install_lem :
      (recovering : Bool) (new : ℕ → Block) (lh : Header) (tail : ℕ) (bs : Header) (c : Cache)
      (d : Disk)
      → AllOutside start size bs
      → tail + length bs < size
      → length lh < size
      → Logged start tail new c.contents bs
      → Pending new lh d
      → let (ws, c') = install_from recovering start tail bs c in
        Throughout (Pending new lh) d ws
        × ((n : ℕ) → (d.blocks n ≡ new n) ⊎ In n bs → (after_all d ws).blocks n ≡ new n)
  unfolding install_from
  install_lem recovering new lh tail [] c d out fits room l h = (h, λ n e. ground (arith, e))
  install_lem recovering new lh tail (b ∷ bs) c d out fits room l h =
      let v = c.contents (start + tail + 1) in
      let d1 = after d (block b v) in
      let o : (b ≤ start + tail) ⊎ (start + size ≤ b) = ground (arith, out.0) in
      let o0 : (b ≤ start + 0) ⊎ (start + size ≤ b) = ground (arith, out.0) in
      let (thr, done) =
        install_lem recovering new lh (tail + 1) bs
          (record c { contents = put c.contents b v; pins = _ }) d1 out.1 (omega arith) room
          (Logged-put (tail + 1) new c.contents bs b v (ground (arith, o)) (omega arith) l.1)
          (
            h.0,
            Logged-put 0 new d.blocks lh b v o0 (omega arith) h.1,
            λ n q. ground (arith, h.2 n q, l.0),
          ) in
      ((h, thr), λ n e. done n (ground (arith, e, l.0)))

  -- What is in the cache when the machine starts.
  abbrev fresh : Disk → Cache
  fresh d = record { contents = d.blocks; pins = λ x. 0 }

  recover_at :
      (d : Disk) (lh : Header)
      → d.header ≡ lh
      → recover start d ≡ (install_from true start 0 lh (fresh d)).0 ++ (head [] ∷ [])
  unfolding recover
  recover_at d lh e = ap (λ x. (install_from true start 0 x (fresh d)).0 ++ (head [] ∷ [])) e

  -- Recovery finishes a transaction that is in the log, and may itself stop at any write.
  recover-Pending :
      (new : ℕ → Block) (lh : Header) (d : Disk)
      → AllOutside start size lh
      → length lh < size
      → Pending new lh d
      → Throughout (λ e. Pending new lh e ⊎ Holds new e) d (recover start d)
        × Holds new (after_all d (recover start d))
  recover-Pending new lh d out room h = rw (recover_at d lh h.0) (
    Throughout-append _ d ws (head [] ∷ [])
        (Throughout-map (Pending new lh) _ d ws (λ e. inl) done.0)
        (inl (Throughout-last (Pending new lh) d ws done.0), inr all),
    rw (after-append d ws (head [] ∷ [])) all,
  )
    where
      ws : List Write
      ws = (install_from true start 0 lh (fresh d)).0

      done :
          Throughout (Pending new lh) d ws
          × ((n : ℕ) → (d.blocks n ≡ new n) ⊎ In n lh → (after_all d ws).blocks n ≡ new n)
      done = install_lem true new lh 0 lh (fresh d) d out (omega arith) room h.1 h

      all : Holds new (after (after_all d ws) (head []))
      all = (refl, λ n o. done.1 n (h.2 n o))

  -- Without one it leaves the blocks as they are.
  recover_idle :
      (m : ℕ → Block) (d : Disk)
      → Holds m d
      → Throughout (Holds m) d (recover start d) × Holds m (after_all d (recover start d))
  unfolding install_from
  recover_idle m d h = rw (recover_at d [] h.0) ((h, (refl, h.1)), (refl, h.1))

  -- The begin of a commit of `lh`, with the blocks `old` on the disk and `new` in the cache: no
  -- transaction is in the log, and `lh` lists, outside the log, all blocks that differ.
  pub record Begins (old new : ℕ → Block) (lh : Header) (c : Cache) (d : Disk) : Type 0 where
    pub listed : AllOutside start size lh
    pub fits : length lh < size
    pub cached : (n : ℕ) → Outside start size n → c.contents n ≡ new n
    pub on_disk : Holds old d
    pub rest : (n : ℕ) → Outside start size n → (old n ≡ new n) ⊎ In n lh

  -- The disk at any point of a commit.
  abbrev pub Between : (old new : ℕ → Block) → Header → Disk → Type 0
  Between old new lh d = Holds old d ⊎ (Pending new lh d ⊎ Holds new d)

  commit_lem :
      (old new : ℕ → Block) (lh : Header) (c : Cache) (d : Disk)
      → Begins old new lh c d
      → Throughout (Between old new lh) d (commit start lh c).0
        × Holds new (after_all d (commit start lh c).0)
  unfolding commit
  commit_lem old new [] c d h =
      (inl h.on_disk, (h.on_disk.0, λ n o. ground (arith, h.on_disk.1 n o, h.rest n o)))
  commit_lem old new (b ∷ bs) c d h = (
    Throughout-append _ d logged _ (Throughout-map (Holds old) _ d logged (λ e. inl) first.0) (
      inl idle,
      Throughout-append _ d2 installed (head [] ∷ [])
          (Throughout-map (Pending new lh) _ d2 installed (λ e p. inr (inl p)) second.0)
          (inr (inl (Throughout-last (Pending new lh) d2 installed second.0)), inr (inr all)),
    ),
    rw
        (
          after-append d logged (head lh ∷ (installed ++ (head [] ∷ []))),
          after-append d2 installed (head [] ∷ []),
        )
        all,
  )
    where
      lh : Header
      lh = b ∷ bs

      fits0 : 0 + length lh < size
      fits0 = omega (arith, h.fits)

      logged : List Write
      logged = (write_log_from start 0 lh c).0

      c1 : Cache
      c1 = (write_log_from start 0 lh c).1

      first :
          Throughout (Holds old) d logged
          × ((n : ℕ) → Outside start size n → c1.contents n ≡ new n)
          × ((n : ℕ)
              → n ≤ start + 0
              → (c1.contents n ≡ c.contents n) × ((after_all d logged).blocks n ≡ d.blocks n))
          × Logged start 0 new c1.contents lh
          × Logged start 0 new (after_all d logged).blocks lh
      first = write_log_lem new old 0 lh c d h.listed fits0 h.cached h.on_disk

      idle : Holds old (after_all d logged)
      idle = Throughout-last (Holds old) d logged first.0

      d2 : Disk
      d2 = after (after_all d logged) (head lh)

      installed : List Write
      installed = (install_from false start 0 lh c1).0

      pending : Pending new lh d2
      pending = (refl, first.4, λ n o. ground (arith, idle.1 n o, h.rest n o))

      second :
          Throughout (Pending new lh) d2 installed
          × ((n : ℕ) → (d2.blocks n ≡ new n) ⊎ In n lh → (after_all d2 installed).blocks n ≡ new n)
      second = install_lem false new lh 0 lh c1 d2 h.listed fits0 h.fits first.3 pending

      all : Holds new (after (after_all d2 installed) (head []))
      all = (refl, λ n o. second.1 n (pending.2 n o))

-- A commit is atomic, where no transaction is in the log at its begin, the header lists blocks
-- outside the log, fewer than the log has, and all whose contents in the cache differ from the disk:
-- the machine may stop after any number of its writes, and again after any number of the writes of
-- the recovery that follows; after one more recovery, which runs to its end, no transaction is in the
-- log, and the blocks outside the log are all as before the commit, or all as in the cache.
pub commit_atomic :
    (start size : ℕ) (old new : ℕ → Block) (lh : Header) (c : Cache) (d : Disk) (k j : ℕ)
    → Begins start size old new lh c d
    → let d1 = after_all d (take k (commit start lh c).0) in
      let d2 = after_all d1 (take j (recover start d1)) in
      let d3 = after_all d2 (recover start d2) in Holds start size old d3 ⊎ Holds start size new d3
commit_atomic start size old new lh c d k j h =
    elim (Throughout-take (Between start size old new lh) d _ k
      (commit_lem start size old new lh c d h).0) [
        | inl a ↦ inl (idle old a)
        | inr (inr a) ↦ inr (idle new a)
        | inr (inl a) ↦
            elim (Throughout-take (λ e. Pending start size new lh e ⊎ Holds start size new e) d1 _ j
              (recover-Pending start size new lh d1 h.listed h.fits a).0) [
                | inl b ↦ inr (recover-Pending start size new lh _ h.listed h.fits b).1
                | inr b ↦ inr (recover_idle start size new _ b).1
              ]
      ]
  where
    d1 : Disk
    d1 = after_all d (take k (commit start lh c).0)

    idle :
        (m : ℕ → Block)
        → Holds start size m d1
        → Holds start size m (
            after_all
              (after_all d1 (take j (recover start d1)))
              (recover start (after_all d1 (take j (recover start d1)))))
    idle m a =
        (recover_idle start size m _
          (Throughout-take (Holds start size m) d1 _ j (recover_idle start size m d1 a).0)).1

-- From the same begin, a commit that runs to its end leaves every block outside the log as it was in
-- the cache, and no transaction in the log.
pub commit_done :
    (start size : ℕ) (old new : ℕ → Block) (lh : Header) (c : Cache) (d : Disk)
    → Begins start size old new lh c d
    → Holds start size new (after_all d (commit start lh c).0)
commit_done start size old new lh c d h = (commit_lem start size old new lh c d h).1

-- ===== src/Bcache/Read.antt =====
-- `bread` of kernel/bio.c: a buffer with the block's bytes, whatever it takes to find it one.
use os_assignments.Prelude.{
  ℕ, ◌+◌, ◌<◌, ◌≡◌, ◌≢◌, refl, ◌∙◌, true, false, inl, inr, arith, List, Bool-cases, Option, none,
  some, word,
}
use os_assignments.Bcache.{
  Block, Bcache, Storage, Bread, panics, waits, returns, root_dev, nbuf, is_block, take_ref,
  recycled, set_buf, read_in, acquiresleep, bread_locked, bread_resume, bread_got, bread, bget,
}
use os_assignments.Bcache.Get.{Gets, bget-Gets}
use os_assignments.Bcache.Contents.{
  Shows, IsSound, Keeps, Alike, touch-IsSound, touch-Keeps, recycle-IsSound, recycle-Keeps,
  read_in-IsSound, read_in-Keeps,
}

-- A buffer of the block in use.
abbrev pub Serves : (dev blockno b : ℕ) → Storage → Type 0
Serves dev blockno b s =
    (b < nbuf) × (is_block dev blockno (s.cache.buf b) ≡ true) × ((s.cache.buf b).refcnt ≢ 0)

-- Buffer `b` has `more` references than it had, and the other buffers are as they were.
abbrev pub Counted : (more b : ℕ) → Storage → Storage → Type 0
Counted more b s s' =
    ((s'.cache.buf b).refcnt ≡ (s.cache.buf b).refcnt + more)
    × ((q : ℕ) → q ≢ b → s'.cache.buf q ≡ s.cache.buf q)

-- How a call of `bread` that takes `more` references ends or sleeps.
abbrev pub Reads : (more me dev blockno : ℕ) → Storage → List ℕ → Bread → Type 0
Reads more me dev blockno s xs panics =
    (b : ℕ)
    → b < nbuf
    → ((s.cache.buf b).refcnt ≢ 0) × (is_block dev blockno (s.cache.buf b) ≡ false)
Reads more me dev blockno s xs (waits b s') =
    Serves dev blockno b s'
    × Counted more b s s'
    × ((s'.cache.buf b).lock.locked ≡ true)
    × IsSound s' xs
    × Keeps s s'
Reads more me dev blockno s xs (returns b s') =
    Serves dev blockno b s'
    × Counted more b s s'
    × ((s'.cache.buf b).lock ≡ record { locked = true; pid = me })
    × ((s'.cache.buf b).valid ≡ true)
    × ((w : Block) → Shows s dev blockno w → (s'.cache.buf b).bytes ≡ w)
    × IsSound s' xs
    × Keeps s s'

Counted-then :
    (more b : ℕ) (s s1 s2 : Storage) → Counted more b s s1 → Counted 0 b s1 s2 → Counted more b s s2
Counted-then more b s s1 s2 (n, others) (m, others2) =
    (omega (arith, n, m), λ q ne. others2 q ne ∙ others q ne)

module _ (me dev blockno : ℕ) (named : dev ≡ root_dev) (xs : List ℕ) where
  read_in-Serves :
      (b : ℕ) (s : Storage)
      → Serves dev blockno b s
      → Serves dev blockno b (read_in b s)
        × ((read_in b s).cache.buf b).lock ≡ (s.cache.buf b).lock
        × (((read_in b s).cache.buf b).valid ≡ true)
        × Counted 0 b s (read_in b s)
  unfolding read_in
  read_in-Serves b s (lt, held, used) =
      (ground arith, ground arith, ground arith, (ground arith, λ q ne. ground arith))

  read_in-Reads :
      (more b : ℕ) (s s1 : Storage)
      → IsSound s1 xs
      → Keeps s s1
      → Serves dev blockno b s1
      → Counted more b s s1
      → (s1.cache.buf b).lock ≡ record { locked = true; pid = me }
      → Reads more me dev blockno s xs (returns b (read_in b s1))
  read_in-Reads more b s s1 sound keeps serves counted locked =
      let named1 : (s1.cache.buf b).dev ≡ root_dev = ground (arith, named, serves.1) in
      let (serves2, same, is_valid, counted2) = read_in-Serves b s1 serves in
      let keeps2 : Keeps s (read_in b s1) =
        λ d k w h. read_in-Keeps s1 xs sound b serves.0 named1 d k w (keeps d k w h) in
      (
        serves2,
        Counted-then more b s s1 (read_in b s1) counted counted2,
        same ∙ locked,
        is_valid,
        λ w h. (keeps2 dev blockno w h).0 b serves2.0 serves2.1 is_valid,
        read_in-IsSound s1 xs sound b serves.0 named1,
        keeps2,
      )

  pub bread_resume-Reads :
      (more b : ℕ) (s0 s : Storage)
      → IsSound s xs
      → Keeps s0 s
      → Serves dev blockno b s
      → Counted more b s0 s
      → Reads more me dev blockno s0 xs (bread_resume me b s)
  unfolding bread_resume bread_locked acquiresleep
  bread_resume-Reads more b s0 s sound keeps (lt, held, used) counted =
      elim (Bool-cases (s.cache.buf b).lock.locked) [
        | inl busy ↦ rw busy ((lt, held, used), counted, busy, sound, keeps)
        | inr idle ↦
            let v = record (s.cache.buf b) { lock = record { locked = true; pid = me } } in
            let alike : Alike (s.cache.buf b) v = (refl, refl, refl, refl) in
            let sound1 =
              touch-IsSound s xs sound b lt v alike (λ is_valid free. sound.2 b lt is_valid free) in
            let keeps1 : Keeps s0 (set_buf b v s) =
              λ d k w h. touch-Keeps s xs sound b lt v alike d k w (keeps d k w h) in
            rw idle (
              read_in-Reads more b s0 (set_buf b v s) sound1 keeps1
                ((lt, ground arith, ground arith))
                (Counted-then more b s0 s (set_buf b v s) counted
                  (ground arith, λ q ne. ground arith))
                (ground arith))
      ]

  module _ (s : Storage) (sound : IsSound s xs)
      (few : (b : ℕ) → b < nbuf → (s.cache.buf b).refcnt + 1 < word) where
    bread_got-Reads :
        (got : Option (ℕ × Bcache))
        → Gets dev blockno s.cache xs got
        → Reads 1 me dev blockno s xs (bread_got me got s)
    unfolding bread_got
    bread_got-Reads none (miss, used) = λ b lt. (used b lt, miss b lt)
    bread_got-Reads (some (b, c)) (lt, inl (held, e)) =
        let v = take_ref (s.cache.buf b) in
        let alike : Alike (s.cache.buf b) v = (refl, refl, refl, refl) in
        rw e (
          bread_resume-Reads 1 b s (set_buf b v s)
            (touch-IsSound s xs sound b lt v alike
              (λ is_valid free. absurd (ground (arith, few b lt))))
            (touch-Keeps s xs sound b lt v alike)
            (lt, ground (arith, held), ground (arith, few b lt))
            (ground (arith, few b lt), λ q ne. ground arith))
    bread_got-Reads (some (b, c)) (lt, inr (miss, free, e, _)) = rw e (
        bread_resume-Reads 1 b s (set_buf b (recycled dev blockno (s.cache.buf b)) s)
          (recycle-IsSound s xs sound b lt dev blockno free miss)
          (recycle-Keeps s xs sound b lt dev blockno free miss) (lt, ground arith, ground arith)
          (ground (arith, free), λ q ne. ground arith))

    pub bread-Reads : Reads 1 me dev blockno s xs (bread me dev blockno s)
    unfolding bread
    bread-Reads =
        bread_got-Reads (bget dev blockno s.cache) (bget-Gets dev blockno s.cache xs sound.0)

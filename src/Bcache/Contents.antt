-- ===== src/Bcache/Contents.antt =====
-- What the cache of kernel/bio.c shows of each block: the bytes of a valid buffer, or else the
-- disk's. The changes that `bread` makes to a buffer keep it.
use os_assignments.Prelude.{
  ℕ, ◌<◌, ◌≡◌, ◌≢◌, refl, true, false, inl, inr, arith, List, ◌==◌, ◌&&◌, Bool-cases,
}
use os_assignments.Bcache.{
  Block, Buf, Bcache, Storage, root_dev, nbuf, is_block, recycled, set_buf, read_in,
}
use os_assignments.Bcache.Get.{IsList}

-- Every valid buffer of the block has the bytes `w`, and without one the disk has.
abbrev pub Shows : Storage → (dev blockno : ℕ) → Block → Type 0
Shows s dev blockno w =
    ((b : ℕ)
      → b < nbuf
      → is_block dev blockno (s.cache.buf b) ≡ true
      → (s.cache.buf b).valid ≡ true
      → (s.cache.buf b).bytes ≡ w)
    × (((b : ℕ)
          → b < nbuf
          → is_block dev blockno (s.cache.buf b) ≡ true
          → (s.cache.buf b).valid ≡ false)
        → s.disk blockno ≡ w)

-- No two buffers hold the same block. Device 0 is what the buffers name before their first use.
abbrev pub Unique : Bcache → Type 0
Unique c =
    (b q : ℕ)
    → b < nbuf
    → q < nbuf
    → (c.buf b).dev ≢ 0
    → (c.buf b).dev ≡ (c.buf q).dev
    → (c.buf b).blockno ≡ (c.buf q).blockno
    → b ≡ q

-- A buffer that may be recycled has the bytes of the disk.
abbrev pub IsClean : (disk : ℕ → Block) → Buf → Type 0
IsClean disk v = v.valid ≡ true → v.refcnt ≡ 0 → v.bytes ≡ disk v.blockno

abbrev pub IsSound : Storage → List ℕ → Type 0
IsSound s xs =
    IsList s.cache xs
    × Unique s.cache
    × ((b : ℕ) → b < nbuf → IsClean s.disk (s.cache.buf b))
    × ((b : ℕ) → b < nbuf → (s.cache.buf b).valid ≡ true → (s.cache.buf b).dev ≡ root_dev)

abbrev pub Keeps : Storage → Storage → Type 0
Keeps s s' = (dev blockno : ℕ) (w : Block) → Shows s dev blockno w → Shows s' dev blockno w

-- The same block with the same bytes.
abbrev pub Alike : Buf → Buf → Type 0
Alike v v' =
    (v'.dev ≡ v.dev) × (v'.blockno ≡ v.blockno) × (v'.valid ≡ v.valid) × (v'.bytes ≡ v.bytes)

module _ (s : Storage) (xs : List ℕ) (sound : IsSound s xs) (b : ℕ) (lt : b < nbuf) where
  pub touch-IsSound :
      (v : Buf) → Alike (s.cache.buf b) v → IsClean s.disk v → IsSound (set_buf b v s) xs
  touch-IsSound v alike clean = (
    sound.0,
    λ p q lp lq. ground (arith, sound.1 p q lp lq),
    λ q lq. elim (Bool-cases (q == b)) [ inl e ↦ rw e clean | inr e ↦ rw e (sound.2 q lq) ],
    λ q lq is_valid. ground (arith, sound.3 q lq),
  )

  pub touch-Keeps : (v : Buf) → Alike (s.cache.buf b) v → Keeps s (set_buf b v s)
  touch-Keeps v alike dev blockno w (cached, stored) = (
    λ q lq. ground (arith, cached q lq),
    λ none_valid. stored (λ q lq. ground (arith, none_valid q lq)),
  )

  -- A buffer without references takes over a block that no buffer holds.
  module _ (dev blockno : ℕ) (free : (s.cache.buf b).refcnt ≡ 0)
      (miss : (q : ℕ) → q < nbuf → is_block dev blockno (s.cache.buf q) ≡ false) where
    abbrev taken : Storage
    taken = set_buf b (recycled dev blockno (s.cache.buf b)) s

    pub recycle-IsSound : IsSound taken xs
    recycle-IsSound = (
      sound.0,
      λ p q lp lq. ground (arith, sound.1 p q lp lq, miss p lp, miss q lq),
      λ q lq. elim (Bool-cases (q == b)) [
        | inl e ↦ rw e (λ is_valid none_left. ground arith)
        | inr e ↦ rw e (sound.2 q lq)
      ],
      λ q lq is_valid. ground (arith, sound.3 q lq),
    )

    pub recycle-Keeps : Keeps s taken
    recycle-Keeps d k w (cached, stored) = (
      λ q lq. ground (arith, cached q lq),
      λ none_valid. elim (Bool-cases (is_block d k (s.cache.buf b) && (s.cache.buf b).valid)) [
        | inl held ↦ ground (arith, cached b lt, sound.2 b lt)
        | inr other ↦ stored (λ q lq. ground (arith, none_valid q lq))
      ],
    )

  module _ (named : (s.cache.buf b).dev ≡ root_dev) where
    pub read_in-IsSound : IsSound (read_in b s) xs
    unfolding read_in
    read_in-IsSound = elim (Bool-cases (s.cache.buf b).valid) [
      | inl is_valid ↦ rw is_valid sound
      | inr stale ↦ rw stale (
        sound.0,
        λ p q lp lq. ground (arith, sound.1 p q lp lq),
        λ q lq. elim (Bool-cases (q == b)) [
          | inl e ↦ rw e (λ is_valid none_left. refl)
          | inr e ↦ rw e (sound.2 q lq)
        ],
        λ q lq is_valid. ground (arith, sound.3 q lq),
      )
    ]

    -- The other buffers of its block are none.
    only :
        (valid : (s.cache.buf b).valid ≡ false) (d k : ℕ)
        → is_block d k (s.cache.buf b) ≡ true
        → (q : ℕ) → q < nbuf
        → is_block d k (s.cache.buf q) ≡ true
        → (s.cache.buf q).valid ≡ false
    only valid d k same q lq same' = ground (arith, sound.1 b q lt lq)

    pub read_in-Keeps : Keeps s (read_in b s)
    unfolding read_in
    read_in-Keeps d k w (cached, stored) = elim (Bool-cases (s.cache.buf b).valid) [
      | inl is_valid ↦ rw is_valid (cached, stored)
      | inr stale ↦ elim (Bool-cases (is_block d k (s.cache.buf b))) [
        | inl held ↦
            let on_disk : s.disk k ≡ w = stored (only stale d k held) in
            rw stale (λ q lq. ground (arith, cached q lq), λ none_valid. on_disk)
        | inr other ↦ rw stale (
          λ q lq. ground (arith, cached q lq),
          λ none_valid. stored (λ q lq. ground (arith, none_valid q lq)),
        )
      ]
    ]

-- ===== src/Bcache/Release.antt =====
-- `brelse` of kernel/bio.c: a buffer without references becomes the most recently used.
use os_assignments.Prelude.{
  fun_ext, ℕ, ◌∙◌, ◌+◌, ◌-◌, ◌%◌, ◌<◌, ◌≡◌, ◌≢◌, refl, sym, Bool, true, false, inl, inr, arith,
  List, [], ◌∷◌, ◌++◌, length, On, ◌==◌, if◌then◌else◌, Bool-cases, update, Option, none, some,
  word,
}
use mathlib.Core.Path.{subst}
use os_assignments.Bcache.{
  Buf, Bcache, Storage, nbuf, put_buf, set_buf, holdingsleep, releasesleep, push, unlink, drop_ref,
  brelse,
}
use os_assignments.Bcache.Lru.{Ring-push, Ring-unlink}
use os_assignments.Bcache.Links.{Distinct-remove}
use os_assignments.Bcache.Get.{IsList, On-split}
use os_assignments.Bcache.Contents.{IsSound, Keeps, touch-IsSound, touch-Keeps}

length-middle : (b : ℕ) (ys zs : List ℕ) → length (b ∷ (ys ++ zs)) ≡ length (ys ++ b ∷ zs)
length-middle b [] zs = refl
length-middle b (y ∷ ys) zs = omega (arith, length-middle b ys zs)

On-to_front : (b q : ℕ) (ys zs : List ℕ) → On q (ys ++ b ∷ zs) → On q (b ∷ (ys ++ zs))
On-to_front b q [] zs on = on
On-to_front b q (y ∷ ys) zs (inl e) = inr (inl e)
On-to_front b q (y ∷ ys) zs (inr on) = elim (On-to_front b q ys zs on) [
  | inl e ↦ inl e
  | inr more ↦ inr (inr more)
]

On-back : (b q : ℕ) (ys zs : List ℕ) → On q (b ∷ (ys ++ zs)) → On q (ys ++ b ∷ zs)
On-back b q [] zs on = on
On-back b q (y ∷ ys) zs (inl e) = inr (On-back b q ys zs (inl e))
On-back b q (y ∷ ys) zs (inr (inl e)) = inl e
On-back b q (y ∷ ys) zs (inr (inr on)) = inr (On-back b q ys zs (inr on))

abbrev to_front : ℕ → Bcache → Bcache
to_front b c = push b (unlink b c)

to_front-IsList :
    (c : Bcache) (b : ℕ) (ys zs : List ℕ)
    → b < nbuf
    → IsList c (ys ++ b ∷ zs)
    → IsList (to_front b c) (b ∷ (ys ++ zs))
to_front-IsList c b ys zs lt (ring, small, lo, hi) = (
  Ring-push b (unlink b c) (ys ++ zs) (Ring-unlink b c ys zs ring) (omega arith)
      (Distinct-remove b ys zs ring.1.1).1,
  omega (arith, length-middle b ys zs),
  λ q on. lo q (On-back b q ys zs on),
  λ q lq. On-to_front b q ys zs (hi q lq),
)

to_front-buf : (c : Bcache) (b : ℕ) → (to_front b c).buf ≡ c.buf
unfolding push unlink
to_front-buf c b = refl

abbrev pub dropped : Buf → Buf
dropped v = record v { refcnt = v.refcnt - 1 }

abbrev pub released : Buf → Buf
released v = record v { lock = record { locked = false; pid = 0 }; refcnt = v.refcnt - 1 }

-- The list after a release: the buffer in front if that was its last reference.
abbrev pub Moved : (b : ℕ) → (last : Bool) → (xs xs' : List ℕ) → Type 0
Moved b false xs xs' = xs' ≡ xs
Moved b true xs xs' = (ys : List ℕ) × (zs : List ℕ) × (xs ≡ ys ++ b ∷ zs) × (xs' ≡ b ∷ (ys ++ zs))

-- What the critical section of `brelse` has done.
abbrev pub Drops : (b : ℕ) → Storage → List ℕ → Bcache → Type 0
Drops b s xs c =
    (c.buf ≡ update s.cache.buf b (dropped (s.cache.buf b)))
    × Keeps s (record s { cache = c })
    × ((xs' : List ℕ) × Moved b ((s.cache.buf b).refcnt == 1) xs xs'
        × IsSound (record s { cache = c }) xs')

abbrev pub Releases : (me b : ℕ) → Storage → List ℕ → Option Bcache → Type 0
Releases me b s xs none = holdingsleep me (s.cache.buf b).lock ≡ false
Releases me b s xs (some c) =
    (holdingsleep me (s.cache.buf b).lock ≡ true)
    × (c.buf ≡ update s.cache.buf b (released (s.cache.buf b)))
    × Keeps s (record s { cache = c })
    × ((xs' : List ℕ) × Moved b ((s.cache.buf b).refcnt == 1) xs xs'
        × IsSound (record s { cache = c }) xs')

module _ (b : ℕ) (s : Storage) (xs : List ℕ) (sound : IsSound s xs) (lt : b < nbuf)
    (used : (s.cache.buf b).refcnt ≢ 0) (few : (s.cache.buf b).refcnt < word)
    (clean : (s.cache.buf b).refcnt ≡ 1
      → (s.cache.buf b).valid ≡ true
      → (s.cache.buf b).bytes ≡ s.disk (s.cache.buf b).blockno) where
  abbrev v : Buf
  v = s.cache.buf b

  one_less : (v.refcnt + (word - 1)) % word ≡ v.refcnt - 1
  one_less = ground arith

  kept-IsSound : IsSound (set_buf b (dropped v) s) xs
  kept-IsSound =
      touch-IsSound s xs sound b lt (dropped v) (refl, refl, refl, refl)
        (λ is_valid free. clean (ground arith) is_valid)

  kept-Keeps : Keeps s (set_buf b (dropped v) s)
  kept-Keeps = touch-Keeps s xs sound b lt (dropped v) (refl, refl, refl, refl)

  front-IsSound :
      (xs' : List ℕ) × Moved b true xs xs'
      × IsSound (record s { cache = to_front b (put_buf b (dropped v) s.cache) }) xs'
  unfolding push unlink
  front-IsSound =
      let (ys, zs, e) = On-split b xs (sound.0.3 b lt) in
      let is : IsList (put_buf b (dropped v) s.cache) (ys ++ b ∷ zs) =
        subst (IsList (put_buf b (dropped v) s.cache)) e kept-IsSound.0 in
      (
        b ∷ (ys ++ zs),
        (ys, zs, e, refl),
        (
          to_front-IsList (put_buf b (dropped v) s.cache) b ys zs lt is,
          kept-IsSound.1,
          kept-IsSound.2,
          kept-IsSound.3,
        ),
      )

  drop_ref-cases : drop_ref b s.cache ≡ (
      if v.refcnt == 1
      then to_front b (put_buf b (dropped v) s.cache)
      else put_buf b (dropped v) s.cache)
  unfolding drop_ref
  drop_ref-cases =
      let refs : (v.refcnt - 1 == 0) ≡ (v.refcnt == 1) = ground arith in rw (one_less, refs) refl

  -- The critical section of brelse for a buffer in use, which is clean if this is its last reference.
  pub drop_ref-Drops : Drops b s xs (drop_ref b s.cache)
  unfolding drop_ref push unlink
  drop_ref-Drops = subst (Drops b s xs) (sym drop_ref-cases) (elim (Bool-cases (v.refcnt == 1)) [
    | inl last ↦ rw last (refl, kept-Keeps, front-IsSound)
    | inr more ↦ rw more (refl, kept-Keeps, (xs, refl, kept-IsSound))
  ])

pub update_twice : (f : ℕ → Buf) (b : ℕ) (v w : Buf) → update (update f b v) b w ≡ update f b w
update_twice f b v w = fun_ext (λ q. ground arith)

module _ (me b : ℕ) (s : Storage) (xs : List ℕ) (sound : IsSound s xs) (lt : b < nbuf)
    (used : (s.cache.buf b).refcnt ≢ 0) (few : (s.cache.buf b).refcnt < word)
    (clean : (s.cache.buf b).refcnt ≡ 1
      → (s.cache.buf b).valid ≡ true
      → (s.cache.buf b).bytes ≡ s.disk (s.cache.buf b).blockno) where
  abbrev u : Buf
  u = record (s.cache.buf b) { lock = record { locked = false; pid = 0 } }

  -- The lock is free, and the buffer is still referenced.
  abbrev unlocked : Storage
  unlocked = set_buf b u s

  unlocked-Drops : Drops b unlocked xs (drop_ref b unlocked.cache)
  unlocked-Drops =
      drop_ref-Drops b unlocked xs
        (touch-IsSound s xs sound b lt u (refl, refl, refl, refl)
          (λ is_valid free. absurd (used free)))
        lt (ground arith) (ground arith) (ground (arith, clean))

  -- brelse of a buffer in use, which is clean if this is its last reference: it panics exactly for
  -- a caller that does not hold the buffer's lock; else the lock is free, there is one reference
  -- less, and with the last one the buffer moves to the front of the list. The cache stays sound
  -- and shows the same bytes for every block.
  pub brelse-Releases : Releases me b s xs (brelse me b s.cache)
  unfolding brelse releasesleep
  brelse-Releases = elim (Bool-cases (holdingsleep me (s.cache.buf b).lock)) [
    | inr other ↦ rw other other
    | inl held ↦
        let (bufs, keeps, list) = unlocked-Drops in
        let same : (b == b) ≡ true = ground arith in
        rw held (
          held,
          bufs ∙ rw same (update_twice s.cache.buf b u (released (s.cache.buf b))),
          λ d k w h. keeps d k w (touch-Keeps s xs sound b lt u (refl, refl, refl, refl) d k w h),
          subst
              (λ (n : ℕ).
                (xs' : List ℕ) × Moved b (n == 1) xs xs'
                × IsSound (record s { cache = drop_ref b unlocked.cache }) xs')
              (ground arith) list,
        )
  ]

-- ===== src/Bcache/Get.antt =====
-- `bget` of kernel/bio.c on a cache whose list is in order.
use os_assignments.Prelude.{
  ℕ, ◌≤◌, ◌<◌, ◌≡◌, ◌≢◌, refl, sym, ap, ◌∙◌, Bool, true, false, Option, none, some, ◌⊎◌, inl, inr,
  arith, List, [], ◌∷◌, ◌++◌, length, On, ◌==◌, if◌then◌else◌, ==→eq, ==_false→ne, Bool-cases,
}
use mathlib.Core.Path.{subst}
use os_assignments.Bcache.{
  Bcache, nbuf, scan, is_block, take_ref, recycled, put_buf, bget_new, bget_at, bget,
}
use os_assignments.Bcache.Lru.{
  Ring, Links-Walk, Walk-back, scan-Walk, first_of, last_of, or_else, or_else-none, rev_onto,
  first_of-rev, length-rev_onto, Fresh-rev_onto,
}

-- What a search along the list finds.
pub Found : (ℕ → Bool) → List ℕ → Option ℕ → Type 0
Found test xs none = (b : ℕ) → On b xs → test b ≡ false
Found test xs (some b) = On b xs × (test b ≡ true)

Found-later :
    (test : ℕ → Bool) (x : ℕ) (xs : List ℕ) (o : Option ℕ)
    → test x ≡ false
    → Found test xs o
    → Found test (x ∷ xs) o
unfolding Found
Found-later test x xs none miss f =
    λ b on. elim on [ inl e ↦ ground (arith, miss) | inr more ↦ f b more ]
Found-later test x xs (some b) miss (on, hit) = (inr on, hit)

pub first_of-Found : (test : ℕ → Bool) (xs : List ℕ) → Found test xs (first_of test xs)
unfolding first_of Found
first_of-Found test [] = λ b on. absurd on
first_of-Found test (x ∷ xs) = elim (Bool-cases (test x)) [
  | inl hit ↦ rw hit (inl refl, hit)
  | inr miss ↦ rw miss (Found-later test x xs (first_of test xs) miss (first_of-Found test xs))
]

-- The last of the list that passes, with those behind it that do not.
pub FoundLast : (ℕ → Bool) → List ℕ → Option ℕ → Type 0
FoundLast test xs none = (b : ℕ) → On b xs → test b ≡ false
FoundLast test xs (some b) =
    (ys : List ℕ) × (zs : List ℕ) × (xs ≡ ys ++ b ∷ zs)
    × (test b ≡ true)
    × ((q : ℕ) → On q zs → test q ≡ false)

FoundLast-later :
    (test : ℕ → Bool) (x : ℕ) (xs : List ℕ) (o : Option ℕ)
    → FoundLast test xs o
    → FoundLast test (x ∷ xs) (or_else o (if test x then some x else none))
unfolding FoundLast
FoundLast-later test x xs none f = elim (Bool-cases (test x)) [
  | inl hit ↦ rw hit ([], xs, refl, hit, f)
  | inr miss ↦ rw miss (λ b on. elim on [ inl e ↦ ground (arith, miss) | inr more ↦ f b more ])
]
FoundLast-later test x xs (some b) (ys, zs, e, hit, f) = (x ∷ ys, zs, ap (λ l. x ∷ l) e, hit, f)

pub last_of-FoundLast : (test : ℕ → Bool) (xs : List ℕ) → FoundLast test xs (last_of test xs)
unfolding last_of FoundLast
last_of-FoundLast test [] = λ b on. absurd on
last_of-FoundLast test (x ∷ xs) =
    FoundLast-later test x xs (last_of test xs) (last_of-FoundLast test xs)

-- A cache whose list holds each of the buffers once.
abbrev pub IsList : Bcache → List ℕ → Type 0
IsList c xs =
    Ring c xs × (length xs ≤ nbuf) × ((b : ℕ) → On b xs → b < nbuf) × ((b : ℕ) → b < nbuf → On b xs)

module _ (c : Bcache) (xs : List ℕ) (is : IsList c xs) where
  pub scan-next : (test : ℕ → Bool) → scan c.next nbuf (c.next nbuf) test ≡ first_of test xs
  scan-next test =
      scan-Walk c.next test nbuf nbuf xs is.1 is.0.1.0
        (Links-Walk c.next c.prev nbuf nbuf xs is.0.0)

  pub scan-prev : (test : ℕ → Bool) → scan c.prev nbuf (c.prev nbuf) test ≡ last_of test xs
  unfolding first_of
  scan-prev test =
      let back =
        scan-Walk c.prev test nbuf nbuf (rev_onto xs [])
          (omega (arith, length-rev_onto xs [], is.1)) (Fresh-rev_onto nbuf xs [] is.0.1.0 tt)
          (Walk-back c.next c.prev nbuf xs is.0.0) in
      back ∙ (first_of-rev test xs [] ∙ or_else-none (last_of test xs))

-- How `bget` ends: it has found the block, or it has recycled the least recently used free buffer, or every
-- buffer is in use.
abbrev pub Gets : (dev blockno : ℕ) → Bcache → List ℕ → Option (ℕ × Bcache) → Type 0
Gets dev blockno c xs none =
    ((b : ℕ) → b < nbuf → is_block dev blockno (c.buf b) ≡ false)
    × ((b : ℕ) → b < nbuf → (c.buf b).refcnt ≢ 0)
Gets dev blockno c xs (some (b, c')) =
    (b < nbuf)
    × (((is_block dev blockno (c.buf b) ≡ true) × (c' ≡ put_buf b (take_ref (c.buf b)) c))
        ⊎ (((q : ℕ) → q < nbuf → is_block dev blockno (c.buf q) ≡ false)
            × ((c.buf b).refcnt ≡ 0)
            × (c' ≡ put_buf b (recycled dev blockno (c.buf b)) c)
            × ((ys : List ℕ) × (zs : List ℕ) × (xs ≡ ys ++ b ∷ zs)
                × ((q : ℕ) → On q zs → (c.buf q).refcnt ≢ 0))))

pub On-split : (b : ℕ) (xs : List ℕ) → On b xs → (ys : List ℕ) × (zs : List ℕ) × (xs ≡ ys ++ b ∷ zs)
On-split b [] on = absurd on
On-split b (x ∷ xs) (inl e) = ([], xs, ap (λ y. y ∷ xs) e)
On-split b (x ∷ xs) (inr on) = let (ys, zs, e) = On-split b xs on in (x ∷ ys, zs, ap (λ l. x ∷ l) e)

On-middle : (b : ℕ) (ys zs : List ℕ) → On b (ys ++ b ∷ zs)
On-middle b [] zs = inl refl
On-middle b (y ∷ ys) zs = inr (On-middle b ys zs)

module _ (dev blockno : ℕ) (c : Bcache) (xs : List ℕ) (is : IsList c xs) where
  abbrev same_block : ℕ → Bool
  same_block b = is_block dev blockno (c.buf b)

  abbrev is_free : ℕ → Bool
  is_free b = (c.buf b).refcnt == 0

  bget_new-Gets :
      (unused : Option ℕ)
      → ((b : ℕ) → On b xs → same_block b ≡ false)
      → FoundLast is_free xs unused
      → Gets dev blockno c xs (bget_new dev blockno unused c)
  unfolding FoundLast bget_new
  bget_new-Gets none miss f =
      (λ b lt. miss b (is.3 b lt), λ b lt. ==_false→ne (c.buf b).refcnt 0 (f b (is.3 b lt)))
  bget_new-Gets (some b) miss (ys, zs, e, hit, f) = (
    is.2 b (subst (On b) (sym e) (On-middle b ys zs)),
    inr (
      λ q lt. miss q (is.3 q lt),
      ==→eq (c.buf b).refcnt 0 hit,
      refl,
      (ys, zs, e, λ q on. ==_false→ne (c.buf q).refcnt 0 (f q on)),
    ),
  )

  bget_at-Gets :
      (cached unused : Option ℕ)
      → Found same_block xs cached
      → FoundLast is_free xs unused
      → Gets dev blockno c xs (bget_at dev blockno cached unused c)
  unfolding Found bget_at
  bget_at-Gets none unused f g = bget_new-Gets unused f g
  bget_at-Gets (some b) unused (on, hit) g = (is.2 b on, inl (hit, refl))

  -- bget finds the block's buffer and counts one more reference to it; else it recycles the least recently used
  -- buffer without references; else it panics, every buffer being referenced.
  pub bget-Gets : Gets dev blockno c xs (bget dev blockno c)
  unfolding bget
  bget-Gets =
      rw (scan-next c xs is same_block, scan-prev c xs is is_free)
        (bget_at-Gets (first_of same_block xs) (last_of is_free xs) (first_of-Found same_block xs)
          (last_of-FoundLast is_free xs))

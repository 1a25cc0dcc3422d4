-- ===== src/Bcache/Refs.antt =====
-- The references that processes and the log hold to the buffers of kernel/bio.c.
use os_assignments.Prelude.{
  ℕ, ◌+◌, ◌≤◌, ◌<◌, ◌≡◌, refl, inl, inr, ◌⊎◌, arith, if◌then◌else◌, ◌==◌, List, [], ◌∷◌, ◌++◌,
  length, length-append,
}

-- A reference to a buffer, and the block that it was taken for.
pub record Ref : Type 0 where
  pub buffer : ℕ
  pub block : ℕ

abbrev pub Held : Ref → List Ref → Type 0
Held r [] = ⊥
Held r (q ∷ rs) = (q ≡ r) ⊎ Held r rs

-- How many of them are to buffer `b`.
abbrev pub refs : (b : ℕ) → List Ref → ℕ
refs b [] = 0
refs b (r ∷ rs) = (if r.buffer == b then 1 else 0) + refs b rs

pub Held-refs : (r : Ref) (rs : List Ref) → Held r rs → 1 ≤ refs r.buffer rs
Held-refs r [] h = absurd h
Held-refs r (q ∷ rs) (inl e) = ground (arith, e)
Held-refs r (q ∷ rs) (inr h) = ground (arith, Held-refs r rs h)

pub refs-le : (b : ℕ) (rs : List Ref) → refs b rs ≤ length rs
refs-le b [] = omega arith
refs-le b (r ∷ rs) = ground (arith, refs-le b rs)

-- One of them, among the others.
pub Held_at : (r : Ref) (xs ys : List Ref) → Held r (xs ++ r ∷ ys)
Held_at r [] ys = inl refl
Held_at r (x ∷ xs) ys = inr (Held_at r xs ys)

pub Held_more : (r q : Ref) (xs ys : List Ref) → Held r (xs ++ ys) → Held r (xs ++ q ∷ ys)
Held_more r q [] ys h = inr h
Held_more r q (x ∷ xs) ys (inl e) = inl e
Held_more r q (x ∷ xs) ys (inr h) = inr (Held_more r q xs ys h)

pub refs_at :
    (b : ℕ) (q : Ref) (xs ys : List Ref)
    → refs b (xs ++ q ∷ ys) ≡ refs b (xs ++ ys) + (if q.buffer == b then 1 else 0)
refs_at b q [] ys = ground arith
refs_at b q (x ∷ xs) ys = ground (arith, refs_at b q xs ys)

pub length_less : (q : Ref) (xs ys : List Ref) → length (xs ++ ys) < length (xs ++ q ∷ ys)
length_less q xs ys = omega (arith, length-append xs ys, length-append xs (q ∷ ys))

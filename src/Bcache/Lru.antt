-- ===== src/Bcache/Lru.antt =====
-- The list of kernel/bio.c as a list of distinct buffers, the most recently used first, and the
-- walks of `bget` along it.
use os_assignments.Prelude.{
  ℕ, zero, suc, ◌+◌, ◌≤◌, ◌≡◌, ◌≢◌, refl, Bool, Option, none, some, arith, List, [], ◌∷◌, ◌++◌,
  length, Fresh, Distinct, if◌then◌else◌,
}
use os_assignments.Bcache.{Bcache, nbuf, scan, unlink, push}
use os_assignments.Bcache.Links.{Links, Links-split, Links-unlink, Links-push, Distinct-remove}

-- The list of a cache holds the nodes `xs`, each once, the most recently used first.
abbrev pub Ring : Bcache → List ℕ → Type 0
Ring c xs = Links c.next c.prev nbuf xs nbuf × Distinct (nbuf ∷ xs)

pub Ring-unlink :
    (b : ℕ) (c : Bcache) (ys zs : List ℕ) → Ring c (ys ++ b ∷ zs) → Ring (unlink b c) (ys ++ zs)
unfolding unlink
Ring-unlink b c ys zs (h, d) =
    let (front, back) = Links-split c.next c.prev nbuf b nbuf ys zs h in
    (Links-unlink c.next c.prev nbuf b ys zs d front back, (Distinct-remove b (nbuf ∷ ys) zs d).0)

pub Ring-push :
    (b : ℕ) (c : Bcache) (xs : List ℕ)
    → Ring c xs
    → b ≢ nbuf
    → Fresh b xs
    → Ring (push b c) (b ∷ xs)
unfolding push
Ring-push b c xs (h, d) ne new =
    (Links-push c.next c.prev nbuf b xs d ne new h, ((ne, d.0), (new, d.1)))

-- The first and the last of a list that pass a test.
unfoldable pub first_of : (ℕ → Bool) → List ℕ → Option ℕ
first_of test [] = none
first_of test (x ∷ xs) = let rest = first_of test xs in if test x then some x else rest

abbrev pub or_else : Option ℕ → Option ℕ → Option ℕ
or_else none o = o
or_else (some b) o = some b

unfoldable pub last_of : (ℕ → Bool) → List ℕ → Option ℕ
last_of test [] = none
last_of test (x ∷ xs) = or_else (last_of test xs) (if test x then some x else none)

abbrev pub Walk : (step : ℕ → ℕ) → ℕ → List ℕ → ℕ → Type 0
Walk step a [] z = step a ≡ z
Walk step a (x ∷ xs) z = (step a ≡ x) × Walk step x xs z

pub scan-Walk :
    (step : ℕ → ℕ) (test : ℕ → Bool) (k a : ℕ) (xs : List ℕ)
    → length xs ≤ k
    → Fresh nbuf xs
    → Walk step a xs nbuf
    → scan step k (step a) test ≡ first_of test xs
unfolding scan first_of
scan-Walk step test zero a [] le new w = refl
scan-Walk step test (suc k) a [] le new w = rw w refl
scan-Walk step test zero a (x ∷ xs) le new w = absurd (omega arith)
scan-Walk step test (suc k) a (x ∷ xs) le new (e, w) =
    rw e (ground (arith, new.0, scan-Walk step test k x xs (omega arith) new.1 w))

pub Links-Walk :
    (next prev : ℕ → ℕ) (a z : ℕ) (xs : List ℕ) → Links next prev a xs z → Walk next a xs z
Links-Walk next prev a z [] (e, f) = e
Links-Walk next prev a z (x ∷ xs) (e, f, h) = (e, Links-Walk next prev x z xs h)

abbrev pub rev_onto : List ℕ → List ℕ → List ℕ
rev_onto [] acc = acc
rev_onto (x ∷ xs) acc = rev_onto xs (x ∷ acc)

Links-back :
    (next prev : ℕ → ℕ) (a z h : ℕ) (xs acc : List ℕ)
    → Links next prev a xs z
    → Walk prev a acc h
    → Walk prev z (rev_onto xs (a ∷ acc)) h
Links-back next prev a z h [] acc (e, f) w = (f, w)
Links-back next prev a z h (x ∷ xs) acc (e, f, l) w =
    Links-back next prev x z h xs (a ∷ acc) l (f, w)

pub first_of-rev :
    (test : ℕ → Bool) (xs acc : List ℕ)
    → first_of test (rev_onto xs acc) ≡ or_else (last_of test xs) (first_of test acc)
unfolding first_of last_of
first_of-rev test [] acc = refl
first_of-rev test (x ∷ xs) acc = ground (arith, first_of-rev test xs (x ∷ acc))

pub Walk-back :
    (next prev : ℕ → ℕ) (h : ℕ) (xs : List ℕ)
    → Links next prev h xs h
    → Walk prev h (rev_onto xs []) h
Walk-back next prev h [] (e, f) = f
Walk-back next prev h (x ∷ xs) (e, f, l) = Links-back next prev x h h xs [] l f

pub length-rev_onto : (xs acc : List ℕ) → length (rev_onto xs acc) ≡ length xs + length acc
length-rev_onto [] acc = omega arith
length-rev_onto (x ∷ xs) acc = omega (arith, length-rev_onto xs (x ∷ acc))

pub Fresh-rev_onto :
    (k : ℕ) (xs acc : List ℕ) → Fresh k xs → Fresh k acc → Fresh k (rev_onto xs acc)
Fresh-rev_onto k [] acc h r = r
Fresh-rev_onto k (x ∷ xs) acc (ne, h) r = Fresh-rev_onto k xs (x ∷ acc) h (ne, r)

pub or_else-none : (o : Option ℕ) → or_else o none ≡ o
or_else-none none = refl
or_else-none (some b) = refl

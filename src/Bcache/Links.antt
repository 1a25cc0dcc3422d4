-- ===== src/Bcache/Links.antt =====
-- The list of kernel/bio.c seen as a list of distinct nodes, under the assignments that take a
-- node out and put it in front, and under the walks along it.
use os_assignments.Prelude.{
  ℕ, ◌≡◌, ◌≢◌, refl, sym, inl, inr, arith, List, [], ◌∷◌, ◌++◌, append-nil, All, update, On, Fresh,
  Distinct,
}
use mathlib.Core.Path.{subst}

-- From `a` the links lead through `xs` to `z`, and back.
abbrev pub Links : (next prev : ℕ → ℕ) → ℕ → List ℕ → ℕ → Type 0
Links next prev a [] z = (next a ≡ z) × (prev z ≡ a)
Links next prev a (x ∷ xs) z = (next a ≡ x) × (prev x ≡ a) × Links next prev x xs z

abbrev Same : (f g : ℕ → ℕ) → List ℕ → Type 0
Same f g = All (λ q. g q ≡ f q)

Links-frame :
    (next prev next' prev' : ℕ → ℕ) (a z : ℕ) (xs : List ℕ)
    → Same next next' (a ∷ xs)
    → Same prev prev' (z ∷ xs)
    → Links next prev a xs z
    → Links next' prev' a xs z
Links-frame next prev next' prev' a z [] sn sp h = ground (arith, sn.0, sp.0)
Links-frame next prev next' prev' a z (x ∷ xs) (sa, sn) (sz, (sx, sp)) (e, f, h) =
    (ground arith, ground arith, Links-frame next prev next' prev' x z xs sn (sz, sp) h)

Same-update : (f : ℕ → ℕ) (k v : ℕ) (xs : List ℕ) → Fresh k xs → Same f (update f k v) xs
Same-update f k v [] h = tt
Same-update f k v (x ∷ xs) h = (ground (arith, h.0), Same-update f k v xs h.1)

Same-trans : (f g k : ℕ → ℕ) (xs : List ℕ) → Same f g xs → Same g k xs → Same f k xs
Same-trans f g k [] h h' = tt
Same-trans f g k (x ∷ xs) (e, h) (e', h') = (ground arith, Same-trans f g k xs h h')

Links-append :
    (next prev : ℕ → ℕ) (a m z : ℕ) (xs ys : List ℕ)
    → Links next prev a xs m
    → Links next prev m ys z
    → Links next prev a (xs ++ m ∷ ys) z
Links-append next prev a m z [] ys (e, f) h' = (e, f, h')
Links-append next prev a m z (x ∷ xs) ys (e, f, h) h' =
    (e, f, Links-append next prev x m z xs ys h h')

pub Links-split :
    (next prev : ℕ → ℕ) (a m z : ℕ) (xs ys : List ℕ)
    → Links next prev a (xs ++ m ∷ ys) z
    → Links next prev a xs m × Links next prev m ys z
Links-split next prev a m z [] ys (e, f, h) = ((e, f), h)
Links-split next prev a m z (x ∷ xs) ys (e, f, h) =
    let (front, back) = Links-split next prev x m z xs ys h in ((e, f, front), back)

-- The node before the end.
Links-last :
    (next prev : ℕ → ℕ) (a z : ℕ) (xs : List ℕ) → Links next prev a xs z → On (prev z) (a ∷ xs)
Links-last next prev a z [] (e, f) = inl (sym f)
Links-last next prev a z (x ∷ xs) (e, f, h) = inr (Links-last next prev x z xs h)

On-Fresh : (k q : ℕ) (xs : List ℕ) → Fresh k xs → On q xs → q ≢ k
On-Fresh k q [] h on = absurd on
On-Fresh k q (x ∷ xs) h (inl e) = ground (arith, h.0)
On-Fresh k q (x ∷ xs) h (inr on) = On-Fresh k q xs h.1 on

Fresh-On : (k : ℕ) (xs : List ℕ) → ((q : ℕ) → On q xs → q ≢ k) → Fresh k xs
Fresh-On k [] h = tt
Fresh-On k (x ∷ xs) h = (h x (inl refl), Fresh-On k xs (λ q on. h q (inr on)))

-- Its last node now leads to `q` in place of `z`.
Links-retarget :
    (next prev : ℕ → ℕ) (a z q : ℕ) (xs : List ℕ)
    → Distinct (a ∷ xs)
    → Fresh q xs
    → Links next prev a xs z
    → Links (update next (prev z) q) (update prev q (prev z)) a xs q
Links-retarget next prev a z q [] d new (e, f) = (ground arith, ground arith)
Links-retarget next prev a z q (x ∷ xs) (da, d) (ne, new) (e, f, h) = (
  (let ne' = On-Fresh a (prev z) (x ∷ xs) da (Links-last next prev x z xs h) in ground arith),
  ground arith,
  Links-retarget next prev x z q xs d new h,
)

Fresh-append : (k : ℕ) (ys zs : List ℕ) → Fresh k (ys ++ zs) → Fresh k ys × Fresh k zs
Fresh-append k [] zs h = (tt, h)
Fresh-append k (y ∷ ys) zs (h, r) = let (l, m) = Fresh-append k ys zs r in ((h, l), m)

Fresh-join : (k : ℕ) (ys zs : List ℕ) → Fresh k ys → Fresh k zs → Fresh k (ys ++ zs)
Fresh-join k [] zs l m = m
Fresh-join k (y ∷ ys) zs (h, l) m = (h, Fresh-join k ys zs l m)

Distinct-append : (ys zs : List ℕ) → Distinct (ys ++ zs) → Distinct ys × Distinct zs
Distinct-append [] zs h = (tt, h)
Distinct-append (y ∷ ys) zs (h, r) =
    let (l, m) = Distinct-append ys zs r in (((Fresh-append y ys zs h).0, l), m)

-- What stands behind does not stand in front.
Distinct-apart : (q : ℕ) (ys zs : List ℕ) → Distinct (ys ++ zs) → On q zs → Fresh q ys
Distinct-apart q [] zs h on = tt
Distinct-apart q (y ∷ ys) zs (h, r) on =
    let ne = On-Fresh y q zs (Fresh-append y ys zs h).1 on in
    (λ e. ne (sym e), Distinct-apart q ys zs r on)

pub Distinct-remove :
    (b : ℕ) (ys zs : List ℕ) → Distinct (ys ++ b ∷ zs) → Distinct (ys ++ zs) × Fresh b (ys ++ zs)
Distinct-remove b [] zs (h, r) = (r, h)
Distinct-remove b (y ∷ ys) zs (h, r) =
    let (l, m) = Distinct-remove b ys zs r in
    let (front, back) = Fresh-append y ys (b ∷ zs) h in
    ((Fresh-join y ys zs front back.1, l), ((λ e. back.0 (sym e)), m))

pub Links-unlink :
    (next prev : ℕ → ℕ) (a b : ℕ) (ys zs : List ℕ)
    → Distinct (a ∷ (ys ++ b ∷ zs))
    → Links next prev a ys b
    → Links next prev b zs a
    → Links (update next (prev b) (next b)) (update prev (next b) (prev b)) a (ys ++ zs) a
Links-unlink next prev a b ys [] d front (e, f) =
    rw (append-nil ys, e)
      (Links-retarget next prev a b a ys (Distinct-append (a ∷ ys) (b ∷ []) d).0
        (Fresh-append a ys (b ∷ []) d.0).0 front)
Links-unlink next prev a b ys (q ∷ zs) d front (e, f, h) =
    let last = Links-last next prev a b ys front in
    let ds = Distinct-append (a ∷ ys) (b ∷ q ∷ zs) d in
    let new = Distinct-apart q (a ∷ ys) (b ∷ q ∷ zs) d (inr (inl refl)) in
    let other = Fresh-On (prev b) (q ∷ zs) (λ r on e'.
      On-Fresh r (prev b) (a ∷ ys) (Distinct-apart r (a ∷ ys) (b ∷ q ∷ zs) d (inr on)) last
        (sym e')) in
    rw e (
      Links-append (update next (prev b) q) (update prev q (prev b)) a q a ys zs
        (Links-retarget next prev a b q ys ds.0 new.1 front)
        (Links-frame next prev (update next (prev b) q) (update prev q (prev b)) q a zs
          (Same-update next (prev b) q (q ∷ zs) other)
          (Same-update prev q (prev b) (a ∷ zs) (new.0, ds.1.1.0)) h))

pub Links-push :
    (next prev : ℕ → ℕ) (a b : ℕ) (xs : List ℕ)
    → Distinct (a ∷ xs)
    → b ≢ a
    → Fresh b xs
    → Links next prev a xs a
    → Links (update (update next b (next a)) a b) (update (update prev b a) (next a) b) a (b ∷ xs) a
Links-push next prev a b [] d ne new (e, f) =
    (ground arith, ground arith, (ground arith, ground arith))
Links-push next prev a b (x ∷ xs) d ne new (e, f, h) =
    let next1 = update next b x in
    let prev1 = update prev b a in
    let apart : b ≢ x = λ e'. new.0 (sym e') in
    subst
      (λ (q : ℕ).
        Links (update (update next b q) a b) (update (update prev b a) q b) a (b ∷ x ∷ xs) a)
      (sym e)
      (
        ground arith,
        ground arith,
        (
          ground arith,
          ground arith,
          Links-frame next prev (update next1 a b) (update prev1 x b) x a xs
              (Same-trans next next1 (update next1 a b) (x ∷ xs) (Same-update next b x (x ∷ xs) new)
                (Same-update next1 a b (x ∷ xs) d.0))
              (Same-trans prev prev1 (update prev1 x b) (a ∷ xs)
                (Same-update prev b a (a ∷ xs) ((λ e'. ne (sym e')), new.1))
                (Same-update prev1 x b (a ∷ xs) ((λ e'. d.0.0 (sym e')), d.1.0)))
              h,
        ),
      )

-- ===== src/Bcache/Boot.antt =====
-- `binit` of kernel/bio.c: it links all the buffers, and the cache shows the disk.
use os_assignments.Prelude.{
  ℕ, zero, suc, ◌+◌, ◌≤◌, ◌<◌, ◌≡◌, refl, ◌∙◌, Bool, true, false, ◌⊎◌, inl, inr, arith, List, [],
  ◌∷◌, length, On, Fresh, ◌==◌, ==→eq, ==_false→ne, Bool-cases, update,
}
use os_assignments.Bcache.{Bcache, nbuf, put_buf, push, binit_loop, binit, Block}
use os_assignments.Bcache.Lru.{Ring, Ring-push}
use os_assignments.Bcache.Contents.{IsSound, Shows}

-- The `k` buffers from `b` on, the last first, in front of `xs`.
abbrev pub stack : ℕ → ℕ → List ℕ → List ℕ
stack zero b xs = xs
stack (suc k) b xs = stack k (b + 1) (b ∷ xs)

length-stack : (k b : ℕ) (xs : List ℕ) → length (stack k b xs) ≡ length xs + k
length-stack zero b xs = omega arith
length-stack (suc k) b xs = omega (arith, length-stack k (b + 1) (b ∷ xs))

On-stack : (q k b : ℕ) (xs : List ℕ) → On q xs ⊎ ((b ≤ q) × (q < b + k)) → On q (stack k b xs)
On-stack q zero b xs (inl on) = on
On-stack q zero b xs (inr (lo, hi)) = absurd (omega arith)
On-stack q (suc k) b xs (inl on) = On-stack q k (b + 1) (b ∷ xs) (inl (inr on))
On-stack q (suc k) b xs (inr (lo, hi)) = elim (Bool-cases (b == q)) [
  | inl e ↦ On-stack q k (b + 1) (b ∷ xs) (inl (inl (==→eq b q e)))
  | inr more ↦
      On-stack q k (b + 1) (b ∷ xs) (inr (omega (arith, ==_false→ne b q more), omega arith))
]

stack-On : (q k b : ℕ) (xs : List ℕ) → On q (stack k b xs) → On q xs ⊎ ((b ≤ q) × (q < b + k))
stack-On q zero b xs on = inl on
stack-On q (suc k) b xs on = elim (stack-On q k (b + 1) (b ∷ xs) on) [
  | inl (inl e) ↦ inr (omega arith, omega arith)
  | inl (inr old) ↦ inl old
  | inr (lo, hi) ↦ inr (omega arith, omega arith)
]

Fresh-below : (b : ℕ) (xs : List ℕ) → ((q : ℕ) → On q xs → q < b) → Fresh b xs
Fresh-below b [] below = tt
Fresh-below b (x ∷ xs) below =
    (let lt = below x (inl refl) in omega arith, Fresh-below b xs (λ q on. below q (inr on)))

binit_loop-Ring :
    (k b : ℕ) (c : Bcache) (xs : List ℕ)
    → b + k ≤ nbuf
    → ((q : ℕ) → On q xs → q < b)
    → Ring c xs
    → Ring (binit_loop k b c) (stack k b xs)
unfolding binit_loop
binit_loop-Ring zero b c xs le below ring = ring
binit_loop-Ring (suc k) b c xs le below ring =
    let unlocked = record (c.buf b) { lock = record { locked = false; pid = 0 } } in
    binit_loop-Ring k (b + 1) (push b (put_buf b unlocked c)) (b ∷ xs) (omega arith)
      (λ q on. elim on [ inl e ↦ omega arith | inr old ↦ let lt = below q old in omega arith ])
      (Ring-push b (put_buf b unlocked c) xs ring (omega arith) (Fresh-below b xs below))

-- What the loop leaves of a buffer.
binit_loop-buf :
    (k b : ℕ) (c : Bcache) (q : ℕ)
    → (((binit_loop k b c).buf q).dev ≡ (c.buf q).dev)
      × (((binit_loop k b c).buf q).valid ≡ (c.buf q).valid)
unfolding binit_loop push
binit_loop-buf zero b c q = (refl, refl)
binit_loop-buf (suc k) b c q =
    let unlocked = record (c.buf b) { lock = record { locked = false; pid = 0 } } in
    let (d, v) = binit_loop-buf k (b + 1) (push b (put_buf b unlocked c)) q in ground arith

binit_loop-refcnt :
    (k b : ℕ) (c : Bcache) (q : ℕ) → ((binit_loop k b c).buf q).refcnt ≡ (c.buf q).refcnt
unfolding binit_loop push
binit_loop-refcnt zero b c q = refl
binit_loop-refcnt (suc k) b c q =
    let unlocked = record (c.buf b) { lock = record { locked = false; pid = 0 } } in
    let rest = binit_loop-refcnt k (b + 1) (push b (put_buf b unlocked c)) q in ground arith

pub binit-refcnt : (c : Bcache) (q : ℕ) → ((binit c).buf q).refcnt ≡ (c.buf q).refcnt
unfolding binit
binit-refcnt c q =
    binit_loop-refcnt nbuf 0
      (record c { next = update c.next nbuf nbuf; prev = update c.prev nbuf nbuf }) q

not_both : (v : Bool) → v ≡ false → ¬ (v ≡ true)
not_both v no_v is_v = ground arith

-- After binit on a cache of zeroed buffers, the list holds all the buffers and the cache is sound
-- and shows the disk's bytes for every block.
pub binit-IsSound :
    (c : Bcache) (disk : ℕ → Block)
    → ((b : ℕ) → b < nbuf → ((c.buf b).dev ≡ 0) × ((c.buf b).valid ≡ false))
    → IsSound (record { cache = binit c; disk = disk }) (stack nbuf 0 [])
      × ((dev blockno : ℕ)
          → Shows (record { cache = binit c; disk = disk }) dev blockno (disk blockno))
unfolding binit
binit-IsSound c disk zeroed =
    let c0 = record c { next = update c.next nbuf nbuf; prev = update c.prev nbuf nbuf } in
    let ring =
      binit_loop-Ring nbuf 0 c0 [] (omega arith) (λ q on. absurd on) ((refl, refl), (tt, tt)) in
    let after = binit_loop-buf nbuf 0 c0 in
    let dev0 : (b : ℕ) → b < nbuf → ((binit_loop nbuf 0 c0).buf b).dev ≡ 0 =
      λ b lt. (after b).0 ∙ (zeroed b lt).0 in
    let stale : (b : ℕ) → b < nbuf → ((binit_loop nbuf 0 c0).buf b).valid ≡ false =
      λ b lt. (after b).1 ∙ (zeroed b lt).1 in
    (
      (
        (
          ring,
          omega (arith, length-stack nbuf 0 []),
          λ q on. elim (stack-On q nbuf 0 [] on) [ inl o ↦ absurd o | inr (lo, hi) ↦ hi ],
          λ q lt. On-stack q nbuf 0 [] (inr (omega arith, lt)),
        ),
        λ b q lb lq named. absurd (named (dev0 b lb)),
        λ b lt is_valid.
            absurd (not_both ((binit_loop nbuf 0 c0).buf b).valid (stale b lt) is_valid),
        λ b lt is_valid.
            absurd (not_both ((binit_loop nbuf 0 c0).buf b).valid (stale b lt) is_valid),
      ),
      λ dev blockno. (
        λ b lt held is_valid.
            absurd (not_both ((binit_loop nbuf 0 c0).buf b).valid (stale b lt) is_valid),
        λ none_valid. refl,
      ),
    )

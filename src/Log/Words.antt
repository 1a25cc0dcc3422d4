-- ===== src/Log/Words.antt =====
-- The loops of kernel/log.c that copy block numbers between the header and its buffer.
use os_assignments.Prelude.{
  ℕ, zero, suc, ◌+◌, ◌≤◌, ◌<◌, ◌^◌, ◌≡◌, refl, Bool, false, ◌||◌, ◌==◌, arith, rounds, rounds_small,
  update,
}
use os_assignments.Log.{Block, LogHeader, copy_in, copy_out, head_block}

copy_in_below : (k i : ℕ) (from : Block) (to : ℕ → ℕ) (j : ℕ) → j < i → copy_in k i from to j ≡ to j
unfolding copy_in
copy_in_below zero i from to j h = refl
copy_in_below (suc k) i from to j h =
    ground (arith, copy_in_below k (i + 1) from (update to i (from (i + 1))) j)

copy_in_at :
    (k i : ℕ) (from : Block) (to : ℕ → ℕ) (j : ℕ)
    → i ≤ j
    → j < i + k
    → copy_in k i from to j ≡ from (j + 1)
unfolding copy_in
copy_in_at zero i from to j h h' = absurd (omega arith)
copy_in_at (suc k) i from to j h h' = ground (
  arith,
  copy_in_below k (i + 1) from (update to i (from (i + 1))) j,
  copy_in_at k (i + 1) from (update to i (from (i + 1))) j,
)

-- `read_head` finds in memory what the header block holds.
pub copy_in-get :
    (n : ℕ) (from : Block) (to : ℕ → ℕ) (j : ℕ) → j < n → copy_in n 0 from to j ≡ from (j + 1)
copy_in-get n from to j h = copy_in_at n 0 from to j (omega arith) (omega arith)

copy_out_below :
    (k i : ℕ) (from : ℕ → ℕ) (to : Block) (j : ℕ) → j < i + 1 → copy_out k i from to j ≡ to j
unfolding copy_out
copy_out_below zero i from to j h = refl
copy_out_below (suc k) i from to j h =
    ground (arith, copy_out_below k (i + 1) from (update to (i + 1) (from i)) j)

copy_out_at :
    (k i : ℕ) (from : ℕ → ℕ) (to : Block) (j : ℕ)
    → i ≤ j
    → j < i + k
    → copy_out k i from to (j + 1) ≡ from j
unfolding copy_out
copy_out_at zero i from to j h h' = absurd (omega arith)
copy_out_at (suc k) i from to j h h' = ground (
  arith,
  copy_out_below k (i + 1) from (update to (i + 1) (from i)) (j + 1),
  copy_out_at k (i + 1) from (update to (i + 1) (from i)) j,
)

module _ (lh : LogHeader) (b : Block) where
  pub head_block-n : head_block lh b 0 ≡ lh.n
  unfolding head_block
  head_block-n = ground (arith, copy_out_below (rounds lh.n) 0 lh.block (update b 0 lh.n) 0)

  pub head_block-block : lh.n < 2 ^ 31 → (j : ℕ) → j < lh.n → head_block lh b (j + 1) ≡ lh.block j
  unfolding head_block
  head_block-block small j h =
      copy_out_at (rounds lh.n) 0 lh.block (update b 0 lh.n) j (omega arith)
        (omega (arith, rounds_small lh.n small))

-- Whether `b` is one of the `k` block numbers from index `t` on.
abbrev pub listed : ℕ → ℕ → (ℕ → ℕ) → ℕ → Bool
listed zero t bs b = false
listed (suc k) t bs b = (bs t == b) || listed k (t + 1) bs b

-- Only the listed entries count.
pub listed_congr :
    (k t : ℕ) (bs cs : ℕ → ℕ) (b : ℕ)
    → ((j : ℕ) → t ≤ j → j < t + k → bs j ≡ cs j)
    → listed k t bs b ≡ listed k t cs b
listed_congr zero t bs cs b h = refl
listed_congr (suc k) t bs cs b h = ground (
  arith,
  h t (omega arith) (omega arith),
  listed_congr k (t + 1) bs cs b (λ j p q. h j (omega arith) (omega arith)),
)

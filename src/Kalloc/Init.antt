-- ===== src/Kalloc/Init.antt =====
-- `kinit` and `freerange` of kernel/kalloc.c: every whole page between the kernel's end and PHYSTOP
-- is freed, once.
use os_assignments.Prelude.{
  ℕ, zero, suc, ◌+◌, ◌-◌, ◌*◌, ◌/◌, ◌%◌, ◌≤◌, ◌<◌, ◌≡◌, refl, true, some, inl, inr, ◌==◌, arith,
  List, [], ◌∷◌, All, length, leb, Bool-cases, ==_false→ne, Fresh, On,
}
use os_assignments.Kalloc.{Kmem, page_size, phys_top, round_up, free_loop, freerange, kinit}
use os_assignments.Kalloc.Chain.{IsPage, Owns, kfree_lem}

-- The `n` pages from `p` on, the last first, in front of `xs`.
abbrev pub pages : ℕ → ℕ → List ℕ → List ℕ
pages p zero xs = xs
pages p (suc n) xs = pages (p + page_size) n (p ∷ xs)

pub length-pages : (p n : ℕ) (xs : List ℕ) → length (pages p n xs) ≡ length xs + n
length-pages p zero xs = omega arith
length-pages p (suc n) xs = omega (arith, length-pages (p + page_size) n (p ∷ xs))

-- All of `xs` lie below `p`.
abbrev Below : ℕ → List ℕ → Type 0
Below p = All (λ q. q < p)

Below-Fresh : (p : ℕ) (xs : List ℕ) → Below p xs → Fresh p xs
Below-Fresh p [] h = tt
Below-Fresh p (x ∷ xs) h = (omega arith, Below-Fresh p xs h.1)

Below-later : (p q : ℕ) (xs : List ℕ) → p ≤ q → Below p xs → Below q xs
Below-later p q [] le h = tt
Below-later p q (x ∷ xs) le h = (omega arith, Below-later p q xs le h.1)

module _ (end top : ℕ) (low : top ≤ phys_top) where
  free_loop_lem :
      (n fuel p : ℕ) (k : Kmem) (xs : List ℕ)
      → n < fuel
      → p % page_size ≡ 0
      → end ≤ p
      → p + n * page_size ≤ top
      → top < p + n * page_size + page_size
      → Owns end k xs
      → Below p xs
      → (k' : Kmem) × (free_loop end fuel p top k ≡ some k') × Owns end k' (pages p n xs)
  unfolding free_loop
  free_loop_lem n zero p k xs lt al lo fits full owns below = absurd (omega arith)
  free_loop_lem zero (suc fuel) p k xs lt al lo fits full owns below = (k, ground arith, owns)
  free_loop_lem (suc n) (suc fuel) p k xs lt al lo fits full owns below =
      let (k1, done, owns1, _) =
        kfree_lem end k xs owns p (al, lo, omega arith) (Below-Fresh p xs below) in
      let (k2, rest, owns2) =
        free_loop_lem n fuel (p + page_size) k1 (p ∷ xs) (omega arith) (omega arith) (omega arith)
          (omega arith) (omega arith) owns1
          (omega arith, Below-later p (p + page_size) xs (omega arith) below) in
      let more : leb (p + page_size) top ≡ true = ground arith in (k2, rw (more, done) rest, owns2)

On-pages : (pa p n : ℕ) (xs : List ℕ) → On pa xs → On pa (pages p n xs)
On-pages pa p zero xs h = h
On-pages pa p (suc n) xs h = On-pages pa (p + page_size) n (p ∷ xs) (inr h)

pages-On :
    (pa p n : ℕ) (xs : List ℕ)
    → pa % page_size ≡ 0
    → p % page_size ≡ 0
    → p ≤ pa
    → pa < p + n * page_size
    → On pa (pages p n xs)
pages-On pa p zero xs al al' lo hi = absurd (omega arith)
pages-On pa p (suc n) xs al al' lo hi = elim (Bool-cases (pa == p)) [
  | inl same ↦ On-pages pa (p + page_size) n (p ∷ xs) (inl (ground arith))
  | inr later ↦
      let further : p + page_size ≤ pa = omega (arith, ==_false→ne pa p later) in
      pages-On pa (p + page_size) n (p ∷ xs) al (omega arith) further (omega arith)
]

-- The number of whole pages between the kernel's end and PHYSTOP.
abbrev pub page_count : ℕ → ℕ
page_count end = (phys_top - round_up end) / page_size

-- `kinit` does not panic. It leaves a free list of distinct pages, `page_count` of them, and every
-- page that may be handed out is on it. The kernel ends above address 0 and below PHYSTOP.
pub kinit_lem :
    (end : ℕ) (memory : ℕ → ℕ)
    → 0 < end
    → end ≤ phys_top
    → (k : Kmem) × (xs : List ℕ) × (kinit end memory ≡ some k)
      × Owns end k xs
      × (length xs ≡ page_count end)
      × ((pa : ℕ) → IsPage end pa → On pa xs)
unfolding kinit freerange
kinit_lem end memory pos le =
    let n = page_count end in
    let p = round_up end in
    let (k, done, owns) =
      free_loop_lem end phys_top (omega arith) n (phys_top / page_size + 1) p
        (record { freelist = 0; memory = memory }) [] (omega arith) (omega arith) (omega arith)
        (omega arith) (omega arith) refl tt in
    (
      k,
      pages p n [],
      done,
      owns,
      omega (arith, length-pages p n []),
      λ pa page. pages-On pa p n [] page.0 (omega arith) (omega arith) (omega arith),
    )

-- ===== src/Kalloc/Chain.antt =====
-- The free list of kernel/kalloc.c as a list of distinct pages, and what `kfree` and `kalloc` do
-- to it.
use os_assignments.Prelude.{
  ℕ, ◌+◌, ◌%◌, ◌≤◌, ◌<◌, ◌≡◌, ◌≢◌, refl, sym, none, some, ◌⊎◌, ◌↔◌, arith, List, [], ◌∷◌, update,
  Fresh,
}
use mathlib.Core.Path.{subst}
use os_assignments.Kalloc.{
  Kmem, page_size, phys_top, freed_word, fresh_word, fill_page, kfree, kalloc,
}

-- A page that the allocator may hand out.
abbrev pub IsPage : ℕ → ℕ → Type 0
IsPage end pa = (pa % page_size ≡ 0) × (end ≤ pa) × (pa < phys_top)

-- From `p` the links lead through the distinct pages `xs` to the null pointer.
abbrev pub Chain : ℕ → (ℕ → ℕ) → ℕ → List ℕ → Type 0
Chain end memory p [] = p ≡ 0
Chain end memory p (x ∷ xs) = (p ≡ x) × IsPage end x × Fresh x xs × Chain end memory (memory x) xs

abbrev pub Owns : ℕ → Kmem → List ℕ → Type 0
Owns end k xs = Chain end k.memory k.freelist xs

-- The words of the page at `pa`.
abbrev pub Inside : ℕ → ℕ → Type 0
Inside pa a = (pa ≤ a) × (a < pa + page_size)

module _ (end : ℕ) where
  -- A change inside a page that is not on the list leaves the list.
  pub Chain-frame :
      (pa : ℕ) (m m' : ℕ → ℕ)
      → pa % page_size ≡ 0
      → ((a : ℕ) → ¬ Inside pa a → m' a ≡ m a)
      → (p : ℕ) (xs : List ℕ) → Fresh pa xs
      → Chain end m p xs
      → Chain end m' p xs
  Chain-frame pa m m' al same p [] f c = c
  Chain-frame pa m m' al same p (x ∷ xs) f (e, page, new, c) = (
    e,
    page,
    new,
    subst (λ (q : ℕ). Chain end m' q xs) (sym (same x (λ i. f.0 (omega (arith, i.0, i.1)))))
        (Chain-frame pa m m' al same (m x) xs f.1 c),
  )

  module _ (k : Kmem) (xs : List ℕ) (owns : Owns end k xs) where
    abbrev freed : ℕ → ℕ → ℕ
    freed pa = update (fill_page pa freed_word k.memory) pa k.freelist

    -- `kfree` of a page that is not free puts it in front of the free list. It writes only inside
    -- the page.
    pub kfree_lem :
        (pa : ℕ)
        → IsPage end pa
        → Fresh pa xs
        → (k' : Kmem) × (kfree end pa k ≡ some k')
          × Owns end k' (pa ∷ xs)
          × ((a : ℕ) → ¬ Inside pa a → k'.memory a ≡ k.memory a)
    unfolding kfree fill_page
    kfree_lem pa page new = (
      record { freelist = pa; memory = update (fill_page pa freed_word k.memory) pa k.freelist },
      ground arith,
      (
        refl,
        page,
        new,
        subst (λ (q : ℕ). Chain end (freed pa) q xs) (ground arith)
            (Chain-frame pa k.memory (freed pa) page.0 (λ a out. ground arith) k.freelist xs new
              owns),
      ),
      λ a out. ground arith,
    )

  -- What `kalloc` may return, by the free pages.
  abbrev pub Allocates : Kmem → List ℕ → ℕ × Kmem → Type 0
  Allocates k [] (r, k') = (r ≡ 0) × (k' ≡ k)
  Allocates k (x ∷ xs) (r, k') =
      (r ≡ x)
      × IsPage end x
      × Fresh x xs
      × Owns end k' xs
      × ((a : ℕ) → Inside x a → k'.memory a ≡ fresh_word)
      × ((a : ℕ) → ¬ Inside x a → k'.memory a ≡ k.memory a)

  taken :
      (x : ℕ) (k : Kmem)
      → k.freelist ≡ x
      → x ≢ 0
      → kalloc k ≡ (x, record { freelist = k.memory x; memory = fill_page x fresh_word k.memory })
  unfolding kalloc
  taken x k e ne = ground arith

  -- `kalloc` returns the null pointer and changes nothing if no page is free. Else it returns the
  -- first free page, which is no longer free, filled with fives; it writes only there, and the
  -- other pages stay free. Address 0 lies below the kernel's end.
  pub kalloc-Allocates :
      (k : Kmem) (xs : List ℕ) → 0 < end → Owns end k xs → Allocates k xs (kalloc k)
  unfolding fill_page kalloc
  kalloc-Allocates k [] pos owns = ground arith
  kalloc-Allocates k (x ∷ xs) pos (e, page, new, c) = rw (taken x k e (omega arith)) (
    refl,
    page,
    new,
    Chain-frame x k.memory (fill_page x fresh_word k.memory) page.0 (λ a out. ground arith)
        (k.memory x) xs new c,
    λ a into. ground arith,
    λ a out. ground arith,
  )

  -- `kfree` panics exactly if the address is not aligned, or lies outside the kernel's free memory.
  pub kfree-none :
      (pa : ℕ) (k : Kmem)
      → (kfree end pa k ≡ none) ↔ (pa % page_size ≢ 0) ⊎ (pa < end) ⊎ (phys_top ≤ pa)
  unfolding kfree
  kfree-none pa k = (λ e. ground arith, λ h. ground arith)

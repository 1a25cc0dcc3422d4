-- ===== src/Kalloc/Tests.antt =====
-- Runs of kernel/kalloc.c on three pages, and its theorems at them.
use os_assignments.Prelude.{
  ℕ, ◌+◌, ◌-◌, ◌*◌, ◌≡◌, refl, some, arith, List, [], ◌∷◌, length, On, if◌then◌else◌, ◌==◌,
}
use os_assignments.Kalloc.{Kmem, page_size, phys_top, kfree, kalloc, kinit}
use os_assignments.Kalloc.Chain.{IsPage, Owns, Inside, Allocates, kfree_lem, kalloc-Allocates}
use os_assignments.Kalloc.Init.{page_count, kinit_lem}

-- A kernel that leaves three pages.
abbrev kernel_end : ℕ
kernel_end = phys_top - 3 * page_size - 8

abbrev page : ℕ → ℕ
page i = phys_top - 3 * page_size + i * page_size

-- Pages 1 and 0 are free.
abbrev two_free : Kmem
two_free = record { freelist = page 1; memory = λ a. if a == page 1 then page 0 else 0 }

two_free-Owns : Owns kernel_end two_free (page 1 ∷ page 0 ∷ [])
two_free-Owns = omega arith

allocated : (kalloc two_free).0 ≡ page 1
unfolding kalloc
allocated = refl

kfree_lem_example :
    (k : Kmem) × (kfree kernel_end (page 2) two_free ≡ some k)
    × Owns kernel_end k (page 2 ∷ page 1 ∷ page 0 ∷ [])
    × ((a : ℕ) → ¬ Inside (page 2) a → k.memory a ≡ two_free.memory a)
kfree_lem_example =
    kfree_lem kernel_end two_free (page 1 ∷ page 0 ∷ []) two_free-Owns (page 2) (omega arith)
      (omega arith)

kalloc-Allocates_example : Allocates kernel_end two_free (page 1 ∷ page 0 ∷ []) (kalloc two_free)
kalloc-Allocates_example =
    kalloc-Allocates kernel_end two_free (page 1 ∷ page 0 ∷ []) (omega arith) two_free-Owns

kinit_lem_example :
    (k : Kmem) × (xs : List ℕ) × (kinit kernel_end (λ a. 7) ≡ some k)
    × Owns kernel_end k xs
    × (length xs ≡ page_count kernel_end)
    × ((pa : ℕ) → IsPage kernel_end pa → On pa xs)
kinit_lem_example = kinit_lem kernel_end (λ a. 7) (omega arith) (omega arith)

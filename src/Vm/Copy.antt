-- ===== src/Vm/Copy.antt =====
-- `copyin` of kernel/vm.c: which bytes of a process it copies, page by page.
use os_assignments.Prelude.{
  ℕ, zero, suc, ◌+◌, ◌-◌, ◌≤◌, ◌<◌, ◌≡◌, refl, ◌∙◌, ◌⊎◌, inl, inr, arith, Bool, true, false,
  if◌then◌else◌, ◌==◌, Bool-cases, min,
}
use mathlib.Core.Path.{subst}
use os_assignments.Strings.{Memory, memmove}
use os_assignments.Strings.Bytes.{inside, memmove-byte}
use os_assignments.Vm.{page_size, Ptes, walkaddr, page_of, copyin_loop, copyin}

-- Where the process's address is in memory, if its page is mapped for it.
abbrev pub mapped : (pagetable : ℕ) → Ptes → (va : ℕ) → Bool
mapped pagetable t va = if walkaddr pagetable (page_of va) t == 0 then false else true

abbrev pub physical : (pagetable : ℕ) → Ptes → (va : ℕ) → ℕ
physical pagetable t va = walkaddr pagetable (page_of va) t + (va - page_of va)

-- `w` bytes of the first memory at `p` are at `dst` in the second one.
abbrev pub CopyOf : (w p dst : ℕ) → (m m' : Memory) → Type 0
CopyOf w p dst m m' = (x : ℕ) → m' x ≡ (if inside dst w x then m (p + (x - dst)) else m x)

module _ (pagetable : ℕ) (t : Ptes) (dst src len : ℕ) (m0 : Memory)
    (apart : (i : ℕ) → i < len → inside dst len (physical pagetable t (src + i)) ≡ false) where
  -- The first `w` bytes are copied.
  abbrev pub CopiedUpTo : (w : ℕ) → Memory → Type 0
  CopiedUpTo w m =
      (x : ℕ) → m x ≡ (if inside dst w x then m0 (physical pagetable t (src + (x - dst))) else m0 x)

  abbrev pub HasCopied : Bool × Memory → Type 0
  HasCopied (done, m) =
      (w : ℕ) × (w ≤ len)
      × CopiedUpTo w m
      × (((done ≡ true) × (w ≡ len))
          ⊎ ((done ≡ false) × (w < len) × (mapped pagetable t (src + w) ≡ false)))

  module _ (w n : ℕ) (m : Memory) (p : CopiedUpTo w m) (range : w + n ≤ len)
      (on_page : n ≤ page_size - (src + w - page_of (src + w))) where
    abbrev pub pa : ℕ
    pa = walkaddr pagetable (page_of (src + w)) t + (src + w - page_of (src + w))

    -- What the process has on the rest of the page.
    pub page-byte : (i : ℕ) → i < n → m (pa + i) ≡ m0 (physical pagetable t (src + (w + i)))
    page-byte i lt =
        let same : page_of (src + (w + i)) ≡ page_of (src + w) = ground arith in
        let place : pa + i ≡ physical pagetable t (src + (w + i)) = rw same (ground arith) in
        let out : inside dst w (physical pagetable t (src + (w + i))) ≡ false =
          ground (arith, apart (w + i) (omega arith)) in
        rw place (p (physical pagetable t (src + (w + i))) ∙ rw out refl)

    pub step-CopiedUpTo : (m' : Memory) → CopyOf n pa (dst + w) m m' → CopiedUpTo (w + n) m'
    step-CopiedUpTo m' copied x = elim (Bool-cases (inside (dst + w) n x)) [
      | inl here ↦
          let i = x - (dst + w) in
          let goal : inside dst (w + n) x ≡ true = ground arith in
          let at : x - dst ≡ w + i = ground arith in
          rw (goal, at) (copied x ∙ (rw here (page-byte i (ground arith))))
      | inr other ↦
          let goal : inside dst (w + n) x ≡ inside dst w x = ground arith in
          rw goal (copied x ∙ (rw other (p x)))
    ]

  copyin_loop-HasCopied :
      (k w s : ℕ) (m : Memory)
      → w ≤ len
      → len - w ≤ k
      → (s ≡ src + w) ⊎ (w ≡ len)
      → CopiedUpTo w m
      → HasCopied (copyin_loop k pagetable t (dst + w) s (len - w) m)
  unfolding copyin_loop
  copyin_loop-HasCopied zero w s m le fuel at p =
      let all : w ≡ len = omega arith in (w, le, p, inl (refl, all))
  copyin_loop-HasCopied (suc k) w s m le fuel at p = elim (Bool-cases (len - w == 0)) [
    | inl e ↦ rw e (w, le, p, inl (refl, ground (arith, e)))
    | inr more ↦
        let here : s ≡ src + w = ground (arith, at, more) in
        elim (Bool-cases (walkaddr pagetable (page_of (src + w)) t == 0)) [
          | inl fault ↦
              let no_page : mapped pagetable t (src + w) ≡ false = rw fault refl in
              rw (more, here, fault) (w, le, p, inr (refl, ground (arith, more), no_page))
          | inr page ↦
              let va0 = page_of (src + w) in
              let n = min (page_size - (src + w - va0)) (len - w) in
              let m1 = memmove (dst + w) (walkaddr pagetable va0 t + (src + w - va0)) n m in
              let q : CopiedUpTo (w + n) m1 =
                step-CopiedUpTo w n m p (ground arith) (ground arith) m1
                  (memmove-byte (dst + w) (walkaddr pagetable va0 t + (src + w - va0)) n m) in
              let o : dst + w + n ≡ dst + (w + n) = omega arith in
              let l : len - w - n ≡ len - (w + n) = omega arith in
              rw (more, here, page, o, l)
                (copyin_loop-HasCopied k (w + n) (va0 + page_size) m1 (ground arith)
                  (ground (arith, more)) (ground arith) q)
        ]
  ]

-- copyin of bytes that the kernel's buffer does not overlap: it copies the bytes at the process's addresses, in order, all
-- of them, or those in front of an address whose page is not mapped, and then fails; it changes no other
-- byte.
pub copyin-HasCopied :
    (pagetable : ℕ) (t : Ptes) (dst src len : ℕ) (m : Memory)
    (apart : (i : ℕ) → i < len → inside dst len (physical pagetable t (src + i)) ≡ false)
    → HasCopied pagetable t dst src len m apart (copyin pagetable t dst src len m)
unfolding copyin
copyin-HasCopied pagetable t dst src len m apart =
    let d : dst + 0 ≡ dst = omega arith in
    let l : len - 0 ≡ len = omega arith in
    subst
      (λ (x, y). HasCopied pagetable t dst src len m apart (copyin_loop len pagetable t x src y m))
      (λ i. (d i, l i))
      (copyin_loop-HasCopied pagetable t dst src len m apart len 0 src m (omega arith) (omega arith)
        (inl (omega arith)) (λ x. ground arith))

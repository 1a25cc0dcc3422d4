-- ===== src/Vm/Text.antt =====
-- `copyinstr` of kernel/vm.c: which bytes of a process it copies, and when it ends well.
use os_assignments.Prelude.{
  ℕ, zero, suc, ◌+◌, ◌-◌, ◌≤◌, ◌<◌, ◌≡◌, ◌≢◌, refl, sym, ap, ◌∙◌, ◌⊎◌, inl, inr, arith, Bool, true,
  false, if◌then◌else◌, ◌==◌, ltb, Bool-cases, min,
}
use mathlib.Core.Path.{subst}
use os_assignments.Strings.{Memory}
use os_assignments.Strings.Bytes.{inside}
use os_assignments.Vm.{page_size, Ptes, walkaddr, page_of, copy_text, copyinstr_loop, copyinstr}
use os_assignments.Vm.Copy.{mapped, physical, CopiedUpTo, page-byte, step-CopiedUpTo}
use os_assignments.Vm.Part.{Part, copy_text-Part}

module _ (pagetable : ℕ) (t : Ptes) (dst src room : ℕ) (m0 : Memory)
    (apart : (i : ℕ) → i < room → inside dst room (physical pagetable t (src + i)) ≡ false) where
  abbrev pub NoZero : (w : ℕ) → Type 0
  NoZero w = (i : ℕ) → i < w → m0 (physical pagetable t (src + i)) ≢ 0

  -- How the call ends: with the string and its zero; or with what is in front of a page that is not
  -- mapped, or with no zero in the room.
  abbrev pub GotText : Bool × Memory → Type 0
  GotText (done, m) =
      (w : ℕ) × (w ≤ room)
      × CopiedUpTo pagetable t dst src room m0 apart w m
      × (((done ≡ true)
            × (0 < w)
            × (m0 (physical pagetable t (src + (w - 1))) ≡ 0)
            × NoZero (w - 1))
          ⊎ ((done ≡ false) × NoZero w × ((w ≡ room) ⊎ (mapped pagetable t (src + w) ≡ false))))

  module _ (k w n s : ℕ) (m : Memory) (p : CopiedUpTo pagetable t dst src room m0 apart w m)
      (nz : NoZero w) (range : w + n ≤ room)
      (on_page : n ≤ page_size - (src + w - page_of (src + w)))
      (loop : (m' : Memory)
        → CopiedUpTo pagetable t dst src room m0 apart (w + n) m'
        → NoZero (w + n)
        → GotText (copyinstr_loop k pagetable t (dst + w + n) s (room - w - n) m')) where
    abbrev at : ℕ
    at = walkaddr pagetable (page_of (src + w)) t + (src + w - page_of (src + w))

    NoZero-more : (j : ℕ) → j ≤ n → ((i : ℕ) → i < j → m (at + i) ≢ 0) → NoZero (w + j)
    NoZero-more j le more i lt = elim (Bool-cases (ltb i w)) [
      | inl early ↦ nz i (ground arith)
      | inr late ↦
          let place : w + (i - w) ≡ i = ground arith in
          let b =
            page-byte pagetable t dst src room m0 apart w n m p range on_page (i - w)
              (ground arith) in
          λ z.
            more (i - w) (ground arith)
              (b ∙ (ap (λ i. m0 (physical pagetable t (src + i))) place ∙ z))
    ]

    after_copy :
        (r : Bool × Memory)
        → Part n at (dst + w) m r
        → GotText
            (if r.0 then r else copyinstr_loop k pagetable t (dst + w + n) s (room - w - n) r.1)
    after_copy (done, m') (j, copy, inl (d, pos, le, z, early)) =
        let copied =
          step-CopiedUpTo pagetable t dst src room m0 apart w j m p (omega arith) (omega arith) m'
            copy in
        let last : w + j - 1 ≡ w + (j - 1) = omega arith in
        let b =
          page-byte pagetable t dst src room m0 apart w n m p range on_page (j - 1) (omega arith) in
        rw d (
          w + j,
          omega arith,
          copied,
          inl (
            refl,
            omega arith,
            ap (λ i. m0 (physical pagetable t (src + i))) last ∙ (sym b ∙ z),
            subst NoZero (sym last)
                (NoZero-more (j - 1) (omega arith) (λ i lt. early i (omega arith))),
          ),
        )
    after_copy (done, m') (j, copy, inr (d, all, early)) =
        let copied =
          step-CopiedUpTo pagetable t dst src room m0 apart w j m p (omega arith) (omega arith) m'
            copy in
        rw d (
          loop m' (subst (λ j. CopiedUpTo pagetable t dst src room m0 apart (w + j) m') all copied)
            (subst (λ j. NoZero (w + j)) all (NoZero-more j (omega arith) early)))

  -- The rest of the page is apart from the room that is left.
  page_apart :
      (w n : ℕ)
      → w ≤ room
      → w + n ≤ room
      → n ≤ page_size - (src + w - page_of (src + w))
      → (i : ℕ) → i < n
      → inside
          (dst + w)
          n
          (walkaddr pagetable (page_of (src + w)) t + (src + w - page_of (src + w)) + i)
        ≡ false
  page_apart w n le range on_page i lt =
      let same : page_of (src + (w + i)) ≡ page_of (src + w) = ground arith in
      let place : walkaddr pagetable (page_of (src + w)) t + (src + w - page_of (src + w)) + i
          ≡ physical pagetable t (src + (w + i)) =
        rw same (ground arith) in
      rw place (ground (arith, apart (w + i) (omega arith)))

  copyinstr_loop-GotText :
      (k w s : ℕ) (m : Memory)
      → w ≤ room
      → room - w ≤ k
      → (s ≡ src + w) ⊎ (w ≡ room)
      → CopiedUpTo pagetable t dst src room m0 apart w m
      → NoZero w
      → GotText (copyinstr_loop k pagetable t (dst + w) s (room - w) m)
  unfolding copyinstr_loop
  copyinstr_loop-GotText zero w s m le fuel at p nz =
      let all : w ≡ room = omega arith in (w, le, p, inr (refl, nz, inl all))
  copyinstr_loop-GotText (suc k) w s m le fuel at p nz = elim (Bool-cases (room - w == 0)) [
    | inl e ↦ rw e (w, le, p, inr (refl, nz, inl (ground (arith, e))))
    | inr more ↦
        let here : s ≡ src + w = ground (arith, at, more) in
        elim (Bool-cases (walkaddr pagetable (page_of (src + w)) t == 0)) [
          | inl fault ↦
              let no_page : mapped pagetable t (src + w) ≡ false = rw fault refl in
              rw (more, here, fault) (w, le, p, inr (refl, nz, inr no_page))
          | inr page ↦
              let va0 = page_of (src + w) in
              let n = min (page_size - (src + w - va0)) (room - w) in
              let a = walkaddr pagetable va0 t + (src + w - va0) in
              let o : dst + w + n ≡ dst + (w + n) = omega arith in
              let l : room - w - n ≡ room - (w + n) = omega arith in
              let loop : (m' : Memory)
                  → CopiedUpTo pagetable t dst src room m0 apart (w + n) m'
                  → NoZero (w + n)
                  → GotText (
                      copyinstr_loop k pagetable t (dst + w + n) (va0 + page_size) (room - w - n)
                        m') =
                λ m' c z.
                  rw (o, l)
                    (copyinstr_loop-GotText k (w + n) (va0 + page_size) m' (ground arith)
                      (ground (arith, more)) (ground arith) c z) in
              rw (more, here, page)
                (after_copy k w n (va0 + page_size) m p nz (ground arith) (ground arith) loop
                  (copy_text n a (dst + w) m)
                  (copy_text-Part n a (dst + w) m
                    (page_apart w n le (ground arith) (ground arith))))
        ]
  ]

-- copyinstr of a string that the kernel's buffer does not overlap: it ends well exactly with the bytes up to
-- the first zero and the zero itself in the buffer, within its room; else there is no zero in the
-- room, or none in front of an address whose page is not mapped. It changes no byte but those
-- copied.
pub copyinstr-GotText :
    (pagetable : ℕ) (t : Ptes) (dst src room : ℕ) (m : Memory)
    (apart : (i : ℕ) → i < room → inside dst room (physical pagetable t (src + i)) ≡ false)
    → GotText pagetable t dst src room m apart (copyinstr pagetable t dst src room m)
unfolding copyinstr
copyinstr-GotText pagetable t dst src room m apart =
    let d : dst + 0 ≡ dst = omega arith in
    let l : room - 0 ≡ room = omega arith in
    subst
      (λ (x, y).
        GotText pagetable t dst src room m apart (copyinstr_loop room pagetable t x src y m))
      (λ i. (d i, l i))
      (copyinstr_loop-GotText pagetable t dst src room m apart room 0 src m (omega arith)
        (omega arith) (inl (omega arith)) (λ x. ground arith) (λ i lt. absurd (omega arith)))

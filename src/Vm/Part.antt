-- ===== src/Vm/Part.antt =====
-- The inner loop of `copyinstr` of kernel/vm.c, on one page.
use os_assignments.Prelude.{
  ℕ, zero, suc, ◌+◌, ◌-◌, ◌≤◌, ◌<◌, ◌≡◌, ◌≢◌, refl, sym, ap, ◌∙◌, ◌⊎◌, inl, inr, arith, Bool, true,
  false, ◌==◌, Bool-cases, ==→eq, ==_false→ne, update,
}
use os_assignments.Strings.{Memory}
use os_assignments.Strings.Bytes.{inside}
use os_assignments.Vm.{copy_text}
use os_assignments.Vm.Copy.{CopyOf}

-- The bytes up to the zero, or all `n`.
abbrev pub Part : (n p dst : ℕ) → Memory → Bool × Memory → Type 0
Part n p dst m (done, m') =
    (w : ℕ) × CopyOf w p dst m m'
    × (((done ≡ true)
          × (0 < w)
          × (w ≤ n)
          × (m (p + (w - 1)) ≡ 0)
          × ((i : ℕ) → i + 1 < w → m (p + i) ≢ 0))
        ⊎ ((done ≡ false) × (w ≡ n) × ((i : ℕ) → i < w → m (p + i) ≢ 0)))

behind_first :
    (n p dst : ℕ) (m : Memory)
    → ((i : ℕ) → i < suc n → inside dst (suc n) (p + i) ≡ false)
    → (i : ℕ) → i < n
    → update m dst (m p) (p + 1 + i) ≡ m (p + (i + 1))
behind_first n p dst m apart i lt =
    let h = apart (i + 1) (omega arith) in
    let c : p + 1 + i ≡ p + (i + 1) = omega arith in rw c (ground (arith, h))

nonzero_more :
    (n w p dst : ℕ) (m : Memory)
    → m p ≢ 0
    → ((i : ℕ) → i < n → update m dst (m p) (p + 1 + i) ≡ m (p + (i + 1)))
    → w ≤ n
    → ((i : ℕ) → i < w → update m dst (m p) (p + 1 + i) ≢ 0)
    → (i : ℕ) → i < w + 1
    → m (p + i) ≢ 0
nonzero_more n w p dst m ne same le nz zero lt =
    let e : p + 0 ≡ p = omega arith in λ z. ne (sym (ap m e) ∙ z)
nonzero_more n w p dst m ne same le nz (suc i) lt =
    let e : p + suc i ≡ p + (i + 1) = omega arith in
    λ z. nz i (omega arith) (same i (omega arith) ∙ (sym (ap m e) ∙ z))

CopyOf-more :
    (n w p dst : ℕ) (m m' : Memory)
    → ((i : ℕ) → i < n → update m dst (m p) (p + 1 + i) ≡ m (p + (i + 1)))
    → w ≤ n
    → CopyOf w (p + 1) (dst + 1) (update m dst (m p)) m'
    → CopyOf (w + 1) p dst m m'
CopyOf-more n w p dst m m' same le copy x = elim (Bool-cases (inside (dst + 1) w x)) [
  | inl here ↦
      let i = x - (dst + 1) in
      let goal : inside dst (w + 1) x ≡ true = ground arith in
      let at : p + (x - dst) ≡ p + (i + 1) = ground arith in
      rw goal (copy x ∙ (rw (here, at) (same i (ground arith))))
  | inr other ↦ elim (Bool-cases (x == dst)) [
    | inl s ↦
        let goal : inside dst (w + 1) x ≡ true = ground arith in
        let at : p + (x - dst) ≡ p = ground arith in rw goal (copy x ∙ (rw (other, s, at) refl))
    | inr s ↦
        let goal : inside dst (w + 1) x ≡ false = ground arith in
        rw goal (copy x ∙ (rw (other, s) refl))
  ]
]

Part-more :
    (n p dst : ℕ) (m : Memory) (r : Bool × Memory)
    → m p ≢ 0
    → ((i : ℕ) → i < n → update m dst (m p) (p + 1 + i) ≡ m (p + (i + 1)))
    → Part n (p + 1) (dst + 1) (update m dst (m p)) r
    → Part (suc n) p dst m r
Part-more n p dst m (done, m') ne same (w, copy, inl (d, pos, le, z, nz)) = (
  w + 1,
  CopyOf-more n w p dst m m' same le copy,
  inl (
    d,
    omega arith,
    omega arith,
    (let at : p + (w + 1 - 1) ≡ p + (w - 1 + 1) = omega arith in
        ap m at ∙ (sym (same (w - 1) (omega arith)) ∙ z)),
    λ i lt.
        nonzero_more n (w - 1) p dst m ne same (omega arith) (λ i lt. nz i (omega arith)) i
          (omega arith),
  ),
)
Part-more n p dst m (done, m') ne same (w, copy, inr (d, all, nz)) = (
  w + 1,
  CopyOf-more n w p dst m m' same (omega arith) copy,
  inr (d, omega arith, λ i lt. nonzero_more n w p dst m ne same (omega arith) nz i lt),
)

pub copy_text-Part :
    (n p dst : ℕ) (m : Memory)
    → ((i : ℕ) → i < n → inside dst n (p + i) ≡ false)
    → Part n p dst m (copy_text n p dst m)
unfolding copy_text
copy_text-Part zero p dst m apart =
    (0, λ x. ground arith, inr (refl, refl, λ i lt. absurd (omega arith)))
copy_text-Part (suc n) p dst m apart = elim (Bool-cases (m p == 0)) [
  | inl e ↦
      let z : m p ≡ 0 = ==→eq (m p) 0 e in
      let here : p + (1 - 1) ≡ p = omega arith in
      rw e (
        1,
        λ x. elim (Bool-cases (x == dst)) [
          | inl s ↦
              let at : p + (x - dst) ≡ p = ground arith in
              let within : inside dst 1 x ≡ true = ground arith in rw (s, within, at) (sym z)
          | inr s ↦ let out : inside dst 1 x ≡ false = ground arith in rw (s, out) refl
        ],
        inl (refl, omega arith, omega arith, ap m here ∙ z, λ i lt. absurd (omega arith)),
      )
  | inr e ↦ rw e (
      Part-more n p dst m (copy_text n (p + 1) (dst + 1) (update m dst (m p)))
        (==_false→ne (m p) 0 e) (λ i lt. behind_first n p dst m apart i lt)
        (copy_text-Part n (p + 1) (dst + 1) (update m dst (m p))
          (λ i lt. ground (arith, apart (i + 1)))))
]

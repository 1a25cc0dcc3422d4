-- ===== src/Proc/Life/Wait.antt =====
-- `wait` of kernel/proc.c, on every branch of a pass.
use os_assignments.Prelude.{
  ℕ, zero, suc, ◌+◌, ◌≤◌, ◌<◌, ◌≡◌, ◌≢◌, refl, Bool, true, false, Option, none, some, ◌⊎◌, inl, inr,
  ◌==◌, arith, ◌&&◌, ◌||◌, not, Bool-cases, ==_false→ne,
}
use os_assignments.Proc.{zombie, is_zombie, Proc, Kernel, nproc, cleared}
use os_assignments.Proc.Fork.{OnlyAt}
use os_assignments.Proc.Life.{
  is_child, Scan, found, have_kids, wait_scan, Waited, reaped, no_child, no_copy, wait_sleeps, wait,
  wait_at,
}

module _ (me : ℕ) (proc : ℕ → Proc) where
  abbrev pub IsChild : ℕ → Type 0
  IsChild j = (proc j).parent ≡ some me

  abbrev pub IsDead : ℕ → Type 0
  IsDead j = IsChild j × ((proc j).state ≡ zombie)

  -- What the scan of `n` processes from `i` on has found, where `kids` tells of a child before.
  abbrev pub Scanned : ℕ → ℕ → Bool → Scan → Type 0
  Scanned n i kids (found j) = (i ≤ j) × (j < i + n) × IsDead j
  Scanned n i kids (have_kids b) =
      ((j : ℕ) → i ≤ j → j < i + n → ¬ IsDead j)
      × (b ≡ false → (kids ≡ false) × ((j : ℕ) → i ≤ j → j < i + n → ¬ IsChild j))
      × (b ≡ true → (kids ≡ true) ⊎ ((j : ℕ) × (i ≤ j) × (j < i + n) × IsChild j))

  child_test : (o : Option ℕ) → is_child o me ≡ true → o ≡ some me
  child_test none h = cc
  child_test (some q) h = ground arith

  child_test_false : (o : Option ℕ) → is_child o me ≡ false → o ≢ some me
  child_test_false none h e = cc
  child_test_false (some q) h e = ground arith

  step :
      (n i : ℕ) (kids : Bool) (s : Scan)
      → (is_child (proc i).parent me && is_zombie (proc i).state) ≡ false
      → Scanned n (i + 1) (kids || is_child (proc i).parent me) s
      → Scanned (suc n) i kids s
  step n i kids (found j) miss r = (omega arith, omega arith, r.2)
  step n i kids (have_kids b) miss r = (
    λ j lo hi dead. elim (Bool-cases (j == i)) [
      | inl same ↦ ground (arith, miss)
      | inr more ↦ r.0 j (omega (arith, ==_false→ne j i more)) (omega arith) dead
    ],
    λ e.
        let before = r.1 e in
        let not_here : is_child (proc i).parent me ≡ false = ground (arith, before.0) in
        (
          ground (arith, before.0),
          λ j lo hi child. elim (Bool-cases (j == i)) [
            | inl same ↦ ground (arith, child_test_false (proc i).parent not_here)
            | inr more ↦ before.1 j (omega (arith, ==_false→ne j i more)) (omega arith) child
          ],
        ),
    λ e. elim (r.2 e) [
      | inl seen ↦ elim (Bool-cases kids) [
        | inl old ↦ inl old
        | inr new ↦
            inr (i, omega arith, omega arith, child_test (proc i).parent (ground (arith, seen)))
      ]
      | inr (j, lo, hi, child) ↦ inr (j, omega arith, omega arith, child)
    ],
  )

  wait_scan-Scanned : (n i : ℕ) (kids : Bool) → Scanned n i kids (wait_scan n i me kids proc)
  unfolding wait_scan
  wait_scan-Scanned zero i kids =
      (λ j lo hi. absurd (omega arith), λ e. (e, λ j lo hi. absurd (omega arith)), λ e. inl e)
  wait_scan-Scanned (suc n) i kids =
      elim (Bool-cases (is_child (proc i).parent me && is_zombie (proc i).state)) [
        | inl hit ↦
            rw hit
              (omega arith, omega arith, (child_test (proc i).parent (ground arith), ground arith))
        | inr miss ↦ rw miss (
            step n i kids _ miss
              (wait_scan-Scanned n (i + 1) (kids || is_child (proc i).parent me)))
      ]

abbrev pub NoneDead : (me : ℕ) → Kernel → Type 0
NoneDead me k = (j : ℕ) → j < nproc → ¬ IsDead me k.proc j

-- How a pass of `wait` by process `me` may end, and what it has then done.
abbrev pub Waits : (me addr : ℕ) (copyout : Bool) → Kernel → Waited × Kernel → Type 0
Waits me addr copyout k (reaped pid, k') =
    ((addr ≡ 0) ⊎ (copyout ≡ true))
    × ((i : ℕ) × (i < nproc)
        × IsDead me k.proc i
        × (pid ≡ (k.proc i).pid)
        × (k'.proc i ≡ cleared (k.proc i))
        × OnlyAt i k k')
Waits me addr copyout k (no_copy, k') =
    (k' ≡ k) × (addr ≢ 0) × (copyout ≡ false) × ((i : ℕ) × (i < nproc) × IsDead me k.proc i)
Waits me addr copyout k (no_child, k') =
    (k' ≡ k)
    × NoneDead me k
    × (((j : ℕ) → j < nproc → ¬ IsChild me k.proc j) ⊎ ((k.proc me).killed ≡ true))
Waits me addr copyout k (wait_sleeps, k') =
    (k' ≡ k)
    × NoneDead me k
    × ((j : ℕ) × (j < nproc) × IsChild me k.proc j)
    × ((k.proc me).killed ≡ false)

module _ (me addr : ℕ) (copyout : Bool) (k : Kernel) where
  wait_found :
      (i : ℕ)
      → Scanned me k.proc nproc 0 false (found i)
      → Waits me addr copyout k (wait_at me addr copyout k (found i))
  unfolding wait_at
  wait_found i r = elim (Bool-cases (not (addr == 0) && not copyout)) [
    | inl bad ↦ rw bad (refl, ground arith, ground arith, (i, r.1, r.2))
    | inr good ↦ rw good (ground arith, (i, r.1, r.2, refl, ground arith, λ j ne. ground arith))
  ]

  wait_kids :
      (b : Bool)
      → Scanned me k.proc nproc 0 false (have_kids b)
      → Waits me addr copyout k (wait_at me addr copyout k (have_kids b))
  unfolding wait_at
  wait_kids false r =
      (refl, λ j lt. r.0 j (omega arith) lt, inl (λ j lt. (r.1 refl).1 j (omega arith) lt))
  wait_kids true r = elim (Bool-cases (k.proc me).killed) [
    | inl dying ↦ simp dying (refl, λ j lt. r.0 j (omega arith) lt, inr refl)
    | inr alive ↦ simp alive (
      refl,
      λ j lt. r.0 j (omega arith) lt,
      elim (r.2 refl) [ inl e ↦ cc | inr (j, lo, hi, child) ↦ (j, hi, child) ],
      refl,
    )
  ]

  wait_either :
      (s : Scan)
      → Scanned me k.proc nproc 0 false s
      → Waits me addr copyout k (wait_at me addr copyout k s)
  wait_either (found i) r = wait_found i r
  wait_either (have_kids b) r = wait_kids b r

-- A pass of `wait` returns the id of a zombie child, whose slot it frees and which it alone
-- changes, the status being copied out or not asked for. It returns -1 if that copy fails, with
-- the zombie kept; or if there is no zombie child and either no child at all or the caller is
-- killed. It sleeps only if there is a child, none of them is a zombie, and the caller lives on.
pub wait-Waits :
    (me addr : ℕ) (copyout : Bool) (k : Kernel) → Waits me addr copyout k (wait me addr copyout k)
unfolding wait
wait-Waits me addr copyout k =
    wait_either me addr copyout k (wait_scan nproc 0 me false k.proc)
      (wait_scan-Scanned me k.proc nproc 0 false)

wait_at-rest :
    (me addr : ℕ) (copyout : Bool) (k : Kernel) (s : Scan)
    → ((wait_at me addr copyout k s).1.nextpid ≡ k.nextpid)
      × ((wait_at me addr copyout k s).1.initproc ≡ k.initproc)
unfolding wait_at
wait_at-rest me addr copyout k (found i) = ground arith
wait_at-rest me addr copyout k (have_kids b) = ground arith

pub wait-rest :
    (me addr : ℕ) (copyout : Bool) (k : Kernel)
    → ((wait me addr copyout k).1.nextpid ≡ k.nextpid)
      × ((wait me addr copyout k).1.initproc ≡ k.initproc)
unfolding wait
wait-rest me addr copyout k = wait_at-rest me addr copyout k (wait_scan nproc 0 me false k.proc)

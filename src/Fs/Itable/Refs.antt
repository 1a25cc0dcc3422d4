-- ===== src/Fs/Itable/Refs.antt =====
-- The references to the entries of the table of inodes in kernel/fs.c, as the processes hold them: a
-- pair of a process and an entry for each.
use os_assignments.Prelude.{
  ℕ, suc, ◌-◌, ◌<◌, ◌≡◌, ◌≢◌, sym, ◌∙◌, ◌⊎◌, inl, inr, arith, ◌==◌, ◌&&◌, if◌then◌else◌, Bool-cases,
  List, [], ◌∷◌,
}

abbrev pub Holding : Type 0
Holding = List (ℕ × ℕ)

abbrev pub Holds : (p i : ℕ) → Holding → Type 0
Holds p i [] = ⊥
Holds p i ((q, j) ∷ held) = ((q ≡ p) × (j ≡ i)) ⊎ Holds p i held

unfoldable pub count : (i : ℕ) → Holding → ℕ
count i [] = 0
count i ((q, j) ∷ held) = if j == i then suc (count i held) else count i held

-- One reference of the process less.
pub without : (p i : ℕ) → Holding → Holding
without p i [] = []
without p i ((q, j) ∷ held) = if q == p && j == i then held else (q, j) ∷ without p i held

pub Holds-count : (p i : ℕ) (held : Holding) → Holds p i held → 0 < count i held
unfolding count
Holds-count p i [] h = absurd h
Holds-count p i ((q, j) ∷ held) (inl (ep, ei)) = ground (arith, ei)
Holds-count p i ((q, j) ∷ held) (inr h) = ground (arith, Holds-count p i held h)

-- The references of two processes are two.
pub two-count :
    (p q i : ℕ) (held : Holding) → Holds p i held → Holds q i held → p ≢ q → 1 < count i held
unfolding count
two-count p q i [] hp hq ne = absurd hp
two-count p q i ((r, j) ∷ held) (inl (ep, ei)) (inl (eq, ei')) ne = absurd (ne (sym ep ∙ eq))
two-count p q i ((r, j) ∷ held) (inl (ep, ei)) (inr hq) ne =
    ground (arith, ei, Holds-count q i held hq)
two-count p q i ((r, j) ∷ held) (inr hp) (inl (eq, ei)) ne =
    ground (arith, ei, Holds-count p i held hp)
two-count p q i ((r, j) ∷ held) (inr hp) (inr hq) ne = ground (arith, two-count p q i held hp hq ne)

pub count-without :
    (p i j : ℕ) (held : Holding)
    → Holds p i held
    → count j (without p i held) ≡ (if i == j then count j held - 1 else count j held)
unfolding count without
count-without p i j [] h = absurd h
count-without p i j ((q, x) ∷ held) h = elim (Bool-cases (q == p && x == i)) [
  | inl same ↦ ground (arith, same)
  | inr other ↦
      let more : Holds p i held = elim h [
        | inl (ep, ei) ↦ absurd (ground (arith, other, ep, ei))
        | inr m ↦ m
      ] in
      ground (arith, other, count-without p i j held more, Holds-count p i held more)
]

pub Holds-without :
    (p i q j : ℕ) (held : Holding)
    → Holds q j held
    → (q ≢ p) ⊎ (j ≢ i)
    → Holds q j (without p i held)
unfolding without
Holds-without p i q j [] h ne = absurd h
Holds-without p i q j ((r, x) ∷ held) h ne = elim (Bool-cases (r == p && x == i)) [
  | inl same ↦
      rw same (elim h [ inl (eq, ej) ↦ absurd (ground (arith, same, eq, ej, ne)) | inr m ↦ m ])
  | inr other ↦ rw other (elim h [ inl e ↦ inl e | inr m ↦ inr (Holds-without p i q j held m ne) ])
]

-- ===== src/Prelude/Tables.antt =====
-- Loops over a table, `for (i = 0; i < n; i++)`: a search for the first entry, and a pass that
-- rewrites every entry.
use Prim.Native.Nat.{ℕ, zero, suc, ◌+◌, ◌≤◌, ◌<◌}
use mathlib.Core.Path.{◌≡◌, refl}
use mathlib.Core.Bool.{Bool, true, false, ◌&&◌}
use mathlib.Core.Option.{Option, none, some}
use mathlib.Core.Logic.{inl, inr}
use native.Mathlib.Omega.{arith}
use os_assignments.Prelude.Tests.{ltb, leb, ◌==◌, if◌then◌else◌, Bool-cases, ==_false→ne}
use os_assignments.Prelude.Lists.{update}

-- The first index of the `k` from `i` on that passes the test.
unfoldable pub find_from : ℕ → ℕ → (ℕ → Bool) → Option ℕ
find_from zero i test = none
find_from (suc k) i test = let rest = find_from k (i + 1) test in if test i then some i else rest

-- What such a search has found.
abbrev pub FindResult : ℕ → ℕ → (ℕ → Bool) → Option ℕ → Type 0
FindResult k i test none = (j : ℕ) → i ≤ j → j < i + k → test j ≡ false
FindResult k i test (some j) =
    (i ≤ j) × (j < i + k) × (test j ≡ true) × ((m : ℕ) → i ≤ m → m < j → test m ≡ false)

module _ (test : ℕ → Bool) where
  later :
      (k i : ℕ) (o : Option ℕ)
      → test i ≡ false
      → FindResult k (i + 1) test o
      → FindResult (suc k) i test o
  later k i none miss r = λ j lo hi. elim (Bool-cases (j == i)) [
    | inl same ↦ ground (arith, miss)
    | inr more ↦ r j (omega (arith, ==_false→ne j i more)) (omega arith)
  ]
  later k i (some j) miss r = (
    omega arith,
    omega arith,
    r.2,
    λ m lo hi. elim (Bool-cases (m == i)) [
      | inl same ↦ ground (arith, miss)
      | inr more ↦ r.3 m (omega (arith, ==_false→ne m i more)) (omega arith)
    ],
  )

  pub find_from-FindResult : (k i : ℕ) → FindResult k i test (find_from k i test)
  unfolding find_from
  find_from-FindResult zero i = λ j lo hi. absurd (omega arith)
  find_from-FindResult (suc k) i = elim (Bool-cases (test i)) [
    | inl hit ↦ rw hit (omega arith, omega arith, hit, λ m lo hi. absurd (omega arith))
    | inr miss ↦
        rw miss (later k i (find_from k (i + 1) test) miss (find_from-FindResult k (i + 1)))
  ]

module _ {ℓ} {A : Type ℓ} where
  -- Entry `j` becomes `f j` of itself, for the `k` entries from `i` on.
  unfoldable pub map_from : ℕ → ℕ → (ℕ → A → A) → (ℕ → A) → ℕ → A
  map_from zero i f t = t
  map_from (suc k) i f t = map_from k (i + 1) f (update t i (f i (t i)))

  map_from-before : (k i : ℕ) (f : ℕ → A → A) (t : ℕ → A) (j : ℕ) → j < i → map_from k i f t j ≡ t j
  unfolding map_from
  map_from-before zero i f t j h = refl
  map_from-before (suc k) i f t j h =
      ground (arith, map_from-before k (i + 1) f (update t i (f i (t i))) j)

  pub map_from-get :
      (k i : ℕ) (f : ℕ → A → A) (t : ℕ → A) (j : ℕ)
      → map_from k i f t j ≡ (if leb i j && ltb j (i + k) then f j (t j) else t j)
  unfolding map_from
  map_from-get zero i f t j = ground arith
  map_from-get (suc k) i f t j = ground (
    arith,
    map_from-get k (i + 1) f (update t i (f i (t i))) j,
    map_from-before k (i + 1) f (update t i (f i (t i))) j,
  )

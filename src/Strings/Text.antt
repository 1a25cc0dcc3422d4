-- ===== src/Strings/Text.antt =====
-- strncmp, strncpy, safestrcpy and strlen of kernel/string.c.
use os_assignments.Prelude.{
  ℕ, zero, suc, ◌+◌, ◌-◌, ◌^◌, ◌≤◌, ◌<◌, ◌≡◌, refl, true, not, ◌&&◌, ◌≢◌, ◌⊎◌, inl, inr, ltb, leb,
  min, sym, rounds, ◌==◌, ==_false→ne, Bool-cases, if◌then◌else◌, arith, word, int_lt, update, some,
}
use mathlib.Core.Path.{subst}
use os_assignments.Strings.{
  Memory, int_diff, strncmp, pad, strncpy_loop, strncpy, safestrcpy_loop, safestrcpy, strlen_loop,
}

-- The first `k` bytes from `t` on are not the terminating zero.
abbrev pub Letters : (t k : ℕ) → Memory → Type 0
Letters t k m = (i : ℕ) → i < k → m (t + i) ≢ 0

-- What `strncpy s t n` makes of `m`: `k` letters copied, zeros in the rest of the `n` places.
abbrev pub Padded : (s t n k : ℕ) → Memory → Memory → Type 0
Padded s t n k m m' =
    (k ≤ n)
    × Letters t k m
    × ((k ≡ n) ⊎ (m (t + k) ≡ 0))
    × ((a : ℕ)
        → m' a ≡ (
            if leb s a && ltb a (s + k)
            then m (t + (a - s))
            else if leb s a && ltb a (s + n)
            then 0
            else m a))

pad-byte :
    (n s : ℕ) (m : Memory) (a : ℕ) → pad n s m a ≡ (if leb s a && ltb a (s + n) then 0 else m a)
unfolding pad
pad-byte zero s m a = ground arith
pad-byte (suc n) s m a = ground (arith, pad-byte n (s + 1) (update m s 0) a)

Letters-step :
    (s t n k : ℕ) (m : Memory)
    → (s + n < t) ⊎ (t + n < s)
    → k ≤ n
    → m t ≢ 0
    → Letters (t + 1) k (update m s (m t))
    → Letters t (k + 1) m
Letters-step s t n k m apart small first rest zero h = ground arith
Letters-step s t n k m apart small first rest (suc i) h = ground (arith, rest i)

Padded-step :
    (s t n k : ℕ) (m m' : Memory)
    → (s + n < t) ⊎ (t + n < s)
    → m t ≢ 0
    → Padded (s + 1) (t + 1) n k (update m s (m t)) m'
    → Padded s t (suc n) (k + 1) m m'
Padded-step s t n k m m' apart first (small, letters, why, bytes) = (
  omega arith,
  Letters-step s t n k m apart small first letters,
  ground arith,
  λ a. ground (arith, bytes a),
)

strncpy_loop-Padded :
    (n s t : ℕ) (m : Memory)
    → (s + n ≤ t) ⊎ (t + n ≤ s)
    → (k : ℕ) × Padded s t n k m (strncpy_loop n s t m)
unfolding strncpy_loop
strncpy_loop-Padded zero s t m apart =
    (0, (omega arith, λ i h. absurd (omega arith), inl refl, λ a. ground arith))
strncpy_loop-Padded (suc n) s t m apart = elim (Bool-cases (m t == 0)) [
  | inl ended ↦ rw ended (
    0,
    (
      omega arith,
      λ i h. absurd (omega arith),
      inr (ground (arith, ended)),
      λ a. ground (arith, ended, pad-byte n (s + 1) (update m s (m t)) a),
    ),
  )
  | inr more ↦
      let (k, p) = strncpy_loop-Padded n (s + 1) (t + 1) (update m s (m t)) (omega arith) in
      rw more (
        k + 1,
        Padded-step s t n k m (strncpy_loop n (s + 1) (t + 1) (update m s (m t))) (omega arith)
            (==_false→ne (m t) 0 more) p,
      )
]

strncpy-rounds : (s t n : ℕ) (m : Memory) → strncpy s t n m ≡ strncpy_loop (rounds n) s t m
unfolding strncpy rounds strncpy_loop
strncpy-rounds s t n m = elim (Bool-cases (int_lt 0 n)) [
  | inl some_room ↦ rw some_room refl
  | inr no_room ↦ rw no_room refl
]

-- strncpy copies the letters of the string at `t`, at most `n` of them, fills the rest of the `n`
-- places with zeros and changes no other byte, if the two blocks are apart; a negative `n` counts
-- as none.
pub strncpy-Padded :
    (s t n : ℕ) (m : Memory)
    → (s + rounds n ≤ t) ⊎ (t + rounds n ≤ s)
    → (k : ℕ) × Padded s t (rounds n) k m (strncpy s t n m)
strncpy-Padded s t n m apart =
    subst (λ m'. (k : ℕ) × Padded s t (rounds n) k m m') (sym (strncpy-rounds s t n m))
      (strncpy_loop-Padded (rounds n) s t m apart)

-- What `safestrcpy` makes of `m` with room for `n` bytes and a last one: `k` letters copied, and
-- zeros in up to two places behind them.
abbrev pub Terminated : (s t n k : ℕ) → Memory → Memory → Type 0
Terminated s t n k m m' =
    (k ≤ n)
    × Letters t k m
    × ((k ≡ n) ⊎ (m (t + k) ≡ 0))
    × ((a : ℕ)
        → m' a ≡ (
            if leb s a && ltb a (s + k)
            then m (t + (a - s))
            else if leb s a && leb a (s + min (k + 1) n)
            then 0
            else m a))

Terminated-step :
    (s t n k : ℕ) (m m' : Memory)
    → (s + suc n < t) ⊎ (t + suc n < s)
    → m t ≢ 0
    → Terminated (s + 1) (t + 1) n k (update m s (m t)) m'
    → Terminated s t (suc n) (k + 1) m m'
Terminated-step s t n k m m' apart first (small, letters, why, bytes) = (
  omega arith,
  Letters-step s t n k m (omega arith) small first letters,
  ground arith,
  λ a. ground (arith, bytes a),
)

safestrcpy_loop-Terminated :
    (n s t : ℕ) (m : Memory)
    → (s + n < t) ⊎ (t + n < s)
    → (k : ℕ) × Terminated s t n k m (safestrcpy_loop n s t m)
unfolding safestrcpy_loop
safestrcpy_loop-Terminated zero s t m apart =
    (0, (omega arith, λ i h. absurd (omega arith), inl refl, λ a. ground arith))
safestrcpy_loop-Terminated (suc n) s t m apart = elim (Bool-cases (m t == 0)) [
  | inl ended ↦ rw ended (
    0,
    (
      omega arith,
      λ i h. absurd (omega arith),
      inr (ground (arith, ended)),
      λ a. ground (arith, ended),
    ),
  )
  | inr more ↦
      let (k, p) = safestrcpy_loop-Terminated n (s + 1) (t + 1) (update m s (m t)) (omega arith) in
      rw more (
        k + 1,
        Terminated-step s t n k m (safestrcpy_loop n (s + 1) (t + 1) (update m s (m t)))
            (omega arith) (==_false→ne (m t) 0 more) p,
      )
]

-- strlen counts the letters before the first zero.
strlen_loop-Letters :
    (fuel s n k : ℕ) (m : Memory)
    → k < fuel
    → n + k < word
    → Letters (s + n) k m
    → m (s + (n + k)) ≡ 0
    → strlen_loop fuel s n m ≡ some (n + k)
unfolding strlen_loop
strlen_loop-Letters zero s n k m enough fits letters ended = absurd (omega arith)
strlen_loop-Letters (suc fuel) s n zero m enough fits letters ended = ground arith
strlen_loop-Letters (suc fuel) s n (suc k) m enough fits letters ended = ground (
  arith,
  letters 0 (omega arith),
  strlen_loop-Letters fuel s (n + 1) k m (omega arith) (omega arith)
      (λ i h. ground (arith, letters (i + 1) (omega arith))) (ground arith),
)

-- The whole loop of strlen: the number of letters, if the string ends within an `int`.
pub strlen_loop-count :
    (fuel s k : ℕ) (m : Memory)
    → k < fuel
    → k < word
    → Letters s k m
    → m (s + k) ≡ 0
    → strlen_loop fuel s 0 m ≡ some k
strlen_loop-count fuel s k m enough fits letters ended = ground (
  arith,
  strlen_loop-Letters fuel s 0 k m enough (omega arith) (λ i h. ground (arith, letters i h))
      (ground (arith, ended)),
)

-- What safestrcpy leaves is a string: for a room of `n > 0` bytes apart from its source, it has the
-- first letters of the source, as many as there are and fit before a zero, which strlen counts, and no byte
-- outside of the room changes.
pub safestrcpy-strlen :
    (s t n fuel : ℕ) (m : Memory)
    → 0 < n
    → n < 2 ^ 31
    → (s + n ≤ t) ⊎ (t + n ≤ s)
    → n ≤ fuel
    → (k : ℕ) × Terminated s t (n - 1) k m (safestrcpy s t n m)
      × (strlen_loop fuel s 0 (safestrcpy s t n m) ≡ some k)
unfolding safestrcpy
safestrcpy-strlen s t n fuel m room small apart enough =
    let (k, p) = safestrcpy_loop-Terminated (n - 1) s t m (omega arith) in
    let (fits, letters, why, bytes) = p in
    let m' = safestrcpy_loop (n - 1) s t m in
    let written : (i : ℕ) → i < k → m' (s + i) ≡ m (t + i) = λ i h. ground (arith, bytes (s + i)) in
    let some_room : int_lt 0 n ≡ true = ground arith in
    rw some_room (
      k,
      p,
      strlen_loop-count fuel s k m' (omega arith) (omega arith)
          (λ i h. ground (arith, letters i h, written i h)) (ground (arith, bytes (s + k))),
    )

-- What strncmp returns: 0 with the strings equal up to their end or over `n` places, or the
-- difference at the first place where they differ.
abbrev pub Ordered : (p q n : ℕ) → Memory → ℕ → Type 0
Ordered p q n m r =
    (k : ℕ) × (k ≤ n)
    × ((i : ℕ) → i < k → (m (p + i) ≡ m (q + i)) × (m (p + i) ≢ 0))
    × (((k ≡ n) × (r ≡ 0))
        ⊎ ((k < n)
            × ((m (p + k) ≡ 0) ⊎ (m (p + k) ≢ m (q + k)))
            × (r ≡ int_diff (m (p + k)) (m (q + k)))))

Ordered-shift :
    (p q n : ℕ) (m : Memory) (r : ℕ)
    → m p ≡ m q
    → m p ≢ 0
    → Ordered (p + 1) (q + 1) n m r
    → Ordered p q (suc n) m r
Ordered-shift p q n m r same more (k, small, before, why) =
    (k + 1, omega arith, λ i h. ground (arith, before (i - 1)), ground arith)

pub strncmp-Ordered : (p q n : ℕ) (m : Memory) → Ordered p q n m (strncmp p q n m)
unfolding strncmp
strncmp-Ordered p q zero m = (0, omega arith, λ i h. absurd (omega arith), inl (refl, refl))
strncmp-Ordered p q (suc n) m = elim (Bool-cases (not (m p == 0) && m p == m q)) [
  | inl same ↦ rw same (
      Ordered-shift p q n m (strncmp (p + 1) (q + 1) n m) (ground arith) (ground arith)
        (strncmp-Ordered (p + 1) (q + 1) n m))
  | inr differ ↦
      rw differ
        (0, omega arith, λ i h. absurd (omega arith), inr (omega arith, ground arith, ground arith))
]

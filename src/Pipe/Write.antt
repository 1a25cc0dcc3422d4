-- ===== src/Pipe/Write.antt =====
-- What a pass of `pipewrite` in kernel/pipe.c does, on every branch.
use os_assignments.Prelude.{
  ℕ, zero, suc, ◌+◌, ◌-◌, ◌≤◌, ◌<◌, ◌≡◌, ◌≢◌, refl, sym, ap, ◌∙◌, Bool, true, false, Option, none,
  some, ◌⊎◌, inl, inr, ◌==◌, not, ◌||◌, arith, List, [], ◌∷◌, ◌++◌, append-nil, append_assoc,
  Bool-cases, Option-cases,
}
use mathlib.Core.Path.{subst}
use os_assignments.Pipe.{
  Pipe, pipe_size, is_full, put, Outcome, sleeps, returns, fails, progress, write_pass,
}
use os_assignments.Pipe.Ring.{IsValid, count, contents, full_iff, contents-put, put-IsValid}

-- The `n` bytes at address `a` of the caller's memory; 0 where `copyin` fails.
abbrev pub chunk : (ℕ → Option ℕ) → ℕ → ℕ → List ℕ
chunk user a zero = []
chunk user a (suc n) = elim (user a) [ none ↦ 0 | some b ↦ b ] ∷ chunk user (a + 1) n

module _ (user : ℕ → Option ℕ) (killed : ℕ → Bool) (addr : ℕ) where
  -- Why a pass ended with `j` bytes done, where it was to do all up to `e`.
  abbrev pub Ended : ℕ → Pipe → Outcome → Type 0
  Ended e p (returns j) = (j ≡ e) ⊎ (user (addr + j) ≡ none)
  Ended e p (sleeps j) = (j < e) × (count p ≡ pipe_size) × (p.readopen ≡ true) × (killed j ≡ false)
  Ended e p (fails j) = (j < e) × ((p.readopen ≡ false) ⊎ (killed j ≡ true))

  -- What a pass over `k` bytes from byte `i` on has done.
  pub record Wrote (k i : ℕ) (p : Pipe) (o : Outcome) (p' : Pipe) : Type 0 where
    pub valid : IsValid p'
    pub done : (i ≤ progress o) × (progress o ≤ i + k)
    pub bytes : contents p' ≡ contents p ++ chunk user (addr + i) (progress o - i)
    pub readable : (m : ℕ) → i ≤ m → m < progress o → user (addr + m) ≢ none
    pub ended : Ended (i + k) p' o
    pub ends : (p'.readopen ≡ p.readopen) × (p'.writeopen ≡ p.writeopen) × (p'.nread ≡ p.nread)

  stop :
      (k i : ℕ) (p : Pipe) (o : Outcome)
      → IsValid p
      → progress o ≡ i
      → Ended (i + k) p o
      → Wrote k i p o p
  stop k i p o v e end = record {
    valid = v;
    done = omega arith;
    bytes =
        let none_done : progress o - i ≡ 0 = omega arith in
        rw none_done (sym (append-nil (contents p)));
    readable = λ m lo hi. absurd (omega arith);
    ended = end;
    ends = (refl, refl, refl);
  }

  -- A round that stores byte `ch`, and the rounds after it.
  round :
      (k i ch : ℕ) (p : Pipe) (o : Outcome) (p' : Pipe)
      → IsValid p
      → count p < pipe_size
      → user (addr + i) ≡ some ch
      → Wrote k (i + 1) (put ch p) o p'
      → Wrote (suc k) i p o p'
  unfolding put
  round k i ch p o p' v lt got rest =
      let more : progress o - i ≡ suc (progress o - (i + 1)) = omega (arith, rest.done) in
      let from : addr + (i + 1) ≡ addr + i + 1 = omega arith in
      record {
        valid = rest.valid;
        done = omega (arith, rest.done);
        bytes =
            rest.bytes
            ∙ ap (λ (c : List ℕ). c ++ chunk user (addr + (i + 1)) (progress o - (i + 1)))
                (contents-put v ch lt)
            ∙ append_assoc (contents p) (ch ∷ [])
                (chunk user (addr + (i + 1)) (progress o - (i + 1)))
            ∙ rw (more, got, from);
        readable = λ m lo hi. elim (Bool-cases (m == i)) [
          | inl same ↦ ground (arith, got)
          | inr later ↦ rest.readable m (ground arith) hi
        ];
        ended = subst (λ (e : ℕ). Ended e p' o) (omega arith) rest.ended;
        ends = rest.ends;
      }

  pub write_pass-Wrote :
      (k i : ℕ) (p : Pipe)
      → IsValid p
      → Wrote k i p (write_pass user killed addr k i p).0 (write_pass user killed addr k i p).1
  unfolding write_pass
  write_pass-Wrote zero i p v = stop 0 i p (returns i) v refl (inl (omega arith))
  write_pass-Wrote (suc k) i p v = elim (Bool-cases (not p.readopen || killed i)) [
    | inl bad ↦ rw bad (stop (suc k) i p (fails i) v refl (omega arith, ground arith))
    | inr good ↦ elim (Bool-cases (is_full p)) [
      | inl full ↦
          rw (good, full)
            (stop (suc k) i p (sleeps i) v refl
              (omega arith, ground (arith, full_iff v), ground arith, ground arith))
      | inr room ↦ elim (Option-cases (user (addr + i))) [
        | inl fault ↦ rw (good, room, fault) (stop (suc k) i p (returns i) v refl (inr fault))
        | inr (ch, got) ↦
            rw (good, room, got)
              (let lt : count p < pipe_size = ground (arith, full_iff v, v.held) in
                let rest = write_pass-Wrote k (i + 1) (put ch p) (put-IsValid v ch lt) in
                round k i ch p _ _ v lt got rest)
      ]
    ]
  ]

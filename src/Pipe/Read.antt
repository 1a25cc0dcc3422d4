-- ===== src/Pipe/Read.antt =====
-- What a pass of `piperead` in kernel/pipe.c does, on every branch.
use os_assignments.Prelude.{
  ℕ, zero, suc, ◌+◌, ◌^◌, ◌≤◌, ◌<◌, ◌≡◌, ◌≢◌, refl, ap, ◌∙◌, Bool, true, false, ◌⊎◌, inl, inr, not,
  arith, List, [], ◌∷◌, ◌++◌, Bool-cases, length, rounds, rounds_small,
}
use os_assignments.Pipe.{
  Pipe, is_empty, oldest, take_one, Outcome, sleeps, returns, fails, read_loop, piperead,
}
use os_assignments.Pipe.Ring.{
  IsValid, count, contents, empty_iff, take_one-IsValid, contents-take_one,
}

module _ (writable : ℕ → Bool) (addr : ℕ) where
  -- What the copying loop has done: it returned `j` having delivered `got`, and it has lost `lost`.
  pub record Took (k i : ℕ) (p : Pipe) (j : ℕ) (got : List ℕ) (p' : Pipe) : Type 0 where
    pub valid : IsValid p'
    pub number : j ≡ i + length got
    pub most : j ≤ i + k
    pub lost : List ℕ
    pub bytes : contents p ≡ got ++ (lost ++ contents p')
    pub loss :
        (lost ≡ []) × ((j ≡ i + k) ⊎ (contents p' ≡ []))
        ⊎ (length lost ≡ 1) × (writable (addr + j) ≡ false)
    pub ends : (p'.readopen ≡ p.readopen) × (p'.writeopen ≡ p.writeopen) × (p'.nwrite ≡ p.nwrite)

  contents_empty : (p : Pipe) → IsValid p → is_empty p ≡ true → contents p ≡ []
  contents_empty p v e = let zero_count : count p ≡ 0 = ground (arith, empty_iff v) in rw zero_count

  round :
      (k i : ℕ) (p : Pipe) (j : ℕ) (got : List ℕ) (p' : Pipe)
      → IsValid p
      → count p ≢ 0
      → Took k (i + 1) (take_one p) j got p'
      → Took (suc k) i p j (oldest p ∷ got) p'
  unfolding take_one
  round k i p j got p' v some_left rest = record {
    valid = rest.valid;
    number = omega (arith, rest.number);
    most = omega (arith, rest.most);
    lost = rest.lost;
    bytes = contents-take_one v some_left ∙ ap (λ (xs : List ℕ). oldest p ∷ xs) rest.bytes;
    loss = ground (arith, rest.loss);
    ends = rest.ends;
  }

  pub read_loop-Took :
      (k i : ℕ) (p : Pipe)
      → IsValid p
      → let (j, got, p') = read_loop writable addr k i p in Took k i p j got p'
  unfolding read_loop
  read_loop-Took zero i p v = record {
    valid = v;
    number = omega arith;
    most = omega arith;
    lost = [];
    bytes = refl;
    loss = inl (refl, inl (omega arith));
    ends = (refl, refl, refl);
  }
  read_loop-Took (suc k) i p v = elim (Bool-cases (is_empty p)) [
    | inl nothing ↦ rw nothing (record {
      valid = v;
      number = omega arith;
      most = omega arith;
      lost = [];
      bytes = refl;
      loss = inl (refl, inr (contents_empty p v nothing));
      ends = (refl, refl, refl);
    })
    | inr more ↦
        let some_left : count p ≢ 0 = ground (arith, empty_iff v) in
        elim (Bool-cases (not (writable (addr + i)))) [
          | inl fault ↦
              rw (more, fault)
                (record {
                  valid = take_one-IsValid v some_left;
                  number = omega arith;
                  most = omega arith;
                  lost = oldest p ∷ [];
                  bytes = contents-take_one v some_left;
                  loss = inr (refl, ground arith);
                  ends = unfold take_one in (refl, refl, refl);
                })
          | inr fine ↦
              rw (more, fine)
                (round k i p _ _ _ v some_left
                  (read_loop-Took k (i + 1) (take_one p) (take_one-IsValid v some_left)))
        ]
  ]

  -- What a pass of `piperead` of `n` bytes does, by how it ends.
  abbrev pub ReadPass : ℕ → Bool → Pipe → Outcome → List ℕ → Pipe → Type 0
  ReadPass n killed p (sleeps j) got p' =
      (contents p ≡ []) × (p.writeopen ≡ true) × (killed ≡ false) × (got ≡ []) × (p' ≡ p)
  ReadPass n killed p (fails j) got p' =
      (contents p ≡ []) × (p.writeopen ≡ true) × (killed ≡ true) × (got ≡ []) × (p' ≡ p)
  ReadPass n killed p (returns j) got p' =
      Took (rounds n) 0 p j got p' × ((contents p ≢ []) ⊎ (p.writeopen ≡ false))

  not_empty : (p : Pipe) → IsValid p → is_empty p ≡ false → contents p ≢ []
  not_empty p v e =
      let some_left : count p ≢ 0 = ground (arith, empty_iff v) in
      ground (arith, contents-take_one v some_left)

  -- On a valid pipe `piperead` sleeps exactly on an empty pipe whose write end is open, or fails
  -- there if the reader is killed. Else it returns the number of bytes delivered; they and at most
  -- one byte more, lost where `copyout` failed, are the front of the queue, and it stopped early
  -- only at such a fault or with the queue empty.
  pub piperead-ReadPass :
      (killed : Bool) (n : ℕ) (p : Pipe)
      → IsValid p
      → let (o, got, p') = piperead writable killed addr n p in ReadPass n killed p o got p'
  unfolding piperead
  piperead-ReadPass killed n p v = elim (Bool-cases (is_empty p)) [
    | inl nothing ↦ elim (Bool-cases p.writeopen) [
      | inl open_end ↦ elim (Bool-cases killed) [
        | inl dying ↦
            simp (nothing, open_end, dying) (contents_empty p v nothing, refl, refl, refl, refl)
        | inr alive ↦
            simp (nothing, open_end, alive) (contents_empty p v nothing, refl, refl, refl, refl)
      ]
      | inr shut ↦ simp (nothing, shut) (read_loop-Took (rounds n) 0 p v, inr refl)
    ]
    | inr more ↦ rw more (read_loop-Took (rounds n) 0 p v, inl (not_empty p v more))
  ]

-- A read of a positive number of bytes into mapped memory returns 0 only at the end of the data:
-- nothing is left, and the write end is closed.
eof :
    (addr n : ℕ) (killed : Bool) (p : Pipe) (o : Outcome) (got : List ℕ) (p' : Pipe)
    → 0 < n
    → n < 2 ^ 31
    → ReadPass (λ a. true) addr n killed p o got p'
    → o ≡ returns 0
    → (p.writeopen ≡ false) × (contents p ≡ [])
eof addr n killed p (sleeps j) got p' pos small r e = cc
eof addr n killed p (fails j) got p' pos small r e = cc
eof addr n killed p (returns j) got p' pos small r e =
    let none_got : got ≡ [] = ground (arith, r.0.number, e) in
    let nothing : contents p ≡ [] =
      ground (arith, r.0.bytes, r.0.loss, rounds_small n small, none_got, e) in
    (ground (arith, r.1, nothing), nothing)

pub piperead-eof :
    (addr n : ℕ) (killed : Bool) {p : Pipe}
    → IsValid p
    → 0 < n
    → n < 2 ^ 31
    → (piperead (λ a. true) killed addr n p).0 ≡ returns 0
    → (p.writeopen ≡ false) × (contents p ≡ [])
piperead-eof addr n killed {p} v pos small e =
    eof addr n killed p _ _ _ pos small (piperead-ReadPass (λ a. true) addr killed n p v) e

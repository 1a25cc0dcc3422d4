-- ===== src/Pipe/Steps.antt =====
-- kernel/pipe.c with concurrent readers and writers: each pass under `pi->lock` is a step.
use os_assignments.Prelude.{
  ℕ, ◌+◌, ◌-◌, ◌≡◌, refl, ap, Bool, Option, arith, List, [], ◌∷◌, ◌++◌, if◌then◌else◌,
}
use os_assignments.Pipe.{
  Pipe, Outcome, sleeps, returns, fails, progress, write_pass, piperead, pipeclose,
}
use os_assignments.Pipe.Write.{chunk}

-- The pipe, with what has gone in, what readers have got, and the number of reads that have stopped
-- at an address that is not mapped, all since it was made.
pub record State : Type 0 where
  pub pipe : Pipe
  pub sent : List ℕ
  pub received : List ℕ
  pub faults : ℕ

-- Whether a read ended in front of an address that is not mapped.
abbrev pub fault_at : (writable : ℕ → Bool) → (addr : ℕ) → Outcome → ℕ
fault_at writable addr (returns j) = if writable (addr + j) then 0 else 1
fault_at writable addr (sleeps j) = 0
fault_at writable addr (fails j) = 0

-- A write goes on from any byte `i` of its buffer. A reader's buffer may have addresses that are not
-- mapped.
pub data Step : State → State → Type 0 where
  writes :
      (s : State) (user : ℕ → Option ℕ) (killed : ℕ → Bool) (addr k i : ℕ) (o : Outcome) (p : Pipe)
      → write_pass user killed addr k i s.pipe ≡ (o, p)
      → Step s (record s { pipe = p; sent = s.sent ++ chunk user (addr + i) (progress o - i) })
  reads :
      (s : State) (writable : ℕ → Bool) (killed : Bool) (addr n : ℕ) (o : Outcome) (got : List ℕ)
      (p : Pipe)
      → piperead writable killed addr n s.pipe ≡ (o, got, p)
      → Step s (record s {
        pipe = p;
        received = s.received ++ got;
        faults = s.faults + fault_at writable addr o;
      })
  closes : (s : State) (end : Bool) → Step s (record s { pipe = (pipeclose s.pipe end).0 })

pub data Reach (s : State) : State → Type 0 where
  here : Reach s s
  next : {t u : State} → Reach s t → Step t u → Reach s u

-- What has been taken out of the pipe has been received, in order, but for `lost` bytes of it.
pub data Delivers : (taken received : List ℕ) (lost : ℕ) → Type 0 where
  none_yet : Delivers [] [] 0
  delivers :
      {xs ys : List ℕ} {k : ℕ} (zs : List ℕ) → Delivers xs ys k → Delivers (xs ++ zs) (ys ++ zs) k
  loses : {xs ys : List ℕ} {k : ℕ} (z : ℕ) → Delivers xs ys k → Delivers (xs ++ z ∷ []) ys (k + 1)

pub Delivers-all : {xs ys : List ℕ} {k : ℕ} → Delivers xs ys k → k ≡ 0 → xs ≡ ys
Delivers-all none_yet e = refl
Delivers-all (delivers zs d) e = ap (λ (l : List ℕ). l ++ zs) (Delivers-all d e)
Delivers-all (loses z d) e = absurd (omega (arith, e))

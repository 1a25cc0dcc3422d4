-- ===== src/Log/Budget.antt =====
-- The calls that share the log of kernel/log.c, each critical section one step, and what they have
-- reserved.
use os_assignments.Prelude.{
  ℕ, suc, ◌+◌, ◌-◌, ◌*◌, ◌^◌, ◌≤◌, ◌<◌, ◌≡◌, ◌≢◌, refl, ap, Bool, true, false, some, arith, length,
  length-append, All, List, [], ◌∷◌, ◌++◌,
}
use os_assignments.Log.{Block, Log, LogHeader, Machine, log_size, max_op_blocks, fill}
use os_assignments.Log.Words.{listed}
use os_assignments.Log.Phases.{IsHome}
use os_assignments.Log.Ops.{begin_op, end_op_enter, end_op_commit, set_log, log_write}

abbrev pub sum : List ℕ → ℕ
sum [] = 0
sum (x ∷ xs) = x + sum xs

pub sum-append : (xs ys : List ℕ) → sum (xs ++ ys) ≡ sum xs + sum ys
sum-append [] ys = omega arith
sum-append (x ∷ xs) ys = omega (arith, sum-append xs ys)

-- The machine, and for each call between `begin_op` and `end_op` the number of blocks that it may
-- still add to the log.
pub record State : Type 0 where
  pub machine : Machine
  pub ops : List ℕ

abbrev pub with_log : State → Log → List ℕ → State
with_log s l ops = record { machine = set_log l s.machine; ops = ops }

abbrev pub lh_of : State → LogHeader
lh_of s = s.machine.log.lh

-- The steps. A call adds at most `MAXOPBLOCKS` blocks to the log, and logs home blocks only. The
-- device works while a commit runs; `Log.Crash` has what happens where it fails.
pub data Step : State → State → Type 0 where
  begin :
      (s : State) (l : Log)
      → begin_op s.machine.log ≡ some l
      → Step s (with_log s l (max_op_blocks ∷ s.ops))
  edit :
      (s : State) (b : ℕ) (content : Block)
      → Step s (record s { machine = fill b content s.machine })
  add :
      (s : State) (xs ys : List ℕ) (k b : ℕ) (m : Machine)
      → s.ops ≡ xs ++ (suc k ∷ ys)
      → IsHome s.machine.log.start (s.machine.log.size - 1) b
      → listed (lh_of s).n 0 (lh_of s).block b ≡ false
      → log_write b s.machine ≡ some m
      → Step s (record { machine = m; ops = xs ++ (k ∷ ys) })
  absorb :
      (s : State) (b : ℕ) (m : Machine)
      → s.ops ≢ []
      → listed (lh_of s).n 0 (lh_of s).block b ≡ true
      → log_write b s.machine ≡ some m
      → Step s (record s { machine = m })
  end :
      (s : State) (xs ys : List ℕ) (k : ℕ) (last : Bool) (l : Log)
      → s.ops ≡ xs ++ (k ∷ ys)
      → end_op_enter s.machine.log ≡ some (last, l)
      → Step s (with_log s l (xs ++ ys))
  commits :
      (s : State)
      → s.machine.log.committing ≡ true
      → (lh_of s).n + 1 + (lh_of s).n < s.machine.power
      → Step s (record s { machine = end_op_commit s.machine })

pub data Reach (s : State) : State → Type 0 where
  here : Reach s s
  next : {t u : State} → Reach s t → Step t u → Reach s u

-- What holds between the steps. The log area is the header's block `start` and the `size - 1` blocks
-- behind it.
pub record IsSound (start : ℕ) (s : State) : Type 0 where
  pub starts : s.machine.log.start ≡ start
  pub room : (lh_of s).n < s.machine.log.size
  pub int : s.machine.log.size < 2 ^ 31
  pub counted : s.machine.log.outstanding ≡ length s.ops
  pub fits : (lh_of s).n + sum s.ops ≤ log_size
  pub budget : All (λ k. k ≤ max_op_blocks) s.ops
  pub few : length s.ops ≤ 3
  pub idle : s.machine.log.committing ≡ true → s.ops ≡ []
  pub home : (i : ℕ) → i < (lh_of s).n → IsHome start (s.machine.log.size - 1) ((lh_of s).block i)
  pub empty : s.machine.disk start 0 ≡ 0

-- Sums and lengths round the call that takes a step.
pub sum_at : (xs ys : List ℕ) (k : ℕ) → sum (xs ++ (k ∷ ys)) ≡ sum xs + k + sum ys
sum_at xs ys k = omega (arith, sum-append xs (k ∷ ys))

pub length_at : (xs ys : List ℕ) (k : ℕ) → length (xs ++ (k ∷ ys)) ≡ length xs + 1 + length ys
length_at xs ys k = omega (arith, length-append xs (k ∷ ys))

pub not-nil_at : (xs ys : List ℕ) (k : ℕ) → xs ++ (k ∷ ys) ≢ []
not-nil_at xs ys k e = omega (arith, length_at xs ys k, ap (length {A = ℕ}) e)

abbrev pub Small : List ℕ → Type 0
Small = All (λ k. k ≤ max_op_blocks)

pub sum-le : (xs : List ℕ) → Small xs → sum xs ≤ max_op_blocks * length xs
sum-le [] h = omega arith
sum-le (x ∷ xs) h = omega (arith, sum-le xs h.1)

-- The call that takes a step, apart from the others.
pub Small-at :
    (xs ys : List ℕ) (k : ℕ) → Small (xs ++ (k ∷ ys)) → Small xs × (k ≤ max_op_blocks) × Small ys
Small-at [] ys k h = (tt, h.0, h.1)
Small-at (x ∷ xs) ys k h = let r = Small-at xs ys k h.1 in ((h.0, r.0), r.1, r.2)

pub Small-append : (xs ys : List ℕ) → Small xs → Small ys → Small (xs ++ ys)
Small-append [] ys h h' = h'
Small-append (x ∷ xs) ys h h' = (h.0, Small-append xs ys h.1 h')

pub length-nil : (xs : List ℕ) → length xs ≡ 0 → xs ≡ []
length-nil [] e = refl
length-nil (x ∷ xs) e = absurd (omega (arith, e))

pub length-pos : (xs : List ℕ) → xs ≢ [] → 1 ≤ length xs
length-pos [] h = absurd (h refl)
length-pos (x ∷ xs) h = omega arith

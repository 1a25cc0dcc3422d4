-- ===== src/Log/Reserve.antt =====
-- The steps of the calls keep every transaction inside the log: the reservation that `begin_op`
-- makes covers what they still log.
use os_assignments.Prelude.{
  ℕ, suc, ◌+◌, ◌-◌, ◌≤◌, ◌<◌, ◌≡◌, ◌≢◌, refl, sym, ap, ◌∙◌, Bool, true, false, some, none, ltb,
  ◌&&◌, if◌then◌else◌, ◌==◌, arith, length, length-append, List, [], ◌∷◌, ◌++◌, inl, inr,
  Bool-cases, ==→eq,
}
use mathlib.Core.Path.{subst}
use os_assignments.Log.{Block, Log, Machine, log_size, max_op_blocks, fill}
use os_assignments.Log.Words.{listed}
use os_assignments.Log.Phases.{IsHome}
use os_assignments.Log.Commit.{Ready}
use os_assignments.Log.Crash.{commit-empties, commit-clears}
use os_assignments.Log.Ops.{
  begin_op, end_op_enter, end_op_commit, log_write, begin_op-some, end_op_enter-some, log_write_new,
  log_write_again, added,
}
use os_assignments.Log.Budget.{
  sum, sum-append, State, with_log, lh_of, IsSound, sum_at, length_at, not-nil_at, Small, sum-le,
  Small-at, Small-append, length-nil, length-pos,
}

-- A `log_write` that has not panicked had room.
same_some : (m0 m : Machine) (t : Bool) → (if t then some m0 else none) ≡ some m → m ≡ m0
same_some m0 m true e = cc e
same_some m0 m false e = cc e

made_some :
    (b : ℕ) (m0 m : Machine)
    → (if ltb (m0.log.lh.n + 1) m0.log.size then some (added b m0) else none) ≡ some m
    → (m ≡ added b m0) × (m0.log.lh.n + 1 < m0.log.size)
made_some b m0 m e = elim (Bool-cases (ltb (m0.log.lh.n + 1) m0.log.size)) [
  | inl area ↦ (same_some (added b m0) m (ltb (m0.log.lh.n + 1) m0.log.size) e, ground arith)
  | inr full ↦ absurd (ground (arith, e))
]

module _ (start : ℕ) {s : State} (sound : IsSound start s) where
  open sound use {starts, room, int, counted, fits, budget, few, idle, home, empty}

  pub begin-IsSound :
      (l : Log)
      → begin_op s.machine.log ≡ some l
      → IsSound start (with_log s l (max_op_blocks ∷ s.ops))
  begin-IsSound l e =
      let facts = begin_op-some s.machine.log l (omega arith) (omega arith) e in
      rw facts.1 (record {
        starts = starts;
        room = room;
        int = int;
        counted = omega arith;
        fits = omega (arith, facts.2, sum-le s.ops budget);
        budget = (omega arith, budget);
        few = omega (arith, facts.2);
        idle = λ c. cc (facts.0);
        home = home;
        empty = empty;
      })

  -- Not committing, since a call is active.
  pub busy : (xs ys : List ℕ) (k : ℕ) → s.ops ≡ xs ++ (k ∷ ys) → s.machine.log.committing ≡ false
  busy xs ys k e = elim (Bool-cases s.machine.log.committing) [
    | inl c ↦ absurd (not-nil_at xs ys k (sym e ∙ idle c))
    | inr c ↦ c
  ]

  module _ (xs ys : List ℕ) (k : ℕ) (at : s.ops ≡ xs ++ (k ∷ ys)) where
    pub sum_ops : sum s.ops ≡ sum xs + k + sum ys
    sum_ops = ap sum at ∙ sum_at xs ys k

    pub length_ops : length s.ops ≡ length xs + 1 + length ys
    length_ops = ap (length {A = ℕ}) at ∙ length_at xs ys k

    ops-Small : Small xs × (k ≤ max_op_blocks) × Small ys
    ops-Small = Small-at xs ys k (subst Small at budget)

    pub end-IsSound :
        (last : Bool) (l : Log)
        → end_op_enter s.machine.log ≡ some (last, l)
        → IsSound start (with_log s l (xs ++ ys))
    end-IsSound last l e =
        let o = s.machine.log.outstanding in
        let el : l ≡ record (s.machine.log) { outstanding = o - 1; committing = o == 1 } = ground (
          arith,
          end_op_enter-some s.machine.log (busy xs ys k at) (omega (arith, length_ops))
              (omega arith),
        ) in
        rw el (record {
          starts = starts;
          room = room;
          int = int;
          counted = omega (arith, length_ops, length-append xs ys);
          fits = omega (arith, sum_ops, sum-append xs ys);
          budget = Small-append xs ys ops-Small.0 ops-Small.2;
          few = omega (arith, length_ops, length-append xs ys);
          idle = λ c.
              length-nil (xs ++ ys) (omega (arith, ==→eq o 1 c, length_ops, length-append xs ys));
          home = home;
          empty = empty;
        })

  -- `log_write` of a block that the log does not name yet.
  pub add-IsSound :
      (xs ys : List ℕ) (k b : ℕ) (m : Machine)
      → s.ops ≡ xs ++ (suc k ∷ ys)
      → IsHome s.machine.log.start (s.machine.log.size - 1) b
      → listed (lh_of s).n 0 (lh_of s).block b ≡ false
      → log_write b s.machine ≡ some m
      → IsSound start (record { machine = m; ops = xs ++ (k ∷ ys) })
  add-IsSound xs ys k b m at h out e =
      let made =
        log_write_new b s.machine room int (omega (arith, length_ops xs ys (suc k) at))
          (omega arith) (omega (arith, sum_ops xs ys (suc k) at)) out in
      let (em, area) = made_some b s.machine m (sym made ∙ e) in
      let small = ops-Small xs ys (suc k) at in
      rw em (record {
        starts = starts;
        room = area;
        int = int;
        counted = omega (arith, length_ops xs ys (suc k) at, length_at xs ys k);
        fits = omega (arith, sum_ops xs ys (suc k) at, sum_at xs ys k);
        budget = Small-append xs (k ∷ ys) small.0 (omega arith, small.2);
        few = omega (arith, length_ops xs ys (suc k) at, length_at xs ys k);
        idle = λ c. absurd (not-nil_at xs ys (suc k) (sym at ∙ idle c));
        home = λ i lt. ground (arith, home i, starts, h);
        empty = empty;
      })

  -- The commit of the last `end_op`.
  pub sound-Ready : Ready start (lh_of s).n s.machine
  sound-Ready = record {
    start = starts;
    count = refl;
    small = omega arith;
    home = λ i lt. ground (arith, home i lt);
    empty = empty;
  }

  pub commit-IsSound :
      s.machine.log.committing ≡ true
      → (lh_of s).n + 1 + (lh_of s).n < s.machine.power
      → IsSound start (record s { machine = end_op_commit s.machine })
  unfolding end_op_commit
  commit-IsSound c alive =
      let log = commit-empties start (lh_of s).n sound-Ready in
      record {
        starts = ap (λ (l : Log). l.start) log ∙ starts;
        room = omega (arith, ap (λ (l : Log). l.lh.n) log, ap (λ (l : Log). l.size) log);
        int = rw log int;
        counted = ap (λ (l : Log). l.outstanding) log ∙ counted;
        fits = omega (arith, ap (λ (l : Log). l.lh.n) log);
        budget = budget;
        few = few;
        idle = λ f. cc;
        home = λ i lt. absurd (omega (arith, ap (λ (l : Log). l.lh.n) log));
        empty = commit-clears start (lh_of s).n sound-Ready alive;
      }

  pub edit-IsSound :
      (b : ℕ) (content : Block) → IsSound start (record s { machine = fill b content s.machine })
  unfolding fill
  edit-IsSound b content = record {
    starts = starts;
    room = room;
    int = int;
    counted = counted;
    fits = fits;
    budget = budget;
    few = few;
    idle = idle;
    home = home;
    empty = empty;
  }

  pub absorb-same :
      (b : ℕ) (m : Machine)
      → s.ops ≢ []
      → listed (lh_of s).n 0 (lh_of s).block b ≡ true
      → log_write b s.machine ≡ some m
      → m ≡ s.machine
  absorb-same b m active seen e =
      let again =
        log_write_again b s.machine room int (omega (arith, length-pos s.ops active)) (omega arith)
          (omega arith) seen in
      same_some s.machine m (ltb (lh_of s).n log_size && ltb ((lh_of s).n + 1) s.machine.log.size)
        (sym again ∙ e)

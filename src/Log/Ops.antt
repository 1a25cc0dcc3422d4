-- ===== src/Log/Ops.antt =====
-- The system calls' side of kernel/log.c: `begin_op`, `end_op` and `log_write`.
use os_assignments.Prelude.{
  ℕ, zero, suc, ◌+◌, ◌-◌, ◌*◌, ◌%◌, ◌^◌, ◌≤◌, ◌<◌, ◌≡◌, fun_ext, Bool, true, false, Option, none,
  some, not, ltb, ◌&&◌, ◌||◌, ◌==◌, if◌then◌else◌, arith, word, int_lt, rounds, rounds_small,
  update, ◌⊎◌,
}
use os_assignments.Log.{Log, Machine, log_size, max_op_blocks, bpin, commit}
use os_assignments.Log.Words.{listed}

abbrev pub set_log : Log → Machine → Machine
set_log l m = record m { log = l }

-- One pass of the loop of `begin_op`, under `log.lock`: `none` where it sleeps, and tries again.
unfoldable pub begin_op : Log → Option Log
begin_op l =
    if l.committing
    then none
    else if int_lt log_size ((l.lh.n + ((l.outstanding + 1) % word) * max_op_blocks) % word)
    then none
    else some (record l { outstanding = (l.outstanding + 1) % word })

-- The first critical section of `end_op`: `none` is its panic, and the test is `do_commit`.
unfoldable pub end_op_enter : Log → Option (Bool × Log)
end_op_enter l =
    let left = (l.outstanding + (word - 1)) % word in
    if l.committing
    then none
    else if left == 0
    then some (true, record l { outstanding = left; committing = true })
    else some (false, record l { outstanding = left })

-- The rest of `end_op` where `do_commit` is set: the commit, and the second critical section.
unfoldable pub end_op_commit : Machine → Machine
end_op_commit m = let m' = commit m in record m' { log = record (m'.log) { committing = false } }

pub end_op : Machine → Option Machine
unfolding end_op_enter end_op_commit
end_op m = elim (end_op_enter m.log) [
  | none ↦ none
  | some (last, l) ↦ some (if last then end_op_commit (set_log l m) else set_log l m)
]

-- The search of `log_write`: the first slot from `i` on that holds `b`, or the end.
pub find_slot : ℕ → ℕ → (ℕ → ℕ) → ℕ → ℕ
find_slot zero i block b = i
find_slot (suc k) i block b =
    let rest = find_slot k (i + 1) block b in if block i == b then i else rest

-- `log_write` of the buffer of block `b`; `none` is a panic.
unfoldable pub log_write : ℕ → Machine → Option Machine
unfolding bpin
log_write b m =
    let lh = m.log.lh in
    let i = find_slot (rounds lh.n) 0 lh.block b in
    let slots = update lh.block i b in
    if not (int_lt lh.n log_size) || not (int_lt lh.n ((m.log.size + (word - 1)) % word))
    then none
    else if int_lt m.log.outstanding 1
    then none
    else if i == lh.n
    then some (record (bpin b m) {
      log = record (m.log) { lh = record { n = (lh.n + 1) % word; block = slots } };
    })
    else some (record m { log = record (m.log) { lh = record lh { block = slots } } })

-- The slot found is a free one exactly if the log does not name the block.
pub find_slot-listed :
    (k i : ℕ) (block : ℕ → ℕ) (b : ℕ)
    → (find_slot k i block b ≤ i + k) × (find_slot k i block b == i + k ≡ not (listed k i block b))
unfolding find_slot
find_slot-listed zero i block b = (omega arith, ground arith)
find_slot-listed (suc k) i block b = (
  ground (arith, find_slot-listed k (i + 1) block b),
  ground (arith, find_slot-listed k (i + 1) block b),
)

-- Of a block that it does name, it is the slot that holds it already.
pub find_slot-same :
    (k i : ℕ) (block : ℕ → ℕ) (b : ℕ)
    → listed k i block b ≡ true
    → block (find_slot k i block b) ≡ b
unfolding find_slot
find_slot-same zero i block b h = ground arith
find_slot-same (suc k) i block b h = ground (arith, find_slot-same k (i + 1) block b)

update_same : (f : ℕ → ℕ) (i b : ℕ) → f i ≡ b → update f i b ≡ f
update_same f i b e = fun_ext (λ j. ground arith)

-- The machine with block `b` added to the log.
abbrev pub added : ℕ → Machine → Machine
added b m = record m {
  pins = update m.pins b (m.pins b + 1);
  log = record (m.log) {
    lh = record { n = m.log.lh.n + 1; block = update m.log.lh.block m.log.lh.n b };
  };
}

-- `log_write` inside a reservation.
module _ (b : ℕ) (m : Machine) (room : m.log.lh.n < m.log.size) (small : m.log.size < 2 ^ 31)
    (busy : 1 ≤ m.log.outstanding) (few : m.log.outstanding ≤ 3) where
  -- A block that it does not name takes the next slot, and is pinned; but it panics where the log
  -- area has no block left.
  pub log_write_new :
      m.log.lh.n < log_size
      → listed m.log.lh.n 0 m.log.lh.block b ≡ false
      → log_write b m ≡ (if ltb (m.log.lh.n + 1) m.log.size then some (added b m) else none)
  unfolding log_write bpin
  log_write_new lt out =
      ground (arith, rounds_small m.log.lh.n, find_slot-listed m.log.lh.n 0 m.log.lh.block b)

  -- A block that the log names already is absorbed: nothing changes; but a full log or log area
  -- refuses even that.
  pub log_write_again :
      m.log.lh.n ≤ log_size
      → listed m.log.lh.n 0 m.log.lh.block b ≡ true
      → log_write b m
        ≡ (if ltb m.log.lh.n log_size && ltb (m.log.lh.n + 1) m.log.size then some m else none)
  unfolding log_write
  log_write_again lt out = ground (
    arith,
    rounds_small m.log.lh.n,
    find_slot-listed m.log.lh.n 0 m.log.lh.block b,
    update_same m.log.lh.block (find_slot m.log.lh.n 0 m.log.lh.block b) b
        (find_slot-same m.log.lh.n 0 m.log.lh.block b out),
  )

-- What a pass of `begin_op` has checked when it proceeds.
pub begin_op-some :
    (l l' : Log)
    → l.lh.n ≤ log_size
    → l.outstanding ≤ 3
    → begin_op l ≡ some l'
    → (l.committing ≡ false)
      × (l' ≡ record l { outstanding = l.outstanding + 1 })
      × (l.lh.n + (l.outstanding + 1) * max_op_blocks ≤ log_size)
unfolding begin_op
begin_op-some l l' small few e = ground arith

-- It proceeds exactly if no commit runs and ten more blocks fit beside what is reserved.
pub begin_op-none :
    (l : Log)
    → l.lh.n ≤ log_size
    → l.outstanding ≤ 3
    → begin_op l ≡ none
    → (l.committing ≡ true) ⊎ (log_size < l.lh.n + (l.outstanding + 1) * max_op_blocks)
unfolding begin_op
begin_op-none l small few e = ground arith

-- What the first critical section of `end_op` does for an active call: it does not panic, and it
-- starts a commit exactly if the call was the last.
pub end_op_enter-some :
    (l : Log)
    → l.committing ≡ false
    → 1 ≤ l.outstanding
    → l.outstanding ≤ 3
    → end_op_enter l
      ≡ some (
        l.outstanding == 1,
        record l { outstanding = l.outstanding - 1; committing = l.outstanding == 1 },
      )
unfolding end_op_enter
end_op_enter-some l idle busy few = ground arith

-- With `nlog` = LOGSIZE, as mkfs sets it, `log_write` panics with 29 blocks logged, whatever was
-- reserved.
pub log_write_short :
    (b : ℕ) (m : Machine) → m.log.size ≡ log_size → m.log.lh.n ≡ 29 → log_write b m ≡ none
unfolding log_write
log_write_short b m e e' = ground arith

-- ===== src/Log/Calls.antt =====
-- What the reservation of kernel/log.c gives in every reachable state.
use os_assignments.Prelude.{
  ℕ, suc, ◌-◌, ◌≡◌, ◌≢◌, sym, ap, ◌∙◌, true, false, some, arith, length, List, [], ◌∷◌, ◌++◌, none,
  ◌+◌, if◌then◌else◌, ltb, ◌==◌,
}
use mathlib.Core.Path.{subst}
use os_assignments.Log.{Log, Machine}
use os_assignments.Log.Words.{listed}
use os_assignments.Log.Commit.{Ready}
use os_assignments.Log.Ops.{end_op_enter, log_write, log_write_new, added, end_op_enter-some}
use os_assignments.Log.Budget.{
  State, Step, begin, edit, add, absorb, end, commits, Reach, here, next, IsSound, lh_of,
}
use os_assignments.Log.Reserve.{
  begin-IsSound, edit-IsSound, add-IsSound, absorb-same, end-IsSound, commit-IsSound, sound-Ready,
  sum_ops, length_ops, busy,
}

absorb-IsSound :
    (start : ℕ) {s : State} (sound : IsSound start s) (b : ℕ) (m : Machine)
    → s.ops ≢ []
    → listed (lh_of s).n 0 (lh_of s).block b ≡ true
    → log_write b s.machine ≡ some m
    → IsSound start (record s { machine = m })
absorb-IsSound start {s} sound b m active seen e =
    subst (λ m'. IsSound start (record s { machine = m' }))
      (sym (absorb-same start sound b m active seen e)) sound

pub Step-IsSound : (start : ℕ) {s t : State} → Step s t → IsSound start s → IsSound start t
Step-IsSound start (begin s l e) sound = begin-IsSound start sound l e
Step-IsSound start (edit s b content) sound = edit-IsSound start sound b content
Step-IsSound start (add s xs ys k b m at h out e) sound =
    add-IsSound start sound xs ys k b m at h out e
Step-IsSound start (absorb s b m active seen e) sound = absorb-IsSound start sound b m active seen e
Step-IsSound start (end s xs ys k last l at e) sound = end-IsSound start sound xs ys k at last l e
Step-IsSound start (commits s c alive) sound = commit-IsSound start sound c alive

-- Every state that concurrent calls reach from a sound one is sound: the blocks logged and the
-- blocks that active calls may still add fit in the log together, `outstanding` counts the calls,
-- no call is active while a commit runs, and the log names home blocks only and fits in
-- its area on the disk. A call adds at most MAXOPBLOCKS blocks, and the device works.
pub Reach-IsSound : (start : ℕ) {s t : State} → IsSound start s → Reach s t → IsSound start t
Reach-IsSound start h here = h
Reach-IsSound start h (next r st) = Step-IsSound start st (Reach-IsSound start h r)

-- The log when one of `n` calls has ended.
abbrev pub ended : ℕ → Log → Log
ended n l = record l { outstanding = n - 1; committing = n == 1 }

-- What the calls find in a state that `Reach-IsSound` is about.
pub record NoPanic (start : ℕ) (s : State) : Type 0 where
  pub write :
      (xs ys : List ℕ) (k b : ℕ)
      → s.ops ≡ xs ++ (suc k ∷ ys)
      → listed (lh_of s).n 0 (lh_of s).block b ≡ false
      → log_write b s.machine
        ≡ (if ltb ((lh_of s).n + 1) s.machine.log.size then some (added b s.machine) else none)
  pub ends :
      (xs ys : List ℕ) (k : ℕ)
      → s.ops ≡ xs ++ (k ∷ ys)
      → end_op_enter s.machine.log ≡ some (length s.ops == 1, ended (length s.ops) s.machine.log)
  pub ready : Ready start (lh_of s).n s.machine

-- In every state that concurrent calls reach from a sound one, `log_write` of a block that the log
-- does not name, by a call with blocks left, pins the block and puts it in the next slot, and
-- panics exactly where the log area has no block left: LOGSIZE is never reached; `end_op` of an
-- active call does not panic, and starts a commit exactly if the call is the last; and a commit
-- that runs finds the log ready. A call adds at most MAXOPBLOCKS blocks, and the device works.
pub Reach-NoPanic : (start : ℕ) {s t : State} → IsSound start s → Reach s t → NoPanic start t
Reach-NoPanic start {t} h r =
    let sound = Reach-IsSound start h r in
    record {
      write = λ xs ys k b at out.
          log_write_new b t.machine sound.room sound.int
            (omega (arith, length_ops start sound xs ys (suc k) at, sound.counted))
            (omega (arith, sound.counted, sound.few))
            (omega (arith, sum_ops start sound xs ys (suc k) at, sound.fits)) out;
      ends = λ xs ys k at.
          end_op_enter-some t.machine.log (busy start sound xs ys k at)
            (omega (arith, length_ops start sound xs ys k at, sound.counted))
            (omega (arith, sound.counted, sound.few))
          ∙ ap (λ (n : ℕ). some (n == 1, ended n t.machine.log)) sound.counted;
      ready = sound-Ready start sound;
    }

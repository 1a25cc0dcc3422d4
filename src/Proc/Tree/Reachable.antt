-- ===== src/Proc/Tree/Reachable.antt =====
-- The process tree in every state that the operations of kernel/proc.c reach.
use mathlib.Core.Path.{subst}
use os_assignments.Proc.{Kernel, fork}
use os_assignments.Proc.Fork.{fork-Forks}
use os_assignments.Proc.Life.{wait}
use os_assignments.Proc.Life.Exit.{Exits, exit-Exits}
use os_assignments.Proc.Life.Wait.{wait-Waits, wait-rest}
use os_assignments.Proc.Tree.{
  IsTree, Step, forks, exits, waits, wakes, kills, sleeps, resumes, yields, schedules, Reach, here,
  next, Calm-IsTree, wakeup-Calm, kill-Calm, sleep_on-Calm, sleep_end-Calm, yield-Calm,
  schedule-Calm,
}
use os_assignments.Proc.Tree.Changes.{fork-IsTree, exit-IsTree, wait-IsTree}

pub Step-IsTree : {k r : Kernel} → Step k r → IsTree k → IsTree r
Step-IsTree (forks k me frame table copied lt runs small) t =
    fork-IsTree t frame table me copied (fork frame table copied me k) lt runs small
      (fork-Forks frame table copied me k (λ e. cc (runs, e)))
Step-IsTree (exits k r me status lt runs e) t =
    let x = subst (Exits me status k) e (exit-Exits me status k lt (t.proper me lt)) in
    exit-IsTree t me status r lt runs x.0 x.1
Step-IsTree (waits k me addr copyout lt runs) t =
    wait-IsTree t me addr copyout (wait me addr copyout k) (wait-rest me addr copyout k)
      (wait-Waits me addr copyout k)
Step-IsTree (wakes k me c) t = Calm-IsTree t (wakeup-Calm me c k)
Step-IsTree (kills k pid) t = Calm-IsTree t (kill-Calm pid k)
Step-IsTree (sleeps k me c runs) t = Calm-IsTree t (sleep_on-Calm me k runs c)
Step-IsTree (resumes k me runs) t = Calm-IsTree t (sleep_end-Calm me k runs)
Step-IsTree (yields k me runs) t = Calm-IsTree t (yield-Calm me k runs)
Step-IsTree (schedules k i) t = Calm-IsTree t (schedule-Calm i k)

-- In every state that forks, exits, waits, wake-ups, kills, sleeps, yields and scheduling reach
-- from a proper process tree, the tree is proper: the first process lives and has no parent, every
-- parent is a live process, so that no zombie has children, no process is its own parent, a slot
-- has an id exactly if it is in use, and no two processes share one. Fewer than 2^32 processes
-- are made.
pub Reach-IsTree : {k r : Kernel} → IsTree k → Reach k r → IsTree r
Reach-IsTree t here = t
Reach-IsTree t (next path st) = Step-IsTree st (Reach-IsTree t path)

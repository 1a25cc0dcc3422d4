-- ===== src/Proc/Tree.antt =====
-- The process tree of kernel/proc.c under all operations, in any order: who may be a parent, and
-- which process ids are in use.
pub mod Changes
pub mod Reachable
use os_assignments.Prelude.{
  ℕ, ◌+◌, ◌%◌, ◌≤◌, ◌<◌, ◌≡◌, ◌≢◌, refl, sym, ap, ◌∙◌, Bool, true, false, Option, none, some, ◌⊎◌,
  inl, inr, ◌==◌, ◌↔◌, arith, if◌then◌else◌, word, Bool-cases, ==→eq, ==_false→ne,
}
use mathlib.Core.Path.{subst}
use os_assignments.Proc.{
  ProcState, unused, used, sleeping, runnable, running, zombie, is_unused, is_zombie, Channel, Proc,
  Kernel, nproc, fork, wakeup, kill, kill_at, cleared,
}
use os_assignments.Proc.Fork.{OnlyAt, Child, Failed, Forks, fork-Forks}
use os_assignments.Proc.Wake.{Kills, kill-Kills}
use os_assignments.Proc.Life.{
  exit, wait, sleep_on, sleep_end, yield, schedule, Waited, reaped, no_child, no_copy, wait_sleeps,
}
use os_assignments.Proc.Life.Reparent.{Kept, wakeup-Kept, wakeup-rest}
use os_assignments.Proc.Life.Exit.{Exited, Exits, exit-Exits}
use os_assignments.Proc.Life.Wait.{Waits, wait-Waits}

-- In use, and not yet exited.
abbrev pub IsLive : Proc → Type 0
IsLive p = (p.state ≢ unused) × (p.state ≢ zombie)

pub record IsTree (k : Kernel) : Type 0 where
  pub init : (k.initproc < nproc) × IsLive (k.proc k.initproc)
  pub parents :
      (j : ℕ) → j < nproc → (q : ℕ) → (k.proc j).parent ≡ some q → (q < nproc) × IsLive (k.proc q)
  pub proper : (j : ℕ) → j < nproc → (k.proc j).parent ≢ some j
  pub root : (k.proc k.initproc).parent ≡ none
  pub marked : (j : ℕ) → j < nproc → ((k.proc j).pid ≡ 0) ↔ ((k.proc j).state ≡ unused)
  pub unique :
      (i j : ℕ)
      → i < nproc
      → j < nproc
      → (k.proc i).pid ≡ (k.proc j).pid
      → (k.proc i).pid ≢ 0
      → i ≡ j
  pub below : (j : ℕ) → j < nproc → (k.proc j).pid < k.nextpid
  pub started : 0 < k.nextpid

-- A step that makes, ends and moves no process.
pub record Calm (k r : Kernel) : Type 0 where
  pub pid : (j : ℕ) → (r.proc j).pid ≡ (k.proc j).pid
  pub parent : (j : ℕ) → (r.proc j).parent ≡ (k.proc j).parent
  pub live : (j : ℕ) → j < nproc → IsLive (k.proc j) → IsLive (r.proc j)
  pub free : (j : ℕ) → j < nproc → ((k.proc j).state ≡ unused) ↔ ((r.proc j).state ≡ unused)
  pub rest : (r.nextpid ≡ k.nextpid) × (r.initproc ≡ k.initproc)

-- The steps. A process acts while it runs; `wakeup` and `kill` are anyone's, `schedule` the
-- scheduler's; `sleep_end` is what a process does when it runs again.
pub data Step : Kernel → Kernel → Type 0 where
  forks :
      (k : Kernel) (me frame table : ℕ) (copied : Bool)
      → me < nproc
      → (k.proc me).state ≡ running
      → k.nextpid + 1 < word
      → Step k (fork frame table copied me k).1
  exits :
      (k r : Kernel) (me status : ℕ)
      → me < nproc
      → (k.proc me).state ≡ running
      → exit me status k ≡ some r
      → Step k r
  waits :
      (k : Kernel) (me addr : ℕ) (copyout : Bool)
      → me < nproc
      → (k.proc me).state ≡ running
      → Step k (wait me addr copyout k).1
  wakes : (k : Kernel) (me : ℕ) (c : Channel) → Step k (wakeup me c k)
  kills : (k : Kernel) (pid : ℕ) → Step k (kill pid k).1
  sleeps :
      (k : Kernel) (me : ℕ) (c : Channel) → (k.proc me).state ≡ running → Step k (sleep_on me c k)
  resumes : (k : Kernel) (me : ℕ) → (k.proc me).state ≡ running → Step k (sleep_end me k)
  yields : (k : Kernel) (me : ℕ) → (k.proc me).state ≡ running → Step k (yield me k)
  schedules : (k : Kernel) (i : ℕ) → Step k (schedule i k).1

pub data Reach (k : Kernel) : Kernel → Type 0 where
  here : Reach k k
  next : {r s : Kernel} → Reach k r → Step r s → Reach k s

pub Calm-IsTree : {k r : Kernel} → IsTree k → Calm k r → IsTree r
Calm-IsTree {k} {r} t c = record {
  init = let e = c.rest.1 in (rw e t.init.0, rw e (c.live k.initproc t.init.0 t.init.1));
  parents = λ j lt q e. let p = t.parents j lt q (sym (c.parent j) ∙ e) in (p.0, c.live q p.0 p.1);
  proper = λ j lt e. t.proper j lt (sym (c.parent j) ∙ e);
  root = rw c.rest.1 (c.parent k.initproc ∙ t.root);
  marked = λ j lt. (
    λ e. (c.free j lt).0 ((t.marked j lt).0 (sym (c.pid j) ∙ e)),
    λ e. c.pid j ∙ (t.marked j lt).1 ((c.free j lt).1 e),
  );
  unique =
      λ i j lt lt' e ne. t.unique i j lt lt' (sym (c.pid i) ∙ e ∙ c.pid j) (λ z. ne (c.pid i ∙ z));
  below = λ j lt. omega (arith, t.below j lt, c.pid j, c.rest.0);
  started = omega (arith, t.started, c.rest.0);
}

pub wakeup-Calm : (me : ℕ) (c : Channel) (k : Kernel) → Calm k (wakeup me c k)
wakeup-Calm me c k = record {
  pid = λ j. (wakeup-Kept me c k j).0.pid;
  parent = λ j. (wakeup-Kept me c k j).1;
  live = λ j lt l. ground (arith, (wakeup-Kept me c k j).0.state);
  free = λ j lt. (
    λ e. ground (arith, (wakeup-Kept me c k j).0.state),
    λ e. ground (arith, (wakeup-Kept me c k j).0.state),
  );
  rest = wakeup-rest me c k;
}

-- `kill` makes at most a sleeping process runnable.
kill_at-Calm : (k : Kernel) (found : Option ℕ) → Calm k (kill_at k found).1
unfolding kill_at
kill_at-Calm k none = record {
  pid = λ j. refl;
  parent = λ j. refl;
  live = λ j lt l. l;
  free = λ j lt. (λ e. e, λ e. e);
  rest = (refl, refl);
}
kill_at-Calm k (some i) = record {
  pid = λ j. ground arith;
  parent = λ j. ground arith;
  live = λ j lt l. ground arith;
  free = λ j lt. (λ e. ground arith, λ e. ground arith);
  rest = (refl, refl);
}

pub kill-Calm : (pid : ℕ) (k : Kernel) → Calm k (kill pid k).1
unfolding kill
kill-Calm pid k = kill_at-Calm k _

module _ (me : ℕ) (k : Kernel) where
  module _ (runs : (k.proc me).state ≡ running) where
    pub sleep_on-Calm : (c : Channel) → Calm k (sleep_on me c k)
    unfolding sleep_on
    sleep_on-Calm c = record {
      pid = λ j. ground arith;
      parent = λ j. ground arith;
      live = λ j lt l. ground arith;
      free = λ j lt. (λ e. ground arith, λ e. ground arith);
      rest = (refl, refl);
    }

    pub sleep_end-Calm : Calm k (sleep_end me k)
    unfolding sleep_end
    sleep_end-Calm = record {
      pid = λ j. ground arith;
      parent = λ j. ground arith;
      live = λ j lt l. ground arith;
      free = λ j lt. (λ e. ground arith, λ e. ground arith);
      rest = (refl, refl);
    }

    pub yield-Calm : Calm k (yield me k)
    unfolding yield
    yield-Calm = record {
      pid = λ j. ground arith;
      parent = λ j. ground arith;
      live = λ j lt l. ground arith;
      free = λ j lt. (λ e. ground arith, λ e. ground arith);
      rest = (refl, refl);
    }

  pub schedule-Calm : Calm k (schedule me k).1
  unfolding schedule
  schedule-Calm = record {
    pid = λ j. ground arith;
    parent = λ j. ground arith;
    live = λ j lt l. ground arith;
    free = λ j lt. (λ e. ground arith, λ e. ground arith);
    rest = (ground arith, ground arith);
  }

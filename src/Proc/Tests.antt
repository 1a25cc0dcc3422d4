-- ===== src/Proc/Tests.antt =====
-- Runs of kernel/proc.c on a small table, and its theorems at them.
use os_assignments.Prelude.{
  ◌≡◌, refl, true, false, none, some, arith, [], if◌then◌else◌, ◌==◌, find_from,
}
use os_assignments.Proc.{
  unused, running, sleeping, zombie, nothing, process, Proc, Kernel, fork, kill, wakeup,
}
use os_assignments.Proc.Fork.{Forks, fork-Forks}
use os_assignments.Proc.Wake.{Woken, wakeup-Woken, Kills, kill-Kills}
use os_assignments.Proc.Born.{BornKilled, kill-fork}
use os_assignments.Proc.Life.{exit, wait}
use os_assignments.Proc.Life.Wait.{Waits, wait-Waits}
use os_assignments.Proc.Life.Exit.{Exits, exit-Exits}
use os_assignments.Proc.Tree.{IsTree, here, next, forks}
use os_assignments.Proc.Tree.Reachable.{Reach-IsTree}

abbrev blank : Proc
blank = record {
  state = unused;
  chan = nothing;
  killed = false;
  xstate = 0;
  pid = 0;
  parent = none;
  sz = 0;
  pagetable = 0;
  trapframe = 0;
  ofile = λ fd. 0;
  cwd = 0;
}

abbrev init : Proc
init = record blank { state = running; pid = 1; sz = 4096; pagetable = 77; trapframe = 78; cwd = 5 }

-- The first process runs, and all other slots are free.
abbrev booted : Kernel
booted = record {
  proc = λ i. if i == 0 then init else blank;
  nextpid = 2;
  initproc = 0;
  calls = [];
}

-- Its child sleeps on it, in slot 1, with a child of its own in slot 2.
abbrev family : Kernel
family = record booted {
  proc = λ i.
      if i == 0
      then record init { state = sleeping; chan = process 0 }
      else if i == 1
      then record init { pid = 2; parent = some 0 }
      else if i == 2
      then record init { state = zombie; pid = 3; parent = some 1; xstate = 9 }
      else blank;
  nextpid = 4;
}

forked : (fork 100 101 true 0 booted).0 ≡ some 2
unfolding fork find_from
forked = refl

no_memory : (fork 0 101 true 0 booted).0 ≡ none
unfolding fork find_from
no_memory = refl

fork-Forks_example : Forks 100 101 true 0 booted (fork 100 101 true 0 booted)
fork-Forks_example = fork-Forks 100 101 true 0 booted (λ e. cc e)

kill-fork_example :
    ((kill 0 booted).0 ≡ true)
    × BornKilled (kill 0 booted).1 (fork 100 101 true 0 (kill 0 booted).1)
kill-fork_example =
    kill-fork 0 100 101 1 booted (λ i lt. (λ e. ground arith, λ e. ground arith)) (λ e. cc e)
      (omega arith) (omega arith) (omega arith) refl

exit-Exits_example : Exits 1 7 family (exit 1 7 family)
exit-Exits_example = exit-Exits 1 7 family (omega arith) (λ e. ground arith)

booted-IsTree : IsTree booted
booted-IsTree = record {
  init = (omega arith, (λ e. cc e, λ e. cc e));
  parents = λ j lt q e. ground arith;
  proper = λ j lt e. ground arith;
  root = refl;
  marked = λ j lt. (λ e. ground arith, λ e. ground arith);
  unique = λ i j lt lt' e ne. ground arith;
  below = λ j lt. ground arith;
  started = omega arith;
}

Reach-IsTree_example : IsTree (fork 100 101 true 0 booted).1
Reach-IsTree_example =
    Reach-IsTree booted-IsTree
      (next here (forks booted 0 100 101 true (omega arith) refl (omega arith)))

wait-Waits_example : Waits 1 0 true family (wait 1 0 true family)
wait-Waits_example = wait-Waits 1 0 true family

wakeup-Woken_example : Woken 1 (process 0) family (wakeup 1 (process 0) family)
wakeup-Woken_example = wakeup-Woken 1 (process 0) family

kill-Kills_example : Kills 1 family (kill 1 family)
kill-Kills_example = kill-Kills 1 family

-- ===== src/Log/Tests.antt =====
-- Runs of kernel/log.c on small disks, and its theorems at them.
use os_assignments.Prelude.{
  fun_ext, ℕ, ◌≡◌, refl, true, arith, List, [], ◌∷◌, inr, if◌then◌else◌, ◌==◌, rounds,
}
use os_assignments.Log.{
  Block, Machine, boot, commit, init_log, install_trans, install_loop, install_one, write_log,
  write_log_loop, write_log_one, write_head, head_block, copy_out, copy_in, read_head,
  recover_from_log, fill, bwrite, bunpin, set_n, max_op_blocks,
}
use os_assignments.Log.Phases.{IsHome}
use os_assignments.Log.Recovery.{Holds}
use os_assignments.Log.Commit.{Ready, committed}
use os_assignments.Log.Crash.{Atomic, commit-Atomic, commit-durable, init_log_again}
use os_assignments.Log.Ops.{begin_op}
use os_assignments.Log.Budget.{State, IsSound, Reach, here, next, begin, with_log}
use os_assignments.Log.Calls.{NoPanic, Reach-IsSound, Reach-NoPanic}

-- Every block of the disk holds its own number, but for the header of an empty log at block 2.
abbrev blank : ℕ → Block
blank b w = if b == 2 then 0 else b

-- A transaction of blocks 40 and 45, which the cache holds as 140 and 145; the device fails after
-- `power` writes.
abbrev pending : ℕ → Machine
pending power = record {
  disk = blank;
  cache = λ b w. if b == 40 then 140 else if b == 45 then 145 else blank b w;
  pins = λ b. 1;
  power = power;
  log = record {
    start = 2;
    size = 31;
    outstanding = 0;
    committing = true;
    dev = 1;
    lh = record { n = 2; block = λ i. if i == 0 then 45 else 40 };
  };
}

pending-Ready : (power : ℕ) → Ready 2 2 (pending power)
pending-Ready power = record {
  start = refl;
  count = refl;
  small = omega arith;
  home = λ i lt. ground arith;
  empty = refl;
}

-- Blocks 40, 45 and 41 after a failure and a restart.
abbrev found : ℕ → List ℕ
found power =
    let d = (init_log 1 2 31 9 (commit (pending power)).disk).disk in d 40 0 ∷ d 45 0 ∷ d 41 0 ∷ []

lost_before_header : found 2 ≡ 40 ∷ 45 ∷ 41 ∷ []
unfolding commit init_log boot install_trans install_loop install_one write_log write_log_loop
    write_log_one write_head head_block copy_out copy_in read_head recover_from_log fill bwrite
    bunpin set_n rounds
lost_before_header = refl

committed_with_header : found 3 ≡ 140 ∷ 145 ∷ 41 ∷ []
unfolding lost_before_header
committed_with_header = refl

commit-Atomic_example : Atomic 2 2 (pending 3) (init_log 1 2 31 9 (commit (pending 3)).disk)
commit-Atomic_example = commit-Atomic 1 2 31 2 9 (pending-Ready 3) (omega arith)

commit-durable_example :
    ((b : ℕ) → IsHome 2 2 b → (commit (pending 9)).disk b ≡ committed 2 (pending 9) b)
    × ((commit (pending 9)).disk 2 0 ≡ 0)
commit-durable_example = commit-durable 2 2 (pending-Ready 9) (omega arith) (omega arith)

-- A disk whose log holds a committed block 40.
abbrev logged : ℕ → Block
logged b w = if b == 2 then (if w == 0 then 1 else 40) else b

logged-Holds : Holds 2 1 (λ i. 40) (λ b w. 3) logged
logged-Holds = record {
  small = omega arith;
  count = refl;
  block = λ i lt. ground arith;
  body = λ i lt. fun_ext (λ w. ground arith);
  home = λ i lt. omega arith;
}

-- The recovery fails after it has installed the block, and before it has cleared the header.
init_log_again_example :
    (init_log 1 2 31 2 (init_log 1 2 31 1 logged).disk).disk 40 ≡ (init_log 1 2 31 2 logged).disk 40
init_log_again_example =
    init_log_again 1 2 31 1 1 2 logged-Holds (omega arith) 40 (inr (omega arith))

-- A log that has just been set up, and its first call.
abbrev idle : State
idle = record { machine = boot 1 2 30 9 blank; ops = [] }

idle-IsSound : IsSound 2 idle
unfolding boot
idle-IsSound = record {
  starts = refl;
  room = omega arith;
  int = omega arith;
  counted = refl;
  fits = omega arith;
  budget = tt;
  few = omega arith;
  idle = λ c. refl;
  home = λ i lt. absurd (omega arith);
  empty = refl;
}

abbrev first_call : State
first_call = with_log idle (record (idle.machine.log) { outstanding = 1 }) (max_op_blocks ∷ [])

Reach-first_call : Reach idle first_call
unfolding boot begin_op
Reach-first_call = next here (begin idle (record (idle.machine.log) { outstanding = 1 }) refl)

Reach-IsSound_example : IsSound 2 first_call
Reach-IsSound_example = Reach-IsSound 2 idle-IsSound Reach-first_call

Reach-NoPanic_example : NoPanic 2 first_call
Reach-NoPanic_example = Reach-NoPanic 2 idle-IsSound Reach-first_call

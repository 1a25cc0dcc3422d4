-- ===== src/Proc/Life.antt =====
-- kernel/proc.c: what a process does after `fork`: it exits, waits for its children, sleeps, yields
-- and grows.
pub mod Reparent
pub mod Exit
pub mod Wait
use os_assignments.Prelude.{
  ℕ, zero, suc, ◌+◌, ◌%◌, Bool, true, false, Option, none, some, not, ◌&&◌, ◌||◌, ◌==◌,
  if◌then◌else◌, List, [], ◌∷◌, ◌++◌, word, int_lt, update, map_from,
}
use os_assignments.Proc.{
  ProcState, sleeping, runnable, running, zombie, is_runnable, is_zombie, Channel, nothing, process,
  Proc, Call, fileclose, iput, begin_op, end_op, Kernel, nproc, nofile, put_proc, log_calls,
  freeproc, wakeup,
}

abbrev pub is_child : Option ℕ → ℕ → Bool
is_child none me = false
is_child (some q) me = q == me

-- The loop of `reparent`, from process `i` on.
unfoldable pub reparent_loop : ℕ → ℕ → (me : ℕ) → Kernel → Kernel
reparent_loop zero i me k = k
reparent_loop (suc n) i me k = reparent_loop n (i + 1) me (
    if is_child (k.proc i).parent me
    then wakeup me (process k.initproc)
        (put_proc i (record (k.proc i) { parent = some k.initproc }) k)
    else k)

unfoldable pub reparent : (me : ℕ) → Kernel → Kernel
unfolding reparent_loop wakeup
reparent me k = reparent_loop nproc 0 me k

-- The calls of `exit` for the open files.
unfoldable pub close_calls : ℕ → ℕ → (ℕ → ℕ) → List Call
close_calls zero fd ofile = []
close_calls (suc k) fd ofile =
    let rest = close_calls k (fd + 1) ofile in
    if ofile fd == 0 then rest else fileclose (ofile fd) ∷ rest

abbrev pub parent_channel : Option ℕ → Channel
parent_channel none = nothing
parent_channel (some q) = process q

-- `exit` of process `me` up to its last `sched`, as one step; `none` is the panic of `init`.
unfoldable pub exit : (me status : ℕ) → Kernel → Option Kernel
unfolding reparent wakeup close_calls
exit me status k =
    let p = k.proc me in
    let closed = record p { ofile = map_from nofile 0 (λ fd f. 0) p.ofile; cwd = 0 } in
    let cwd_calls = begin_op ∷ iput p.cwd ∷ end_op ∷ [] in
    let k1 = log_calls (close_calls nofile 0 p.ofile ++ cwd_calls) (put_proc me closed k) in
    let k2 = reparent me k1 in
    let k3 = wakeup me (parent_channel (k2.proc me).parent) k2 in
    if me == k.initproc
    then none
    else some (put_proc me (record (k3.proc me) { xstate = status; state = zombie }) k3)

-- The scan of `wait` from process `i` on: the first zombie child, or else whether there is a child.
pub data Scan : Type 0 where
  found : ℕ → Scan
  have_kids : Bool → Scan

unfoldable pub wait_scan : ℕ → ℕ → (me : ℕ) → Bool → (ℕ → Proc) → Scan
wait_scan zero i me kids proc = have_kids kids
wait_scan (suc n) i me kids proc =
    let rest = wait_scan n (i + 1) me (kids || is_child (proc i).parent me) proc in
    if is_child (proc i).parent me && is_zombie (proc i).state then found i else rest

-- How a pass of `wait` ends: it returns a process id and the status that it copied out, or -1, or sleeps.
pub data Waited : Type 0 where
  reaped : (pid : ℕ) → Waited
  no_child : Waited
  no_copy : Waited
  wait_sleeps : Waited

-- `wait` by process `me` once it has scanned; `copyout` tells whether the status can be copied to
-- address `addr`.
unfoldable pub wait_at : (me addr : ℕ) (copyout : Bool) → Kernel → Scan → Waited × Kernel
unfolding freeproc
wait_at me addr copyout k (found i) =
    if not (addr == 0) && not copyout then (no_copy, k) else (reaped (k.proc i).pid, freeproc i k)
wait_at me addr copyout k (have_kids kids) =
    if not kids || (k.proc me).killed then (no_child, k) else (wait_sleeps, k)

-- A pass of `wait`.
unfoldable pub wait : (me addr : ℕ) (copyout : Bool) → Kernel → Waited × Kernel
unfolding wait_scan wait_at
wait me addr copyout k = wait_at me addr copyout k (wait_scan nproc 0 me false k.proc)

-- `sleep` up to its `sched`, and after it.
unfoldable pub sleep_on : (me : ℕ) → Channel → Kernel → Kernel
sleep_on me c k = put_proc me (record (k.proc me) { chan = c; state = sleeping }) k

unfoldable pub sleep_end : (me : ℕ) → Kernel → Kernel
sleep_end me k = put_proc me (record (k.proc me) { chan = nothing }) k

-- `yield` up to its `sched`.
unfoldable pub yield : (me : ℕ) → Kernel → Kernel
yield me k = put_proc me (record (k.proc me) { state = runnable }) k

-- A round of `scheduler` at process `i`: whether it switches to the process.
unfoldable pub schedule : (i : ℕ) → Kernel → Bool × Kernel
schedule i k =
    if is_runnable (k.proc i).state
    then (true, put_proc i (record (k.proc i) { state = running }) k)
    else (false, k)

-- `growproc` by `n`, an `int`, where `uvmalloc` and `uvmdealloc` return these sizes; the test tells
-- whether it returns 0. The size passes through a `uint`.
unfoldable pub growproc : (uvmalloc uvmdealloc : ℕ → ℕ → ℕ) (me n : ℕ) → Kernel → Bool × Kernel
growproc uvmalloc uvmdealloc me n k =
    let p = k.proc me in
    let sz = p.sz % word in
    let more = uvmalloc sz ((sz + n) % word) % word in
    let less = uvmdealloc sz ((sz + n) % word) % word in
    if int_lt 0 n
    then (if more == 0 then (false, k) else (true, put_proc me (record p { sz = more }) k))
    else if int_lt n 0
    then (true, put_proc me (record p { sz = less }) k)
    else (true, put_proc me (record p { sz = sz }) k)

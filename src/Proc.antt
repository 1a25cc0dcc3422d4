-- ===== src/Proc.antt =====
-- kernel/proc.c and kernel/proc.h: the process table, and how a process is made, woken and killed;
-- `Life` has what a process does later. A process is named by its index in `proc[]`. What the operations ask of other parts is recorded, in order, as calls.
pub mod Fork
pub mod Life
pub mod Wake
pub mod Tree
pub mod Born
mod Tests
use os_assignments.Prelude.{
  ℕ, zero, suc, ◌+◌, ◌%◌, ◌^◌, Bool, true, false, Option, none, some, not, ◌&&◌, ◌||◌, ltb, ◌==◌,
  if◌then◌else◌, List, [], ◌∷◌, ◌++◌, word, update, find_from, map_from,
}

abbrev pub nproc : ℕ
nproc = 64

abbrev pub nofile : ℕ
nofile = 16

-- `enum procstate`
pub data ProcState : Type 0 where
  unused used sleeping runnable running zombie : ProcState

abbrev pub is_unused : ProcState → Bool
is_unused unused = true
is_unused _ = false

abbrev pub is_sleeping : ProcState → Bool
is_sleeping sleeping = true
is_sleeping _ = false

abbrev pub is_runnable : ProcState → Bool
is_runnable runnable = true
is_runnable _ = false

abbrev pub is_zombie : ProcState → Bool
is_zombie zombie = true
is_zombie _ = false

-- What a process sleeps on: nothing, a process, or another object of the kernel by its address.
pub data Channel : Type 0 where
  nothing : Channel
  process : ℕ → Channel
  object : ℕ → Channel

abbrev pub same_channel : Channel → Channel → Bool
same_channel nothing nothing = true
same_channel (process p) (process q) = p == q
same_channel (object a) (object b) = a == b
same_channel _ _ = false

-- `struct proc`, less its lock, its kernel stack and context and its name. Pointers are addresses,
-- 0 for null, and `parent` is an index.
pub record Proc : Type 0 where
  pub state : ProcState
  pub chan : Channel
  pub killed : Bool
  pub xstate : ℕ
  pub pid : ℕ
  pub parent : Option ℕ
  pub sz : ℕ
  pub pagetable : ℕ
  pub trapframe : ℕ
  pub ofile : ℕ → ℕ
  pub cwd : ℕ

-- Calls that the operations make of other parts of the kernel.
pub data Call : Type 0 where
  kfree : ℕ → Call
  free_pagetable : ℕ → ℕ → Call
  filedup : ℕ → Call
  idup : ℕ → Call
  fileclose : ℕ → Call
  iput : ℕ → Call
  begin_op : Call
  end_op : Call

pub record Kernel : Type 0 where
  pub proc : ℕ → Proc
  pub nextpid : ℕ
  pub initproc : ℕ
  pub calls : List Call

abbrev pub put_proc : ℕ → Proc → Kernel → Kernel
put_proc i p k = record k { proc = update k.proc i p }

abbrev pub log_calls : List Call → Kernel → Kernel
log_calls cs k = record k { calls = k.calls ++ cs }

-- `freeproc`, and the calls that it makes.
unfoldable pub freeproc_calls : Proc → List Call
freeproc_calls p =
    (if p.trapframe == 0 then [] else kfree p.trapframe ∷ [])
    ++ (if p.pagetable == 0 then [] else free_pagetable p.pagetable p.sz ∷ [])

unfoldable pub cleared : Proc → Proc
cleared p = record p {
  trapframe = 0;
  pagetable = 0;
  sz = 0;
  pid = 0;
  parent = none;
  chan = nothing;
  killed = false;
  xstate = 0;
  state = unused;
}

unfoldable pub freeproc : ℕ → Kernel → Kernel
unfolding freeproc_calls cleared
freeproc i k = log_calls (freeproc_calls (k.proc i)) (put_proc i (cleared (k.proc i)) k)

unfoldable pub allocpid : Kernel → ℕ × Kernel
allocpid k = (k.nextpid, record k { nextpid = (k.nextpid + 1) % word })

-- `allocproc` once its scan has found a free slot, or none; `kalloc` returns `frame` and
-- `proc_pagetable` then returns `table`.
unfoldable pub alloc_at : (frame table : ℕ) → Kernel → Option ℕ → Option ℕ × Kernel
unfolding allocpid freeproc
alloc_at frame table k none = (none, k)
alloc_at frame table k (some i) =
    let (pid, k1) = allocpid k in
    let p = record (k1.proc i) { pid = pid; state = used; trapframe = frame } in
    if frame == 0
    then (none, freeproc i (put_proc i p k1))
    else if table == 0
    then (none, freeproc i (put_proc i (record p { pagetable = 0 }) k1))
    else (some i, put_proc i (record p { pagetable = table }) k1)

unfoldable pub allocproc : (frame table : ℕ) → Kernel → Option ℕ × Kernel
unfolding alloc_at
allocproc frame table k =
    alloc_at frame table k (find_from nproc 0 (λ i. is_unused (k.proc i).state))

-- The loop of `fork` over the open files.
unfoldable pub dup_calls : ℕ → ℕ → (ℕ → ℕ) → List Call
dup_calls zero fd ofile = []
dup_calls (suc k) fd ofile =
    let rest = dup_calls k (fd + 1) ofile in
    if ofile fd == 0 then rest else filedup (ofile fd) ∷ rest

unfoldable pub dup_files : (from to : ℕ → ℕ) → ℕ → ℕ
dup_files from to = map_from nofile 0 (λ fd f. if from fd == 0 then f else from fd) to

-- `fork` by process `me` behind its `allocproc`; `copied` tells whether `uvmcopy` succeeds. `none`
-- is -1. What it does under `np->lock`, `wait_lock` and `np->lock` again is one step.
unfoldable pub fork_at : (copied : Bool) (me : ℕ) → Option ℕ × Kernel → Option ℕ × Kernel
unfolding dup_calls dup_files freeproc
fork_at copied me (none, k) = (none, k)
fork_at copied me (some i, k) =
    let p = k.proc me in
    let np = record (k.proc i) {
      sz = p.sz;
      ofile = dup_files p.ofile (k.proc i).ofile;
      cwd = p.cwd;
    } in
    let k1 = log_calls (dup_calls nofile 0 p.ofile ++ (idup p.cwd ∷ [])) k in
    if copied
    then (some np.pid, put_proc i (record np { parent = some me; state = runnable }) k1)
    else (none, freeproc i k)

unfoldable pub fork : (frame table : ℕ) (copied : Bool) (me : ℕ) → Kernel → Option ℕ × Kernel
unfolding allocproc fork_at
fork frame table copied me k = fork_at copied me (allocproc frame table k)

-- What `wakeup` does to process `i`, for the caller `me`.
unfoldable pub wake_one : (me : ℕ) → Channel → ℕ → Proc → Proc
wake_one me c i p =
    if i == me
    then p
    else if is_sleeping p.state && same_channel p.chan c
    then record p { state = runnable }
    else p

unfoldable pub wakeup : (me : ℕ) → Channel → Kernel → Kernel
wakeup me c k = record k { proc = map_from nproc 0 (wake_one me c) k.proc }

-- `kill` once its scan has found the process, or none; the test tells whether it returns 0.
unfoldable pub kill_at : Kernel → Option ℕ → Bool × Kernel
kill_at k none = (false, k)
kill_at k (some i) =
    let p = k.proc i in
    (
      true,
      put_proc i
          (record p { killed = true; state = if is_sleeping p.state then runnable else p.state }) k,
    )

unfoldable pub kill : (pid : ℕ) → Kernel → Bool × Kernel
unfolding kill_at
kill pid k = kill_at k (find_from nproc 0 (λ i. (k.proc i).pid == pid))

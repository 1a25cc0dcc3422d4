-- ===== src/Proc/Fork.antt =====
-- `allocproc` and `fork` of kernel/proc.c, on every branch.
use os_assignments.Prelude.{
  ℕ, ◌+◌, ◌%◌, ◌<◌, ◌≡◌, ◌≢◌, refl, Bool, true, false, Option, none, some, ◌⊎◌, inl, inr, ◌==◌,
  arith, if◌then◌else◌, word, find_from, FindResult, find_from-FindResult, Option-cases, Bool-cases,
  not, ◌&&◌,
}
use mathlib.Core.Path.{subst}
use os_assignments.Proc.{unused, runnable, is_unused, Kernel, nproc, fork, alloc_at, fork_at}

abbrev pub slot_test : Kernel → ℕ → Bool
slot_test k i = is_unused (k.proc i).state

-- Every process but `i` is as it was.
abbrev pub OnlyAt : ℕ → Kernel → Kernel → Type 0
OnlyAt i k k' = (j : ℕ) → j ≢ i → k'.proc j ≡ k.proc j

-- The child that `fork` makes of the first free slot `i`.
pub record Child (me i : ℕ) (k k' : Kernel) : Type 0 where
  pub slot : i < nproc
  pub free : (k.proc i).state ≡ unused
  pub first : (j : ℕ) → j < i → is_unused (k.proc j).state ≡ false
  pub state : (k'.proc i).state ≡ runnable
  pub parent : (k'.proc i).parent ≡ some me
  pub pid : (k'.proc i).pid ≡ k.nextpid
  pub size : (k'.proc i).sz ≡ (k.proc me).sz
  pub directory : (k'.proc i).cwd ≡ (k.proc me).cwd
  pub killed : (k'.proc i).killed ≡ (k.proc i).killed
  pub others : OnlyAt i k k'
  pub next : k'.nextpid ≡ (k.nextpid + 1) % word
  pub init : k'.initproc ≡ k.initproc

-- What `fork` leaves when it fails: no slot was free and nothing changed, or the slot that it took
-- is free again.
pub record Failed (i : ℕ) (k k' : Kernel) : Type 0 where
  pub slot : i < nproc
  pub free : (k.proc i).state ≡ unused
  pub state : (k'.proc i).state ≡ unused
  pub parent : (k'.proc i).parent ≡ none
  pub pid : (k'.proc i).pid ≡ 0
  pub trapframe : ((k'.proc i).trapframe ≡ 0) × ((k'.proc i).pagetable ≡ 0)
  pub others : OnlyAt i k k'
  pub next : k'.nextpid ≡ (k.nextpid + 1) % word
  pub init : k'.initproc ≡ k.initproc

abbrev pub Forks : (frame table : ℕ) (copied : Bool) (me : ℕ) → Kernel → Option ℕ × Kernel → Type 0
Forks frame table copied me k (some pid, k') =
    (pid ≡ k.nextpid) × (frame ≢ 0) × (table ≢ 0) × (copied ≡ true) × ((i : ℕ) × Child me i k k')
Forks frame table copied me k (none, k') =
    (((j : ℕ) → j < nproc → is_unused (k.proc j).state ≡ false) × (k' ≡ k))
    ⊎ ((frame ≡ 0) ⊎ (table ≡ 0) ⊎ (copied ≡ false)) × ((i : ℕ) × Failed i k k')

module _ (frame table : ℕ) (copied : Bool) (me : ℕ) (k : Kernel)
    (alive : (k.proc me).state ≢ unused) (i : ℕ)
    (found : FindResult nproc 0 (slot_test k) (some i)) where
  was_free : (k.proc i).state ≡ unused
  was_free = ground (arith, found.2)

  apart : (me == i) ≡ false
  apart = ground (arith, was_free)

  abbrev after : Kernel
  after = (fork_at copied me (alloc_at frame table k (some i))).1

  made : frame ≢ 0 → table ≢ 0 → copied ≡ true → Child me i k after
  unfolding fork_at alloc_at
  made f t c = record {
    slot = found.1;
    free = was_free;
    first = λ j lt. found.3 j (omega arith) lt;
    state = ground arith;
    parent = ground arith;
    pid = ground arith;
    size = ground (arith, apart);
    directory = ground (arith, apart);
    killed = ground arith;
    others = λ j ne. ground arith;
    next = ground arith;
    init = ground arith;
  }

  undone : (frame ≡ 0) ⊎ (table ≡ 0) ⊎ (copied ≡ false) → Failed i k after
  unfolding fork_at alloc_at
  undone why = record {
    slot = found.1;
    free = was_free;
    state = ground arith;
    parent = ground arith;
    pid = ground arith;
    trapframe = (ground arith, ground arith);
    others = λ j ne. ground arith;
    next = ground arith;
    init = ground arith;
  }

  value :
      (fork_at copied me (alloc_at frame table k (some i))).0
      ≡ (if not (frame == 0) && (not (table == 0) && copied) then some k.nextpid else none)
  unfolding fork_at alloc_at
  value = ground arith

  abbrev succeeds : Bool
  succeeds = not (frame == 0) && (not (table == 0) && copied)

  fork_found : Forks frame table copied me k (fork_at copied me (alloc_at frame table k (some i)))
  fork_found = elim (Bool-cases succeeds) [
    | inl done ↦
        let got : (fork_at copied me (alloc_at frame table k (some i))).0 ≡ some k.nextpid =
          ground (arith, value) in
        let f : frame ≢ 0 = ground arith in
        let t : table ≢ 0 = ground arith in
        let c : copied ≡ true = ground arith in rw got (refl, f, t, c, (i, made f t c))
    | inr undo ↦
        let got : (fork_at copied me (alloc_at frame table k (some i))).0 ≡ none =
          ground (arith, value) in
        let why : (frame ≡ 0) ⊎ (table ≡ 0) ⊎ (copied ≡ false) = ground arith in
        rw got (inr (why, (i, undone why)))
  ]

-- `fork` by a live process returns the next process id, and makes a runnable child of it in the
-- first free slot, with the caller's size and directory and whatever `killed` the slot held; or it
-- returns -1, where no slot is free and nothing changes, or where memory runs out and the slot is
-- free again, a process id being used up. No other process changes.
pub fork-Forks :
    (frame table : ℕ) (copied : Bool) (me : ℕ) (k : Kernel)
    → (k.proc me).state ≢ unused
    → Forks frame table copied me k (fork frame table copied me k)
unfolding fork
fork-Forks frame table copied me k alive = elim (Option-cases (find_from nproc 0 (slot_test k))) [
  | inl full ↦
      rw full
        (inl (λ j lt. subst (FindResult nproc 0 (slot_test k)) full all j (omega arith) lt, refl))
  | inr (i, e) ↦
      rw e (
        fork_found frame table copied me k alive i (subst (FindResult nproc 0 (slot_test k)) e all))
]
  where
    all : FindResult nproc 0 (slot_test k) (find_from nproc 0 (slot_test k))
    all = find_from-FindResult (slot_test k) nproc 0

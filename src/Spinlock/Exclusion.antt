-- ===== src/Spinlock/Exclusion.antt =====
-- The invariant of Spinlock/Steps: one CPU at a time has the lock, with its interrupts off.
use os_assignments.Prelude.{
  ℕ, ◌+◌, ◌-◌, ◌%◌, ◌^◌, ◌<◌, ◌≡◌, refl, true, false, ◌&&◌, arith, ◌==◌, none, some, word, int_lt,
}
use os_assignments.Spinlock.{
  Spinlock, Cpu, holding, is_cpu, push_off, pop_off, acquire_enter, test_and_set, set_cpu,
  release_enter, release_exit, initlock,
}
use os_assignments.Spinlock.Steps.{
  outside, inside, leaving, critical, State, depth, Step, enter-Step, spin-Step, take-Step,
  own-Step, clear-Step, free-Step, push-Step, pop-Step, interrupts-Step, Reach, boot-Reach,
  step-Reach,
}

-- The nesting on each CPU.
abbrev pub Nests : State → ℕ → Type 0
Nests s i =
    ((s.core i).noff ≡ depth s i)
    × (depth s i < 2 ^ 31)
    × (0 < depth s i → ((s.core i).intr ≡ false) × ((s.core i).intena ≡ s.before i))

abbrev pub IsSound : State → Type 0
IsSound s =
    ((i : ℕ) → Nests s i)
    × ((i : ℕ) → critical (s.phase i) ≡ true → s.lock.locked ≡ true)
    × ((i j : ℕ) → critical (s.phase i) ≡ true → critical (s.phase j) ≡ true → i ≡ j)
    × ((i : ℕ) → s.phase i ≡ inside → s.lock.cpu ≡ some i)
    × ((i : ℕ) → s.lock.cpu ≡ some i → s.phase i ≡ inside)

Step-IsSound : {s s' : State} → Step s s' → IsSound s → IsSound s'
unfolding acquire_enter test_and_set set_cpu release_enter release_exit holding push_off pop_off
Step-IsSound (enter-Step i {s} {c} out few e) (nest, lock, one, own, back) = (
  λ j. ground (arith, nest j),
  λ j. ground (arith, lock j),
  λ j k. ground (arith, one j k),
  λ j. ground (arith, own j),
  λ j. ground (arith, back j),
)
Step-IsSound (spin-Step i {s} {lk} spins e) (nest, lock, one, own, back) = (
  λ j. ground (arith, nest j),
  λ j. ground (arith, lock j),
  λ j k. ground (arith, one j k),
  λ j. ground (arith, own j),
  λ j. ground (arith, back j),
)
Step-IsSound (take-Step i {s} {lk} spins e) (nest, lock, one, own, back) = (
  λ j. ground (arith, nest j, nest i),
  λ j. ground (arith, lock j),
  λ j k. ground (arith, one j k, lock j, lock k),
  λ j. ground (arith, own j),
  λ j. ground (arith, back j),
)
Step-IsSound (own-Step i {s} has) (nest, lock, one, own, back) = (
  λ j. ground (arith, nest j, nest i),
  λ j. ground (arith, lock j, lock i),
  λ j k. ground (arith, one j k, one i j, one i k),
  λ j. ground (arith, own j, one i j),
  λ j. ground (arith, back j),
)
Step-IsSound (clear-Step i {s} {lk} ins e) (nest, lock, one, own, back) = (
  λ j. ground (arith, nest j, nest i),
  λ j. ground (arith, lock j, lock i),
  λ j k. ground (arith, one j k, one i j, one i k),
  λ j. ground (arith, own j, one i j, own i),
  λ j. ground (arith, back j),
)
Step-IsSound (free-Step i {s} {lk} {c} leaves e) (nest, lock, one, own, back) = (
  λ j. ground (arith, nest j, nest i),
  λ j. ground (arith, one i j),
  λ j k. ground (arith, one j k),
  λ j. ground (arith, own j, one i j),
  λ j. ground (arith, back j),
)
Step-IsSound (push-Step i {s} few) (nest, lock, one, own, back) = (
  λ j. ground (arith, nest j),
  λ j. ground (arith, lock j),
  λ j k. ground (arith, one j k),
  λ j. ground (arith, own j),
  λ j. ground (arith, back j),
)
Step-IsSound (pop-Step i {s} {c} more e) (nest, lock, one, own, back) = (
  λ j. ground (arith, nest j),
  λ j. ground (arith, lock j),
  λ j k. ground (arith, one j k),
  λ j. ground (arith, own j),
  λ j. ground (arith, back j),
)
Step-IsSound (interrupts-Step i {s} on none_left) (nest, lock, one, own, back) =
    (λ j. ground (arith, nest j), lock, one, own, back)

Reach-IsSound : {s : State} → Reach s → IsSound s
unfolding initlock
Reach-IsSound (boot-Reach {core} {before} idle) = (
  λ j. ground (arith, idle j),
  λ j h. ground arith,
  λ j k h. ground arith,
  λ j h. ground arith,
  λ j h. ground arith,
)
Reach-IsSound (step-Reach reach step) = Step-IsSound step (Reach-IsSound reach)

-- In every reachable state at most one CPU has the lock; holding is true exactly for the CPU in
-- the critical section, and as long as a CPU is in acquire, has the lock or has pushed, it takes no
-- interrupts.
pub Reach-Excludes :
    {s : State}
    → Reach s
    → ((i j : ℕ) → critical (s.phase i) ≡ true → critical (s.phase j) ≡ true → i ≡ j)
      × ((i : ℕ) → s.phase i ≡ inside → holding i s.lock ≡ true)
      × ((i : ℕ) → holding i s.lock ≡ true → s.phase i ≡ inside)
      × ((i : ℕ) → 0 < depth s i → (s.core i).intr ≡ false)
unfolding holding
Reach-Excludes {s} reach =
    let (nest, lock, one, own, back) = Reach-IsSound reach in
    (
      one,
      λ i ins. ground (arith, own i ins, lock i),
      λ i h. back i (ground arith),
      λ i more. ((nest i).2 more).0,
    )

pop_off_lem :
    (s : State) (i : ℕ)
    → Nests s i
    → 0 < depth s i
    → pop_off (s.core i)
      ≡ some (record (s.core i) {
        noff = depth s i - 1;
        intr = depth s i - 1 == 0 && (s.core i).intena;
      })
unfolding pop_off
pop_off_lem s i (count, small, off) more =
    let silent : (s.core i).intr ≡ false = (off more).0 in
    let nested : int_lt (s.core i).noff 1 ≡ false = ground arith in
    let less : ((s.core i).noff + (word - 1)) % word ≡ depth s i - 1 = ground arith in
    rw (silent, nested, less) refl

-- In every reachable state no call of the protocol panics: acquire of a CPU outside, release of
-- the CPU in the critical section, to its end, and pop_off of a CPU that has pushed. The pop_off
-- of its last push leaves interrupts as they were before its first.
pub Reach-Proceeds :
    {s : State}
    → Reach s
    → (i : ℕ)
    → (s.phase i ≡ outside → (c : Cpu) × (acquire_enter i s.lock (s.core i) ≡ some c))
      × (s.phase i ≡ inside → (lk : Spinlock) × (release_enter i s.lock ≡ some lk))
      × (s.phase i ≡ leaving
          → (lk : Spinlock) × (c : Cpu) × (release_exit s.lock (s.core i) ≡ some (lk, c)))
      × (0 < depth s i
          → (c : Cpu) × (pop_off (s.core i) ≡ some c) × (depth s i ≡ 1 → c.intr ≡ s.before i))
unfolding acquire_enter release_enter release_exit holding
Reach-Proceeds {s} reach i =
    let (nest, lock, one, own, back) = Reach-IsSound reach in
    let pops = pop_off_lem s i (nest i) in
    (
      λ out.
          let free : (s.lock.locked && is_cpu i s.lock.cpu) ≡ false = ground (arith, back i) in
          rw free (push_off (s.core i), refl),
      λ ins.
          let held : (s.lock.locked && is_cpu i s.lock.cpu) ≡ true =
            ground (arith, own i, lock i) in
          rw held (record s.lock { cpu = none }, refl),
      λ leaves. rw (pops (ground arith)) (
        record s.lock { locked = false },
        record (s.core i) { noff = depth s i - 1; intr = depth s i - 1 == 0 && (s.core i).intena },
        refl,
      ),
      λ more. (
        record (s.core i) { noff = depth s i - 1; intr = depth s i - 1 == 0 && (s.core i).intena },
        pops more,
        λ last. ground (arith, (nest i).2 more),
      ),
    )

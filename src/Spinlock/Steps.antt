-- ===== src/Spinlock/Steps.antt =====
-- CPUs that take one spin lock, in any interleaving of their accesses to it, and that hold other
-- locks besides.
use os_assignments.Prelude.{
  ℕ, ◌+◌, ◌-◌, ◌^◌, ◌<◌, ◌≡◌, Bool, true, false, some, if◌then◌else◌, update, ◌==◌,
}
use os_assignments.Spinlock.{
  Spinlock, Cpu, push_off, pop_off, acquire_enter, test_and_set, set_cpu, release_enter,
  release_exit, initlock,
}

-- Where a CPU is with the lock: in `acquire`, before and behind its loop, in the critical section,
-- or in `release`, behind `lk->cpu = 0`.
pub data Phase : Type 0 where
  outside : Phase
  spinning : Phase
  taken : Phase
  inside : Phase
  leaving : Phase

-- The lock is the CPU's.
abbrev pub critical : Phase → Bool
critical outside = false
critical spinning = false
critical taken = true
critical inside = true
critical leaving = true

abbrev pub pushed : Phase → ℕ
pushed outside = 0
pushed spinning = 1
pushed taken = 1
pushed inside = 1
pushed leaving = 1

-- `others i` counts what else CPU `i` has pushed, `before i` says whether it took interrupts when
-- it pushed first.
pub record State : Type 0 where
  pub lock : Spinlock
  pub core : ℕ → Cpu
  pub phase : ℕ → Phase
  pub others : ℕ → ℕ
  pub before : ℕ → Bool

abbrev pub depth : State → ℕ → ℕ
depth s i = s.others i + pushed (s.phase i)

-- What `before` is after a push.
abbrev pub first_push : State → ℕ → Bool
first_push s i = if depth s i == 0 then (s.core i).intr else s.before i

abbrev set_core : ℕ → Cpu → State → State
set_core i c s = record s { core = update s.core i c }

abbrev set_phase : ℕ → Phase → State → State
set_phase i p s = record s { phase = update s.phase i p }

pub data Step : State → State → Type 0 where
  enter-Step :
      (i : ℕ) {s : State} {c : Cpu}
      → s.phase i ≡ outside
      → s.others i + 2 < 2 ^ 31
      → acquire_enter i s.lock (s.core i) ≡ some c
      → Step s (
          set_phase i spinning
            (set_core i c (record s { before = update s.before i (first_push s i) })))
  spin-Step :
      (i : ℕ) {s : State} {lk : Spinlock}
      → s.phase i ≡ spinning
      → test_and_set s.lock ≡ (true, lk)
      → Step s (record s { lock = lk })
  take-Step :
      (i : ℕ) {s : State} {lk : Spinlock}
      → s.phase i ≡ spinning
      → test_and_set s.lock ≡ (false, lk)
      → Step s (set_phase i taken (record s { lock = lk }))
  own-Step :
      (i : ℕ) {s : State}
      → s.phase i ≡ taken
      → Step s (set_phase i inside (record s { lock = set_cpu i s.lock }))
  clear-Step :
      (i : ℕ) {s : State} {lk : Spinlock}
      → s.phase i ≡ inside
      → release_enter i s.lock ≡ some lk
      → Step s (set_phase i leaving (record s { lock = lk }))
  free-Step :
      (i : ℕ) {s : State} {lk : Spinlock} {c : Cpu}
      → s.phase i ≡ leaving
      → release_exit s.lock (s.core i) ≡ some (lk, c)
      → Step s (set_phase i outside (set_core i c (record s { lock = lk })))
  push-Step :
      (i : ℕ) {s : State}
      → s.others i + 2 < 2 ^ 31
      → Step s (
          set_core i (push_off (s.core i)) (record s {
            others = update s.others i (s.others i + 1);
            before = update s.before i (first_push s i);
          }))
  pop-Step :
      (i : ℕ) {s : State} {c : Cpu}
      → 0 < s.others i
      → pop_off (s.core i) ≡ some c
      → Step s (set_core i c (record s { others = update s.others i (s.others i - 1) }))
  interrupts-Step :
      (i : ℕ) {s : State} (on : Bool)
      → depth s i ≡ 0
      → Step s (set_core i (record (s.core i) { intr = on }) s)

pub data Reach : State → Type 0 where
  boot-Reach :
      {core : ℕ → Cpu} {before : ℕ → Bool}
      → ((i : ℕ) → (core i).noff ≡ 0)
      → Reach (record {
        lock = initlock;
        core = core;
        phase = λ i. outside;
        others = λ i. 0;
        before = before;
      })
  step-Reach : {s s' : State} → Reach s → Step s s' → Reach s'

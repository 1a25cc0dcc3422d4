-- ===== src/Spinlock/Tests.antt =====
-- A run of kernel/spinlock.c on two CPUs, and its theorems at its end.
use os_assignments.Prelude.{ℕ, ◌<◌, ◌≡◌, refl, true, false, arith, none, some, update}
use os_assignments.Spinlock.{
  Spinlock, Cpu, holding, push_off, pop_off, acquire_enter, test_and_set, set_cpu, release_enter,
  release_exit, initlock,
}
use os_assignments.Spinlock.Steps.{
  outside, spinning, taken, inside, leaving, critical, State, depth, Reach, boot-Reach, step-Reach,
  enter-Step, spin-Step, take-Step, own-Step,
}
use os_assignments.Spinlock.Exclusion.{Reach-Excludes, Reach-Proceeds}

abbrev idle : Cpu
idle = record { noff = 0; intena = false; intr = true }

abbrev busy : Cpu
busy = record { noff = 1; intena = true; intr = false }

pushes : push_off idle ≡ busy
unfolding push_off
pushes = refl

pops : pop_off busy ≡ some (record { noff = 0; intena = true; intr = true })
unfolding pop_off
pops = refl

-- CPU 0 has taken the lock, and CPU 1 spins.
abbrev contended : State
contended = record {
  lock = record { locked = true; cpu = some 0 };
  core = update (update (λ i. idle) 0 busy) 1 busy;
  phase = update (update (update (update (λ i. outside) 0 spinning) 0 taken) 0 inside) 1 spinning;
  others = λ i. 0;
  before = update (update (λ i. false) 0 true) 1 true;
}

contends : Reach contended
unfolding acquire_enter test_and_set set_cpu initlock
contends =
    let boot = boot-Reach {core = λ i. idle} {before = λ i. false} (λ i. refl) in
    let one = step-Reach boot (enter-Step 0 {c = busy} refl (omega arith) refl) in
    let two = step-Reach one (take-Step 0 {lk = record { locked = true; cpu = none }} refl refl) in
    let three = step-Reach two (own-Step 0 refl) in
    let four = step-Reach three (enter-Step 1 {c = busy} refl (omega arith) refl) in
    step-Reach four (spin-Step 1 {lk = record { locked = true; cpu = some 0 }} refl refl)

Reach-Excludes_example :
    ((i j : ℕ) → critical (contended.phase i) ≡ true → critical (contended.phase j) ≡ true → i ≡ j)
    × ((i : ℕ) → contended.phase i ≡ inside → holding i contended.lock ≡ true)
    × ((i : ℕ) → holding i contended.lock ≡ true → contended.phase i ≡ inside)
    × ((i : ℕ) → 0 < depth contended i → (contended.core i).intr ≡ false)
Reach-Excludes_example = Reach-Excludes contends

Reach-Proceeds_example :
    (contended.phase 0 ≡ outside
      → (c : Cpu) × (acquire_enter 0 contended.lock (contended.core 0) ≡ some c))
    × (contended.phase 0 ≡ inside → (lk : Spinlock) × (release_enter 0 contended.lock ≡ some lk))
    × (contended.phase 0 ≡ leaving
        → (lk : Spinlock) × (c : Cpu) × (release_exit contended.lock (contended.core 0)
            ≡ some (lk, c)))
    × (0 < depth contended 0
        → (c : Cpu) × (pop_off (contended.core 0) ≡ some c)
          × (depth contended 0 ≡ 1 → c.intr ≡ contended.before 0))
Reach-Proceeds_example = Reach-Proceeds contends 0

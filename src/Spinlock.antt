-- ===== src/Spinlock.antt =====
-- kernel/spinlock.c: spin locks and the nesting of disabled interrupts.
pub mod Steps
pub mod Exclusion
mod Tests
use os_assignments.Prelude.{
  ℕ, ◌+◌, ◌-◌, ◌%◌, Bool, true, false, Option, none, some, not, ◌&&◌, ◌==◌, if◌then◌else◌, word,
  int_lt,
}

-- `struct spinlock`; no CPU is the null pointer.
pub record Spinlock : Type 0 where
  pub locked : Bool
  pub cpu : Option ℕ

-- The fields of `struct cpu` that the locks use, and whether the core takes interrupts.
pub record Cpu : Type 0 where
  pub noff : ℕ
  pub intena : Bool
  pub intr : Bool

pub initlock : Spinlock
initlock = record { locked = false; cpu = none }

abbrev pub is_cpu : (me : ℕ) → Option ℕ → Bool
is_cpu me none = false
is_cpu me (some i) = i == me

pub holding : (me : ℕ) → Spinlock → Bool
holding me lk = lk.locked && is_cpu me lk.cpu

pub push_off : Cpu → Cpu
push_off c = record {
  noff = (c.noff + 1) % word;
  intena = if c.noff == 0 then c.intr else c.intena;
  intr = false;
}

-- `none` is either panic.
pub pop_off : Cpu → Option Cpu
pop_off c =
    let left = (c.noff + (word - 1)) % word in
    if c.intr
    then none
    else if int_lt c.noff 1
    then none
    else some (record c { noff = left; intr = left == 0 && c.intena })

-- `acquire` up to its loop: `none` is the panic of a CPU that holds the lock.
pub acquire_enter : (me : ℕ) → Spinlock → Cpu → Option Cpu
unfolding holding push_off
acquire_enter me lk c = if holding me lk then none else some (push_off c)

-- `__sync_lock_test_and_set(&lk->locked, 1)`: the old value, and the lock.
pub test_and_set : Spinlock → Bool × Spinlock
test_and_set lk = (lk.locked, record lk { locked = true })

-- `lk->cpu = mycpu()`
pub set_cpu : (me : ℕ) → Spinlock → Spinlock
set_cpu me lk = record lk { cpu = some me }

-- `release` up to `lk->cpu = 0`: `none` is its panic.
pub release_enter : (me : ℕ) → Spinlock → Option Spinlock
unfolding holding
release_enter me lk = if not (holding me lk) then none else some (record lk { cpu = none })

abbrev pub with_lock : Spinlock → Option Cpu → Option (Spinlock × Cpu)
with_lock lk none = none
with_lock lk (some c) = some (lk, c)

-- The rest of `release`.
pub release_exit : Spinlock → Cpu → Option (Spinlock × Cpu)
unfolding pop_off
release_exit lk c = with_lock (record lk { locked = false }) (pop_off c)

-- ===== src/Pipe.antt =====
-- kernel/pipe.c: the ring of a pipe and what `pipewrite`, `piperead` and `pipeclose` do to it while
-- they hold `pi->lock`. A call that sleeps releases the lock and goes on with another pass.
pub mod Ring
pub mod Write
pub mod Read
pub mod Steps
pub mod Fifo
mod Tests
use os_assignments.Prelude.{
  ℕ, zero, suc, ◌+◌, ◌%◌, Bool, true, false, Option, none, some, not, ◌&&◌, ◌||◌, ◌==◌,
  if◌then◌else◌, List, [], ◌∷◌, word, rounds, update,
}

abbrev pub pipe_size : ℕ
pipe_size = 512

-- `struct pipe`; a `uint` is a number below 2^32, and every index into `contents` is below 512.
pub record Pipe : Type 0 where
  pub buffer : ℕ → ℕ
  pub nread : ℕ
  pub nwrite : ℕ
  pub readopen : Bool
  pub writeopen : Bool

-- The pipe as `pipealloc` sets it up, in a page that `kalloc` filled with junk.
unfoldable pub pipe_init : (ℕ → ℕ) → Pipe
pipe_init junk = record { buffer = junk; nread = 0; nwrite = 0; readopen = true; writeopen = true }

abbrev pub is_full : Pipe → Bool
is_full p = p.nwrite == (p.nread + pipe_size) % word

abbrev pub is_empty : Pipe → Bool
is_empty p = p.nread == p.nwrite

-- `pi->data[pi->nwrite++ % PIPESIZE] = ch`
pub put : ℕ → Pipe → Pipe
put ch p = record p {
  buffer = update p.buffer (p.nwrite % pipe_size) ch;
  nwrite = (p.nwrite + 1) % word;
}

-- `ch = pi->data[pi->nread++ % PIPESIZE]`: the byte and the pipe behind it.
pub oldest : Pipe → ℕ
oldest p = p.buffer (p.nread % pipe_size)

pub take_one : Pipe → Pipe
take_one p = record p { nread = (p.nread + 1) % word }

-- How a pass ends: the call sleeps, or returns a count, or returns -1; the number is the call's
-- `i`, the bytes done.
pub data Outcome : Type 0 where
  sleeps : ℕ → Outcome
  returns : ℕ → Outcome
  fails : ℕ → Outcome

abbrev pub progress : Outcome → ℕ
progress (sleeps i) = i
progress (returns i) = i
progress (fails i) = i

-- One pass of the loop of `pipewrite`, from byte `i` on, with `k` bytes to go. `user a` is the byte
-- that `copyin` reads at address `a`, if it reads one; `killed i` is the flag as round `i` reads it.
pub write_pass : (user : ℕ → Option ℕ) (killed : ℕ → Bool) (addr k i : ℕ) → Pipe → Outcome × Pipe
write_pass user killed addr zero i p = (returns i, p)
write_pass user killed addr (suc k) i p =
    let stored = λ (ch : ℕ). write_pass user killed addr k (i + 1) (put ch p) in
    if not p.readopen || killed i
    then (fails i, p)
    else if is_full p
    then (sleeps i, p)
    else elim (user (addr + i)) [ none ↦ (returns i, p) | some ch ↦ stored ch ]

-- `pipewrite` of `n` bytes up to its first sleep or its return.
pub pipewrite : (user : ℕ → Option ℕ) (killed : ℕ → Bool) (addr n : ℕ) → Pipe → Outcome × Pipe
pipewrite user killed addr n p = write_pass user killed addr (rounds n) 0 p

-- The copying loop of `piperead`: `writable a` tells whether `copyout` to address `a` succeeds.
-- The result is the count returned, the bytes that reached the user, and the pipe.
pub read_loop : (writable : ℕ → Bool) (addr k i : ℕ) → Pipe → ℕ × List ℕ × Pipe
read_loop writable addr zero i p = (i, [], p)
read_loop writable addr (suc k) i p =
    let rest = read_loop writable addr k (i + 1) (take_one p) in
    if is_empty p
    then (i, [], p)
    else if not (writable (addr + i))
    then (i, [], take_one p)
    else (rest.0, oldest p ∷ rest.1, rest.2)

-- One pass of `piperead`: it sleeps on an empty pipe that has a writer, and else copies.
pub piperead : (writable : ℕ → Bool) (killed : Bool) (addr n : ℕ) → Pipe → Outcome × List ℕ × Pipe
piperead writable killed addr n p =
    let copied = read_loop writable addr (rounds n) 0 p in
    if is_empty p && p.writeopen
    then (if killed then (fails 0, [], p) else (sleeps 0, [], p))
    else (returns copied.0, copied.1, copied.2)

-- `pipeclose`; the test tells whether the page is freed.
unfoldable pub pipeclose : Pipe → Bool → Pipe × Bool
pipeclose p writable =
    let p' = if writable then record p { writeopen = false } else record p { readopen = false } in
    (p', not p'.readopen && not p'.writeopen)

-- ===== src/Pipe/Tests.antt =====
-- Runs of kernel/pipe.c, and its theorems at them.
use os_assignments.Prelude.{
  ℕ, ◌-◌, ◌^◌, ◌≡◌, refl, true, false, Option, some, none, arith, [], ◌∷◌, if◌then◌else◌, ltb,
  rounds,
}
use os_assignments.Pipe.{
  Pipe, pipe_init, returns, put, take_one, oldest, write_pass, pipewrite, read_loop, piperead,
}
use os_assignments.Pipe.Ring.{IsValid, contents}
use os_assignments.Pipe.Write.{Wrote, write_pass-Wrote}
use os_assignments.Pipe.Read.{ReadPass, piperead-ReadPass}
use os_assignments.Pipe.Steps.{State, Reach, here, next, writes}
use os_assignments.Pipe.Fifo.{Carries, fresh, fresh-queue}

-- The counters are about to wrap, and two bytes are held.
abbrev wrapping : Pipe
wrapping = record {
  buffer = λ i. i;
  nread = 2 ^ 32 - 1;
  nwrite = 1;
  readopen = true;
  writeopen = true;
}

wrapping-IsValid : IsValid wrapping
wrapping-IsValid = record {
  nread_uint = omega arith;
  nwrite_uint = omega arith;
  held = omega arith;
}

contents-wrapping : contents wrapping ≡ 511 ∷ 0 ∷ []
contents-wrapping = refl

-- Three mapped bytes at address 100, and a fault behind them.
abbrev user : ℕ → Option ℕ
user a = if ltb a 103 then some (a - 90) else none

write_to_fault :
    contents (pipewrite user (λ i. false) 100 5 wrapping).1 ≡ 511 ∷ 0 ∷ 10 ∷ 11 ∷ 12 ∷ []
unfolding pipewrite write_pass put rounds
write_to_fault = refl

read_two : (piperead (λ a. true) false 0 2 wrapping).1 ≡ 511 ∷ 0 ∷ []
unfolding piperead read_loop oldest take_one rounds
read_two = refl

write_pass-Wrote_example :
    Wrote user
      (λ i. false)
      100
      5
      0
      wrapping
      (write_pass user (λ i. false) 100 5 0 wrapping).0
      (write_pass user (λ i. false) 100 5 0 wrapping).1
write_pass-Wrote_example = write_pass-Wrote user (λ i. false) 100 5 0 wrapping wrapping-IsValid

piperead-ReadPass_example :
    let (o, got, p) = piperead (λ a. true) false 0 2 wrapping in
    ReadPass (λ a. true) 0 2 false wrapping o got p
piperead-ReadPass_example = piperead-ReadPass (λ a. true) 0 false 2 wrapping wrapping-IsValid

abbrev after_write : State
after_write = record {
  pipe = (write_pass user (λ i. false) 100 3 0 (pipe_init (λ i. 5))).1;
  sent = 10 ∷ 11 ∷ 12 ∷ [];
  received = [];
  faults = 0;
}

Reach-after_write : Reach (fresh (λ i. 5)) after_write
unfolding pipe_init write_pass put
Reach-after_write = next here (writes (fresh (λ i. 5)) user (λ i. false) 100 3 0 (returns 3) _ refl)

fresh-queue_example : Carries after_write
fresh-queue_example = fresh-queue (λ i. 5) Reach-after_write

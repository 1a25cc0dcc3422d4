-- ===== src/Pipe/Fifo.antt =====
-- A pipe of kernel/pipe.c under concurrent readers and writers: each pass under `pi->lock` is a
-- step, in any order, and the pipe is a queue of at most PIPESIZE bytes.
use os_assignments.Prelude.{
  ℕ, ◌+◌, ◌-◌, ◌^◌, ◌≤◌, ◌<◌, ◌≡◌, refl, sym, ap, ◌∙◌, Bool, true, false, Option, ◌⊎◌, inl, inr,
  arith, List, [], ◌∷◌, ◌++◌, append-nil, append_assoc, length,
}
use mathlib.Core.Path.{subst}
use os_assignments.Pipe.{
  Pipe, pipe_size, pipe_init, Outcome, sleeps, returns, fails, progress, piperead, pipeclose,
}
use os_assignments.Pipe.Steps.{
  State, fault_at, Step, writes, reads, closes, Reach, here, next, Delivers, none_yet, delivers,
  loses, Delivers-all,
}
use os_assignments.Pipe.Ring.{IsValid, count, contents, length-window}
use os_assignments.Pipe.Write.{chunk, Wrote, write_pass-Wrote}
use os_assignments.Pipe.Read.{ReadPass, piperead-ReadPass, piperead-eof}

pipeclose-bytes :
    (p : Pipe) (end : Bool)
    → ((pipeclose p end).0.buffer ≡ p.buffer)
      × ((pipeclose p end).0.nread ≡ p.nread)
      × ((pipeclose p end).0.nwrite ≡ p.nwrite)
unfolding pipeclose
pipeclose-bytes p end = ground arith

pub record IsFifo (s : State) : Type 0 where
  pub valid : IsValid s.pipe
  pub taken : List ℕ
  pub queue : s.sent ≡ taken ++ contents s.pipe
  pub lost : ℕ
  pub delivery : Delivers taken s.received lost
  pub few : lost ≤ s.faults

module _ {s : State} (fifo : IsFifo s) where
  writes-IsFifo :
      (user : ℕ → Option ℕ) (killed : ℕ → Bool) (addr k i : ℕ) (o : Outcome) (p : Pipe)
      → Wrote user killed addr k i s.pipe o p
      → IsFifo (record s { pipe = p; sent = s.sent ++ chunk user (addr + i) (progress o - i) })
  writes-IsFifo user killed addr k i o p w = record {
    valid = w.valid;
    queue =
        ap (λ (xs : List ℕ). xs ++ chunk user (addr + i) (progress o - i)) fifo.queue
        ∙ append_assoc fifo.taken (contents s.pipe) (chunk user (addr + i) (progress o - i))
        ∙ ap (λ (xs : List ℕ). fifo.taken ++ xs) (sym w.bytes);
    taken = fifo.taken;
    lost = fifo.lost;
    delivery = fifo.delivery;
    few = fifo.few;
  }

  -- A pass that has taken `got`, and then `lost` at a fault.
  after_read :
      (writable : ℕ → Bool) (addr n j : ℕ) (got lost : List ℕ) (p : Pipe)
      → IsValid p
      → contents s.pipe ≡ got ++ (lost ++ contents p)
      → (lost ≡ []) ⊎ ((length lost ≡ 1) × (writable (addr + j) ≡ false))
      → IsFifo (record s {
        pipe = p;
        received = s.received ++ got;
        faults = s.faults + fault_at writable addr (returns j);
      })
  after_read writable addr n j got [] p v bytes why = record {
    valid = v;
    taken = fifo.taken ++ got;
    queue =
        fifo.queue
        ∙ ap (λ (xs : List ℕ). fifo.taken ++ xs) bytes
        ∙ sym (append_assoc fifo.taken got (contents p));
    lost = fifo.lost;
    delivery = delivers got fifo.delivery;
    few = (let few = fifo.few in omega arith);
  }
  after_read writable addr n j got (z ∷ []) p v bytes (inl e) = absurd (ground (arith, e))
  after_read writable addr n j got (z ∷ []) p v bytes (inr (one, fault)) = record {
    valid = v;
    taken = (fifo.taken ++ got) ++ z ∷ [];
    queue =
        fifo.queue
        ∙ ap (λ (xs : List ℕ). fifo.taken ++ xs) bytes
        ∙ sym (append_assoc fifo.taken got (z ∷ contents p))
        ∙ sym (append_assoc (fifo.taken ++ got) (z ∷ []) (contents p));
    lost = fifo.lost + 1;
    delivery = loses z (delivers got fifo.delivery);
    few = (let few = fifo.few in rw fault (omega arith));
  }
  after_read writable addr n j got (z ∷ y ∷ l) p v bytes (inl e) = absurd (ground (arith, e))
  after_read writable addr n j got (z ∷ y ∷ l) p v bytes (inr (one, fault)) =
      absurd (omega (arith, one))

  nothing_new :
      (k : ℕ) (got : List ℕ) (p : Pipe)
      → got ≡ []
      → p ≡ s.pipe
      → IsFifo (record s { pipe = p; received = s.received ++ got; faults = s.faults + 0 })
  nothing_new k got p none_got same =
      rw (none_got, same, append-nil)
        (record {
          valid = fifo.valid;
          taken = fifo.taken;
          queue = fifo.queue;
          lost = fifo.lost;
          delivery = fifo.delivery;
          few = (let few = fifo.few in omega arith);
        })

  reads-IsFifo :
      (writable : ℕ → Bool) (killed : Bool) (addr n : ℕ) (o : Outcome) (got : List ℕ) (p : Pipe)
      → ReadPass writable addr n killed s.pipe o got p
      → IsFifo (record s {
        pipe = p;
        received = s.received ++ got;
        faults = s.faults + fault_at writable addr o;
      })
  reads-IsFifo writable killed addr n (sleeps j) got p r = nothing_new j got p r.3 r.4
  reads-IsFifo writable killed addr n (fails j) got p r = nothing_new j got p r.3 r.4
  reads-IsFifo writable killed addr n (returns j) got p r =
      after_read writable addr n j got r.0.lost p r.0.valid r.0.bytes
        (elim r.0.loss [ inl (nothing, why) ↦ inl nothing | inr fault ↦ inr fault ])

  closes-IsFifo : (end : Bool) → IsFifo (record s { pipe = (pipeclose s.pipe end).0 })
  closes-IsFifo end =
      let same = pipeclose-bytes s.pipe end in
      record {
        valid = record {
          nread_uint = omega (arith, fifo.valid.nread_uint, same.1);
          nwrite_uint = omega (arith, fifo.valid.nwrite_uint, same.2);
          held = rw (same.1, same.2) fifo.valid.held;
        };
        taken = fifo.taken;
        queue = rw (same.0, same.1, same.2) fifo.queue;
        lost = fifo.lost;
        delivery = fifo.delivery;
        few = fifo.few;
      }

pub Step-IsFifo : {s t : State} → Step s t → IsFifo s → IsFifo t
Step-IsFifo (writes s user killed addr k i o p e) fifo =
    writes-IsFifo fifo user killed addr k i o p (
      subst (λ (r : Outcome × Pipe). Wrote user killed addr k i s.pipe r.0 r.1) e
        (write_pass-Wrote user killed addr k i s.pipe fifo.valid))
Step-IsFifo (reads s writable killed addr n o got p e) fifo =
    reads-IsFifo fifo writable killed addr n o got p (
      subst (λ (r : Outcome × List ℕ × Pipe). ReadPass writable addr n killed s.pipe r.0 r.1 r.2) e
        (piperead-ReadPass writable addr killed n s.pipe fifo.valid))
Step-IsFifo (closes s end) fifo = closes-IsFifo fifo end

-- However readers, writers and closers take turns, the bytes sent are the bytes taken out followed by
-- those that the pipe holds, in order; those taken out have been received but for at most one for
-- each read that has stopped at a fault; and the pipe holds at most PIPESIZE, its counters in range.
pub Reach-IsFifo : {s t : State} → IsFifo s → Reach s t → IsFifo t
Reach-IsFifo h here = h
Reach-IsFifo h (next r st) = Step-IsFifo st (Reach-IsFifo h r)

-- A pipe as `pipealloc` makes it.
abbrev pub fresh : (ℕ → ℕ) → State
fresh junk = record { pipe = pipe_init junk; sent = []; received = []; faults = 0 }

fresh-IsFifo : (junk : ℕ → ℕ) → IsFifo (fresh junk)
unfolding pipe_init
fresh-IsFifo junk = record {
  valid = record { nread_uint = omega arith; nwrite_uint = omega arith; held = omega arith };
  taken = [];
  queue = refl;
  lost = 0;
  delivery = none_yet;
  few = omega arith;
}

-- What the pipe has carried.
pub record Carries (t : State) : Type 0 where
  pub taken : List ℕ
  pub lost : ℕ
  pub queue : t.sent ≡ taken ++ contents t.pipe
  pub delivery : Delivers taken t.received lost
  pub few : lost ≤ t.faults
  pub whole : t.faults ≡ 0 → t.sent ≡ t.received ++ contents t.pipe
  pub bounded : length (contents t.pipe) ≤ pipe_size
  pub ends :
      (killed : Bool) (addr n : ℕ)
      → 0 < n
      → n < 2 ^ 31
      → (piperead (λ a. true) killed addr n t.pipe).0 ≡ returns 0
      → (t.pipe.writeopen ≡ false) × (t.sent ≡ taken)

-- From a new pipe on, whatever the order of passes and closes: what was sent has been taken out or is held, in
-- order, and no more than PIPESIZE bytes are held; what was taken out has been received, in order,
-- but for at most one byte for each read that stopped at an address that is not mapped, and
-- without such a read all of it; and where a read of a positive number of bytes into mapped memory
-- returns 0, the write end is closed and everything sent has been taken out.
pub fresh-queue : (junk : ℕ → ℕ) {t : State} → Reach (fresh junk) t → Carries t
fresh-queue junk {t} r =
    let fifo = Reach-IsFifo (fresh-IsFifo junk) r in
    record {
      taken = fifo.taken;
      lost = fifo.lost;
      queue = fifo.queue;
      delivery = fifo.delivery;
      few = fifo.few;
      whole = λ mapped.
          fifo.queue
          ∙ ap (λ (xs : List ℕ). xs ++ contents t.pipe)
              (Delivers-all fifo.delivery (let few = fifo.few in omega (arith, mapped)));
      bounded =
          omega (arith, length-window t.pipe.buffer t.pipe.nread (count t.pipe), fifo.valid.held);
      ends = λ killed addr n pos small e.
          let end = piperead-eof addr n killed fifo.valid pos small e in
          (
            end.0,
            fifo.queue ∙ ap (λ (xs : List ℕ). fifo.taken ++ xs) end.1 ∙ append-nil fifo.taken,
          );
    }

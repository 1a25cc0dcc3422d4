-- ===== src/Proc/Born.antt =====
-- `kill` of process id 0 in kernel/proc.c: it finds a free slot of the table, and the process that
-- `fork` makes there later is killed from its start.
use os_assignments.Prelude.{
  ℕ, ◌<◌, ◌≡◌, ◌≢◌, refl, sym, ap, ◌∙◌, Bool, true, false, Option, none, some, inl, inr, ◌↔◌, arith,
  Bool-cases, ltb, ltb→lt, ltb_false→le,
}
use mathlib.Core.Path.{subst}
use os_assignments.Proc.{unused, runnable, Proc, Kernel, nproc, kill, fork}
use os_assignments.Proc.Fork.{Child, Forks, fork-Forks}
use os_assignments.Proc.Wake.{Kills, kill-Kills}

-- Process ids mark the slots in use, as `allocpid` from 1 on and `freeproc` keep them.
abbrev pub Marked : Kernel → Type 0
Marked k = (i : ℕ) → i < nproc → ((k.proc i).pid ≡ 0) ↔ ((k.proc i).state ≡ unused)

-- The result of a `fork` is a child that is killed already.
abbrev pub BornKilled : Kernel → Option ℕ × Kernel → Type 0
BornKilled k (o, k') =
    (o ≡ some k.nextpid)
    × ((i : ℕ) × ((k'.proc i).pid ≡ k.nextpid)
        × ((k'.proc i).state ≡ runnable)
        × ((k'.proc i).killed ≡ true))

module _ (me : ℕ) (k : Kernel) (marked : Marked k) (alive : (k.proc me).state ≢ unused) where
  module _ (k1 : Kernel) (kills : Kills 0 k (true, k1)) where
    slot : ℕ
    slot = kills.0

    slot_facts :
        (slot < nproc)
        × ((k1.proc slot).state ≡ unused)
        × ((k1.proc slot).killed ≡ true)
        × (slot ≢ me)
    unfolding slot
    slot_facts =
        let free : (k.proc slot).state ≡ unused = (marked kills.0 kills.1).0 kills.2 in
        (
          kills.1,
          kills.6 (λ e. cc) ∙ free,
          kills.4,
          λ e. alive (subst (λ (j : ℕ). (k.proc j).state ≡ unused) e free),
        )

    before : (j : ℕ) → j < slot → (k1.proc j).state ≢ unused
    unfolding slot
    before j lt e = kills.3 j lt (
        (marked j (omega (arith, kills.1))).1
          (sym (ap (λ (p : Proc). p.state) (kills.8 j (λ s. absurd (omega (arith, s))))) ∙ e))

    -- The first free slot is the one that `kill` has marked.
    first : (i : ℕ) (k2 : Kernel) → Child me i k1 k2 → i ≡ slot
    first i k2 c = elim (Bool-cases (ltb i slot)) [
      | inl lt ↦ absurd (before i (ltb→lt i slot lt) c.free)
      | inr ge ↦ elim (Bool-cases (ltb slot i)) [
        | inl gt ↦ ground (arith, c.first slot, slot_facts.1)
        | inr le ↦ omega (arith, ltb_false→le i slot ge, ltb_false→le slot i le)
      ]
    ]

    alive1 : (k1.proc me).state ≢ unused
    unfolding slot
    alive1 e = alive (sym (ap (λ (p : Proc). p.state) (kills.8 me (λ s. slot_facts.3 (sym s)))) ∙ e)

    born :
        (frame table : ℕ) (r : Option ℕ × Kernel)
        → frame ≢ 0
        → table ≢ 0
        → Forks frame table true me k1 r
        → BornKilled k1 r
    born frame table (some pid, k2) f t (e, _, _, _, (i, c)) = (
      ap some e,
      (
        i,
        c.pid,
        c.state,
        c.killed ∙ ap (λ (j : ℕ). (k1.proc j).killed) (first i k2 c) ∙ slot_facts.2,
      ),
    )
    born frame table (none, k2) f t (inl (none_free, _)) =
        ground (arith, none_free slot slot_facts.0, slot_facts.1)
    born frame table (none, k2) f t (inr (why, _)) = ground arith

  killed_zero :
      (frame table : ℕ) (r : Bool × Kernel)
      → frame ≢ 0
      → table ≢ 0
      → (free : ℕ) → free < nproc
      → (k.proc free).state ≡ unused
      → Kills 0 k r
      → (r.0 ≡ true) × BornKilled r.1 (fork frame table true me r.1)
  killed_zero frame table (true, k1) f t free lt e kills = (
    refl,
    born k1 kills frame table (fork frame table true me k1) f t
        (fork-Forks frame table true me k1 (alive1 k1 kills)),
  )
  killed_zero frame table (false, k1) f t free lt e kills =
      absurd (kills.0 free lt ((marked free lt).1 e))

-- Where a slot of the table is free, `kill(0)` returns 0, and the next `fork` of a live process
-- makes a runnable child that is killed already. Memory does not run out.
pub kill-fork :
    (me frame table free : ℕ) (k : Kernel)
    → Marked k
    → (k.proc me).state ≢ unused
    → frame ≢ 0
    → table ≢ 0
    → free < nproc
    → (k.proc free).state ≡ unused
    → ((kill 0 k).0 ≡ true) × BornKilled (kill 0 k).1 (fork frame table true me (kill 0 k).1)
kill-fork me frame table free k marked alive f t lt e =
    killed_zero me k marked alive frame table (kill 0 k) f t free lt e (kill-Kills 0 k)

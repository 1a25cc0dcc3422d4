-- ===== src/Proc/Life/Exit.antt =====
-- `exit` of kernel/proc.c.
use os_assignments.Prelude.{
  ℕ, ◌<◌, ◌≡◌, ◌≢◌, sym, ap, ◌∙◌, Option, none, some, inl, inr, ◌==◌, arith, [], ◌∷◌, ◌++◌,
  Bool-cases, map_from,
}
use mathlib.Core.Path.{subst}
use os_assignments.Proc.{
  runnable, zombie, process, Proc, Kernel, nproc, nofile, put_proc, wakeup, log_calls, iput,
  begin_op, end_op,
}
use os_assignments.Proc.Life.{reparent, exit, parent_channel, close_calls}
use os_assignments.Proc.Life.Reparent.{
  Kept, WakesAt, Kept-trans, wakeup-Kept, wakeup-WakesAt, wakeup-rest, adopted, Reparented,
  reparent_loop-Reparented,
}

-- What `exit` of process `me` with `status` has done.
pub record Exited (me status : ℕ) (k r : Kernel) : Type 0 where
  pub state : (r.proc me).state ≡ zombie
  pub xstate : (r.proc me).xstate ≡ status
  pub pid : (r.proc me).pid ≡ (k.proc me).pid
  pub parent : (j : ℕ) → j < nproc → (r.proc j).parent ≡ adopted me k.initproc (k.proc j).parent
  pub others : (j : ℕ) → j ≢ me → Kept (k.proc j) (r.proc j)
  pub wakes_parent :
      (q : ℕ)
      → q < nproc
      → q ≢ me
      → (k.proc me).parent ≡ some q
      → WakesAt (process q) (k.proc q) (r.proc q)
  pub wakes_init :
      (j : ℕ)
      → j < nproc
      → (k.proc j).parent ≡ some me
      → k.initproc < nproc
      → WakesAt (process k.initproc) (k.proc k.initproc) (r.proc k.initproc)
  pub rest : (r.nextpid ≡ k.nextpid) × (r.initproc ≡ k.initproc)

module _ (me status : ℕ) (k : Kernel) (lt : me < nproc) (ne : me ≢ k.initproc)
    (root : (k.proc me).parent ≢ some me) where
  abbrev closed : Kernel
  closed =
      log_calls
        (close_calls nofile 0 (k.proc me).ofile ++ (begin_op ∷ iput (k.proc me).cwd ∷ end_op ∷ []))
        (put_proc me
          (record (k.proc me) { ofile = map_from nofile 0 (λ fd f. 0) (k.proc me).ofile; cwd = 0 })
          k)

  closed-Kept :
      (j : ℕ) → Kept (k.proc j) (closed.proc j) × ((closed.proc j).parent ≡ (k.proc j).parent)
  closed-Kept j = (
    record {
      pid = ground arith;
      chan = ground arith;
      killed = ground arith;
      state = inl (ground arith);
    },
    ground arith,
  )

  abbrev moved : Kernel
  moved = reparent me closed

  moved-Reparented : Reparented nproc 0 me closed moved
  unfolding reparent
  moved-Reparented = reparent_loop-Reparented me nproc 0 closed

  moved-parent :
      (j : ℕ) → j < nproc → (moved.proc j).parent ≡ adopted me k.initproc (k.proc j).parent
  moved-parent j lt' = ground (arith, moved-Reparented.parent j, closed-Kept j)

  abbrev woken : Kernel
  woken = wakeup me (parent_channel (moved.proc me).parent) moved

  woken-Kept : (j : ℕ) → Kept (k.proc j) (woken.proc j)
  woken-Kept j = Kept-trans (closed-Kept j).0 (
      Kept-trans (moved-Reparented.kept j)
        (wakeup-Kept me (parent_channel (moved.proc me).parent) moved j).0)

  abbrev ended : Kernel
  ended = put_proc me (record (woken.proc me) { xstate = status; state = zombie }) woken

  exits : exit me status k ≡ some ended
  unfolding exit
  exits = ground arith

  ended-other : (j : ℕ) → j ≢ me → ended.proc j ≡ woken.proc j
  ended-other j ne' = ground arith

  parent_awake :
      (q : ℕ)
      → q < nproc
      → q ≢ me
      → (k.proc me).parent ≡ some q
      → WakesAt (process q) (k.proc q) (woken.proc q)
  parent_awake q lt' ne' e asleep on =
      let c = parent_channel (moved.proc me).parent in
      let parent : (moved.proc me).parent ≡ some q = ground (arith, moved-parent me lt, e) in
      let on_c : c ≡ process q = ap parent_channel parent in
      let before = Kept-trans (closed-Kept q).0 (moved-Reparented.kept q) in
      elim before.state [
        | inl same ↦
            wakeup-WakesAt me c moved q lt' ne' (same ∙ asleep) (before.chan ∙ on ∙ sym on_c)
        | inr up ↦ ground (arith, (wakeup-Kept me c moved q).0.state, up.1)
      ]

  init_awake :
      (j : ℕ)
      → j < nproc
      → (k.proc j).parent ≡ some me
      → k.initproc < nproc
      → WakesAt (process k.initproc) (k.proc k.initproc) (woken.proc k.initproc)
  init_awake j lt' e lt'' asleep on =
      let init = k.initproc in
      let c = parent_channel (moved.proc me).parent in
      let up : (moved.proc init).state ≡ runnable =
        moved-Reparented.woken j (omega arith) lt' ((closed-Kept j).1 ∙ e) lt'' (λ s. ne (sym s))
          (ground (arith, asleep)) (ground (arith, on)) in
      ground (arith, (wakeup-Kept me c moved init).0.state, up)

  ended-Exited : Exited me status k ended
  ended-Exited =
      let c = parent_channel (moved.proc me).parent in
      record {
        state = ground arith;
        xstate = ground arith;
        pid = ground (arith, (woken-Kept me).pid);
        parent = λ j lt'. ground (arith, moved-parent j lt', wakeup-Kept me c moved j);
        others = λ j ne'. subst (Kept (k.proc j)) (sym (ended-other j ne')) (woken-Kept j);
        wakes_parent = λ q lt' ne' e. λ asleep on.
            ap (λ (p : Proc). p.state) (ended-other q ne') ∙ parent_awake q lt' ne' e asleep on;
        wakes_init = λ j lt' e lt''. λ asleep on.
            ap (λ (p : Proc). p.state) (ended-other k.initproc (λ s. ne (sym s)))
            ∙ init_awake j lt' e lt'' asleep on;
        rest = ground (arith, wakeup-rest me c moved, moved-Reparented.rest);
      }

exit-none : (me status : ℕ) (k : Kernel) → me ≡ k.initproc → exit me status k ≡ none
unfolding exit
exit-none me status k e = ground arith

-- What `exit` may do.
abbrev pub Exits : (me status : ℕ) → Kernel → Option Kernel → Type 0
Exits me status k none = me ≡ k.initproc
Exits me status k (some r) = (me ≢ k.initproc) × Exited me status k r

-- `exit` panics exactly for the first process. Else the caller is a zombie with its status, keeping
-- its id; its children, and nobody else, have the first process as parent; no other process
-- changes but by being woken; its parent is woken if it waits, and so is the first process if it
-- was given a child. The caller is not its own parent.
pub exit-Exits :
    (me status : ℕ) (k : Kernel)
    → me < nproc
    → (k.proc me).parent ≢ some me
    → Exits me status k (exit me status k)
exit-Exits me status k lt root = elim (Bool-cases (me == k.initproc)) [
  | inl init ↦ rw (exit-none me status k (ground arith)) (ground arith)
  | inr other ↦
      let ne : me ≢ k.initproc = ground arith in
      rw (exits me status k lt ne root) (ne, ended-Exited me status k lt ne root)
]

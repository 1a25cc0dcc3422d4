-- ===== src/Proc/Tree/Changes.antt =====
-- The operations of kernel/proc.c that make, end and free a process keep the process tree.
use os_assignments.Prelude.{
  ℕ, ◌+◌, ◌≤◌, ◌<◌, ◌≡◌, ◌≢◌, sym, ap, ◌∙◌, Bool, Option, none, some, inl, inr, ◌==◌, ◌↔◌, arith,
  word, Bool-cases, ==→eq, ==_false→ne,
}
use mathlib.Core.Path.{subst}
use os_assignments.Proc.{unused, running, Proc, Kernel, nproc, cleared}
use os_assignments.Proc.Fork.{OnlyAt, Child, Failed, Forks}
use os_assignments.Proc.Life.{Waited, reaped, no_child, no_copy, wait_sleeps, is_child}
use os_assignments.Proc.Life.Exit.{Exited}
use os_assignments.Proc.Life.Wait.{Waits}
use os_assignments.Proc.Tree.{IsLive, IsTree}

-- Slot `i`, which holds no live process, gets a new content.
module _ (k r : Kernel) (t : IsTree k) (i : ℕ) (only : OnlyAt i k r)
    (init_kept : r.initproc ≡ k.initproc) (dead : ¬ IsLive (k.proc i))
    (parent_ok : (q : ℕ) → (r.proc i).parent ≡ some q → (q < nproc) × IsLive (k.proc q))
    (marked_ok : ((r.proc i).pid ≡ 0) ↔ ((r.proc i).state ≡ unused))
    (pid_ok : (j : ℕ) → j < nproc → j ≢ i → (k.proc j).pid ≡ (r.proc i).pid → (r.proc i).pid ≡ 0)
    (below_ok : (r.proc i).pid < r.nextpid) (grows : k.nextpid ≤ r.nextpid) where
  stays : (q : ℕ) → IsLive (k.proc q) → IsLive (r.proc q)
  stays q l = elim (Bool-cases (q == i)) [
    | inl same ↦ absurd (dead (subst (λ (j : ℕ). IsLive (k.proc j)) (==→eq q i same) l))
    | inr other ↦ subst IsLive (sym (only q (==_false→ne q i other))) l
  ]

  pid_of : (j : ℕ) → j ≢ i → (r.proc j).pid ≡ (k.proc j).pid
  pid_of j ne = ap (λ (p : Proc). p.pid) (only j ne)

  replaced_parents :
      (j : ℕ) → j < nproc → (q : ℕ) → (r.proc j).parent ≡ some q → (q < nproc) × IsLive (r.proc q)
  replaced_parents j lt q e = elim (Bool-cases (j == i)) [
    | inl same ↦
        let p = parent_ok q (ap (λ (a : ℕ). (r.proc a).parent) (sym (==→eq j i same)) ∙ e) in
        (p.0, stays q p.1)
    | inr other ↦
        let kept = ap (λ (p : Proc). p.parent) (only j (==_false→ne j i other)) in
        let p = t.parents j lt q (sym kept ∙ e) in (p.0, stays q p.1)
  ]

  replaced_marked : (j : ℕ) → j < nproc → ((r.proc j).pid ≡ 0) ↔ ((r.proc j).state ≡ unused)
  replaced_marked j lt = elim (Bool-cases (j == i)) [
    | inl same ↦
        subst (λ (a : ℕ). ((r.proc a).pid ≡ 0) ↔ ((r.proc a).state ≡ unused)) (sym (==→eq j i same))
          marked_ok
    | inr other ↦
        subst (λ (p : Proc). (p.pid ≡ 0) ↔ (p.state ≡ unused))
          (sym (only j (==_false→ne j i other))) (t.marked j lt)
  ]

  replaced_unique :
      (a b : ℕ)
      → a < nproc
      → b < nproc
      → (r.proc a).pid ≡ (r.proc b).pid
      → (r.proc a).pid ≢ 0
      → a ≡ b
  replaced_unique a b al bl e ne = elim (Bool-cases (a == i)) [
    | inl same ↦ elim (Bool-cases (b == i)) [
      | inl same' ↦ ==→eq a i same ∙ sym (==→eq b i same')
      | inr other ↦
          let here = ap (λ (j : ℕ). (r.proc j).pid) (==→eq a i same) in
          let bne = ==_false→ne b i other in
          absurd (ne (here ∙ pid_ok b bl bne (sym (pid_of b bne) ∙ sym e ∙ here)))
    ]
    | inr other ↦
        let ane = ==_false→ne a i other in
        elim (Bool-cases (b == i)) [
          | inl same' ↦
              let here = ap (λ (j : ℕ). (r.proc j).pid) (==→eq b i same') in
              absurd (ne (e ∙ here ∙ pid_ok a al ane (sym (pid_of a ane) ∙ e ∙ here)))
          | inr other' ↦
              let bne = ==_false→ne b i other' in
              t.unique a b al bl (sym (pid_of a ane) ∙ e ∙ pid_of b bne)
                (λ z. ne (pid_of a ane ∙ z))
        ]
  ]

  replaced_below : (j : ℕ) → j < nproc → (r.proc j).pid < r.nextpid
  replaced_below j lt = elim (Bool-cases (j == i)) [
    | inl same ↦ omega (arith, ap (λ (a : ℕ). (r.proc a).pid) (==→eq j i same))
    | inr other ↦ omega (arith, pid_of j (==_false→ne j i other), t.below j lt)
  ]

  pub replace-IsTree : IsTree r
  replace-IsTree = record {
    init = rw init_kept (t.init.0, stays k.initproc t.init.1);
    parents = replaced_parents;
    proper = λ j lt. elim (Bool-cases (j == i)) [
      | inl same ↦ λ e.
          let at = ==→eq j i same in
          dead (parent_ok i (ap (λ (a : ℕ). (r.proc a).parent) (sym at) ∙ e ∙ ap some at)).1
      | inr other ↦ λ e.
          t.proper j lt (sym (ap (λ (p : Proc). p.parent) (only j (==_false→ne j i other))) ∙ e)
    ];
    root = rw init_kept (
        ap (λ (p : Proc). p.parent)
          (only k.initproc (λ e. dead (subst (λ (a : ℕ). IsLive (k.proc a)) e t.init.1)))
        ∙ t.root);
    marked = replaced_marked;
    unique = replaced_unique;
    below = replaced_below;
    started = omega (arith, t.started);
  }

module _ {k : Kernel} (t : IsTree k) where
  Child-IsTree :
      (me i : ℕ) (r : Kernel)
      → me < nproc
      → (k.proc me).state ≡ running
      → k.nextpid + 1 < word
      → Child me i k r
      → IsTree r
  Child-IsTree me i r lt runs small c =
      replace-IsTree k r t i c.others c.init (λ l. l.0 c.free)
        (λ q e.
          subst (λ (j : ℕ). (j < nproc) × IsLive (k.proc j)) (some_eq (sym c.parent ∙ e))
            (lt, ((λ u. cc (runs, u)), λ z. cc (runs, z))))
        ((λ e. absurd (omega (arith, e, c.pid, t.started))), λ e. cc (c.state))
        (λ j jl ne e. absurd (omega (arith, e, c.pid, t.below j jl))) (omega (arith, c.pid, c.next))
        (omega (arith, c.next))
    where
      some_eq : {a b : ℕ} → some a ≡ some b → a ≡ b
      some_eq e = cc

  Failed-IsTree : (i : ℕ) (r : Kernel) → k.nextpid + 1 < word → Failed i k r → IsTree r
  Failed-IsTree i r small f =
      replace-IsTree k r t i f.others f.init (λ l. l.0 f.free) (λ q e. cc (f.parent))
        ((λ e. f.state), λ e. f.pid) (λ j jl ne e. f.pid) (omega (arith, f.pid, f.next))
        (omega (arith, f.next))

  pub fork-IsTree :
      (frame table me : ℕ) (copied : Bool) (r : Option ℕ × Kernel)
      → me < nproc
      → (k.proc me).state ≡ running
      → k.nextpid + 1 < word
      → Forks frame table copied me k r
      → IsTree r.1
  fork-IsTree frame table me copied (some pid, r) lt runs small (_, _, _, _, (i, c)) =
      Child-IsTree me i r lt runs small c
  fork-IsTree frame table me copied (none, r) lt runs small (inl (_, e)) = subst IsTree (sym e) t
  fork-IsTree frame table me copied (none, r) lt runs small (inr (_, (i, f))) =
      Failed-IsTree i r small f

  -- `wait` frees a zombie, which has no children.
  pub wait-IsTree :
      (me addr : ℕ) (copyout : Bool) (r : Waited × Kernel)
      → (r.1.nextpid ≡ k.nextpid) × (r.1.initproc ≡ k.initproc)
      → Waits me addr copyout k r
      → IsTree r.1
  unfolding cleared
  wait-IsTree me addr copyout (reaped pid, r) rest (_, (i, lt, dead, e, c, only)) =
      replace-IsTree k r t i only rest.1 (λ l. l.1 dead.1) (λ q h. cc c)
        ((λ h. ap (λ (p : Proc). p.state) c), λ h. ap (λ (p : Proc). p.pid) c)
        (λ j jl ne h. ap (λ (p : Proc). p.pid) c)
        (omega (arith, ap (λ (p : Proc). p.pid) c, rest.0, t.started)) (omega (arith, rest.0))
  wait-IsTree me addr copyout (no_copy, r) rest w = subst IsTree (sym w.0) t
  wait-IsTree me addr copyout (no_child, r) rest w = subst IsTree (sym w.0) t
  wait-IsTree me addr copyout (wait_sleeps, r) rest w = subst IsTree (sym w.0) t

  exit-live :
      (me status : ℕ) (r : Kernel)
      → Exited me status k r
      → (q : ℕ) → q ≢ me
      → IsLive (k.proc q)
      → IsLive (r.proc q)
  exit-live me status r x q ne l = ground (arith, (x.others q ne).state)

  exit-pid :
      (me status : ℕ) (r : Kernel)
      → Exited me status k r
      → (j : ℕ) → (r.proc j).pid ≡ (k.proc j).pid
  exit-pid me status r x j = elim (Bool-cases (j == me)) [
    | inl same ↦ subst (λ (a : ℕ). (r.proc a).pid ≡ (k.proc a).pid) (sym (==→eq j me same)) x.pid
    | inr other ↦ (x.others j (==_false→ne j me other)).pid
  ]

  exit-parents :
      (me status : ℕ) (r : Kernel)
      → me ≢ k.initproc
      → Exited me status k r
      → (j : ℕ) → j < nproc
      → (q : ℕ) → (r.proc j).parent ≡ some q
      → (q < nproc) × IsLive (r.proc q)
  exit-parents me status r ne x j lt q e = elim (Bool-cases (is_child (k.proc j).parent me)) [
    | inl moved ↦
        let at : k.initproc ≡ q = ground (arith, x.parent j lt, e) in
        subst (λ (a : ℕ). (a < nproc) × IsLive (r.proc a)) at
          (t.init.0, exit-live me status r x k.initproc (λ s. ne (sym s)) t.init.1)
    | inr kept ↦
        let old : (k.proc j).parent ≡ some q = ground (arith, x.parent j lt, e) in
        let qne : q ≢ me = λ s. ground (arith, old, kept) in
        let p = t.parents j lt q old in (p.0, exit-live me status r x q qne p.1)
  ]

  pub exit-IsTree :
      (me status : ℕ) (r : Kernel)
      → me < nproc
      → (k.proc me).state ≡ running
      → me ≢ k.initproc
      → Exited me status k r
      → IsTree r
  exit-IsTree me status r lt runs ne x = record {
    init = rw x.rest.1 (t.init.0, exit-live me status r x k.initproc (λ s. ne (sym s)) t.init.1);
    parents = exit-parents me status r ne x;
    proper = λ j jl. ground (arith, x.parent j jl, t.proper j jl, t.root);
    root = rw x.rest.1 (ground (arith, x.parent k.initproc t.init.0, t.root));
    marked = λ j jl. elim (Bool-cases (j == me)) [
      | inl same ↦ ground (arith, x.state, x.pid, t.marked me lt, runs)
      | inr other ↦
          let kept = x.others j (==_false→ne j me other) in
          (
            λ e. ground (arith, kept.state, (t.marked j jl).0 (sym kept.pid ∙ e)),
            λ e. kept.pid ∙ (t.marked j jl).1 (ground (arith, kept.state)),
          )
    ];
    unique = λ a b al bl e z.
        let pid = exit-pid me status r x in
        t.unique a b al bl (sym (pid a) ∙ e ∙ pid b) (λ w. z (pid a ∙ w));
    below = λ j jl. omega (arith, exit-pid me status r x j, t.below j jl, x.rest.0);
    started = omega (arith, t.started, x.rest.0);
  }

-- ===== src/Proc/Life/Reparent.antt =====
-- `reparent` of kernel/proc.c, with the wake-ups that it makes.
use os_assignments.Prelude.{
  ℕ, zero, suc, ◌+◌, ◌≤◌, ◌<◌, ◌≡◌, ◌≢◌, refl, ap, ◌∙◌, true, false, Option, none, some, ◌⊎◌, inl,
  inr, ◌==◌, arith, if◌then◌else◌, ◌&&◌, leb, ltb, Bool-cases, map_from-get,
}
use os_assignments.Proc.{
  sleeping, runnable, Channel, process, Proc, Kernel, nproc, put_proc, wake_one, wakeup,
}
use os_assignments.Proc.Wake.{same_channel_refl}
use os_assignments.Proc.Life.{is_child, reparent_loop}

-- A process that was at most woken.
pub record Kept (p p' : Proc) : Type 0 where
  pub pid : p'.pid ≡ p.pid
  pub chan : p'.chan ≡ p.chan
  pub killed : p'.killed ≡ p.killed
  pub state : (p'.state ≡ p.state) ⊎ ((p.state ≡ sleeping) × (p'.state ≡ runnable))

-- A process that sleeps on `c` was woken.
abbrev pub WakesAt : Channel → Proc → Proc → Type 0
WakesAt c p p' = p.state ≡ sleeping → p.chan ≡ c → p'.state ≡ runnable

pub Kept-refl : (p : Proc) → Kept p p
Kept-refl p = record { pid = refl; chan = refl; killed = refl; state = inl refl }

pub Kept-trans : {p q r : Proc} → Kept p q → Kept q r → Kept p r
Kept-trans h h' = record {
  pid = h'.pid ∙ h.pid;
  chan = h'.chan ∙ h.chan;
  killed = h'.killed ∙ h.killed;
  state = ground (arith, h.state, h'.state);
}

module _ (me : ℕ) (c : Channel) (k : Kernel) where
  pub wakeup-Kept :
      (j : ℕ)
      → Kept (k.proc j) ((wakeup me c k).proc j)
        × (((wakeup me c k).proc j).parent ≡ (k.proc j).parent)
        × (((wakeup me c k).proc j).xstate ≡ (k.proc j).xstate)
  unfolding wakeup wake_one
  wakeup-Kept j =
      let here = map_from-get nproc 0 (wake_one me c) k.proc j in
      (
        record {
          pid = ground (arith, here);
          chan = ground (arith, here);
          killed = ground (arith, here);
          state = ground (arith, here);
        },
        ground (arith, here),
        ground (arith, here),
      )

  pub wakeup-WakesAt : (j : ℕ) → j < nproc → j ≢ me → WakesAt c (k.proc j) ((wakeup me c k).proc j)
  unfolding wakeup wake_one
  wakeup-WakesAt j lt ne asleep on =
      ground (arith, map_from-get nproc 0 (wake_one me c) k.proc j, same_channel_refl c)

  pub wakeup_self : (wakeup me c k).proc me ≡ k.proc me
  unfolding wakeup wake_one
  wakeup_self = ground (arith, map_from-get nproc 0 (wake_one me c) k.proc me)

  pub wakeup-rest : ((wakeup me c k).nextpid ≡ k.nextpid) × ((wakeup me c k).initproc ≡ k.initproc)
  unfolding wakeup
  wakeup-rest = (refl, refl)

-- Who is the parent of a process with parent `o`, when the children of `me` go to `init`.
abbrev pub adopted : (me init : ℕ) → Option ℕ → Option ℕ
adopted me init o = if is_child o me then some init else o

-- What `reparent` has done to the `n` processes from `i` on.
pub record Reparented (n i me : ℕ) (k r : Kernel) : Type 0 where
  pub kept : (j : ℕ) → Kept (k.proc j) (r.proc j)
  pub parent :
      (j : ℕ)
      → (r.proc j).parent ≡ (
          if leb i j && ltb j (i + n)
          then adopted me k.initproc (k.proc j).parent
          else (k.proc j).parent)
  pub self : (r.proc me).state ≡ (k.proc me).state
  pub woken :
      (j : ℕ)
      → i ≤ j
      → j < i + n
      → (k.proc j).parent ≡ some me
      → k.initproc < nproc
      → k.initproc ≢ me
      → WakesAt (process k.initproc) (k.proc k.initproc) (r.proc k.initproc)
  pub rest : (r.nextpid ≡ k.nextpid) × (r.initproc ≡ k.initproc)

module _ (me : ℕ) where
  -- One round at a child.
  adopt : ℕ → Kernel → Kernel
  adopt i k =
      wakeup me (process k.initproc) (put_proc i (record (k.proc i) { parent = some k.initproc }) k)

  adopt-Kept : (i : ℕ) (k : Kernel) (j : ℕ) → Kept (k.proc j) ((adopt i k).proc j)
  unfolding adopt
  adopt-Kept i k j =
      let k1 = put_proc i (record (k.proc i) { parent = some k.initproc }) k in
      let step : Kept (k.proc j) (k1.proc j) = record {
        pid = ground arith;
        chan = ground arith;
        killed = ground arith;
        state = inl (ground arith);
      } in
      Kept-trans step (wakeup-Kept me (process k.initproc) k1 j).0

  adopt-parent :
      (i : ℕ) (k : Kernel) (j : ℕ)
      → ((adopt i k).proc j).parent ≡ (if j == i then some k.initproc else (k.proc j).parent)
  unfolding adopt
  adopt-parent i k j = ground (
    arith,
    wakeup-Kept me (process k.initproc)
        (put_proc i (record (k.proc i) { parent = some k.initproc }) k) j,
  )

  adopt_self : (i : ℕ) (k : Kernel) → ((adopt i k).proc me).state ≡ (k.proc me).state
  unfolding adopt
  adopt_self i k =
      ap (λ (p : Proc). p.state)
        (wakeup_self me (process k.initproc)
          (put_proc i (record (k.proc i) { parent = some k.initproc }) k))
      ∙ ground arith

  adopt-WakesAt :
      (i : ℕ) (k : Kernel)
      → k.initproc < nproc
      → k.initproc ≢ me
      → WakesAt (process k.initproc) (k.proc k.initproc) ((adopt i k).proc k.initproc)
  unfolding adopt
  adopt-WakesAt i k lt ne asleep on =
      wakeup-WakesAt me (process k.initproc)
        (put_proc i (record (k.proc i) { parent = some k.initproc }) k) k.initproc lt ne
        (ground arith) (ground arith)

  adopt-rest :
      (i : ℕ) (k : Kernel) → ((adopt i k).nextpid ≡ k.nextpid) × ((adopt i k).initproc ≡ k.initproc)
  unfolding adopt
  adopt-rest i k =
      wakeup-rest me (process k.initproc)
        (put_proc i (record (k.proc i) { parent = some k.initproc }) k)

  -- A process that is awake stays so.
  pub WakesAt-Kept :
      (c : Channel) (p : Proc) {q r : Proc} → WakesAt c p q → Kept q r → WakesAt c p r
  WakesAt-Kept c p w h asleep on = ground (arith, w asleep on, h.state)

  reparent_step :
      (n i : ℕ) (k r : Kernel)
      → is_child (k.proc i).parent me ≡ true
      → Reparented n (i + 1) me (adopt i k) r
      → Reparented (suc n) i me k r
  reparent_step n i k r hit rest = record {
    kept = λ j. Kept-trans (adopt-Kept i k j) (rest.kept j);
    parent = λ j. ground (arith, rest.parent j, adopt-parent i k j, adopt-rest i k);
    self = rest.self ∙ adopt_self i k;
    woken = λ j lo hi child lt ne.
        WakesAt-Kept (process k.initproc) (k.proc k.initproc) (adopt-WakesAt i k lt ne)
          (rest.kept k.initproc);
    rest = (rest.rest.0 ∙ (adopt-rest i k).0, rest.rest.1 ∙ (adopt-rest i k).1);
  }

  child_hit : (o : Option ℕ) → o ≡ some me → is_child o me ≡ true
  child_hit none e = cc
  child_hit (some q) e = ground arith

  reparent_skip :
      (n i : ℕ) (k r : Kernel)
      → is_child (k.proc i).parent me ≡ false
      → Reparented n (i + 1) me k r
      → Reparented (suc n) i me k r
  reparent_skip n i k r miss rest = record {
    kept = rest.kept;
    parent = λ j. ground (arith, rest.parent j);
    self = rest.self;
    woken = λ j lo hi child.
        rest.woken j (ground (arith, child_hit (k.proc j).parent child)) (omega arith) child;
    rest = rest.rest;
  }

  pub reparent_loop-Reparented :
      (n i : ℕ) (k : Kernel) → Reparented n i me k (reparent_loop n i me k)
  unfolding reparent_loop adopt
  reparent_loop-Reparented zero i k = record {
    kept = λ j. Kept-refl (k.proc j);
    parent = λ j. ground arith;
    self = refl;
    woken = λ j lo hi. absurd (omega arith);
    rest = (refl, refl);
  }
  reparent_loop-Reparented (suc n) i k = elim (Bool-cases (is_child (k.proc i).parent me)) [
    | inl hit ↦ rw hit (reparent_step n i k _ hit (reparent_loop-Reparented n (i + 1) (adopt i k)))
    | inr miss ↦ rw miss (reparent_skip n i k _ miss (reparent_loop-Reparented n (i + 1) k))
  ]

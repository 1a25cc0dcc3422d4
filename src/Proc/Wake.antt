-- ===== src/Proc/Wake.antt =====
-- `wakeup` and `kill` of kernel/proc.c.
use os_assignments.Prelude.{
  ℕ, ◌<◌, ◌≡◌, ◌≢◌, refl, ◌∙◌, Bool, true, false, Option, none, some, ◌⊎◌, ◌==◌, arith, find_from,
  FindResult, inl, inr, Bool-cases, if◌then◌else◌, find_from-FindResult, map_from-get,
}
use os_assignments.Proc.{
  Proc, is_sleeping, sleeping, runnable, Channel, same_channel, nothing, process, object, Kernel,
  nproc, wake_one, wakeup, kill, kill_at,
}
use os_assignments.Proc.Fork.{OnlyAt}

pub same_channel_iff : (c d : Channel) → (same_channel c d ≡ true) → c ≡ d
same_channel_iff nothing nothing h = refl
same_channel_iff (process p) (process q) h = ground arith
same_channel_iff (object a) (object b) h = ground arith
same_channel_iff nothing (process q) h = cc
same_channel_iff nothing (object b) h = cc
same_channel_iff (process p) nothing h = cc
same_channel_iff (process p) (object b) h = cc
same_channel_iff (object a) nothing h = cc
same_channel_iff (object a) (process q) h = cc

pub same_channel_refl : (c : Channel) → same_channel c c ≡ true
same_channel_refl nothing = refl
same_channel_refl (process p) = ground arith
same_channel_refl (object a) = ground arith

pub wakeup-get :
    (me : ℕ) (c : Channel) (k : Kernel) (i : ℕ)
    → i < nproc
    → (wakeup me c k).proc i ≡ wake_one me c i (k.proc i)
unfolding wakeup
wakeup-get me c k i lt = ground (arith, map_from-get nproc 0 (wake_one me c) k.proc i)

-- `wakeup` makes runnable exactly the other processes that sleep on the channel: such a process
-- runs again with all else as it was, and every other process is untouched.
pub record Woken (me : ℕ) (c : Channel) (k k' : Kernel) : Type 0 where
  pub sleepers :
      (i : ℕ)
      → i < nproc
      → i ≢ me
      → (k.proc i).state ≡ sleeping
      → (k.proc i).chan ≡ c
      → k'.proc i ≡ record (k.proc i) { state = runnable }
  pub others :
      (i : ℕ)
      → i < nproc
      → (i ≡ me) ⊎ ((k.proc i).state ≢ sleeping) ⊎ ((k.proc i).chan ≢ c)
      → k'.proc i ≡ k.proc i
  pub rest : (k'.nextpid ≡ k.nextpid) × (k'.initproc ≡ k.initproc) × (k'.calls ≡ k.calls)

pub wakeup-Woken : (me : ℕ) (c : Channel) (k : Kernel) → Woken me c k (wakeup me c k)
unfolding wake_one
wakeup-Woken me c k = record {
  sleepers = λ i lt ne asleep on. wakeup-get me c k i lt ∙ ground (arith, same_channel_refl c);
  others = λ i lt why. wakeup-get me c k i lt ∙ ground (arith, same_channel_iff (k.proc i).chan c);
  rest = unfold wakeup in (refl, refl, refl);
}

-- What `kill` does: the first process with the id is as it was but killed, and runnable if it slept,
-- no other process changes, and it returns 0; or there is none, nothing changes, and it returns -1.
abbrev pub Kills : (pid : ℕ) → Kernel → Bool × Kernel → Type 0
Kills pid k (true, k') =
    (i : ℕ) × (i < nproc)
    × ((k.proc i).pid ≡ pid)
    × ((j : ℕ) → j < i → (k.proc j).pid ≢ pid)
    × ((k'.proc i).killed ≡ true)
    × ((((k.proc i).state ≡ sleeping)
          × (k'.proc i ≡ record (k.proc i) { killed = true; state = runnable }))
        ⊎ (((k.proc i).state ≢ sleeping) × (k'.proc i ≡ record (k.proc i) { killed = true })))
    × ((k.proc i).state ≢ sleeping → (k'.proc i).state ≡ (k.proc i).state)
    × ((k'.proc i).pid ≡ pid)
    × OnlyAt i k k'
Kills pid k (false, k') = ((i : ℕ) → i < nproc → (k.proc i).pid ≢ pid) × (k' ≡ k)

killed_state :
    (p : Proc)
    → let p' = record p {
      killed = true;
      state = if is_sleeping p.state then runnable else p.state;
    } in
      ((p.state ≡ sleeping) × (p' ≡ record p { killed = true; state = runnable }))
      ⊎ ((p.state ≢ sleeping) × (p' ≡ record p { killed = true }))
killed_state p = elim (Bool-cases (is_sleeping p.state)) [
  | inl asleep ↦ inl (ground arith, rw asleep refl)
  | inr awake ↦ inr (λ e. ground arith, rw awake refl)
]

kill_found :
    (pid : ℕ) (k : Kernel) (o : Option ℕ)
    → FindResult nproc 0 (λ i. (k.proc i).pid == pid) o
    → Kills pid k (kill_at k o)
unfolding kill_at
kill_found pid k none r = (λ i lt. ground (arith, r i), refl)
kill_found pid k (some i) r = (
  i,
  r.1,
  ground (arith, r.2),
  λ j lt. ground (arith, r.3 j),
  ground arith,
  (let here : (i == i) ≡ true = ground arith in rw here (killed_state (k.proc i))),
  λ h. ground arith,
  ground (arith, r.2),
  λ j ne. ground arith,
)

-- `kill` finds the process with the given id, if there is one, and does to it alone what it says.
pub kill-Kills : (pid : ℕ) (k : Kernel) → Kills pid k (kill pid k)
unfolding kill
kill-Kills pid k =
    kill_found pid k (find_from nproc 0 (λ i. (k.proc i).pid == pid))
      (find_from-FindResult (λ i. (k.proc i).pid == pid) nproc 0)

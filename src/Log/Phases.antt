-- ===== src/Log/Phases.antt =====
-- What each phase of a commit does to the disk and to the cache, for every moment at which the
-- device may lose power.
use os_assignments.Prelude.{
  ℕ, zero, suc, ◌+◌, ◌-◌, ◌≤◌, ◌<◌, ◌≡◌, refl, ap, ◌∙◌, Bool, true, false, ◌==◌, arith, rounds,
  if◌then◌else◌, ◌⊎◌, inl, inr, Bool-cases, ==→eq,
}
use os_assignments.Log.{
  Block, Log, Machine, fill, bwrite, install_one, install_loop, write_log_one, write_log_loop,
  write_log, install_trans,
}
use os_assignments.Log.Words.{listed}

-- Outside the header and the `n` blocks of the log.
abbrev pub IsHome : ℕ → ℕ → ℕ → Type 0
IsHome s n b = (b < s) ⊎ (s + n < b)

-- The log names home blocks only.
abbrev pub HomeOnly : ℕ → ℕ → (ℕ → ℕ) → Type 0
HomeOnly s n bs = (i : ℕ) → i < n → IsHome s n (bs i)

-- The header and the log blocks are not listed.
pub listed_log :
    (s n : ℕ) (bs : ℕ → ℕ) (b : ℕ)
    → HomeOnly s n bs
    → s ≤ b
    → b ≤ s + n
    → (k t : ℕ) → t + k ≤ n
    → listed k t bs b ≡ false
listed_log s n bs b home lo hi zero t le = refl
listed_log s n bs b home lo hi (suc k) t le =
    ground (arith, home t (omega arith), listed_log s n bs b home lo hi k (t + 1) (omega arith))

module _ (t : ℕ) (m : Machine) where
  write_log_one-log : (write_log_one t m).log ≡ m.log
  unfolding write_log_one fill bwrite
  write_log_one-log = ground arith

  write_log_one-power : (write_log_one t m).power ≡ m.power - 1
  unfolding write_log_one fill bwrite
  write_log_one-power = ground arith

  write_log_one-cache :
      (b : ℕ)
      → (write_log_one t m).cache b
        ≡ (if b == m.log.start + t + 1 then m.cache (m.log.lh.block t) else m.cache b)
  unfolding write_log_one fill bwrite
  write_log_one-cache b = ground arith

  write_log_one-disk :
      (b : ℕ)
      → (write_log_one t m).disk b ≡ (
          if m.power == 0
          then m.disk b
          else if b == m.log.start + t + 1
          then m.cache (m.log.lh.block t)
          else m.disk b)
  unfolding write_log_one fill bwrite
  write_log_one-disk b = ground arith

-- What `k` rounds of `write_log` from `t` on leave, at start block `s` and block numbers `bs`.
pub record Wrote (s : ℕ) (bs : ℕ → ℕ) (k t : ℕ) (m r : Machine) : Type 0 where
  pub log : r.log ≡ m.log
  pub power : r.power ≡ m.power - k
  pub disk : (b : ℕ) → (b ≤ s + t) ⊎ (s + t + k < b) → r.disk b ≡ m.disk b
  pub cache : (b : ℕ) → (b ≤ s + t) ⊎ (s + t + k < b) → r.cache b ≡ m.cache b
  pub logged : (i : ℕ) → t ≤ i → i < t + k → r.cache (s + i + 1) ≡ m.cache (bs i)
  pub done : k ≤ m.power → (i : ℕ) → t ≤ i → i < t + k → r.disk (s + i + 1) ≡ m.cache (bs i)

pub write_log_loop-Wrote :
    (s n : ℕ) (bs : ℕ → ℕ) (k t : ℕ) (m : Machine)
    → HomeOnly s n bs
    → t + k ≤ n
    → m.log.start ≡ s
    → m.log.lh.block ≡ bs
    → Wrote s bs k t m (write_log_loop k t m)
unfolding write_log_loop
write_log_loop-Wrote s n bs zero t m home le es eb = record {
  log = refl;
  power = omega arith;
  disk = λ b h. refl;
  cache = λ b h. refl;
  logged = λ i p q. absurd (omega arith);
  done = λ h i p q. absurd (omega arith);
}
write_log_loop-Wrote s n bs (suc k) t m home le es eb =
    let m' = write_log_one t m in
    let rest =
      write_log_loop-Wrote s n bs k (t + 1) m' home (omega arith)
        (ap (λ (l : Log). l.start) (write_log_one-log t m) ∙ es)
        (ap (λ (l : Log). l.lh.block) (write_log_one-log t m) ∙ eb) in
    record {
      log = rest.log ∙ write_log_one-log t m;
      power = omega (arith, rest.power, write_log_one-power t m);
      disk = λ b h. ground (arith, rest.disk b, write_log_one-disk t m b);
      cache = λ b h. ground (arith, rest.cache b, write_log_one-cache t m b);
      logged = λ i p q. elim (Bool-cases (i == t)) [
        | inl same ↦ ground (
          arith,
          rest.cache (s + i + 1) (omega (arith, ==→eq i t same)),
          write_log_one-cache t m (s + i + 1),
        )
        | inr later ↦ ground (arith, rest.logged i, write_log_one-cache t m (bs i), home i)
      ];
      done = λ h i p q. elim (Bool-cases (i == t)) [
        | inl same ↦ ground (
          arith,
          rest.disk (s + i + 1) (omega (arith, ==→eq i t same)),
          write_log_one-disk t m (s + i + 1),
        )
        | inr later ↦ ground (
          arith,
          rest.done (omega (arith, write_log_one-power t m)) i,
          write_log_one-cache t m (bs i),
          home i,
        )
      ];
    }

-- What one round of `install_trans` does, when the log block holds `content`.
module _ (recovering : Bool) (t : ℕ) (m : Machine) where
  install_one-log : (install_one recovering t m).log ≡ m.log
  unfolding install_one
  install_one-log = ground arith

  install_one-power : (install_one recovering t m).power ≡ m.power - 1
  unfolding install_one
  install_one-power = ground arith

  install_one-cache :
      (b : ℕ)
      → (install_one recovering t m).cache b
        ≡ (if b == m.log.lh.block t then m.cache (m.log.start + t + 1) else m.cache b)
  unfolding install_one
  install_one-cache b = ground arith

  install_one-disk :
      (b : ℕ)
      → (install_one recovering t m).disk b ≡ (
          if m.power == 0
          then m.disk b
          else if b == m.log.lh.block t
          then m.cache (m.log.start + t + 1)
          else m.disk b)
  unfolding install_one
  install_one-disk b = ground arith

-- What `k` rounds of `install_trans` from `t` on leave, when the log holds `content` of each
-- block that it names.
pub record Installed (s : ℕ) (bs : ℕ → ℕ) (content : ℕ → Block) (k t : ℕ) (m r : Machine)
    : Type 0 where
  pub log : r.log ≡ m.log
  pub power : r.power ≡ m.power - k
  pub partly : (b : ℕ) → (r.disk b ≡ m.disk b) ⊎ ((listed k t bs b ≡ true) × (r.disk b ≡ content b))
  pub cache : (b : ℕ) → listed k t bs b ≡ false → r.cache b ≡ m.cache b
  pub dead : m.power ≡ 0 → (b : ℕ) → r.disk b ≡ m.disk b
  pub done : k ≤ m.power → (b : ℕ) → r.disk b ≡ (if listed k t bs b then content b else m.disk b)

pub install_loop-Installed :
    (recovering : Bool) (s n : ℕ) (bs : ℕ → ℕ) (content : ℕ → Block) (k t : ℕ) (m : Machine)
    → HomeOnly s n bs
    → t + k ≤ n
    → m.log.start ≡ s
    → m.log.lh.block ≡ bs
    → ((i : ℕ) → t ≤ i → i < t + k → m.cache (s + i + 1) ≡ content (bs i))
    → Installed s bs content k t m (install_loop recovering k t m)
unfolding install_loop
install_loop-Installed rec s n bs content zero t m home le es eb has = record {
  log = refl;
  power = omega arith;
  partly = λ b. inl refl;
  cache = λ b h. refl;
  dead = λ h b. refl;
  done = λ h b. refl;
}
install_loop-Installed rec s n bs content (suc k) t m home le es eb has =
    let m' = install_one rec t m in
    let rest =
      install_loop-Installed rec s n bs content k (t + 1) m' home (omega arith)
        (ap (λ (l : Log). l.start) (install_one-log rec t m) ∙ es)
        (ap (λ (l : Log). l.lh.block) (install_one-log rec t m) ∙ eb)
        (λ i p q. ground (
          arith,
          install_one-cache rec t m (s + i + 1),
          home t,
          has i (omega arith) (omega arith),
        )) in
    let here = has t (omega arith) (omega arith) in
    record {
      log = rest.log ∙ install_one-log rec t m;
      power = omega (arith, rest.power, install_one-power rec t m);
      partly = λ b. ground (arith, rest.partly b, install_one-disk rec t m b, here);
      cache = λ b h. ground (arith, rest.cache b, install_one-cache rec t m b);
      dead = λ h b. ground (
        arith,
        rest.dead (omega (arith, install_one-power rec t m)) b,
        install_one-disk rec t m b,
      );
      done = λ h b. ground (
        arith,
        rest.done (omega (arith, install_one-power rec t m)) b,
        install_one-disk rec t m b,
        here,
      );
    }

-- The two loops over the whole log.
module _ (s n : ℕ) (bs : ℕ → ℕ) (m : Machine) (home : HomeOnly s n bs) (en : rounds m.log.lh.n ≡ n)
    (es : m.log.start ≡ s) (eb : m.log.lh.block ≡ bs) where
  pub write_log-Wrote : Wrote s bs n 0 m (write_log m)
  unfolding write_log
  write_log-Wrote = rw en (write_log_loop-Wrote s n bs n 0 m home (omega arith) es eb)

  pub install_trans-Installed :
      (recovering : Bool) (content : ℕ → Block)
      → ((i : ℕ) → i < n → m.cache (s + i + 1) ≡ content (bs i))
      → Installed s bs content n 0 m (install_trans recovering m)
  unfolding install_trans
  install_trans-Installed rec content has = rw en (
      install_loop-Installed rec s n bs content n 0 m home (omega arith) es eb
        (λ i _ lt. has i (omega arith)))

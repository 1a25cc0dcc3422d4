-- ===== src/Log/Crash.antt =====
-- Crash atomicity of kernel/log.c: what a restart finds after a failure at any write of `commit`,
-- and after a failure of the recovery itself.
use os_assignments.Prelude.{
  ℕ, ◌+◌, ◌≤◌, ◌<◌, ◌≡◌, sym, ap, ◌∙◌, arith, if◌then◌else◌, inl, inr, Bool-cases, ltb, ltb→lt,
  ltb_false→le,
}
use os_assignments.Log.{Block, Machine, commit, init_log}
use os_assignments.Log.Words.{listed}
use os_assignments.Log.Phases.{IsHome, listed_log}
use os_assignments.Log.Recovery.{Holds, Recovered, init_log-Recovered}
use os_assignments.Log.Commit.{
  Ready, committed, Holds-empty, early-Holds, early-home, mid-Holds, mid-home, all-Holds, all-home,
  commit-log,
}

-- What a restart shows of the home blocks after the commit stopped at `m.power` writes.
pub record Atomic (s n : ℕ) (m r : Machine) : Type 0 where
  pub before : m.power ≤ n → (b : ℕ) → IsHome s n b → r.disk b ≡ m.disk b
  pub after : n < m.power → (b : ℕ) → IsHome s n b → r.disk b ≡ committed n m b
  pub cleared : r.disk s 0 ≡ 0

commit_nothing : (m : Machine) → m.log.lh.n ≡ 0 → commit m ≡ m
unfolding commit
commit_nothing m e = ground arith

module _ (dev s size n q : ℕ) {m : Machine} (ready : Ready s n m) (enough : n < q) where
  abbrev after_restart : Machine
  after_restart = init_log dev s size q (commit m).disk

  from_empty :
      {bs : ℕ → ℕ} {content : ℕ → Block}
      → Holds s 0 bs content (commit m).disk
      → ((b : ℕ) → IsHome s n b → after_restart.disk b ≡ (commit m).disk b)
        × (after_restart.disk s 0 ≡ 0)
  from_empty h =
      let rec = init_log-Recovered dev s size q 0 h in
      (
        λ b home. rec.done (omega arith) b (λ e. absurd (omega (arith, e))),
        rec.cleared (omega arith),
      )

  empty-Atomic : n ≡ 0 → Atomic s n m after_restart
  empty-Atomic e =
      let same = ap (λ (r : Machine). r.disk) (commit_nothing m (ready.count ∙ e)) in
      let found = from_empty (
        Holds-empty s (λ i. 0) m.cache (commit m).disk
          (ap (λ (d : ℕ → Block). d s 0) same ∙ ready.empty)) in
      record {
        before = λ p b h. found.0 b h ∙ ap (λ (d : ℕ → Block). d b) same;
        after = λ p b h.
            found.0 b h
            ∙ ap (λ (d : ℕ → Block). d b) same
            ∙ sym (ap (λ (k : ℕ). committed k m b) e);
        cleared = found.1;
      }

  early-Atomic : 0 < n → m.power ≤ n → Atomic s n m after_restart
  early-Atomic pos early =
      let found = from_empty (early-Holds s n ready early pos) in
      record {
        before = λ p b h. found.0 b h ∙ early-home s n ready early pos b h;
        after = λ p b h. absurd (omega arith);
        cleared = found.1;
      }

  mid-Atomic : 0 < n → n < m.power → m.power ≤ n + 1 + n → Atomic s n m after_restart
  mid-Atomic pos late mid =
      let rec = init_log-Recovered dev s size q n (mid-Holds s n ready late pos mid) in
      record {
        before = λ p b h. absurd (omega arith);
        after = λ p b h.
            rec.done enough b (λ e. absurd (omega (arith, e)))
            ∙ mid-home s n ready late pos mid b h;
        cleared = rec.cleared enough;
      }

  all-Atomic : 0 < n → n + 1 + n < m.power → Atomic s n m after_restart
  all-Atomic pos all =
      let late : n < m.power = omega arith in
      let found = from_empty (all-Holds s n ready late pos all) in
      record {
        before = λ p b h. absurd (omega arith);
        after = λ p b h. found.0 b h ∙ all-home s n ready late pos all b h;
        cleared = found.1;
      }

  full-Atomic : 0 < n → Atomic s n m after_restart
  full-Atomic pos = elim (Bool-cases (ltb n m.power)) [
    | inl late ↦ elim (Bool-cases (ltb (n + 1 + n) m.power)) [
      | inl all ↦ all-Atomic pos (ltb→lt (n + 1 + n) m.power all)
      | inr mid ↦ mid-Atomic pos (ltb→lt n m.power late) (ltb_false→le (n + 1 + n) m.power mid)
    ]
    | inr early ↦ early-Atomic pos (ltb_false→le n m.power early)
  ]

  -- `commit` is atomic for every number of writes after which the device fails. A restart with
  -- the power to finish its recovery finds each home block as it was before the transaction if
  -- at most `n` writes were done, and as the transaction leaves it if the header, write `n + 1`,
  -- was done; the log that it leaves is empty. The device writes whole blocks, in order.
  pub commit-Atomic : Atomic s n m after_restart
  commit-Atomic = elim (Bool-cases (ltb 0 n)) [
    | inl pos ↦ full-Atomic (ltb→lt 0 n pos)
    | inr nil ↦ empty-Atomic (omega (arith, ltb_false→le 0 n nil))
  ]

-- A commit that the device lets finish installs the transaction, and empties the log on disk.
-- The transaction is not empty.
pub commit-durable :
    (s n : ℕ) {m : Machine}
    → Ready s n m
    → 0 < n
    → n + 1 + n < m.power
    → ((b : ℕ) → IsHome s n b → (commit m).disk b ≡ committed n m b) × ((commit m).disk s 0 ≡ 0)
commit-durable s n ready pos all =
    let late : n < _ = omega arith in
    (all-home s n ready late pos all, (all-Holds s n ready late pos all).count)

-- Recovery may itself be cut short, after any number `q` of writes. The next one, given the power
-- to finish, shows the same home blocks as if the first had not been interrupted.
pub init_log_again :
    (dev s size n q q' : ℕ) {bs : ℕ → ℕ} {content : ℕ → Block} {d : ℕ → Block}
    → Holds s n bs content d
    → n < q'
    → (b : ℕ) → IsHome s n b
    → (init_log dev s size q' (init_log dev s size q d).disk).disk b
      ≡ (init_log dev s size q' d).disk b
init_log_again dev s size n q q' {bs} {content} {d} h enough b home = elim (Bool-cases (ltb n q)) [
  | inl whole ↦ finished (ltb→lt n q whole)
  | inr cut ↦ resumed (ltb_false→le n q cut)
]
  where
    d1 : ℕ → Block
    d1 = (init_log dev s size q d).disk

    first : Recovered s n bs content q d (init_log dev s size q d)
    first = init_log-Recovered dev s size q n h

    once : (init_log dev s size q' d).disk b ≡ (if listed n 0 bs b then content b else d b)
    once = (init_log-Recovered dev s size q' n h).done enough b (λ e. absurd (omega (arith, e)))

    finished : n < q → (init_log dev s size q' d1).disk b ≡ (init_log dev s size q' d).disk b
    finished whole =
        (init_log-Recovered dev s size q' 0
            (Holds-empty s bs content d1 (first.cleared whole))).done
          (omega arith) b (λ e. absurd (omega (arith, e)))
        ∙ first.done whole b (λ e. absurd (omega (arith, e)))
        ∙ sym once

    kept : q ≤ n → (c : ℕ) → s ≤ c → c ≤ s + n → d1 c ≡ d c
    kept cut c lo hi =
        ground (arith, first.partly cut c, listed_log s n bs c h.home lo hi n 0 (omega arith))

    resumed : q ≤ n → (init_log dev s size q' d1).disk b ≡ (init_log dev s size q' d).disk b
    resumed cut =
        let h1 : Holds s n bs content d1 = record {
          small = h.small;
          count = ap (λ (c : Block). c 0) (kept cut s (omega arith) (omega arith)) ∙ h.count;
          block = λ i lt.
              ap (λ (c : Block). c (i + 1)) (kept cut s (omega arith) (omega arith)) ∙ h.block i lt;
          body = λ i lt. kept cut (s + i + 1) (omega arith) (omega arith) ∙ h.body i lt;
          home = h.home;
        } in
        ground
          (arith, (init_log-Recovered dev s size q' n h1).done enough b, first.partly cut b, once)

-- With or without a failure, `commit` leaves the log in memory empty, and else as it was; where
-- the device works, the log on disk is empty too.
module _ (s n : ℕ) {m : Machine} (ready : Ready s n m) where
  pub commit-empties : (commit m).log ≡ record (m.log) { lh = record (m.log.lh) { n = 0 } }
  commit-empties = elim (Bool-cases (ltb 0 n)) [
    | inl pos ↦ commit-log s n ready (ltb→lt 0 n pos)
    | inr nil ↦ nothing (omega (arith, ltb_false→le 0 n nil))
  ]
    where
      nothing : n ≡ 0 → (commit m).log ≡ record (m.log) { lh = record (m.log.lh) { n = 0 } }
      nothing e =
          ap (λ (r : Machine). r.log) (commit_nothing m (ready.count ∙ e))
          ∙ ap (λ (k : ℕ). record (m.log) { lh = record (m.log.lh) { n = k } }) (ready.count ∙ e)

  pub commit-clears : n + 1 + n < m.power → (commit m).disk s 0 ≡ 0
  commit-clears all = elim (Bool-cases (ltb 0 n)) [
    | inl pos ↦ (commit-durable s n ready (ltb→lt 0 n pos) all).1
    | inr nil ↦
        ap (λ (r : Machine). r.disk s 0)
          (commit_nothing m (ready.count ∙ omega (arith, ltb_false→le 0 n nil)))
        ∙ ready.empty
  ]

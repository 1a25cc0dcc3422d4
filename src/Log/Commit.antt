-- ===== src/Log/Commit.antt =====
-- Crash safety of `commit` in kernel/log.c: the header write is the point of no return.
use os_assignments.Prelude.{
  ℕ, ◌+◌, ◌-◌, ◌≤◌, ◌<◌, ◌≡◌, refl, ap, ◌∙◌, false, ◌==◌, arith, rounds, rounds_small,
  if◌then◌else◌,
}
use os_assignments.Log.{
  Block, Log, Machine, log_size, set_n, install_trans, write_head, write_log, head_block, commit,
}
use os_assignments.Log.Words.{listed, head_block-n, head_block-block}
use os_assignments.Log.Phases.{
  IsHome, HomeOnly, Wrote, Installed, write_log-Wrote, install_trans-Installed, listed_log,
}
use os_assignments.Log.Recovery.{
  Holds, write_head-log, write_head-power, write_head-disk, write_head-cache,
}

-- The state in which `end_op` calls `commit`: the log on disk is empty, and the one in memory
-- names `n` home blocks.
pub record Ready (s n : ℕ) (m : Machine) : Type 0 where
  pub start : m.log.start ≡ s
  pub count : m.log.lh.n ≡ n
  pub small : n ≤ log_size
  pub home : HomeOnly s n m.log.lh.block
  pub empty : m.disk s 0 ≡ 0

-- Block `b` as the transaction leaves it: the cached data, for the blocks that the log names.
abbrev pub committed : ℕ → Machine → ℕ → Block
committed n m b = if listed n 0 m.log.lh.block b then m.cache b else m.disk b

-- A disk with an empty log.
pub Holds-empty :
    (s : ℕ) (bs : ℕ → ℕ) (content : ℕ → Block) (d : ℕ → Block) → d s 0 ≡ 0 → Holds s 0 bs content d
Holds-empty s bs content d e = record {
  small = omega arith;
  count = e;
  block = λ i lt. absurd (omega arith);
  body = λ i lt. absurd (omega arith);
  home = λ i lt. absurd (omega arith);
}

module _ (s n : ℕ) {m : Machine} (ready : Ready s n m) where
  abbrev pub bs : ℕ → ℕ
  bs = m.log.lh.block

  abbrev m1 : Machine
  m1 = write_log m

  abbrev m2 : Machine
  m2 = write_head m1

  abbrev m3 : Machine
  m3 = install_trans false m2

  m1-Wrote : Wrote s bs n 0 m m1
  m1-Wrote =
      write_log-Wrote s n bs m ready.home
        (rw ready.count (rounds_small n (omega (arith, ready.small)))) ready.start refl

  m1-power : m1.power ≡ m.power - n
  m1-power = m1-Wrote.power

  m2-log : m2.log ≡ m.log
  m2-log = write_head-log m1 ∙ m1-Wrote.log

  m2-power : m2.power ≡ m.power - n - 1
  m2-power = omega (arith, write_head-power m1, m1-power)

  m2-disk :
      (b : ℕ)
      → m2.disk b ≡ (
          if m1.power == 0
          then m1.disk b
          else if b == s
          then head_block m.log.lh (m1.cache s)
          else m1.disk b)
  m2-disk b = ground (arith, write_head-disk m1 b, m1-Wrote.log, ready.start)

  m3-Installed : Installed s bs m.cache n 0 m2 m3
  m3-Installed =
      install_trans-Installed s n bs m2 ready.home
        (ap (λ (l : Log). rounds l.lh.n) m2-log
          ∙ rw ready.count (rounds_small n (omega (arith, ready.small))))
        (ap (λ (l : Log). l.start) m2-log ∙ ready.start) (ap (λ (l : Log). l.lh.block) m2-log) false
        m.cache
        (λ i lt.
          write_head-cache m1 (s + i + 1)
            (λ e. absurd (omega (arith, e, ap (λ (l : Log). l.start) m1-Wrote.log, ready.start)))
          ∙ m1-Wrote.logged i (omega arith) (omega arith))

  m3-power : m3.power ≡ m.power - n - 1 - n
  m3-power = omega (arith, m3-Installed.power, m2-power)

  m3-start : m3.log.start ≡ s
  m3-start =
      ap (λ (l : Log). l.start) m3-Installed.log ∙ ap (λ (l : Log). l.start) m2-log ∙ ready.start

  commit-disk :
      0 < n
      → (b : ℕ)
      → (commit m).disk b ≡ (
          if m3.power == 0
          then m3.disk b
          else if b == s
          then head_block (record (m3.log.lh) { n = 0 }) (m3.cache m3.log.start)
          else m3.disk b)
  unfolding commit set_n
  commit-disk pos b =
      ground (arith, write_head-disk (set_n 0 m3) b, m3-start, ready.count, ready.small)

  pub commit-log : 0 < n → (commit m).log ≡ record (m.log) { lh = record (m.log.lh) { n = 0 } }
  unfolding commit set_n
  commit-log pos =
      ground
        (arith, write_head-log (set_n 0 m3), m3-Installed.log, m2-log, ready.count, ready.small)

  -- The device failed before the header was written.
  module _ (early : m.power ≤ n) where
    early-disk : (b : ℕ) → 0 < n → (commit m).disk b ≡ m1.disk b
    early-disk b pos = ground (
      arith,
      commit-disk pos b,
      m3-power,
      m3-Installed.dead (omega (arith, m2-power)) b,
      m2-disk b,
      m1-power,
    )

    pub early-Holds : 0 < n → Holds s 0 bs m.cache (commit m).disk
    early-Holds pos =
        Holds-empty s bs m.cache (commit m).disk
          (ap (λ (c : Block). c 0) (early-disk s pos ∙ m1-Wrote.disk s (omega arith)) ∙ ready.empty)

    pub early-home : 0 < n → (b : ℕ) → IsHome s n b → (commit m).disk b ≡ m.disk b
    early-home pos b h = early-disk b pos ∙ m1-Wrote.disk b (omega arith)

  -- The header was written.
  module _ (late : n < m.power) where
    m2-header : (m2.disk s 0 ≡ n) × ((i : ℕ) → i < n → m2.disk s (i + 1) ≡ bs i)
    m2-header = (
      ground (
        arith,
        ap (λ (c : Block). c 0) (m2-disk s),
        m1-power,
        head_block-n m.log.lh (m1.cache s),
        ready.count,
      ),
      λ i lt. ground (
        arith,
        ap (λ (c : Block). c (i + 1)) (m2-disk s),
        m1-power,
        head_block-block m.log.lh (m1.cache s),
        head_block-block m.log.lh (m1.cache s) (omega (arith, ready.count, ready.small)) i
            (omega (arith, ready.count)),
      ),
    )

    m2-body : (i : ℕ) → i < n → m2.disk (s + i + 1) ≡ m.cache (bs i)
    m2-body i lt =
        ground
          (arith, m2-disk (s + i + 1), m1-Wrote.done (omega arith) i (omega arith) (omega arith))

    m2-home : (b : ℕ) → IsHome s n b → m2.disk b ≡ m.disk b
    m2-home b h = ground (arith, m2-disk b, m1-Wrote.disk b)

    -- While the log is being installed, it stays on the disk.
    m3-log_block : (b : ℕ) → s ≤ b → b ≤ s + n → m3.disk b ≡ m2.disk b
    m3-log_block b lo hi =
        ground
          (arith, m3-Installed.partly b, listed_log s n bs b ready.home lo hi n 0 (omega arith))

    -- The device failed before the header was erased.
    module _ (pos : 0 < n) (mid : m.power ≤ n + 1 + n) where
      mid-disk : (b : ℕ) → (commit m).disk b ≡ m3.disk b
      mid-disk b = ground (arith, commit-disk pos b, m3-power)

      pub mid-Holds : Holds s n bs m.cache (commit m).disk
      mid-Holds = record {
        small = ready.small;
        count =
            ap (λ (c : Block). c 0) (mid-disk s ∙ m3-log_block s (omega arith) (omega arith))
            ∙ m2-header.0;
        block = λ i lt.
            ap (λ (c : Block). c (i + 1)) (mid-disk s ∙ m3-log_block s (omega arith) (omega arith))
            ∙ m2-header.1 i lt;
        body = λ i lt.
            mid-disk (s + i + 1)
            ∙ m3-log_block (s + i + 1) (omega arith) (omega arith)
            ∙ m2-body i lt;
        home = ready.home;
      }

      pub mid-home :
          (b : ℕ)
          → IsHome s n b
          → (if listed n 0 bs b then m.cache b else (commit m).disk b) ≡ committed n m b
      mid-home b h = ground (arith, mid-disk b, m3-Installed.partly b, m2-home b h)

    -- The commit ran to its end.
    module _ (pos : 0 < n) (all : n + 1 + n < m.power) where
      pub all-Holds : Holds s 0 bs m.cache (commit m).disk
      all-Holds = Holds-empty s bs m.cache (commit m).disk (
          ground (
            arith,
            ap (λ (c : Block). c 0) (commit-disk pos s),
            m3-power,
            head_block-n (record (m3.log.lh) { n = 0 }) (m3.cache m3.log.start),
          ))

      pub all-home : (b : ℕ) → IsHome s n b → (commit m).disk b ≡ committed n m b
      all-home b h = ground (
        arith,
        commit-disk pos b,
        m3-power,
        m3-Installed.done (omega (arith, m2-power)) b,
        m2-home b h,
      )

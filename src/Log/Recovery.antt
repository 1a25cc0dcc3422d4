-- ===== src/Log/Recovery.antt =====
-- `recover_from_log` of kernel/log.c: what a restart makes of the disk that it finds.
use os_assignments.Prelude.{
  ℕ, ◌+◌, ◌-◌, ◌≤◌, ◌<◌, ◌≡◌, ◌≢◌, refl, ap, ◌∙◌, true, false, ◌==◌, arith, rounds, rounds_small,
  if◌then◌else◌, ◌⊎◌,
}
use os_assignments.Log.{
  Block, Log, Machine, log_size, fill, bwrite, set_n, install_trans, read_head, write_head,
  head_block, recover_from_log, boot, init_log,
}
use os_assignments.Log.Words.{listed, listed_congr, copy_in-get, head_block-n}
use os_assignments.Log.Phases.{HomeOnly, Installed, install_trans-Installed, listed_log}

-- What `write_head` does; the other blocks stay.
module _ (m : Machine) where
  pub write_head-log : (write_head m).log ≡ m.log
  unfolding write_head fill bwrite
  write_head-log = ground arith

  pub write_head-power : (write_head m).power ≡ m.power - 1
  unfolding write_head fill bwrite
  write_head-power = ground arith

  pub write_head-disk :
      (b : ℕ)
      → (write_head m).disk b ≡ (
          if m.power == 0
          then m.disk b
          else if b == m.log.start
          then head_block m.log.lh (m.cache m.log.start)
          else m.disk b)
  unfolding write_head fill bwrite
  write_head-disk b = ground arith

  pub write_head-cache : (b : ℕ) → b ≢ m.log.start → (write_head m).cache b ≡ m.cache b
  unfolding write_head fill bwrite
  write_head-cache b ne = ground arith

-- The log of disk `d` holds `content` of the `n` blocks `bs`, and names home blocks only.
pub record Holds (s n : ℕ) (bs : ℕ → ℕ) (content : ℕ → Block) (d : ℕ → Block) : Type 0 where
  pub small : n ≤ log_size
  pub count : d s 0 ≡ n
  pub block : (i : ℕ) → i < n → d s (i + 1) ≡ bs i
  pub body : (i : ℕ) → i < n → d (s + i + 1) ≡ content (bs i)
  pub home : HomeOnly s n bs

-- What recovery with `q` writes of power makes of such a disk.
pub record Recovered (s n : ℕ) (bs : ℕ → ℕ) (content : ℕ → Block) (q : ℕ) (d : ℕ → Block)
    (r : Machine) : Type 0 where
  pub partly :
      q ≤ n → (b : ℕ) → (r.disk b ≡ d b) ⊎ ((listed n 0 bs b ≡ true) × (r.disk b ≡ content b))
  pub done : n < q → (b : ℕ) → b ≢ s → r.disk b ≡ (if listed n 0 bs b then content b else d b)
  pub cleared : n < q → r.disk s 0 ≡ 0

module _ (dev s size q n : ℕ) {bs : ℕ → ℕ} {content : ℕ → Block} {d : ℕ → Block}
    (h : Holds s n bs content d) where
  abbrev read : Machine
  read = read_head (boot dev s size q d)

  read-block : (i : ℕ) → i < n → read.log.lh.block i ≡ bs i
  unfolding read_head boot
  read-block i lt = ground (
    arith,
    rounds_small (d s 0),
    copy_in-get (rounds (d s 0)) (d s) (λ _. 0) i,
    h.block i,
    h.small,
    h.count,
  )

  read-listed : (b : ℕ) → listed n 0 read.log.lh.block b ≡ listed n 0 bs b
  read-listed b = listed_congr n 0 read.log.lh.block bs b (λ j _ lt. read-block j (omega arith))

  read-count : rounds read.log.lh.n ≡ n
  unfolding read_head boot
  read-count = ground (arith, rounds_small (d s 0), h.small, h.count)

  read-HomeOnly : HomeOnly s n read.log.lh.block
  read-HomeOnly i lt = ground (arith, read-block i lt, h.home i lt)

  abbrev moved : Machine
  moved = install_trans true read

  moved-Installed : Installed s read.log.lh.block content n 0 read moved
  unfolding read_head boot
  moved-Installed =
      install_trans-Installed s n read.log.lh.block read read-HomeOnly read-count refl refl true
        content (λ i lt. ground (arith, h.body i, read-block i))

  moved-log : moved.log ≡ read.log
  moved-log = moved-Installed.log

  read-disk : (read.disk ≡ d) × (read.power ≡ q) × (read.log.start ≡ s)
  unfolding read_head boot
  read-disk = (refl, refl, refl)

  header-listed : listed n 0 bs s ≡ false
  header-listed = listed_log s n bs s h.home (omega arith) (omega arith) n 0 (omega arith)

  moved-power : moved.power ≡ q - n
  moved-power = omega (arith, moved-Installed.power, ap (λ (k : ℕ). k - n) read-disk.1)

  moved-start : moved.log.start ≡ s
  moved-start = ap (λ (l : Log). l.start) moved-log ∙ read-disk.2

  final-disk :
      (b : ℕ)
      → (init_log dev s size q d).disk b ≡ (
          if moved.power == 0
          then moved.disk b
          else if b == moved.log.start
          then head_block (record (moved.log.lh) { n = 0 }) (moved.cache moved.log.start)
          else moved.disk b)
  unfolding init_log recover_from_log set_n
  final-disk b = write_head-disk (set_n 0 moved) b

  -- Before the last write every block is as it was or as the log has it; after it every block
  -- but the header is as the log has it, where the log names it, and the log is empty.
  pub init_log-Recovered : Recovered s n bs content q d (init_log dev s size q d)
  init_log-Recovered = record {
    partly = λ le b.
        ground
          (arith, final-disk b, moved-power, moved-Installed.partly b, read-listed b, read-disk);
    done = λ lt b ne. ground (
      arith,
      final-disk b,
      moved-power,
      moved-start,
      moved-Installed.done (omega (arith, read-disk.1)) b,
      read-listed b,
      read-disk,
    );
    cleared = λ lt. ground (
      arith,
      ap (λ (c : Block). c 0) (final-disk s),
      moved-power,
      moved-start,
      head_block-n (record (moved.log.lh) { n = 0 }) (moved.cache moved.log.start),
    );
  }

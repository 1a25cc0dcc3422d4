-- ===== src/Log.antt =====
-- kernel/log.c: the in-memory log, the on-disk log and the operations that move blocks between
-- the buffer cache, the log and the home locations. The modules below prove what they do.
pub mod Words
pub mod Phases
pub mod Recovery
pub mod Commit
pub mod Crash
pub mod Ops
pub mod Budget
pub mod Reserve
pub mod Calls
mod Tests
use os_assignments.Prelude.{
  ℕ, zero, suc, ◌+◌, ◌-◌, ◌%◌, Bool, true, false, ◌==◌, if◌then◌else◌, word, int_lt, rounds, update,
}

-- A disk block: the 32-bit words that it holds, by index.
abbrev pub Block : Type 0
Block = ℕ → ℕ

abbrev pub log_size : ℕ
log_size = 30

abbrev pub max_op_blocks : ℕ
max_op_blocks = 10

-- `struct logheader`; an `int` is a 32-bit word.
pub record LogHeader : Type 0 where
  pub n : ℕ
  pub block : ℕ → ℕ

pub record Log : Type 0 where
  pub start : ℕ
  pub size : ℕ
  pub outstanding : ℕ
  pub committing : Bool
  pub dev : ℕ
  pub lh : LogHeader

-- The log with what it works on: `disk` is the device, `cache b` is the data that `bread` of
-- block `b` returns, `pins b` counts the references that `bpin` took. The device completes
-- `power` more writes and then loses power.
pub record Machine : Type 0 where
  pub disk : ℕ → Block
  pub cache : ℕ → Block
  pub pins : ℕ → ℕ
  pub power : ℕ
  pub log : Log

-- `memmove(bread(dev, b)->data, data, BSIZE)`
pub fill : ℕ → Block → Machine → Machine
fill b content m = record m { cache = update m.cache b content }

-- `bwrite(bread(dev, b))`
pub bwrite : ℕ → Machine → Machine
bwrite b m =
    if m.power == 0 then m else record m { disk = update m.disk b (m.cache b); power = m.power - 1 }

pub bpin : ℕ → Machine → Machine
bpin b m = record m { pins = update m.pins b (m.pins b + 1) }

pub bunpin : ℕ → Machine → Machine
bunpin b m = record m { pins = update m.pins b ((m.pins b + (word - 1)) % word) }

pub set_n : ℕ → Machine → Machine
set_n n m = record m { log = record (m.log) { lh = record (m.log.lh) { n = n } } }

-- One round of `install_trans`.
pub install_one : Bool → ℕ → Machine → Machine
unfolding fill bwrite bunpin
install_one recovering tail m =
    let dst = m.log.lh.block tail in
    let m' = bwrite dst (fill dst (m.cache (m.log.start + tail + 1)) m) in
    if recovering then m' else bunpin dst m'

pub install_loop : Bool → ℕ → ℕ → Machine → Machine
install_loop recovering zero tail m = m
install_loop recovering (suc k) tail m =
    install_loop recovering k (tail + 1) (install_one recovering tail m)

pub install_trans : Bool → Machine → Machine
install_trans recovering m = install_loop recovering (rounds m.log.lh.n) 0 m

-- `for (i = 0; i < n; i++) to[i + 1] = from[i]` and the other way round.
pub copy_out : ℕ → ℕ → (ℕ → ℕ) → Block → Block
copy_out zero i from to = to
copy_out (suc k) i from to = copy_out k (i + 1) from (update to (i + 1) (from i))

pub copy_in : ℕ → ℕ → Block → (ℕ → ℕ) → ℕ → ℕ
copy_in zero i from to = to
copy_in (suc k) i from to = copy_in k (i + 1) from (update to i (from (i + 1)))

pub read_head : Machine → Machine
read_head m =
    let b = m.cache m.log.start in
    record m {
      log = record (m.log) {
        lh = record { n = b 0; block = copy_in (rounds (b 0)) 0 b m.log.lh.block };
      };
    }

-- The header block as `write_head` leaves it in the buffer.
pub head_block : LogHeader → Block → Block
head_block lh b = copy_out (rounds lh.n) 0 lh.block (update b 0 lh.n)

pub write_head : Machine → Machine
write_head m = let s = m.log.start in bwrite s (fill s (head_block m.log.lh (m.cache s)) m)

pub recover_from_log : Machine → Machine
recover_from_log m = write_head (set_n 0 (install_trans true (read_head m)))

-- One round of `write_log`.
pub write_log_one : ℕ → Machine → Machine
write_log_one tail m =
    let to = m.log.start + tail + 1 in bwrite to (fill to (m.cache (m.log.lh.block tail)) m)

pub write_log_loop : ℕ → ℕ → Machine → Machine
write_log_loop zero tail m = m
write_log_loop (suc k) tail m = write_log_loop k (tail + 1) (write_log_one tail m)

pub write_log : Machine → Machine
write_log m = write_log_loop (rounds m.log.lh.n) 0 m

pub commit : Machine → Machine
commit m =
    if int_lt 0 m.log.lh.n
    then write_head (set_n 0 (install_trans false (write_head (write_log m))))
    else m

-- `initlog` after the machine starts on a disk: nothing is cached, so `bread` reads the device.
-- `power` is the number of writes until the next failure.
pub boot : (dev start size power : ℕ) → (ℕ → Block) → Machine
boot dev start size power disk = record {
  disk = disk;
  cache = disk;
  pins = λ b. 0;
  power = power;
  log = record {
    start = start;
    size = size;
    outstanding = 0;
    committing = false;
    dev = dev;
    lh = record { n = 0; block = λ i. 0 };
  };
}

pub init_log : (dev start size power : ℕ) → (ℕ → Block) → Machine
init_log dev start size power disk = recover_from_log (boot dev start size power disk)

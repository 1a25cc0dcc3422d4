-- ===== src/Bcache.antt =====
-- kernel/bio.c with the sleep locks of kernel/sleeplock.c: the cache of disk blocks.
pub mod Links
pub mod Lru
pub mod Get
pub mod Contents
pub mod Read
pub mod Release
pub mod Boot
pub mod Refs
pub mod Steps
pub mod Shares
pub mod Written
pub mod Serial
mod Tests
use os_assignments.Prelude.{
  ℕ, zero, suc, ◌+◌, ◌-◌, ◌%◌, Bool, true, false, Option, none, some, not, ◌&&◌, ltb, ◌==◌,
  if◌then◌else◌, word, update,
}

abbrev pub nbuf : ℕ
nbuf = 30

-- `ROOTDEV` of kernel/param.h, the only disk. `virtio_disk_rw` does not look at the device.
abbrev pub root_dev : ℕ
root_dev = 1

-- `struct sleeplock`
pub record Sleeplock : Type 0 where
  pub locked : Bool
  pub pid : ℕ

-- A pass of the loop of `acquiresleep`: `none` is where it sleeps.
pub acquiresleep : (me : ℕ) → Sleeplock → Option Sleeplock
acquiresleep me l = if l.locked then none else some (record { locked = true; pid = me })

pub releasesleep : Sleeplock → Sleeplock
releasesleep l = record { locked = false; pid = 0 }

pub holdingsleep : (me : ℕ) → Sleeplock → Bool
holdingsleep me l = l.locked && l.pid == me

-- The bytes of a block.
abbrev pub Block : Type 0
Block = ℕ → ℕ

-- `struct buf` but for its links.
pub record Buf : Type 0 where
  pub valid : Bool
  pub dev : ℕ
  pub blockno : ℕ
  pub lock : Sleeplock
  pub refcnt : ℕ
  pub bytes : Block

-- `bcache`: the buffers and the links of all nodes. The list's head is node `nbuf`.
pub record Bcache : Type 0 where
  pub buf : ℕ → Buf
  pub next : ℕ → ℕ
  pub prev : ℕ → ℕ

abbrev pub put_buf : ℕ → Buf → Bcache → Bcache
put_buf b v c = record c { buf = update c.buf b v }

-- `b->next = head.next; b->prev = &head; head.next->prev = b; head.next = b`
pub push : ℕ → Bcache → Bcache
push b c = record c {
  next = update (update c.next b (c.next nbuf)) nbuf b;
  prev = update (update c.prev b nbuf) (c.next nbuf) b;
}

-- `b->next->prev = b->prev; b->prev->next = b->next`
pub unlink : ℕ → Bcache → Bcache
unlink b c = record c {
  next = update c.next (c.prev b) (c.next b);
  prev = update c.prev (c.next b) (c.prev b);
}

-- The loop of `binit` from buffer `b` on.
pub binit_loop : ℕ → ℕ → Bcache → Bcache
binit_loop zero b c = c
binit_loop (suc k) b c =
    let unlocked = record (c.buf b) { lock = record { locked = false; pid = 0 } } in
    binit_loop k (b + 1) (push b (put_buf b unlocked c))

pub binit : Bcache → Bcache
unfolding binit_loop
binit c =
    binit_loop nbuf 0 (record c { next = update c.next nbuf nbuf; prev = update c.prev nbuf nbuf })

-- A walk along `step` from node `b` to the head, for a buffer that passes the test. The list has
-- `nbuf` buffers, and so many rounds.
pub scan : (step : ℕ → ℕ) → ℕ → (b : ℕ) → (ℕ → Bool) → Option ℕ
scan step zero b test = none
scan step (suc k) b test =
    let rest = scan step k (step b) test in
    if b == nbuf then none else if test b then some b else rest

abbrev pub is_block : (dev blockno : ℕ) → Buf → Bool
is_block dev blockno v = v.dev == dev && v.blockno == blockno

-- The two branches of `bget` that find a buffer.
abbrev pub take_ref : Buf → Buf
take_ref v = record v { refcnt = (v.refcnt + 1) % word }

abbrev pub recycled : (dev blockno : ℕ) → Buf → Buf
recycled dev blockno v = record v { dev = dev; blockno = blockno; valid = false; refcnt = 1 }

pub bget_new : (dev blockno : ℕ) → Option ℕ → Bcache → Option (ℕ × Bcache)
bget_new dev blockno none c = none
bget_new dev blockno (some b) c = some (b, put_buf b (recycled dev blockno (c.buf b)) c)

pub bget_at : (dev blockno : ℕ) → (cached unused : Option ℕ) → Bcache → Option (ℕ × Bcache)
unfolding bget_new
bget_at dev blockno (some b) unused c = some (b, put_buf b (take_ref (c.buf b)) c)
bget_at dev blockno none unused c = bget_new dev blockno unused c

-- `bget` under `bcache.lock`, up to its `acquiresleep`: the buffer, or `none` for the panic.
pub bget : (dev blockno : ℕ) → Bcache → Option (ℕ × Bcache)
unfolding scan bget_at
bget dev blockno c =
    let cached = scan c.next nbuf (c.next nbuf) (λ b. is_block dev blockno (c.buf b)) in
    let unused = scan c.prev nbuf (c.prev nbuf) (λ b. (c.buf b).refcnt == 0) in
    bget_at dev blockno cached unused c

-- The cache and the device, block by block. `virtio_disk_rw` moves a whole block.
pub record Storage : Type 0 where
  pub cache : Bcache
  pub disk : ℕ → Block

abbrev pub set_buf : ℕ → Buf → Storage → Storage
set_buf b v s = record s { cache = put_buf b v s.cache }

-- What `bread` does with the locked buffer.
pub read_in : ℕ → Storage → Storage
read_in b s =
    let v = s.cache.buf b in
    if v.valid then s else set_buf b (record v { bytes = s.disk v.blockno; valid = true }) s

-- How far a call of `bread` comes: it panics, sleeps for the lock of a buffer that it has a
-- reference to, or returns the buffer.
pub data Bread : Type 0 where
  panics : Bread
  waits : ℕ → Storage → Bread
  returns : ℕ → Storage → Bread

pub bread_locked : ℕ → Option Sleeplock → Storage → Bread
unfolding read_in
bread_locked b none s = waits b s
bread_locked b (some l) s =
    returns b (read_in b (set_buf b (record (s.cache.buf b) { lock = l }) s))

-- `bread` from the `acquiresleep` of `bget` on, also when it wakes up.
pub bread_resume : (me b : ℕ) → Storage → Bread
unfolding acquiresleep bread_locked
bread_resume me b s = bread_locked b (acquiresleep me (s.cache.buf b).lock) s

pub bread_got : (me : ℕ) → Option (ℕ × Bcache) → Storage → Bread
unfolding bread_resume
bread_got me none s = panics
bread_got me (some (b, c)) s = bread_resume me b (record s { cache = c })

pub bread : (me dev blockno : ℕ) → Storage → Bread
unfolding bget bread_got
bread me dev blockno s = bread_got me (bget dev blockno s.cache) s

-- `bwrite`: `none` is its panic.
pub bwrite : (me b : ℕ) → Storage → Option Storage
unfolding holdingsleep
bwrite me b s =
    let v = s.cache.buf b in
    if holdingsleep me v.lock
    then some (record s { disk = update s.disk v.blockno v.bytes })
    else none

-- The critical section of `brelse`, under `bcache.lock`.
pub drop_ref : ℕ → Bcache → Bcache
unfolding push unlink
drop_ref b c =
    let v = c.buf b in
    let refs = (v.refcnt + (word - 1)) % word in
    let c' = put_buf b (record v { refcnt = refs }) c in
    if refs == 0 then push b (unlink b c') else c'

-- What `releasesleep` does to the buffer.
abbrev pub unlock : ℕ → Bcache → Bcache
unlock b c = put_buf b (record (c.buf b) { lock = releasesleep (c.buf b).lock }) c

-- `brelse`: `none` is its panic.
pub brelse : (me b : ℕ) → Bcache → Option Bcache
unfolding holdingsleep releasesleep drop_ref
brelse me b c =
    if not (holdingsleep me (c.buf b).lock) then none else some (drop_ref b (unlock b c))

pub bpin : ℕ → Bcache → Bcache
bpin b c = put_buf b (take_ref (c.buf b)) c

pub bunpin : ℕ → Bcache → Bcache
bunpin b c = put_buf b (record (c.buf b) { refcnt = ((c.buf b).refcnt + (word - 1)) % word }) c

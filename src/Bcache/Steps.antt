-- ===== src/Bcache/Steps.antt =====
-- Processes that share the cache of kernel/bio.c, each critical section one step, with the references
-- that they hold.
use os_assignments.Prelude.{
  ℕ, ◌+◌, ◌≤◌, ◌<◌, ◌≡◌, true, ◌⊎◌, List, [], ◌∷◌, ◌++◌, length, update, some, word,
}
use os_assignments.Bcache.{
  Sleeplock, Block, Buf, Bcache, Storage, root_dev, set_buf, acquiresleep, holdingsleep, bget,
  read_in, bwrite, unlock, drop_ref, bpin, bunpin, binit,
}
use os_assignments.Bcache.Refs.{Ref, Held, refs}

-- The storage, the references that are held, and the bytes of each block as they were last written.
pub record State : Type 0 where
  pub storage : Storage
  pub held : List Ref
  pub written : ℕ → Block

abbrev pub buf_of : State → ℕ → Buf
buf_of t b = t.storage.cache.buf b

abbrev pub with_cache : State → Bcache → List Ref → State
with_cache t c held = record t { storage = record (t.storage) { cache = c }; held = held }

-- The holder `me` of the lock of the referenced buffer.
abbrev pub Locks : (me : ℕ) → State → Ref → Type 0
Locks me t r = Held r t.held × (holdingsleep me (buf_of t r.buffer).lock ≡ true)

-- The block's other references keep the buffer, or the disk has the block as it was last written.
abbrev pub MayGo : State → Ref → List Ref → Type 0
MayGo t r others = (1 ≤ refs r.buffer others) ⊎ (t.written r.block ≡ t.storage.disk r.block)

abbrev pub changed : (b : ℕ) → Block → Storage → Storage
changed b new s = set_buf b (record (s.cache.buf b) { bytes = new }) s

-- The steps of a process: `bread` is `get`, `lock` and `fill`, and `brelse` is `free` and `drop`; the
-- steps of others may come between any two. `get` counts a reference, of which there are fewer than
-- 2^32. A caller changes and writes only a buffer that `bread` has made valid and whose lock it
-- holds. It gives up the last reference to a block only when the disk has what was last written, as the log pins what
-- it has yet to write.
pub data Step (t : State) : State → Type 0 where
  get :
      (n b : ℕ) (c : Bcache)
      → length t.held + 1 < word
      → bget root_dev n t.storage.cache ≡ some (b, c)
      → Step t (with_cache t c (record { buffer = b; block = n } ∷ t.held))
  lock :
      (me : ℕ) (r : Ref) (l : Sleeplock)
      → Held r t.held
      → acquiresleep me (buf_of t r.buffer).lock ≡ some l
      → Step t (record t {
        storage = set_buf r.buffer (record (buf_of t r.buffer) { lock = l }) t.storage;
      })
  fill :
      (me : ℕ) (r : Ref) → Locks me t r → Step t (record t { storage = read_in r.buffer t.storage })
  change :
      (me : ℕ) (r : Ref) (new : Block)
      → Locks me t r
      → (buf_of t r.buffer).valid ≡ true
      → Step t (record t {
        storage = changed r.buffer new t.storage;
        written = update t.written r.block new;
      })
  flush :
      (me : ℕ) (r : Ref) (s : Storage)
      → Held r t.held
      → (buf_of t r.buffer).valid ≡ true
      → bwrite me r.buffer t.storage ≡ some s
      → Step t (record t { storage = s })
  free :
      (me : ℕ) (r : Ref)
      → Locks me t r
      → Step t (with_cache t (unlock r.buffer t.storage.cache) t.held)
  drop :
      (xs ys : List Ref) (r : Ref)
      → t.held ≡ xs ++ r ∷ ys
      → MayGo t r (xs ++ ys)
      → Step t (with_cache t (drop_ref r.buffer t.storage.cache) (xs ++ ys))
  pin :
      (r : Ref)
      → length t.held + 1 < word
      → Held r t.held
      → Step t (with_cache t (bpin r.buffer t.storage.cache) (r ∷ t.held))
  unpin :
      (xs ys : List Ref) (r : Ref)
      → t.held ≡ xs ++ r ∷ ys
      → MayGo t r (xs ++ ys)
      → Step t (with_cache t (bunpin r.buffer t.storage.cache) (xs ++ ys))

abbrev pub booted : Bcache → (ℕ → Block) → State
booted c disk = record {
  storage = record { cache = binit c; disk = disk };
  held = [];
  written = disk;
}

pub data Reach (c : Bcache) (disk : ℕ → Block) : State → Type 0 where
  boot : Reach c disk (booted c disk)
  next : {t u : State} → Reach c disk t → Step t u → Reach c disk u

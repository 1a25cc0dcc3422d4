-- ===== src/Bcache/Tests.antt =====
-- Runs of kernel/bio.c from boot on, and its theorems at them.
use os_assignments.Prelude.{
  ℕ, ◌+◌, ◌<◌, ◌≡◌, refl, true, false, arith, inl, inr, [], ◌∷◌, update, some, word,
}
use mathlib.Core.Path.{subst}
use os_assignments.Bcache.{
  take_ref, Block, Buf, Bcache, Storage, returns, nbuf, root_dev, bread, holdingsleep, releasesleep,
  push, unlink, bwrite, brelse, binit, bget, acquiresleep, read_in, unlock, drop_ref, set_buf,
  put_buf, recycled,
}
use os_assignments.Bcache.Contents.{IsSound}
use os_assignments.Bcache.Read.{Reads, bread-Reads}
use os_assignments.Bcache.Release.{Releases, brelse-Releases}
use os_assignments.Bcache.Boot.{stack, binit-IsSound, binit-refcnt}
use os_assignments.Bcache.Refs.{Ref}
use os_assignments.Bcache.Steps.{
  State, Reach, boot, next, get, lock, fill, change, flush, free, drop, with_cache,
}
use os_assignments.Bcache.Serial.{Current, Reach-Current}

abbrev zero_buf : Buf
zero_buf = record {
  valid = false;
  dev = 0;
  blockno = 0;
  lock = record { locked = false; pid = 0 };
  refcnt = 0;
  bytes = λ i. 0;
}

abbrev zero_cache : Bcache
zero_cache = record { buf = λ b. zero_buf; next = λ b. 0; prev = λ b. 0 }

-- Byte `i` of block `n` is `n + i`.
abbrev a_disk : ℕ → Block
a_disk n i = n + i

abbrev booted : Storage
booted = record { cache = binit zero_cache; disk = a_disk }

few_at_boot : (q : ℕ) → q < nbuf → (booted.cache.buf q).refcnt + 1 < word
few_at_boot q lt = ground (arith, binit-refcnt zero_cache q)

-- Process 7 reads block 5 into buffer 0, which was the last of the list.
abbrev taken : Storage
taken = set_buf 0 (recycled root_dev 5 (booted.cache.buf 0)) booted

abbrev locked_by_7 : Storage
locked_by_7 =
    set_buf 0 (record (taken.cache.buf 0) { lock = record { locked = true; pid = 7 } }) taken

abbrev one_read : Storage
one_read =
    set_buf 0 (record (locked_by_7.cache.buf 0) { bytes = a_disk 5; valid = true }) locked_by_7

reads_first : bread 7 root_dev 5 booted ≡ returns 0 one_read
unfolding bread binit push
reads_first = refl

-- The reference of process 7, and the states up to the end of its `bread`.
abbrev ref5 : Ref
ref5 = record { buffer = 0; block = 5 }

abbrev at_boot : State
at_boot = record { storage = booted; held = []; written = a_disk }

abbrev has_read : State
has_read = record { storage = one_read; held = ref5 ∷ []; written = a_disk }

gets_first : bget root_dev 5 booted.cache ≡ some (0, taken.cache)
unfolding bget binit push
gets_first = refl

after_read : Reach zero_cache a_disk has_read
unfolding binit push acquiresleep holdingsleep read_in
after_read =
    next
      (next (next boot (get 5 0 taken.cache (omega arith) gets_first))
        (lock 7 ref5 (record { locked = true; pid = 7 }) (inl refl) refl))
      (fill 7 ref5 (inl refl, refl))

-- It changes the bytes, writes them and releases the buffer.
abbrev new_bytes : Block
new_bytes i = 9

abbrev has_changed : State
has_changed = record {
  storage = set_buf 0 (record (one_read.cache.buf 0) { bytes = new_bytes }) one_read;
  held = ref5 ∷ [];
  written = update a_disk 5 new_bytes;
}

abbrev saved : Storage
saved = record (has_changed.storage) { disk = update a_disk 5 new_bytes }

saves : bwrite 7 0 has_changed.storage ≡ some saved
unfolding bwrite binit push
saves = refl

abbrev has_saved : State
has_saved = record has_changed { storage = saved }

abbrev let_go : State
let_go = with_cache has_saved (drop_ref 0 (unlock 0 saved.cache)) []

after_release : Reach zero_cache a_disk let_go
unfolding binit push holdingsleep
after_release =
    next
      (next
        (next (next after_read (change 7 ref5 new_bytes (inl refl, refl) refl))
          (flush 7 ref5 saved (inl refl) refl saves))
        (free 7 ref5 (inl refl, refl)))
      (drop [] [] ref5 refl (inr refl))

-- Process 8 now reads the block, and finds its buffer.
abbrev again : State
again =
    with_cache let_go (put_buf 0 (take_ref (let_go.storage.cache.buf 0)) let_go.storage.cache)
      (ref5 ∷ [])

gets_again : bget root_dev 5 let_go.storage.cache ≡ some (0, again.storage.cache)
unfolding bget binit push unlink drop_ref releasesleep
gets_again = refl

after_again : Reach zero_cache a_disk again
after_again = next after_release (get 5 0 again.storage.cache (omega arith) gets_again)

Reach-Current_example : Current again ref5
Reach-Current_example =
    Reach-Current zero_cache a_disk (λ b lt. (refl, refl, refl)) after_again ref5 (inl refl)

boot-IsSound : IsSound booted (stack nbuf 0 [])
boot-IsSound = (binit-IsSound zero_cache a_disk (λ b lt. (refl, refl))).0

bread-Reads_example : Reads 1 7 root_dev 5 booted (stack nbuf 0 []) (bread 7 root_dev 5 booted)
bread-Reads_example =
    bread-Reads 7 root_dev 5 refl (stack nbuf 0 []) booted boot-IsSound few_at_boot

-- The buffer that process 7 has just read.
read-IsSound : IsSound one_read (stack nbuf 0 [])
read-IsSound =
    (subst (Reads 1 7 root_dev 5 booted (stack nbuf 0 [])) reads_first bread-Reads_example).5

brelse-Releases_example : Releases 7 0 one_read (stack nbuf 0 []) (brelse 7 0 one_read.cache)
brelse-Releases_example =
    brelse-Releases 7 0 one_read (stack nbuf 0 []) read-IsSound (omega arith) (omega arith)
      (omega arith) (λ last is_valid. refl)

-- ===== src/Bcache/Serial.antt =====
-- In every state that the steps of Bcache/Steps reach, each reference counts, and a valid buffer that
-- somebody refers to has what was last written to its block.
use os_assignments.Prelude.{
  ℕ, ◌+◌, ◌-◌, ◌%◌, ◌<◌, ◌≡◌, refl, sym, ap, ◌∙◌, true, false, ◌⊎◌, inl, inr, arith, List, [], ◌∷◌,
  ◌++◌, length, ◌==◌, Bool-cases, word, if◌then◌else◌,
}
use mathlib.Core.Path.{subst}
use os_assignments.Bcache.{
  Block, Buf, Bcache, Storage, nbuf, root_dev, read_in, drop_ref, bpin, bunpin, releasesleep,
}
use os_assignments.Bcache.Get.{bget-Gets, Gets}
use os_assignments.Bcache.Contents.{touch-IsSound, touch-Keeps}
use os_assignments.Bcache.Release.{drop_ref-Drops}
use os_assignments.Bcache.Boot.{binit-IsSound, binit-refcnt, stack}
use os_assignments.Bcache.Refs.{Ref, Held, refs, Held_at, Held_more, refs_at, length_less}
use os_assignments.Bcache.Steps.{
  State, Step, get, lock, fill, change, flush, free, drop, pin, unpin, Reach, boot, next, buf_of,
  with_cache, MayGo,
}
use os_assignments.Bcache.Written.{bytes-written, change-Shares, blockno-block, flush-Shares}
use os_assignments.Bcache.Shares.{
  Named, Shares, used, bounded, touch-Shares, fill-Shares, get-Shares,
}

-- A reference that goes.
module _ {t : State} (h : Shares t) (xs ys : List Ref) (r : Ref) (at : t.held ≡ xs ++ r ∷ ys)
    (may : MayGo t r (xs ++ ys)) where
  open h use {order, sound, shows, counts, few, named}

  on : Held r t.held
  on = subst (Held r) (sym at) (Held_at r xs ys)

  left-Held : (q : Ref) → Held q (xs ++ ys) → Held q t.held
  left-Held q held = subst (Held q) (sym at) (Held_more q r xs ys held)

  count : (b : ℕ) → refs b t.held ≡ refs b (xs ++ ys) + (if r.buffer == b then 1 else 0)
  count b = ap (refs b) at ∙ refs_at b r xs ys

  fewer : length (xs ++ ys) < word
  fewer = omega (arith, few, ap (length {A = Ref}) at, length_less r xs ys)

  clean :
      (buf_of t r.buffer).refcnt ≡ 1
      → (buf_of t r.buffer).valid ≡ true
      → (buf_of t r.buffer).bytes ≡ t.storage.disk (buf_of t r.buffer).blockno
  clean last is_valid = elim may [
    | inl more ↦ absurd (ground (arith, counts r.buffer (named r on).0, count r.buffer))
    | inr saved ↦
        bytes-written h r on is_valid
        ∙ (saved ∙ ap t.storage.disk (sym (blockno-block h r on is_valid)))
  ]

  drop-Shares : Shares (with_cache t (drop_ref r.buffer t.storage.cache) (xs ++ ys))
  drop-Shares =
      let lt = (named r on).0 in
      let (bufs, keeps, (order', moved, sound')) =
        drop_ref-Drops r.buffer t.storage order sound lt (used h r on) (bounded h r.buffer lt)
          clean in
      record {
        order = order';
        sound = sound';
        shows = λ n. keeps root_dev n (t.written n) (shows n);
        counts =
            λ q lq. ap (λ (f : ℕ → Buf). (f q).refcnt) bufs ∙ ground (arith, counts q lq, count q);
        few = fewer;
        named = λ q oq. rw bufs (ground (arith, named q (left-Held q oq)));
      }

  unpin-Shares : Shares (with_cache t (bunpin r.buffer t.storage.cache) (xs ++ ys))
  unfolding bunpin
  unpin-Shares =
      let lt = (named r on).0 in
      let v = record (buf_of t r.buffer) {
        refcnt = ((buf_of t r.buffer).refcnt + (word - 1)) % word;
      } in
      let some_ref = used h r on in
      let small = bounded h r.buffer lt in
      let down : v.refcnt ≡ (buf_of t r.buffer).refcnt - 1 = ground arith in
      record {
        order = order;
        sound =
            touch-IsSound t.storage order sound r.buffer lt v (refl, refl, refl, refl)
              (λ is_valid free. clean (ground arith) is_valid);
        shows = λ n.
            touch-Keeps t.storage order sound r.buffer lt v (refl, refl, refl, refl) root_dev n
              (t.written n) (shows n);
        counts = λ q lq. ground (arith, counts q lq, count q, down);
        few = fewer;
        named = λ q oq. ground (arith, named q (left-Held q oq));
      }

Step-Shares : {t u : State} → Step t u → Shares t → Shares u
unfolding bpin
Step-Shares {t} (get n b c more e) h = get-Shares h n b c more (
    subst (Gets root_dev n t.storage.cache h.order) e
      (bget-Gets root_dev n t.storage.cache h.order h.sound.0))
Step-Shares {t} (lock me r l on e) h =
    touch-Shares h r (record (buf_of t r.buffer) { lock = l }) on (refl, refl, refl, refl) refl
Step-Shares (fill me r (on, locked)) h = fill-Shares h r on
Step-Shares (change me r new (on, locked) is_valid) h = change-Shares h r on is_valid new
Step-Shares (flush me r s on is_valid e) h = flush-Shares h r on is_valid me s e
Step-Shares {t} (free me r (on, locked)) h =
    touch-Shares h r (record (buf_of t r.buffer) { lock = releasesleep (buf_of t r.buffer).lock })
      on (refl, refl, refl, refl) refl
Step-Shares (drop xs ys r at may) h = drop-Shares h xs ys r at may
Step-Shares {t} (pin r more on) h =
    get-Shares h r.block r.buffer (bpin r.buffer t.storage.cache) more
      ((h.named r on).0, inl ((h.named r on).1, refl))
Step-Shares (unpin xs ys r at may) h = unpin-Shares h xs ys r at may

read_in-valid : (b : ℕ) (s : Storage) → ((read_in b s).cache.buf b).valid ≡ true
unfolding read_in
read_in-valid b s = ground arith

abbrev pub Zeroed : Bcache → Type 0
Zeroed c =
    (b : ℕ) → b < nbuf → ((c.buf b).dev ≡ 0) × ((c.buf b).valid ≡ false) × ((c.buf b).refcnt ≡ 0)

-- The buffer that a reference is to.
pub record Current (t : State) (r : Ref) : Type 0 where
  pub holds : Named t.storage r
  pub counted : (buf_of t r.buffer).refcnt ≡ refs r.buffer t.held
  pub bytes : ((buf_of t r.buffer).valid ≡ false) ⊎ ((buf_of t r.buffer).bytes ≡ t.written r.block)
  pub filled : ((read_in r.buffer t.storage).cache.buf r.buffer).bytes ≡ t.written r.block
  pub alone : (q : Ref) → Held q t.held → q.block ≡ r.block → q.buffer ≡ r.buffer

Reach-Shares : (c : Bcache) (disk : ℕ → Block) → Zeroed c → {t : State} → Reach c disk t → Shares t
Reach-Shares c disk zeroed boot =
    let (sound, shows) = binit-IsSound c disk (λ b lt. ((zeroed b lt).0, (zeroed b lt).1)) in
    record {
      order = stack nbuf 0 [];
      sound = sound;
      shows = λ n. shows root_dev n;
      counts = λ b lt. binit-refcnt c b ∙ (zeroed b lt).2;
      few = omega arith;
      named = λ r on. absurd on;
    }
Reach-Shares c disk zeroed (next reach step) = Step-Shares step (Reach-Shares c disk zeroed reach)

-- From a zeroed cache and any disk on, in every interleaving of the critical sections of bget, acquiresleep,
-- the read of bread, changes, bwrite, releasesleep, brelse, bpin and bunpin: a buffer that somebody
-- refers to is in use for the block it was taken for, and for no other, its count is the
-- number of references, a further reference to the block is to the same buffer, its bytes are not valid or are those that were
-- last written to the block, in the cache or before boot on the disk, and after the read of
-- bread they are those. A caller gives up the last reference only when the disk has what was
-- last written, and there are fewer than 2^32 references.
pub Reach-Current :
    (c : Bcache) (disk : ℕ → Block)
    → Zeroed c
    → {t : State} → Reach c disk t
    → (r : Ref) → Held r t.held
    → Current t r
Reach-Current c disk zeroed {t} reach r on =
    let h = Reach-Shares c disk zeroed reach in
    let f = fill-Shares h r on in
    record {
      holds = h.named r on;
      counted = h.counts r.buffer (h.named r on).0;
      bytes = elim (Bool-cases (buf_of t r.buffer).valid) [
        | inl is_valid ↦ inr (bytes-written h r on is_valid)
        | inr stale ↦ inl stale
      ];
      filled = bytes-written f r on (read_in-valid r.buffer t.storage);
      alone = λ q oq same.
          (let (lq, mq) = h.named q oq in
            let (lt, mine) = h.named r on in ground (arith, h.sound.1 q.buffer r.buffer lq lt));
    }

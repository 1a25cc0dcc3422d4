-- ===== src/Bcache/Written.antt =====
-- A valid buffer of kernel/bio.c that is referenced: it has what was last written to its block, and a
-- change of it and bwrite keep that.
use os_assignments.Prelude.{
  ℕ, ◌<◌, ◌≡◌, ap, ◌∙◌, true, inl, inr, arith, ◌==◌, ==→eq, Bool-cases, update, some,
}
use mathlib.Core.Path.{subst}
use os_assignments.Bcache.{Block, Storage, nbuf, root_dev, is_block, bwrite}
use os_assignments.Bcache.Contents.{Shows, IsSound}
use os_assignments.Bcache.Refs.{Ref, Held}
use os_assignments.Bcache.Steps.{State, buf_of, changed}
use os_assignments.Bcache.Shares.{Shares, used}

-- A valid buffer that is referenced.
module _ {t : State} (h : Shares t) (r : Ref) (on : Held r t.held)
    (is_valid : (buf_of t r.buffer).valid ≡ true) where
  open h use {order, sound, shows, counts, few, named}

  -- No other buffer holds its block.
  alone : (q : ℕ) → q < nbuf → is_block root_dev r.block (buf_of t q) ≡ true → q ≡ r.buffer
  alone q lq here = let (lt, mine) = named r on in ground (arith, sound.1 q r.buffer lq lt)

  pub bytes-written : (buf_of t r.buffer).bytes ≡ t.written r.block
  bytes-written = (shows r.block).0 r.buffer (named r on).0 (named r on).1 is_valid

  change-Shows :
      (new : Block) (n : ℕ)
      → Shows (changed r.buffer new t.storage) root_dev n (update t.written r.block new n)
  change-Shows new n =
      let (lt, mine) = named r on in
      elim (Bool-cases (n == r.block)) [
        | inl e ↦ rw e (
          λ q lq here v. ground (arith, alone q lq, ==→eq n r.block e),
          λ none_valid. absurd (ground (arith, none_valid r.buffer lt, mine, ==→eq n r.block e)),
        )
        | inr e ↦ rw e (
          λ q lq here v. ground (arith, (shows n).0 q lq, mine),
          λ none_valid. (shows n).1 (λ q lq here. ground (arith, none_valid q lq)),
        )
      ]

  pub change-Shares :
      (new : Block)
      → Shares (record t {
        storage = changed r.buffer new t.storage;
        written = update t.written r.block new;
      })
  change-Shares new = record {
    order = order;
    sound = (
      sound.0,
      λ p q lp lq. ground (arith, sound.1 p q lp lq),
      λ q lq. elim (Bool-cases (q == r.buffer)) [
        | inl e ↦ rw e (λ v free. absurd (used h r on free))
        | inr e ↦ rw e (sound.2 q lq)
      ],
      λ q lq is. ground (arith, sound.3 q lq),
    );
    shows = change-Shows new;
    counts = λ q lq. ground (arith, counts q lq);
    few = few;
    named = λ q oq. ground (arith, named q oq);
  }

  abbrev flushed : Storage
  flushed = record (t.storage) {
    disk = update t.storage.disk (buf_of t r.buffer).blockno (buf_of t r.buffer).bytes;
  }

  pub blockno-block : (buf_of t r.buffer).blockno ≡ r.block
  blockno-block = let (lt, mine) = named r on in ground (arith, mine)

  flush-IsSound : IsSound flushed order
  flush-IsSound = (
    sound.0,
    sound.1,
    λ q lq v free. elim (Bool-cases ((buf_of t q).blockno == (buf_of t r.buffer).blockno)) [
      | inl e ↦ rw e (
          ap (λ p. (buf_of t p).bytes)
            (alone q lq (ground (arith, sound.3 q lq v, e, blockno-block))))
      | inr e ↦ rw e (sound.2 q lq v free)
    ],
    sound.3,
  )

  pub flush-Shares :
      (me : ℕ) (s : Storage)
      → bwrite me r.buffer t.storage ≡ some s
      → Shares (record t { storage = s })
  unfolding bwrite
  flush-Shares me s e =
      let same : flushed ≡ s = ground arith in
      let (lt, mine) = named r on in
      subst (λ s. Shares (record t { storage = s })) same
        (record {
          order = order;
          sound = flush-IsSound;
          shows = λ n. (
            (shows n).0,
            λ none_valid. elim (Bool-cases (n == (buf_of t r.buffer).blockno)) [
              | inl at ↦
                  let here : n ≡ r.block = ==→eq n (buf_of t r.buffer).blockno at ∙ blockno-block in
                  absurd (ground (arith, none_valid r.buffer lt, mine, here))
              | inr at ↦ rw at ((shows n).1 none_valid)
            ],
          );
          counts = counts;
          few = few;
          named = named;
        })

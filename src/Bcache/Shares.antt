-- ===== src/Bcache/Shares.antt =====
-- What holds between the steps of Bcache/Steps, and that taking a reference, a change of a lock and
-- the read of a buffer keep it.
use os_assignments.Prelude.{
  ℕ, ◌+◌, ◌<◌, ◌≡◌, ◌≢◌, refl, sym, ap, ◌∙◌, true, inl, inr, arith, List, ◌∷◌, length, some, word,
}
use mathlib.Core.Path.{subst}
use os_assignments.Bcache.{
  Buf, Bcache, Storage, nbuf, root_dev, is_block, set_buf, take_ref, recycled, read_in,
}
use os_assignments.Bcache.Get.{Gets}
use os_assignments.Bcache.Contents.{
  Shows, IsSound, Alike, touch-IsSound, touch-Keeps, recycle-IsSound, recycle-Keeps,
  read_in-IsSound, read_in-Keeps,
}
use os_assignments.Bcache.Refs.{Ref, Held, refs, Held-refs, refs-le}
use os_assignments.Bcache.Steps.{State, buf_of, with_cache}

-- The reference's buffer holds its block.
abbrev pub Named : Storage → Ref → Type 0
Named s r = (r.buffer < nbuf) × (is_block root_dev r.block (s.cache.buf r.buffer) ≡ true)

-- The cache is sound and shows each block as it was last written, `refcnt` counts the references held,
-- and each is to a buffer of its block.
pub record Shares (t : State) : Type 0 where
  pub order : List ℕ
  pub sound : IsSound t.storage order
  pub shows : (n : ℕ) → Shows t.storage root_dev n (t.written n)
  pub counts : (b : ℕ) → b < nbuf → (buf_of t b).refcnt ≡ refs b t.held
  pub few : length t.held < word
  pub named : (r : Ref) → Held r t.held → Named t.storage r

module _ {t : State} (h : Shares t) where
  open h use {order, sound, shows, counts, few, named}

  pub used : (r : Ref) → Held r t.held → (buf_of t r.buffer).refcnt ≢ 0
  used r on = omega (arith, counts r.buffer (named r on).0, Held-refs r t.held on)

  pub bounded : (b : ℕ) → b < nbuf → (buf_of t b).refcnt < word
  bounded b lt = omega (arith, counts b lt, refs-le b t.held)

  -- A referenced buffer gets the block, the count and the bytes that it had.
  pub touch-Shares :
      (r : Ref) (v : Buf)
      → Held r t.held
      → Alike (buf_of t r.buffer) v
      → v.refcnt ≡ (buf_of t r.buffer).refcnt
      → Shares (record t { storage = set_buf r.buffer v t.storage })
  touch-Shares r v on alike same =
      let lt = (named r on).0 in
      record {
        order = order;
        sound =
            touch-IsSound t.storage order sound r.buffer lt v alike
              (λ is_valid free. absurd (used r on (sym same ∙ free)));
        shows = λ n.
            touch-Keeps t.storage order sound r.buffer lt v alike root_dev n (t.written n)
              (shows n);
        counts = λ b lb. ground (arith, counts b lb, same);
        few = few;
        named = λ q oq. ground (arith, named q oq, alike);
      }

  pub fill-Shares :
      (r : Ref) → Held r t.held → Shares (record t { storage = read_in r.buffer t.storage })
  unfolding read_in
  fill-Shares r on =
      let (lt, mine) = named r on in
      let dev : (buf_of t r.buffer).dev ≡ root_dev = ground (arith, mine) in
      record {
        order = order;
        sound = read_in-IsSound t.storage order sound r.buffer lt dev;
        shows = λ n.
            read_in-Keeps t.storage order sound r.buffer lt dev root_dev n (t.written n) (shows n);
        counts = λ b lb. ground (arith, counts b lb);
        few = few;
        named = λ q oq. ground (arith, named q oq);
      }

  pub get-Shares :
      (n b : ℕ) (c : Bcache)
      → length t.held + 1 < word
      → Gets root_dev n t.storage.cache order (some (b, c))
      → Shares (with_cache t c (record { buffer = b; block = n } ∷ t.held))
  get-Shares n b c more (lt, inl (mine, e)) =
      let v = take_ref (buf_of t b) in
      let alike : Alike (buf_of t b) v = (refl, refl, refl, refl) in
      let up : v.refcnt ≡ (buf_of t b).refcnt + 1 = omega (arith, counts b lt, refs-le b t.held) in
      rw e (record {
        order = order;
        sound =
            touch-IsSound t.storage order sound b lt v alike
              (λ is_valid free. absurd (omega (arith, up, free)));
        shows =
            λ k. touch-Keeps t.storage order sound b lt v alike root_dev k (t.written k) (shows k);
        counts = λ q lq. ground (arith, counts q lq, up);
        few = omega arith;
        named = λ q on. elim on [
          | inl same ↦ subst (Named (set_buf b v t.storage)) same (lt, ground (arith, mine))
          | inr old ↦ ground (arith, named q old)
        ];
      })
  get-Shares n b c more (lt, inr (miss, free, e, _)) =
      let none_held : refs b t.held ≡ 0 = sym (counts b lt) ∙ free in
      rw e (record {
        order = order;
        sound = recycle-IsSound t.storage order sound b lt root_dev n free miss;
        shows = λ k.
            recycle-Keeps t.storage order sound b lt root_dev n free miss root_dev k (t.written k)
              (shows k);
        counts = λ q lq. ground (arith, counts q lq, none_held);
        few = omega arith;
        named = λ q on. elim on [
          | inl same ↦
              subst (Named (set_buf b (recycled root_dev n (buf_of t b)) t.storage)) same
                (lt, ground arith)
          | inr old ↦
              let other : q.buffer ≢ b =
                λ z. omega (arith, ap (λ x. refs x t.held) z, none_held, Held-refs q t.held old) in
              ground (arith, named q old)
        ];
      })

-- ===== src/Fs/Inode/Grow.antt =====
-- The change that `bmap` of kernel/fs.c makes to an inode: an empty slot gets a fresh block. It keeps
-- the file's bytes and everybody else's blocks.
use os_assignments.Prelude.{
  ℕ, ◌+◌, ◌-◌, ◌*◌, ◌≤◌, ◌<◌, ◌≡◌, ◌≢◌, refl, sym, ap, ◌∙◌, inl, inr, arith, none, true, false,
  ◌==◌, leb, update, Bool-cases, ==→eq, ==_false→ne,
}
use os_assignments.Fs.{SuperBlock, Disk, bsize, bblock, set_block, log_write}
use os_assignments.Fs.Logged.{Logs, Logs-refl, Logs-trans, change-Logs, with_block-Logs}
use os_assignments.Fs.Blocks.{in_use, with_block, zeros, in_use-with_block}
use os_assignments.Fs.Inode.{Inode, ndirect, nindirect, maxfile, get32, put32, set_addr}
use os_assignments.Fs.Inode.Codec.{get32-put32, get32-put32_apart}
use os_assignments.Fs.Inode.Slots.{
  nslots, slot, IsSound, content, Grown, Grown-IsSound, Grown-content, slot_cases,
}

-- A block that is in use by somebody else.
abbrev pub Foreign : SuperBlock → Inode → Disk → (x : ℕ) → Type 0
Foreign sb ip d x =
    (x < sb.size)
    × (in_use sb d x ≡ true)
    × ((c : ℕ) → c < sb.size → bblock c sb ≢ x)
    × ((k : ℕ) → k < nslots → x ≢ slot ip d k)

-- The inode stays sound and the same file, what belongs to others is untouched, and what has
-- changed is logged.
pub record Keeps (sb : SuperBlock) (ip : Inode) (d : Disk) (ip' : Inode) (d' : Disk) : Type 0 where
  pub sound : IsSound sb ip' d'
  pub bytes : (i : ℕ) → i < maxfile * bsize → content ip' d' i ≡ content ip d i
  pub foreign : (x : ℕ) → Foreign sb ip d x → Foreign sb ip' d' x × (d'.block x ≡ d.block x)
  pub inum : ip'.inum ≡ ip.inum
  pub size : ip'.size ≡ ip.size
  pub logs : Logs none d d'

pub Keeps-refl : (sb : SuperBlock) (ip : Inode) (d : Disk) → IsSound sb ip d → Keeps sb ip d ip d
Keeps-refl sb ip d s = record {
  sound = s;
  bytes = λ i lt. refl;
  foreign = λ x f. (f, refl);
  inum = refl;
  size = refl;
  logs = Logs-refl d;
}

pub Keeps-trans :
    (sb : SuperBlock) (ip : Inode) (d : Disk) (ip1 : Inode) (d1 : Disk) (ip2 : Inode) (d2 : Disk)
    → Keeps sb ip d ip1 d1
    → Keeps sb ip1 d1 ip2 d2
    → Keeps sb ip d ip2 d2
Keeps-trans sb ip d ip1 d1 ip2 d2 f g = record {
  sound = g.sound;
  bytes = λ i lt. g.bytes i lt ∙ f.bytes i lt;
  foreign = λ x h. let (h1, e1) = f.foreign x h in let (h2, e2) = g.foreign x h1 in (h2, e2 ∙ e1);
  inum = g.inum ∙ f.inum;
  size = g.size ∙ f.size;
  logs = Logs-trans none d d1 d2 f.logs g.logs;
}

pub Grown-Keeps :
    (sb : SuperBlock) (k a : ℕ) (ip : Inode) (d : Disk) (ip' : Inode) (d' : Disk)
    → IsSound sb ip d
    → Grown sb k a ip d ip' d'
    → Keeps sb ip d ip' d'
Grown-Keeps sb k a ip d ip' d' sound g = record {
  sound = Grown-IsSound sb k a ip d ip' d' sound g;
  bytes = Grown-content sb k a ip d ip' d' sound g;
  foreign = λ x (lt, used, no_bitmap, others). (
    (
      lt,
      ground (arith, g.marked x lt, used),
      no_bitmap,
      λ j lj. elim (slot_cases sb k a ip d ip' d' sound g j lj) [
        | inl (same, e) ↦ λ e'. ground (arith, ap (in_use sb d) (e' ∙ e), used, g.fresh)
        | inr (other, e) ↦ λ e'. others j lj (e' ∙ e)
      ],
    ),
    g.kept x used no_bitmap (others ndirect (omega arith)),
  );
  inum = g.inum;
  size = g.size;
  logs = g.logs;
}

get32-zeros : (p : ℕ) → get32 p zeros ≡ 0
unfolding get32
get32-zeros p = refl

module _ (sb : SuperBlock) (ip : Inode) (d : Disk) (sound : IsSound sb ip d) (a : ℕ)
    (on_disk : a < sb.size) (fresh : in_use sb d a ≡ false) where
  abbrev w : Disk
  w = with_block sb a d

  -- A block in use that is none of the bitmap.
  w-kept :
      (x : ℕ)
      → in_use sb d x ≡ true
      → ((c : ℕ) → c < sb.size → bblock c sb ≢ x)
      → w.block x ≡ d.block x
  w-kept x used no_bitmap =
      let apart : x ≢ a = λ e. ground (arith, ap (in_use sb d) e, used, fresh) in
      ground (arith, no_bitmap a on_disk)

  direct-others :
      (k : ℕ)
      → k ≤ ndirect
      → ip.addrs k ≡ 0
      → (j : ℕ) → j < nslots
      → j ≢ k
      → slot (set_addr k a ip) w j ≡ slot ip d j
  unfolding slot
  direct-others k le none_yet j lt other = elim (Bool-cases (leb j ndirect)) [
    | inl low ↦ ground arith
    | inr high ↦ elim (Bool-cases (k == ndirect)) [
      | inl e ↦
          let here : k ≡ ndirect = ==→eq k ndirect e in
          let gone : ip.addrs ndirect ≡ 0 = ap ip.addrs (sym here) ∙ none_yet in
          ground (arith, here, gone, get32-zeros ((j - (ndirect + 1)) * 4))
      | inr e ↦ elim (Bool-cases (ip.addrs ndirect == 0)) [
        | inl z ↦ ground arith
        | inr s ↦
            let ind : slot ip d ndirect ≡ ip.addrs ndirect = refl in
            let some_block : slot ip d ndirect ≢ 0 = ==_false→ne (ip.addrs ndirect) 0 s in
            let bytes : w.block (ip.addrs ndirect) ≡ d.block (ip.addrs ndirect) =
              w-kept (ip.addrs ndirect) (sound.used ndirect (omega arith) some_block).1
                (λ c h. sound.no_bitmap ndirect c (omega arith) some_block h) in
            let same : update ip.addrs k a ndirect ≡ ip.addrs ndirect = ground arith in
            rw (high, same, s, bytes) refl
      ]
    ]
  ]

  pub direct-Grown : (k : ℕ) → k ≤ ndirect → ip.addrs k ≡ 0 → Grown sb k a ip d (set_addr k a ip) w
  unfolding slot
  direct-Grown k le none_yet = record {
    range = omega arith;
    on_disk = on_disk;
    fresh = fresh;
    empty = ground arith;
    filled = ground arith;
    others = direct-others k le none_yet;
    zeroed = λ i. ground arith;
    marked = in_use-with_block sb d a sound.laid on_disk fresh;
    kept = λ x used no_bitmap other. w-kept x used no_bitmap;
    inum = refl;
    size = refl;
    logs = with_block-Logs sb a d;
  }

  -- An entry of the indirect block.
  module _ (some_ind : ip.addrs ndirect ≢ 0) where
    abbrev ind : ℕ
    ind = ip.addrs ndirect

    abbrev pub filled_in : ℕ → Disk
    filled_in j = log_write ind (set_block ind (put32 (j * 4) a (w.block ind)) w)

    ind-used : (ind < sb.size) × (in_use sb d ind ≡ true)
    unfolding slot
    ind-used = sound.used ndirect (omega arith) some_ind

    ind-no_bitmap : (c : ℕ) → c < sb.size → bblock c sb ≢ ind
    unfolding slot
    ind-no_bitmap c lt = sound.no_bitmap ndirect c (omega arith) some_ind lt

    ind-ne : ind ≢ a
    ind-ne e = ground (arith, ap (in_use sb d) e, ind-used.1, fresh)

    entry-others :
        (j : ℕ)
        → j < nindirect
        → (i : ℕ) → i < nslots
        → i ≢ j + (ndirect + 1)
        → slot ip (filled_in j) i ≡ slot ip d i
    unfolding slot
    entry-others j lj i lt other = elim (Bool-cases (leb i ndirect)) [
      | inl low ↦ rw low refl
      | inr high ↦
          let there : (ind == 0) ≡ false = ground arith in
          let self : (ind == ind) ≡ true = ground arith in
          let bytes : w.block ind ≡ d.block ind = w-kept ind ind-used.1 ind-no_bitmap in
          rw (high, there, self)
            (get32-put32_apart ((i - (ndirect + 1)) * 4) (j * 4) a (w.block ind) (ground arith)
              ∙ ap (get32 ((i - (ndirect + 1)) * 4)) bytes)
    ]

    entry-filled : (j : ℕ) → j < nindirect → slot ip (filled_in j) (j + (ndirect + 1)) ≡ a
    unfolding slot
    entry-filled j lj =
        let high : leb (j + (ndirect + 1)) ndirect ≡ false = ground arith in
        let there : (ind == 0) ≡ false = ground arith in
        let self : (ind == ind) ≡ true = ground arith in
        let place : j + (ndirect + 1) - (ndirect + 1) ≡ j = omega arith in
        rw (high, there, self, place)
          (get32-put32 (j * 4) a (w.block ind) (let small = sound.small in omega arith))

    entry-empty : (j : ℕ) → get32 (j * 4) (d.block ind) ≡ 0 → slot ip d (j + (ndirect + 1)) ≡ 0
    unfolding slot
    entry-empty j none_yet =
        let high : leb (j + (ndirect + 1)) ndirect ≡ false = ground arith in
        let there : (ind == 0) ≡ false = ground arith in
        let place : j + (ndirect + 1) - (ndirect + 1) ≡ j = omega arith in
        rw (high, there, place) none_yet

    slot-ind : slot ip d ndirect ≡ ind
    unfolding slot
    slot-ind = refl

    pub entry-Grown :
        (j : ℕ)
        → j < nindirect
        → get32 (j * 4) (d.block ind) ≡ 0
        → Grown sb (j + (ndirect + 1)) a ip d ip (filled_in j)
    entry-Grown j lj none_yet = record {
      range = omega arith;
      on_disk = on_disk;
      fresh = fresh;
      empty = entry-empty j none_yet;
      filled = entry-filled j lj;
      others = entry-others j lj;
      zeroed = λ i. (let ne = ind-ne in ground arith);
      marked = λ c lt.
          (let other : (bblock c sb == ind) ≡ false = ground (arith, ind-no_bitmap c lt) in
            rw other (in_use-with_block sb d a sound.laid on_disk fresh c lt));
      kept = λ x used no_bitmap other.
          (let apart : (x == ind) ≡ false = ground (arith, other, slot-ind) in
            rw apart (w-kept x used no_bitmap));
      inum = refl;
      size = refl;
      logs =
          Logs-trans none d w (filled_in j) (with_block-Logs sb a d)
            (change-Logs ind (put32 (j * 4) a (w.block ind)) w);
    }

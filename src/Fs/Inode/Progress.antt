-- ===== src/Fs/Inode/Progress.antt =====
-- How far the loop of `writei` of kernel/fs.c has come: the bytes of the source that stand in the file.
use os_assignments.Prelude.{
  ℕ, ◌+◌, ◌-◌, ◌*◌, ◌/◌, ◌%◌, ◌≤◌, ◌<◌, ◌≡◌, ◌≢◌, refl, sym, ap, ◌∙◌, inl, inr, arith, true, false,
  if◌then◌else◌, ◌==◌, ◌&&◌, leb, ltb, Bool-cases, ==→eq, ==_false→ne,
}
use os_assignments.Fs.{Block, SuperBlock, Disk, bsize, bblock, set_block, log_write}
use os_assignments.Fs.Logged.{Logs-refl, Logs-but, log_write-Logs}
use os_assignments.Fs.Inode.{Inode, ndirect, maxfile, Source}
use os_assignments.Fs.Inode.Slots.{nslots, slot, slot_of, IsSound, content}
use os_assignments.Fs.Inode.Grow.{Foreign, Keeps}
use os_assignments.Fs.Inode.Content.{
  byte, set_block-IsSound, set_block-Foreign, content-set_here, content-set_other, content-here,
}

module _ (sb : SuperBlock) (mem : Source) (ip0 : Inode) (d0 : Disk) (off0 src0 : ℕ) where
  -- The first `w` bytes of the source stand in the file from `off0` on, and nothing else has
  -- changed.
  pub record Progress (w : ℕ) (ip : Inode) (d : Disk) : Type 0 where
    pub sound : IsSound sb ip d
    pub bytes :
        (i : ℕ)
        → i < maxfile * bsize
        → content ip d i ≡ (
            if leb off0 i && ltb i (off0 + w)
            then byte (mem (src0 + (i - off0)))
            else content ip0 d0 i)
    pub foreign : (x : ℕ) → Foreign sb ip0 d0 x → Foreign sb ip d x × (d.block x ≡ d0.block x)
    pub inum : ip.inum ≡ ip0.inum
    pub size : ip.size ≡ ip0.size

  pub keep-Progress :
      (w : ℕ) (ip : Inode) (d : Disk) (ip1 : Inode) (d1 : Disk)
      → Progress w ip d
      → Keeps sb ip d ip1 d1
      → Progress w ip1 d1
  keep-Progress w ip d ip1 d1 p k = record {
    sound = k.sound;
    bytes = λ i lt. k.bytes i lt ∙ p.bytes i lt;
    foreign = λ x f. let (f1, e1) = p.foreign x f in let (f2, e2) = k.foreign x f1 in (f2, e2 ∙ e1);
    inum = k.inum ∙ p.inum;
    size = k.size ∙ p.size;
  }

  -- `j` bytes more into the block `a` of the place where the copy stands.
  module _ (w j a : ℕ) (ip : Inode) (d : Disk) (v : Block) (p : Progress w ip d)
      (range : off0 + w < maxfile * bsize) (pos : a ≢ 0)
      (at : slot ip d (slot_of ((off0 + w) / bsize)) ≡ a) (le : j ≤ bsize - (off0 + w) % bsize)
      (copied : (x : ℕ)
        → v x ≡ (
            if leb ((off0 + w) % bsize) x && ltb x ((off0 + w) % bsize + j)
            then byte (mem (src0 + w + (x - (off0 + w) % bsize)))
            else d.block a x)) where
    abbrev now : ℕ
    now = slot_of ((off0 + w) / bsize)

    now-range : now < nslots
    now-range = ground arith

    not_ind : a ≢ slot ip d ndirect
    not_ind e =
        let same =
          p.sound.apart now ndirect now-range (omega arith) (λ z. pos (sym at ∙ z)) (at ∙ e) in
        let other : now ≢ ndirect = ground arith in other same

    no_bitmap : (c : ℕ) → c < sb.size → bblock c sb ≢ a
    no_bitmap c lt e = p.sound.no_bitmap now c now-range (λ z. pos (sym at ∙ z)) lt (e ∙ sym at)

    -- Only this block of the file is `a`.
    only_block :
        (i : ℕ)
        → i < maxfile * bsize
        → slot ip d (slot_of (i / bsize)) ≡ a
        → i / bsize ≡ (off0 + w) / bsize
    only_block i lt e =
        let same =
          p.sound.apart (slot_of (i / bsize)) now (ground arith) now-range (λ z. pos (sym e ∙ z))
            (e ∙ sym at) in
        ground arith

    step-inside :
        (i : ℕ)
        → i < maxfile * bsize
        → i / bsize ≡ (off0 + w) / bsize
        → content ip (set_block a v d) i ≡ v (i % bsize)
        → content ip d i ≡ d.block a (i % bsize)
        → content ip (set_block a v d) i ≡ (
            if leb off0 i && ltb i (off0 + (w + j))
            then byte (mem (src0 + (i - off0)))
            else content ip0 d0 i)
    step-inside i lt same new old = elim (Bool-cases (leb (off0 + w) i && ltb i (off0 + (w + j)))) [
      | inl inside ↦
          let place : src0 + w + (i % bsize - (off0 + w) % bsize) ≡ src0 + (i - off0) =
            ground arith in
          let hit : (leb ((off0 + w) % bsize) (i % bsize)
                && ltb (i % bsize) ((off0 + w) % bsize + j))
              ≡ true =
            ground arith in
          let goal : (leb off0 i && ltb i (off0 + (w + j))) ≡ true = ground arith in
          let bytes : v (i % bsize) ≡ byte (mem (src0 + (i - off0))) =
            copied (i % bsize) ∙ (rw (hit, place) refl) in
          rw goal (new ∙ bytes)
      | inr outside ↦
          let miss : (leb ((off0 + w) % bsize) (i % bsize)
                && ltb (i % bsize) ((off0 + w) % bsize + j))
              ≡ false =
            ground arith in
          let was : v (i % bsize) ≡ d.block a (i % bsize) = copied (i % bsize) ∙ (rw miss refl) in
          let goal : (leb off0 i && ltb i (off0 + (w + j))) ≡ (leb off0 i && ltb i (off0 + w)) =
            ground arith in
          rw goal (new ∙ (was ∙ (sym old ∙ p.bytes i lt)))
    ]

    step-bytes :
        (i : ℕ)
        → i < maxfile * bsize
        → content ip (set_block a v d) i ≡ (
            if leb off0 i && ltb i (off0 + (w + j))
            then byte (mem (src0 + (i - off0)))
            else content ip0 d0 i)
    step-bytes i lt = elim (Bool-cases (i / bsize == (off0 + w) / bsize)) [
      | inl e ↦
          let same : i / bsize ≡ (off0 + w) / bsize = ==→eq (i / bsize) ((off0 + w) / bsize) e in
          let here : slot ip d (slot_of (i / bsize)) ≡ a =
            ap (λ b. slot ip d (slot_of b)) same ∙ at in
          let new = content-set_here sb ip d a v not_ind i here pos in
          let old = content-here ip d i a here pos in step-inside i lt same new old
      | inr e ↦
          let other = λ (h : slot ip d (slot_of (i / bsize)) ≡ a).
            ==_false→ne (i / bsize) ((off0 + w) / bsize) e (only_block i lt h) in
          let same = content-set_other sb ip d a v not_ind i other in
          let apart = ==_false→ne (i / bsize) ((off0 + w) / bsize) e in
          ground (arith, same, p.bytes i lt)
    ]

    pub step-Progress : Progress (w + j) ip (set_block a v d)
    step-Progress = record {
      sound = set_block-IsSound sb ip d a v not_ind p.sound no_bitmap;
      bytes = step-bytes;
      foreign = λ x f.
          let (f1, e1) = p.foreign x f in
          let other : x ≢ a = λ e. f1.3 now now-range (e ∙ sym at) in
          let (f2, e2) = set_block-Foreign sb ip d a v not_ind p.sound no_bitmap x other f1 in
          (f2, e2 ∙ e1);
      inum = p.inum;
      size = p.size;
    }

-- A block in the log does not change the file.
pub log_write-Keeps :
    (sb : SuperBlock) (ip : Inode) (d : Disk) (a : ℕ)
    → IsSound sb ip d
    → Keeps sb ip d ip (log_write a d)
unfolding slot content
log_write-Keeps sb ip d a s = record {
  sound = record {
    laid = s.laid;
    small = s.small;
    some_disk = s.some_disk;
    boot = s.boot;
    used = s.used;
    no_bitmap = s.no_bitmap;
    apart = s.apart;
  };
  bytes = λ i lt. refl;
  foreign = λ x f. (f, refl);
  inum = refl;
  size = refl;
  logs = log_write-Logs a d d (Logs-but a d d (Logs-refl d));
}

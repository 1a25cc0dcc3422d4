-- ===== src/Fs/Inode/Write.antt =====
-- `writei` of kernel/fs.c: what it makes of the file's bytes, of its size, and of everything else.
use os_assignments.Prelude.{
  ℕ, zero, suc, ◌+◌, ◌*◌, ◌/◌, ◌%◌, ◌≤◌, ◌<◌, ◌≡◌, ◌≢◌, refl, sym, ap, ◌∙◌, ◌⊎◌, inl, inr, arith,
  Bool, false, if◌then◌else◌, ltb, Bool-cases, Option, none, some, ◌>>=◌,
}
use mathlib.Core.Path.{subst}
use os_assignments.Fs.{Block, SuperBlock, Disk, bsize, set_block, log_write}
use os_assignments.Fs.Blocks.{in_use}
use os_assignments.Fs.Logged.{Logs, Logs-trans, Logs-but, set_block-Logs, log_write-Logs}
use os_assignments.Fs.Inode.{
  Inode, ndirect, maxfile, Source, copy_in, piece, Written, bmap, writei_loop,
}
use os_assignments.Fs.Inode.Slots.{slot, slot_of}
use os_assignments.Fs.Inode.Bmap.{Maps, bmap-Maps}
use os_assignments.Fs.Inode.Content.{slot-set_block, Copied, copy_in-Copied}
use os_assignments.Fs.Inode.Progress.{Progress, keep-Progress, step-Progress, log_write-Keeps}

-- What has changed is logged; after a fault, but for the block in which the fault has stopped the copy.
abbrev pub LogsPart : Inode → Disk → (off n tot w : ℕ) → Inode → Disk → Type 0
LogsPart ip0 d0 off n tot w ip d =
    ((w ≡ n) × Logs none d0 d)
    ⊎ ((w < n) × Logs (some (slot ip d (slot_of ((off + tot) / bsize)))) d0 d)

-- How the loop ends: with every byte, at a fault of the caller's memory, or by a panic of `bmap`.
abbrev pub HasWritten :
    SuperBlock → Source → Inode → Disk → (off src n tot w : ℕ) → Inode → Disk → Type 0
HasWritten sb mem ip0 d0 off src n tot w ip d =
    Progress sb mem ip0 d0 off src w ip d
    × (((tot ≡ n) × (w ≡ n)) ⊎ ((tot ≤ w) × (w < tot + bsize) × (w < n) × (mem (src + w) ≡ none)))
    × LogsPart ip0 d0 off n tot w ip d

abbrev pub Crowded : SuperBlock → Source → Inode → Disk → (off src n : ℕ) → Type 0
Crowded sb mem ip0 d0 off src n =
    (w : ℕ) × (ip : Inode) × (d : Disk) × (w < n)
    × Progress sb mem ip0 d0 off src w ip d
    × ((c e : ℕ)
        → c < sb.size
        → e < sb.size
        → in_use sb d c ≡ false
        → in_use sb d e ≡ false
        → c ≡ e)

abbrev pub Loops : SuperBlock → Source → Inode → Disk → (off src n : ℕ) → Option Written → Type 0
Loops sb mem ip0 d0 off src n none = Crowded sb mem ip0 d0 off src n
Loops sb mem ip0 d0 off src n (some r) =
    (w : ℕ) × (r.off ≡ off + r.tot) × HasWritten sb mem ip0 d0 off src n r.tot w r.inode r.disk

module _ (sb : SuperBlock) (mem : Source) (ip0 : Inode) (d0 : Disk) (off0 src0 n : ℕ)
    (range : off0 + n ≤ maxfile * bsize) where
  abbrev next : (k tot : ℕ) → ℕ × Inode × Disk → Option Written
  next k tot (a, ip1, d1) =
      let m = piece n tot (off0 + tot) in
      let copied = copy_in m ((off0 + tot) % bsize) (src0 + tot) mem (d1.block a) in
      let d2 = set_block a copied.1 d1 in
      if copied.0
      then writei_loop k sb mem n (tot + m) (off0 + tot + m) (src0 + tot + m) ip1 (log_write a d2)
      else some (record { tot = tot; off = off0 + tot; inode = ip1; disk = d2 })

  module _ (k tot : ℕ) (lt : tot < n) (fuel : n ≤ tot + suc k)
      (rest : (tot : ℕ) (ip : Inode) (d : Disk)
        → tot ≤ n
        → n ≤ tot + k
        → Progress sb mem ip0 d0 off0 src0 tot ip d
        → Logs none d0 d
        → Loops sb mem ip0 d0 off0 src0 n
            (writei_loop k sb mem n tot (off0 + tot) (src0 + tot) ip d)) where
    -- The block of the place is not the indirect block.
    no_ind :
        (ip : Inode) (d : Disk)
        → Progress sb mem ip0 d0 off0 src0 tot ip d
        → (a : ℕ) → a ≢ 0
        → slot ip d (slot_of ((off0 + tot) / bsize)) ≡ a
        → a ≢ slot ip d ndirect
    no_ind ip d p a pos at e =
        let same =
          p.sound.apart (slot_of ((off0 + tot) / bsize)) ndirect (ground arith) (omega arith)
            (λ z. pos (sym at ∙ z)) (at ∙ e) in
        let other : slot_of ((off0 + tot) / bsize) ≢ ndirect = ground arith in other same

    after_copy :
        (a : ℕ) (ip : Inode) (d : Disk) (r : Bool × Block)
        → Progress sb mem ip0 d0 off0 src0 tot ip d
        → Logs none d0 d
        → a ≢ 0
        → slot ip d (slot_of ((off0 + tot) / bsize)) ≡ a
        → Copied (piece n tot (off0 + tot)) ((off0 + tot) % bsize) (src0 + tot) mem (d.block a) r
        → Loops sb mem ip0 d0 off0 src0 n (
            let m = piece n tot (off0 + tot) in
            let d2 = set_block a r.1 d in
            if r.0
            then writei_loop k sb mem n
                (tot + m)
                (off0 + tot + m)
                (src0 + tot + m)
                ip
                (log_write a d2)
            else some (record { tot = tot; off = off0 + tot; inode = ip; disk = d2 }))
    after_copy a ip d (done, v) p logs pos at (j, le, why, bytes) =
        let m = piece n tot (off0 + tot) in
        let d2 = set_block a v d in
        let q : Progress sb mem ip0 d0 off0 src0 (tot + j) ip d2 =
          step-Progress sb mem ip0 d0 off0 src0 tot j a ip d v p (omega arith) pos at (ground arith)
            bytes in
        let but : Logs (some a) d0 d2 =
          Logs-trans (some a) d0 d d2 (Logs-but a d0 d logs) (set_block-Logs a v d) in
        elim why [
          | inl (e, all) ↦
              let logged =
                keep-Progress sb mem ip0 d0 off0 src0 (tot + j) ip d2 ip (log_write a d2) q
                  (log_write-Keeps sb ip d2 a q.sound) in
              let moved =
                subst (λ x. Progress sb mem ip0 d0 off0 src0 (tot + x) ip (log_write a d2)) all
                  logged in
              let o : off0 + tot + m ≡ off0 + (tot + m) = omega arith in
              let s : src0 + tot + m ≡ src0 + (tot + m) = omega arith in
              rw (e, o, s)
                (rest (tot + m) ip (log_write a d2) (ground arith) (ground arith) moved
                  (log_write-Logs a d0 d2 but))
          | inr (e, less, fault) ↦
              let there : src0 + (tot + j) ≡ src0 + tot + j = omega arith in
              rw e (
                tot + j,
                refl,
                (
                  q,
                  inr (omega arith, ground arith, ground arith, ap mem there ∙ fault),
                  inr (
                    ground arith,
                    subst (λ b. Logs (some b) d0 d2)
                        (sym (
                          slot-set_block sb ip d a v (no_ind ip d p a pos at)
                            (slot_of ((off0 + tot) / bsize))
                          ∙ at))
                        but,
                  ),
                ),
              )
        ]

    after_bmap :
        (ip : Inode) (d : Disk) (o : Option (ℕ × Inode × Disk))
        → Progress sb mem ip0 d0 off0 src0 tot ip d
        → Logs none d0 d
        → Maps sb ip (slot_of ((off0 + tot) / bsize)) d o
        → Loops sb mem ip0 d0 off0 src0 n (o >>= next k tot)
    after_bmap ip d none p logs crowded = (tot, ip, d, lt, p, crowded)
    after_bmap ip d (some (a, ip1, d1)) p logs (pos, at, keeps, same) =
        after_copy a ip1 d1
          (copy_in (piece n tot (off0 + tot)) ((off0 + tot) % bsize) (src0 + tot) mem (d1.block a))
          (keep-Progress sb mem ip0 d0 off0 src0 tot ip d ip1 d1 p keeps)
          (Logs-trans none d0 d d1 logs keeps.logs) pos at
          (copy_in-Copied (piece n tot (off0 + tot)) ((off0 + tot) % bsize) (src0 + tot) mem
            (d1.block a))

  pub writei_loop-Loops :
      (k tot : ℕ) (ip : Inode) (d : Disk)
      → tot ≤ n
      → n ≤ tot + k
      → Progress sb mem ip0 d0 off0 src0 tot ip d
      → Logs none d0 d
      → Loops sb mem ip0 d0 off0 src0 n (writei_loop k sb mem n tot (off0 + tot) (src0 + tot) ip d)
  unfolding writei_loop
  writei_loop-Loops zero tot ip d le fuel p logs =
      let e : tot ≡ n = omega arith in (tot, refl, (p, inl (e, e), inl (e, logs)))
  writei_loop-Loops (suc k) tot ip d le fuel p logs = elim (Bool-cases (ltb tot n)) [
    | inl lt ↦ rw lt (
        after_bmap k tot (ground arith) fuel (writei_loop-Loops k) ip d
          (bmap sb ip ((off0 + tot) / bsize) d) p logs
          (bmap-Maps sb ip d p.sound ((off0 + tot) / bsize) (ground arith)))
    | inr ge ↦ let e : tot ≡ n = ground arith in rw ge (tot, refl, (p, inl (e, e), inl (e, logs)))
  ]

-- ===== src/Fs/Inode/Read.antt =====
-- `readi` of kernel/fs.c: which bytes it gives to its caller, and what it keeps.
use os_assignments.Prelude.{
  ℕ, zero, suc, ◌+◌, ◌-◌, ◌*◌, ◌/◌, ◌%◌, ◌≤◌, ◌<◌, ◌≡◌, ◌≢◌, refl, sym, ap, ◌∙◌, inl, inr, arith,
  Bool, if◌then◌else◌, ◌||◌, ltb, word, Bool-cases, Option, none, some, min, ◌>>=◌,
}
use mathlib.Core.Path.{subst}
use os_assignments.Fs.{SuperBlock, Disk, bsize}
use os_assignments.Fs.Inode.{
  Inode, maxfile, Target, copy_out, piece, WasRead, bmap, readi_loop, readi,
}
use os_assignments.Fs.Inode.Slots.{slot, slot_of, IsSound}
use os_assignments.Fs.Inode.Grow.{Keeps-refl, Keeps-trans}
use os_assignments.Fs.Inode.Bmap.{Maps, bmap-Maps}
use os_assignments.Fs.Inode.ReadUpTo.{CopiedOut, copy_out-CopiedOut, ReadUpTo, Reads, step-ReadUpTo}

module _ (sb : SuperBlock) (ip0 : Inode) (d0 : Disk) (t0 : Target) (off dst n : ℕ)
    (range : off + n ≤ maxfile * bsize) where
  abbrev next : (k tot : ℕ) → Target → ℕ × Inode × Disk → Option WasRead
  next k tot t (a, ip1, d1) =
      let m = piece n tot (off + tot) in
      let copied = copy_out m ((off + tot) % bsize) (dst + tot) (d1.block a) t in
      if copied.0
      then readi_loop k sb n (tot + m) (off + tot + m) (dst + tot + m) ip1 d1 copied.1
      else some (record { ret = word - 1; inode = ip1; disk = d1; target = copied.1 })

  module _ (k tot : ℕ) (lt : tot < n) (fuel : n ≤ tot + suc k)
      (rest : (tot : ℕ) (ip : Inode) (d : Disk) (t : Target)
        → tot ≤ n
        → n ≤ tot + k
        → ReadUpTo sb ip0 d0 t0 off dst tot ip d t
        → Reads sb ip0 d0 t0 off dst n (readi_loop k sb n tot (off + tot) (dst + tot) ip d t)) where
    after_copy :
        (a : ℕ) (ip : Inode) (d : Disk) (t : Target) (r : Bool × Target)
        → ReadUpTo sb ip0 d0 t0 off dst tot ip d t
        → a ≢ 0
        → slot ip d (slot_of ((off + tot) / bsize)) ≡ a
        → CopiedOut (piece n tot (off + tot)) ((off + tot) % bsize) (dst + tot) (d.block a) t r
        → Reads sb ip0 d0 t0 off dst n (
            let m = piece n tot (off + tot) in
            if r.0
            then readi_loop k sb n (tot + m) (off + tot + m) (dst + tot + m) ip d r.1
            else some (record { ret = word - 1; inode = ip; disk = d; target = r.1 }))
    after_copy a ip d t (done, t') p pos at (j, le, why, bytes, same) =
        let m = piece n tot (off + tot) in
        let q : ReadUpTo sb ip0 d0 t0 off dst (tot + j) ip d t' =
          step-ReadUpTo sb ip0 d0 t0 off dst tot j a ip d t t' p (ground arith) pos at
            (ground arith) bytes same in
        elim why [
          | inl (e, all) ↦
              let moved = subst (λ x. ReadUpTo sb ip0 d0 t0 off dst (tot + x) ip d t') all q in
              let o : off + tot + m ≡ off + (tot + m) = omega arith in
              let s : dst + tot + m ≡ dst + (tot + m) = omega arith in
              rw (e, o, s) (rest (tot + m) ip d t' (ground arith) (ground arith) moved)
          | inr (e, less, fault) ↦
              let there : dst + (tot + j) ≡ dst + tot + j = omega arith in
              rw e (
                tot + j,
                q,
                inr (
                  refl,
                  ground arith,
                  ap t0.writable there ∙ (ap (λ f. f (dst + tot + j)) (sym p.writable) ∙ fault),
                ),
              )
        ]

    after_bmap :
        (ip : Inode) (d : Disk) (t : Target) (o : Option (ℕ × Inode × Disk))
        → ReadUpTo sb ip0 d0 t0 off dst tot ip d t
        → Maps sb ip (slot_of ((off + tot) / bsize)) d o
        → Reads sb ip0 d0 t0 off dst n (o >>= next k tot t)
    after_bmap ip d t none p crowded = (tot, ip, d, lt, p.keeps, crowded)
    after_bmap ip d t (some (a, ip1, d1)) p (pos, at, keeps, same) =
        let q : ReadUpTo sb ip0 d0 t0 off dst tot ip1 d1 t = record {
          keeps = Keeps-trans sb ip0 d0 ip d ip1 d1 p.keeps keeps;
          bytes = p.bytes;
          writable = p.writable;
        } in
        after_copy a ip1 d1 t
          (copy_out (piece n tot (off + tot)) ((off + tot) % bsize) (dst + tot) (d1.block a) t) q
          pos at
          (copy_out-CopiedOut (piece n tot (off + tot)) ((off + tot) % bsize) (dst + tot)
            (d1.block a) t)

  pub readi_loop-Reads :
      (k tot : ℕ) (ip : Inode) (d : Disk) (t : Target)
      → tot ≤ n
      → n ≤ tot + k
      → ReadUpTo sb ip0 d0 t0 off dst tot ip d t
      → Reads sb ip0 d0 t0 off dst n (readi_loop k sb n tot (off + tot) (dst + tot) ip d t)
  unfolding readi_loop
  readi_loop-Reads zero tot ip d t le fuel p = let e : tot ≡ n = omega arith in (tot, p, inl (e, e))
  readi_loop-Reads (suc k) tot ip d t le fuel p = elim (Bool-cases (ltb tot n)) [
    | inl lt ↦ rw lt (
        after_bmap k tot (ground arith) fuel (readi_loop-Reads k) ip d t
          (bmap sb ip ((off + tot) / bsize) d) p
          (bmap-Maps sb ip d p.keeps.sound ((off + tot) / bsize) (ground arith)))
    | inr ge ↦ let e : tot ≡ n = ground arith in rw ge (tot, p, inl (e, e))
  ]

-- The bytes that there are to read.
abbrev pub readable : Inode → (off n : ℕ) → ℕ
readable ip off n =
    if ltb ip.size off || ltb ((off + n) % word) off then 0 else min n (ip.size - off)

start-ReadUpTo :
    (sb : SuperBlock) (ip : Inode) (d : Disk) (t : Target) (off dst : ℕ)
    → IsSound sb ip d
    → ReadUpTo sb ip d t off dst 0 ip d t
start-ReadUpTo sb ip d t off dst sound = record {
  keeps = Keeps-refl sb ip d sound;
  bytes = λ x. ground arith;
  writable = refl;
}

loop_from_start :
    (sb : SuperBlock) (ip : Inode) (d : Disk) (t : Target) (off dst n : ℕ)
    → IsSound sb ip d
    → off + n ≤ maxfile * bsize
    → Reads sb ip d t off dst n (readi_loop n sb n 0 off dst ip d t)
loop_from_start sb ip d t off dst n sound range =
    let o : off + 0 ≡ off = omega arith in
    let s : dst + 0 ≡ dst = omega arith in
    subst (λ (x, y). Reads sb ip d t off dst n (readi_loop n sb n 0 x y ip d t)) (λ i. (o i, s i))
      (readi_loop-Reads sb ip d t off dst n range n 0 ip d t (omega arith) (omega arith)
        (start-ReadUpTo sb ip d t off dst sound))

pub readi-Reads :
    (sb : SuperBlock) (ip : Inode) (d : Disk) (t : Target) (off dst n : ℕ)
    → IsSound sb ip d
    → ip.size ≤ maxfile * bsize
    → off < word
    → n < word
    → Reads sb ip d t off dst (readable ip off n) (readi sb ip dst off n d t)
unfolding readi
readi-Reads sb ip d t off dst n sound size lo ln =
    elim (Bool-cases (ltb ip.size off || ltb ((off + n) % word) off)) [
      | inl behind ↦ rw behind (0, start-ReadUpTo sb ip d t off dst sound, inl (refl, refl))
      | inr ok ↦
          let left : (if ltb ip.size ((off + n) % word) then ip.size - off else n)
              ≡ min n (ip.size - off) =
            ground arith in
          rw (ok, left)
            (loop_from_start sb ip d t off dst (min n (ip.size - off)) sound (ground arith))
    ]

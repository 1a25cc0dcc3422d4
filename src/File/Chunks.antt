-- ===== src/File/Chunks.antt =====
-- `filewrite` of kernel/file.c on an inode: transactions of bounded size, one behind the other.
use os_assignments.Prelude.{
  ℕ, zero, suc, ◌+◌, ◌-◌, ◌%◌, ◌^◌, ◌≤◌, ◌<◌, ◌≡◌, ◌≢◌, refl, ap, true, ◌⊎◌, inl, inr, arith, ◌==◌,
  ==→eq, ==_false→ne, Bool-cases, word, int_lt, rounds_small, min,
}
use mathlib.Core.Path.{subst}
use os_assignments.File.{
  File, fd_inode, Transfer, Result, result, panic, out_of_fuel, max_write, minus_one, advance,
  chunk, transaction, filewrite_loop, filewrite_as, filewrite,
}

module _ {A : Type 0} (io : Transfer A) (ip addr off : ℕ) (a0 : A) where
  -- The first `i` bytes have been written at `off` and behind, in transactions of at most
  -- `max_write` bytes that each wrote all of theirs.
  pub data Written : (i : ℕ) → A → Type 0 where
    none-Written : Written 0 a0
    more-Written :
        {i : ℕ} {a a' : A} (k : ℕ)
        → Written i a
        → 0 < k
        → k ≤ max_write
        → transaction io ip (addr + i) (off + i) k a ≡ (k, a')
        → Written (i + k) a'

  -- It returns `n` with all written, or -1 behind a transaction that wrote less than its bytes.
  abbrev pub Wrote : (n : ℕ) → Result A → Type 0
  Wrote n (result ret off' a') =
      ((ret ≡ n) × (off' ≡ off + n) × Written n a')
      ⊎ ((ret ≡ minus_one)
          × ((i : ℕ) × (a : A) × (r : ℕ) × Written i a
              × (i < n)
              × (transaction io ip (addr + i) (off + i) (min max_write (n - i)) a ≡ (r, a'))
              × (r ≢ min max_write (n - i))
              × (off' ≡ advance (off + i) r)))
  Wrote n panic = ⊥
  Wrote n out_of_fuel = ⊥

  filewrite_loop-Wrote :
      (fuel i n : ℕ) (a : A)
      → i ≤ n
      → n < i + fuel
      → n < 2 ^ 31
      → off + n < word
      → Written i a
      → Wrote n (filewrite_loop io fuel ip addr (off + i) i n a)
  unfolding filewrite_loop
  filewrite_loop-Wrote zero i n a le enough small fits w = absurd (omega arith)
  filewrite_loop-Wrote (suc fuel) i n a le enough small fits w = elim (Bool-cases (int_lt i n)) [
    | inr all ↦
        let whole : i ≡ n = ground arith in
        let e : (i == n) ≡ true = ground arith in
        rw (all, e) (inl (refl, ground arith, subst (λ j. Written j a) whole w))
    | inl more ↦
        let size : chunk i n ≡ min max_write (n - i) = ground arith in
        let k = min max_write (n - i) in
        let done = transaction io ip (addr + i) (off + i) k a in
        elim (Bool-cases (done.0 == k)) [
          | inr short ↦
              rw (more, size, short)
                (inr
                  (refl, (i, a, done.0, w, ground arith, refl, ==_false→ne done.0 k short, refl)))
          | inl full ↦
              let some_bytes : 0 < k = ground arith in
              let all_done : done.0 ≡ k = ==→eq done.0 k full in
              let moved : advance (off + i) done.0 ≡ off + (i + k) = ground arith in
              let next : (i + done.0) % word ≡ i + k = ground arith in
              let whole : transaction io ip (addr + i) (off + i) k a ≡ (k, done.1) =
                ap (λ (r : ℕ). (r, done.1)) all_done in
              rw (more, size, full, moved, next)
                (filewrite_loop-Wrote fuel (i + k) n done.1 (omega arith) (omega arith) small fits
                  (more-Written k w some_bytes (omega arith) whole))
        ]
  ]

module _ {A : Type 0} (io : Transfer A) (f : File) where
  -- filewrite of n bytes to a writable inode, offset and n in range, ends: it returns n with
  -- all bytes written, one transaction of at most 3072 bytes behind the other, and the offset moved by n;
  -- or -1 behind the first transaction that wrote another number of bytes than asked for, by
  -- which the offset moved if it is positive.
  pub filewrite-Wrote :
      (addr n : ℕ) (a : A)
      → f.writable ≡ true
      → f.type ≡ fd_inode
      → n < 2 ^ 31
      → f.off + n < word
      → Wrote io f.ip addr f.off a n (filewrite io f addr n a)
  unfolding filewrite filewrite_as
  filewrite-Wrote addr n a can inode small fits =
      let start : f.off + 0 ≡ f.off = omega arith in
      let run =
        filewrite_loop-Wrote io f.ip addr f.off a (n + 1) 0 n a (omega arith) (omega arith) small
          fits none-Written in
      rw (can, inode, rounds_small n small)
        (subst (λ o. Wrote io f.ip addr f.off a n (filewrite_loop io (n + 1) f.ip addr o 0 n a))
          start run)

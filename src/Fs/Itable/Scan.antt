-- ===== src/Fs/Itable/Scan.antt =====
-- `iget` of kernel/fs.c on every branch.
use os_assignments.Prelude.{
  ℕ, zero, suc, ◌+◌, ◌%◌, ◌<◌, ◌≡◌, ◌≢◌, refl, ap, ◌∙◌, ◌⊎◌, inl, inr, arith, true, false, ◌==◌,
  update, Bool-cases, word, ==→eq, ==_false→ne, Option, none, some,
}
use mathlib.Core.Path.{subst}
use os_assignments.Fs.Itable.{
  ninode, Itable, ScanResult, found, missing, is_entry_of, remember, iget_scan, iget_end, iget,
}

-- The first empty entry in front of `n`, if there is one.
abbrev pub FirstEmpty : (n : ℕ) → Itable → Option ℕ → Type 0
FirstEmpty n t none = (i : ℕ) → i < n → (t i).ref ≢ 0
FirstEmpty n t (some e) = (e < n) × ((t e).ref ≡ 0) × ((i : ℕ) → i < e → (t i).ref ≢ 0)

remember-FirstEmpty :
    (i : ℕ) (t : Itable) (o : Option ℕ)
    → FirstEmpty i t o
    → FirstEmpty (i + 1) t (remember o i (t i))
unfolding remember
remember-FirstEmpty i t none h = elim (Bool-cases ((t i).ref == 0)) [
  | inl e ↦ rw e (omega arith, ==→eq (t i).ref 0 e, h)
  | inr e ↦ rw e (λ j lt. elim (Bool-cases (j == i)) [
    | inl s ↦ ground (arith, ap (λ j. (t j).ref) (==→eq j i s), ==_false→ne (t i).ref 0 e)
    | inr s ↦ h j (ground (arith, ==_false→ne j i s))
  ])
]
remember-FirstEmpty i t (some e) (lt, z, before) = (omega arith, z, before)

abbrev Scanned : (dev inum : ℕ) → Itable → ScanResult → Type 0
Scanned dev inum t (found i) = (i < ninode) × (is_entry_of dev inum (t i) ≡ true)
Scanned dev inum t (missing o) =
    ((i : ℕ) → i < ninode → is_entry_of dev inum (t i) ≡ false) × FirstEmpty ninode t o

iget_scan-Scanned :
    (k i dev inum : ℕ) (o : Option ℕ) (t : Itable)
    → i + k ≡ ninode
    → ((j : ℕ) → j < i → is_entry_of dev inum (t j) ≡ false)
    → FirstEmpty i t o
    → Scanned dev inum t (iget_scan k i dev inum o t)
unfolding iget_scan
iget_scan-Scanned zero i dev inum o t e none_yet first =
    let all : i ≡ ninode = ground (arith, e) in
    (λ j lt. none_yet j (ground arith), subst (λ n. FirstEmpty n t o) all first)
iget_scan-Scanned (suc k) i dev inum o t e none_yet first =
    elim (Bool-cases (is_entry_of dev inum (t i))) [
      | inl here ↦ rw here (ground (arith, e), here)
      | inr other ↦ rw other (
          iget_scan-Scanned k (i + 1) dev inum (remember o i (t i)) t (ground (arith, e))
            (λ j lt. elim (Bool-cases (j == i)) [
              | inl s ↦ ap (λ j. is_entry_of dev inum (t j)) (==→eq j i s) ∙ other
              | inr s ↦ none_yet j (ground (arith, ==_false→ne j i s))
            ])
            (remember-FirstEmpty i t o first))
    ]

-- How `iget` ends: with a further reference to the inode's entry; with the first empty entry, where
-- nothing has been read yet; or by its panic, no entry being empty.
abbrev pub Gets : (dev inum : ℕ) → Itable → Option (ℕ × Itable) → Type 0
Gets dev inum t none = (i : ℕ) → i < ninode → ((t i).ref ≢ 0) × (is_entry_of dev inum (t i) ≡ false)
Gets dev inum t (some (i, t')) =
    (i < ninode)
    × (((is_entry_of dev inum (t i) ≡ true)
          × (t' ≡ update t i (record (t i) { ref = ((t i).ref + 1) % word })))
        ⊎ (((t i).ref ≡ 0)
            × ((j : ℕ) → j < ninode → is_entry_of dev inum (t j) ≡ false)
            × (t'
                ≡ update t i (record (t i) {
                  dev = dev;
                  inode = record (t i).inode { inum = inum };
                  ref = 1;
                  valid = false;
                }))))

iget_end-Gets :
    (dev inum : ℕ) (t : Itable) (r : ScanResult)
    → Scanned dev inum t r
    → Gets dev inum t (iget_end r dev inum t)
unfolding iget_end
iget_end-Gets dev inum t (found i) (lt, here) = (lt, inl (here, refl))
iget_end-Gets dev inum t (missing none) (none_there, full) = λ i lt. (full i lt, none_there i lt)
iget_end-Gets dev inum t (missing (some i)) (none_there, (lt, z, before)) =
    (lt, inr (z, none_there, refl))

pub iget-Gets : (dev inum : ℕ) (t : Itable) → Gets dev inum t (iget dev inum t)
unfolding iget
iget-Gets dev inum t = iget_end-Gets dev inum t (iget_scan ninode 0 dev inum none t) (
    iget_scan-Scanned ninode 0 dev inum none t refl (λ j lt. absurd (omega arith))
      (λ j lt. absurd (omega arith)))

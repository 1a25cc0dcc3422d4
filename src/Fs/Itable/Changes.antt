-- ===== src/Fs/Itable/Changes.antt =====
-- What a change of one entry makes of the table of inodes of kernel/fs.c.
use os_assignments.Prelude.{
  ℕ, ◌+◌, ◌%◌, ◌^◌, ◌<◌, ◌≡◌, ◌≢◌, sym, ◌∙◌, inl, inr, arith, if◌then◌else◌, ◌==◌, update,
  Bool-cases, word, ==→eq, ==_false→ne, some, ◌∷◌,
}
use mathlib.Core.Path.{subst}
use os_assignments.Fs.Itable.{ninode, Entry, Itable}
use os_assignments.Fs.Itable.Refs.{Holding, Holds, count}
use os_assignments.Fs.Itable.Steps.{IsTable}

-- No other entry is the one of the inode that `e` names.
abbrev pub Alone : (i : ℕ) → Entry → Itable → Type 0
Alone i e t =
    (j : ℕ)
    → i < ninode
    → j < ninode
    → (t j).ref ≢ 0
    → e.dev ≡ (t j).dev
    → e.inode.inum ≡ (t j).inode.inum
    → i ≡ j

pub changed-IsTable :
    (t t' : Itable) (held held' : Holding) (i : ℕ) (e : Entry)
    → t' ≡ update t i e
    → ((j : ℕ) → count j held' ≡ (if j == i then e.ref else count j held))
    → e.ref < 2 ^ 31
    → (e.ref ≢ 0 → Alone i e t)
    → ((p : ℕ) → e.lock ≡ some p → Holds p i held')
    → ((p j : ℕ) → j ≢ i → (t j).lock ≡ some p → Holds p j held')
    → IsTable (record { table = t; held = held })
    → IsTable (record { table = t'; held = held' })
changed-IsTable t t' held held' i e is refs small alone mine others h =
    subst (λ t. IsTable (record { table = t; held = held' })) (sym is)
      (record {
        counts = λ j. ground (arith, h.counts j, refs j);
        unique = λ j k lj lk. elim (Bool-cases (j == i)) [
          | inl ej ↦ elim (Bool-cases (k == i)) [
            | inl ek ↦ λ rj rk ed ei. ==→eq j i ej ∙ sym (==→eq k i ek)
            | inr ek ↦
                rw (ej, ek)
                  (λ rj rk ed ei.
                    ==→eq j i ej
                    ∙ alone rj k (subst (λ x. x < ninode) (==→eq j i ej) lj) lk rk ed ei)
          ]
          | inr ej ↦ elim (Bool-cases (k == i)) [
            | inl ek ↦
                rw (ej, ek)
                  (λ rj rk ed ei. sym (
                    ==→eq k i ek
                    ∙ alone rk j (subst (λ x. x < ninode) (==→eq k i ek) lk) lj rj (sym ed)
                        (sym ei)))
            | inr ek ↦ rw (ej, ek) (λ rj rk ed ei. h.unique j k lj lk rj rk ed ei)
          ]
        ];
        owners = λ p j. elim (Bool-cases (j == i)) [
          | inl ej ↦ rw ej (λ l. subst (λ x. Holds p x held') (sym (==→eq j i ej)) (mine p l))
          | inr ej ↦ rw ej (λ l. others p j (==_false→ne j i ej) l)
        ];
      })

-- An entry is changed but for its count and its inode.
pub same-IsTable :
    (t t' : Itable) (held : Holding) (i : ℕ) (e : Entry)
    → t' ≡ update t i e
    → e.ref ≡ (t i).ref
    → e.dev ≡ (t i).dev
    → e.inode.inum ≡ (t i).inode.inum
    → ((p : ℕ) → e.lock ≡ some p → Holds p i held)
    → IsTable (record { table = t; held = held })
    → IsTable (record { table = t'; held = held })
same-IsTable t t' held i e is ref dev inum lock h =
    changed-IsTable t t' held held i e is (λ j. ground (arith, h.counts j, h.counts i, ref))
      (ground (arith, h.counts i, ref))
      (λ some_ref j li lj rj ed ei.
        h.unique i j li lj (λ z. some_ref (ref ∙ z)) rj (sym dev ∙ ed) (sym inum ∙ ei))
      lock (λ p j ne l. h.owners p j l) h

-- A further reference to the inode of an entry.
pub more-IsTable :
    (t t' : Itable) (held : Holding) (p i : ℕ)
    → t' ≡ update t i (record (t i) { ref = ((t i).ref + 1) % word })
    → 0 < (t i).ref
    → count i held + 1 < 2 ^ 31
    → IsTable (record { table = t; held = held })
    → IsTable (record { table = t'; held = (p, i) ∷ held })
unfolding count
more-IsTable t t' held p i is some_ref small h =
    changed-IsTable t t' held ((p, i) ∷ held) i (record (t i) { ref = ((t i).ref + 1) % word }) is
      (λ j. ground (arith, h.counts i)) (ground (arith, h.counts i))
      (λ r j li lj rj ed ei. h.unique i j li lj (omega arith) rj ed ei)
      (λ q l. inr (h.owners q i l)) (λ q j ne l. inr (h.owners q j l)) h

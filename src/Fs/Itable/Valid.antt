-- ===== src/Fs/Itable/Valid.antt =====
-- Every operation on the table of inodes of kernel/fs.c keeps it in order, and `iput` does not wait for
-- the lock of an inode that it is about to free.
use os_assignments.Prelude.{
  ℕ, ◌+◌, ◌-◌, ◌%◌, ◌^◌, ◌<◌, ◌≡◌, ◌≢◌, refl, sym, ap, ◌∙◌, inl, inr, arith, true, false, ◌==◌,
  update, Bool-cases, int_lt, word, none, some, Option-cases, ◌∷◌, not, ◌||◌,
}
use mathlib.Core.Path.{subst}
use mathlib.Core.Option.{some-injective, none-ne-some}
use os_assignments.Fs.{SuperBlock, Disk}
use os_assignments.Fs.Inode.{iblock, get_inode, iupdate, itrunc}
use os_assignments.Fs.Inode.Codec.{get_inode_inum}
use os_assignments.Fs.Inode.Trunc.{itrunc-inum}
use os_assignments.Fs.Itable.{
  Entry, Itable, is_entry_of, idup, Outcome, panics, waits, goes, ilock_load, ilock_at, ilock,
  holds, iunlock, is_last, iput_lock_at, iput_lock, iput_free, iput_drop,
}
use os_assignments.Fs.Itable.Scan.{Gets, iget-Gets}
use os_assignments.Fs.Itable.Refs.{
  Holding, Holds, count, without, Holds-count, two-count, count-without, Holds-without,
}
use os_assignments.Fs.Itable.Steps.{
  State, Step, get-Step, dup-Step, lock-Step, unlock-Step, set-Step, last-Step, free-Step,
  drop-Step, Reach, boot-Reach, step-Reach, IsTable,
}
use os_assignments.Fs.Itable.Changes.{changed-IsTable, same-IsTable, more-IsTable}

get-IsTable :
    (t t' : Itable) (held : Holding) (p dev inum i : ℕ)
    → Gets dev inum t (some (i, t'))
    → count i held + 1 < 2 ^ 31
    → IsTable (record { table = t; held = held })
    → IsTable (record { table = t'; held = (p, i) ∷ held })
unfolding count is_entry_of
get-IsTable t t' held p dev inum i (lt, inl (here, is)) small h =
    more-IsTable t t' held p i is (ground (arith, here, h.counts i)) small h
get-IsTable t t' held p dev inum i (lt, inr (z, none_there, is)) small h =
    changed-IsTable t t' held ((p, i) ∷ held) i
      (record (t i) {
        dev = dev;
        inode = record (t i).inode { inum = inum };
        ref = 1;
        valid = false;
      })
      is (λ j. ground (arith, h.counts i, z)) (omega arith)
      (λ r j li lj rj ed ei. absurd (ground (arith, none_there j lj, rj, ed, ei, h.counts j)))
      (λ q l. inr (h.owners q i l)) (λ q j ne l. inr (h.owners q j l)) h

-- What `ilock` changes when it has the lock.
abbrev Locks : (p i : ℕ) → Itable → Outcome → Type 0
Locks p i t panics = p ≡ p
Locks p i t waits = p ≡ p
Locks p i t (goes t') =
    (e : Entry) × (t' ≡ update t i e)
    × (e.ref ≡ (t i).ref)
    × (e.dev ≡ (t i).dev)
    × (e.inode.inum ≡ (t i).inode.inum)
    × (e.lock ≡ some p)

ilock_load-Locks :
    (sb : SuperBlock) (p i : ℕ) (d : Disk) (t : Itable) → Locks p i t (ilock_load sb p i d t)
unfolding ilock_load
ilock_load-Locks sb p i d t =
    let ip = get_inode (t i).inode.inum (d.block (iblock (t i).inode.inum sb)) in
    elim (Bool-cases (t i).valid) [
      | inl v ↦ rw v (record (t i) { lock = some p; valid = true }, refl, refl, refl, refl, refl)
      | inr v ↦ elim (Bool-cases (ip.type == 0)) [
        | inl z ↦ rw (v, z) refl
        | inr z ↦
            rw (v, z)
              (
                record (t i) { lock = some p; valid = true; inode = ip },
                refl,
                refl,
                refl,
                get_inode_inum (t i).inode.inum (d.block (iblock (t i).inode.inum sb)),
                refl,
              )
      ]
    ]

ilock-Locks : (sb : SuperBlock) (p i : ℕ) (d : Disk) (t : Itable) → Locks p i t (ilock sb p i d t)
unfolding ilock ilock_at
ilock-Locks sb p i d t = elim (Bool-cases (int_lt (t i).ref 1)) [
  | inl e ↦ rw e refl
  | inr e ↦ elim (Option-cases (t i).lock) [
    | inl free ↦ rw (e, free) (ilock_load-Locks sb p i d t)
    | inr (q, taken) ↦ rw (e, taken) refl
  ]
]

iput_lock-Locks : (p i : ℕ) (t : Itable) → Locks p i t (iput_lock p i t)
unfolding iput_lock iput_lock_at
iput_lock-Locks p i t = elim (Option-cases (t i).lock) [
  | inl free ↦ rw free (record (t i) { lock = some p }, refl, refl, refl, refl, refl)
  | inr (q, taken) ↦ rw taken refl
]

lock-IsTable :
    (t t' : Itable) (held : Holding) (p i : ℕ)
    → Holds p i held
    → Locks p i t (goes t')
    → IsTable (record { table = t; held = held })
    → IsTable (record { table = t'; held = held })
lock-IsTable t t' held p i has (e, is, ref, dev, inum, lock) h =
    same-IsTable t t' held i e is ref dev inum
      (λ q l. subst (λ q. Holds q i held) (some-injective p q (sym lock ∙ l)) has) h

unlock-IsTable :
    (t t' : Itable) (held : Holding) (p i : ℕ)
    → iunlock p i t ≡ some t'
    → IsTable (record { table = t; held = held })
    → IsTable (record { table = t'; held = held })
unfolding iunlock
unlock-IsTable t t' held p i e h =
    elim (Bool-cases (not (holds (t i).lock p) || int_lt (t i).ref 1)) [
      | inl bad ↦ absurd (none-ne-some t' (sym (rw bad refl) ∙ e))
      | inr ok ↦
          let e' = record (t i) { lock = none } in
          let is : update t i e' ≡ t' = some-injective (update t i e') t' (sym (rw ok refl) ∙ e) in
          same-IsTable t t' held i e' (sym is) refl refl refl (λ q l. absurd (none-ne-some q l)) h
    ]

free-IsTable :
    (sb : SuperBlock) (t t' : Itable) (held : Holding) (d d' : Disk) (i : ℕ)
    → iput_free sb i t d ≡ some (t', d')
    → IsTable (record { table = t; held = held })
    → IsTable (record { table = t'; held = held })
unfolding iput_free
free-IsTable sb t t' held d d' i e h = elim (Option-cases (itrunc sb (t i).inode d)) [
  | inl z ↦ absurd (none-ne-some (t', d') (sym (rw z refl) ∙ e))
  | inr ((ip, d1), z) ↦
      let ip1 = record ip { type = 0 } in
      let e' = record (t i) { inode = ip1; valid = false; lock = none } in
      let same = some-injective (update t i e', iupdate sb ip1 d1) (t', d') (sym (rw z refl) ∙ e) in
      same-IsTable t t' held i e' (sym (ap (λ r. r.0) same)) refl refl
        (itrunc-inum sb (t i).inode d ip d1 z) (λ q l. absurd (none-ne-some q l)) h
]

drop-IsTable :
    (t : Itable) (held : Holding) (p i : ℕ)
    → Holds p i held
    → (t i).lock ≢ some p
    → IsTable (record { table = t; held = held })
    → IsTable (record { table = iput_drop i t; held = without p i held })
unfolding iput_drop
drop-IsTable t held p i has unlocked h =
    let some_ref = Holds-count p i held has in
    let now = (h.counts i).0 in
    changed-IsTable t (iput_drop i t) held (without p i held) i
      (record (t i) { ref = ((t i).ref + (word - 1)) % word }) refl
      (λ j. ground (arith, count-without p i j held has, h.counts i)) (ground (arith, h.counts i))
      (λ r j li lj rj ed ei. h.unique i j li lj (ground (arith, now, some_ref)) rj ed ei)
      (λ q l. Holds-without p i q i held (h.owners q i l) (inl (λ e. unlocked (l ∙ ap some e))))
      (λ q j ne l. Holds-without p i q j held (h.owners q j l) (inr ne)) h

-- The last reference: the lock is free.
iput_lock-goes :
    (t : Itable) (held : Holding) (p i : ℕ)
    → IsTable (record { table = t; held = held })
    → Holds p i held
    → (t i).lock ≢ some p
    → is_last (t i) ≡ true
    → iput_lock p i t ≡ goes (update t i (record (t i) { lock = some p }))
unfolding is_last iput_lock iput_lock_at
iput_lock-goes t held p i h has unlocked last = elim (Option-cases (t i).lock) [
  | inl free ↦ rw free refl
  | inr (q, taken) ↦
      let other : p ≢ q = λ e. unlocked (taken ∙ ap some (sym e)) in
      let two = two-count p q i held has (h.owners q i taken) other in
      absurd (ground (arith, two, last, h.counts i))
]

Step-IsTable : {s s' : State} → Step s s' → IsTable s → IsTable s'
unfolding idup
Step-IsTable (get-Step {t} {t'} {held} p dev inum i e small) h =
    get-IsTable t t' held p dev inum i (subst (Gets dev inum t) e (iget-Gets dev inum t)) small h
Step-IsTable (dup-Step {t} {held} p q i has small) h =
    let some_ref = Holds-count p i held has in
    more-IsTable t (idup i t) held q i refl (ground (arith, h.counts i)) small h
Step-IsTable (lock-Step {t} {t'} {held} sb d p i has e) h =
    lock-IsTable t t' held p i has (subst (Locks p i t) e (ilock-Locks sb p i d t)) h
Step-IsTable (unlock-Step {t} {t'} {held} p i e) h = unlock-IsTable t t' held p i e h
Step-IsTable (set-Step {t} {held} p i ip l inum) h =
    same-IsTable t (update t i (record (t i) { inode = ip })) held i (record (t i) { inode = ip })
      refl refl refl inum (λ q l'. h.owners q i l') h
Step-IsTable (last-Step {t} {t'} {held} p i has last e) h =
    lock-IsTable t t' held p i has (subst (Locks p i t) e (iput_lock-Locks p i t)) h
Step-IsTable (free-Step {t} {t'} {held} sb d d' p i l e) h = free-IsTable sb t t' held d d' i e h
Step-IsTable (drop-Step {t} {held} p i has unlocked) h = drop-IsTable t held p i has unlocked h

-- In every state that the operations reach from an empty table, each count is the number of
-- references held, no inode has two entries, and who has locked an entry has a reference to it.
pub Reach-IsTable : {s : State} → Reach s → IsTable s
unfolding count
Reach-IsTable (boot-Reach empty) = record {
  counts = λ i. ((empty i).0, omega arith);
  unique = λ i j li lj ri. absurd (ri (empty i).0);
  owners = λ p i l. absurd (none-ne-some p (sym (empty i).1 ∙ l));
}
Reach-IsTable (step-Reach r step) = Step-IsTable step (Reach-IsTable r)

-- In every such state, the lock that iput takes to free an inode, by a process with a reference and
-- without the lock, is free: the call does not wait.
pub Reach-goes :
    {s : State}
    → Reach s
    → (p i : ℕ) → Holds p i s.held
    → (s.table i).lock ≢ some p
    → is_last (s.table i) ≡ true
    → iput_lock p i s.table ≡ goes (update s.table i (record (s.table i) { lock = some p }))
Reach-goes {s} r p i has unlocked last =
    iput_lock-goes s.table s.held p i (Reach-IsTable r) has unlocked last

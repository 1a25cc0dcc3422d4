-- ===== src/File/Held.antt =====
-- The reference counts of kernel/file.c, with the references that processes hold.
use os_assignments.Prelude.{
  ℕ, suc, ◌+◌, ◌-◌, ◌^◌, ◌<◌, ◌≡◌, refl, sym, ◌∙◌, ap, inl, inr, arith, ◌==◌, if◌then◌else◌, ==→eq,
  ==_false→ne, Bool-cases, update, some, List, [], ◌∷◌, On,
}
use mathlib.Core.Path.{subst}
use mathlib.Core.Option.{some-injective}
use os_assignments.File.{File, FileTable, fd_none, Call, last_calls, filealloc, filedup, fileclose}
use os_assignments.File.Refs.{Allocates, filealloc-Allocates, Closes, fileclose-Closes, filedup_lem}

-- The number of references to a file among those held.
pub count : ℕ → List ℕ → ℕ
count f [] = 0
count f (g ∷ held) = if g == f then suc (count f held) else count f held

pub without : ℕ → List ℕ → List ℕ
without f [] = []
without f (g ∷ held) = if g == f then held else g ∷ without f held

count-without :
    (f g : ℕ) (held : List ℕ)
    → On f held
    → count g (without f held) ≡ (if g == f then count g held - 1 else count g held)
unfolding count without
count-without f g [] on = absurd on
count-without f g (h ∷ held) on = elim (Bool-cases (h == f)) [
  | inl same ↦ ground (arith, same)
  | inr other ↦
      let more : On f held = elim on [ inl e ↦ absurd (==_false→ne h f other e) | inr m ↦ m ] in
      ground (arith, other, count-without f g held more)
]

On-count : (f : ℕ) (held : List ℕ) → On f held → 0 < count f held
unfolding count
On-count f [] on = absurd on
On-count f (g ∷ held) (inl e) = ground (arith, e)
On-count f (g ∷ held) (inr on) = ground (arith, On-count f held on)

count-On : (f : ℕ) (held : List ℕ) → 0 < count f held → On f held
unfolding count
count-On f [] lt = absurd (omega arith)
count-On f (g ∷ held) lt = elim (Bool-cases (g == f)) [
  | inl same ↦ inl (==→eq g f same)
  | inr other ↦ inr (count-On f held (ground (arith, other, lt)))
]

-- The table, and a file's number for each reference that a descriptor or a call in progress holds.
pub record State : Type 0 where
  pub table : FileTable
  pub held : List ℕ

-- The operations, and what a holder writes into a file besides the count.
pub data Step : State → State → Type 0 where
  alloc-Step :
      {t t' : FileTable} {held : List ℕ} (f : ℕ)
      → filealloc t ≡ (some f, t')
      → Step (record { table = t; held = held }) (record { table = t'; held = f ∷ held })
  set-Step :
      {t : FileTable} {held : List ℕ} (f : ℕ) (v : File)
      → v.ref ≡ (t f).ref
      → Step (record { table = t; held = held }) (record { table = update t f v; held = held })
  dup-Step :
      {t t' : FileTable} {held : List ℕ} (f : ℕ)
      → On f held
      → count f held + 1 < 2 ^ 31
      → filedup f t ≡ some t'
      → Step (record { table = t; held = held }) (record { table = t'; held = f ∷ held })
  close-Step :
      {t t' : FileTable} {held : List ℕ} {calls : List Call} (f : ℕ)
      → On f held
      → fileclose f t ≡ some (calls, t')
      → Step (record { table = t; held = held }) (record { table = t'; held = without f held })

pub data Reach : State → Type 0 where
  boot-Reach : {t : FileTable} → ((f : ℕ) → (t f).ref ≡ 0) → Reach (record { table = t; held = [] })
  step-Reach : {s s' : State} → Reach s → Step s s' → Reach s'

-- The count of each file is the number of references held.
abbrev pub Counts : State → Type 0
Counts s = (f : ℕ) → ((s.table f).ref ≡ count f s.held) × (count f s.held < 2 ^ 31)

table_after :
    {t' : FileTable} (t : FileTable) (f : ℕ) (v : File) (held held' : List ℕ)
    → update t f v ≡ t'
    → Counts (record { table = t; held = held })
    → ((g : ℕ) → count g held' ≡ (if g == f then v.ref else count g held))
    → v.ref < 2 ^ 31
    → Counts (record { table = t'; held = held' })
table_after t f v held held' e counts after small =
    subst (λ t'. Counts (record { table = t'; held = held' })) e
      (λ g. ground (arith, counts g, after g))

close-Counts :
    (t t' : FileTable) (f : ℕ) (held : List ℕ) (calls : List Call)
    → On f held
    → Counts (record { table = t; held = held })
    → fileclose f t ≡ some (calls, t')
    → Counts (record { table = t'; held = without f held })
close-Counts t t' f held calls on counts e =
    let n = count f held in
    let closed = record (t f) { ref = 0; type = fd_none } in
    let less = record (t f) { ref = n - 1 } in
    let some_ref = On-count f held on in
    elim (fileclose-Closes t f n (counts f).0 some_ref (counts f).1) [
      | inl (last, done) ↦
          let same =
            some-injective (last_calls (t f).type (t f), update t f closed) (calls, t')
              (sym done ∙ e) in
          table_after t f closed held (without f held) (ap (λ p. p.1) same) counts
            (λ g. ground (arith, count-without f g held on)) (omega arith)
      | inr (more, done) ↦
          let same = some-injective ([], update t f less) (calls, t') (sym done ∙ e) in
          table_after t f less held (without f held) (ap (λ p. p.1) same) counts
            (λ g. ground (arith, count-without f g held on)) (ground (arith, counts f))
    ]

Step-Counts : {s s' : State} → Step s s' → Counts s → Counts s'
unfolding count
Step-Counts (alloc-Step {t} {t'} {held} f e) counts =
    let (lt, free, e', first) = subst (Allocates t) e (filealloc-Allocates t) in
    table_after t f (record (t f) { ref = 1 }) held (f ∷ held) (sym e') counts
      (λ g. ground (arith, counts f)) (omega arith)
Step-Counts (set-Step {t} {held} f v same) counts =
    table_after t f v held held refl counts (λ g. ground (arith, counts f))
      (ground (arith, counts f))
Step-Counts (dup-Step {t} {t'} {held} f on few e) counts =
    let done = filedup_lem t f (count f held) (counts f).0 (On-count f held on) few in
    table_after t f (record (t f) { ref = count f held + 1 }) held (f ∷ held)
      (some-injective (update t f (record (t f) { ref = count f held + 1 })) t' (sym done ∙ e))
      counts (λ g. ground arith) few
Step-Counts (close-Step {t} {t'} {held} {calls} f on e) counts =
    close-Counts t t' f held calls on counts e

Reach-Counts : {s : State} → Reach s → Counts s
unfolding count
Reach-Counts (boot-Reach zeroed) = λ f. (zeroed f, omega arith)
Reach-Counts (step-Reach reach step) = Step-Counts step (Reach-Counts reach)

-- What the operations do in a state where the counts are right.
abbrev pub Behaves : State → Type 0
Behaves s =
    ((f : ℕ) → On f s.held → Closes f (count f s.held) s.table)
    × ((f : ℕ)
        → On f s.held
        → count f s.held + 1 < 2 ^ 31
        → filedup f s.table
          ≡ some (update s.table f (record (s.table f) { ref = count f s.held + 1 })))
    × Allocates s.table (filealloc s.table)
    × ((f : ℕ) → (s.table f).ref ≡ 0 → ¬ On f s.held)

-- In every state that the operations reach from an empty table, each file's count is the number of references to it
-- that are held, and for a held file fileclose and filedup do not panic: fileclose takes one
-- reference away, and frees the file and makes its last calls exactly if it was the only one. filealloc gives the first
-- file without references, which nobody holds, or null if there is none.
pub Reach-Behaves : {s : State} → Reach s → Counts s × Behaves s
Reach-Behaves {s} reach =
    let counts = Reach-Counts reach in
    (
      counts,
      (
        λ f on.
            fileclose-Closes s.table f (count f s.held) (counts f).0 (On-count f s.held on)
              (counts f).1,
        λ f on few. filedup_lem s.table f (count f s.held) (counts f).0 (On-count f s.held on) few,
        filealloc-Allocates s.table,
        λ f free on. ground (arith, counts f, On-count f s.held on),
      ),
    )

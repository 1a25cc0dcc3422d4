-- ===== src/Fs/Inode/Free.antt =====
-- The loops of `itrunc` of kernel/fs.c: which blocks of an inode they have freed.
use os_assignments.Prelude.{
  ℕ, zero, suc, ◌+◌, ◌*◌, ◌<◌, ◌≡◌, ◌≢◌, refl, sym, ap, ◌∙◌, inl, inr, arith, Bool, true, false,
  if◌then◌else◌, ◌==◌, ◌&&◌, ◌||◌, ltb, Bool-cases, ==→eq, ==_false→ne, Option, none, some, [], ◌∷◌,
}
use mathlib.Core.Path.{subst}
use os_assignments.Fs.{SuperBlock, Disk, bblock, bfree}
use os_assignments.Fs.Blocks.{in_use, Frees, bfree-Frees}
use os_assignments.Fs.Logged.{Logs, Logs-trans}
use os_assignments.Fs.Inode.{
  Inode, ndirect, nindirect, get32, set_addr, free_addr, trunc_direct, trunc_entries,
}
use os_assignments.Fs.Inode.Slots.{nslots, slot, IsSound}
use os_assignments.Fs.Inode.Bmap.{slot-direct, slot-entry}

module _ (sb : SuperBlock) (ip : Inode) (d : Disk) (sound : IsSound sb ip d) where
  -- The blocks of the slots in `done` are free, and nothing else has changed.
  pub record Freed (done : ℕ → Bool) (d' : Disk) : Type 0 where
    pub gone :
        (k : ℕ) → k < nslots → done k ≡ true → slot ip d k ≢ 0 → in_use sb d' (slot ip d k) ≡ false
    pub still :
        (c : ℕ)
        → ((k : ℕ) → k < nslots → done k ≡ true → slot ip d k ≢ c)
        → in_use sb d' c ≡ in_use sb d c
    pub kept : (x : ℕ) → ((c : ℕ) → c < sb.size → bblock c sb ≢ x) → d'.block x ≡ d.block x
    pub logs : Logs none d d'

  -- A slot without a block is done in any case.
  pub all-Freed :
      (done : ℕ → Bool) (d' : Disk)
      → ((k : ℕ) → k < nslots → slot ip d k ≢ 0 → done k ≡ true)
      → Freed done d'
      → Freed (λ k. true) d'
  all-Freed done d' all f = record {
    gone = λ k lt e some_block. f.gone k lt (all k lt some_block) some_block;
    still = λ c h. f.still c (λ k lt e. h k lt refl);
    kept = f.kept;
    logs = f.logs;
  }

  pub Freed-same :
      (done done' : ℕ → Bool) (d' : Disk)
      → ((k : ℕ) → k < nslots → done' k ≡ done k)
      → Freed done d'
      → Freed done' d'
  Freed-same done done' d' same f = record {
    gone = λ k lt e. f.gone k lt (sym (same k lt) ∙ e);
    still = λ c h. f.still c (λ k lt e. h k lt (same k lt ∙ e));
    kept = f.kept;
    logs = f.logs;
  }

  abbrev pub with_slot : (ℕ → Bool) → (k : ℕ) → ℕ → Bool
  with_slot done k x = if x == k then true else done x

  empty-Freed :
      (done : ℕ → Bool) (d' : Disk) (k : ℕ)
      → slot ip d k ≡ 0
      → Freed done d'
      → Freed (with_slot done k) d'
  empty-Freed done d' k z f = record {
    gone = λ x lt e some_block. elim (Bool-cases (x == k)) [
      | inl same ↦ absurd (some_block (ap (slot ip d) (==→eq x k same) ∙ z))
      | inr other ↦ f.gone x lt (ground (arith, e, other)) some_block
    ];
    still = λ c h. f.still c (λ x lt e. h x lt (ground (arith, e)));
    kept = f.kept;
    logs = f.logs;
  }

  pub after_bfree :
      (done : ℕ → Bool) (d' : Disk) (k : ℕ) (o : Option Disk)
      → k < nslots
      → done k ≡ false
      → slot ip d k ≢ 0
      → Freed done d'
      → Frees sb (slot ip d k) d' o
      → (d2 : Disk) × (o ≡ some d2) × Freed (with_slot done k) d2
  after_bfree done d' k none lt new some_block f free =
      let others = λ (x : ℕ) (lx : x < nslots) (e : done x ≡ true) (z : slot ip d x ≡ slot ip d k).
        (let same : x ≡ k = sound.apart x k lx lt (λ z'. some_block (sym z ∙ z')) z in
          absurd (ground (arith, ap done same))) in
      absurd (ground (arith, f.still (slot ip d k) others, sound.used k lt some_block))
  after_bfree done d' k (some d2) lt new some_block f (used, marked, bytes, logged) = (
    d2,
    refl,
    record {
      gone = λ x lx e some_x. elim (Bool-cases (x == k)) [
        | inl same ↦ ground (arith, ap (slot ip d) (==→eq x k same), marked (slot ip d x))
        | inr other ↦
            ground (arith, marked (slot ip d x), f.gone x lx (ground (arith, e, other)) some_x)
      ];
      still = λ c h.
          let mine : slot ip d k ≢ c = h k lt (ground arith) in
          ground (arith, marked c, f.still c (λ x lx e. h x lx (ground (arith, e))));
      kept = λ x h.
          let e : x ≢ bblock (slot ip d k) sb =
            λ z. h (slot ip d k) (sound.used k lt some_block).0 (sym z) in
          bytes x e ∙ f.kept x h;
      logs = Logs-trans none d d' d2 f.logs (
        bblock (slot ip d k) sb ∷ [],
        logged,
        λ x. elim (Bool-cases (x == bblock (slot ip d k) sb)) [
          | inl e ↦ inl (inl (sym (==→eq x (bblock (slot ip d k) sb) e)))
          | inr e ↦ inr (inr (bytes x (==_false→ne x (bblock (slot ip d k) sb) e)))
        ],
      );
    },
  )

  -- A slot that is not yet done.
  free-Freed :
      (done : ℕ → Bool) (d' : Disk) (k : ℕ)
      → k < nslots
      → done k ≡ false
      → Freed done d'
      → (d2 : Disk) × (free_addr sb (slot ip d k) d' ≡ some d2) × Freed (with_slot done k) d2
  free-Freed done d' k lt new f = elim (Bool-cases (slot ip d k == 0)) [
    | inl e ↦
        let z : slot ip d k ≡ 0 = ==→eq (slot ip d k) 0 e in
        rw e (d', refl, empty-Freed done d' k z f)
    | inr e ↦ rw e (
        after_bfree done d' k (bfree sb (slot ip d k) d') lt new (==_false→ne (slot ip d k) 0 e) f
          (bfree-Frees sb (slot ip d k) d'))
  ]

  ind-no_bitmap : ip.addrs ndirect ≢ 0 → (c : ℕ) → c < sb.size → bblock c sb ≢ ip.addrs ndirect
  unfolding slot
  ind-no_bitmap some_ind c lt = sound.no_bitmap ndirect c (omega arith) some_ind lt

  -- The inode behind the direct blocks in front of `i`.
  abbrev pub WithoutDirect : (i : ℕ) → Inode → Type 0
  WithoutDirect i ip' =
      ((j : ℕ) → ip'.addrs j ≡ (if ltb j i then 0 else ip.addrs j))
      × (ip'.inum ≡ ip.inum)
      × (ip'.type ≡ ip.type)
      × (ip'.nlink ≡ ip.nlink)

  pub trunc_direct-Freed :
      (k i : ℕ) (ip' : Inode) (d' : Disk)
      → i + k ≡ ndirect
      → WithoutDirect i ip'
      → Freed (λ x. ltb x i) d'
      → (ip2 : Inode) × (d2 : Disk) × (trunc_direct k sb i ip' d' ≡ some (ip2, d2))
        × WithoutDirect ndirect ip2
        × Freed (λ x. ltb x ndirect) d2
  unfolding trunc_direct
  trunc_direct-Freed zero i ip' d' e w f =
      let all : i ≡ ndirect = ground (arith, e) in
      let w' = subst (λ i. WithoutDirect i ip') all w in
      (
        ip',
        d',
        refl,
        w',
        Freed-same (λ x. ltb x i) (λ x. ltb x ndirect) d' (λ x lt. ground arith) f,
      )
  trunc_direct-Freed (suc k) i ip' d' e w f =
      let here : ip'.addrs i ≡ slot ip d i =
        w.0 i ∙ (ground (arith, slot-direct ip d i (ground (arith, e)))) in
      let (d1, freed, f1) = free-Freed (λ x. ltb x i) d' i (ground (arith, e)) (ground arith) f in
      rw (here, freed)
        (trunc_direct-Freed k (i + 1) (set_addr i 0 ip') d1 (ground (arith, e))
          (λ j. ground (arith, w.0 j), w.1, w.2, w.3)
          (Freed-same (with_slot (λ x. ltb x i) i) (λ x. ltb x (i + 1)) d1 (λ x lt. ground arith)
            f1))

  -- The slots that are done behind the entries in front of `j`.
  abbrev pub done_entries : (j : ℕ) → ℕ → Bool
  done_entries j x = ltb x ndirect || ltb ndirect x && ltb x (j + (ndirect + 1))

  module _ (some_ind : ip.addrs ndirect ≢ 0) where
    abbrev ind : ℕ
    ind = ip.addrs ndirect

    pub trunc_entries-Freed :
        (k j : ℕ) (d' : Disk)
        → j + k ≡ nindirect
        → Freed (done_entries j) d'
        → (d2 : Disk) × (trunc_entries k sb ind j d' ≡ some d2) × Freed (done_entries nindirect) d2
    unfolding trunc_entries
    trunc_entries-Freed zero j d' e f =
        let all : j ≡ nindirect = ground (arith, e) in
        (d', refl, subst (λ j. Freed (done_entries j) d') all f)
    trunc_entries-Freed (suc k) j d' e f =
        let bytes : d'.block ind ≡ d.block ind = f.kept ind (ind-no_bitmap some_ind) in
        let here : get32 (j * 4) (d'.block ind) ≡ slot ip d (j + (ndirect + 1)) =
          ap (get32 (j * 4)) bytes ∙ sym (slot-entry ip d j some_ind) in
        let (d1, freed, f1) =
          free-Freed (done_entries j) d' (j + (ndirect + 1)) (ground (arith, e)) (ground arith) f in
        rw (here, freed)
          (trunc_entries-Freed k (j + 1) d1 (ground (arith, e)) (
            Freed-same (with_slot (done_entries j) (j + (ndirect + 1))) (done_entries (j + 1)) d1
              (λ x lt. ground arith) f1))

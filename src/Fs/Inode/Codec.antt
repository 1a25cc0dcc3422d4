-- ===== src/Fs/Inode/Codec.antt =====
-- Words in the bytes of a block, and the form of an inode on the disk of kernel/fs.c: what
-- `iupdate` stores, `ilock` loads.
use os_assignments.Prelude.{
  ℕ, zero, suc, ◌+◌, ◌*◌, ◌≤◌, ◌<◌, ◌≡◌, refl, ◌∙◌, ◌⊎◌, inl, inr, arith, ◌==◌, word, Bool-cases,
  ==→eq, ==_false→ne,
}
use os_assignments.Fs.{Block}
use os_assignments.Fs.Inode.{
  Inode, ndirect, get16, put16, get32, put32, ioffset, put_addrs, put_inode, get_inode,
}

-- Byte `a` is none of the `n` from `p` on.
abbrev pub Apart : (p n a : ℕ) → Type 0
Apart p n a = (a < p) ⊎ (p + n ≤ a)

put16-byte : (p x : ℕ) (v : Block) (a : ℕ) → Apart p 2 a → put16 p x v a ≡ v a
unfolding put16
put16-byte p x v a out = ground arith

pub get16-put16 : (p x : ℕ) (v : Block) → x < 65536 → get16 p (put16 p x v) ≡ x
unfolding get16 put16
get16-put16 p x v small = ground arith

pub put32-byte : (p x : ℕ) (v : Block) (a : ℕ) → Apart p 4 a → put32 p x v a ≡ v a
unfolding put32 put16
put32-byte p x v a out = ground arith

pub get32-put32 : (p x : ℕ) (v : Block) → x < word → get32 p (put32 p x v) ≡ x
unfolding get32 put32 get16 put16
get32-put32 p x v small = ground arith

-- A word behind a change elsewhere.
get16_same : (p : ℕ) (v w : Block) → w p ≡ v p → w (p + 1) ≡ v (p + 1) → get16 p w ≡ get16 p v
unfolding get16
get16_same p v w e f = ground (arith, e, f)

pub get32_same :
    (p : ℕ) (v w : Block)
    → w p ≡ v p
    → w (p + 1) ≡ v (p + 1)
    → w (p + 2) ≡ v (p + 2)
    → w (p + 3) ≡ v (p + 3)
    → get32 p w ≡ get32 p v
unfolding get32 get16
get32_same p v w e f g h = ground (arith, e, f, g, h)

pub get32-put32_apart :
    (p q x : ℕ) (v : Block) → (p + 4 ≤ q) ⊎ (q + 4 ≤ p) → get32 p (put32 q x v) ≡ get32 p v
get32-put32_apart p q x v apart =
    get32_same p v (put32 q x v) (put32-byte q x v p (ground arith))
      (put32-byte q x v (p + 1) (ground arith)) (put32-byte q x v (p + 2) (ground arith))
      (put32-byte q x v (p + 3) (ground arith))

put_addrs-byte :
    (k i p : ℕ) (addrs : ℕ → ℕ) (v : Block) (a : ℕ)
    → Apart (p + i * 4) (k * 4) a
    → put_addrs k i p addrs v a ≡ v a
unfolding put_addrs
put_addrs-byte zero i p addrs v a out = refl
put_addrs-byte (suc k) i p addrs v a out =
    put_addrs-byte k (i + 1) p addrs (put32 (p + i * 4) (addrs i) v) a (ground arith)
    ∙ put32-byte (p + i * 4) (addrs i) v a (ground arith)

get32-put_addrs :
    (k i p j : ℕ) (addrs : ℕ → ℕ) (v : Block)
    → i ≤ j
    → j < i + k
    → addrs j < word
    → get32 (p + j * 4) (put_addrs k i p addrs v) ≡ addrs j
unfolding put_addrs
get32-put_addrs zero i p j addrs v lo hi small = absurd (omega arith)
get32-put_addrs (suc k) i p j addrs v lo hi small = elim (Bool-cases (i == j)) [
  | inl e ↦
      let here : i ≡ j = ==→eq i j e in
      let w = put32 (p + i * 4) (addrs i) v in
      let later =
        λ (a : ℕ) (out : a < p + (i + 1) * 4). put_addrs-byte k (i + 1) p addrs w a (inl out) in
      rw (← here) (
        get32_same (p + i * 4) w (put_addrs k (i + 1) p addrs w) (later (p + i * 4) (omega arith))
          (later (p + i * 4 + 1) (omega arith)) (later (p + i * 4 + 2) (omega arith))
          (later (p + i * 4 + 3) (omega arith))
        ∙ get32-put32 (p + i * 4) (addrs i) v (ground (arith, here)))
  | inr e ↦
      get32-put_addrs k (i + 1) p j addrs (put32 (p + i * 4) (addrs i) v)
        (omega (arith, ==_false→ne i j e)) (omega arith) small
]

get16-put16_apart :
    (p q x : ℕ) (v : Block) → (p + 2 ≤ q) ⊎ (q + 2 ≤ p) → get16 p (put16 q x v) ≡ get16 p v
get16-put16_apart p q x v apart =
    get16_same p v (put16 q x v) (put16-byte q x v p (ground arith))
      (put16-byte q x v (p + 1) (ground arith))

get16-put32_apart :
    (p q x : ℕ) (v : Block) → (p + 2 ≤ q) ⊎ (q + 4 ≤ p) → get16 p (put32 q x v) ≡ get16 p v
get16-put32_apart p q x v apart =
    get16_same p v (put32 q x v) (put32-byte q x v p (ground arith))
      (put32-byte q x v (p + 1) (ground arith))

get16-put_addrs_below :
    (p k q : ℕ) (addrs : ℕ → ℕ) (v : Block)
    → p + 2 ≤ q
    → get16 p (put_addrs k 0 q addrs v) ≡ get16 p v
get16-put_addrs_below p k q addrs v below =
    get16_same p v (put_addrs k 0 q addrs v) (put_addrs-byte k 0 q addrs v p (inl (omega arith)))
      (put_addrs-byte k 0 q addrs v (p + 1) (inl (omega arith)))

get32-put_addrs_below :
    (p k q : ℕ) (addrs : ℕ → ℕ) (v : Block)
    → p + 4 ≤ q
    → get32 p (put_addrs k 0 q addrs v) ≡ get32 p v
get32-put_addrs_below p k q addrs v below =
    let b = λ (a : ℕ) (lt : a < q). put_addrs-byte k 0 q addrs v a (inl (omega arith)) in
    get32_same p v (put_addrs k 0 q addrs v) (b p (omega arith)) (b (p + 1) (omega arith))
      (b (p + 2) (omega arith)) (b (p + 3) (omega arith))

-- The fields fit in their words.
abbrev pub Fits : Inode → Type 0
Fits ip =
    (ip.type < 65536)
    × (ip.major < 65536)
    × (ip.minor < 65536)
    × (ip.nlink < 65536)
    × (ip.size < word)
    × ((i : ℕ) → i ≤ ndirect → ip.addrs i < word)

abbrev pub SameInode : (ip ip' : Inode) → Type 0
SameInode ip ip' =
    (ip'.inum ≡ ip.inum)
    × (ip'.type ≡ ip.type)
    × (ip'.major ≡ ip.major)
    × (ip'.minor ≡ ip.minor)
    × (ip'.nlink ≡ ip.nlink)
    × (ip'.size ≡ ip.size)
    × ((i : ℕ) → i ≤ ndirect → ip'.addrs i ≡ ip.addrs i)

module _ (ip : Inode) (v : Block) (fits : Fits ip) where
  abbrev p : ℕ
  p = ioffset ip.inum

  abbrev v1 : Block
  v1 = put16 p ip.type v

  abbrev v2 : Block
  v2 = put16 (p + 2) ip.major v1

  abbrev v3 : Block
  v3 = put16 (p + 4) ip.minor v2

  abbrev v4 : Block
  v4 = put16 (p + 6) ip.nlink v3

  abbrev v5 : Block
  v5 = put32 (p + 8) ip.size v4

  abbrev v6 : Block
  v6 = put_addrs (ndirect + 1) 0 (p + 12) ip.addrs v5

  through : (q : ℕ) → q + 2 ≤ p + 8 → get16 q v6 ≡ get16 q v4
  through q below =
      get16-put_addrs_below q (ndirect + 1) (p + 12) ip.addrs v5 (omega arith)
      ∙ get16-put32_apart q (p + 8) ip.size v4 (inl below)

  -- What `ilock` reads back from the place of an inode in its block is the inode that `iupdate` wrote, if
  -- its fields fit in their words, and no byte outside that place has changed.
  pub get_inode-put_inode :
      SameInode ip (get_inode ip.inum (put_inode ip v))
      × ((a : ℕ) → Apart p 64 a → put_inode ip v a ≡ v a)
  unfolding get_inode put_inode
  get_inode-put_inode = (
    (
      refl,
      through p (omega arith)
          ∙ (get16-put16_apart p (p + 6) ip.nlink v3 (inl (omega arith))
              ∙ (get16-put16_apart p (p + 4) ip.minor v2 (inl (omega arith))
                  ∙ (get16-put16_apart p (p + 2) ip.major v1 (inl (omega arith))
                      ∙ get16-put16 p ip.type v fits.0))),
      through (p + 2) (omega arith)
          ∙ (get16-put16_apart (p + 2) (p + 6) ip.nlink v3 (inl (omega arith))
              ∙ (get16-put16_apart (p + 2) (p + 4) ip.minor v2 (inl (omega arith))
                  ∙ get16-put16 (p + 2) ip.major v1 fits.1)),
      through (p + 4) (omega arith)
          ∙ (get16-put16_apart (p + 4) (p + 6) ip.nlink v3 (inl (omega arith))
              ∙ get16-put16 (p + 4) ip.minor v2 fits.2),
      through (p + 6) (omega arith) ∙ get16-put16 (p + 6) ip.nlink v3 fits.3,
      get32-put_addrs_below (p + 8) (ndirect + 1) (p + 12) ip.addrs v5 (omega arith)
          ∙ get32-put32 (p + 8) ip.size v4 fits.4,
      λ i le.
          get32-put_addrs (ndirect + 1) 0 (p + 12) i ip.addrs v5 (omega arith) (omega arith)
            (fits.5 i le),
    ),
    λ a out.
        put_addrs-byte (ndirect + 1) 0 (p + 12) ip.addrs v5 a (ground arith)
        ∙ (put32-byte (p + 8) ip.size v4 a (ground arith)
            ∙ (put16-byte (p + 6) ip.nlink v3 a (ground arith)
                ∙ (put16-byte (p + 4) ip.minor v2 a (ground arith)
                    ∙ (put16-byte (p + 2) ip.major v1 a (ground arith)
                        ∙ put16-byte p ip.type v a (ground arith))))),
  )

pub get_inode_inum : (inum : ℕ) (v : Block) → (get_inode inum v).inum ≡ inum
unfolding get_inode
get_inode_inum inum v = refl

-- ===== src/Fs/Logged.antt =====
-- What kernel/fs.c changes through the cache it also passes to `log_write`: which blocks have changed, and
-- which of them the log has not been told.
use os_assignments.Prelude.{
  ℕ, ◌≡◌, refl, sym, ap, ◌∙◌, ◌⊎◌, inl, inr, arith, Bool-cases, ◌==◌, ==→eq, Option, none, some,
  List, [], ◌∷◌, ◌++◌, append_assoc, On,
}
use os_assignments.Fs.{Block, SuperBlock, Disk, bblock, set_block, log_write}
use os_assignments.Fs.Blocks.{with_block}

-- From `d` to `d'`, every block that has changed has been logged, but for the block of `but`.
abbrev pub Logs : (but : Option ℕ) → Disk → Disk → Type 0
Logs but d d' =
    (new : List ℕ) × (d'.logged ≡ new ++ d.logged)
    × ((x : ℕ) → On x new ⊎ (but ≡ some x) ⊎ (d'.block x ≡ d.block x))

pub Logs-refl : (d : Disk) → Logs none d d
Logs-refl d = ([], refl, λ x. inr (inr refl))

pub On_append : (x : ℕ) (xs ys : List ℕ) → On x xs ⊎ On x ys → On x (xs ++ ys)
On_append x [] ys (inl on) = elim on [ ]
On_append x [] ys (inr on) = on
On_append x (y ∷ xs) ys (inl (inl e)) = inl e
On_append x (y ∷ xs) ys (inl (inr on)) = inr (On_append x xs ys (inl on))
On_append x (y ∷ xs) ys (inr on) = inr (On_append x xs ys (inr on))

pub Logs-trans : (but : Option ℕ) (d d1 d2 : Disk) → Logs but d d1 → Logs but d1 d2 → Logs but d d2
Logs-trans but d d1 d2 (new, e, f) (new1, e1, f1) = (
  new1 ++ new,
  e1 ∙ (ap (λ s. new1 ++ s) e ∙ sym (append_assoc new1 new d.logged)),
  λ x. elim (f1 x) [
    | inl on ↦ inl (On_append x new1 new (inl on))
    | inr (inl this) ↦ inr (inl this)
    | inr (inr same1) ↦ elim (f x) [
      | inl on ↦ inl (On_append x new1 new (inr on))
      | inr (inl this) ↦ inr (inl this)
      | inr (inr same) ↦ inr (inr (same1 ∙ same))
    ]
  ],
)

-- A block may be excepted that need not be.
pub Logs-but : (a : ℕ) (d d' : Disk) → Logs none d d' → Logs (some a) d d'
Logs-but a d d' (new, e, f) = (
  new,
  e,
  λ x. elim (f x) [
    | inl on ↦ inl on
    | inr (inl wrong) ↦ absurd (ground (arith, wrong))
    | inr (inr same) ↦ inr (inr same)
  ],
)

pub set_block-Logs : (a : ℕ) (v : Block) (d : Disk) → Logs (some a) d (set_block a v d)
set_block-Logs a v d = (
  [],
  refl,
  λ x. elim (Bool-cases (x == a)) [
    | inl e ↦ inr (inl (ap some (sym (==→eq x a e))))
    | inr e ↦ inr (inr (ground arith))
  ],
)

-- `log_write` of the excepted block.
pub log_write-Logs : (a : ℕ) (d d' : Disk) → Logs (some a) d d' → Logs none d (log_write a d')
log_write-Logs a d d' (new, e, f) = (
  a ∷ new,
  ap (λ s. a ∷ s) e,
  λ x. elim (f x) [
    | inl on ↦ inl (inr on)
    | inr (inl this) ↦ inl (inl (ground (arith, this)))
    | inr (inr same) ↦ inr (inr same)
  ],
)

-- A block that is changed and logged.
pub change-Logs : (a : ℕ) (v : Block) (d : Disk) → Logs none d (log_write a (set_block a v d))
change-Logs a v d = log_write-Logs a d (set_block a v d) (set_block-Logs a v d)

-- `balloc` logs the bitmap block and the block that it has zeroed.
pub with_block-Logs : (sb : SuperBlock) (a : ℕ) (d : Disk) → Logs none d (with_block sb a d)
with_block-Logs sb a d = (
  a ∷ bblock a sb ∷ [],
  refl,
  λ x. elim (Bool-cases (x == a)) [
    | inl e ↦ inl (inl (sym (==→eq x a e)))
    | inr e ↦ elim (Bool-cases (x == bblock a sb)) [
      | inl e' ↦ inl (inr (inl (sym (==→eq x (bblock a sb) e'))))
      | inr e' ↦ inr (inr (ground (arith, e, e')))
    ]
  ],
)

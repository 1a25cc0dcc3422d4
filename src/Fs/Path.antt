-- ===== src/Fs/Path.antt =====
-- The path names of kernel/fs.c. A path is the list of its bytes without the terminating zero.
pub mod Elements
pub mod Walk
mod Tests
use os_assignments.Prelude.{
  ℕ, zero, suc, ◌+◌, ◌-◌, Bool, true, false, Option, none, some, not, ◌&&◌, leb, ◌==◌,
  if◌then◌else◌, update, List, [], ◌∷◌, length,
}

abbrev pub dirsiz : ℕ
dirsiz = 14

abbrev pub slash : ℕ
slash = 47

-- The buffer for an element.
abbrev pub Name : Type 0
Name = ℕ → ℕ

-- `while(*path == '/') path++`
pub skip_slashes : List ℕ → List ℕ
skip_slashes [] = []
skip_slashes (c ∷ path) = if c == slash then skip_slashes path else c ∷ path

-- `while(*path != '/' && *path != 0) path++`: what it passes, and what is left.
pub element : List ℕ → List ℕ
element [] = []
element (c ∷ path) = if c == slash then [] else c ∷ element path

pub behind_element : List ℕ → List ℕ
behind_element [] = []
behind_element (c ∷ path) = if c == slash then c ∷ path else behind_element path

-- `memmove(name, s, n)` from place `i` on.
pub copy_name : ℕ → (i : ℕ) → (s : List ℕ) → Name → Name
copy_name zero i s name = name
copy_name (suc n) i [] name = name
copy_name (suc n) i (c ∷ s) name = copy_name n (i + 1) s (update name i c)

pub set_name : (s : List ℕ) → Name → Name
unfolding copy_name
set_name s name =
    let len = length s in
    if leb dirsiz len then copy_name dirsiz 0 s name else update (copy_name len 0 s name) len 0

-- `skipelem` behind its first loop.
pub skipelem_at : List ℕ → Name → Option (List ℕ) × Name
unfolding element behind_element set_name skip_slashes
skipelem_at [] name = (none, name)
skipelem_at (c ∷ path) name =
    (some (skip_slashes (behind_element (c ∷ path))), set_name (element (c ∷ path)) name)

pub skipelem : List ℕ → Name → Option (List ℕ) × Name
unfolding skip_slashes skipelem_at
skipelem path name = skipelem_at (skip_slashes path) name

-- The name in a buffer as `namecmp` reads it: up to a zero, and at most DIRSIZ bytes.
pub text : ℕ → (i : ℕ) → Name → List ℕ
text zero i name = []
text (suc n) i name = let rest = text n (i + 1) name in if name i == 0 then [] else name i ∷ rest

-- What `namex` asks of the inodes: whether one is a directory, and the entry that `dirlookup` finds.
pub record Tree : Type 0 where
  pub is_dir : ℕ → Bool
  pub lookup : ℕ → List ℕ → Option ℕ

-- The references that the caller holds, for each inode.
abbrev pub Refs : Type 0
Refs = ℕ → ℕ

-- `iget` or `idup`, and `iput`.
abbrev pub take_ref : ℕ → Refs → Refs
take_ref i refs = update refs i (refs i + 1)

abbrev pub put_ref : ℕ → Refs → Refs
put_ref i refs = update refs i (refs i - 1)

pub record Walked : Type 0 where
  pub ret : Option ℕ
  pub name : Name
  pub refs : Refs

abbrev pub is_end : List ℕ → Bool
is_end [] = true
is_end (c ∷ path) = false

-- Behind the loop.
pub namex_end : (parent : Bool) → (ip : ℕ) → Name → Refs → Walked
namex_end parent ip name refs =
    if parent
    then record { ret = none; name = name; refs = put_ref ip refs }
    else record { ret = some ip; name = name; refs = refs }

-- The loop, with a round for each element and one for the end.
pub namex_loop :
    ℕ → Tree → (parent : Bool) → (path : List ℕ) → Name → (ip : ℕ) → Refs → Option Walked
unfolding skipelem text namex_end
namex_loop zero tree parent path name ip refs = none
namex_loop (suc k) tree parent path name ip refs =
    let name1 = (skipelem path name).1 in
    elim ((skipelem path name).0) [
      | none ↦ some (namex_end parent ip name1 refs)
      | some rest ↦
          if not (tree.is_dir ip)
          then some (record { ret = none; name = name1; refs = put_ref ip refs })
          else if parent && is_end rest
          then some (record { ret = some ip; name = name1; refs = refs })
          else elim (tree.lookup ip (text dirsiz 0 name1)) [
            | none ↦ some (record { ret = none; name = name1; refs = put_ref ip refs })
            | some next ↦ namex_loop k tree parent rest name1 next (put_ref ip (take_ref next refs))
          ]
    ]

abbrev pub is_absolute : List ℕ → Bool
is_absolute [] = false
is_absolute (c ∷ path) = c == slash

-- `namex` from the root directory or from the process's working directory.
pub namex : Tree → (root cwd : ℕ) → (parent : Bool) → (path : List ℕ) → Name → Refs → Option Walked
unfolding namex_loop
namex tree root cwd parent path name refs =
    let ip = if is_absolute path then root else cwd in
    namex_loop (length path + 1) tree parent path name ip (take_ref ip refs)

pub namei : Tree → (root cwd : ℕ) → (path : List ℕ) → Name → Refs → Option Walked
unfolding namex
namei tree root cwd path name refs = namex tree root cwd false path name refs

pub nameiparent : Tree → (root cwd : ℕ) → (path : List ℕ) → Name → Refs → Option Walked
unfolding namex
nameiparent tree root cwd path name refs = namex tree root cwd true path name refs

-- ===== src/Fs/Dir.antt =====
-- `dirlookup` of kernel/fs.c: the entries of a directory, 16 bytes each, and the search for a name.
pub mod Search
use os_assignments.Prelude.{
  ℕ, zero, suc, ◌+◌, ◌*◌, Bool, true, false, if◌then◌else◌, ◌==◌, ltb, Option, none, some, not,
}
use os_assignments.Fs.{SuperBlock, Disk}
use os_assignments.Fs.Inode.{Inode, Target, WasRead, readi}

-- The inode number and the name of an entry at byte `p`.
abbrev pub entry_inum : (ℕ → ℕ) → (p : ℕ) → ℕ
entry_inum bytes p = bytes p + bytes (p + 1) * 256

-- `strncmp(s, t, n) == 0` from place `i` on, for `t` at byte `p`.
pub same_name : (n i : ℕ) → (name bytes : ℕ → ℕ) → (p : ℕ) → Bool
same_name zero i name bytes p = true
same_name (suc n) i name bytes p =
    let rest = same_name n (i + 1) name bytes p in
    if name i == bytes (p + i) then (if name i == 0 then true else rest) else false

-- The entry at byte `p` has the name.
pub is_entry : (name bytes : ℕ → ℕ) → (p : ℕ) → Bool
unfolding same_name
is_entry name bytes p = if entry_inum bytes p == 0 then false else same_name 14 0 name bytes (p + 2)

pub data Lookup : Type 0 where
  entry_at : (off inum : ℕ) → Lookup
  absent : Lookup

-- What the search leaves behind, as `readi` may give a block to a hole of the directory.
pub record Searched : Type 0 where
  pub lookup : Lookup
  pub inode : Inode
  pub disk : Disk

-- The loop, with a round for each byte of the directory; `none` is a panic.
pub dirlookup_loop :
    ℕ → SuperBlock → (name : ℕ → ℕ) → (off : ℕ) → Inode → Disk → Target → Option Searched
unfolding is_entry
dirlookup_loop zero sb name off ip d de = some (record { lookup = absent; inode = ip; disk = d })
dirlookup_loop (suc k) sb name off ip d de =
    if not (ltb off ip.size)
    then some (record { lookup = absent; inode = ip; disk = d })
    else elim (readi sb ip 0 off 16 d de) [
      | none ↦ none
      | some r ↦
          if not (r.ret == 16)
          then none
          else if is_entry name r.target.bytes 0
          then some (record {
            lookup = entry_at off (entry_inum r.target.bytes 0);
            inode = r.inode;
            disk = r.disk;
          })
          else dirlookup_loop k sb name (off + 16) r.inode r.disk r.target
    ]

-- `dirlookup` in front of its `iget`.
pub dirlookup : SuperBlock → (name : ℕ → ℕ) → Inode → Disk → Target → Option Searched
unfolding dirlookup_loop
dirlookup sb name ip d de = if ip.type == 1 then dirlookup_loop ip.size sb name 0 ip d de else none

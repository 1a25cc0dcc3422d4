-- ===== src/File/Tests.antt =====
-- Runs of kernel/file.c, and its theorems at them.
use os_assignments.Prelude.{
  ℕ, ◌+◌, ◌-◌, ◌≡◌, refl, true, false, arith, [], ◌∷◌, update, none, some, if◌then◌else◌, ltb, word,
}
use os_assignments.File.{
  File, FileTable, fd_none, fd_inode, Transfer, result, filealloc, fileclose, begin_op, iput,
  end_op, filewrite,
}
use os_assignments.File.Held.{
  boot-Reach, step-Reach, alloc-Step, set-Step, Counts, Behaves, Reach-Behaves,
}
use os_assignments.File.Chunks.{Wrote, filewrite-Wrote}

abbrev no_file : File
no_file = record {
  type = fd_none;
  ref = 0;
  readable = false;
  writable = false;
  pipe = 0;
  ip = 0;
  off = 0;
  major = 0;
}

abbrev empty : FileTable
empty f = no_file

-- `open` of inode 4 for writing, at offset 100.
abbrev opened : FileTable
opened = update empty 0 (record (no_file) { ref = 1 })

abbrev log_file : File
log_file = record {
  type = fd_inode;
  ref = 1;
  readable = false;
  writable = true;
  pipe = 0;
  ip = 4;
  off = 100;
  major = 0;
}

abbrev in_use : FileTable
in_use = update opened 0 log_file

opens : filealloc empty ≡ (some 0, opened)
unfolding filealloc
opens = refl

closes :
    fileclose 0 in_use
    ≡ some (
      begin_op ∷ iput 4 ∷ end_op ∷ [],
      update in_use 0 (record log_file { ref = 0; type = fd_none }),
    )
unfolding fileclose
closes = refl

Reach-Behaves_example :
    Counts (record { table = in_use; held = 0 ∷ [] })
    × Behaves (record { table = in_use; held = 0 ∷ [] })
Reach-Behaves_example = Reach-Behaves (
    step-Reach (step-Reach (boot-Reach (λ f. refl)) (alloc-Step 0 opens))
      (set-Step 0 log_file refl))

-- An inode layer that counts the bytes that it wrote, and a disk that is full at 5000 bytes.
abbrev io : Transfer ℕ
io = record {
  pipe_io = λ p addr n a. (n, a);
  device_io = λ m. none;
  inode_io = λ ip addr off n a. if ltb 5000 (a + n) then (word - 1, a) else (n, a + n);
  ilock = λ ip a. a;
  iunlock = λ ip a. a;
  op_begin = λ a. a;
  op_end = λ a. a;
}

two_chunks : filewrite io log_file 0 4000 0 ≡ result 4000 4100 4000
unfolding filewrite
two_chunks = refl

disk_full : filewrite io log_file 0 7000 0 ≡ result (word - 1) 3172 3072
unfolding filewrite
disk_full = refl

filewrite-Wrote_example : Wrote io 4 0 100 0 4000 (filewrite io log_file 0 4000 0)
filewrite-Wrote_example = filewrite-Wrote io log_file 0 4000 0 refl refl (omega arith) (omega arith)

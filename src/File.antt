-- ===== src/File.antt =====
-- kernel/file.c: the table of open files, and reading and writing through it.
pub mod Refs
pub mod Held
pub mod Chunks
mod Tests
use os_assignments.Prelude.{
  ℕ, zero, suc, ◌+◌, ◌-◌, ◌*◌, ◌/◌, ◌%◌, Bool, true, false, Option, none, some, not, ◌&&◌, ◌||◌,
  ltb, ◌==◌, if◌then◌else◌, word, int_lt, rounds, update, find_from, List, [], ◌∷◌,
}

abbrev pub nfile : ℕ
nfile = 100

abbrev pub ndev : ℕ
ndev = 10

pub data FileType : Type 0 where
  fd_none : FileType
  fd_pipe : FileType
  fd_inode : FileType
  fd_device : FileType

-- `struct file`; a pipe and an inode are named by a number, and `major` is a 32-bit word.
pub record File : Type 0 where
  pub type : FileType
  pub ref : ℕ
  pub readable : Bool
  pub writable : Bool
  pub pipe : ℕ
  pub ip : ℕ
  pub off : ℕ
  pub major : ℕ

abbrev pub FileTable : Type 0
FileTable = ℕ → File

pub filealloc_at : Option ℕ → FileTable → Option ℕ × FileTable
filealloc_at none t = (none, t)
filealloc_at (some f) t = (some f, update t f (record (t f) { ref = 1 }))

pub filealloc : FileTable → Option ℕ × FileTable
unfolding find_from filealloc_at
filealloc t = filealloc_at (find_from nfile 0 (λ i. (t i).ref == 0)) t

-- `filedup`; `none` is its panic.
pub filedup : ℕ → FileTable → Option FileTable
filedup f t =
    if int_lt (t f).ref 1
    then none
    else some (update t f (record (t f) { ref = ((t f).ref + 1) % word }))

-- What `fileclose` calls once the last reference is gone.
pub data Call : Type 0 where
  pipeclose : (pipe : ℕ) → (writable : Bool) → Call
  begin_op : Call
  iput : (ip : ℕ) → Call
  end_op : Call

pub last_calls : FileType → File → List Call
last_calls fd_pipe ff = pipeclose ff.pipe ff.writable ∷ []
last_calls fd_inode ff = begin_op ∷ iput ff.ip ∷ end_op ∷ []
last_calls fd_device ff = begin_op ∷ iput ff.ip ∷ end_op ∷ []
last_calls fd_none ff = []

-- `fileclose`; `none` is its panic.
pub fileclose : ℕ → FileTable → Option (List Call × FileTable)
unfolding last_calls
fileclose f t =
    let ref = ((t f).ref + (word - 1)) % word in
    if int_lt (t f).ref 1
    then none
    else if int_lt 0 ref
    then some ([], update t f (record (t f) { ref = ref }))
    else some (last_calls (t f).type (t f), update t f (record (t f) { ref = 0; type = fd_none }))

-- `int max` of `filewrite`, with MAXOPBLOCKS and BSIZE.
abbrev pub max_write : ℕ
max_write = (10 - 1 - 1 - 2) / 2 * 1024

abbrev pub minus_one : ℕ
minus_one = word - 1

-- What a call returns, the file's new offset, and what it leaves of what it works on; a panic.
pub data Result (A : Type 0) : Type 0 where
  result : (ret : ℕ) → (off : ℕ) → A → Result A
  panic : Result A
  out_of_fuel : Result A

-- The calls that transfer bytes, on a state `A` of pipes, inodes, devices and the log. Each returns
-- an `int`; a device may lack a function. `op_begin` and `op_end` are `begin_op` and `end_op`.
pub record Transfer (A : Type 0) : Type 0 where
  pub pipe_io : (pipe addr n : ℕ) → A → ℕ × A
  pub device_io : (major : ℕ) → Option ((addr n : ℕ) → A → ℕ × A)
  pub inode_io : (ip addr off n : ℕ) → A → ℕ × A
  pub ilock : (ip : ℕ) → A → A
  pub iunlock : (ip : ℕ) → A → A
  pub op_begin : A → A
  pub op_end : A → A

-- `if((r = readi(...)) > 0) f->off += r`
abbrev pub advance : (off r : ℕ) → ℕ
advance off r = if int_lt 0 r then (off + r) % word else off

-- `n1`, the bytes of one transaction.
abbrev pub chunk : (i n : ℕ) → ℕ
chunk i n = let left = (n + (word - i)) % word in if int_lt max_write left then max_write else left

module _ {A : Type 0} where
  -- A transfer of an inode under its lock.
  abbrev pub locked_io : Transfer A → (ip addr off n : ℕ) → A → ℕ × A
  locked_io io ip addr off n a =
      let done = io.inode_io ip addr off n (io.ilock ip a) in (done.0, io.iunlock ip done.1)

  -- One in a transaction of the log.
  abbrev pub transaction : Transfer A → (ip addr off n : ℕ) → A → ℕ × A
  transaction io ip addr off n a =
      let done = locked_io io ip addr off n (io.op_begin a) in (done.0, io.op_end done.1)

  abbrev pub plain : (off : ℕ) → ℕ × A → Result A
  plain off (r, a) = result r off a

  abbrev advanced : (off : ℕ) → ℕ × A → Result A
  advanced off (r, a) = result r (advance off r) a

  pub on_device : (off addr n : ℕ) → Option ((addr n : ℕ) → A → ℕ × A) → A → Result A
  on_device off addr n none a = result minus_one off a
  on_device off addr n (some io) a = plain off (io addr n a)

  pub device : Transfer A → File → (addr n : ℕ) → A → Result A
  unfolding on_device
  device io f addr n a =
      if int_lt f.major 0 || not (int_lt f.major ndev)
      then result minus_one f.off a
      else on_device f.off addr n (io.device_io f.major) a

  pub fileread_as : FileType → Transfer A → File → (addr n : ℕ) → A → Result A
  unfolding device
  fileread_as fd_pipe io f addr n a = plain f.off (io.pipe_io f.pipe addr n a)
  fileread_as fd_device io f addr n a = device io f addr n a
  fileread_as fd_inode io f addr n a = advanced f.off (locked_io io f.ip addr f.off n a)
  fileread_as fd_none io f addr n a = panic

  pub fileread : Transfer A → File → (addr n : ℕ) → A → Result A
  unfolding fileread_as
  fileread io f addr n a =
      if not f.readable then result minus_one f.off a else fileread_as f.type io f addr n a

  -- The loop of `filewrite` at byte `i` and offset `off`.
  pub filewrite_loop : Transfer A → (fuel : ℕ) → (ip addr off i n : ℕ) → A → Result A
  filewrite_loop io zero ip addr off i n a = out_of_fuel
  filewrite_loop io (suc fuel) ip addr off i n a =
      let n1 = chunk i n in
      let done = transaction io ip (addr + i) off n1 a in
      let r = done.0 in
      let a' = done.1 in
      let rest = filewrite_loop io fuel ip addr (advance off r) ((i + r) % word) n a' in
      if not (int_lt i n)
      then result (if i == n then n else minus_one) off a
      else if not (r == n1)
      then result minus_one (advance off r) a'
      else rest

  -- Each round but the last moves on by a byte or more.
  pub filewrite_as : FileType → Transfer A → File → (addr n : ℕ) → A → Result A
  unfolding device filewrite_loop rounds
  filewrite_as fd_pipe io f addr n a = plain f.off (io.pipe_io f.pipe addr n a)
  filewrite_as fd_device io f addr n a = device io f addr n a
  filewrite_as fd_inode io f addr n a = filewrite_loop io (rounds n + 1) f.ip addr f.off 0 n a
  filewrite_as fd_none io f addr n a = panic

  pub filewrite : Transfer A → File → (addr n : ℕ) → A → Result A
  unfolding filewrite_as
  filewrite io f addr n a =
      if not f.writable then result minus_one f.off a else filewrite_as f.type io f addr n a

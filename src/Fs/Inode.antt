-- ===== src/Fs/Inode.antt =====
-- The inodes of kernel/fs.c: their form on the disk, their blocks, and reading and writing their
-- bytes.
pub mod Codec
pub mod Slots
pub mod Grow
pub mod Bmap
pub mod Content
pub mod Progress
pub mod Write
pub mod Wrote
pub mod ReadUpTo
pub mod Read
pub mod Free
pub mod Trunc
pub mod RoundTrip
mod Tests
use os_assignments.Prelude.{
  ℕ, zero, suc, ◌+◌, ◌-◌, ◌*◌, ◌/◌, ◌%◌, Bool, true, false, Option, none, some, ◌||◌, ltb, ◌==◌,
  if◌then◌else◌, update, min, word, ◌>>=◌,
}
use os_assignments.Fs.{Block, SuperBlock, Disk, bsize, set_block, log_write, balloc, bfree}

abbrev pub ndirect : ℕ
ndirect = 12

abbrev pub nindirect : ℕ
nindirect = 256

abbrev pub maxfile : ℕ
maxfile = ndirect + nindirect

-- `struct inode`, but for `ref` and the lock. Every field is the pattern of its bits.
pub record Inode : Type 0 where
  pub inum : ℕ
  pub type : ℕ
  pub major : ℕ
  pub minor : ℕ
  pub nlink : ℕ
  pub size : ℕ
  pub addrs : ℕ → ℕ

-- The 16-bit and the 32-bit word at byte `p` of a block, the low byte first.
unfoldable pub get16 : (p : ℕ) → Block → ℕ
get16 p v = v p + v (p + 1) * 256

unfoldable pub put16 : (p x : ℕ) → Block → Block
put16 p x v = update (update v p (x % 256)) (p + 1) (x / 256 % 256)

unfoldable pub get32 : (p : ℕ) → Block → ℕ
unfolding get16
get32 p v = get16 p v + get16 (p + 2) v * 65536

pub put32 : (p x : ℕ) → Block → Block
unfolding put16
put32 p x v = put16 (p + 2) (x / 65536) (put16 p (x % 65536) v)

-- `IBLOCK`, and the first byte of the inode in its block.
abbrev pub iblock : ℕ → SuperBlock → ℕ
iblock inum sb = inum / 16 + sb.inodestart

abbrev pub ioffset : ℕ → ℕ
ioffset inum = inum % 16 * 64

-- `memmove(dip->addrs, ip->addrs, sizeof(ip->addrs))` from word `i` on.
pub put_addrs : ℕ → (i p : ℕ) → (ℕ → ℕ) → Block → Block
unfolding put32
put_addrs zero i p addrs v = v
put_addrs (suc k) i p addrs v = put_addrs k (i + 1) p addrs (put32 (p + i * 4) (addrs i) v)

pub put_inode : Inode → Block → Block
put_inode ip v =
    let p = ioffset ip.inum in
    put_addrs (ndirect + 1) 0 (p + 12) ip.addrs (
      put32 (p + 8) ip.size (
        put16 (p + 6) ip.nlink
          (put16 (p + 4) ip.minor (put16 (p + 2) ip.major (put16 p ip.type v)))))

pub iupdate : SuperBlock → Inode → Disk → Disk
unfolding put_inode
iupdate sb ip d =
    let b = iblock ip.inum sb in log_write b (set_block b (put_inode ip (d.block b)) d)

-- What `ilock` reads of an inode that is not valid.
unfoldable pub get_inode : (inum : ℕ) → Block → Inode
get_inode inum v =
    let p = ioffset inum in
    record {
      inum = inum;
      type = get16 p v;
      major = get16 (p + 2) v;
      minor = get16 (p + 4) v;
      nlink = get16 (p + 6) v;
      size = get32 (p + 8) v;
      addrs = λ i. get32 (p + 12 + i * 4) v;
    }

abbrev pub set_addr : (i a : ℕ) → Inode → Inode
set_addr i a ip = record ip { addrs = update ip.addrs i a }

-- `if((addr = ...) == 0) ... = addr = balloc(ip->dev)`
abbrev pub ensure : SuperBlock → (addr : ℕ) → Disk → Option (ℕ × Disk)
ensure sb addr d = if addr == 0 then balloc sb d else some (addr, d)

-- The part of `bmap` behind the load of the indirect block `ind`, for its entry `j`.
pub bmap_entry : SuperBlock → (ind j : ℕ) → Inode → Disk → Option (ℕ × Inode × Disk)
unfolding get32 put32
bmap_entry sb ind j ip d =
    let addr = get32 (j * 4) (d.block ind) in
    if addr == 0
    then (do
      (a, d1) ← balloc sb d
      some (a, ip, log_write ind (set_block ind (put32 (j * 4) a (d1.block ind)) d1)))
    else some (addr, ip, d)

-- `bmap`; `none` is a panic, of its own or of `balloc`.
pub bmap : SuperBlock → Inode → (bn : ℕ) → Disk → Option (ℕ × Inode × Disk)
unfolding bmap_entry
bmap sb ip bn d =
    if ltb bn ndirect
    then (do (a, d1) ← ensure sb (ip.addrs bn) d; some (a, set_addr bn a ip, d1))
    else if ltb (bn - ndirect) nindirect
    then (do
      (ind, d1) ← ensure sb (ip.addrs ndirect) d
      bmap_entry sb ind (bn - ndirect) (set_addr ndirect ind ip) d1)
    else none

-- `if(a) bfree(ip->dev, a)`
abbrev pub free_addr : SuperBlock → (a : ℕ) → Disk → Option Disk
free_addr sb a d = if a == 0 then some d else bfree sb a d

-- The loop of `itrunc` over the direct blocks, from `i` on.
pub trunc_direct : ℕ → SuperBlock → (i : ℕ) → Inode → Disk → Option (Inode × Disk)
trunc_direct zero sb i ip d = some (ip, d)
trunc_direct (suc k) sb i ip d = do
  d1 ← free_addr sb (ip.addrs i) d
  trunc_direct k sb (i + 1) (set_addr i 0 ip) d1

-- The loop over the entries of the indirect block `ind`, from `j` on.
pub trunc_entries : ℕ → SuperBlock → (ind j : ℕ) → Disk → Option Disk
unfolding get32
trunc_entries zero sb ind j d = some d
trunc_entries (suc k) sb ind j d = do
  d1 ← free_addr sb (get32 (j * 4) (d.block ind)) d
  trunc_entries k sb ind (j + 1) d1

pub trunc_indirect : SuperBlock → Inode → Disk → Option (Inode × Disk)
trunc_indirect sb ip d =
    let ind = ip.addrs ndirect in
    if ind == 0 then some (ip, d) else (do
      d1 ← trunc_entries nindirect sb ind 0 d
      d2 ← bfree sb ind d1
      some (set_addr ndirect 0 ip, d2))

-- `itrunc`; `none` is a panic of `bfree`.
pub itrunc : SuperBlock → Inode → Disk → Option (Inode × Disk)
itrunc sb ip d = do
  (ip1, d1) ← trunc_direct ndirect sb 0 ip d
  (ip2, d2) ← trunc_indirect sb ip1 d1
  let ip3 = record ip2 { size = 0 }
  some (ip3, iupdate sb ip3 d2)

-- The memory of a caller for reading: a byte, or a fault at the address.
abbrev pub Source : Type 0
Source = ℕ → Option ℕ

-- `either_copyin` of `m` bytes to byte `p` of a block: it stops at the first fault.
pub copy_in : ℕ → (p src : ℕ) → Source → Block → Bool × Block
copy_in zero p src mem v = (true, v)
copy_in (suc m) p src mem v = elim (mem src) [
  | none ↦ (false, v)
  | some x ↦ copy_in m (p + 1) (src + 1) mem (update v p x)
]

-- `m` of `readi` and `writei`.
abbrev pub piece : (n tot off : ℕ) → ℕ
piece n tot off = min (n - tot) (bsize - off % bsize)

-- How far the loop of `writei` has come.
pub record Written : Type 0 where
  pub tot : ℕ
  pub off : ℕ
  pub inode : Inode
  pub disk : Disk

-- The loop, with a round for each byte.
pub writei_loop : ℕ → SuperBlock → Source → (n tot off src : ℕ) → Inode → Disk → Option Written
unfolding bmap copy_in
writei_loop zero sb mem n tot off src ip d =
    some (record { tot = tot; off = off; inode = ip; disk = d })
writei_loop (suc k) sb mem n tot off src ip d =
    let m = piece n tot off in
    let round = do
      (a, ip1, d1) ← bmap sb ip (off / bsize) d
      let copied = copy_in m (off % bsize) src mem (d1.block a)
      let d2 = set_block a copied.1 d1
      if copied.0
          then writei_loop k sb mem n (tot + m) (off + m) (src + m) ip1 (log_write a d2)
          else some (record { tot = tot; off = off; inode = ip1; disk = d2 })
    in if ltb tot n then round else some (record { tot = tot; off = off; inode = ip; disk = d })

-- The end of `writei`.
pub finish_write : SuperBlock → Written → ℕ × Inode × Disk
finish_write sb w =
    let ip = if ltb w.inode.size w.off then record w.inode { size = w.off } else w.inode in
    (w.tot, ip, iupdate sb ip w.disk)

pub writei : SuperBlock → Source → Inode → (src off n : ℕ) → Disk → Option (ℕ × Inode × Disk)
unfolding writei_loop finish_write
writei sb mem ip src off n d =
    if ltb ip.size off || ltb ((off + n) % word) off
    then some (word - 1, ip, d)
    else if ltb (maxfile * bsize) ((off + n) % word)
    then some (word - 1, ip, d)
    else do w ← writei_loop n sb mem n 0 off src ip d; some (finish_write sb w)

-- The memory of a caller for writing: its bytes, and whether an address may be written.
pub record Target : Type 0 where
  pub writable : ℕ → Bool
  pub bytes : ℕ → ℕ

-- `either_copyout` of `m` bytes from byte `p` of a block: it stops at the first fault.
pub copy_out : ℕ → (p dst : ℕ) → Block → Target → Bool × Target
copy_out zero p dst v t = (true, t)
copy_out (suc m) p dst v t =
    let rest = copy_out m (p + 1) (dst + 1) v (record t { bytes = update t.bytes dst (v p) }) in
    if t.writable dst then rest else (false, t)

-- What a read has done: it returns `ret`.
pub record WasRead : Type 0 where
  pub ret : ℕ
  pub inode : Inode
  pub disk : Disk
  pub target : Target

pub readi_loop : ℕ → SuperBlock → (n tot off dst : ℕ) → Inode → Disk → Target → Option WasRead
unfolding bmap copy_out
readi_loop zero sb n tot off dst ip d t =
    some (record { ret = tot; inode = ip; disk = d; target = t })
readi_loop (suc k) sb n tot off dst ip d t =
    let m = piece n tot off in
    let round = do
      (a, ip1, d1) ← bmap sb ip (off / bsize) d
      let copied = copy_out m (off % bsize) dst (d1.block a) t
      if copied.0
          then readi_loop k sb n (tot + m) (off + m) (dst + m) ip1 d1 copied.1
          else some (record { ret = word - 1; inode = ip1; disk = d1; target = copied.1 })
    in if ltb tot n then round else some (record { ret = tot; inode = ip; disk = d; target = t })

pub readi : SuperBlock → Inode → (dst off n : ℕ) → Disk → Target → Option WasRead
unfolding readi_loop
readi sb ip dst off n d t =
    let left = if ltb ip.size ((off + n) % word) then ip.size - off else n in
    if ltb ip.size off || ltb ((off + n) % word) off
    then some (record { ret = 0; inode = ip; disk = d; target = t })
    else readi_loop left sb left 0 off dst ip d t

-- ===== src/Fs.antt =====
-- system/bs.c and the block, mask and inode part of system/fs.c, with include/fs.h: the file system in
-- memory.
-- `disk` is the memory from dev0_blocks on, a byte for each 32-bit offset; `block_cache` is a function
-- too. The printed messages are left out. An `int` is a 32-bit pattern.
pub mod Bytes
pub mod Mask
pub mod Inodes
pub mod Calls
use Prim.Native.Nat.{bit_and, bit_or}
use os_xinu.Prelude.{
  ℕ, zero, suc, ◌+◌, ◌-◌, ◌*◌, ◌/◌, ◌%◌, ◌^◌, Bool, true, false, ◌||◌, not, ◌==◌, leb, ltb,
  if◌then◌else◌, List, get_or,
}
use os_xinu.Queue.{bias, is_negative}
use os_xinu.Memory.{Store, getmem, add32, sub32, syserr}

-- `struct inode`, 64 bytes.
pub record Inode : Type 0 where
  pub id : ℕ
  pub type : ℕ
  pub nlink : ℕ
  pub device : ℕ
  pub size : ℕ
  pub blocks : ℕ → ℕ

-- `struct dirent`, 36 bytes.
pub record Dirent : Type 0 where
  pub inode_num : ℕ
  pub name : List ℕ

-- `struct filetable`; `de` is the index of the directory entry.
pub record FileTable : Type 0 where
  pub state : ℕ
  pub fileptr : ℕ
  pub de : ℕ
  pub inode : Inode

-- The globals: those of bs.c, `fsd` with the directory, `block_cache`, the file table, and the places
-- where searches start. `entry` is for the 16 entries of the directory, and no call of the model reads or
-- writes one beyond them; `oft` is for the 16 descriptors.
pub record Fs : Type 0 where
  pub disk : ℕ → ℕ
  pub dev_blocks : ℕ
  pub dev_blocksize : ℕ
  pub nblocks : ℕ
  pub blocksz : ℕ
  pub ninodes : ℕ
  pub inodes_used : ℕ
  pub freemaskbytes : ℕ
  pub freemask_at : ℕ
  pub freemask : ℕ → ℕ
  pub numentries : ℕ
  pub entry : ℕ → Dirent
  pub cache : ℕ → ℕ
  pub oft : ℕ → FileTable
  pub next_open_fd : ℕ
  pub next_free_data_block : ℕ
  pub next_free_inode : ℕ

abbrev pub mdev_block_size : ℕ
mdev_block_size = 512

abbrev pub mdev_num_blocks : ℕ
mdev_num_blocks = 512

abbrev pub inode_size : ℕ
inode_size = 64

abbrev pub less : ℕ → ℕ → Bool
less a b = ltb (bias a) (bias b)

-- bs_mkdev for the device `dev`; the blocks are `dev_blocks` bytes from the address that getmem gives.
abbrev pub mkdev_at : Fs → ℕ → ℕ → (Store × ℕ) → Store × Fs × ℕ × Bool
mkdev_at s blocksize numblocks (h, a) =
    (h, record s { dev_blocksize = blocksize; dev_blocks = numblocks }, a, not (a == syserr))

abbrev pub bs_mkdev : Store → Fs → ℕ → ℕ → ℕ → Store × Fs × ℕ × Bool
bs_mkdev h s dev blocksize numblocks =
    if not (dev == 0)
    then (h, s, 0, false)
    else (let bs = if not (blocksize == 0) then blocksize else mdev_block_size in
        let nb = if not (numblocks == 0) then numblocks else mdev_num_blocks in
        mkdev_at s bs nb (getmem h ((nb * bs) % 2 ^ 32)))

-- `&dev0_blocks[block * dev0_blocksize] + offset`
abbrev pub block_at : Fs → ℕ → ℕ → ℕ
block_at s block offset = (block * s.dev_blocksize + offset) % 2 ^ 32

-- `memcpy` of `len` bytes to the address `base`.
abbrev pub copied : (ℕ → ℕ) → ℕ → (ℕ → ℕ) → ℕ → ℕ → ℕ
copied m base buf len a = let d = sub32 a base in if ltb d len then buf d else m a

-- The bytes that the read puts into the buffer, from 0 on, or SYSERR.
pub bs_bread : Fs → ℕ → ℕ → ℕ → (ℕ → ℕ) → (ℕ → ℕ) × Bool
bs_bread s dev block offset buf =
    if not (dev == 0) || not (less offset s.dev_blocksize)
    then (buf, false)
    else ((λ i. s.disk (add32 (block_at s block offset) i)), true)

-- The first `len` bytes of `buf` are written.
pub bs_bwrite : Fs → ℕ → ℕ → ℕ → (ℕ → ℕ) → ℕ → Fs × Bool
bs_bwrite s dev block offset buf len =
    if not (dev == 0) || not (less offset s.dev_blocksize)
    then (s, false)
    else (record s { disk = copied s.disk (block_at s block offset) buf len }, true)

-- A block is read into `block_cache`.
abbrev pub fill_cache : Fs → ℕ → Fs
fill_cache s block =
    let (bytes, read) = bs_bread s 0 block 0 s.cache in
    record s { cache = λ i. if ltb i s.blocksz then bytes i else s.cache i }

-- The bit of block `b` in a byte of the mask; `b` is not negative.
abbrev pub bit_of : ℕ → ℕ
bit_of b = 128 / 2 ^ (b % 8)

abbrev pub set_mask : (ℕ → ℕ) → ℕ → ℕ → ℕ → ℕ
set_mask m i v j = if i == j then v else m j

pub fs_setmaskbit : Fs → ℕ → Fs
fs_setmaskbit s b = record s {
  freemask = set_mask s.freemask (b / 8) (bit_or (s.freemask (b / 8)) (bit_of b));
}

pub fs_getmaskbit : Fs → ℕ → ℕ
fs_getmaskbit s b = bit_and (s.freemask (b / 8) * 2 ^ (b % 8)) 128 / 128

pub fs_clearmaskbit : Fs → ℕ → Fs
fs_clearmaskbit s b = record s {
  freemask = set_mask s.freemask (b / 8) (bit_and (s.freemask (b / 8)) (255 - bit_of b));
}

-- Numbers in memory, the low byte first.
abbrev pub word16 : (ℕ → ℕ) → ℕ → ℕ
word16 m a = m a + 256 * m (a + 1)

abbrev pub word32 : (ℕ → ℕ) → ℕ → ℕ
word32 m a = word16 m a + 65536 * word16 m (a + 2)

abbrev pub byte_of : ℕ → ℕ → ℕ
byte_of v i = v / 256 ^ i % 256

-- An inode in memory, and its bytes.
pub inode_at : (ℕ → ℕ) → ℕ → Inode
inode_at m a = record {
  id = word32 m a;
  type = word16 m (a + 4);
  nlink = word16 m (a + 6);
  device = word32 m (a + 8);
  size = word32 m (a + 12);
  blocks = λ i. word32 m (a + 16 + 4 * i);
}

pub inode_byte : Inode → ℕ → ℕ
inode_byte n i =
    if ltb i 4
    then byte_of n.id i
    else if ltb i 6
    then byte_of n.type (i - 4)
    else if ltb i 8
    then byte_of n.nlink (i - 6)
    else if ltb i 12
    then byte_of n.device (i - 8)
    else if ltb i 16
    then byte_of n.size (i - 12)
    else byte_of (n.blocks ((i - 16) / 4)) ((i - 16) % 4)

abbrev pub inodes_per_block : Fs → ℕ
inodes_per_block s = s.blocksz / inode_size

abbrev pub num_inode_blocks : Fs → ℕ
num_inode_blocks s =
    let per = inodes_per_block s in
    if s.ninodes % per == 0 then s.ninodes / per else s.ninodes / per + 1

abbrev pub first_data_block : Fs → ℕ
first_data_block s = 2 + num_inode_blocks s

-- The block of an inode, and its offset in the block. An inode number is not negative.
abbrev pub inode_block : Fs → ℕ → ℕ
inode_block s n = n / inodes_per_block s + 2

abbrev pub inode_offset : Fs → ℕ → ℕ
inode_offset s n = n % inodes_per_block s * inode_size

-- The inode, or SYSERR.
pub fs_get_inode_by_num : Fs → ℕ → ℕ → Inode → Fs × Inode × Bool
fs_get_inode_by_num s dev n old =
    if not (dev == 0) || less s.ninodes n
    then (s, old, false)
    else (let s1 = fill_cache s (inode_block s n) in
        (s1, inode_at s1.cache (inode_offset s n), true))

pub fs_put_inode_by_num : Fs → ℕ → ℕ → Inode → Fs × Bool
fs_put_inode_by_num s dev n new =
    if not (dev == 0) || less s.ninodes n
    then (s, false)
    else (let s1 = fill_cache s (inode_block s n) in
        let s2 = record s1 {
          cache = copied s1.cache (inode_offset s n) (inode_byte new) inode_size;
        } in
        ((bs_bwrite s2 0 (inode_block s n) 0 s2.cache s.blocksz).0, true))

-- `while ((i % 8) != 0) { i++; }`: at most 7 rounds.
pub round8 : ℕ → ℕ → ℕ
round8 zero i = i
round8 (suc fuel) i = let rest = round8 fuel (i + 1) in if i % 8 == 0 then i else rest

-- The 604 bytes of `fsd` in memory.
pub fsd_word : Fs → ℕ → ℕ
fsd_word s i =
    if i == 0
    then s.nblocks
    else if i == 1
    then s.blocksz
    else if i == 2
    then s.ninodes
    else if i == 3
    then s.inodes_used
    else if i == 4
    then s.freemaskbytes
    else if i == 5
    then s.freemask_at
    else s.numentries

pub fsd_byte : Fs → ℕ → ℕ
unfolding fsd_word
fsd_byte s i =
    let e = s.entry ((i - 28) / 36) in
    let r = (i - 28) % 36 in
    if ltb i 28
    then byte_of (fsd_word s (i / 4)) (i % 4)
    else if ltb r 4
    then byte_of e.inode_num r
    else get_or e.name (r - 4) 0

-- `fs_mkfs` once the mask has its memory at `a`.
pub mkfs_at : Fs → ℕ → Fs
unfolding fs_setmaskbit bs_bwrite fsd_byte
mkfs_at s a =
    let s1 = record s {
      freemask_at = a;
      freemask = λ i. if ltb i s.freemaskbytes then 0 else s.freemask i;
      inodes_used = 0;
    } in
    let s2 = fs_setmaskbit s1 0 in
    let s3 = (bs_bwrite s2 0 0 0 (fsd_byte s2) 604).0 in
    let s4 = fs_setmaskbit s3 1 in (bs_bwrite s4 0 1 0 s4.freemask s4.freemaskbytes).0

-- The result 1 is `true`.
unfoldable pub fs_mkfs : Store → Fs → ℕ → ℕ → Store × Fs × Bool
unfolding mkfs_at round8
fs_mkfs h s dev num_inodes =
    if not (dev == 0)
    then (h, s, false)
    else (let s1 = record s {
      nblocks = s.dev_blocks;
      blocksz = s.dev_blocksize;
      ninodes = if less num_inodes 1 then 128 else num_inodes;
      freemaskbytes = round8 8 s.dev_blocks / 8;
    } in
        let (h1, a) = getmem h s1.freemaskbytes in
        if a == syserr
        then (h1, record s1 { freemask_at = a }, false)
        else (h1, mkfs_at s1 a, true))

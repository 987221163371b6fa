-- ===== src/Fs/Calls.antt =====
-- fs_open, fs_close, fs_create, fs_seek, fs_read and fs_write of system/fs.c.
-- `dirent_ptr` and `filetable_ptr` are set at the start of each call, so they are local here. A
-- descriptor that the caller passes is below 16; the model has no memory behind the file table. A string
-- is the list of the bytes from the pointer on, and `none` is a use beyond it or beyond the directory.
pub mod Slots
pub mod Opening
pub mod Creating
pub mod Seeking
mod Tests
use os_xinu.Prelude.{
  pos, negsuc, ℕ, zero, suc, ◌+◌, ◌-◌, ◌*◌, ◌/◌, ◌%◌, ◌^◌, Bool, true, false, ◌||◌, ◌&&◌, not, ◌==◌,
  leb, ltb, if◌then◌else◌, List, Option, none, some, ℤ, set, min,
}
use os_xinu.Queue.{is_negative}
use os_xinu.Memory.{Store, freemem, add32, sub32, syserr}
use os_xinu.Strings.Compare.{strncmp}
use os_xinu.Strings.Copy.{strncpy}
use os_xinu.Strings.Scan.{strlen}
use os_xinu.Fs.{
  Inode, Dirent, FileTable, Fs, less, bs_bread, bs_bwrite, fs_setmaskbit, fs_getmaskbit,
  fs_get_inode_by_num, fs_put_inode_by_num, first_data_block, mdev_num_blocks,
}

abbrev pub num_fd : ℕ
num_fd = 16

abbrev pub directory_size : ℕ
directory_size = 16

abbrev pub filenamelen : ℕ
filenamelen = 32

abbrev pub o_creat : ℕ
o_creat = 11

abbrev pub set_file : Fs → ℕ → FileTable → Fs
set_file s fd f = record s { oft = λ j. if fd == j then f else s.oft j }

abbrev pub set_entry : Fs → ℕ → Dirent → Fs
set_entry s i e = record s { entry = λ j. if i == j then e else s.entry j }

unfoldable pub fs_fileblock_to_diskblock : Fs → ℕ → ℕ → ℕ
fs_fileblock_to_diskblock s fd fileblock =
    if not (less fileblock 10) then syserr else (s.oft fd).inode.blocks fileblock

-- Whether `strncmp` gives 0.
abbrev pub is_zero : ℤ → Bool
is_zero (ℤ.pos n) = n == 0
is_zero (ℤ.negsuc n) = false

-- The loop over the directory: the entry with the name, or `directory_size`.
pub entry_next : Option ℕ → ℕ → Option ℤ → Option ℕ
entry_next rest i none = none
entry_next rest i (some r) = if is_zero r then some i else rest

pub find_entry : ℕ → ℕ → Fs → List ℕ → Option ℕ
unfolding entry_next
find_entry zero i s filename = some i
find_entry (suc rounds) i s filename =
    entry_next (find_entry rounds (i + 1) s filename) i
      (strncmp (s.entry i).name filename (ℤ.pos filenamelen))

-- The loop over the file table: `next_open_fd` after it.
pub find_slot : ℕ → Fs → ℕ → ℕ
find_slot zero s fd = fd
find_slot (suc rounds) s fd =
    let rest = find_slot rounds s (if leb num_fd (fd + 1) then 0 else fd + 1) in
    if (s.oft fd).state == 0 then fd else rest

-- The inode `n` is read into the file table.
abbrev pub load_inode : Fs → ℕ → ℕ → Fs
load_inode s fd n =
    let (s1, got, _) = fs_get_inode_by_num s 0 n (s.oft fd).inode in
    set_file s1 fd (record (s1.oft fd) { inode = got })

abbrev pub opened : Fs → ℕ → ℕ → Fs
opened s fd i = set_file s fd (record (s.oft fd) { state = 1; fileptr = 0; de = i })

pub open_entry : Fs → ℕ → Fs × ℕ
open_entry s i =
    let fd = find_slot num_fd s s.next_open_fd in
    let s1 = record s { next_open_fd = fd } in
    if not ((s.oft fd).state == 0)
    then (s1, syserr)
    else (load_inode (opened s1 fd i) fd (s.entry i).inode_num, fd)

pub open_found : Fs → Option ℕ → Option (Fs × ℕ)
unfolding open_entry
open_found s none = none
open_found s (some i) = some (if i == directory_size then (s, syserr) else open_entry s i)

pub fs_open : Fs → List ℕ → ℕ → Option (Fs × ℕ)
unfolding open_found find_entry
fs_open s filename flags =
    if not (is_negative flags) && leb flags 2
    then open_found s (find_entry directory_size 0 s filename)
    else some (s, syserr)

-- `entries` is the address of the first directory entry; the heap is from `minheap` to `maxheap`.
pub fs_close : ℕ → ℕ → ℕ → Store → Fs → ℕ → Store × Fs × Bool
fs_close minheap maxheap entries h s fd =
    let f = s.oft fd in
    if f.state == 1
    then (
      (freemem minheap maxheap h (add32 entries (36 * f.de)) 36).0,
      set_file s fd (record f { state = 0 }),
      true,
    )
    else (h, s, false)

-- The search for an inode whose id is out of range, which reads each into the file table.
pub find_inode : ℕ → Fs → ℕ → Fs
find_inode zero s fd = s
find_inode (suc rounds) s fd =
    let s1 = load_inode s fd s.next_free_inode in
    let id = (s1.oft fd).inode.id in
    let next = s.next_free_inode + 1 in
    let rest =
      find_inode rounds (record s1 { next_free_inode = if less next s.ninodes then next else 0 })
        fd in
    if less id 0 || not (less id s.ninodes) then s1 else rest

-- The end of `fs_create`, with the entry `i` and the inode found.
pub finish_create : Fs → ℕ → ℕ → Fs × ℕ
finish_create s i fd =
    let n = s.next_free_inode in
    let inode = record ((s.oft fd).inode) { id = n; type = 1; nlink = 0; device = 0; size = 0 } in
    let s1 = set_file s fd (record (s.oft fd) { inode = inode }) in
    let s2 = record (set_entry s1 i (record (s1.entry i) { inode_num = n })) {
      inodes_used = add32 s.inodes_used 1;
    } in
    ((fs_put_inode_by_num s2 0 n inode).0, fd)

abbrev pub rounds_of : ℕ → ℕ
rounds_of n = if is_negative n then 0 else n

-- `fs_create` with the new name in its entry `i`.
pub create_entry : Fs → ℕ → Fs × ℕ
create_entry s i =
    let fd = find_slot num_fd s s.next_open_fd in
    let s1 = record s { next_open_fd = fd } in
    if not ((s.oft fd).state == 0)
    then (s1, syserr)
    else finish_create (find_inode (rounds_of s.ninodes) (opened s1 fd i) fd) i fd

pub create_named : Fs → ℕ → Option (List ℕ) → Option (Fs × ℕ)
unfolding create_entry
create_named s i none = none
create_named s i (some name) = some (
    create_entry
      (set_entry (record s { numentries = i + 1 }) i
        (record { inode_num = syserr; name = set name (filenamelen - 1) 0 }))
      i)

-- With `numentries` at the end of the directory or behind it, the source writes an entry behind the array.
pub create_checked : Fs → List ℕ → Option ℕ → Option (Fs × ℕ)
unfolding create_named
create_checked s filename none = none
create_checked s filename (some i) =
    if not (i == directory_size)
    then some (s, syserr)
    else if leb directory_size s.numentries
    then none
    else create_named s s.numentries
        (strncpy (s.entry s.numentries).name filename (ℤ.pos (filenamelen - 1)))

pub create_short : Fs → List ℕ → Option ℕ → Option (Fs × ℕ)
unfolding create_checked find_entry
create_short s filename none = none
create_short s filename (some len) =
    if ltb filenamelen len
    then some (s, syserr)
    else create_checked s filename (find_entry directory_size 0 s filename)

pub fs_create : Fs → List ℕ → ℕ → Option (Fs × ℕ)
unfolding create_short
fs_create s filename mode =
    if not (mode == o_creat) then some (s, syserr) else create_short s filename (strlen filename)

-- No field of the file table is written.
unfoldable pub fs_seek : Fs → ℕ → ℕ → ℕ
fs_seek s fd offset =
    let f = s.oft fd in
    let to = add32 offset f.fileptr in
    if f.state == 1
    then (if is_negative to || not (less to f.inode.size) || not (less to 5120) then syserr else to)
    else syserr

abbrev pub moved : Fs → ℕ → ℕ → Fs
moved s fd len = let f = s.oft fd in set_file s fd (record f { fileptr = add32 f.fileptr len })

abbrev pub block_of : FileTable → ℕ
block_of f = f.inode.blocks (f.fileptr / 512)

-- `len` bytes behind the first `at` of the buffer.
abbrev pub filled : (ℕ → ℕ) → ℕ → (ℕ → ℕ) → ℕ → ℕ → ℕ
filled buf at bytes len i = if leb at i && ltb i (at + len) then bytes (i - at) else buf i

-- The loop of `fs_read` while `nbytes` are left, with `done` in the buffer.
pub read_loop : ℕ → Fs → ℕ → ℕ → ℕ → (ℕ → ℕ) → Fs × (ℕ → ℕ) × Bool
read_loop zero s fd nbytes done buf = (s, buf, true)
read_loop (suc fuel) s fd nbytes done buf =
    let f = s.oft fd in
    let len = min nbytes 512 in
    let (bytes, ok) = bs_bread s 0 (block_of f) 0 buf in
    let rest =
      read_loop fuel (moved s fd len) fd (nbytes - len) (done + len) (filled buf done bytes len) in
    if (nbytes == 0) || (block_of f == syserr)
    then (s, buf, true)
    else if not ok
    then (s, buf, false)
    else rest

-- What the buffer holds, and the number of bytes asked for, or SYSERR.
pub fs_read : Fs → ℕ → ℕ → (ℕ → ℕ) → Fs × (ℕ → ℕ) × ℕ
unfolding read_loop
fs_read s fd nbytes buf =
    let f = s.oft fd in
    if is_negative nbytes || not (f.state == 1) || not (less (add32 nbytes f.fileptr) 5120)
    then (s, buf, syserr)
    else (let offset = f.fileptr % 512 in
        let len = min nbytes (512 - offset) in
        let (bytes, ok) = bs_bread s 0 (block_of f) offset buf in
        let buf1 = if ok then filled buf 0 bytes len else buf in
        let (s1, buf2, done) = read_loop nbytes s fd nbytes 0 buf1 in
        (s1, buf2, if done then nbytes else syserr))

-- The search for a free block from `next_free_data_block` on: where it stands, and the bit.
pub find_block : ℕ → Fs → ℕ → ℕ → ℕ × ℕ
unfolding fs_getmaskbit
find_block zero s next m = (next, m)
find_block (suc rounds) s next _ =
    let m = fs_getmaskbit s next in
    let rest =
      find_block rounds s (if leb mdev_num_blocks (next + 1) then first_data_block s else next + 1)
        m in
    if m == 0 then (next, m) else rest

-- The block `next` is marked as used, the mask written to the disk, and the block entered into the inode.
abbrev pub claim_block : Fs → ℕ → ℕ → Fs
claim_block s fd next =
    let s1 = fs_setmaskbit (fs_setmaskbit (record s { next_free_data_block = next }) next) 1 in
    let s2 = (bs_bwrite s1 0 1 0 s1.freemask s1.freemaskbytes).0 in
    let f = s2.oft fd in
    let i = f.fileptr / 512 in
    let blocks : ℕ → ℕ = λ j. if i == j then next else f.inode.blocks j in
    set_file s2 fd (record f { inode = record (f.inode) { blocks = blocks } })

-- The loop of `fs_write`; `m` is what the variable m holds.
pub write_loop : ℕ → Fs → ℕ → ℕ → ℕ → (ℕ → ℕ) → ℕ → Fs × Bool
unfolding find_block
write_loop zero s fd nbytes done buf m = (s, true)
write_loop (suc fuel) s fd nbytes done buf m =
    let (next, bit) = find_block (s.nblocks - first_data_block s) s s.next_free_data_block m in
    let s1 = claim_block s fd next in
    let len = min nbytes 512 in
    let (s2, ok) = bs_bwrite s1 0 (block_of (s1.oft fd)) 0 (λ i. buf (done + i)) len in
    let rest = write_loop fuel (moved s2 fd len) fd (nbytes - len) (done + len) buf bit in
    if nbytes == 0
    then (s, true)
    else if not (bit == 0)
    then (record s { next_free_data_block = next }, false)
    else if not ok
    then (s2, false)
    else rest

-- The end of `fs_write`.
abbrev pub store_inode : Fs → ℕ → Fs
store_inode s fd = (fs_put_inode_by_num s 0 (s.oft fd).inode.id (s.oft fd).inode).0

pub fs_write : Fs → ℕ → ℕ → (ℕ → ℕ) → ℕ → Fs × ℕ
unfolding write_loop
fs_write s fd nbytes buf m =
    let f = s.oft fd in
    if is_negative nbytes || not (f.state == 1) || not (less (add32 nbytes f.fileptr) 5120)
    then (s, syserr)
    else (let offset = f.fileptr % 512 in
        let len = min nbytes (512 - offset) in
        let (s1, ok) = bs_bwrite s 0 (block_of f) offset buf len in
        let (s2, done) = write_loop nbytes (moved s1 fd len) fd (nbytes - len) len buf m in
        if not ok
        then (s1, syserr)
        else if not done
        then (s2, syserr)
        else (store_inode s2 fd, nbytes))

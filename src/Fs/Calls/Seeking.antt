-- ===== src/Fs/Calls/Seeking.antt =====
-- fs_read and fs_write of system/fs.c within one block.
use os_xinu.Fs.Calls.Creating.{IsSized-same}
use os_xinu.Prelude.{
  ltb, ◌⊎◌, ◌-◌, ◌∙◌, leb, ◌&&◌, min, if◌then◌else◌, suc, ◌%◌, arith, ℕ, zero, ◌||◌, ap, ◌<◌, ◌≡◌,
  ◌≢◌, ◌==◌, true, ◌+◌, not, ◌≤◌, refl, ◌*◌, false, ◌^◌,
}
use os_xinu.Fs.{
  fs_put_inode_by_num, copied, bs_bwrite, add32, is_negative, less, syserr, bs_bread, Fs,
}
use os_xinu.Fs.Inodes.{HasTable, put-fields, IsSized, put-outside}
use os_xinu.Fs.Calls.{
  num_fd, store_inode, write_loop, filled, moved, fs_write, block_of, fs_read, read_loop,
}

-- The bytes of a block on the disk.
abbrev pub block_byte : Fs → ℕ → ℕ → ℕ
block_byte s block i = s.disk ((block * 512 + i) % 2 ^ 32)

read_block :
    (s : Fs) (block offset : ℕ) (buf : ℕ → ℕ)
    → s.dev_blocksize ≡ 512
    → offset < 512
    → let (bytes, ok) = bs_bread s 0 block offset buf in
      (ok ≡ true) × ((i : ℕ) → bytes i ≡ block_byte s block (offset + i))
unfolding bs_bread
read_block s block offset buf b l =
    let c : (not (0 == 0) || not (less offset s.dev_blocksize)) ≡ false = ground (arith, b) in
    rw c (refl, λ i. rw b (ap s.disk (omega arith)))

read_done :
    (fuel : ℕ) (s : Fs) (fd done : ℕ) (buf : ℕ → ℕ)
    → read_loop fuel s fd 0 done buf ≡ (s, buf, true)
unfolding read_loop
read_done zero s fd done buf = refl
read_done (suc fuel) s fd done buf = refl

read_one :
    (n : ℕ) (s : Fs) (fd : ℕ) (buf : ℕ → ℕ)
    → IsSized s
    → suc n ≤ 512
    → block_of (s.oft fd) ≢ syserr
    → read_loop (suc n) s fd (suc n) 0 buf ≡ (
      moved s fd (suc n),
      filled buf 0 (bs_bread s 0 (block_of (s.oft fd)) 0 buf).0 (suc n),
      true,
    )
unfolding read_loop
read_one n s fd buf z q ne =
    let c : ((suc n == 0) || (block_of (s.oft fd) == syserr)) ≡ false = ground (arith, ne) in
    let r = read_block s (block_of (s.oft fd)) 0 buf z.dev (omega arith) in
    let m : min (suc n) 512 ≡ suc n = ground arith in
    let d : suc n - suc n ≡ 0 = omega arith in rw (c, r.0, m, d) (read_done n _ fd (0 + suc n) _)

-- fs_read of 1 to 512 bytes from an open file, on a disk of 512-byte blocks with at most 2 ^ 25 inodes, when the descriptor is below 16,
-- the position and the number together are below 5120, and the inode has a block of the disk, not -1, for the position: it returns the
-- number, moves the position by it, leaves the disk as it is, and puts the first bytes of the block of the position into the buffer:
-- where in the block the position is makes no difference.
pub fs_read_lem :
    (s : Fs) (fd nbytes : ℕ) (buf : ℕ → ℕ)
    → IsSized s
    → fd < num_fd
    → block_of (s.oft fd) < s.dev_blocks
    → (s.oft fd).state ≡ 1
    → 0 < nbytes
    → nbytes ≤ 512
    → nbytes + (s.oft fd).fileptr < 5120
    → block_of (s.oft fd) ≢ syserr
    → let (s', buf', result) = fs_read s fd nbytes buf in
      (result ≡ nbytes)
      × ((s'.oft fd).fileptr ≡ (s.oft fd).fileptr + nbytes)
      × ((i : ℕ) → i < nbytes → buf' i ≡ block_byte s (block_of (s.oft fd)) i)
      × (s'.disk ≡ s.disk)
unfolding fs_read read_loop
fs_read_lem s fd zero buf z b bd o p q l ne = absurd (omega (arith, p))
fs_read_lem s fd (suc n) buf z b bd o p q l ne =
    let f = s.oft fd in
    let a : (is_negative (suc n) || not (f.state == 1) || not (less (add32 (suc n) f.fileptr) 5120))
        ≡ false =
      ground (arith, o, l, q) in
    let offset = f.fileptr % 512 in
    let (bytes, ok) = bs_bread s 0 (block_of f) offset buf in
    let len = min (suc n) (512 - offset) in
    let buf1 : ℕ → ℕ = if ok then filled buf 0 bytes len else buf in
    let e = read_one n s fd buf1 z q ne in
    let r = read_block s (block_of f) 0 buf1 z.dev (omega arith) in
    let d : (fd == fd) ≡ true = ground arith in
    rw (a, e)
      (
        refl,
        rw d (omega (arith, l)),
        λ i u.
            let v : (leb 0 i && ltb i (0 + suc n)) ≡ true = ground (arith, u) in
            rw v (r.1 (i - 0) ∙ ap (block_byte s (block_of f)) (omega arith)),
        refl,
      )

write_block :
    (s : Fs) (block offset nbytes : ℕ) (buf : ℕ → ℕ)
    → s.dev_blocksize ≡ 512
    → offset < 512
    → bs_bwrite s 0 block offset buf nbytes ≡ (
      record s { disk = copied s.disk ((block * s.dev_blocksize + offset) % 2 ^ 32) buf nbytes },
      true,
    )
unfolding bs_bwrite
write_block s block offset nbytes buf b l =
    let c : (not (0 == 0) || not (less offset s.dev_blocksize)) ≡ false = ground (arith, b) in
    rw c refl

write_done :
    (fuel : ℕ) (s : Fs) (fd done : ℕ) (buf : ℕ → ℕ) (m : ℕ)
    → write_loop fuel s fd 0 done buf m ≡ (s, true)
unfolding write_loop
write_done zero s fd done buf m = refl
write_done (suc fuel) s fd done buf m = refl

write_eq :
    (s : Fs) (fd nbytes m : ℕ) (buf : ℕ → ℕ)
    → IsSized s
    → (s.oft fd).state ≡ 1
    → (s.oft fd).fileptr % 512 + nbytes ≤ 512
    → nbytes + (s.oft fd).fileptr < 5120
    → let f = s.oft fd in
      let s1 = record s {
        disk = copied s.disk ((block_of f * s.dev_blocksize + f.fileptr % 512) % 2 ^ 32) buf nbytes;
      } in
      fs_write s fd nbytes buf m ≡ (store_inode (moved s1 fd nbytes) fd, nbytes)
unfolding fs_write
write_eq s fd nbytes m buf z o q l =
    let f = s.oft fd in
    let a : (is_negative nbytes || not (f.state == 1) || not (less (add32 nbytes f.fileptr) 5120))
        ≡ false =
      ground (arith, o, l, q) in
    let k : min nbytes (512 - f.fileptr % 512) ≡ nbytes = ground (arith, q) in
    let d : nbytes - nbytes ≡ 0 = omega arith in
    let w = write_block s (block_of f) (f.fileptr % 512) nbytes buf z.dev (omega arith) in
    rw (a, k, w, d, write_done nbytes _ fd nbytes buf m) refl

store_fields :
    (s : Fs) (fd : ℕ)
    → ((store_inode s fd).freemask ≡ s.freemask) × ((store_inode s fd).oft ≡ s.oft)
store_fields s fd = let p = put-fields s (s.oft fd).inode.id (s.oft fd).inode in (p.4, p.3)

inode-moved : (s : Fs) (fd n : ℕ) → ((moved s fd n).oft fd).inode ≡ (s.oft fd).inode
inode-moved s fd n = let d : (fd == fd) ≡ true = ground arith in rw d refl

-- fs_write to an open file of bytes that stay within the block of the position, on a disk of 512-byte blocks that has room for the table of
-- at most 2 ^ 25 inodes and one more, when the descriptor is below 16, the position and the number together are below 5120, the
-- inode has a block of the disk for the position, and its id is at most fsd.ninodes: it returns the number and moves the position by it.
-- Outside the 64 bytes of that inode, the disk has the bytes in the block from the position in it on, and is as before elsewhere. The
-- mask of used blocks stays: no block is claimed, so a file without blocks writes to the block that its inode names, block 0 where the
-- inode is zero.
pub fs_write_lem :
    (s : Fs) (fd nbytes m : ℕ) (buf : ℕ → ℕ)
    → IsSized s
    → HasTable s
    → fd < num_fd
    → block_of (s.oft fd) < s.dev_blocks
    → (s.oft fd).state ≡ 1
    → (s.oft fd).fileptr % 512 + nbytes ≤ 512
    → nbytes + (s.oft fd).fileptr < 5120
    → (s.oft fd).inode.id ≤ s.ninodes
    → let (s', result) = fs_write s fd nbytes buf m in
      let f = s.oft fd in
      (result ≡ nbytes)
      × ((s'.oft fd).fileptr ≡ f.fileptr + nbytes)
      × (s'.freemask ≡ s.freemask)
      × ((a : ℕ)
          → a < 2 ^ 32
          → (a < 1024 + 64 * f.inode.id) ⊎ (1024 + 64 * f.inode.id + 64 ≤ a)
          → s'.disk a ≡ copied s.disk ((block_of f * 512 + f.fileptr % 512) % 2 ^ 32) buf nbytes a)
fs_write_lem s fd nbytes m buf z on b bd o q l u =
    let f = s.oft fd in
    let s1 = record s {
      disk = copied s.disk ((block_of f * s.dev_blocksize + f.fileptr % 512) % 2 ^ 32) buf nbytes;
    } in
    let s2 = moved s1 fd nbytes in
    let d : (fd == fd) ≡ true = ground arith in
    let z2 = IsSized-same s s2 refl refl refl z in
    rw (write_eq s fd nbytes m buf z o q l) (
      refl,
      ap (λ t. (t fd).fileptr) (store_fields s2 fd).1 ∙ rw d (omega (arith, l)),
      (store_fields s2 fd).0,
      λ a v w.
          ap (λ e. (fs_put_inode_by_num s2 0 e.id e).0.disk a) (inode-moved s1 fd nbytes)
          ∙ put-outside s2 f.inode.id f.inode a z2 u v w
          ∙ ap (λ b. copied s.disk ((block_of f * b + f.fileptr % 512) % 2 ^ 32) buf nbytes a)
              z.dev,
    )

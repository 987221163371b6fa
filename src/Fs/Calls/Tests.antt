-- ===== src/Fs/Calls/Tests.antt =====
-- A file system on a disk of zeros, with one file in the directory, which descriptor 3 has open.
use os_xinu.Fs.Calls.Creating.{fs_create_lem, AllUsed}
use os_xinu.Fs.Calls.Seeking.{fs_write_lem, fs_read_lem}
use os_xinu.Fs.Bytes.{Same, Fits}
use os_xinu.Fs.Mask.{mask_lem, IsMask}
use os_xinu.Fs.Calls.Opening.{fs_close_lem, fs_open_lem, Opened}
use os_xinu.Strings.Compare.{strncmp, strncmp_rounds}
use os_xinu.Strings.Copy.{strncpy, strncpy_rounds, pad}
use os_xinu.Strings.Scan.{strlen, strlen_from}
use os_xinu.Fs.Calls.{
  o_creat, fs_create, fs_read, fs_write, fs_close, num_fd, fs_open, entry_next, find_entry,
}
use os_xinu.Fs.Inodes.{get-put, IsSized}
use os_xinu.Prelude.{
  false, ◌≤◌, inr, true, ◌≢◌, ◌^◌, Bool-cases, ◌+◌, inl, ◌⊎◌, ◌∷◌, if◌then◌else◌, some, ℕ, [], ◌<◌,
  arith, ◌==◌, List, refl, ◌≡◌,
}
use os_xinu.Fs.{
  fs_clearmaskbit, fs_get_inode_by_num, fs_setmaskbit, copied, inode_at, fs_put_inode_by_num, Store,
  fs_getmaskbit, Inode, Fs,
}

abbrev no_inode : Inode
no_inode = record { id = 0; type = 0; nlink = 0; device = 0; size = 0; blocks = λ i. 0 }

-- "a" and "b".
abbrev name_a : List ℕ
name_a = 97 ∷ 0 ∷ []

abbrev name_b : List ℕ
name_b = 98 ∷ 0 ∷ []

abbrev empty_name : List ℕ
empty_name =
    0 ∷ 0 ∷ 0 ∷ 0 ∷ 0 ∷ 0 ∷ 0 ∷ 0 ∷ 0 ∷ 0 ∷ 0 ∷ 0 ∷ 0 ∷ 0 ∷ 0 ∷ 0 ∷ 0 ∷ 0 ∷ 0 ∷ 0 ∷ 0 ∷ 0 ∷ 0 ∷ 0
    ∷ 0 ∷ 0 ∷ 0 ∷ 0 ∷ 0 ∷ 0 ∷ 0 ∷ 0 ∷ []

abbrev fs : Fs
fs = record {
  disk = λ a. 0;
  dev_blocks = 512;
  dev_blocksize = 512;
  nblocks = 512;
  blocksz = 512;
  ninodes = 4;
  inodes_used = 1;
  freemaskbytes = 64;
  freemask_at = 4096;
  freemask = λ i. if i == 0 then 192 else 0;
  numentries = 1;
  entry = λ i.
      if i == 0
      then record { inode_num = 0; name = 97 ∷ empty_name }
      else record { inode_num = 0; name = empty_name };
  cache = λ i. 0;
  oft = λ j.
      if j == 3
      then record { state = 1; fileptr = 100; de = 0; inode = no_inode }
      else record { state = 0; fileptr = 0; de = 0; inode = no_inode };
  next_open_fd = 3;
  next_free_data_block = 0;
  next_free_inode = 1;
}

fs-IsSized : IsSized fs
fs-IsSized = record { dev = refl; block = refl; table = omega arith }

fs_open_example :
    (s' : Fs) × (fd : ℕ) × (fs_open fs name_a 2 ≡ some (s', fd)) × (fd < num_fd) × Opened fs s' fd 0
unfolding find_entry entry_next strncmp strncmp_rounds
fs_open_example =
    fs_open_lem fs name_a 2 0 5 (omega arith) refl (omega arith) (omega arith) (omega arith) refl

-- The first word of the memory above 8192 is free.
abbrev heap : Store
heap j = record { mnext = 0; mlength = 0 }

fs_close_example :
    let (h1, s1, closed) = fs_close 8192 65536 4000 heap fs 3 in
    (closed ≡ true)
    × (h1 ≡ heap)
    × ((s1.oft 3).state ≡ 0)
    × ((j : ℕ) → j ≢ 3 → s1.oft j ≡ fs.oft j)
    × (fs_close 8192 65536 4000 h1 s1 3 ≡ (h1, s1, false))
fs_close_example = fs_close_lem 8192 65536 4000 heap fs 3 refl (omega arith)

abbrev created_name : List ℕ
created_name =
    98 ∷ 0 ∷ 0 ∷ 0 ∷ 0 ∷ 0 ∷ 0 ∷ 0 ∷ 0 ∷ 0 ∷ 0 ∷ 0 ∷ 0 ∷ 0 ∷ 0 ∷ 0 ∷ 0 ∷ 0 ∷ 0 ∷ 0 ∷ 0 ∷ 0 ∷ 0 ∷ 0
    ∷ 0 ∷ 0 ∷ 0 ∷ 0 ∷ 0 ∷ 0 ∷ 0 ∷ 0 ∷ []

fs-AllUsed : AllUsed fs
unfolding inode_at
fs-AllUsed n l = omega arith

fs_create_example :
    (s' : Fs) × (fd : ℕ) × (fs_create fs name_b o_creat ≡ some (s', fd))
    × (fd < num_fd)
    × ((s'.entry 1).inode_num ≡ 1)
    × (s'.next_free_inode ≡ 1)
    × (s'.numentries ≡ 2)
    × AllUsed s'
    × IsSized s'
unfolding find_entry entry_next strncmp strncmp_rounds strncpy strncpy_rounds pad strlen strlen_from
fs_create_example =
    fs_create_lem fs name_b created_name 1 5 fs-IsSized (omega arith) fs-AllUsed (omega arith)
      (omega arith) (omega arith) (omega arith) refl refl (omega arith) refl refl

fs_read_example :
    let (s', buf', result) = fs_read fs 3 20 (λ i. 7) in
    (result ≡ 20)
    × ((s'.oft 3).fileptr ≡ 120)
    × ((i : ℕ) → i < 20 → buf' i ≡ 0)
    × (s'.disk ≡ fs.disk)
fs_read_example =
    fs_read_lem fs 3 20 (λ i. 7) fs-IsSized (omega arith) (omega arith) refl (omega arith)
      (omega arith) (omega arith) (λ e. absurd (omega (arith, e)))

-- Inode 0 has no blocks, so the bytes go to block 0.
fs_write_example :
    let (s', result) = fs_write fs 3 20 (λ i. 7) 0 in
    (result ≡ 20)
    × ((s'.oft 3).fileptr ≡ 120)
    × (s'.freemask ≡ fs.freemask)
    × ((a : ℕ)
        → a < 2 ^ 32
        → (a < 1024) ⊎ (1088 ≤ a)
        → s'.disk a ≡ copied fs.disk 100 (λ i. 7) 20 a)
fs_write_example =
    fs_write_lem fs 3 20 0 (λ i. 7) fs-IsSized (omega arith) (omega arith) (omega arith) refl
      (omega arith) (omega arith) (omega arith)

fs-IsMask : IsMask fs
fs-IsMask i = elim (Bool-cases (i == 0)) [ inl e ↦ rw e (omega arith) | inr e ↦ rw e (omega arith) ]

mask_lem_example :
    (fs_getmaskbit (fs_setmaskbit fs 9) 9 ≡ 1)
    × (fs_getmaskbit (fs_clearmaskbit fs 9) 9 ≡ 0)
    × IsMask (fs_setmaskbit fs 9)
    × IsMask (fs_clearmaskbit fs 9)
mask_lem_example = mask_lem fs 9 9 fs-IsMask

abbrev new_inode : Inode
new_inode = record { id = 2; type = 1; nlink = 0; device = 0; size = 700; blocks = λ i. 300 + i }

new_inode-Fits : Fits new_inode
new_inode-Fits = record {
  id = omega arith;
  type = omega arith;
  nlink = omega arith;
  device = omega arith;
  size = omega arith;
  blocks = λ i l. omega (arith, l);
}

get-put_example :
    let (s1, put) = fs_put_inode_by_num fs 0 2 new_inode in
    (put ≡ true)
    × ((fs_get_inode_by_num s1 0 2 no_inode).2 ≡ true)
    × Same (fs_get_inode_by_num s1 0 2 no_inode).1 new_inode
    × ((m : ℕ)
        → m ≤ 4
        → m ≢ 2
        → Same (fs_get_inode_by_num s1 0 m no_inode).1 (fs_get_inode_by_num fs 0 m no_inode).1)
    × ((a : ℕ) → a < 2 ^ 32 → (a < 1152) ⊎ (1216 ≤ a) → s1.disk a ≡ fs.disk a)
get-put_example = get-put fs 2 new_inode no_inode fs-IsSized (omega arith) new_inode-Fits

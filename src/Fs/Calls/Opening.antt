-- ===== src/Fs/Calls/Opening.antt =====
-- fs_open and fs_close of system/fs.c.
use os_xinu.Fs.Calls.Slots.{find_slot_free}
use os_xinu.Prelude.{
  ltb, ◌*◌, ◌∙◌, ap, false, arith, leb, true, ◌&&◌, refl, inr, inl, ◌<◌, some, ◌||◌, ◌==◌, not, ◌≤◌,
  List, Bool-cases, ◌≢◌, ◌≡◌, ℕ,
}
use os_xinu.Fs.{is_negative, less, Inode, fs_get_inode_by_num, Fs}
use os_xinu.Memory.{freemem, Store, add32}
use os_xinu.Fs.Calls.{
  fs_close, load_inode, opened, find_slot, num_fd, directory_size, find_entry, open_entry,
  open_found, fs_open,
}

pub not_same : (a b : ℕ) → b ≢ a → (a == b) ≡ false
not_same a b ne = ground arith

-- Reading an inode leaves everything but the cache alone.
pub get-oft :
    (s : Fs) (n : ℕ) (old : Inode)
    → let s1 = (fs_get_inode_by_num s 0 n old).0 in
      (s1.oft ≡ s.oft)
      × (s1.entry ≡ s.entry)
      × (s1.disk ≡ s.disk)
      × (s1.dev_blocksize ≡ s.dev_blocksize)
      × (s1.blocksz ≡ s.blocksz)
      × (s1.ninodes ≡ s.ninodes)
      × (s1.numentries ≡ s.numentries)
unfolding fs_get_inode_by_num
get-oft s n old = elim (Bool-cases (not (0 == 0) || less s.ninodes n)) [
  | inl e ↦ rw e (refl, refl, refl, refl, refl, refl, refl)
  | inr e ↦ rw e (refl, refl, refl, refl, refl, refl, refl)
]

-- Reading an inode into the file table changes the inode of the descriptor only.
pub record Loaded (s s' : Fs) (fd n : ℕ) : Type 0 where
  pub state : (s'.oft fd).state ≡ (s.oft fd).state
  pub fileptr : (s'.oft fd).fileptr ≡ (s.oft fd).fileptr
  pub de : (s'.oft fd).de ≡ (s.oft fd).de
  pub others : (j : ℕ) → j ≢ fd → s'.oft j ≡ s.oft j
  pub entry : s'.entry ≡ s.entry
  pub disk : s'.disk ≡ s.disk
  pub dev_blocksize : s'.dev_blocksize ≡ s.dev_blocksize
  pub blocksz : s'.blocksz ≡ s.blocksz
  pub ninodes : s'.ninodes ≡ s.ninodes
  pub numentries : s'.numentries ≡ s.numentries
  pub inode : (s'.oft fd).inode ≡ (fs_get_inode_by_num s 0 n (s.oft fd).inode).1

pub load_inode_lem : (s : Fs) (fd n : ℕ) → Loaded s (load_inode s fd n) fd n
load_inode_lem s fd n =
    let g = get-oft s n (s.oft fd).inode in
    let d : (fd == fd) ≡ true = ground arith in
    record {
      state = rw d (ap (λ o. (o fd).state) g.0);
      fileptr = rw d (ap (λ o. (o fd).fileptr) g.0);
      de = rw d (ap (λ o. (o fd).de) g.0);
      others = λ j ne. rw (not_same fd j ne) (ap (λ o. o j) g.0);
      entry = g.1;
      disk = g.2;
      dev_blocksize = g.3;
      blocksz = g.4;
      ninodes = g.5;
      numentries = g.6;
      inode = rw d refl;
    }

-- The file table after `fs_open`.
pub record Opened (s s' : Fs) (fd i : ℕ) : Type 0 where
  pub free : (s.oft fd).state ≡ 0
  pub state : (s'.oft fd).state ≡ 1
  pub fileptr : (s'.oft fd).fileptr ≡ 0
  pub de : (s'.oft fd).de ≡ i
  pub others : (j : ℕ) → j ≢ fd → s'.oft j ≡ s.oft j
  pub entry : s'.entry ≡ s.entry
  pub disk : s'.disk ≡ s.disk

-- fs_open with one of the three flags for a name that the directory has first as its entry `i`, while one of the 16 descriptors
-- is free: it returns a descriptor that was free, which is open now, at position 0 and with this entry; the other
-- descriptors, the directory and the disk are as before.
pub fs_open_lem :
    (s : Fs) (filename : List ℕ) (flags i j : ℕ)
    → flags ≤ 2
    → find_entry directory_size 0 s filename ≡ some i
    → i < directory_size
    → s.next_open_fd < num_fd
    → j < num_fd
    → (s.oft j).state ≡ 0
    → (s' : Fs) × (fd : ℕ) × (fs_open s filename flags ≡ some (s', fd))
      × (fd < num_fd)
      × Opened s s' fd i
unfolding fs_open open_found open_entry
fs_open_lem s filename flags i j lf e li l u z =
    let f = find_slot_free s s.next_open_fd j l u z in
    let fd = find_slot num_fd s s.next_open_fd in
    let s1 = opened (record s { next_open_fd = fd }) fd i in
    let a : (not (is_negative flags) && leb flags 2) ≡ true = ground arith in
    let b : (i == directory_size) ≡ false = ground arith in
    let c : not ((s.oft fd).state == 0) ≡ false = ground (arith, f.1) in
    let g = load_inode_lem s1 fd (s.entry i).inode_num in
    let d : (fd == fd) ≡ true = ground arith in
    (
      load_inode s1 fd (s.entry i).inode_num,
      fd,
      rw (a, e, b, c) refl,
      f.0,
      record {
        free = f.1;
        state = g.state ∙ rw d refl;
        fileptr = g.fileptr ∙ rw d refl;
        de = g.de ∙ rw d refl;
        others = λ k ne. g.others k ne ∙ rw (not_same fd k ne) refl;
        entry = g.entry;
        disk = g.disk;
      },
    )

-- fs_close of an open descriptor marks it closed and returns OK, and a second fs_close of it returns SYSERR and
-- changes nothing. The directory entry, which it gives to freemem, stands below the heap, so the heap stays as it was.
pub fs_close_lem :
    (minheap maxheap entries : ℕ) (h : Store) (s : Fs) (fd : ℕ)
    → (s.oft fd).state ≡ 1
    → add32 entries (36 * (s.oft fd).de) < minheap
    → let (h1, s1, closed) = fs_close minheap maxheap entries h s fd in
      (closed ≡ true)
      × (h1 ≡ h)
      × ((s1.oft fd).state ≡ 0)
      × ((j : ℕ) → j ≢ fd → s1.oft j ≡ s.oft j)
      × (fs_close minheap maxheap entries h1 s1 fd ≡ (h1, s1, false))
unfolding fs_close freemem
fs_close_lem minheap maxheap entries h s fd o below =
    let a : ((s.oft fd).state == 1) ≡ true = ground (arith, o) in
    let d : (fd == fd) ≡ true = ground arith in
    let b : ((36 == 0)
          || ltb (add32 entries (36 * (s.oft fd).de)) minheap
          || ltb maxheap (add32 entries (36 * (s.oft fd).de)))
        ≡ true =
      ground (arith, below) in
    rw (a, b, d) (refl, refl, refl, λ j ne. rw (not_same fd j ne) refl, refl)

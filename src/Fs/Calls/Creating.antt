-- ===== src/Fs/Calls/Creating.antt =====
-- fs_create of system/fs.c on a disk without an inode that it takes for free.
use os_xinu.Fs.Calls.Slots.{find_slot_free}
use os_xinu.Fs.Bytes.{inode_at_agree, id_at}
use os_xinu.Prelude.{
  leb, ℤ, set, some, List, true, inl, Bool-cases, inr, ◌≢◌, ◌*◌, ◌==◌, ==_iff, ◌^◌, ◌≡◌, suc, ◌-◌,
  ℕ, zero, ◌||◌, ltb, arith, ◌≤◌, refl, if◌then◌else◌, ap, ◌+◌, ◌<◌, false, not, ◌∙◌,
}
use os_xinu.Fs.{syserr, add32, fs_put_inode_by_num, Inode, less, Fs}
use os_xinu.Fs.Inodes.{
  HasTable, put-fields, sides, put-outside, put-inside, put-kept, get_lem, IsSized, on_disk,
}
use os_xinu.Fs.Calls.Opening.{load_inode_lem}
use os_xinu.Fs.Calls.{
  o_creat, strncpy, directory_size, find_entry, filenamelen, strlen, create_named, create_checked,
  create_short, fs_create, set_entry, set_file, rounds_of, opened, find_slot, num_fd, finish_create,
  create_entry, load_inode, find_inode,
}

-- Every inode in the table has an id below fsd.ninodes, as on a disk of zeros.
abbrev pub AllUsed : Fs → Type 0
AllUsed s = (n : ℕ) → n < s.ninodes → (on_disk s.disk n).id < s.ninodes

-- What the search leaves, after `rounds` rounds.
record Scanned (rounds : ℕ) (s s' : Fs) : Type 0 where
  next : s'.next_free_inode ≡ (
      if ltb (s.next_free_inode + rounds) s.ninodes
      then s.next_free_inode + rounds
      else s.next_free_inode + rounds - s.ninodes)
  disk : s'.disk ≡ s.disk
  entry : s'.entry ≡ s.entry
  numentries : s'.numentries ≡ s.numentries
  dev_blocksize : s'.dev_blocksize ≡ s.dev_blocksize
  blocksz : s'.blocksz ≡ s.blocksz
  ninodes : s'.ninodes ≡ s.ninodes

in_range : (id n : ℕ) → id < n → n ≤ 2 ^ 25 → (less id 0 || not (less id n)) ≡ false
in_range id n l u = ground arith

advance :
    (n r k : ℕ)
    → n < k
    → suc r ≤ k
    → k ≤ 2 ^ 25
    → let m = if less (n + 1) k then n + 1 else 0 in
      (m < k)
      × ((if ltb (m + r) k then m + r else m + r - k)
          ≡ (if ltb (n + suc r) k then n + suc r else n + suc r - k))
advance n r k l u t = (ground arith, ground arith)

pub IsSized-same :
    (s s' : Fs)
    → s'.dev_blocksize ≡ s.dev_blocksize
    → s'.blocksz ≡ s.blocksz
    → s'.ninodes ≡ s.ninodes
    → IsSized s
    → IsSized s'
IsSized-same s s' d b n z = record {
  dev = d ∙ z.dev;
  block = b ∙ z.block;
  table = omega (arith, n, z.table);
}

AllUsed-same : (s s' : Fs) → s'.disk ≡ s.disk → s'.ninodes ≡ s.ninodes → AllUsed s → AllUsed s'
AllUsed-same s s' d n a m l =
    let e : (on_disk s'.disk m).id ≡ (on_disk s.disk m).id = ap (λ k. (on_disk k m).id) d in
    omega (arith, e, n, a m (omega (arith, n, l)))

find_inode_lem :
    (rounds : ℕ) (s : Fs) (fd : ℕ)
    → IsSized s
    → AllUsed s
    → s.next_free_inode < s.ninodes
    → rounds ≤ s.ninodes
    → Scanned rounds s (find_inode rounds s fd)
unfolding find_inode
find_inode_lem zero s fd z a l r = record {
  next = ground arith;
  disk = refl;
  entry = refl;
  numentries = refl;
  dev_blocksize = refl;
  blocksz = refl;
  ninodes = refl;
}
find_inode_lem (suc rounds) s fd z a l r =
    let n = s.next_free_inode in
    let o = load_inode_lem s fd n in
    let s1 = load_inode s fd n in
    let g = get_lem s n (s.oft fd).inode z (omega (arith, l)) in
    let used : (s1.oft fd).inode.id < s.ninodes =
      omega (arith, ap (λ i. i.id) o.inode, g.1.id, a n l) in
    let t = advance n rounds s.ninodes l r z.table in
    let next = if less (n + 1) s.ninodes then n + 1 else 0 in
    let s2 = record s1 { next_free_inode = next } in
    let ih =
      find_inode_lem rounds s2 fd (IsSized-same s s2 o.dev_blocksize o.blocksz o.ninodes z)
        (AllUsed-same s s2 o.disk o.ninodes a) (omega (arith, t.0, o.ninodes))
        (omega (arith, r, o.ninodes)) in
    rw (in_range (s1.oft fd).inode.id s.ninodes used z.table) (record {
      next =
          ih.next
          ∙ ap (λ k. if ltb (next + rounds) k then next + rounds else next + rounds - k) o.ninodes
          ∙ t.1;
      disk = ih.disk ∙ o.disk;
      entry = ih.entry ∙ o.entry;
      numentries = ih.numentries ∙ o.numentries;
      dev_blocksize = ih.dev_blocksize ∙ o.dev_blocksize;
      blocksz = ih.blocksz ∙ o.blocksz;
      ninodes = ih.ninodes ∙ o.ninodes;
    })

-- The write of an inode with an id in range keeps all in range.
put-AllUsed :
    (s : Fs) (n : ℕ) (new : Inode)
    → IsSized s
    → AllUsed s
    → n < s.ninodes
    → new.id ≡ n
    → AllUsed (fs_put_inode_by_num s 0 n new).0
put-AllUsed s n new z a l e m lm =
    let k = put-kept s n new z (omega (arith, l)) in
    let s1 = (fs_put_inode_by_num s 0 n new).0 in
    let lm' : m < s.ninodes = omega (arith, lm, k.2) in
    elim (Bool-cases (m == n)) [
      | inl same ↦
          let q : m ≡ n = (==_iff m n).0 same in
          let w =
            id_at s1.disk (1024 + 64 * n) new (λ i u. put-inside s n new i z (omega (arith, l)) u)
              (omega (arith, e, l, z.table)) in
          omega (arith, ap (λ j. (on_disk s1.disk j).id) q, w, e, l, k.2)
      | inr other ↦
          let ne : m ≢ n = λ q. cc (other, (==_iff m n).1 q) in
          let w = inode_at_agree s1.disk s.disk (1024 + 64 * m) (1024 + 64 * m) (λ i u.
            put-outside s n new (1024 + 64 * m + i) z (omega (arith, l))
              (omega (arith, z.table, lm', u)) (sides m n i ne u)) in
          omega (arith, w.id, a m lm', k.2)
    ]

-- A file system after a call of `fs_create` that made the entry `i`.
pub record Created (s s' : Fs) (i : ℕ) : Type 0 where
  pub number : (s'.entry i).inode_num ≡ s.next_free_inode
  pub next : s'.next_free_inode ≡ s.next_free_inode
  pub entries : s'.numentries ≡ s.numentries
  pub used : AllUsed s'
  pub sized : IsSized s'

finish_lem :
    (s : Fs) (i fd : ℕ)
    → IsSized s
    → AllUsed s
    → s.next_free_inode < s.ninodes
    → (finish_create s i fd).1 ≡ fd × Created s (finish_create s i fd).0 i
unfolding finish_create
finish_lem s i fd z a l =
    let n = s.next_free_inode in
    let inode = record ((s.oft fd).inode) { id = n; type = 1; nlink = 0; device = 0; size = 0 } in
    let s1 = set_file s fd (record (s.oft fd) { inode = inode }) in
    let s2 = record (set_entry s1 i (record (s1.entry i) { inode_num = n })) {
      inodes_used = add32 s.inodes_used 1;
    } in
    let z2 = IsSized-same s s2 refl refl refl z in
    let p = put-fields s2 n inode in
    let k = put-kept s2 n inode z2 (omega (arith, l)) in
    let same : (i == i) ≡ true = ground arith in
    (
      refl,
      record {
        number = ap (λ t. (t i).inode_num) p.0 ∙ rw same refl;
        next = p.1;
        entries = p.2;
        used = put-AllUsed s2 n inode z2 a l refl;
        sized = k.1;
      },
    )

search_lem :
    (s : Fs) (i fd : ℕ)
    → IsSized s
    → AllUsed s
    → s.next_free_inode < s.ninodes
    → let r = finish_create (find_inode (rounds_of s.ninodes) s fd) i fd in
      (r.1 ≡ fd) × Created s r.0 i
search_lem s i fd z a l =
    let rounds : rounds_of s.ninodes ≡ s.ninodes = ground (arith, z.table) in
    let s2 = find_inode s.ninodes s fd in
    let h = find_inode_lem s.ninodes s fd z a l (omega arith) in
    let back : s2.next_free_inode ≡ s.next_free_inode = h.next ∙ ground (arith, l) in
    let c =
      finish_lem s2 i fd (IsSized-same s s2 h.dev_blocksize h.blocksz h.ninodes z)
        (AllUsed-same s s2 h.disk h.ninodes a) (omega (arith, back, h.ninodes, l)) in
    rw rounds (
      c.0,
      record {
        number = c.1.number ∙ back;
        next = c.1.next ∙ back;
        entries = c.1.entries ∙ h.numentries;
        used = c.1.used;
        sized = c.1.sized;
      },
    )

create_entry_lem :
    (s : Fs) (i j : ℕ)
    → IsSized s
    → AllUsed s
    → s.next_free_inode < s.ninodes
    → s.next_open_fd < num_fd
    → j < num_fd
    → (s.oft j).state ≡ 0
    → (s' : Fs) × (fd : ℕ) × (create_entry s i ≡ (s', fd)) × (fd < num_fd) × Created s s' i
unfolding create_entry
create_entry_lem s i j z a l o u e =
    let f = find_slot_free s s.next_open_fd j o u e in
    let fd = find_slot num_fd s s.next_open_fd in
    let c : not ((s.oft fd).state == 0) ≡ false = ground (arith, f.1) in
    let s1 = opened (record s { next_open_fd = fd }) fd i in
    let r = search_lem s1 i fd (IsSized-same s s1 refl refl refl z) a l in
    let t = finish_create (find_inode (rounds_of s.ninodes) s1 fd) i fd in
    (
      t.0,
      fd,
      rw c (ap (λ x. (t.0, x)) r.0),
      f.0,
      record {
        number = r.1.number;
        next = r.1.next;
        entries = r.1.entries;
        used = r.1.used;
        sized = r.1.sized;
      },
    )

-- fs_create of a name of at most 32 characters that the directory does not have, with less than 16 entries in the directory
-- and a free descriptor, on a disk of 512-byte blocks that has room for the table of at most 2 ^ 25 inodes and one more, each of which has an
-- id below fsd.ninodes, and with next_free_inode below fsd.ninodes and next_open_fd below 16: it returns a descriptor, the
-- directory has one entry more, and the new entry has the inode next_free_inode, which stays what it is. The ids on
-- the disk are below fsd.ninodes again, so the file created next gets the same inode.
pub fs_create_lem :
    (s : Fs) (filename name : List ℕ) (len j : ℕ)
    → IsSized s
    → HasTable s
    → AllUsed s
    → s.numentries < directory_size
    → s.next_free_inode < s.ninodes
    → s.next_open_fd < num_fd
    → j < num_fd
    → (s.oft j).state ≡ 0
    → strlen filename ≡ some len
    → len ≤ filenamelen
    → find_entry directory_size 0 s filename ≡ some directory_size
    → strncpy (s.entry s.numentries).name filename (ℤ.pos (filenamelen - 1)) ≡ some name
    → (s' : Fs) × (fd : ℕ) × (fs_create s filename o_creat ≡ some (s', fd))
      × (fd < num_fd)
      × ((s'.entry s.numentries).inode_num ≡ s.next_free_inode)
      × (s'.next_free_inode ≡ s.next_free_inode)
      × (s'.numentries ≡ s.numentries + 1)
      × AllUsed s'
      × IsSized s'
unfolding fs_create create_short create_checked create_named
fs_create_lem s filename name len j z on a m l o u e p q r t =
    let i = s.numentries in
    let s1 =
      set_entry (record s { numentries = i + 1 }) i
        (record { inode_num = syserr; name = set name (filenamelen - 1) 0 }) in
    let long : ltb filenamelen len ≡ false = ground (arith, q) in
    let full : leb directory_size s.numentries ≡ false = ground (arith, m) in
    let c = create_entry_lem s1 i j (IsSized-same s s1 refl refl refl z) a l o u e in
    (
      c.0,
      c.1,
      rw (p, long, r, full, t) (ap some c.2),
      c.3,
      c.4.number,
      c.4.next,
      c.4.entries,
      c.4.used,
      c.4.sized,
    )

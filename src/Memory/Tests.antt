-- ===== src/Memory/Tests.antt =====
-- A free list of two blocks, and the allocator on it.
use os_xinu.Prelude.{
  ◌≡◌, refl, List, [], ◌∷◌, arith, true, false, ◌==◌, ◌&&◌, ◌||◌, not, if◌then◌else◌,
}
use os_xinu.Memory.{Store, getmem, freemem}
use os_xinu.Memory.Blocks.{Block, Free, allocate, first_fit, fits, release, clear}
use os_xinu.Memory.FirstFit.{getmem_lem}
use os_xinu.Memory.Bytes.{within, free_at, freemem_lem}
use os_xinu.Memory.Return.{getmem_bytes, freemem-getmem}

-- The heap from 800 to 1600, with 16 bytes free at 800 and 64 at 1000.
abbrev store : Store
store j =
    if j == 0
    then record { mnext = 800; mlength = 80 }
    else if j == 800
    then record { mnext = 1000; mlength = 16 }
    else record { mnext = 0; mlength = 64 }

abbrev blocks : List Block
blocks = (800, 16) ∷ (1000, 64) ∷ []

store-Free : Free store 800 1600 blocks
store-Free = record {
  chain = (refl, refl, (refl, refl, refl));
  ordered = (
    omega arith,
    refl,
    refl,
    omega arith,
    omega arith,
    (omega arith, refl, refl, omega arith, omega arith, tt),
  );
  positive = omega arith;
  top = omega arith;
}

-- 21 bytes are rounded to 24.
getmem_example :
    let (s', a) = getmem store 21 in
    (a ≡ first_fit 24 blocks)
    × Free s' 800 1600 (allocate 24 blocks)
    × ((s' 0).mlength ≡ (if fits 24 blocks then 56 else 80))
getmem_example = getmem_lem 21 store-Free (omega arith) (omega arith)

blocks-fits : fits 24 blocks ≡ true
unfolding fits
blocks-fits = refl

getmem_bytes_example :
    let (s', a) = getmem store 21 in
    Free s' 800 1600 (allocate 24 blocks)
    × (free_at 1010 (allocate 24 blocks) ≡ (free_at 1010 blocks && not (within a 24 1010)))
    × ((within a 24 1010 && not (free_at 1010 blocks)) ≡ false)
getmem_bytes_example = getmem_bytes 21 1010 store-Free (omega arith) (omega arith) blocks-fits

freemem-getmem_example :
    let (s', a) = getmem store 21 in
    let (s'', accepted) = freemem 800 1600 s' a 21 in (accepted ≡ true) × Free s'' 800 1600 blocks
freemem-getmem_example = freemem-getmem 21 store-Free (omega arith) (omega arith) blocks-fits

blocks-clear : clear 816 24 blocks ≡ true
unfolding clear
blocks-clear = refl

-- The bytes right behind the first block.
freemem_example :
    let (s', accepted) = freemem 800 1600 store 816 24 in
    (accepted ≡ true)
    × Free s' 800 1600 (release 816 24 blocks)
    × (free_at 820 (release 816 24 blocks) ≡ (true || free_at 820 blocks))
    × ((s' 0).mlength ≡ 104)
freemem_example =
    freemem_lem 816 24 820 store-Free (omega arith) (omega arith) refl (omega arith) blocks-clear

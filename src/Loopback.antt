-- ===== src/Loopback.antt =====
-- device/loopback/loopbackInit.c, loopbackOpen.c, loopbackClose.c, loopbackGetc.c, loopbackPutc.c and
-- loopbackWrite.c, with include/loopback.h: a ring buffer whose count of characters is the count of a
-- semaphore.
-- A result is a 32-bit pattern. `none` is a write outside the buffer.
pub mod Ring
pub mod Write
mod Tests
use os_xinu.Prelude.{
  ℕ, zero, suc, ◌+◌, ◌-◌, ◌%◌, ◌^◌, ◌≡◌, Bool, true, false, not, ◌&&◌, ◌==◌, leb, if◌then◌else◌,
}
use os_xinu.Prelude.{List, [], ◌∷◌, Option, none, some}
use os_xinu.Queue.{bias, is_negative}
use os_xinu.Kernel.{Kernel, add32}
use os_xinu.Kernel.Sem.{wait, signal, semcount, semcreate, semdelete}

abbrev pub loop_buffer : ℕ
loop_buffer = 1024

abbrev pub syserr : ℕ
syserr = 2 ^ 32 - 1

abbrev pub eof : ℕ
eof = 2 ^ 32 - 2

pub data LoopState : Type 0 where
  loop_state_free loop_state_alloc : LoopState

abbrev pub is_alloc : LoopState → Bool
is_alloc LoopState.loop_state_free = false
is_alloc LoopState.loop_state_alloc = true

-- `struct loopback`.
pub record Loopback : Type 0 where
  pub state : LoopState
  pub index : ℕ
  pub flags : ℕ
  pub sem : ℕ
  pub buffer : ℕ → ℕ

abbrev pub set_byte : Loopback → ℕ → ℕ → Loopback
set_byte d i ch = record d { buffer = λ j. if i == j then ch % 256 else d.buffer j }

pub loopback_init : Loopback → Loopback
loopback_init d = record d { state = LoopState.loop_state_free; index = 0 }

pub loopback_open : Kernel → Loopback → Kernel × Loopback × Bool
loopback_open k d =
    if is_alloc d.state
    then (k, d, false)
    else (let (k1, sem) = semcreate k 0 in
        if sem == syserr then (k1, record d { sem = sem }, false) else (
          k1,
          record d {
            sem = sem;
            buffer = λ j. if leb loop_buffer j then d.buffer j else 0;
            flags = 0;
            state = LoopState.loop_state_alloc;
          },
          true,
        ))

pub loopback_close : Kernel → Loopback → Kernel × Loopback × Bool
loopback_close k d =
    if not (is_alloc d.state)
    then (k, d, false)
    else ((semdelete k d.sem).0, record d { state = LoopState.loop_state_free }, true)

-- `% LOOP_BUFFER` of a signed value, as an index: the remainder of a negative one is not positive.
pub slot : ℕ → Option ℕ
slot v =
    if is_negative v
    then (if (2 ^ 32 - v) % loop_buffer == 0 then some 0 else none)
    else some (v % loop_buffer)

-- The character is stored and the semaphore signalled.
pub store_at : Kernel → Loopback → ℕ → Option ℕ → Option (Kernel × Loopback × ℕ)
store_at k d ch none = none
store_at k d ch (some i) = some ((signal k d.sem).0, set_byte d i ch, ch % 256)

pub loopback_putc : Kernel → Loopback → ℕ → Option (Kernel × Loopback × ℕ)
loopback_putc k d ch =
    if leb (bias loop_buffer) (bias (semcount k d.sem))
    then some (k, d, syserr)
    else store_at k d ch (slot (add32 d.index (semcount k d.sem)))

-- `false` is the return of EOF. Otherwise `wait` is called, and what follows it is `getc_exit`.
pub loopback_getc_entry : Kernel → Loopback → Kernel × Bool
loopback_getc_entry k d =
    if (d.flags % 2 == 1) && leb (bias (semcount k d.sem)) (bias 0)
    then (k, false)
    else ((wait k d.sem).0, true)

pub loopback_getc_exit : Loopback → Loopback × ℕ
loopback_getc_exit d = (record d { index = (d.index + 1) % loop_buffer }, d.buffer d.index)

-- A round of the loop of `loopbackWrite`, with `i` characters written so far.
pub write_next :
    ℕ
    → (Kernel → Loopback → Option (Kernel × Loopback × ℕ))
    → Option (Kernel × Loopback × ℕ)
    → Option (Kernel × Loopback × ℕ)
write_next i more none = none
write_next i more (some (k, d, r)) =
    if r == syserr then some (k, d, if i == 0 then syserr else i) else more k d

pub loopback_write_from : ℕ → List ℕ → Kernel → Loopback → Option (Kernel × Loopback × ℕ)
unfolding write_next
loopback_write_from i [] k d = some (k, d, i)
loopback_write_from i (ch ∷ chs) k d =
    write_next i (loopback_write_from (i + 1) chs) (loopback_putc k d ch)

pub loopback_write : Kernel → Loopback → List ℕ → Option (Kernel × Loopback × ℕ)
unfolding loopback_write_from
loopback_write k d buf =
    if not (is_alloc d.state) then some (k, d, syserr) else loopback_write_from 0 buf k d

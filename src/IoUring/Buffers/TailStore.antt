-- ===== src/IoUring/Buffers/TailStore.antt =====
-- internal/iouring/pbuf.go: storeTailRelease. The memory is its aligned 32-bit words, by address; a word is
-- its bits, and those from 32 on are never read. The list of a store is what others write to the memory
-- between the load and the compare-and-swap of each round; behind it nobody writes in between.
pub mod Laws
mod Tests
use netring.Prelude.{
  ℕ, zero, suc, ◌+◌, ◌-◌, ◌%◌, Bool, true, false, not, ◌&&◌, ◌||◌, List, [], ◌∷◌, ◌==◌, ltb,
  if◌then◌else◌, update,
}

abbrev pub Uint32 : Type 0
Uint32 = ℕ → Bool

abbrev pub WordMemory : Type 0
WordMemory = ℕ → Uint32

-- `w << s` on uint32
abbrev pub shift_left : Uint32 → ℕ → Uint32
shift_left w s k = if ltb k s then false else w (k - s)

-- `w &^ m` and `w | v`
abbrev pub and_not : Uint32 → Uint32 → Uint32
and_not w m k = w k && not (m k)

abbrev pub or_word : Uint32 → Uint32 → Uint32
or_word w v k = w k || v k

-- `uint32(0xffff)`, and `uint32(value)` of a uint16
abbrev pub sixteen_ones : Uint32
sixteen_ones k = ltb k 16

abbrev pub extend : Uint32 → Uint32
extend value k = if ltb k 16 then value k else false

-- `word` and `shift`, for the tail at `addr`
pub word_address : ℕ → ℕ
word_address addr = if addr % 4 == 0 then addr else addr - 2

pub tail_shift : ℕ → ℕ
tail_shift addr = if addr % 4 == 0 then 0 else 16

pub tail_bits : ℕ → Uint32
tail_bits addr = shift_left sixteen_ones (tail_shift addr)

-- `newWord`
pub new_word : (addr : ℕ) → (value old : Uint32) → Uint32
new_word addr value old =
    or_word (and_not old (tail_bits addr)) (shift_left (extend value) (tail_shift addr))

-- whether the lowest n bits are the same
unfoldable pub same_below : ℕ → Uint32 → Uint32 → Bool
same_below zero w v = true
same_below (suc n) w v = (if w n then v n else not (v n)) && same_below n w v

-- `atomic.CompareAndSwapUint32(word, old, newWord)`
abbrev pub compare_and_swap : (at : ℕ) → (old new : Uint32) → WordMemory → WordMemory × Bool
compare_and_swap at old new memory =
    if same_below 32 (memory at) old then (update memory at new, true) else (memory, false)

-- what follows a compare-and-swap: the return, or the rounds that are left
abbrev pub after_swap : WordMemory × Bool → (WordMemory → WordMemory) → WordMemory
after_swap (memory, true) retry = memory
after_swap (memory, false) retry = retry memory

-- the loop
unfoldable pub store_tail :
    (addr : ℕ) → (value : Uint32) → List (WordMemory → WordMemory) → WordMemory → WordMemory
store_tail addr value [] memory =
    let at = word_address addr in
    (compare_and_swap at (memory at) (new_word addr value (memory at)) memory).0
store_tail addr value (others ∷ rest) memory =
    let at = word_address addr in
    after_swap (compare_and_swap at (memory at) (new_word addr value (memory at)) (others memory))
      (store_tail addr value rest)

-- ===== src/IoUring/Buffers/TailStore/Tests.antt =====
-- The store of a tail while others write to the same word.
use netring.Prelude.{ℕ, ◌≡◌, refl, true, false, List, [], ◌∷◌, ◌++◌, ◌==◌, update}
use netring.IoUring.Buffers.TailStore.{
  Uint32, WordMemory, word_address, tail_shift, tail_bits, new_word, same_below, store_tail,
}
use netring.IoUring.Buffers.TailStore.Laws.{byte, apply, StoresBytes, store_tail-StoresBytes}

abbrev zeros : WordMemory
zeros at k = false

-- the tail 1, at the high half of the word at 12
abbrev one : Uint32
one k = k == 0

-- others set bit 3 of the word, and then bit 5
abbrev sets : ℕ → WordMemory → WordMemory
sets b memory = update memory 12 (update (memory 12) b true)

abbrev writes : List (WordMemory → WordMemory)
writes = sets 3 ∷ sets 5 ∷ []

-- Both writes are kept, and the bit of the tail is set.
stored :
    (byte (store_tail 14 one writes zeros) 12 3 ≡ true)
    × (byte (store_tail 14 one writes zeros) 12 5 ≡ true)
    × (byte (store_tail 14 one writes zeros) 14 0 ≡ true)
    × (byte (store_tail 14 one writes zeros) 14 1 ≡ false)
unfolding store_tail word_address tail_shift tail_bits new_word same_below
stored = (refl, refl, refl, refl)

store_tail-StoresBytes_example :
    (done : List (WordMemory → WordMemory)) × (rest : List (WordMemory → WordMemory)) × (writes
      ≡ done ++ rest)
    × StoresBytes 14 one (apply done zeros) (store_tail 14 one writes zeros)
store_tail-StoresBytes_example = store_tail-StoresBytes 14 one writes zeros refl

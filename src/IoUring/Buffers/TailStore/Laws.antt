-- ===== src/IoUring/Buffers/TailStore/Laws.antt =====
-- The store of the tail is one atomic store of two bytes.
use netring.Prelude.{
  ℕ, zero, suc, ◌+◌, ◌-◌, ◌*◌, ◌%◌, ◌<◌, ◌≤◌, ◌≡◌, refl, ap, sym, ◌∙◌, subst, Bool, true, false,
  not, ◌&&◌, ◌||◌, List, [], ◌∷◌, ◌++◌, ◌==◌, ==_iff, ltb, if◌then◌else◌, update, arith, Bool-cases,
  inl, inr,
}
use netring.IoUring.Buffers.TailStore.{
  Uint32, WordMemory, shift_left, and_not, or_word, sixteen_ones, extend, word_address, tail_shift,
  tail_bits, new_word, same_below, store_tail,
}

-- bit `k` of the byte at address `a`, in the little-endian words
abbrev pub byte : WordMemory → (a k : ℕ) → Bool
byte memory a k = memory (a - a % 4) (8 * (a % 4) + k)

-- the memory after others have written
abbrev pub apply : List (WordMemory → WordMemory) → WordMemory → WordMemory
apply [] memory = memory
apply (others ∷ rest) memory = apply rest (others memory)

-- The two bytes at `addr` are those of `value`, the low one first, and every other byte is as before.
abbrev pub StoresBytes : (addr : ℕ) → (value : Uint32) → (before after : WordMemory) → Type 0
StoresBytes addr value before after =
    (a k : ℕ)
    → k < 8
    → byte after a k
      ≡ (if a == addr then value k else if a == addr + 1 then value (8 + k) else byte before a k)

same_below-bit : (n : ℕ) (w v : Uint32) (k : ℕ) → same_below n w v ≡ true → k < n → w k ≡ v k
unfolding same_below
same_below-bit zero w v k h small = absurd (omega arith)
same_below-bit (suc n) w v k h small = elim (Bool-cases (n == k)) [
  | inl e ↦ ground arith
  | inr e ↦ ground (arith, same_below-bit n w v k)
]

same_below_refl : (n : ℕ) (w : Uint32) → same_below n w w ≡ true
unfolding same_below
same_below_refl zero w = refl
same_below_refl (suc n) w = ground (arith, same_below_refl n w)

-- the bits of a new word for a shift
abbrev shifted : ℕ → (value old : Uint32) → Uint32
shifted s value old =
    or_word (and_not old (shift_left sixteen_ones s)) (shift_left (extend value) s)

shifted-inside : (s i : ℕ) (value old : Uint32) → i < 16 → shifted s value old (i + s) ≡ value i
shifted-inside s i value old small =
    let not_under : ltb (i + s) s ≡ false = ground arith in
    let back : i + s - s ≡ i = omega arith in
    let inside : ltb i 16 ≡ true = ground arith in
    rw (not_under, back, inside) (by_old (old (i + s)))
  where
    by_old : (b : Bool) → ((b && not true) || value i) ≡ value i
    by_old true = refl
    by_old false = refl

shifted-below : (s i : ℕ) (value old : Uint32) → i < s → shifted s value old i ≡ old i
shifted-below s i value old small =
    let under : ltb i s ≡ true = ground arith in rw under (by_old (old i))
  where
    by_old : (b : Bool) → ((b && not false) || false) ≡ b
    by_old true = refl
    by_old false = refl

shifted-above : (s i : ℕ) (value old : Uint32) → s + 16 ≤ i → shifted s value old i ≡ old i
shifted-above s i value old large =
    let not_under : ltb i s ≡ false = ground arith in
    let past : ltb (i - s) 16 ≡ false = ground arith in rw (not_under, past) (by_old (old i))
  where
    by_old : (b : Bool) → ((b && not false) || false) ≡ b
    by_old true = refl
    by_old false = refl

-- The half at bit `s` of the word at `at` is the two bytes at `addr`.
half-StoresBytes :
    (addr at s : ℕ) (value old : Uint32) (memory : WordMemory)
    → at % 4 ≡ 0
    → s + 16 ≤ 32
    → 8 * addr ≡ 8 * at + s
    → ((i : ℕ) → i < 32 → memory at i ≡ old i)
    → StoresBytes addr value memory (update memory at (shifted s value old))
half-StoresBytes addr at s value old memory aligned fits place same a k small =
    elim (Bool-cases (at == a - a % 4)) [
      | inr away ↦
          let not_low : (a == addr) ≡ false = ground arith in
          let not_high : (a == addr + 1) ≡ false = ground arith in rw (away, not_low, not_high) refl
      | inl there ↦
          let here : at ≡ a - a % 4 = (==_iff _ _).0 there in
          let bit = 8 * (a % 4) + k in
          let kept : memory at bit ≡ byte memory a k = ap (λ (w : ℕ). memory w bit) here in
          rw there (elim (Bool-cases (a == addr)) [
            | inl low ↦
                let index : bit ≡ k + s = ground arith in
                rw (low, index) (shifted-inside s k value old (omega arith))
            | inr not_low ↦ elim (Bool-cases (a == addr + 1)) [
              | inl high ↦
                  let index : bit ≡ 8 + k + s = ground arith in
                  rw (not_low, high, index) (shifted-inside s (8 + k) value old (omega arith))
              | inr not_high ↦
                  let unchanged : shifted s value old bit ≡ old bit =
                    (elim (Bool-cases (ltb bit s)) [
                      | inl under ↦ shifted-below s bit value old (ground arith)
                      | inr over ↦ shifted-above s bit value old (ground arith)
                    ]) in
                  rw (not_low, not_high) (unchanged ∙ sym (same bit (omega arith)) ∙ kept)
            ]
          ])
    ]

-- A swap that finds the word that was loaded stores the two bytes.
swapped-StoresBytes :
    (addr : ℕ) (value old : Uint32) (memory : WordMemory)
    → addr % 2 ≡ 0
    → ((i : ℕ) → i < 32 → memory (word_address addr) i ≡ old i)
    → StoresBytes addr value memory (update memory (word_address addr) (new_word addr value old))
unfolding new_word tail_bits tail_shift word_address
swapped-StoresBytes addr value old memory even same = elim (Bool-cases (addr % 4 == 0)) [
  | inl low ↦
      let same_low = rw low at same in
      rw low (
        half-StoresBytes addr addr 0 value old memory ((==_iff _ _).0 low) (omega arith)
          (omega arith) same_low)
  | inr high ↦
      let same_high = rw high at same in
      rw high (
        half-StoresBytes addr (addr - 2) 16 value old memory (ground arith) (omega arith)
          (ground arith) same_high)
]

alone-swaps :
    (addr : ℕ) (value : Uint32) (memory : WordMemory)
    → store_tail addr value [] memory
      ≡ update memory (word_address addr) (new_word addr value (memory (word_address addr)))
unfolding store_tail
alone-swaps addr value memory =
    let at = word_address addr in
    let swapped : WordMemory = update memory at (new_word addr value (memory at)) in
    ap (λ (r : WordMemory × Bool). r.0)
      (ap (λ (b : Bool). if b then (swapped, true) else (memory, false))
        (same_below_refl 32 (memory at)))

-- The store of the tail at an even address ends, whatever others write to the memory while it is under
-- way: it is one atomic store after some of these writes, with none of them lost. It puts the two bytes
-- of the value at the address, the low one first, and changes no other byte.
pub store_tail-StoresBytes :
    (addr : ℕ) (value : Uint32) (writes : List (WordMemory → WordMemory)) (memory : WordMemory)
    → addr % 2 ≡ 0
    → (done : List (WordMemory → WordMemory)) × (rest : List (WordMemory → WordMemory)) × (writes
        ≡ done ++ rest)
      × StoresBytes addr value (apply done memory) (store_tail addr value writes memory)
unfolding store_tail
store_tail-StoresBytes addr value [] memory even = (
  [],
  [],
  refl,
  subst (StoresBytes addr value memory) (sym (alone-swaps addr value memory))
      (swapped-StoresBytes addr value (memory (word_address addr)) memory even (λ i small. refl)),
)
store_tail-StoresBytes addr value (others ∷ rest) memory even =
    let at = word_address addr in
    elim (Bool-cases (same_below 32 (others memory at) (memory at))) [
      | inl same ↦ (
        others ∷ [],
        rest,
        refl,
        rw same (
            swapped-StoresBytes addr value (memory at) (others memory) even
              (λ i small. same_below-bit 32 (others memory at) (memory at) i same small)),
      )
      | inr changed ↦
          let (done, left, split, stores) =
            store_tail-StoresBytes addr value rest (others memory) even in
          (
            others ∷ done,
            left,
            ap (λ (l : List (WordMemory → WordMemory)). others ∷ l) split,
            rw changed stores,
          )
    ]

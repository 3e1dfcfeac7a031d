-- ===== src/IoUring/Buffers/Register.antt =====
-- RegisterBufferRing: the ring that it makes.
use netring.Prelude.{
  ℕ, ◌+◌, ◌-◌, ◌*◌, ◌%◌, ◌^◌, ◌≤◌, ◌<◌, ◌≡◌, ◌∙◌, sym, ap, refl, Bool, true, ◌||◌, none, arith,
  ◌==◌, ==_iff, ltb, ones_count, ones_count-one, trailing_zeros, holds_below, holds_below-true,
  Bool-cases, inl, inr,
}
use mathlib.Core.Path.{ap₂}
use native.Mathlib.Nat.{mod-eq_of_lt}
use netring.Window.{window, window-ext}
use netring.IoUring.Buffers.{
  BufEntry, BufferRing, ok, done, max_pbuf_ring_entries, fill_loop, new_ring, provision, map_ring,
  register_buffer_ring, visible,
}
use netring.IoUring.Buffers.Publish.{descriptor, RingValid, published, fill_loop-Filled}

-- A power of two up to 2 ^ 15 divides 2 ^ 16.
divides : ℕ → Bool
divides k = (2 ^ (16 - k) * 2 ^ k == 2 ^ 16) || ltb 32768 (2 ^ k)

divides-table : holds_below divides 32 ≡ true
unfolding holds_below divides
divides-table = refl

-- The arguments that RegisterBufferRing takes.
pub record IsShape (capacity buf_size : ℕ) : Type 0 where
  pub one_bit : ones_count 32 capacity ≡ 1
  pub bounded : capacity ≤ max_pbuf_ring_entries
  pub sized : 0 < buf_size
  pub aligned : buf_size % 64 ≡ 0

ratio-shape :
    (capacity buf_size : ℕ)
    → IsShape capacity buf_size
    → 2 ^ 16 ≡ 2 ^ (16 - trailing_zeros 32 capacity) * capacity
unfolding divides
ratio-shape capacity buf_size shape =
    let (power, lt) = ones_count-one 32 capacity (omega (arith, shape.bounded)) shape.one_bit in
    let checked = holds_below-true divides 32 lt divides-table in
    let whole : 2 ^ (16 - trailing_zeros 32 capacity) * 2 ^ trailing_zeros 32 capacity ≡ 2 ^ 16 =
      ground (arith, shape.bounded) in
    sym (rw (← power) at whole)

module _ (bgid capacity buf_size base ring_mem : ℕ) (memory : ℕ → BufEntry) where
  filled : BufferRing
  filled = fill_loop capacity 0 (new_ring bgid capacity buf_size base ring_mem memory)

  abbrev made : BufferRing
  made = record filled { ring_tail = capacity % 2 ^ 16 }

  module _ (shape : IsShape capacity buf_size) where
    made-same :
        (made.capacity ≡ capacity)
        × (made.mask ≡ capacity - 1)
        × (made.buf_size ≡ buf_size)
        × (made.base_ptr ≡ base)
    unfolding filled new_ring
    made-same =
        let (c, m, s, b, _) =
          (fill_loop-Filled capacity 0
            (new_ring bgid capacity buf_size base ring_mem memory)).same in
        (c, m, s, b)

    made-written :
        (j : ℕ)
        → j < capacity
        → (made.buf_pointers j ≡ base + j * buf_size)
          × (made.entries j ≡ record { addr = base + j * buf_size; len = buf_size; bid = j })
    unfolding filled new_ring
    made-written j h =
        let small : j % 2 ^ 16 ≡ j = mod-eq_of_lt (omega (arith, shape.bounded)) in
        let (p, e) =
          (fill_loop-Filled capacity 0
              (new_ring bgid capacity buf_size base ring_mem memory)).written
            j (omega arith) (omega arith) in
        (p, e ∙ rw small refl)

    not_empty : 0 < capacity
    not_empty = elim (Bool-cases (capacity == 0)) [
      | inl e ↦
          let none_left =
            ap (λ (c : ℕ). 2 ^ (16 - trailing_zeros 32 capacity) * c) ((==_iff capacity 0).0 e) in
          absurd (omega (arith, ratio-shape capacity buf_size shape, none_left))
      | inr e ↦ ground arith
    ]

    made-RingValid : RingValid (2 ^ (16 - trailing_zeros 32 capacity)) made
    made-RingValid =
        let (c, m, s, b) = made-same in
        let pos : 0 < capacity = not_empty in
        record {
          mask = omega arith;
          ring = rw c (ratio-shape capacity buf_size shape);
          bounded = rw c shape.bounded;
          sized = rw s shape.sized;
          pointers = λ i h. rw (s, b) (made-written i (omega arith)).0;
          fits = omega arith;
        }

    made-published : published made 0 ≡ window (descriptor made) capacity capacity 0
    made-published =
        let (c, m, s, b) = made-same in
        let all : visible made 0 ≡ capacity = omega (arith, shape.bounded) in
        ap₂ (λ (size n : ℕ). window made.entries size n 0) c all
        ∙ window-ext made.entries (descriptor made) capacity capacity 0 (λ i h.
          let at : (0 + i) % capacity ≡ i =
            ap (λ (x : ℕ). x % capacity) (omega arith) ∙ mod-eq_of_lt h in
          rw (at, s, b) (made-written i h).1)

  -- Given such arguments and calls that succeed, RegisterBufferRing makes a valid ring, and the
  -- kernel can pick every buffer, in the order of the buffer ids.
  pub register-published :
      IsShape capacity buf_size
      → (pbr : BufferRing) × (ratio : ℕ) × (register_buffer_ring bgid capacity buf_size
            (done base)
            (done ring_mem)
            none
            memory
          ≡ ok pbr)
        × RingValid ratio pbr
        × (published pbr 0 ≡ window (descriptor pbr) capacity capacity 0)
        × (pbr.capacity ≡ capacity)
        × (pbr.buf_size ≡ buf_size)
        × (pbr.base_ptr ≡ base)
  unfolding register_buffer_ring map_ring provision new_ring filled
  register-published shape = (
    made,
    2 ^ (16 - trailing_zeros 32 capacity),
    ground (arith, shape.one_bit, shape.bounded, shape.sized, shape.aligned),
    made-RingValid shape,
    made-published shape,
    (made-same shape).0,
    (made-same shape).2,
    (made-same shape).3,
  )

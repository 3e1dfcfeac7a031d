-- ===== src/IoUring/Buffers/Publish.antt =====
-- The queue of buffers that the kernel sees, and how RegisterBufferRing, ReleaseBuffer and
-- ReplenishOne change it.
use netring.Prelude.{
  ℕ, zero, suc, ◌+◌, ◌-◌, ◌*◌, ◌%◌, ◌^◌, ◌≤◌, ◌<◌, ◌≡◌, ◌∙◌, ◌⊎◌, ap, refl, true, false, List, [],
  ◌∷◌, ◌++◌, arith, ◌==◌, ==_iff, ltb, update, wrap_position, Bool-cases, inl, inr,
}
use mathlib.Core.Path.{ap₂}
use netring.Window.{window, window-push}
use netring.IoUring.Buffers.{
  BufEntry, BufferRing, ok, done, max_pbuf_ring_entries, fill_entry, fill_loop, publish_buffer,
  release_buffer, visible, replenish_one,
}

-- the descriptor of buffer `i`
abbrev pub descriptor : BufferRing → ℕ → BufEntry
descriptor pbr i = record { addr = pbr.base_ptr + i * pbr.buf_size; len = pbr.buf_size; bid = i }

pub record RingValid (ratio : ℕ) (pbr : BufferRing) : Type 0 where
  pub mask : pbr.mask + 1 ≡ pbr.capacity
  pub ring : 2 ^ 16 ≡ ratio * pbr.capacity
  pub bounded : pbr.capacity ≤ max_pbuf_ring_entries
  pub sized : 0 < pbr.buf_size
  pub pointers : (i : ℕ) → i < pbr.capacity → pbr.buf_pointers i ≡ pbr.base_ptr + i * pbr.buf_size
  pub fits : pbr.ring_tail < 2 ^ 16

-- the buffers that the kernel can pick, in the order of picking, when its head is `head`
abbrev pub published : BufferRing → ℕ → List BufEntry
published pbr head = window pbr.entries pbr.capacity (visible pbr head) head

-- the descriptor that the kernel took last, before its head
abbrev pub last_taken : (pbr : BufferRing) → (head : ℕ) → BufEntry
last_taken pbr head = pbr.entries ((head + 2 ^ 32 - 1) % 2 ^ 32 % (pbr.mask + 1))

module _ {ratio : ℕ} (pbr : BufferRing) (valid : RingValid ratio pbr) (head : ℕ)
    (small : head < 2 ^ 16) where
  tail-slot : pbr.ring_tail % (pbr.mask + 1) ≡ (head + visible pbr head) % pbr.capacity
  tail-slot =
      let at : pbr.ring_tail ≡ (head + visible pbr head) % 2 ^ 16 = omega (arith, valid.fits) in
      let wrapped =
        wrap_position (head + visible pbr head) (2 ^ 16) ratio pbr.capacity valid.ring in
      rw valid.mask (ap (λ (x : ℕ). x % pbr.capacity) at ∙ wrapped)

  module _ (bid : ℕ) (known : bid < pbr.capacity) (room : visible pbr head < pbr.capacity) where
    count-publish : visible (publish_buffer bid pbr) head ≡ suc (visible pbr head)
    unfolding publish_buffer
    count-publish = omega (arith, valid.fits, valid.bounded)

    pub publish-RingValid : RingValid ratio (publish_buffer bid pbr)
    unfolding publish_buffer
    publish-RingValid = record {
      mask = valid.mask;
      ring = valid.ring;
      bounded = valid.bounded;
      sized = valid.sized;
      pointers = valid.pointers;
      fits = omega arith;
    }

    pub publish-published :
        published (publish_buffer bid pbr) head ≡ published pbr head ++ descriptor pbr bid ∷ []
    unfolding publish_buffer
    publish-published =
        let entry : ℕ → BufEntry = λ p. record { addr = p; len = pbr.buf_size; bid = bid } in
        ap₂
          (λ (k n : ℕ).
            window (update pbr.entries k (entry (pbr.buf_pointers bid))) pbr.capacity n head)
          tail-slot count-publish
        ∙ window-push pbr.entries pbr.capacity (visible pbr head) head _ room
        ∙ ap (λ (p : ℕ). published pbr head ++ entry p ∷ []) (valid.pointers bid known)

    -- ReleaseBuffer puts the buffer at the end of the kernel's queue, and keeps the ring valid.
    pub release_buffer-published :
        (q : BufferRing) × (release_buffer bid pbr ≡ ok q)
        × RingValid ratio q
        × (published q head ≡ published pbr head ++ descriptor pbr bid ∷ [])
    unfolding release_buffer publish_buffer
    release_buffer-published =
        let inside : ltb bid pbr.capacity ≡ true = ground arith in
        (publish_buffer bid pbr, rw inside refl, publish-RingValid, publish-published)

  -- When the kernel answers with its head, ReplenishOne leaves a full ring alone; else it publishes the
  -- buffer that the kernel took last, at the end of the queue.
  pub replenish_one-published :
      (last_taken pbr head).bid < pbr.capacity
      → visible pbr head ≤ pbr.capacity
      → ((visible pbr head ≡ pbr.capacity) × (replenish_one (done head) pbr ≡ ok pbr))
        ⊎ ((q : BufferRing) × (replenish_one (done head) pbr ≡ ok q)
            × RingValid ratio q
            × (published q head
                ≡ published pbr head ++ descriptor pbr (last_taken pbr head).bid ∷ []))
  unfolding replenish_one
  replenish_one-published known most = elim (Bool-cases (visible pbr head == pbr.capacity)) [
    | inl full ↦ inl ((==_iff _ _).0 full, rw full refl)
    | inr some_room ↦
        let room : visible pbr head < pbr.capacity = ground arith in
        let (q, released, v, p) = release_buffer-published (last_taken pbr head).bid known room in
        inr (q, rw some_room released, v, p)
  ]

-- What the loop of RegisterBufferRing writes, from buffer `i` on for `n` rounds.
pub record Filled (i n : ℕ) (pbr q : BufferRing) : Type 0 where
  pub same :
      (q.capacity ≡ pbr.capacity)
      × (q.mask ≡ pbr.mask)
      × (q.buf_size ≡ pbr.buf_size)
      × (q.base_ptr ≡ pbr.base_ptr)
      × (q.ring_tail ≡ pbr.ring_tail)
  pub written :
      (j : ℕ)
      → i ≤ j
      → j < i + n
      → (q.buf_pointers j ≡ pbr.base_ptr + j * pbr.buf_size)
        × (q.entries j ≡ record {
          addr = pbr.base_ptr + j * pbr.buf_size;
          len = pbr.buf_size;
          bid = j % 2 ^ 16;
        })
  pub kept :
      (j : ℕ) → j < i → (q.buf_pointers j ≡ pbr.buf_pointers j) × (q.entries j ≡ pbr.entries j)

pub fill_loop-Filled : (n i : ℕ) (pbr : BufferRing) → Filled i n pbr (fill_loop n i pbr)
unfolding fill_loop fill_entry
fill_loop-Filled zero i pbr = record {
  same = (refl, refl, refl, refl, refl);
  written = λ j lo hi. absurd (omega arith);
  kept = λ j h. (refl, refl);
}
fill_loop-Filled (suc n) i pbr =
    let rest = fill_loop-Filled n (i + 1) (fill_entry i pbr) in
    record {
      same = rest.same;
      written = λ j lo hi. elim (Bool-cases (i == j)) [
        | inl e ↦
            let (pointer, entry) = rest.kept j (ground arith) in
            let at : i ≡ j = (==_iff i j).0 e in
            (pointer ∙ rw (e, at) refl, entry ∙ rw (e, at) refl)
        | inr e ↦ rest.written j (ground arith) (omega arith)
      ];
      kept = λ j h.
          let (pointer, entry) = rest.kept j (omega arith) in
          let apart : (i == j) ≡ false = ground arith in
          (pointer ∙ rw apart refl, entry ∙ rw apart refl);
    }

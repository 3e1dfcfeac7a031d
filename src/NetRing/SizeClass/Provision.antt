-- ===== src/NetRing/SizeClass/Provision.antt =====
-- The ring of a size class, from the registration on.
use netring.Prelude.{
  ℕ, ◌%◌, ◌^◌, ◌<◌, ◌≤◌, ◌≡◌, ◌∙◌, ap, refl, false, Option, none, some, arith, ◌==◌, update,
  ones_count,
}
use netring.Window.{window}
use netring.IoUring.Buffers.{BufferRing, BufEntry, PbufResult, Syscall, max_pbuf_ring_entries}
use netring.IoUring.Buffers.Publish.{RingValid, descriptor, published}
use netring.IoUring.Buffers.Register.{IsShape, register-published}
use netring.NetRing.SizeClass.{
  size, Rings, done, store_ring, provision_class, register_ring, size-cases,
}

-- Given a size class without a ring, a power of two up to 32768, and system calls that succeed,
-- RegisterBufferRing gives the class a valid ring of that many buffers of the class's size, all of which
-- the kernel can pick, and leaves the other classes alone: the guard on the buffer size never fails.
pub register_ring-provisions :
    (size_class capacity base ring_mem : ℕ) (memory : ℕ → BufEntry) (pbrs : Rings)
    → size_class < 5
    → pbrs size_class ≡ none
    → ones_count 32 capacity ≡ 1
    → capacity ≤ max_pbuf_ring_entries
    → (pbr : BufferRing) × (ratio : ℕ) × (register_ring size_class capacity
          (Syscall.done base)
          (Syscall.done ring_mem)
          none
          memory
          pbrs
        ≡ done (update pbrs size_class (some pbr)) none)
      × RingValid ratio pbr
      × (pbr.capacity ≡ capacity)
      × (pbr.buf_size ≡ size size_class)
      × (published pbr 0 ≡ window (descriptor pbr) capacity capacity 0)
unfolding register_ring store_ring
register_ring-provisions size_class capacity base ring_mem memory pbrs class vacant power most =
    let positive : 0 < size size_class = (size-cases size_class).0.1 class in
    let shape : IsShape capacity (size size_class) = record {
      one_bit = power;
      bounded = most;
      sized = positive;
      aligned = (size-cases size_class).1;
    } in
    let (pbr, ratio, made, valid, all, c, b, _) =
      register-published (size_class % 2 ^ 16) capacity (size size_class) base ring_mem memory
        shape in
    let known : (size size_class == 0) ≡ false = ground arith in
    (
      pbr,
      ratio,
      rw known (
          ap (λ r. provision_class size_class pbrs r (pbrs size_class)) made
          ∙ ap (λ (o : Option BufferRing). provision_class size_class pbrs (PbufResult.ok pbr) o)
              vacant
          ∙ provides pbr),
      valid,
      c,
      b,
      all,
    )
  where
    provides :
        (pbr : BufferRing)
        → provision_class size_class pbrs (PbufResult.ok pbr) none
          ≡ done (update pbrs size_class (some pbr)) none
    provides pbr = refl

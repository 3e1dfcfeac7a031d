-- ===== src/NetRing/Operations/Views.antt =====
-- What Recv and Read hand out, and what its release does.
use netring.Prelude.{
  ℕ, ◌+◌, ◌*◌, ◌/◌, ◌%◌, ◌^◌, ◌≤◌, ◌<◌, ◌≡◌, ◌∙◌, ◌⊎◌, inl, inr, ap, refl, update, ltb, Bool-cases,
  Option-cases, ==_iff, negsuc, true, false, Option, none, some, [], ◌∷◌, ◌++◌, arith, ◌==◌, leb,
  if◌then◌else◌, ℤ, pos, is_negative, pos_part, neg_part,
}
use netring.IoUring.Expect.{recv_sqe, read_sqe}
use netring.IoUring.Buffers.{BufferRing, visible, publish_buffer, done}
use netring.IoUring.Buffers.Publish.{
  RingValid, descriptor, published, publish-RingValid, publish-published, last_taken,
  replenish_one-published,
}
use netring.IoUring.Buffers.Views.{release-start, buffer-start}
use netring.NetRing.Cells.{
  TaskCell, RingTask, Opcode, NetError, errno, invalid_descriptor, invalid_size_class,
  not_provisioned, arm, recv, read,
}
use netring.NetRing.Dispatch.Submitting.{sqe_for}
use netring.NetRing.SizeClass.{Rings, size, size-cases}
use netring.NetRing.Operations.{
  give_back, submit_release, release_from, keep_ring, released, has_buffer, buffer_id, Received,
  view, finish_recv, finish_status, view_of, reslice, received, received_or, raw_port, eof,
  finish_read, read_from, replenish_from, replenished, refused, submits, plain_task, prepare_view,
  prepare_recv, prepare_read,
}

-- A completion that carries `n` bytes in a buffer of the ring.
pub record Carries (pbr : BufferRing) (n : ℕ) (cell : TaskCell) : Type 0 where
  pub res : cell.res ≡ pos n
  pub no_error : cell.err ≡ none
  pub some_bytes : (0 < n) × (n ≤ pbr.buf_size)
  pub flag : has_buffer cell.flags ≡ true
  pub known : buffer_id cell.flags < pbr.capacity

module _ {ratio : ℕ} (size_class n : ℕ) (cell : TaskCell) (pbrs : Rings) (pbr : BufferRing)
    (ring : pbrs size_class ≡ some pbr) (valid : RingValid ratio pbr)
    (carries : Carries pbr n cell) where
  abbrev start_ptr : ℕ
  start_ptr = pbr.base_ptr + buffer_id cell.flags * pbr.buf_size

  recv-view : finish_recv size_class cell pbrs ≡ view start_ptr n
  unfolding finish_recv finish_status received_or received view_of reslice
  recv-view =
      let found = buffer-start pbr valid (buffer_id cell.flags) carries.known in
      let some_left : (n == 0) ≡ false = ground (arith, carries.some_bytes) in
      let inside : leb n pbr.buf_size ≡ true = ground (arith, carries.some_bytes) in
      let status : finish_status cell ≡ none =
        ap (λ (z : ℤ). if is_negative z then some (errno (neg_part z)) else cell.err) carries.res
        ∙ carries.no_error in
      let count =
        ap (λ (z : ℤ). received_or (finish_status cell) (pos_part z) cell.flags (pbrs size_class))
          carries.res in
      let good =
        ap (λ (e : Option NetError). received_or e n cell.flags (pbrs size_class)) status in
      let there = ap (λ (r : Option BufferRing). received n cell.flags r) ring in
      count ∙ good ∙ there ∙ rw (some_left, carries.flag) (ap (reslice n) found ∙ rw inside refl)

  give_back-start :
      size_class < 5
      → give_back size_class start_ptr n pbrs
        ≡ released (update pbrs size_class (some (publish_buffer (buffer_id cell.flags) pbr)))
  unfolding give_back submit_release release_from keep_ring
  give_back-start class =
      let some_left : (n == 0) ≡ false = ground (arith, carries.some_bytes) in
      let short : size_class % 2 ^ 16 ≡ size_class = omega (arith, class) in
      let inside : ltb size_class 5 ≡ true = ground (arith, class) in
      let freed = release-start pbr valid (buffer_id cell.flags) carries.known in
      rw (some_left, short, inside)
        (ap (λ (r : Option BufferRing). release_from size_class start_ptr pbrs r) ring
          ∙ ap (λ r. keep_ring size_class pbrs r) freed)

  -- Given a completion that carries bytes in a buffer of the class's valid ring, Recv returns a view of
  -- those bytes. When the kernel sees room in the ring, ReleaseBuffer of that view puts the very buffer
  -- that the completion names at the end of the kernel's queue, keeps the ring valid, and leaves the
  -- rings of the other classes alone.
  pub recv-release :
      (head : ℕ)
      → size_class < 5
      → head < 2 ^ 16
      → visible pbr head < pbr.capacity
      → (ptr : ℕ) × (finish_recv size_class cell pbrs ≡ view ptr n)
        × (q : BufferRing) × (give_back size_class ptr n pbrs
            ≡ released (update pbrs size_class (some q)))
        × RingValid ratio q
        × (published q head ≡ published pbr head ++ descriptor pbr (buffer_id cell.flags) ∷ [])
  recv-release head class small room = (
    start_ptr,
    recv-view,
    publish_buffer (buffer_id cell.flags) pbr,
    give_back-start class,
    publish-RingValid pbr valid head small (buffer_id cell.flags) carries.known room,
    publish-published pbr valid head small (buffer_id cell.flags) carries.known room,
  )

finish-zero :
    (size_class : ℕ) (cell : TaskCell) (pbrs : Rings)
    → cell.res ≡ pos 0
    → cell.err ≡ none
    → finish_recv size_class cell pbrs ≡ eof
unfolding finish_recv finish_status received_or received
finish-zero size_class cell pbrs zero_res no_error =
    ap
      (λ (z : ℤ).
        received_or (if is_negative z then some (errno (neg_part z)) else cell.err) (pos_part z)
          cell.flags (pbrs size_class))
      zero_res
    ∙ ap (λ (e : Option NetError). received_or e 0 cell.flags (pbrs size_class)) no_error

-- At the end of the stream, when the kernel has taken a buffer, Read returns the empty view and
-- publishes the buffer that the kernel took last; the class's ring stays valid.
pub read-eof :
    {ratio : ℕ} (size_class head : ℕ) (cell : TaskCell) (pbrs : Rings) (pbr : BufferRing)
    → pbrs size_class ≡ some pbr
    → RingValid ratio pbr
    → head < 2 ^ 16
    → visible pbr head < pbr.capacity
    → (last_taken pbr head).bid < pbr.capacity
    → cell.res ≡ pos 0
    → cell.err ≡ none
    → (q : BufferRing) × (finish_read size_class cell (done head) pbrs
        ≡ (eof, update pbrs size_class (some q)))
      × RingValid ratio q
      × (published q head ≡ published pbr head ++ descriptor pbr (last_taken pbr head).bid ∷ [])
unfolding finish_read read_from replenish_from replenished
read-eof size_class head cell pbrs pbr ring valid small room known zero_res no_error =
    elim (replenish_one-published pbr valid head small known (omega arith)) [
      | inl (full, _) ↦ absurd (omega arith)
      | inr (q, republished, v, p) ↦ (
        q,
        ap (λ (r : Received). read_from size_class (done head) pbrs r)
              (finish-zero size_class cell pbrs zero_res no_error)
            ∙ ap (λ (r : Option BufferRing). replenish_from size_class (done head) pbrs r) ring
            ∙ ap (λ r. replenished size_class pbrs r) republished,
        v,
        p,
      )
    ]

-- The port of a socket address is stored in network byte order: the first byte is the port's high
-- one, and the swap is its own inverse.
pub raw_port-swaps :
    (port : ℕ)
    → port < 2 ^ 16
    → (raw_port port % 2 ^ 8 ≡ port / 2 ^ 8)
      × (raw_port port / 2 ^ 8 ≡ port % 2 ^ 8)
      × (raw_port (raw_port port) ≡ port)
unfolding raw_port
raw_port-swaps port h = (omega arith, omega arith, omega arith)

-- Recv and Read refuse a negative descriptor, then a number that is no size class, then a class
-- without a ring; else they arm the cell and submit a task whose entry reads from the descriptor into a
-- buffer of the class's group, with the class's size as the limit for Recv and 0 for Read.
pub prepare-cases :
    (dummy_addr dummy_len g p fd idx size_class : ℕ) (pbrs : Rings)
    → (prepare_recv g p (negsuc fd) size_class pbrs ≡ refused invalid_descriptor)
      × (prepare_read g p (negsuc fd) size_class pbrs ≡ refused invalid_descriptor)
      × (((5 ≤ size_class)
            × (prepare_recv g p (pos fd) size_class pbrs ≡ refused invalid_size_class)
            × (prepare_read g p (pos fd) size_class pbrs ≡ refused invalid_size_class))
          ⊎ ((pbrs size_class ≡ none)
              × (prepare_recv g p (pos fd) size_class pbrs ≡ refused not_provisioned)
              × (prepare_read g p (pos fd) size_class pbrs ≡ refused not_provisioned))
          ⊎ ((t : RingTask) × (r : RingTask) × (prepare_recv g p (pos fd) size_class pbrs
                ≡ submits (arm g recv fd) t)
              × (prepare_read g p (pos fd) size_class pbrs ≡ submits (arm g read fd) r)
              × (sqe_for dummy_addr dummy_len t t.opcode fd idx
                  ≡ recv_sqe (fd % 2 ^ 32) size_class (size size_class) idx)
              × (sqe_for dummy_addr dummy_len r r.opcode fd idx
                  ≡ read_sqe (fd % 2 ^ 32) size_class 0 idx)))
unfolding prepare_recv prepare_read prepare_view
prepare-cases dummy_addr dummy_len g p fd idx size_class pbrs = (
  refl,
  refl,
  elim (Bool-cases (size size_class == 0)) [
    | inl e ↦ inl (no_class ((==_iff _ 0).0 e), rw e refl, rw e refl)
    | inr e ↦ inr (elim (Option-cases (pbrs size_class)) [
      | inl none_there ↦ inl (none_there, rw (e, none_there) refl, rw (e, none_there) refl)
      | inr (pbr, there) ↦
          let small : size_class % 2 ^ 16 ≡ size_class = omega (arith, is_class e) in
          inr (
            task recv (size size_class),
            task read 0,
            rw (e, there) refl,
            rw (e, there) refl,
            ap (λ (b : ℕ). recv_sqe (fd % 2 ^ 32) b (size size_class) idx) small,
            ap (λ (b : ℕ). read_sqe (fd % 2 ^ 32) b 0 idx) small,
          )
    ])
  ],
)
  where
    task : Opcode → ℕ → RingTask
    task opcode len = record (plain_task opcode p) { len = len; bgid = size_class % 2 ^ 16 }

    no_class : size size_class ≡ 0 → 5 ≤ size_class
    no_class e = elim (Bool-cases (ltb size_class 5)) [
      | inl lt ↦
          absurd (let big = (size-cases size_class).0.1 (ground arith) in omega (arith, big, e))
      | inr ge ↦ ground arith
    ]

    is_class : (size size_class == 0) ≡ false → size_class < 5
    is_class e = (size-cases size_class).0.0 (ground arith)

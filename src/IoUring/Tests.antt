-- ===== src/IoUring/Tests.antt =====
-- The rings at concrete inputs.
use netring.Prelude.{
  ℕ, ◌+◌, ◌*◌, ◌%◌, ◌^◌, ◌<◌, ◌≡◌, ◌≢◌, ◌⊎◌, refl, true, false, none, some, List, [], ◌∷◌, ◌++◌,
  arith, if◌then◌else◌, pos, ones_count,
}
use mathlib.Core.Option
use netring.Window.{window}
use netring.IoUring.Entries.{SqEntry, zero_sqe, CqEntry, zero_cqe, wakeup_failed}
use netring.IoUring.Queues.{Uring, need_wakeup, push, get_task, submitted, completed}
use netring.IoUring.Queues.Fifo.{SqValid, CqValid, push-submits, push-full, get_task-Fifo}
use netring.IoUring.Buffers.{
  BufEntry, BufferRing, ok, err, foreign_view, done, register_buffer_ring, publish_buffer,
  release_buffer, buffer, release_view,
}
use netring.IoUring.Buffers.Publish.{descriptor, RingValid, published, release_buffer-published}
use netring.IoUring.Buffers.Register.{IsShape, register-published}
use netring.IoUring.Buffers.Views.{release_view-cases}

-- a ring of 2 entries and 4 completions: one entry waits, and one completion
abbrev entry : SqEntry
entry = record zero_sqe { user_data = 3 }

abbrev completion : CqEntry
completion = record { user_data = 3; res = pos 8; flags = 0 }

abbrev uring : Uring
uring = record {
  sq_head = 0;
  sq_tail = 1;
  sq_mask = 1;
  sq_entries = 2;
  sq_flags = 1;
  sq_array = λ i. i;
  sq = λ _. entry;
  cq_head = 0;
  cq_tail = 1;
  cq_length_mask = 3;
  cq = λ _. completion;
}

abbrev full : Uring
full = record uring { sq_tail = 2 }

uring-SqValid : SqValid (2 ^ 31) uring
uring-SqValid = record {
  mask = refl;
  ring = omega arith;
  bounded = omega arith;
  fits = omega arith;
  indexed = λ i lt. refl;
}

full-SqValid : SqValid (2 ^ 31) full
full-SqValid = record {
  mask = refl;
  ring = omega arith;
  bounded = omega arith;
  fits = omega arith;
  indexed = λ i lt. refl;
}

uring-CqValid : CqValid (2 ^ 30) uring
uring-CqValid = record { ring = omega arith; fits = omega arith; bounded = omega arith }

push-submits_example :
    SqValid (2 ^ 31) (push zero_sqe (some 9) uring).0
    × (submitted (push zero_sqe (some 9) uring).0 ≡ submitted uring ++ zero_sqe ∷ [])
    × ((push zero_sqe (some 9) uring).1
        ≡ (if need_wakeup uring then Option.map wakeup_failed (some 9) else none))
push-submits_example = push-submits uring uring-SqValid zero_sqe (omega arith) (some 9)

one_waits : submitted uring ≡ entry ∷ []
unfolding window
one_waits = refl

push-full_example : (push zero_sqe none full).0.sq (0 % 2) ≡ zero_sqe
push-full_example = push-full full zero_sqe none full-SqValid (omega arith)

get_task-Fifo_example :
    ((completed uring ≡ []) × (get_task uring ≡ (uring, zero_cqe, false)))
    ⊎ ((e : CqEntry) × (rest : List CqEntry) × (completed uring ≡ e ∷ rest)
        × (completed (get_task uring).0 ≡ rest)
        × ((get_task uring).1 ≡ e)
        × ((get_task uring).2 ≡ true)
        × CqValid (2 ^ 30) (get_task uring).0)
get_task-Fifo_example = get_task-Fifo uring uring-CqValid

-- two buffers of 64 bytes at address 4096, of which the kernel can pick the first
abbrev pbr : BufferRing
pbr = record {
  bgid = 0;
  capacity = 2;
  buf_size = 64;
  mask = 1;
  base_ptr = 4096;
  buf_pointers = λ i. 4096 + i * 64;
  ring_ptr = 8192;
  ring_length = 4096;
  entries = λ i. record { addr = 4096 + i * 64; len = 64; bid = i };
  ring_tail = 1;
  closed = false;
}

pbr-RingValid : RingValid (2 ^ 15) pbr
pbr-RingValid = record {
  mask = refl;
  ring = omega arith;
  bounded = omega arith;
  sized = omega arith;
  pointers = λ i h. refl;
  fits = omega arith;
}

release_buffer-published_example :
    (q : BufferRing) × (release_buffer 1 pbr ≡ ok q)
    × RingValid (2 ^ 15) q
    × (published q 0 ≡ published pbr 0 ++ descriptor pbr 1 ∷ [])
release_buffer-published_example =
    release_buffer-published pbr pbr-RingValid 0 (omega arith) 1 (omega arith) (omega arith)

abbrev memory : ℕ → BufEntry
memory i = record { addr = 0; len = 0; bid = 0 }

two_buffers : IsShape 2 64
unfolding ones_count
two_buffers = record {
  one_bit = refl;
  bounded = omega arith;
  sized = omega arith;
  aligned = omega arith;
}

register-published_example :
    (q : BufferRing) × (ratio : ℕ) × (register_buffer_ring 0 2 64
        (done 4096)
        (done 8192)
        none
        memory
      ≡ ok q)
    × RingValid ratio q
    × (published q 0 ≡ window (descriptor q) 2 2 0)
    × (q.capacity ≡ 2)
    × (q.buf_size ≡ 64)
    × (q.base_ptr ≡ 4096)
register-published_example = register-published 0 2 64 4096 8192 memory two_buffers

release_view-cases_example :
    ((bid : ℕ) × (bid < 2)
      × (buffer bid pbr ≡ ok (4160, 64))
      × (release_view 4160 pbr ≡ ok (publish_buffer bid pbr)))
    ⊎ (((bid : ℕ) → bid < 2 → buffer bid pbr ≢ ok (4160, 64))
        × (release_view 4160 pbr ≡ err foreign_view))
release_view-cases_example = release_view-cases pbr pbr-RingValid 4160

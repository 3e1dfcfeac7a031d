-- ===== src/NetRing/Creation/Tests.antt =====
-- New without options, on a ring of two entries.
use netring.Prelude.{ℕ, ◌^◌, ◌<◌, ◌≡◌, refl, true, false, arith, []}
use netring.Window.{window}
use netring.IoUring.Entries.{zero_sqe, zero_cqe}
use netring.IoUring.Queues.{Uring}
use netring.IoUring.Lifecycle.{RingHandle, handle, succeeded}
use netring.NetRing.Cells.{NetRing, TaskCell, send, arm}
use netring.NetRing.Options.Configuring.{defaults, configure-none}
use netring.NetRing.Flight.Runs.{IsIdle}
use netring.NetRing.Creation.{failed, no_logger, created, create}
use netring.NetRing.Creation.Idle.{IsFresh, create-IsIdle}

abbrev memory : RingHandle → Uring
memory _ = record {
  sq_head = 0;
  sq_tail = 0;
  sq_mask = 1;
  sq_entries = 2;
  sq_flags = 0;
  sq_array = λ i. i;
  sq = λ _. zero_sqe;
  cq_head = 0;
  cq_tail = 0;
  cq_length_mask = 3;
  cq = λ _. zero_cqe;
}

abbrev heap : ℕ → TaskCell
heap p = arm 0 send 0

abbrev two_entries : RingHandle
two_entries =
    handle 3
      (record {
        sq_entries = 2;
        cq_entries = 4;
        features = 1;
        sq_off_array = 64;
        cq_off_cqes = 128;
      })
      4096 4096 8192

unlogged : create memory heap false [] (succeeded two_entries) ≡ failed no_logger
unfolding create
unlogged = refl

memory-IsFresh : IsFresh (2 ^ 31) (2 ^ 30) (memory two_entries)
unfolding window
memory-IsFresh = record {
  sq = record {
    mask = refl;
    ring = omega arith;
    bounded = omega arith;
    fits = omega arith;
    indexed = λ i lt. absurd (omega arith);
  };
  cq = record { ring = omega arith; fits = omega arith; bounded = omega arith };
  none_submitted = refl;
  none_completed = refl;
}

create-IsIdle_example :
    (nr : NetRing) × (words : ℕ) × (ring : ℕ) × (back : ℕ) × (create memory heap true []
        (succeeded two_entries)
      ≡ created 256 nr)
    × (0 < 256)
    × IsIdle words ring back (2 ^ 31) (2 ^ 30) nr
create-IsIdle_example =
    create-IsIdle memory heap two_entries memory-IsFresh [] defaults configure-none

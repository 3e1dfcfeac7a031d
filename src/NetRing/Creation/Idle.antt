-- ===== src/NetRing/Creation/Idle.antt =====
-- A NetRing that New returns is one from which the tasks in flight can start.
use netring.Prelude.{ℕ, ◌<◌, ◌≡◌, refl, ap, ◌∙◌, true, List, []}
use netring.IoUring.Queues.{Uring, submitted, completed}
use netring.IoUring.Queues.Fifo.{SqValid, CqValid}
use netring.IoUring.Lifecycle.{RingHandle, succeeded}
use netring.NetRing.Cells.{TaskCell, NetRing}
use netring.NetRing.Options.{Setter, Options, applied, configure}
use netring.NetRing.Options.Configuring.{configure-Good}
use netring.NetRing.Flight.Runs.{IsIdle}
use netring.NetRing.Creation.{created, net_ring, with_slots, after_options, create}

-- what the kernel makes of the memory of a new ring: two empty queues
pub record IsFresh (sq_ring cq_ring : ℕ) (r : Uring) : Type 0 where
  pub sq : SqValid sq_ring r
  pub cq : CqValid cq_ring r
  pub none_submitted : submitted r ≡ []
  pub none_completed : completed r ≡ []

module _ {sq_ring cq_ring : ℕ} (memory : RingHandle → Uring) (heap : ℕ → TaskCell)
    (handle : RingHandle) (fresh : IsFresh sq_ring cq_ring (memory handle)) where
  -- New with a logger, options that it accepts and a ring returns a NetRing, with a positive capacity of
  -- the fallback channel. If the memory of the ring holds two empty queues, the NetRing is idle: its slot
  -- table is valid, all indices of the table are task ids, and the queues are empty.
  pub create-IsIdle :
      (setters : List Setter) (options : Options)
      → configure setters ≡ applied options
      → (nr : NetRing) × (words : ℕ) × (ring : ℕ) × (back : ℕ) × (create memory heap true setters
            (succeeded handle)
          ≡ created options.tasks_chan_buffer nr)
        × (0 < options.tasks_chan_buffer)
        × IsIdle words ring back sq_ring cq_ring nr
  unfolding create
  create-IsIdle setters options accepted =
      let good = configure-Good setters options accepted in
      let (slots, there, table) = good.table refl in
      (
        net_ring memory heap handle slots,
        table.words,
        table.ring,
        table.back,
        ap (after_options memory heap (succeeded handle)) accepted
            ∙ ap (with_slots memory heap handle options.tasks_chan_buffer) there,
        good.buffer,
        record {
          slots = table.valid;
          bounds = table.bounds;
          sq = fresh.sq;
          cq = fresh.cq;
          none_submitted = fresh.none_submitted;
          none_completed = fresh.none_completed;
        },
      )

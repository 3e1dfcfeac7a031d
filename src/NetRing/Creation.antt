-- ===== src/NetRing/Creation.antt =====
-- netring.go: New. `ring` is what iouring.New returns, `memory` the memory that the kernel shares with the
-- process for a ring, and `heap` the cells by address, none of which is in use. The channels of New have no
-- place here but the fallback channel's capacity, and the start of the fallback loop is a step of Submit.
pub mod Idle
mod Tests
use netring.Prelude.{ℕ, Bool, true, false, Option, none, some, List, []}
use netring.TaskSlots.{Slots}
use netring.IoUring.Queues.{Uring}
use netring.IoUring.Lifecycle.{SetupError, RingHandle, Attempt, refused, succeeded}
use netring.NetRing.Cells.{TaskCell, SendCell, NetRing}
use netring.NetRing.Options.{Setter, OptionError, Options, Applied, applied, rejected, configure}

pub data CreateError : Type 0 where
  no_logger : CreateError
  bad_option : Setter → OptionError → CreateError
  ring_failed : SetupError → CreateError

-- the NetRing with the capacity of its fallback channel; `crash` stands for the nil pointer that the
-- slot table would be without an option
pub data Created : Type 0 where
  failed : CreateError → Created
  crash : Created
  created : (fallback_chan : ℕ) → NetRing → Created

abbrev pub unused_cell : SendCell
unused_cell = record { finished = 0; queued = 0; err = none; buf = 0; len = 0; sent = 0 }

module _ (memory : RingHandle → Uring) (heap : ℕ → TaskCell) where
  -- the composite literal of New
  abbrev pub net_ring : RingHandle → Slots ℕ → NetRing
  net_ring handle slots = record {
    uring = memory handle;
    slots = slots;
    cells = heap;
    send_cells = λ _. unused_cell;
    ticket_tail = 0;
    readied = [];
    pooled = [];
    timer_task = false;
  }

  abbrev pub with_slots : RingHandle → (fallback_chan : ℕ) → Option (Slots ℕ) → Created
  with_slots handle fallback_chan none = crash
  with_slots handle fallback_chan (some slots) = created fallback_chan (net_ring handle slots)

  abbrev pub after_ring : Options → Attempt → Created
  after_ring options (refused e) = failed (ring_failed e)
  after_ring options (succeeded handle) = with_slots handle options.tasks_chan_buffer options.slots

  -- The ring is set up only after the options.
  abbrev pub after_options : Attempt → Applied → Created
  after_options ring (rejected s e) = failed (bad_option s e)
  after_options ring (applied options) = after_ring options ring

  pub create : (has_logger : Bool) → List Setter → (ring : Attempt) → Created
  create false setters ring = failed no_logger
  create true setters ring = after_options ring (configure setters)

-- ===== src/NetRing/Submit/Translator/Loops.antt =====
-- A turn of the fallback loop keeps the invariant, and so do the kernel and Stop.
use netring.Prelude.{ℕ, ◌+◌, ◌%◌, ◌^◌, ◌≤◌, ◌<◌, ◌≡◌, ◌≢◌, true, arith, refl}
use netring.NetRing.Submit.{Memory}
use netring.NetRing.Submit.Translator.{
  Phase, Turn, take, load_barrier, load_finished, see_room, bump, load_tail, store_tail, take_next,
  stop_inside, store_finished, leave, stay, retake, stop_after, load_ticket, store_ticket,
  stop_outside, drain, drop_async, drop_sync,
}
use netring.NetRing.Submit.Translator.Invariant.{Sums, Counts, Current}
use netring.NetRing.Submit.Translator.Goroutines.{Steady}

module _ {size : ℕ} {m : Memory} {k : Sums} (some_pend : k.commit ≤ k.pend) where
  pub Turn-Counts :
      {ph ph' : Phase} {m' : Memory}
      → Turn size m ph m' ph'
      → Current size m k ph
      → Counts size m ph k
      → Counts size m' ph' k
  Turn-Counts (take g) c v = ground arith
  Turn-Counts load_barrier c v = ground arith
  Turn-Counts load_finished c v = ground arith
  Turn-Counts (see_room g) c v = ground arith
  Turn-Counts bump c v = ground arith
  Turn-Counts load_tail c v = ground arith
  Turn-Counts store_tail c v = ground arith
  Turn-Counts (take_next g) c v = ground arith
  Turn-Counts (stop_inside g) c v = ground arith
  Turn-Counts store_finished c v = ground arith
  Turn-Counts (leave g h) c v = ground arith
  Turn-Counts (stay g) c v = ground arith
  Turn-Counts (retake g) c v = ground arith
  Turn-Counts (stop_after g) c v = ground arith
  Turn-Counts load_ticket c v = ground arith
  Turn-Counts store_ticket c v = ground arith
  Turn-Counts (stop_outside g) c v = ground arith
  Turn-Counts (drain g) c v = ground arith
  Turn-Counts (drop_async g) c v = ground arith
  Turn-Counts (drop_sync g) c v = ground arith

  pub Turn-Current :
      {ph ph' : Phase} {m' : Memory}
      → Turn size m ph m' ph'
      → Current size m k ph
      → Counts size m ph k
      → Current size m' k ph'
  Turn-Current (take g) c v = ground arith
  Turn-Current load_barrier c v = ground arith
  Turn-Current load_finished c v = ground arith
  Turn-Current (see_room g) c v = ground arith
  Turn-Current bump c v = ground arith
  Turn-Current load_tail c v = ground arith
  Turn-Current store_tail c v = ground arith
  Turn-Current (take_next g) c v = ground arith
  Turn-Current (stop_inside g) c v = g
  Turn-Current store_finished c v = ground arith
  Turn-Current (leave g h) c v = tt
  Turn-Current (stay g) c v = c.0.on
  Turn-Current (retake g) c v = c
  Turn-Current (stop_after g) c v = g
  Turn-Current load_ticket c v = refl
  Turn-Current store_ticket c v = tt
  Turn-Current (stop_outside g) c v = g
  Turn-Current (drain g) c v = c
  Turn-Current (drop_async g) c v = c
  Turn-Current (drop_sync g) c v = c

module _ {size : ℕ} {m : Memory} {k : Sums} where
  -- The loop stores a tail only while no goroutine has the ticket.
  pub Turn-tail :
      {ph ph' : Phase} {m' : Memory}
      → Turn size m ph m' ph'
      → Current size m k ph
      → Counts size m ph k
      → (m.sq_tail ≤ m'.sq_tail)
        × (m'.sq_head ≡ m.sq_head)
        × (m'.total ≡ m.total)
        × (0 < k.held → m'.sq_tail ≡ m.sq_tail)
  Turn-tail (take g) c v = ground arith
  Turn-tail load_barrier c v = ground arith
  Turn-tail load_finished c v = ground arith
  Turn-tail (see_room g) c v = ground arith
  Turn-tail bump c v = ground arith
  Turn-tail load_tail c v = ground arith
  Turn-tail store_tail c v = ground arith
  Turn-tail (take_next g) c v = ground arith
  Turn-tail (stop_inside g) c v = ground arith
  Turn-tail store_finished c v = ground arith
  Turn-tail (leave g h) c v = ground arith
  Turn-tail (stay g) c v = ground arith
  Turn-tail (retake g) c v = ground arith
  Turn-tail (stop_after g) c v = ground arith
  Turn-tail load_ticket c v = ground arith
  Turn-tail store_ticket c v = ground arith
  Turn-tail (stop_outside g) c v = ground arith
  Turn-tail (drain g) c v = ground arith
  Turn-tail (drop_async g) c v = ground arith
  Turn-tail (drop_sync g) c v = ground arith

-- The kernel's step, and the close of `stop`.
pub kernel-Counts :
    {size : ℕ} {m : Memory} {ph : Phase} {k : Sums}
    → m.sq_head ≢ m.sq_tail
    → Counts size m ph k
    → Counts size (record m { sq_head = (m.sq_head + 1) % 2 ^ 32 }) ph k
      × Steady m (record m { sq_head = (m.sq_head + 1) % 2 ^ 32 }) ph k k
kernel-Counts more v = (ground arith, ground arith)

pub stop-Counts :
    {size : ℕ} {m : Memory} {ph : Phase} {k : Sums}
    → Counts size m ph k
    → Counts size (record m { stopped = true }) ph k × Steady m (record m { stopped = true }) ph k k
stop-Counts v = (ground arith, ground arith)

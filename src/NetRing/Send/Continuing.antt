-- ===== src/NetRing/Send/Continuing.antt =====
-- Partial sends and their continuations.
use netring.Prelude.{ℕ, ◌+◌, ◌-◌, ◌^◌, ◌<◌, ◌≤◌, ◌≡◌, none, arith, ◌==◌, if◌then◌else◌, pos}
use netring.NetRing.Cells.{SendCell}
use netring.NetRing.Poller.{record_send}
use netring.NetRing.Send.{free, busy, partial, look, send_task, compensate, queue_send}

-- a send cell between two sends: no error, every send finished, and the counters far from their wrap
pub record Idle (s : SendCell) : Type 0 where
  pub no_error : s.err ≡ none
  pub even : s.finished ≡ s.queued
  pub small : s.queued < 2 ^ 32

module _ (p buf len : ℕ) (s : SendCell) (idle : Idle s) (short : len < 2 ^ 32) where
  abbrev queued_cell : SendCell
  queued_cell = (queue_send p buf len s).1

  -- the send cell when the kernel has sent `n` bytes of the first send
  abbrev after_first : ℕ → SendCell
  after_first n = record_send (pos n) queued_cell

  -- Until its completion a send keeps the descriptor busy. A completion with every byte frees it; one
  -- with fewer bytes makes the next Send continue it, with a task for exactly the bytes not sent.
  pub look-first :
      (n : ℕ)
      → n ≤ len
      → (look queued_cell ≡ busy)
        × (look (after_first n) ≡ (if n == len then free else partial))
        × ((compensate p (after_first n)).0 ≡ send_task p (buf + n) (len - n))
  unfolding look queue_send compensate record_send
  look-first n h = (
    ground (arith, idle.no_error, idle.even, idle.small),
    ground (arith, idle.no_error, idle.even, idle.small),
    ground (arith, idle.no_error, idle.even, idle.small),
  )

  -- When the continuation of a send is partial as well, after `m` bytes, the next task does not start at
  -- the first byte not sent, `buf + n + m`, but as many bytes past it as the first completion left.
  pub compensate-again :
      (n m : ℕ)
      → n < len
      → n + m < len
      → (compensate p (record_send (pos m) (compensate p (after_first n)).1)).0
        ≡ send_task p (buf + n + m + (len - n)) (len - n - m)
  unfolding look queue_send compensate record_send
  compensate-again n m h k = ground (arith, idle.no_error, idle.even, idle.small)

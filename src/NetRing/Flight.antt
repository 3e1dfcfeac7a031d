-- ===== src/NetRing/Flight.antt =====
-- The tasks between `dispatch` (method_submit.go), the kernel and the poller (method_poller.go): each
-- step is a whole dispatch, a whole round of the poller, or a move of the kernel. The wakeup call does
-- not fail, and the poller does not go on after WaitEvents with a queue that is still empty.
pub mod Keys
pub mod Issued
pub mod Moved
pub mod Landed
pub mod Runs
mod Tests
use netring.Prelude.{
  ℕ, ◌+◌, ◌<◌, ◌≤◌, ◌≡◌, ◌≢◌, true, none, some, List, [], ◌∷◌, ◌++◌, ℤ, update, lookup, insert,
  delete, entries,
}
use netring.IoUring.Entries.{SqEntry, CqEntry}
use netring.IoUring.Queues.{sq_count, cq_count, submitted, completed, consume, post}
use netring.NetRing.Cells.{NetRing, TaskCell, RingTask, Opcode, send, arm, ok, send_cells_count}
use netring.NetRing.Dispatch.{dispatch}
use netring.NetRing.Dispatch.Submitting.{is_submitted}
use netring.NetRing.Poller.{WaitResult, poll_round}

-- The shared memory, and the entries that the kernel has taken and not completed. `flights` is no word
-- of the program: it has, for each entry that dispatch queued and the poller has not seen completed, the
-- entry's user data and the cell of its task.
pub record System : Type 0 where
  pub nr : NetRing
  pub taken : List SqEntry
  pub flights : List (ℕ × ℕ)

-- what `taskCell` of the operation does to the cell that the pool gives
abbrev pub armed : (p g fd : ℕ) → RingTask → NetRing → NetRing
armed p g fd task nr = record nr { cells = update nr.cells p (arm g task.opcode fd) }

-- `words` is the number of words of the slot table.
pub data Event (words : ℕ) (s : System) : System → Type 0 where
  issue :
      (task : RingTask) (p g fd fuel dummy_addr dummy_len : ℕ) (e : SqEntry) {nr : NetRing}
      → is_submitted task.opcode ≡ true
      → task.ctx ≡ some p
      → ((k q : ℕ) → lookup k s.flights ≡ some q → p ≢ q)
      → (task.opcode ≡ send → fd < send_cells_count)
      → sq_count s.nr.uring < s.nr.uring.sq_entries
      → entries s.nr.slots.fallback ≤ s.nr.slots.fallback_mask
      → words < fuel
      → entries s.nr.slots.fallback < fuel
      → dispatch dummy_addr dummy_len fuel none task (armed p g fd task s.nr) ≡ ok nr
      → submitted nr.uring ≡ submitted s.nr.uring ++ e ∷ []
      → Event words s
          (record { nr = nr; taken = s.taken; flights = insert e.user_data p s.flights })
  take :
      {e : SqEntry} {rest : List SqEntry}
      → submitted s.nr.uring ≡ e ∷ rest
      → Event words s
          (record s { nr = record s.nr { uring = consume s.nr.uring }; taken = s.taken ++ e ∷ [] })
  complete :
      (e : SqEntry) (before after : List SqEntry) (res : ℤ) (flags : ℕ)
      → s.taken ≡ before ++ e ∷ after
      → cq_count s.nr.uring < s.nr.uring.cq_length_mask + 1
      → Event words s (record s {
        nr = record s.nr {
          uring = post (record { user_data = e.user_data; res = res; flags = flags }) s.nr.uring;
        };
        taken = before ++ after;
      })
  poll :
      {e : CqEntry} {rest : List CqEntry} {nr : NetRing} {next : ℕ} (idle_after spin_count : ℕ)
      (waited : WaitResult)
      → completed s.nr.uring ≡ e ∷ rest
      → poll_round idle_after spin_count waited s.nr ≡ ok (nr, next)
      → Event words s (record { nr = nr; taken = s.taken; flights = delete e.user_data s.flights })
  -- a goroutine's store to a cell, which leaves its operation and its descriptor
  store :
      (p : ℕ) (cell : TaskCell)
      → cell.op_code ≡ (s.nr.cells p).op_code
      → cell.fd ≡ (s.nr.cells p).fd
      → Event words s (record s { nr = record s.nr { cells = update s.nr.cells p cell } })

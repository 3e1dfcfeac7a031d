-- ===== src/NetRing/Dispatch.antt =====
-- method_submit.go: `dispatch` and `abortIssuer`. Logging is left out. `fuel` is that of the slot
-- table's Add, and `wakeup` what the call that wakes the kernel's poller gives, should Push make it.
pub mod Submitting
use netring.Prelude.{
  ℕ, ◌%◌, ◌^◌, Bool, true, false, Option, none, some, List, ◌∷◌, if◌then◌else◌, update,
}
use netring.TaskSlots.{Slots, add, get}
use netring.IoUring.Entries.{SqEntry, PushError}
use netring.IoUring.Queues.{Uring, push}
use netring.IoUring.Expect.{
  expect_accept, expect_connect, expect_recv, expect_read, expect_send, expect_close,
}
use netring.NetRing.Cells.{
  NetRing, TaskCell, RingTask, Opcode, invalid, release_buffer, timer, accept, close, connect, recv,
  send, read, other, NetError, push_error, Outcome, ok, panic, out_of_fuel,
}
use netring.NetRing.Handshake.{complete_cas}

-- `CompareAndSwap(taskStateInCore, taskStateDone)` on the cell at `p`, and goready if it fails
unfoldable pub complete_cell : ℕ → NetRing → NetRing
unfolding complete_cas
complete_cell p nr =
    let cell = nr.cells p in
    let (s, won) = complete_cas cell.task_state in
    record nr {
      cells = update nr.cells p (record cell { task_state = s });
      readied = if won then nr.readied else cell.g ∷ nr.readied;
    }

-- `abortIssuer`
pub abort_issuer : (slot_idx : ℕ) → (need_wake : Bool) → NetError → NetRing → NetRing
abort_issuer slot_idx need_wake e nr =
    let (p, _) = get 0 slot_idx nr.slots in
    let failed = record nr { cells = update nr.cells p (record (nr.cells p) { err = some e }) } in
    if need_wake then complete_cell p failed else failed

-- what `dispatch` does with the error of an Expect call
after_expect : (slot_idx : ℕ) → (need_wake : Bool) → Option PushError → NetRing → Outcome NetRing
unfolding abort_issuer complete_cell
after_expect slot_idx need_wake none nr = ok nr
after_expect slot_idx need_wake (some e) nr = ok (abort_issuer slot_idx need_wake (push_error e) nr)

-- an Expect call, for the cell at `cell` and the slot that Add gave
submit_slot :
    (need_wake : Bool)
    → (expect : (fd slot_idx : ℕ) → Uring → Uring × Option PushError) → (cell : ℕ) → NetRing
    → Option (ℕ × Slots ℕ)
    → Outcome NetRing
submit_slot need_wake expect cell nr none = out_of_fuel
submit_slot need_wake expect cell nr (some (slot_idx, slots)) =
    let (uring, e) = expect (nr.cells cell).fd slot_idx nr.uring in
    after_expect slot_idx need_wake e (record nr { slots = slots; uring = uring })

-- The body that the cases of `dispatch` share: a slot for the cell, then an Expect call for the cell's
-- descriptor and the slot. A task without a cell is a nil pointer.
submit_with :
    ℕ
    → (need_wake : Bool) → (expect : (fd slot_idx : ℕ) → Uring → Uring × Option PushError)
    → (ctx : Option ℕ) → NetRing
    → Outcome NetRing
unfolding submit_slot
submit_with fuel need_wake expect none nr = panic
submit_with fuel need_wake expect (some cell) nr =
    submit_slot need_wake expect cell nr (add fuel cell nr.slots)

-- `nr.ticketTail.Store(nr.r.SQTail)`
pub resync_ticket : NetRing → NetRing
resync_ticket nr = record nr { ticket_tail = nr.uring.sq_tail }

-- `dispatch`; `dummy_addr` and `dummy_len` are the addresses that ExpectAccept passes.
pub dispatch :
    (dummy_addr dummy_len fuel : ℕ) → (wakeup : Option ℕ) → RingTask → NetRing → Outcome NetRing
dispatch dummy_addr dummy_len fuel wakeup task nr = elim task.opcode [
  | accept ↦
      submit_with fuel true (λ fd idx. expect_accept dummy_addr dummy_len (fd % 2 ^ 32) idx wakeup)
        task.ctx nr
  | connect ↦
      submit_with fuel true
        (λ fd idx. expect_connect fd task.payload (task.addr % 2 ^ 32) idx wakeup) task.ctx nr
  | recv ↦
      submit_with fuel true (λ fd idx. expect_recv (fd % 2 ^ 32) task.bgid task.len idx wakeup)
        task.ctx nr
  | read ↦
      submit_with fuel true (λ fd idx. expect_read (fd % 2 ^ 32) task.bgid task.len idx wakeup)
        task.ctx nr
  | send ↦
      submit_with fuel false (λ fd idx. expect_send (fd % 2 ^ 32) task.payload task.len idx wakeup)
        task.ctx nr
  | close ↦ submit_with fuel true (λ fd idx. expect_close (fd % 2 ^ 32) idx wakeup) task.ctx nr
  | release_buffer ↦ panic
  | timer ↦ ok (resync_ticket nr)
  | invalid ↦ ok (resync_ticket nr)
  | other _ ↦ ok (resync_ticket nr)
]

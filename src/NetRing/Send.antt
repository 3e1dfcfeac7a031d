-- ===== src/NetRing/Send.antt =====
-- method_send.go: Send, and the wait for the descriptor's previous send. A pointer is its address;
-- `p` is the cell that the pool gives, and `g` the calling goroutine.
pub mod Continuing
pub mod Waiting
use netring.Prelude.{
  ℕ, ◌+◌, ◌-◌, ◌%◌, ◌^◌, Bool, true, false, ◌||◌, Option, none, some, ◌==◌, ltb, if◌then◌else◌, ℤ,
  is_negative, pos_part,
}
use netring.NetRing.Cells.{
  NetError, invalid_descriptor, previous_send, TaskCell, arm, RingTask, SendCell, send,
  send_cells_count,
}

-- One look at the send cell in `previousSendWait`: it returns nil, returns the error, yields and looks
-- again, or sends the rest of a partial send.
pub data Look : Type 0 where
  free : Look
  broken : NetError → Look
  busy : Look
  partial : Look

pub look : SendCell → Look
look s = if s.queued == 0 then free else elim s.err [
  | some e ↦ broken e
  | none ↦ if s.finished == s.queued then (if s.sent == s.len then free else partial) else busy
]

pub send_task : (p buf len : ℕ) → RingTask
send_task p buf len = record {
  opcode = send;
  addr = 0;
  len = len % 2 ^ 32;
  bgid = 0;
  offset = 0;
  ctx = some p;
  payload = buf;
}

-- the continuation of a partial send: the task, and the send cell
pub compensate : (p : ℕ) → SendCell → RingTask × SendCell
unfolding send_task
compensate p s = (
  send_task p (s.buf + s.sent) (s.len - s.sent),
  record s {
    queued = (s.queued + 1) % 2 ^ 64;
    buf = s.buf + s.len;
    len = s.len - s.sent;
    sent = 0;
  },
)

-- `Send` once the previous send is through
pub queue_send : (p buf len : ℕ) → SendCell → RingTask × SendCell
unfolding send_task
queue_send p buf len s = (
  send_task p buf len,
  record s { queued = (s.queued + 1) % 2 ^ 64; buf = buf; len = len; sent = 0 },
)

-- What `Send` comes to: an error, nothing to do, or a task with its armed cell and the new send cell.
-- `waited` is what previousSendWait returned.
pub data SendStart : Type 0 where
  refused : NetError → SendStart
  nothing : SendStart
  submits : TaskCell → RingTask × SendCell → SendStart

pub prepare_send : (g p buf len : ℕ) → (fd : ℤ) → (waited : Option NetError) → SendCell → SendStart
unfolding queue_send
prepare_send g p buf len fd waited s =
    if is_negative fd || ltb 65535 (pos_part fd)
    then refused invalid_descriptor
    else if len == 0
    then nothing
    else elim waited [
      | some e ↦ refused (previous_send e)
      | none ↦ submits (arm g send (pos_part fd)) (queue_send p buf len s)
    ]

-- ===== src/NetRing/Cells.antt =====
-- netring_private.go, netring_private_send_cell.go and netring.go: the data of a NetRing.
use netring.Prelude.{ℕ, ◌-◌, ◌^◌, Bool, Option, none, List, ℤ, pos}
use netring.TaskSlots.{Slots}
use netring.IoUring.Entries.{PushError}
use netring.IoUring.Queues.{Uring}
use netring.IoUring.Buffers.{PbufError}

-- `opcodeType`; `other` is a number that no constant has.
pub data Opcode : Type 0 where
  invalid release_buffer timer accept close connect recv send read : Opcode
  other : ℕ → Opcode

-- the values of `taskCell.taskState`
pub data TaskState : Type 0 where
  in_core done parked : TaskState

-- Go errors: a raw errno, an error of Push, or one of the messages of the operations.
pub data NetError : Type 0 where
  errno : ℕ → NetError
  push_error : PushError → NetError
  invalid_descriptor : NetError
  invalid_size_class : NetError
  not_provisioned : NetError
  already_provisioned : NetError
  no_sockaddr : NetError
  unsupported_sockaddr : NetError
  submit_failed : NetError
  no_buffer_flag : NetError
  previous_send : NetError → NetError
  buffer_ring : PbufError → NetError

-- `taskCell`; `g` is the goroutine that armed it.
pub record TaskCell : Type 0 where
  pub task_state : TaskState
  pub g : ℕ
  pub res : ℤ
  pub flags : ℕ
  pub err : Option NetError
  pub op_code : Opcode
  pub fd : ℕ

-- `NetRing.taskCell`: what it stores into the cell that the pool gives
abbrev pub arm : (g : ℕ) → Opcode → (fd : ℕ) → TaskCell
arm g op_code fd = record {
  task_state = in_core;
  g = g;
  res = pos 0;
  flags = 0;
  err = none;
  op_code = op_code;
  fd = fd;
}

-- `ringTask`; `ctx` is the address of the cell, `none` for nil, and `payload` a pointer, 0 for nil.
pub record RingTask : Type 0 where
  pub opcode : Opcode
  pub addr : ℕ
  pub len : ℕ
  pub bgid : ℕ
  pub offset : ℕ
  pub ctx : Option ℕ
  pub payload : ℕ

-- `sendCell`; `buf` is a pointer.
pub record SendCell : Type 0 where
  pub finished : ℕ
  pub queued : ℕ
  pub err : Option NetError
  pub buf : ℕ
  pub len : ℕ
  pub sent : ℕ

abbrev pub periodical_timer_task_id : ℕ
periodical_timer_task_id = 2 ^ 64 - 1 - (2 ^ 32 - 1)

abbrev pub no_waiter_task_id : ℕ
no_waiter_task_id = 2 ^ 64 - 1

abbrev pub send_cells_count : ℕ
send_cells_count = 65536

-- The shared memory of a NetRing. `cells` is the heap of task cells by address; `readied` lists the
-- goroutines that goready woke, `pooled` the cells that were put back into the pool, last first.
pub record NetRing : Type 0 where
  pub uring : Uring
  pub slots : Slots ℕ
  pub cells : ℕ → TaskCell
  pub send_cells : ℕ → SendCell
  pub ticket_tail : ℕ
  pub readied : List ℕ
  pub pooled : List ℕ
  pub timer_task : Bool

-- How a step of the code ends: `panic` is a Go panic, `out_of_fuel` the end of the model's fuel.
pub data Outcome {ℓ} (A : Type ℓ) : Type ℓ where
  ok : A → Outcome A
  panic out_of_fuel : Outcome A

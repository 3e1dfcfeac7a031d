-- ===== src/IoUring/Entries.antt =====
-- internal/iouring/q_entries.go, consts.go and errors.go.
use netring.Prelude.{ℕ, ◌^◌, ℤ, pos}

-- `SQEntry`, less the fields that no code writes (Priority, Personality, SpliceFdIn, Pad2). `fd` is the
-- bit pattern of an int32.
pub record SqEntry : Type 0 where
  pub opcode : ℕ
  pub flags : ℕ
  pub fd : ℕ
  pub off : ℕ
  pub addr : ℕ
  pub len : ℕ
  pub op_flags : ℕ
  pub user_data : ℕ
  pub buf_index : ℕ

-- `var sqe SQEntry`
abbrev pub zero_sqe : SqEntry
zero_sqe = record {
  opcode = 0;
  flags = 0;
  fd = 0;
  off = 0;
  addr = 0;
  len = 0;
  op_flags = 0;
  user_data = 0;
  buf_index = 0;
}

-- `CQEntry`
pub record CqEntry : Type 0 where
  pub user_data : ℕ
  pub res : ℤ
  pub flags : ℕ

-- `CQEntry{}`
abbrev pub zero_cqe : CqEntry
zero_cqe = record { user_data = 0; res = pos 0; flags = 0 }

-- What Push returns: `sq_full` is ErrSQFull, and a wakeup error carries the errno.
pub data PushError : Type 0 where
  sq_full : PushError
  wakeup_failed : ℕ → PushError

abbrev pub op_accept : ℕ
op_accept = 13

abbrev pub op_connect : ℕ
op_connect = 16

abbrev pub op_close : ℕ
op_close = 19

abbrev pub op_read : ℕ
op_read = 22

abbrev pub op_send : ℕ
op_send = 26

abbrev pub op_recv : ℕ
op_recv = 27

abbrev pub sqe_buffer_select : ℕ
sqe_buffer_select = 2 ^ 5

abbrev pub sqe_async : ℕ
sqe_async = 2 ^ 4

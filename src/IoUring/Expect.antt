-- ===== src/IoUring/Expect.antt =====
-- internal/iouring/method_expect_*.go: the builders of submission entries. A pointer is its address.
use netring.Prelude.{ℕ, ◌%◌, ◌^◌, Option}
use netring.IoUring.Entries.{
  SqEntry, zero_sqe, PushError, op_accept, op_connect, op_close, op_read, op_send, op_recv,
  sqe_buffer_select, sqe_async,
}
use netring.IoUring.Queues.{Uring, push}

-- unix.SOCK_CLOEXEC
abbrev pub sock_cloexec : ℕ
sock_cloexec = 2 ^ 19

-- `dummy_addr` and `dummy_len` are the addresses of the package's two dummies.
abbrev pub accept_sqe : (dummy_addr dummy_len listen_fd slot_idx : ℕ) → SqEntry
accept_sqe dummy_addr dummy_len listen_fd slot_idx = record zero_sqe {
  opcode = op_accept;
  fd = listen_fd;
  addr = dummy_addr;
  off = dummy_len;
  len = 0;
  op_flags = sock_cloexec;
  user_data = slot_idx;
}

abbrev pub close_sqe : (fd slot_idx : ℕ) → SqEntry
close_sqe fd slot_idx = record zero_sqe { opcode = op_close; fd = fd; user_data = slot_idx }

-- `int32(fd)` keeps the low 32 bits.
abbrev pub connect_sqe : (fd sockaddr socklen user_data : ℕ) → SqEntry
connect_sqe fd sockaddr socklen user_data = record zero_sqe {
  opcode = op_connect;
  fd = fd % 2 ^ 32;
  addr = sockaddr;
  off = socklen;
  user_data = user_data;
}

abbrev pub read_sqe : (fd bgid max_len slot_idx : ℕ) → SqEntry
read_sqe fd bgid max_len slot_idx = record zero_sqe {
  opcode = op_read;
  fd = fd;
  flags = sqe_buffer_select;
  buf_index = bgid;
  len = max_len;
  user_data = slot_idx;
}

abbrev pub recv_sqe : (fd bgid max_len slot_idx : ℕ) → SqEntry
recv_sqe fd bgid max_len slot_idx = record zero_sqe {
  opcode = op_recv;
  fd = fd;
  flags = sqe_buffer_select;
  buf_index = bgid;
  len = max_len;
  user_data = slot_idx;
}

abbrev pub send_sqe : (fd buf_ptr buf_len slot_idx : ℕ) → SqEntry
send_sqe fd buf_ptr buf_len slot_idx = record zero_sqe {
  opcode = op_send;
  fd = fd;
  addr = buf_ptr;
  len = buf_len;
  user_data = slot_idx;
}

abbrev pub send_async_sqe : (fd buf_ptr buf_len slot_idx : ℕ) → SqEntry
send_async_sqe fd buf_ptr buf_len slot_idx = record (send_sqe fd buf_ptr buf_len slot_idx) {
  flags = sqe_async;
}

abbrev pub Pushed : Type 0
Pushed = Uring × Option PushError

abbrev pub expect_accept : (dummy_addr dummy_len listen_fd slot_idx : ℕ) → Option ℕ → Uring → Pushed
expect_accept dummy_addr dummy_len listen_fd slot_idx =
    push (accept_sqe dummy_addr dummy_len listen_fd slot_idx)

abbrev pub expect_close : (fd slot_idx : ℕ) → Option ℕ → Uring → Pushed
expect_close fd slot_idx = push (close_sqe fd slot_idx)

abbrev pub expect_connect : (fd sockaddr socklen user_data : ℕ) → Option ℕ → Uring → Pushed
expect_connect fd sockaddr socklen user_data = push (connect_sqe fd sockaddr socklen user_data)

abbrev pub expect_read : (fd bgid max_len slot_idx : ℕ) → Option ℕ → Uring → Pushed
expect_read fd bgid max_len slot_idx = push (read_sqe fd bgid max_len slot_idx)

abbrev pub expect_recv : (fd bgid max_len slot_idx : ℕ) → Option ℕ → Uring → Pushed
expect_recv fd bgid max_len slot_idx = push (recv_sqe fd bgid max_len slot_idx)

abbrev pub expect_send : (fd buf_ptr buf_len slot_idx : ℕ) → Option ℕ → Uring → Pushed
expect_send fd buf_ptr buf_len slot_idx = push (send_sqe fd buf_ptr buf_len slot_idx)

abbrev pub expect_send_async : (fd buf_ptr buf_len slot_idx : ℕ) → Option ℕ → Uring → Pushed
expect_send_async fd buf_ptr buf_len slot_idx = push (send_async_sqe fd buf_ptr buf_len slot_idx)

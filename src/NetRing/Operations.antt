-- ===== src/NetRing/Operations.antt =====
-- method_recv.go, method_read.go, method_accept.go, method_close.go and method_connect.go: what each
-- operation does before it submits and after it wakes. `p` is the address of the cell that the pool
-- gives, and `g` the calling goroutine. Panics of a slice's bounds are `crash`. The cell's way back to
-- the pool is left out.
pub mod Views
use netring.Prelude.{
  ℕ, ◌+◌, ◌*◌, ◌/◌, ◌%◌, ◌^◌, Bool, true, false, Option, none, some, ◌==◌, leb, ltb, if◌then◌else◌,
  update, ℤ, is_negative, pos_part, neg_part,
}
use netring.IoUring.Buffers.{
  BufferRing, PbufError, PbufResult, ok, err, panic, Syscall, buffer, replenish_one, release_view,
}
use netring.NetRing.Cells.{
  NetError, errno, invalid_descriptor, invalid_size_class, not_provisioned, no_sockaddr,
  unsupported_sockaddr, no_buffer_flag, TaskCell, arm, RingTask, Opcode, accept, close, connect,
  recv, read,
}
use netring.NetRing.SizeClass.{size, Rings}

-- Up to the park: an error, or the cell that is armed at `p` and the task that is submitted.
pub data Prepared : Type 0 where
  refused : NetError → Prepared
  submits : TaskCell → RingTask → Prepared

-- the tasks of Accept and Close, and those of Recv and Read
abbrev pub plain_task : Opcode → (p : ℕ) → RingTask
plain_task opcode p = record {
  opcode = opcode;
  addr = 0;
  len = 0;
  bgid = 0;
  offset = 0;
  ctx = some p;
  payload = 0;
}

-- `Accept` and `Close` up to the park
pub prepare_plain : Opcode → (g p : ℕ) → (fd : ℤ) → Prepared
prepare_plain opcode g p fd =
    if is_negative fd
    then refused invalid_descriptor
    else submits (arm g opcode (pos_part fd)) (plain_task opcode p)

pub prepare_accept : (g p : ℕ) → (listen_fd : ℤ) → Prepared
unfolding prepare_plain
prepare_accept g p listen_fd = prepare_plain accept g p listen_fd

pub prepare_close : (g p : ℕ) → (fd : ℤ) → Prepared
unfolding prepare_plain
prepare_close g p fd = prepare_plain close g p fd

-- the checks that `Recv` and `Read` share; `len` is the task's length
pub prepare_view : Opcode → (len g p : ℕ) → (fd : ℤ) → (size_class : ℕ) → Rings → Prepared
prepare_view opcode len g p fd size_class pbrs =
    if is_negative fd
    then refused invalid_descriptor
    else if size size_class == 0
    then refused invalid_size_class
    else elim (pbrs size_class) [
      | none ↦ refused not_provisioned
      | some _ ↦
          submits (arm g opcode (pos_part fd))
            (record (plain_task opcode p) { len = len; bgid = size_class % 2 ^ 16 })
    ]

pub prepare_recv : (g p : ℕ) → (fd : ℤ) → (size_class : ℕ) → Rings → Prepared
unfolding prepare_view
prepare_recv g p fd size_class pbrs = prepare_view recv (size size_class) g p fd size_class pbrs

pub prepare_read : (g p : ℕ) → (fd : ℤ) → (size_class : ℕ) → Rings → Prepared
unfolding prepare_view
prepare_read g p fd size_class pbrs = prepare_view read 0 g p fd size_class pbrs

-- unix.Sockaddr: nil, an IPv4 address with its port, or another type
pub data Sockaddr : Type 0 where
  nil : Sockaddr
  inet4 : (port addr : ℕ) → Sockaddr
  unsupported : Sockaddr

-- `raw.Port`, of a port below 2 ^ 16: the shifted halves have no bit in common.
pub raw_port : ℕ → ℕ
raw_port port = (port / 2 ^ 8 + port * 2 ^ 8 % 2 ^ 16) % 2 ^ 16

-- `Connect` up to the park. `raw_addr` is the address of the marshalled sockaddr, of 16 bytes.
pub prepare_connect : (g p raw_addr : ℕ) → (fd : ℤ) → Sockaddr → Prepared
prepare_connect g p raw_addr fd sa =
    if is_negative fd then refused invalid_descriptor else elim sa [
      | nil ↦ refused no_sockaddr
      | unsupported ↦ refused unsupported_sockaddr
      | inet4 port addr ↦
          submits (arm g connect (pos_part fd))
            (record (plain_task connect p) { addr = 16; payload = raw_addr })
    ]

-- `Connect` and `Close` after the park
pub finish_status : TaskCell → Option NetError
finish_status cell = if is_negative cell.res then some (errno (neg_part cell.res)) else cell.err

pub finish_connect : TaskCell → Option NetError
unfolding finish_status
finish_connect cell = finish_status cell

-- What `Accept` returns after the park: the client's descriptor, or an error.
pub data Accepted : Type 0 where
  client : ℤ → Accepted
  failure : NetError → Accepted

pub finish_accept : TaskCell → Accepted
unfolding finish_status
finish_accept cell = elim (finish_status cell) [ some e ↦ failure e | none ↦ client cell.res ]

-- What `Recv` and `Read` return: a view by its address and length, the empty view, or an error.
pub data Received : Type 0 where
  view : (ptr len : ℕ) → Received
  eof : Received
  failed : NetError → Received
  crash : Received

-- `flags & CQEFBuffer != 0`, and the buffer id in the flags
abbrev pub has_buffer : ℕ → Bool
has_buffer flags = flags % 2 == 1

abbrev pub buffer_id : ℕ → ℕ
buffer_id flags = flags / 2 ^ 16 % 2 ^ 16

-- `view[:res]`
reslice : (len : ℕ) → PbufResult (ℕ × ℕ) → Received
reslice len (ok (ptr, room)) = if leb len room then view ptr len else crash
reslice len (err _) = crash
reslice len panic = crash

-- `pbr.Buffer(bid)`, and the bytes received
view_of : Option BufferRing → (bid len : ℕ) → Received
unfolding reslice
view_of none bid len = crash
view_of (some pbr) bid len = reslice len (buffer bid pbr)

-- a completion without an error: the byte count, the flags, and the class's ring
received : (len flags : ℕ) → Option BufferRing → Received
unfolding view_of
received len flags pbr =
    if len == 0
    then eof
    else if has_buffer flags
    then view_of pbr (buffer_id flags) len
    else failed no_buffer_flag

received_or : Option NetError → (len flags : ℕ) → Option BufferRing → Received
unfolding received
received_or (some e) len flags pbr = failed e
received_or none len flags pbr = received len flags pbr

-- `Recv` after the park
pub finish_recv : (size_class : ℕ) → TaskCell → Rings → Received
unfolding finish_status received_or
finish_recv size_class cell pbrs =
    received_or (finish_status cell) (pos_part cell.res) cell.flags (pbrs size_class)

-- `ReplenishOne` at the end of the stream; its error is only logged. `head` is what the call for the
-- ring's head gives.
replenished : (size_class : ℕ) → Rings → PbufResult BufferRing → Received × Rings
replenished size_class pbrs (ok q) = (eof, update pbrs size_class (some q))
replenished size_class pbrs (err _) = (eof, pbrs)
replenished size_class pbrs panic = (crash, pbrs)

replenish_from :
    (size_class : ℕ) → (head : Syscall ℕ) → Rings → Option BufferRing → Received × Rings
unfolding replenished
replenish_from size_class head pbrs none = (crash, pbrs)
replenish_from size_class head pbrs (some pbr) =
    replenished size_class pbrs (replenish_one head pbr)

-- `Read` after the park: as Recv, but the end of the stream gives a buffer back to the ring.
read_from : (size_class : ℕ) → (head : Syscall ℕ) → Rings → Received → Received × Rings
unfolding replenish_from
read_from size_class head pbrs eof = replenish_from size_class head pbrs (pbrs size_class)
read_from size_class head pbrs (view ptr len) = (view ptr len, pbrs)
read_from size_class head pbrs (failed e) = (failed e, pbrs)
read_from size_class head pbrs crash = (crash, pbrs)

pub finish_read : (size_class : ℕ) → TaskCell → (head : Syscall ℕ) → Rings → Received × Rings
unfolding read_from
finish_read size_class cell head pbrs =
    read_from size_class head pbrs (finish_recv size_class cell pbrs)

-- How the release of a view ends: the rings after it, or a panic.
pub data Released : Type 0 where
  released : Rings → Released
  crashed : Released

-- the ring after ReleaseView; its error is only logged
keep_ring : (bgid : ℕ) → Rings → PbufResult BufferRing → Released
keep_ring bgid pbrs (ok q) = released (update pbrs bgid (some q))
keep_ring bgid pbrs (err _) = released pbrs
keep_ring bgid pbrs panic = crashed

release_from : (bgid ptr : ℕ) → Rings → Option BufferRing → Released
unfolding keep_ring
release_from bgid ptr pbrs none = crashed
release_from bgid ptr pbrs (some pbr) = keep_ring bgid pbrs (release_view ptr pbr)

-- `submit` of a ReleaseBuffer task, for the view that starts at `ptr`
submit_release : (bgid ptr : ℕ) → Rings → Released
unfolding release_from
submit_release bgid ptr pbrs =
    if ltb bgid 5 then release_from bgid ptr pbrs (pbrs bgid) else crashed

-- `ReleaseBuffer`, of the view of `len` bytes at `ptr`
pub give_back : (size_class ptr len : ℕ) → Rings → Released
unfolding submit_release
give_back size_class ptr len pbrs =
    if len == 0 then released pbrs else submit_release (size_class % 2 ^ 16) ptr pbrs

-- ===== src/IoUring/Buffers.antt =====
-- internal/iouring/pbuf.go: the rings of provided buffers. What mmap, munmap, madvise and
-- io_uring_register return are arguments.
pub mod Publish
pub mod Register
pub mod Views
pub mod TailStore
use netring.Prelude.{
  ℕ, zero, suc, ◌+◌, ◌-◌, ◌*◌, ◌/◌, ◌%◌, ◌^◌, Bool, true, false, ◌||◌, Option, none, some, ◌==◌,
  ltb, leb, if◌then◌else◌, update, ones_count,
}

-- `bufEntry`; its Resv field is the tail in entry 0, and is not written elsewhere.
pub record BufEntry : Type 0 where
  pub addr : ℕ
  pub len : ℕ
  pub bid : ℕ

-- `ProvidedBufferRing`, with the memory of its two mappings: `entries` is the descriptor array, and
-- `ring_tail` the 16-bit tail. `ring_ptr` and `base_ptr` are the mappings' addresses.
pub record BufferRing : Type 0 where
  pub bgid : ℕ
  pub capacity : ℕ
  pub buf_size : ℕ
  pub mask : ℕ
  pub base_ptr : ℕ
  pub buf_pointers : ℕ → ℕ
  pub ring_ptr : ℕ
  pub ring_length : ℕ
  pub entries : ℕ → BufEntry
  pub ring_tail : ℕ
  pub closed : Bool

pub data PbufError : Type 0 where
  capacity_not_power_of_two : ℕ → PbufError
  capacity_exceeds : ℕ → PbufError
  buffer_size_zero : PbufError
  buffer_size_unaligned : ℕ → PbufError
  mmap_data mmap_ring register : ℕ → PbufError
  unregister_ring munmap_ring munmap_data : ℕ → PbufError
  get_head : ℕ → PbufError
  foreign_view : PbufError

-- `panic` is Go's run-time error on an index out of range.
pub data PbufResult {ℓ} (A : Type ℓ) : Type ℓ where
  ok : A → PbufResult A
  err : PbufError → PbufResult A
  panic : PbufResult A

-- What a system call gives: a value, or an errno.
pub data Syscall {ℓ} (A : Type ℓ) : Type ℓ where
  done : A → Syscall A
  failed : ℕ → Syscall A

abbrev pub max_pbuf_ring_entries : ℕ
max_pbuf_ring_entries = 32768

-- one round of the loop that fills the ring
pub fill_entry : ℕ → BufferRing → BufferRing
fill_entry i pbr =
    let addr = pbr.base_ptr + i * pbr.buf_size in
    record pbr {
      buf_pointers = update pbr.buf_pointers i addr;
      entries = update pbr.entries i (record { addr = addr; len = pbr.buf_size; bid = i % 2 ^ 16 });
    }

-- `for i := range capacity`, with `n` rounds left
pub fill_loop : ℕ → ℕ → BufferRing → BufferRing
fill_loop zero i pbr = pbr
fill_loop (suc n) i pbr = fill_loop n (i + 1) (fill_entry i pbr)

-- the literal of RegisterBufferRing; the memory of the ring is what the mapping holds
pub new_ring : (bgid capacity buf_size base_ptr ring_ptr : ℕ) → (ℕ → BufEntry) → BufferRing
new_ring bgid capacity buf_size base_ptr ring_ptr memory = record {
  bgid = bgid;
  capacity = capacity;
  buf_size = buf_size;
  mask = capacity - 1;
  base_ptr = base_ptr;
  buf_pointers = λ _. 0;
  ring_ptr = ring_ptr;
  ring_length = (capacity * 16 + 4095) / 4096 * 4096;
  entries = memory;
  ring_tail = 0;
  closed = false;
}

-- steps 3 and 4: register, then fill and publish with one store of the tail
pub provision : Option ℕ → BufferRing → PbufResult BufferRing
provision (some errno) pbr = err (register errno)
provision none pbr =
    ok (record (fill_loop pbr.capacity 0 pbr) { ring_tail = pbr.capacity % 2 ^ 16 })

-- steps 1 and 2: the two mappings
pub map_ring :
    (bgid capacity buf_size : ℕ) (data_mem ring_mem : Syscall ℕ)
    → Option ℕ
    → (ℕ → BufEntry)
    → PbufResult BufferRing
map_ring bgid capacity buf_size (failed errno) ring_mem registered memory = err (mmap_data errno)
map_ring bgid capacity buf_size (done base) (failed errno) registered memory = err (mmap_ring errno)
map_ring bgid capacity buf_size (done base) (done ring) registered memory =
    provision registered (new_ring bgid capacity buf_size base ring memory)

-- `RegisterBufferRing`
pub register_buffer_ring :
    (bgid capacity buf_size : ℕ) (data_mem ring_mem : Syscall ℕ)
    → Option ℕ
    → (ℕ → BufEntry)
    → PbufResult BufferRing
register_buffer_ring bgid capacity buf_size data_mem ring_mem registered memory =
    if ones_count 32 capacity == 1
    then if ltb max_pbuf_ring_entries capacity
      then err (capacity_exceeds capacity)
      else if buf_size == 0
      then err buffer_size_zero
      else if buf_size % 64 == 0
      then map_ring bgid capacity buf_size data_mem ring_mem registered memory
      else err (buffer_size_unaligned buf_size)
    else err (capacity_not_power_of_two capacity)

-- `Unregister`, with what its three calls return
pub unregister :
    (registered ring_unmap data_unmap : Option ℕ) → BufferRing → BufferRing × Option PbufError
unregister registered ring_unmap data_unmap pbr =
    if pbr.closed then (pbr, none) else elim registered [
      | some errno ↦ (pbr, some (unregister_ring errno))
      | none ↦ elim ring_unmap [
        | some errno ↦ (pbr, some (munmap_ring errno))
        | none ↦ elim data_unmap [
          | some errno ↦ (pbr, some (munmap_data errno))
          | none ↦ (record pbr { closed = true }, none)
        ]
      ]
    ]

-- the stores of ReleaseBuffer
pub publish_buffer : ℕ → BufferRing → BufferRing
publish_buffer bid pbr =
    let idx = pbr.ring_tail % (pbr.mask + 1) in
    record pbr {
      entries =
          update pbr.entries idx
            (record { addr = pbr.buf_pointers bid; len = pbr.buf_size; bid = bid });
      ring_tail = (pbr.ring_tail + 1) % 2 ^ 16;
    }

-- `ReleaseBuffer`: `bufPointers[bid]` is checked against the slice's length.
pub release_buffer : ℕ → BufferRing → PbufResult BufferRing
release_buffer bid pbr = if ltb bid pbr.capacity then ok (publish_buffer bid pbr) else panic

-- `Buffer`: the address and the length of the view
pub buffer : ℕ → BufferRing → PbufResult (ℕ × ℕ)
buffer bid pbr = if ltb bid pbr.capacity then ok (pbr.buf_pointers bid, pbr.buf_size) else panic

-- `ReleaseView`, of the view that starts at `ptr`
pub release_view : ℕ → BufferRing → PbufResult BufferRing
release_view ptr pbr =
    if ltb ptr pbr.base_ptr
    then err foreign_view
    else (let offset = ptr - pbr.base_ptr in
        if leb (pbr.capacity * pbr.buf_size) offset
        then err foreign_view
        else if offset % pbr.buf_size == 0
        then release_buffer (offset / pbr.buf_size % 2 ^ 16) pbr
        else err foreign_view)

-- `uint32(uint16(tail - head))` for the head that the kernel reports
abbrev pub visible : BufferRing → ℕ → ℕ
visible pbr head = (pbr.ring_tail + 2 ^ 16 - head % 2 ^ 16) % 2 ^ 16

-- `Available`
pub available : Syscall ℕ → BufferRing → PbufResult ℕ
available (failed errno) pbr = err (get_head errno)
available (done head) pbr = ok (visible pbr head)

-- `ReplenishOne`; `(head - 1) & mask` on uint32
pub replenish_one : Syscall ℕ → BufferRing → PbufResult BufferRing
replenish_one (failed errno) pbr = err (get_head errno)
replenish_one (done head) pbr =
    if visible pbr head == pbr.capacity
    then ok pbr
    else release_buffer (pbr.entries ((head + 2 ^ 32 - 1) % 2 ^ 32 % (pbr.mask + 1))).bid pbr

-- ===== src/IoUring/Queues.antt =====
-- internal/iouring/method_push.go, method_get_task.go and method_wakeup.go, over the ring's shared
-- memory. The kernel's writes are not in src/: its consuming of an entry is `consume`, and its posting
-- of one `post`, as io_uring(7) describes them.
pub mod Fifo
pub mod Kept
use netring.Prelude.{
  ℕ, ◌+◌, ◌-◌, ◌%◌, ◌^◌, Bool, true, false, Option, none, some, List, ◌==◌, if◌then◌else◌, update,
}
use mathlib.Core.Option
use netring.Window.{window}
use netring.IoUring.Entries.{SqEntry, CqEntry, zero_cqe, PushError, sq_full, wakeup_failed}

-- The fields of `IOUring` that the queues use, the pointers followed. Masks are one below a power of two.
pub record Uring : Type 0 where
  pub sq_head : ℕ
  pub sq_tail : ℕ
  pub sq_mask : ℕ
  pub sq_entries : ℕ
  pub sq_flags : ℕ
  pub sq_array : ℕ → ℕ
  pub sq : ℕ → SqEntry
  pub cq_head : ℕ
  pub cq_tail : ℕ
  pub cq_length_mask : ℕ
  pub cq : ℕ → CqEntry

-- `NeedWakeup`: bit 0 of the flags
unfoldable pub need_wakeup : Uring → Bool
need_wakeup r = r.sq_flags % 2 == 1

-- the stores of `Push`
pub publish : SqEntry → Uring → Uring
publish entry r =
    let index = r.sq_tail % (r.sq_mask + 1) in
    record r {
      sq = update r.sq index entry;
      sq_array = update r.sq_array index index;
      sq_tail = (r.sq_tail + 1) % 2 ^ 32;
    }

-- `Push`; `wakeup` is what the system call of `Wakeup` returns, should it be made: none, or an errno.
pub push : SqEntry → Option ℕ → Uring → Uring × Option PushError
push entry wakeup r =
    let r' = publish entry r in
    (r', if need_wakeup r' then Option.map wakeup_failed wakeup else none)

-- `GetTask`
pub get_task : Uring → Uring × CqEntry × Bool
get_task r = if r.cq_head == r.cq_tail then (r, zero_cqe, false) else (
  record r { cq_head = (r.cq_head + 1) % 2 ^ 32 },
  r.cq (r.cq_head % (r.cq_length_mask + 1)),
  true,
)

-- the entries that the kernel has not taken yet, and those that GetTask has not
abbrev pub sq_count : Uring → ℕ
sq_count r = (r.sq_tail + 2 ^ 32 - r.sq_head) % 2 ^ 32

abbrev pub cq_count : Uring → ℕ
cq_count r = (r.cq_tail + 2 ^ 32 - r.cq_head) % 2 ^ 32

-- What the kernel will read from the submission queue: it follows the array of indices.
abbrev pub submitted : Uring → List SqEntry
submitted r = window (λ i. r.sq (r.sq_array i)) r.sq_entries (sq_count r) r.sq_head

abbrev pub completed : Uring → List CqEntry
completed r = window r.cq (r.cq_length_mask + 1) (cq_count r) r.cq_head

-- the kernel takes the oldest entry
abbrev pub consume : Uring → Uring
consume r = record r { sq_head = (r.sq_head + 1) % 2 ^ 32 }

-- the kernel posts a completion
abbrev pub post : CqEntry → Uring → Uring
post e r = record r {
  cq = update r.cq (r.cq_tail % (r.cq_length_mask + 1)) e;
  cq_tail = (r.cq_tail + 1) % 2 ^ 32;
}

-- ===== src/NetRing/Tests.antt =====
-- The operations at concrete inputs.
use netring.Prelude.{
  ℕ, ◌+◌, ◌-◌, ◌*◌, ◌^◌, ◌≤◌, ◌≡◌, ◌≢◌, ◌∙◌, refl, true, false, none, some, [], ◌∷◌, ◌++◌, arith,
  ◌==◌, ==_refl, if◌then◌else◌, pos, update, trailing_zeros, ones_count, entries,
}
use netring.Window.{window}
use netring.TaskSlots.{Slots, sys_ids, add}
use netring.TaskSlots.Invariant.{view, Valid}
use netring.TaskSlots.Creation.{IsCapacity, made, made-Inv, made-Wraps}
use netring.TaskSlots.Laws.{Stores, add-Stores}
use netring.IoUring.Entries.{SqEntry, zero_sqe, CqEntry, zero_cqe, wakeup_failed}
use netring.IoUring.Queues.{Uring, need_wakeup, completed}
use netring.IoUring.Queues.Fifo.{SqValid, CqValid}
use netring.IoUring.Buffers.{BufferRing, BufEntry, done}
use netring.IoUring.Buffers.Publish.{RingValid, descriptor, published}
use netring.NetRing.Cells.{NetRing, TaskCell, SendCell, RingTask, recv, send, ok, push_error, arm}
use netring.NetRing.SizeClass.{size, Rings, register_ring, done as provided}
use netring.NetRing.SizeClass.Provision.{register_ring-provisions}
use netring.NetRing.Dispatch.{dispatch}
use netring.NetRing.Dispatch.Submitting.{
  Ready, TaskQueued, sqe_for, dispatch-submits, dispatch-wakeup_failed,
}
use netring.NetRing.Poller.{record_send, dispatch_completion, woke, poll_round}
use netring.NetRing.Poller.Sending.{Sends, dispatch_completion-send}
use netring.NetRing.Poller.Completing.{Delivers, dispatch_completion-Delivers, poll_round-empty}
use netring.NetRing.Send.{send_task, compensate, queue_send}
use netring.NetRing.Send.Continuing.{Idle, compensate-again}
use netring.NetRing.Operations.{give_back, released, plain_task, view as received_view, finish_recv}
use netring.NetRing.Operations.Views.{Carries, recv-release}

abbrev entry : SqEntry
entry = record zero_sqe { user_data = 3 }

abbrev uring : Uring
uring = record {
  sq_head = 0;
  sq_tail = 1;
  sq_mask = 1;
  sq_entries = 2;
  sq_flags = 1;
  sq_array = λ i. i;
  sq = λ _. entry;
  cq_head = 0;
  cq_tail = 0;
  cq_length_mask = 3;
  cq = λ _. zero_cqe;
}

uring-SqValid : SqValid (2 ^ 31) uring
uring-SqValid = record {
  mask = refl;
  ring = omega arith;
  bounded = omega arith;
  fits = omega arith;
  indexed = λ i lt. refl;
}

-- the empty slot table of 4096 slots
abbrev start : Slots ℕ
start = made 0 4096

abbrev ring : ℕ
ring = 2 ^ (70 - trailing_zeros 64 4096)

abbrev back : ℕ
back = 2 ^ (trailing_zeros 64 4096 + 1)

num_4096-IsCapacity : IsCapacity 4096
unfolding ones_count
num_4096-IsCapacity = record { one_bit = refl; enough = omega arith; positive = omega arith }

start-Valid : Valid 64 ring back start
start-Valid = record {
  slots = made-Inv 0 4096 num_4096-IsCapacity;
  back_ring = made-Wraps 0 4096 num_4096-IsCapacity;
}

abbrev idle_cell : SendCell
idle_cell = record { finished = 4; queued = 4; err = none; buf = 0; len = 0; sent = 0 }

-- the cell at 7 waits to receive on descriptor 5, every other cell to send
abbrev nr : NetRing
nr = record {
  uring = uring;
  slots = start;
  cells = λ p. if p == 7 then arm 1 recv 5 else arm 2 send 6;
  send_cells = λ _. idle_cell;
  ticket_tail = 2;
  readied = [];
  pooled = [];
  timer_task = false;
}

abbrev task : RingTask
task = record (plain_task recv 7) { len = 128 }

task-Ready : Ready 64 ring back (2 ^ 31) 65 7 task nr
unfolding entries
task-Ready = record {
  slots_valid = start-Valid;
  queue_valid = uring-SqValid;
  submitted_op = refl;
  ctx = refl;
  room = omega arith;
  fallback_room = omega arith;
  fuel_words = omega arith;
  fuel_fallback = omega arith;
}

dispatch-submits_example :
    (nr' : NetRing) × (dispatch 1 2 65 none task nr ≡ ok nr')
    × TaskQueued 64 ring back (2 ^ 31) (sqe_for 1 2 task recv 5) 7 nr nr'
    × (nr'.cells ≡ nr.cells)
dispatch-submits_example = dispatch-submits 1 2 65 7 task nr task-Ready

poller_asleep : need_wakeup uring ≡ true
unfolding need_wakeup
poller_asleep = refl

dispatch-wakeup_failed_example :
    (nr' : NetRing) × (dispatch 1 2 65 (some 9) task nr ≡ ok nr')
    × TaskQueued 64 ring back (2 ^ 31) (sqe_for 1 2 task recv 5) 7 nr nr'
    × ((nr'.cells 7).err ≡ some (push_error (wakeup_failed 9)))
dispatch-wakeup_failed_example = dispatch-wakeup_failed 1 2 65 7 task nr task-Ready 9 poller_asleep

-- a table that holds the cell at `p`
abbrev holding :
    (p : ℕ) → (r : ℕ × Slots ℕ) × (add 65 p start ≡ some r) × Stores 64 ring back p start r
unfolding entries
holding p = add-Stores start start-Valid 65 p (omega arith) (omega arith) (omega arith)

abbrev idx : ℕ → ℕ
idx p = (holding p).0.0

abbrev submitted_nr : ℕ → NetRing
submitted_nr p = record nr { slots = (holding p).0.1 }

holds : (p : ℕ) → view (holding p).0.1 (idx p) ≡ some p
holds p = (holding p).2.stored (idx p) ∙ rw (==_refl (idx p)) refl

in_range : (p : ℕ) → idx p ≤ sys_ids
in_range p = let hot = (holding p).2.hot_iff.1 (omega arith) in omega arith

abbrev resp : ℕ → CqEntry
resp p = record { user_data = idx p; res = pos 8; flags = 1 }

receives : ((submitted_nr 7).cells 7).op_code ≢ send
receives e = ground arith

dispatch_completion-Delivers_example :
    (nr' : NetRing) × (dispatch_completion (resp 7) (submitted_nr 7) ≡ ok nr')
    × Delivers 7 (resp 7) (submitted_nr 7) nr'
dispatch_completion-Delivers_example =
    dispatch_completion-Delivers 7 (resp 7) (submitted_nr 7) (in_range 7) (holds 7) receives

dispatch_completion-send_example :
    (nr' : NetRing) × (dispatch_completion (resp 3) (submitted_nr 3) ≡ ok nr')
    × Valid 64 ring back nr'.slots
    × Sends 3 (resp 3) (submitted_nr 3) nr'
dispatch_completion-send_example =
    dispatch_completion-send 3 (resp 3) (submitted_nr 3) (holding 3).2.valid (in_range 3) (holds 3)
      refl (omega arith)

-- one completion waits
abbrev one_done : NetRing
one_done = record nr { uring = record uring { cq_tail = 1 } }

one_done-CqValid : CqValid (2 ^ 30) one_done.uring
one_done-CqValid = record { ring = omega arith; fits = omega arith; bounded = omega arith }

one_completed : completed one_done.uring ≡ zero_cqe ∷ []
unfolding window
one_completed = refl

-- slot 0 holds the cell at 7, and no completion waits
abbrev slot_0 : NetRing
slot_0 = record nr {
  slots = record start { bitmap = λ _ k. k == 0; tasks = λ _. 7; poller_bitmap = λ _ _. false };
}

slot_0-CqValid : CqValid (2 ^ 30) slot_0.uring
slot_0-CqValid = record { ring = omega arith; fits = omega arith; bounded = omega arith }

none_completed : completed slot_0.uring ≡ []
unfolding window
none_completed = refl

poll_round-empty_example :
    (nr' : NetRing) × (poll_round 100 99 woke slot_0 ≡ ok (nr', 0)) × Delivers 7 zero_cqe slot_0 nr'
poll_round-empty_example =
    poll_round-empty 100 99 7 slot_0 slot_0-CqValid none_completed (omega arith) refl receives

idle_cell-Idle : Idle idle_cell
idle_cell-Idle = record { no_error = refl; even = refl; small = omega arith }

compensate-again_example :
    (compensate 3 (
      record_send
        (pos 2)
        (compensate 3 (record_send (pos 4) (queue_send 3 4096 10 idle_cell).1)).1)).0
    ≡ send_task 3 (4096 + 4 + 2 + (10 - 4)) (10 - 4 - 2)
compensate-again_example =
    compensate-again 3 4096 10 idle_cell idle_cell-Idle (omega arith) 4 2 (omega arith)
      (omega arith)

-- two buffers of 64 bytes at address 4096, of which the kernel can pick the first
abbrev pbr : BufferRing
pbr = record {
  bgid = 0;
  capacity = 2;
  buf_size = 64;
  mask = 1;
  base_ptr = 4096;
  buf_pointers = λ i. 4096 + i * 64;
  ring_ptr = 8192;
  ring_length = 4096;
  entries = λ i. record { addr = 4096 + i * 64; len = 64; bid = i };
  ring_tail = 1;
  closed = false;
}

pbr-RingValid : RingValid (2 ^ 15) pbr
pbr-RingValid = record {
  mask = refl;
  ring = omega arith;
  bounded = omega arith;
  sized = omega arith;
  pointers = λ i h. refl;
  fits = omega arith;
}

abbrev pbrs : Rings
pbrs _ = some pbr

-- 10 bytes in buffer 1
abbrev received_cell : TaskCell
received_cell = record (arm 1 recv 5) { res = pos 10; flags = 65537 }

received-Carries : Carries pbr 10 received_cell
received-Carries = record {
  res = refl;
  no_error = refl;
  some_bytes = omega arith;
  flag = refl;
  known = omega arith;
}

recv-release_example :
    (ptr : ℕ) × (finish_recv 0 received_cell pbrs ≡ received_view ptr 10)
    × (q : BufferRing) × (give_back 0 ptr 10 pbrs ≡ released (update pbrs 0 (some q)))
    × RingValid (2 ^ 15) q
    × (published q 0 ≡ published pbr 0 ++ descriptor pbr 1 ∷ [])
recv-release_example =
    recv-release 0 10 received_cell pbrs pbr refl pbr-RingValid received-Carries 0 (omega arith)
      (omega arith) (omega arith)

abbrev no_rings : Rings
no_rings _ = none

abbrev memory : ℕ → BufEntry
memory i = record { addr = 0; len = 0; bid = 0 }

one_bit : ones_count 32 2 ≡ 1
unfolding ones_count
one_bit = refl

register_ring-provisions_example :
    (q : BufferRing) × (ratio : ℕ) × (register_ring 0 2 (done 4096) (done 8192) none memory no_rings
      ≡ provided (update no_rings 0 (some q)) none)
    × RingValid ratio q
    × (q.capacity ≡ 2)
    × (q.buf_size ≡ size 0)
    × (published q 0 ≡ window (descriptor q) 2 2 0)
register_ring-provisions_example =
    register_ring-provisions 0 2 4096 8192 memory no_rings (omega arith) refl one_bit (omega arith)

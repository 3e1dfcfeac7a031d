-- ===== src/NetRing/Flight/Tests.antt =====
-- A run with one receive of method_submit.go and method_poller.go, from a table of 4096 slots.
use netring.Prelude.{
  ℕ, ◌+◌, ◌-◌, ◌^◌, ◌<◌, ◌≡◌, ◌∙◌, refl, ap, false, none, some, [], ◌∷◌, ◌++◌, arith, pos,
  trailing_zeros, ones_count, entries, lookup, insert,
}
use netring.Window.{window}
use netring.TaskSlots.Invariant.{view}
use netring.TaskSlots.Creation.{IsCapacity, made, made-Inv, made-Wraps}
use netring.IoUring.Entries.{SqEntry, zero_sqe, CqEntry, zero_cqe}
use netring.IoUring.Queues.{Uring, completed, cq_count, consume, post}
use netring.IoUring.Queues.Fifo.{post-completed}
use netring.IoUring.Queues.Kept.{consume-CompletionsKept}
use netring.NetRing.Cells.{NetRing, RingTask, recv, send, ok, arm}
use netring.NetRing.Operations.{plain_task}
use netring.NetRing.Dispatch.{dispatch}
use netring.NetRing.Dispatch.Submitting.{Ready, TaskQueued, sqe_for, dispatch-submits}
use netring.NetRing.Poller.{woke}
use netring.NetRing.Flight.{System, armed, issue, take, complete}
use netring.NetRing.Flight.Keys.{on_the_way, present}
use netring.NetRing.Flight.Landed.{Lands}
use netring.NetRing.Flight.Runs.{
  Run, here, later, IsIdle, at_rest, keys-in_flight, completion-Lands,
}

abbrev uring : Uring
uring = record {
  sq_head = 0;
  sq_tail = 0;
  sq_mask = 1;
  sq_entries = 2;
  sq_flags = 0;
  sq_array = λ i. i;
  sq = λ _. zero_sqe;
  cq_head = 0;
  cq_tail = 0;
  cq_length_mask = 3;
  cq = λ _. zero_cqe;
}

abbrev nr : NetRing
nr = record {
  uring = uring;
  slots = made 0 4096;
  cells = λ p. arm 2 send 6;
  send_cells = λ _. record { finished = 0; queued = 0; err = none; buf = 0; len = 0; sent = 0 };
  ticket_tail = 0;
  readied = [];
  pooled = [];
  timer_task = false;
}

abbrev ring : ℕ
ring = 2 ^ (70 - trailing_zeros 64 4096)

abbrev back : ℕ
back = 2 ^ (trailing_zeros 64 4096 + 1)

num_4096-IsCapacity : IsCapacity 4096
unfolding ones_count
num_4096-IsCapacity = record { one_bit = refl; enough = omega arith; positive = omega arith }

nr-IsIdle : IsIdle 64 ring back (2 ^ 31) (2 ^ 30) nr
unfolding window trailing_zeros
nr-IsIdle = record {
  slots = record {
    slots = made-Inv 0 4096 num_4096-IsCapacity;
    back_ring = made-Wraps 0 4096 num_4096-IsCapacity;
  };
  bounds = omega arith;
  sq = record {
    mask = refl;
    ring = omega arith;
    bounded = omega arith;
    fits = omega arith;
    indexed = λ i lt. absurd (omega arith);
  };
  cq = record { ring = omega arith; fits = omega arith; bounded = omega arith };
  none_submitted = refl;
  none_completed = refl;
}

-- goroutine 1 receives on descriptor 5 with the cell at 7
abbrev task : RingTask
task = record (plain_task recv 7) { len = 128 }

task-Ready : Ready 64 ring back (2 ^ 31) 65 7 task (armed 7 1 5 task nr)
unfolding entries
task-Ready = record {
  slots_valid = nr-IsIdle.slots;
  queue_valid = nr-IsIdle.sq;
  submitted_op = refl;
  ctx = refl;
  room = omega arith;
  fallback_room = omega arith;
  fuel_words = omega arith;
  fuel_fallback = omega arith;
}

abbrev dispatched :
    (nr' : NetRing) × (dispatch 1 2 65 none task (armed 7 1 5 task nr) ≡ ok nr')
    × TaskQueued 64 ring back (2 ^ 31) (sqe_for 1 2 task recv 5) 7 (armed 7 1 5 task nr) nr'
    × (nr'.cells ≡ (armed 7 1 5 task nr).cells)
dispatched = dispatch-submits 1 2 65 7 task (armed 7 1 5 task nr) task-Ready

abbrev entry : SqEntry
entry = sqe_for 1 2 task recv 5 dispatched.2.idx

abbrev done : CqEntry
done = record { user_data = entry.user_data; res = pos 8; flags = 1 }

-- the state after the kernel has taken the entry and completed it with 8 bytes
abbrev landed : System
landed = record {
  nr = record dispatched.0 { uring = post done (consume dispatched.0.uring) };
  taken = [];
  flights = insert entry.user_data 7 [];
}

room : cq_count dispatched.0.uring < dispatched.0.uring.cq_length_mask + 1
room =
    let count = dispatched.2.same_completions.same_count in
    let size = dispatched.2.same_completions.same_size in omega arith

way : Run 64 (at_rest nr) landed
unfolding lookup entries trailing_zeros
way =
    let queued = dispatched.2 in
    later
      (later
        (later here (
          issue task 7 1 5 65 1 2 entry refl refl (λ k q found. absurd (cc))
            (λ is_send. absurd (cc)) (omega arith) (omega arith) (omega arith) (omega arith)
            dispatched.1 queued.queued))
        (take (queued.queued ∙ ap (λ l. l ++ entry ∷ []) nr-IsIdle.none_submitted)))
      (complete entry [] [] (pos 8) 1 refl room)

landed-completed : completed landed.nr.uring ≡ done ∷ []
landed-completed =
    let kept = dispatched.2.same_completions in
    let taken = consume-CompletionsKept dispatched.0.uring in
    let (_, more) =
      post-completed (consume dispatched.0.uring) done (taken.valid (kept.valid nr-IsIdle.cq))
        room in
    more ∙ ap (λ l. l ++ done ∷ []) (kept.same ∙ nr-IsIdle.none_completed)

completion-Lands_example :
    (p : ℕ) × (lookup done.user_data landed.flights ≡ some p) × Lands landed done 100 0 woke p
completion-Lands_example =
    completion-Lands nr landed nr-IsIdle way done [] 100 0 woke landed-completed

keys-in_flight_example :
    (on_the_way 0 landed ≡ present (lookup 0 landed.flights))
    × ((p : ℕ) → lookup 0 landed.flights ≡ some p → view landed.nr.slots 0 ≡ some p)
keys-in_flight_example = keys-in_flight nr landed nr-IsIdle way 0

-- ===== src/NetRing/Poller.antt =====
-- method_poller.go: one round of the loop of `Poll`. Logging and the poller's options are left out.
pub mod Completing
pub mod Sending
use netring.Prelude.{
  ℕ, ◌+◌, ◌%◌, ◌^◌, Bool, true, false, Option, none, some, List, ◌∷◌, ◌==◌, ltb, if◌then◌else◌,
  update, ℤ, is_negative, pos_part, neg_part,
}
use netring.TaskSlots.{get, del}
use netring.IoUring.Entries.{CqEntry}
use netring.IoUring.Queues.{Uring, get_task}
use netring.NetRing.Cells.{
  NetRing, TaskCell, SendCell, Opcode, send, errno, Outcome, ok, panic, out_of_fuel,
  send_cells_count, periodical_timer_task_id, no_waiter_task_id,
}
use netring.NetRing.Dispatch.{complete_cell}

-- the send case: the result goes to the descriptor's send cell
unfoldable pub record_send : ℤ → SendCell → SendCell
record_send res s =
    let s' =
      if is_negative res
      then record s { err = some (errno (neg_part res)) }
      else record s { sent = (s.sent + pos_part res) % 2 ^ 64 } in
    record s' { finished = (s'.finished + 1) % 2 ^ 64 }

-- `case opcodeTypeSend`, for the cell at `p`; an index past the send cells is a run-time panic.
pub complete_send : (p : ℕ) → CqEntry → NetRing → Outcome NetRing
complete_send p resp nr =
    let fd = (nr.cells p).fd in
    if ltb fd send_cells_count
    then ok (record nr {
      send_cells = update nr.send_cells fd (record_send resp.res (nr.send_cells fd));
      pooled = p ∷ nr.pooled;
      slots = del resp.user_data nr.slots;
    })
    else panic

-- the switch on the opcode, after the stores of the result
complete_by : Opcode → (p : ℕ) → CqEntry → NetRing → Outcome NetRing
unfolding complete_send
complete_by send p resp nr = complete_send p resp nr
complete_by _ p resp nr = ok (complete_cell p nr)

-- what happens to a completion whose slot holds the cell at `p`
pub complete_task : (p : ℕ) → CqEntry → NetRing → Outcome NetRing
unfolding complete_by
complete_task p resp nr = complete_by (nr.cells p).op_code p resp (record nr {
  cells = update nr.cells p (record (nr.cells p) { res = resp.res; flags = resp.flags });
})

-- the answer of Get
dispatch_found : ℕ × Bool → CqEntry → NetRing → Outcome NetRing
unfolding complete_task
dispatch_found (p, found) resp nr = if found then complete_task p resp nr else ok nr

-- the hot path of a round, for the completion `resp`
pub dispatch_completion : CqEntry → NetRing → Outcome NetRing
unfolding dispatch_found
dispatch_completion resp nr =
    if resp.user_data == periodical_timer_task_id
    then ok (record nr { timer_task = true })
    else if resp.user_data == no_waiter_task_id
    then ok nr
    else dispatch_found (get 0 resp.user_data nr.slots) resp nr

-- What WaitEvents gives: no error, EINTR, or another errno.
pub data WaitResult : Type 0 where
  woke interrupted : WaitResult
  failed : ℕ → WaitResult

-- the end of the hot path: `spinCount` starts anew
unfoldable pub round_end : Outcome NetRing → Outcome (NetRing × ℕ)
round_end (ok nr) = ok (nr, 0)
round_end panic = panic
round_end out_of_fuel = out_of_fuel

-- the idle path: it spins, or waits for events and then goes on to the hot path with what GetTask
-- returned, unless the wait was interrupted
idle_path : (idle_after spin_count : ℕ) → WaitResult → CqEntry → NetRing → Outcome (NetRing × ℕ)
unfolding round_end
idle_path idle_after spin_count waited resp nr =
    if ltb (spin_count + 1) idle_after then ok (nr, spin_count + 1) else elim waited [
      | interrupted ↦ ok (nr, 0)
      | woke ↦ round_end (dispatch_completion resp nr)
      | failed _ ↦ round_end (dispatch_completion resp nr)
    ]

after_get :
    (idle_after spin_count : ℕ)
    → WaitResult
    → NetRing
    → Uring × CqEntry × Bool
    → Outcome (NetRing × ℕ)
unfolding round_end idle_path
after_get idle_after spin_count waited nr (uring, resp, true) =
    round_end (dispatch_completion resp (record nr { uring = uring }))
after_get idle_after spin_count waited nr (uring, resp, false) =
    idle_path idle_after spin_count waited resp (record nr { uring = uring })

-- One round after the test of `stop`: the state and the next `spinCount`.
pub poll_round : (idle_after spin_count : ℕ) → WaitResult → NetRing → Outcome (NetRing × ℕ)
unfolding after_get
poll_round idle_after spin_count waited nr =
    after_get idle_after spin_count waited nr (get_task nr.uring)

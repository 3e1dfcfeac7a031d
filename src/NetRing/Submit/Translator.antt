-- ===== src/NetRing/Submit/Translator.antt =====
-- method_submit_fallback.go: `fallbackLoop` and `drainFallback`, and the interleaving of the loop with
-- the goroutines in `submit`, the kernel and `Stop`.
pub mod Invariant
pub mod Goroutines
pub mod Loops
pub mod Reachable
pub mod Safety
pub mod Overlap
mod Tests
use netring.Prelude.{
  ℕ, ◌+◌, ◌-◌, ◌%◌, ◌^◌, ◌<◌, ◌≡◌, ◌≢◌, ◌⊎◌, Bool, true, false, ◌∷◌, [], List, ◌==◌, if◌then◌else◌,
  update,
}
use netring.NetRing.Cells.{RingTask, Opcode, send}
use netring.NetRing.Submit.{Memory, Pc, idle, Move, waiting_entries}

-- Where the loop stands. `was` and `cur` are the flag and the epoch of `oldBarrier`, `left` is M.
-- At the outer select; with a task, before the load of the barrier; before the load of finishedPushes;
-- with a task, before the test for room; before `ticketTail.Add(1)`; before the load and the store of
-- the tail in dispatch; at the inner select; before `finishedPushes.Store`; before the swap of the
-- barrier; at the select after it failed; before the load and the store of the last line; in
-- drainFallback, without and with a task.
pub data Phase : Type 0 where
  waiting took reselecting unlocking draining : Phase
  snapped : (was : Bool) (cur : ℕ) → Phase
  holding bumping pushing selecting : (was : Bool) (cur left : ℕ) → Phase
  writing : (was : Bool) (cur left x : ℕ) → Phase
  storing leaving : (was : Bool) (cur : ℕ) → Phase
  storing_ticket : (x : ℕ) → Phase
  dropping : RingTask → Phase

-- the test `M == 0`
abbrev pub after_push : (was : Bool) (cur left : ℕ) → Phase
after_push was cur left = if left == 0 then storing was cur else selecting was cur left

-- `isAsyncOp`
abbrev pub is_async : Opcode → Bool
is_async send = true
is_async _ = false

-- A step of the loop; `size` is the number of submission entries.
pub data Turn (size : ℕ) (m : Memory) : Phase → Memory → Phase → Type 0 where
  take :
      {task : RingTask} {rest : List RingTask}
      → m.chan ≡ task ∷ rest
      → Turn size m waiting (record m { chan = rest }) took
  load_barrier : Turn size m took m (snapped m.active m.epoch)
  load_finished :
      {was : Bool} {cur : ℕ}
      → Turn size m
          (snapped was cur)
          m
          (holding was cur ((cur + 2 ^ 64 - m.finished % 2 ^ 63) % 2 ^ 64))
  see_room :
      {was : Bool} {cur left : ℕ}
      → waiting_entries m.sq_tail m.sq_head < size
      → Turn size m (holding was cur left) m (bumping was cur left)
  bump :
      {was : Bool} {cur left : ℕ}
      → Turn size m
          (bumping was cur left)
          (record m { ticket_tail = (m.ticket_tail + 1) % 2 ^ 32 })
          (pushing was cur left)
  load_tail :
      {was : Bool} {cur left : ℕ}
      → Turn size m (pushing was cur left) m (writing was cur left m.sq_tail)
  store_tail :
      {was : Bool} {cur left x : ℕ}
      → Turn size m
          (writing was cur left x)
          (record m { sq_tail = (x + 1) % 2 ^ 32 })
          (after_push was cur ((left + 2 ^ 64 - 1) % 2 ^ 64))
  take_next :
      {was : Bool} {cur left : ℕ} {task : RingTask} {rest : List RingTask}
      → m.chan ≡ task ∷ rest
      → Turn size m (selecting was cur left) (record m { chan = rest }) (holding was cur left)
  stop_inside :
      {was : Bool} {cur left : ℕ}
      → m.stopped ≡ true
      → Turn size m (selecting was cur left) m draining
  store_finished :
      {was : Bool} {cur : ℕ}
      → Turn size m (storing was cur) (record m { finished = cur }) (leaving was cur)
  leave :
      {was : Bool} {cur : ℕ}
      → m.active ≡ was
      → m.epoch ≡ cur
      → Turn size m (leaving was cur) (record m { active = false }) unlocking
  stay :
      {was : Bool} {cur : ℕ}
      → m.active ≢ was ⊎ m.epoch ≢ cur
      → Turn size m (leaving was cur) m reselecting
  retake :
      {task : RingTask} {rest : List RingTask}
      → m.chan ≡ task ∷ rest
      → Turn size m reselecting (record m { chan = rest }) took
  stop_after : m.stopped ≡ true → Turn size m reselecting m draining
  load_ticket : Turn size m unlocking m (storing_ticket m.sq_tail)
  store_ticket : {x : ℕ} → Turn size m (storing_ticket x) (record m { ticket_tail = x }) waiting
  stop_outside : m.stopped ≡ true → Turn size m waiting m draining
  drain :
      {task : RingTask} {rest : List RingTask}
      → m.chan ≡ task ∷ rest
      → Turn size m draining (record m { chan = rest }) (dropping task)
  drop_async :
      {task : RingTask}
      → is_async task.opcode ≡ true
      → Turn size m
          (dropping task)
          (record m { finished = (m.finished + 1) % 2 ^ 64; dropped = m.dropped + 1 })
          draining
  drop_sync :
      {task : RingTask}
      → is_async task.opcode ≡ false
      → Turn size m (dropping task) (record m { dropped = m.dropped + 1 }) draining

-- `n` goroutines, the loop, and the shared words
pub record System : Type 0 where
  pub mem : Memory
  pub pc : ℕ → Pc
  pub phase : Phase

-- One step of the whole: a goroutine below `n` or the loop moves, the kernel takes an entry, or `Stop`
-- closes the channel.
pub data Step (size buffer n : ℕ) (s : System) : System → Type 0 where
  goroutine :
      (i : ℕ) {m : Memory} {p : Pc}
      → i < n
      → Move size buffer s.mem (s.pc i) m p
      → Step size buffer n s (record { mem = m; pc = update s.pc i p; phase = s.phase })
  loop :
      {m : Memory} {ph : Phase}
      → Turn size s.mem s.phase m ph
      → Step size buffer n s (record { mem = m; pc = s.pc; phase = ph })
  kernel :
      s.mem.sq_head ≢ s.mem.sq_tail
      → Step size buffer n s
          (record s { mem = record s.mem { sq_head = (s.mem.sq_head + 1) % 2 ^ 32 } })
  stop : Step size buffer n s (record s { mem = record s.mem { stopped = true } })

-- a new NetRing on a new ring
abbrev pub init : System
init = record {
  mem = record {
    active = false;
    epoch = 0;
    finished = 0;
    ticket_tail = 0;
    sq_head = 0;
    sq_tail = 0;
    chan = [];
    stopped = false;
    total = 0;
    dropped = 0;
  };
  pc = λ _. idle;
  phase = waiting;
}

pub data Steps (size buffer n : ℕ) (s : System) : System → Type 0 where
  here : Steps size buffer n s s
  later :
      {t u : System} → Steps size buffer n s t → Step size buffer n t u → Steps size buffer n s u

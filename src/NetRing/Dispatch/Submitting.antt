-- ===== src/NetRing/Dispatch/Submitting.antt =====
-- What `dispatch` does with a task that goes to the kernel: one slot and one entry.
use netring.Prelude.{
  ℕ, ◌+◌, ◌%◌, ◌^◌, ◌<◌, ◌≤◌, ◌≡◌, ◌∙◌, ap, refl, Bool, true, false, Option, none, some, [], ◌∷◌,
  ◌++◌, ◌==◌, ==_refl, if◌then◌else◌, entries,
}
use mathlib.Core.Option
use netring.TaskSlots.{get}
use netring.TaskSlots.Invariant.{view, Valid}
use netring.TaskSlots.Laws.{add-Stores, get-view}
use netring.IoUring.Entries.{SqEntry, zero_sqe, PushError, wakeup_failed}
use netring.IoUring.Queues.{Uring, need_wakeup, push, sq_count, submitted}
use netring.IoUring.Queues.Fifo.{SqValid, push-submits}
use netring.IoUring.Queues.Kept.{CompletionsKept, push-CompletionsKept}
use netring.IoUring.Expect.{accept_sqe, connect_sqe, recv_sqe, read_sqe, send_sqe, close_sqe}
use netring.NetRing.Cells.{
  NetRing, RingTask, Opcode, invalid, release_buffer, timer, accept, close, connect, recv, send,
  read, other, NetError, push_error, ok,
}
use netring.NetRing.Dispatch.{
  complete_cell, abort_issuer, after_expect, submit_slot, submit_with, dispatch,
}

-- the opcodes that get an entry, and those whose issuer parks
abbrev pub is_submitted : Opcode → Bool
is_submitted accept = true
is_submitted connect = true
is_submitted recv = true
is_submitted read = true
is_submitted send = true
is_submitted close = true
is_submitted _ = false

abbrev pub parks : Opcode → Bool
parks send = false
parks _ = true

-- The entry for a task of the given opcode, by its descriptor and slot.
abbrev pub sqe_for : (dummy_addr dummy_len : ℕ) → RingTask → Opcode → (fd idx : ℕ) → SqEntry
sqe_for dummy_addr dummy_len task accept fd idx = accept_sqe dummy_addr dummy_len (fd % 2 ^ 32) idx
sqe_for dummy_addr dummy_len task connect fd idx =
    connect_sqe fd task.payload (task.addr % 2 ^ 32) idx
sqe_for dummy_addr dummy_len task recv fd idx = recv_sqe (fd % 2 ^ 32) task.bgid task.len idx
sqe_for dummy_addr dummy_len task read fd idx = read_sqe (fd % 2 ^ 32) task.bgid task.len idx
sqe_for dummy_addr dummy_len task send fd idx = send_sqe (fd % 2 ^ 32) task.payload task.len idx
sqe_for dummy_addr dummy_len task close fd idx = close_sqe (fd % 2 ^ 32) idx
sqe_for dummy_addr dummy_len task _ fd idx = zero_sqe

dispatch-submit_with :
    (dummy_addr dummy_len fuel : ℕ) (wakeup : Option ℕ) (task : RingTask) (nr : NetRing)
    (o : Opcode)
    → task.opcode ≡ o
    → is_submitted o ≡ true
    → dispatch dummy_addr dummy_len fuel wakeup task nr
      ≡ submit_with fuel
          (parks o)
          (λ fd idx. push (sqe_for dummy_addr dummy_len task o fd idx) wakeup)
          task.ctx
          nr
unfolding dispatch
dispatch-submit_with da dl fuel wakeup task nr accept e h = rw e refl
dispatch-submit_with da dl fuel wakeup task nr connect e h = rw e refl
dispatch-submit_with da dl fuel wakeup task nr recv e h = rw e refl
dispatch-submit_with da dl fuel wakeup task nr read e h = rw e refl
dispatch-submit_with da dl fuel wakeup task nr send e h = rw e refl
dispatch-submit_with da dl fuel wakeup task nr close e h = rw e refl
dispatch-submit_with da dl fuel wakeup task nr invalid e h = absurd (cc)
dispatch-submit_with da dl fuel wakeup task nr release_buffer e h = absurd (cc)
dispatch-submit_with da dl fuel wakeup task nr timer e h = absurd (cc)
dispatch-submit_with da dl fuel wakeup task nr (other n) e h = absurd (cc)

-- The slot table and the queue hold one more task, `p`, at a slot that was free: the slot's index is
-- the user data of the entry. The completion queue is as it was.
pub record TaskQueued (words ring back ratio : ℕ) (entry : (idx : ℕ) → SqEntry) (p : ℕ)
    (nr nr' : NetRing) : Type 0 where
  pub idx : ℕ
  pub slots_valid : Valid words ring back nr'.slots
  pub fresh : view nr.slots idx ≡ none
  pub stored : (j : ℕ) → view nr'.slots j ≡ (if idx == j then some p else view nr.slots j)
  pub queue_valid : SqValid ratio nr'.uring
  pub queued : submitted nr'.uring ≡ submitted nr.uring ++ entry idx ∷ []
  pub bounded : idx ≤ nr.slots.fallback_mask + nr.slots.cap
  pub same_bounds :
      (nr'.slots.cap ≡ nr.slots.cap) × (nr'.slots.fallback_mask ≡ nr.slots.fallback_mask)
  pub same_completions : CompletionsKept nr.uring nr'.uring

-- The state that dispatch needs: a valid slot table and queue, a task with a cell, room in the queue
-- and in the fallback indices, and fuel for Add.
pub record Ready (words ring back ratio fuel p : ℕ) (task : RingTask) (nr : NetRing) : Type 0 where
  pub slots_valid : Valid words ring back nr.slots
  pub queue_valid : SqValid ratio nr.uring
  pub submitted_op : is_submitted task.opcode ≡ true
  pub ctx : task.ctx ≡ some p
  pub room : sq_count nr.uring < nr.uring.sq_entries
  pub fallback_room : entries nr.slots.fallback ≤ nr.slots.fallback_mask
  pub fuel_words : words < fuel
  pub fuel_fallback : entries nr.slots.fallback < fuel

-- abortIssuer touches neither the slots nor the queue.
aborted-TaskQueued :
    {words ring back ratio p : ℕ} {entry : ℕ → SqEntry} {nr nr' : NetRing}
    → (s : TaskQueued words ring back ratio entry p nr nr') (need_wake : Bool) (e : NetError)
    → TaskQueued words ring back ratio entry p nr (abort_issuer s.idx need_wake e nr')
unfolding abort_issuer complete_cell
aborted-TaskQueued s true e = record {
  idx = s.idx;
  slots_valid = s.slots_valid;
  fresh = s.fresh;
  stored = s.stored;
  queue_valid = s.queue_valid;
  queued = s.queued;
  bounded = s.bounded;
  same_bounds = s.same_bounds;
  same_completions = s.same_completions;
}
aborted-TaskQueued s false e = record {
  idx = s.idx;
  slots_valid = s.slots_valid;
  fresh = s.fresh;
  stored = s.stored;
  queue_valid = s.queue_valid;
  queued = s.queued;
  bounded = s.bounded;
  same_bounds = s.same_bounds;
  same_completions = s.same_completions;
}

aborted-err :
    (idx : ℕ) (need_wake : Bool) (e : NetError) (nr : NetRing) {p : ℕ}
    → get 0 idx nr.slots ≡ (p, true)
    → ((abort_issuer idx need_wake e nr).cells p).err ≡ some e
unfolding abort_issuer complete_cell
aborted-err idx true e nr {p} found = rw (found, ==_refl p) refl
aborted-err idx false e nr {p} found = rw (found, ==_refl p) refl

module _ {words ring back ratio : ℕ} (dummy_addr dummy_len fuel p : ℕ) (task : RingTask)
    (nr : NetRing) (is_ready : Ready words ring back ratio fuel p task nr) where
  abbrev entry : ℕ → SqEntry
  entry idx = sqe_for dummy_addr dummy_len task task.opcode (nr.cells p).fd idx

  abbrev After : (wakeup : Option ℕ) → Type 0
  After wakeup =
      (nr' : NetRing) × (s : TaskQueued words ring back ratio entry p nr nr') × (nr'.cells
        ≡ nr.cells)
      × (dispatch dummy_addr dummy_len fuel wakeup task nr
          ≡ after_expect s.idx (parks task.opcode)
              (if need_wakeup nr.uring then Option.map wakeup_failed wakeup else none) nr')

  dispatch-After : (wakeup : Option ℕ) → After wakeup
  unfolding submit_with submit_slot
  dispatch-After wakeup =
      let (r, done, st) =
        add-Stores nr.slots is_ready.slots_valid fuel p is_ready.fuel_words is_ready.fuel_fallback
          is_ready.fallback_room in
      let (v, q, e) = push-submits nr.uring is_ready.queue_valid (entry r.0) is_ready.room wakeup in
      let nr' : NetRing = record nr { slots = r.1; uring = (push (entry r.0) wakeup nr.uring).0 } in
      let expect : ℕ → ℕ → Uring → Uring × Option PushError =
        λ fd idx. push (sqe_for dummy_addr dummy_len task task.opcode fd idx) wakeup in
      let pushed : submit_with fuel (parks task.opcode) expect task.ctx nr
          ≡ after_expect r.0 (parks task.opcode) (push (entry r.0) wakeup nr.uring).1 nr' =
        ap (λ c. submit_with fuel (parks task.opcode) expect c nr) is_ready.ctx
        ∙ ap (λ x. submit_slot (parks task.opcode) expect p nr x) done in
      (
        nr',
        record {
          idx = r.0;
          slots_valid = st.valid;
          fresh = st.fresh;
          stored = st.stored;
          queue_valid = v;
          queued = q;
          bounded = st.bounded;
          same_bounds = st.same_bounds;
          same_completions = push-CompletionsKept nr.uring (entry r.0) wakeup;
        },
        refl,
        dispatch-submit_with dummy_addr dummy_len fuel wakeup task nr task.opcode refl
              is_ready.submitted_op
            ∙ pushed
            ∙ ap (λ x. after_expect r.0 (parks task.opcode) x nr') e,
      )

  -- On a valid table and queue with room, and given fuel for Add, when the wakeup call, should Push make
  -- it, does not fail, dispatch of an operation's task that has a cell ends well:
  -- it queues the one entry for the task, keyed by a slot that was free and now holds the task's
  -- cell. It keeps the table and the queue valid, and touches no cell.
  pub dispatch-submits :
      (nr' : NetRing) × (dispatch dummy_addr dummy_len fuel none task nr ≡ ok nr')
      × TaskQueued words ring back ratio entry p nr nr'
      × (nr'.cells ≡ nr.cells)
  unfolding after_expect
  dispatch-submits =
      let (nr', s, same, e) = dispatch-After none in
      (nr', e ∙ quiet s.idx nr' (need_wakeup nr.uring), s, same)
    where
      quiet :
          (idx : ℕ) (nr' : NetRing) (b : Bool)
          → after_expect idx
              (parks task.opcode)
              (if b then Option.map wakeup_failed none else none)
              nr'
            ≡ ok nr'
      quiet idx nr' true = refl
      quiet idx nr' false = refl

  -- When the kernel's poller is asleep and the wakeup call fails, dispatch stores the error into the
  -- task's cell; but the entry is queued and the slot is held as if the call had not failed, so the
  -- kernel will still run the operation that its issuer sees fail.
  pub dispatch-wakeup_failed :
      (code : ℕ)
      → need_wakeup nr.uring ≡ true
      → (nr' : NetRing) × (dispatch dummy_addr dummy_len fuel (some code) task nr ≡ ok nr')
        × TaskQueued words ring back ratio entry p nr nr'
        × ((nr'.cells p).err ≡ some (push_error (wakeup_failed code)))
  unfolding after_expect
  dispatch-wakeup_failed code asleep =
      let (nr', s, same, e) = dispatch-After (some code) in
      let held : view nr'.slots s.idx ≡ some p = s.stored s.idx ∙ rw (==_refl s.idx) refl in
      (
        abort_issuer s.idx (parks task.opcode) (push_error (wakeup_failed code)) nr',
        e ∙ rw asleep refl,
        aborted-TaskQueued s (parks task.opcode) (push_error (wakeup_failed code)),
        aborted-err s.idx (parks task.opcode) (push_error (wakeup_failed code)) nr'
            (get-view 0 s.idx nr'.slots held),
      )

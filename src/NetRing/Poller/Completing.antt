-- ===== src/NetRing/Poller/Completing.antt =====
-- What a round of the poller does with a completion.
use netring.Prelude.{
  ℕ, ◌+◌, ◌≤◌, ◌≡◌, ◌≢◌, ◌∙◌, ap, refl, Bool, false, some, List, [], ◌∷◌, arith, ◌==◌, ==_refl, ltb,
  if◌then◌else◌, update, inl, inr,
}
use mathlib.Core.Path.{ap₂}
use netring.TaskSlots.{sys_ids}
use netring.TaskSlots.Invariant.{view}
use netring.TaskSlots.Laws.{get-view}
use netring.IoUring.Entries.{CqEntry, zero_cqe}
use netring.IoUring.Queues.{Uring, get_task, completed}
use netring.IoUring.Queues.Fifo.{CqValid, get_task-Fifo}
use netring.NetRing.Cells.{
  NetRing, Opcode, invalid, release_buffer, timer, accept, close, connect, recv, send, read, other,
  ok, periodical_timer_task_id, no_waiter_task_id,
}
use netring.NetRing.Handshake.{complete_cas}
use netring.NetRing.Dispatch.{complete_cell}
use netring.NetRing.Poller.{
  complete_by, complete_task, dispatch_found, dispatch_completion, WaitResult, woke, round_end,
  idle_path, after_get, poll_round,
}

-- A completion of a task, not a system id, reaches its cell.
pub dispatch-task :
    (resp : CqEntry) (nr : NetRing) (p : ℕ)
    → resp.user_data ≤ sys_ids
    → view nr.slots resp.user_data ≡ some p
    → dispatch_completion resp nr ≡ complete_task p resp nr
unfolding dispatch_completion dispatch_found
dispatch-task resp nr p task held =
    let not_timer : (resp.user_data == periodical_timer_task_id) ≡ false = ground arith in
    let waited : (resp.user_data == no_waiter_task_id) ≡ false = ground arith in
    let found = get-view 0 resp.user_data nr.slots held in
    rw (not_timer, waited) (ap (λ (x : ℕ × Bool). dispatch_found x resp nr) found)

-- What the completion of a parking operation does: the cell at `p` has the result, its state is what the
-- CompareAndSwap leaves, its goroutine is readied exactly if the swap failed, and its operation, the other
-- cells, the slots and the queues are as before.
pub record Delivers (p : ℕ) (resp : CqEntry) (nr nr' : NetRing) : Type 0 where
  pub result : ((nr'.cells p).res ≡ resp.res) × ((nr'.cells p).flags ≡ resp.flags)
  pub state : (nr'.cells p).task_state ≡ (complete_cas (nr.cells p).task_state).0
  pub readied : nr'.readied ≡ (
      if (complete_cas (nr.cells p).task_state).1 then nr.readied else (nr.cells p).g ∷ nr.readied)
  pub others : (q : ℕ) → (p == q) ≡ false → nr'.cells q ≡ nr.cells q
  pub operation :
      ((nr'.cells p).op_code ≡ (nr.cells p).op_code) × ((nr'.cells p).fd ≡ (nr.cells p).fd)
  pub slots : nr'.slots ≡ nr.slots
  pub uring : nr'.uring ≡ nr.uring

complete_task-Delivers :
    (p : ℕ) (resp : CqEntry) (nr : NetRing) (o : Opcode)
    → (nr.cells p).op_code ≡ o
    → o ≢ send
    → (nr' : NetRing) × (complete_task p resp nr ≡ ok nr') × Delivers p resp nr nr'
unfolding complete_task complete_by complete_cell
complete_task-Delivers p resp nr o e not_send =
    let stored : NetRing = record nr {
      cells = update nr.cells p (record (nr.cells p) { res = resp.res; flags = resp.flags });
    } in
    (
      complete_cell p stored,
      ap (λ (o : Opcode). complete_by o p resp stored) e ∙ parking o not_send stored,
      delivered,
    )
  where
    parking :
        (o : Opcode) → o ≢ send → (nr : NetRing) → complete_by o p resp nr ≡ ok (complete_cell p nr)
    parking invalid h nr = refl
    parking release_buffer h nr = refl
    parking timer h nr = refl
    parking accept h nr = refl
    parking close h nr = refl
    parking connect h nr = refl
    parking recv h nr = refl
    parking read h nr = refl
    parking (other n) h nr = refl
    parking send h nr = absurd (h refl)

    delivered : Delivers p resp nr (
        complete_cell p (record nr {
          cells = update nr.cells p (record (nr.cells p) { res = resp.res; flags = resp.flags });
        }))
    delivered = record {
      result = rw (==_refl p) (refl, refl);
      state = rw (==_refl p) refl;
      readied = rw (==_refl p) refl;
      others = λ q apart. rw apart refl;
      operation = rw (==_refl p) (refl, refl);
      slots = refl;
      uring = refl;
    }

-- The completion of a parking operation whose slot holds the cell at `p` is delivered to that cell. The
-- slot table is left as it was: nothing gives the slot back.
pub dispatch_completion-Delivers :
    (p : ℕ) (resp : CqEntry) (nr : NetRing)
    → resp.user_data ≤ sys_ids
    → view nr.slots resp.user_data ≡ some p
    → (nr.cells p).op_code ≢ send
    → (nr' : NetRing) × (dispatch_completion resp nr ≡ ok nr') × Delivers p resp nr nr'
dispatch_completion-Delivers p resp nr task held not_send =
    let (nr', e, d) = complete_task-Delivers p resp nr (nr.cells p).op_code refl not_send in
    (nr', dispatch-task resp nr p task held ∙ e, d)

pub poll_round-get_task :
    {ratio : ℕ} (idle_after spin_count : ℕ) (waited : WaitResult) (nr : NetRing) (e : CqEntry)
    (rest : List CqEntry)
    → CqValid ratio nr.uring
    → completed nr.uring ≡ e ∷ rest
    → (completed (get_task nr.uring).0 ≡ rest)
      × CqValid ratio (get_task nr.uring).0
      × (poll_round idle_after spin_count waited nr
          ≡ round_end (dispatch_completion e (record nr { uring = (get_task nr.uring).0 })))
unfolding poll_round after_get
poll_round-get_task idle_after spin_count waited nr e rest valid h =
    elim (get_task-Fifo nr.uring valid) [
      | inl empty ↦ absurd (let e0 = empty.0 in cc)
      | inr (e', rest', full, left, taken, ready, v) ↦
          let same : (e' ≡ e) × (rest' ≡ rest) = (cc, cc) in
          (
            left ∙ same.1,
            v,
            ap₂
                (λ (x : CqEntry) (b : Bool).
                  after_get idle_after spin_count waited nr ((get_task nr.uring).0, x, b))
                (taken ∙ same.0) ready,
          )
    ]

-- While a completion waits, a round takes the oldest one off the queue and dispatches it.
pub poll_round-oldest :
    {ratio : ℕ} (idle_after spin_count : ℕ) (waited : WaitResult) (nr : NetRing) (e : CqEntry)
    (rest : List CqEntry)
    → CqValid ratio nr.uring
    → completed nr.uring ≡ e ∷ rest
    → (uring : Uring) × (completed uring ≡ rest)
      × CqValid ratio uring
      × (poll_round idle_after spin_count waited nr
          ≡ round_end (dispatch_completion e (record nr { uring = uring })))
poll_round-oldest idle_after spin_count waited nr e rest valid h =
    let (left, keeps, takes) = poll_round-get_task idle_after spin_count waited nr e rest valid h in
    ((get_task nr.uring).0, left, keeps, takes)

-- After the call that waits for events, a round over an empty queue goes on as if it had the zero
-- completion: an operation that parks in slot 0 is delivered the result 0, though nothing completed.
pub poll_round-empty :
    {ratio : ℕ} (idle_after spin_count p : ℕ) (nr : NetRing)
    → CqValid ratio nr.uring
    → completed nr.uring ≡ []
    → idle_after ≤ spin_count + 1
    → view nr.slots 0 ≡ some p
    → (nr.cells p).op_code ≢ send
    → (nr' : NetRing) × (poll_round idle_after spin_count woke nr ≡ ok (nr', 0))
      × Delivers p zero_cqe nr nr'
unfolding poll_round after_get idle_path round_end
poll_round-empty idle_after spin_count p nr valid empty idle held not_send =
    elim (get_task-Fifo nr.uring valid) [
      | inr (e, rest, full, _, _, _, _) ↦ absurd (let f = full in cc)
      | inl (_, none_ready) ↦
          let (nr', e, d) =
            dispatch_completion-Delivers p zero_cqe nr (omega arith) held not_send in
          let idles : ltb (spin_count + 1) idle_after ≡ false = ground arith in
          (
            nr',
            ap (after_get idle_after spin_count woke nr) none_ready ∙ rw idles (ap round_end e),
            d,
          )
    ]

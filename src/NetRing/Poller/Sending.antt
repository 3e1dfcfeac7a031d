-- ===== src/NetRing/Poller/Sending.antt =====
-- method_poller.go, lines 108-119: what a round of the poller does with the completion of a send.
use netring.Prelude.{
  ℕ, suc, ◌+◌, ◌%◌, ◌^◌, ◌<◌, ◌≤◌, ◌≡◌, ◌∙◌, ◌⊎◌, ap, refl, true, false, none, some, ◌∷◌, arith,
  ◌==◌, ==_refl, ltb, if◌then◌else◌, update, inl, inr, ℤ, pos, negsuc,
}
use netring.TaskSlots.{sys_ids, del}
use netring.TaskSlots.Invariant.{view, Valid}
use netring.TaskSlots.Laws.{del-view}
use netring.IoUring.Entries.{CqEntry}
use netring.NetRing.Cells.{NetRing, SendCell, Opcode, errno, send, ok, send_cells_count}
use netring.NetRing.Poller.{
  record_send, complete_send, complete_by, complete_task, dispatch_completion,
}
use netring.NetRing.Poller.Completing.{dispatch-task}

-- One send more is finished. A result of `n` bytes adds them to `sent` and leaves the error as it was; a
-- result that is minus an errno is kept as that error and leaves `sent`. What was queued stays.
pub record Accounts (res : ℤ) (cell cell' : SendCell) : Type 0 where
  pub counted : cell'.finished ≡ (cell.finished + 1) % 2 ^ 64
  pub outcome :
      ((n : ℕ) × (res ≡ pos n) × (cell'.sent ≡ (cell.sent + n) % 2 ^ 64) × (cell'.err ≡ cell.err))
      ⊎ ((n : ℕ) × (res ≡ negsuc n) × (cell'.err ≡ some (errno (suc n))) × (cell'.sent ≡ cell.sent))
  pub queue : (cell'.queued ≡ cell.queued) × (cell'.buf ≡ cell.buf) × (cell'.len ≡ cell.len)

-- What the completion of the send of the cell at `p` does: its descriptor's send cell accounts for the
-- result, the slot is given back, and the cell goes to the pool, with the result in it. No goroutine is
-- readied, and the other send cells, the other task cells, the other slots and the queues are as before.
pub record Sends (p : ℕ) (resp : CqEntry) (nr nr' : NetRing) : Type 0 where
  pub accounts : Accounts resp.res (nr.send_cells (nr.cells p).fd) (nr'.send_cells (nr.cells p).fd)
  pub other_sends :
      (fd : ℕ) → ((nr.cells p).fd == fd) ≡ false → nr'.send_cells fd ≡ nr.send_cells fd
  pub emptied : (j : ℕ) → view nr'.slots j ≡ (if resp.user_data == j then none else view nr.slots j)
  pub pooled : nr'.pooled ≡ p ∷ nr.pooled
  pub result : ((nr'.cells p).res ≡ resp.res) × ((nr'.cells p).flags ≡ resp.flags)
  pub others : (q : ℕ) → (p == q) ≡ false → nr'.cells q ≡ nr.cells q
  pub readied : nr'.readied ≡ nr.readied
  pub uring : nr'.uring ≡ nr.uring

record_send-Accounts : (res : ℤ) (cell : SendCell) → Accounts res cell (record_send res cell)
unfolding record_send
record_send-Accounts (pos n) cell = record {
  counted = refl;
  outcome = inl (n, refl, refl, refl);
  queue = (refl, refl, refl);
}
record_send-Accounts (negsuc n) cell = record {
  counted = refl;
  outcome = inr (n, refl, refl, refl);
  queue = (refl, refl, refl);
}

-- the state after the completion of the send of the cell at `p`
abbrev pub after_send : (p : ℕ) → CqEntry → NetRing → NetRing
after_send p resp nr =
    let fd = (nr.cells p).fd in
    record nr {
      cells = update nr.cells p (record (nr.cells p) { res = resp.res; flags = resp.flags });
      send_cells = update nr.send_cells fd (record_send resp.res (nr.send_cells fd));
      pooled = p ∷ nr.pooled;
      slots = del resp.user_data nr.slots;
    }

pub dispatch_completion-after_send :
    (p : ℕ) (resp : CqEntry) (nr : NetRing)
    → resp.user_data ≤ sys_ids
    → view nr.slots resp.user_data ≡ some p
    → (nr.cells p).op_code ≡ send
    → (nr.cells p).fd < send_cells_count
    → dispatch_completion resp nr ≡ ok (after_send p resp nr)
unfolding complete_task complete_by complete_send
dispatch_completion-after_send p resp nr task held is_send small =
    let stored : NetRing = record nr {
      cells = update nr.cells p (record (nr.cells p) { res = resp.res; flags = resp.flags });
    } in
    let inside : ltb (nr.cells p).fd send_cells_count ≡ true = ground arith in
    dispatch-task resp nr p task held
    ∙ ap (λ (o : Opcode). complete_by o p resp stored) is_send
    ∙ rw (==_refl p, inside) refl

pub after_send-Sends :
    {words ring back : ℕ} (p : ℕ) (resp : CqEntry) (nr : NetRing)
    → Valid words ring back nr.slots
    → resp.user_data ≤ sys_ids
    → view nr.slots resp.user_data ≡ some p
    → Sends p resp nr (after_send p resp nr)
after_send-Sends p resp nr valid task held = record {
  accounts = rw (==_refl (nr.cells p).fd) (record_send-Accounts resp.res _);
  other_sends = λ fd apart. rw apart refl;
  emptied = (del-view nr.slots valid resp.user_data held task).1;
  pooled = refl;
  result = rw (==_refl p) (refl, refl);
  others = λ q apart. rw apart refl;
  readied = refl;
  uring = refl;
}

-- The completion of a send whose slot holds the cell at `p` ends well and keeps the slot table valid. The
-- send cell of the cell's descriptor counts one send more, and has its bytes added or its error stored; the
-- slot is given back and the cell returned to the pool. No goroutine is readied, and the other send cells,
-- task cells and slots and the queues are left as they were.
pub dispatch_completion-send :
    {words ring back : ℕ} (p : ℕ) (resp : CqEntry) (nr : NetRing)
    → Valid words ring back nr.slots
    → resp.user_data ≤ sys_ids
    → view nr.slots resp.user_data ≡ some p
    → (nr.cells p).op_code ≡ send
    → (nr.cells p).fd < send_cells_count
    → (nr' : NetRing) × (dispatch_completion resp nr ≡ ok nr')
      × Valid words ring back nr'.slots
      × Sends p resp nr nr'
dispatch_completion-send p resp nr valid task held is_send small = (
  after_send p resp nr,
  dispatch_completion-after_send p resp nr task held is_send small,
  (del-view nr.slots valid resp.user_data held task).0,
  after_send-Sends p resp nr valid task held,
)

-- ===== src/NetRing/Flight/Runs.antt =====
-- method_submit.go and method_poller.go: what holds in every run of the entries on their way.
use netring.Prelude.{ℕ, ◌+◌, ◌≤◌, ◌≡◌, ap, some, List, [], ◌∷◌, lookup, arith}
use netring.TaskSlots.{sys_ids}
use netring.TaskSlots.Invariant.{view, Valid}
use netring.IoUring.Entries.{CqEntry}
use netring.IoUring.Queues.{submitted, completed}
use netring.IoUring.Queues.Fifo.{SqValid, CqValid}
use netring.NetRing.Cells.{NetRing}
use netring.NetRing.Poller.{WaitResult}
use netring.NetRing.Flight.{System, Event, issue, take, complete, poll, store}
use netring.NetRing.Flight.Keys.{count_key, count_key-nil, sq_key, cq_key, on_the_way, present, Inv}
use netring.NetRing.Flight.Issued.{issue-Inv}
use netring.NetRing.Flight.Moved.{take-Inv, complete-Inv, store-Inv}
use netring.NetRing.Flight.Landed.{Lands, in_flight, round-Lands, poll-Inv}

pub data Run (words : ℕ) (s : System) : System → Type 0 where
  here : Run words s s
  later : {t u : System} → Run words s t → Event words t u → Run words s u

-- a NetRing with a valid slot table, in the range of the task ids, and empty queues
pub record IsIdle (words ring back sq_ring cq_ring : ℕ) (nr : NetRing) : Type 0 where
  pub slots : Valid words ring back nr.slots
  pub bounds : nr.slots.fallback_mask + nr.slots.cap ≤ sys_ids
  pub sq : SqValid sq_ring nr.uring
  pub cq : CqValid cq_ring nr.uring
  pub none_submitted : submitted nr.uring ≡ []
  pub none_completed : completed nr.uring ≡ []

abbrev pub at_rest : NetRing → System
at_rest nr = record { nr = nr; taken = []; flights = [] }

module _ {words ring back sq_ring cq_ring : ℕ} where
  Event-Inv :
      {s t : System}
      → Event words s t
      → Inv words ring back sq_ring cq_ring s
      → Inv words ring back sq_ring cq_ring t
  Event-Inv {s}
        (issue task p g fd fuel da dl e op ctx apart small room back_room enough enough_back done
          appended)
        inv =
      issue-Inv s inv task p g fd fuel da dl e _ op ctx apart small room back_room enough
        enough_back done appended
  Event-Inv {s} (take oldest) inv = take-Inv s inv _ _ oldest
  Event-Inv {s} (complete e before after res flags at room) inv =
      complete-Inv s inv e before after res flags at room
  Event-Inv {s} (poll idle_after spin_count waited oldest done) inv =
      poll-Inv s inv _ _ oldest idle_after spin_count _ waited _ done
  Event-Inv {s} (store p cell same_op same_fd) inv = store-Inv s inv p cell same_op same_fd

  rest-Inv :
      (nr : NetRing)
      → IsIdle words ring back sq_ring cq_ring nr
      → Inv words ring back sq_ring cq_ring (at_rest nr)
  unfolding lookup
  rest-Inv nr idle = record {
    slots = idle.slots;
    bounds = idle.bounds;
    sq = idle.sq;
    cq = idle.cq;
    keys = λ k. omega (
      arith,
      ap (count_key sq_key k) idle.none_submitted,
      ap (count_key cq_key k) idle.none_completed,
      count_key-nil sq_key k,
      count_key-nil cq_key k,
    );
    held = λ k p found. absurd (cc);
  }

  Run-Inv :
      {s t : System}
      → Run words s t
      → Inv words ring back sq_ring cq_ring s
      → Inv words ring back sq_ring cq_ring t
  Run-Inv here inv = inv
  Run-Inv (later way event) inv = Event-Inv event (Run-Inv way inv)

  module _ (nr : NetRing) (s : System) (idle : IsIdle words ring back sq_ring cq_ring nr)
      (way : Run words (at_rest nr) s) where
    inv : Inv words ring back sq_ring cq_ring s
    inv = Run-Inv way (rest-Inv nr idle)

    -- In every state that a NetRing with empty queues reaches: an index is the user data of at most one
    -- entry that is in a queue or with the kernel, and of one exactly when a task is in flight with it.
    -- The slot of that index still holds the cell that the task was dispatched with.
    pub keys-in_flight :
        (k : ℕ)
        → (on_the_way k s ≡ present (lookup k s.flights))
          × ((p : ℕ) → lookup k s.flights ≡ some p → view s.nr.slots k ≡ some p)
    keys-in_flight k = (inv.keys k, λ p found. (inv.held k p found).0)

    -- In every state that a NetRing with empty queues reaches, the oldest completion in the queue belongs
    -- to a task in flight, and the next round of the poller ends without a panic: it delivers the result to
    -- the cell that this task was dispatched with, and to no other, or, for a send, counts it and gives
    -- the slot back.
    pub completion-Lands :
        (e : CqEntry) (rest : List CqEntry) (idle_after spin_count : ℕ) (waited : WaitResult)
        → completed s.nr.uring ≡ e ∷ rest
        → (p : ℕ) × (lookup e.user_data s.flights ≡ some p)
          × Lands s e idle_after spin_count waited p
    completion-Lands e rest idle_after spin_count waited oldest =
        let (p, found) = in_flight s inv e rest oldest in
        (p, found, round-Lands s inv e rest oldest idle_after spin_count waited p found)

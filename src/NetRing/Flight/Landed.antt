-- ===== src/NetRing/Flight/Landed.antt =====
-- method_poller.go: a round of the poller hands a completion to the cell of the task that it is for.
use netring.Prelude.{
  ℕ, ◌+◌, ◌≡◌, ◌≢◌, ◌⊎◌, inl, inr, refl, ap, ◌∙◌, sym, subst, false, none, some, List, [], ◌∷◌,
  ◌==◌, ==_iff, ==_refl, bit, lookup, delete, lookup-delete, arith, Bool-cases, Option-cases,
}
use netring.TaskSlots.Invariant.{view, Valid}
use netring.TaskSlots.Keeps.{del-same_bounds}
use netring.TaskSlots.Laws.{del-view}
use netring.IoUring.Entries.{CqEntry}
use netring.IoUring.Queues.{completed, get_task}
use netring.IoUring.Queues.Kept.{get_task-SubmissionsKept}
use netring.NetRing.Cells.{
  NetRing, Opcode, invalid, release_buffer, timer, accept, close, connect, recv, read, other, send,
  ok,
}
use netring.NetRing.Poller.{WaitResult, round_end, poll_round}
use netring.NetRing.Poller.Completing.{Delivers, dispatch_completion-Delivers, poll_round-get_task}
use netring.NetRing.Poller.Sending.{
  Sends, after_send, dispatch_completion-after_send, after_send-Sends,
}
use netring.NetRing.Flight.{System}
use netring.NetRing.Flight.Keys.{count_key, count_key-one, sq_key, cq_key, on_the_way, present, Inv}
use netring.NetRing.Flight.Issued.{ok-injective}

send-or-not : (o : Opcode) → (o ≡ send) ⊎ (o ≢ send)
send-or-not send = inl refl
send-or-not invalid = inr (λ h. cc)
send-or-not release_buffer = inr (λ h. cc)
send-or-not timer = inr (λ h. cc)
send-or-not accept = inr (λ h. cc)
send-or-not close = inr (λ h. cc)
send-or-not connect = inr (λ h. cc)
send-or-not recv = inr (λ h. cc)
send-or-not read = inr (λ h. cc)
send-or-not (other n) = inr (λ h. cc)

-- the state in which the poller dispatches the completion
abbrev pub landing : System → NetRing
landing s = record s.nr { uring = (get_task s.nr.uring).0 }

-- What a round makes of the completion `e` of the cell at `p`: it delivers the result to a cell whose
-- goroutine parks; for a send, the descriptor's send cell accounts for it and the slot is given back.
abbrev pub Lands : System → CqEntry → (idle_after spin_count : ℕ) → WaitResult → (p : ℕ) → Type 0
Lands s e idle_after spin_count waited p =
    (((s.nr.cells p).op_code ≢ send)
      × ((nr : NetRing) × (poll_round idle_after spin_count waited s.nr ≡ ok (nr, 0))
          × Delivers p e (landing s) nr))
    ⊎ (((s.nr.cells p).op_code ≡ send)
        × (poll_round idle_after spin_count waited s.nr ≡ ok (after_send p e (landing s), 0))
        × Sends p e (landing s) (after_send p e (landing s)))

module _ {words ring back sq_ring cq_ring : ℕ} (s : System)
    (inv : Inv words ring back sq_ring cq_ring s) (e : CqEntry) (rest : List CqEntry)
    (oldest : completed s.nr.uring ≡ e ∷ rest) where
  pub in_flight : (p : ℕ) × (lookup e.user_data s.flights ≡ some p)
  in_flight = elim (Option-cases (lookup e.user_data s.flights)) [
    | inr found ↦ found
    | inl missing ↦ absurd (
        let empty : present (lookup e.user_data s.flights) ≡ 0 = rw missing refl in
        let one : bit (e.user_data == e.user_data) ≡ 1 = rw (==_refl e.user_data) refl in
        omega (
          arith,
          inv.keys e.user_data,
          ap (count_key cq_key e.user_data) oldest,
          count_key-one cq_key e.user_data e rest,
          empty,
          one,
        ))
  ]

  pub round-Lands :
      (idle_after spin_count : ℕ) (waited : WaitResult) (p : ℕ)
      → lookup e.user_data s.flights ≡ some p
      → Lands s e idle_after spin_count waited p
  unfolding round_end
  round-Lands idle_after spin_count waited p found =
      let (held, low, fits) = inv.held e.user_data p found in
      let (_, _, takes) =
        poll_round-get_task idle_after spin_count waited s.nr e rest inv.cq oldest in
      elim (send-or-not (s.nr.cells p).op_code) [
        | inl is_send ↦ inr (
          is_send,
          takes
              ∙ ap round_end
                  (dispatch_completion-after_send p e (landing s) low held is_send (fits is_send)),
          after_send-Sends p e (landing s) inv.slots low held,
        )
        | inr parks ↦
            let (nr, ends, delivers) =
              dispatch_completion-Delivers p e (landing s) low held parks in
            inl (parks, (nr, takes ∙ ap round_end ends, delivers))
      ]

  -- A state that has lost the entry, and nothing else that the invariant reads.
  landed-Inv :
      (nr : NetRing)
      → nr.uring ≡ (get_task s.nr.uring).0
      → Valid words ring back nr.slots
      → (nr.slots.cap ≡ s.nr.slots.cap) × (nr.slots.fallback_mask ≡ s.nr.slots.fallback_mask)
      → ((k : ℕ) → (e.user_data == k) ≡ false → view nr.slots k ≡ view s.nr.slots k)
      → ((q : ℕ)
          → ((nr.cells q).op_code ≡ (s.nr.cells q).op_code) × ((nr.cells q).fd ≡ (s.nr.cells q).fd))
      → Inv words ring back sq_ring cq_ring
          (record { nr = nr; taken = s.taken; flights = delete e.user_data s.flights })
  landed-Inv nr same_uring valid same_bounds others same_cells =
      let (left, cq, _) = poll_round-get_task 0 0 WaitResult.woke s.nr e rest inv.cq oldest in
      let kept = get_task-SubmissionsKept s.nr.uring in
      record {
        slots = valid;
        bounds = omega (arith, inv.bounds, same_bounds);
        sq = rw same_uring (kept.valid inv.sq);
        cq = rw same_uring cq;
        keys = λ k.
            let fewer : on_the_way k (record { nr = nr; taken = s.taken; flights = [] })
                  + bit (e.user_data == k)
                ≡ on_the_way k s =
              rw same_uring (
                omega (
                  arith,
                  ap (count_key cq_key k) left,
                  ap (count_key cq_key k) oldest,
                  count_key-one cq_key k e rest,
                  ap (count_key sq_key k) kept.same,
                )) in
            rw (lookup-delete e.user_data k s.flights) (elim (Bool-cases (e.user_data == k)) [
              | inl hit ↦
                  let at : e.user_data ≡ k = (==_iff _ _).0 hit in
                  let one : bit (e.user_data == k) ≡ 1 = rw hit refl in
                  let was : present (lookup k s.flights) ≡ 1 = rw (← at) (rw (in_flight.1) refl) in
                  rw hit (omega (arith, fewer, one, was, inv.keys k))
              | inr miss ↦
                  let zero_less : bit (e.user_data == k) ≡ 0 = rw miss refl in
                  rw miss (omega (arith, fewer, zero_less, inv.keys k))
            ]);
        held = λ k q found. elim (Bool-cases (e.user_data == k)) [
          | inl hit ↦ absurd (
              let gone : none ≡ some q = rw (lookup-delete e.user_data k s.flights, hit) at found in
              cc)
          | inr miss ↦
              let before : lookup k s.flights ≡ some q =
                rw (lookup-delete e.user_data k s.flights, miss) at found in
              let (held, low, fits) = inv.held k q before in
              let (same_op, same_fd) = same_cells q in
              (others k miss ∙ held, low, λ is_send. rw same_fd (fits (sym same_op ∙ is_send)))
        ];
      }

  pub poll-Inv :
      (idle_after spin_count next : ℕ) (waited : WaitResult) (nr : NetRing)
      → poll_round idle_after spin_count waited s.nr ≡ ok (nr, next)
      → Inv words ring back sq_ring cq_ring
          (record { nr = nr; taken = s.taken; flights = delete e.user_data s.flights })
  poll-Inv idle_after spin_count next waited nr done =
      let (p, found) = in_flight in
      let (held, low, _) = inv.held e.user_data p found in
      elim (round-Lands idle_after spin_count waited p found) [
        | inl (parks, (after, ends, d)) ↦
            let same : after ≡ nr =
              ap (λ (r : NetRing × ℕ). r.0) (ok-injective (sym ends ∙ done)) in
            subst Goal same (
              landed-Inv after d.uring (rw d.slots inv.slots) (rw d.slots (refl, refl))
                (λ k miss. rw d.slots refl)
                (λ q. elim (Bool-cases (p == q)) [
                  | inl hit ↦ let at : p ≡ q = (==_iff _ _).0 hit in rw (← at) d.operation
                  | inr miss ↦ rw (d.others q miss) (refl, refl)
                ]))
        | inr (is_send, ends, _) ↦
            let same : after_send p e (landing s) ≡ nr =
              ap (λ (r : NetRing × ℕ). r.0) (ok-injective (sym ends ∙ done)) in
            let (valid, emptied) = del-view s.nr.slots inv.slots e.user_data held low in
            subst Goal same (
              landed-Inv (after_send p e (landing s)) refl valid
                (del-same_bounds e.user_data s.nr.slots) (λ k miss. emptied k ∙ rw miss refl)
                (λ q. elim (Bool-cases (p == q)) [
                  | inl hit ↦ let at : p ≡ q = (==_iff _ _).0 hit in rw hit (rw at (refl, refl))
                  | inr miss ↦ rw miss (refl, refl)
                ]))
      ]
    where
      Goal : NetRing → Type 0
      Goal n =
          Inv words ring back sq_ring cq_ring
            (record { nr = n; taken = s.taken; flights = delete e.user_data s.flights })

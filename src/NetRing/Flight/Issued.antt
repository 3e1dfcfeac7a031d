-- ===== src/NetRing/Flight/Issued.antt =====
-- method_submit.go: a dispatch keeps the invariant of the entries on their way.
use netring.Prelude.{
  ℕ, ◌+◌, ◌<◌, ◌≤◌, ◌≡◌, ◌≢◌, inl, inr, refl, ap, ◌∙◌, sym, subst, true, false, none, some, [], ◌∷◌,
  ◌++◌, ◌==◌, ==_iff, bit, lookup, insert, lookup-insert, entries, arith, Bool-cases, Option-cases,
}
use mathlib.Core.Option.{some-injective}
use netring.TaskSlots.Invariant.{view}
use netring.IoUring.Entries.{SqEntry}
use netring.IoUring.Queues.{submitted, completed, sq_count}
use netring.NetRing.Cells.{
  NetRing, TaskCell, RingTask, Opcode, invalid, release_buffer, timer, accept, close, connect, recv,
  read, other, send, send_cells_count, Outcome, ok, panic, out_of_fuel, arm,
}
use netring.NetRing.Dispatch.{dispatch}
use netring.NetRing.Dispatch.Submitting.{is_submitted, sqe_for, Ready, TaskQueued, dispatch-submits}
use netring.NetRing.Flight.{System, armed}
use netring.NetRing.Flight.Keys.{
  count_key, count_key-append, count_key-one, count_key-nil, last-eq, sq_key, cq_key, on_the_way,
  present, Inv,
}

pub ok-injective {ℓ} : {A : Type ℓ} {a b : A} → ok a ≡ ok b → a ≡ b
ok-injective {A} {a} {b} e = ap value e
  where
    value : Outcome A → A
    value (ok x) = x
    value panic = a
    value out_of_fuel = a

sqe_for-key :
    (dummy_addr dummy_len : ℕ) (task : RingTask) (o : Opcode) (fd idx : ℕ)
    → is_submitted o ≡ true
    → (sqe_for dummy_addr dummy_len task o fd idx).user_data ≡ idx
sqe_for-key da dl task accept fd idx h = refl
sqe_for-key da dl task connect fd idx h = refl
sqe_for-key da dl task recv fd idx h = refl
sqe_for-key da dl task read fd idx h = refl
sqe_for-key da dl task send fd idx h = refl
sqe_for-key da dl task close fd idx h = refl
sqe_for-key da dl task invalid fd idx h = absurd (cc)
sqe_for-key da dl task release_buffer fd idx h = absurd (cc)
sqe_for-key da dl task timer fd idx h = absurd (cc)
sqe_for-key da dl task (other n) fd idx h = absurd (cc)

differ : (a b : ℕ) → a ≢ b → (a == b) ≡ false
differ a b apart = ground (arith, apart)

module _ {words ring back sq_ring cq_ring : ℕ} (s : System)
    (inv : Inv words ring back sq_ring cq_ring s) where
  -- a slot that is free is the key of no entry on its way
  fresh-key : (k : ℕ) → view s.nr.slots k ≡ none → lookup k s.flights ≡ none
  fresh-key k free = elim (Option-cases (lookup k s.flights)) [
    | inl e ↦ e
    | inr (p, e) ↦ absurd (let (held, _, _) = inv.held k p e in cc)
  ]

  queued-keys :
      (nr : NetRing) (e : SqEntry) (p k : ℕ)
      → submitted nr.uring ≡ submitted s.nr.uring ++ e ∷ []
      → completed nr.uring ≡ completed s.nr.uring
      → view s.nr.slots e.user_data ≡ none
      → on_the_way k (record { nr = nr; taken = s.taken; flights = insert e.user_data p s.flights })
        ≡ present (lookup k (insert e.user_data p s.flights))
  queued-keys nr e p k appended same free =
      let more : count_key sq_key k (submitted nr.uring)
          ≡ count_key sq_key k (submitted s.nr.uring) + bit (e.user_data == k) =
        omega (
          arith,
          ap (count_key sq_key k) appended,
          count_key-append sq_key k (submitted s.nr.uring) (e ∷ []),
          count_key-one sq_key k e [],
          count_key-nil sq_key k,
        ) in
      let others = ap (count_key cq_key k) same in
      rw (lookup-insert e.user_data k p s.flights) (elim (Bool-cases (e.user_data == k)) [
        | inl hit ↦
            let at : e.user_data ≡ k = (==_iff _ _).0 hit in
            let one : bit (e.user_data == k) ≡ 1 = rw hit refl in
            let none_there : present (lookup k s.flights) ≡ 0 =
              rw (fresh-key k (rw at at free)) refl in
            rw hit (omega (arith, more, others, inv.keys k, none_there, one))
        | inr miss ↦
            let zero_more : bit (e.user_data == k) ≡ 0 = rw miss refl in
            rw miss (omega (arith, more, others, inv.keys k, zero_more))
      ])

  queued-Inv :
      (task : RingTask) (p g fd : ℕ) (e : SqEntry) (nr : NetRing) (entry : ℕ → SqEntry)
      → (queued : TaskQueued words ring back sq_ring entry p (armed p g fd task s.nr) nr)
      → nr.cells ≡ (armed p g fd task s.nr).cells
      → e.user_data ≡ queued.idx
      → submitted nr.uring ≡ submitted s.nr.uring ++ e ∷ []
      → ((k q : ℕ) → lookup k s.flights ≡ some q → p ≢ q)
      → (task.opcode ≡ send → fd < send_cells_count)
      → Inv words ring back sq_ring cq_ring
          (record { nr = nr; taken = s.taken; flights = insert e.user_data p s.flights })
  queued-Inv task p g fd e nr entry queued same_cells key appended apart small = record {
    slots = queued.slots_valid;
    bounds = let same = queued.same_bounds in omega (arith, inv.bounds, same);
    sq = queued.queue_valid;
    cq = queued.same_completions.valid inv.cq;
    keys = λ k. queued-keys nr e p k appended queued.same_completions.same (rw key (queued.fresh));
    held = λ k q found. elim (Bool-cases (e.user_data == k)) [
      | inl hit ↦
          let at : queued.idx ≡ k = sym key ∙ (==_iff _ _).0 hit in
          let hit_idx : (queued.idx == k) ≡ true = (==_iff _ _).1 at in
          let same : p ≡ q =
            some-injective p q (rw (lookup-insert e.user_data k p s.flights, hit) at found) in
          let cell : nr.cells q ≡ arm g task.opcode fd =
            ap (λ (c : ℕ → TaskCell). c q) same_cells ∙ rw ((==_iff p q).1 same) refl in
          (
            queued.stored k ∙ rw hit_idx (ap some same),
            omega (arith, queued.bounded, inv.bounds, at),
            λ is_send. rw cell (small (sym (ap (λ (c : TaskCell). c.op_code) cell) ∙ is_send)),
          )
      | inr miss ↦
          let found_before : lookup k s.flights ≡ some q =
            rw (lookup-insert e.user_data k p s.flights, miss) at found in
          let (held, low, fits) = inv.held k q found_before in
          let miss_idx : (queued.idx == k) ≡ false = rw (← key) miss in
          let other : (p == q) ≡ false = differ p q (apart k q found_before) in
          let cell : nr.cells q ≡ s.nr.cells q =
            ap (λ (c : ℕ → TaskCell). c q) same_cells ∙ rw other refl in
          (
            queued.stored k ∙ rw miss_idx held,
            low,
            λ is_send. rw cell (fits (sym (ap (λ (c : TaskCell). c.op_code) cell) ∙ is_send)),
          )
    ];
  }

  pub issue-Inv :
      (task : RingTask) (p g fd fuel dummy_addr dummy_len : ℕ) (e : SqEntry) (nr : NetRing)
      → is_submitted task.opcode ≡ true
      → task.ctx ≡ some p
      → ((k q : ℕ) → lookup k s.flights ≡ some q → p ≢ q)
      → (task.opcode ≡ send → fd < send_cells_count)
      → sq_count s.nr.uring < s.nr.uring.sq_entries
      → entries s.nr.slots.fallback ≤ s.nr.slots.fallback_mask
      → words < fuel
      → entries s.nr.slots.fallback < fuel
      → dispatch dummy_addr dummy_len fuel none task (armed p g fd task s.nr) ≡ ok nr
      → submitted nr.uring ≡ submitted s.nr.uring ++ e ∷ []
      → Inv words ring back sq_ring cq_ring
          (record { nr = nr; taken = s.taken; flights = insert e.user_data p s.flights })
  issue-Inv task p g fd fuel da dl e nr op ctx apart small room back_room enough enough_back done
        appended =
      let start : NetRing = armed p g fd task s.nr in
      let is_ready : Ready words ring back sq_ring fuel p task start = record {
        slots_valid = inv.slots;
        queue_valid = inv.sq;
        submitted_op = op;
        ctx = ctx;
        room = room;
        fallback_room = back_room;
        fuel_words = enough;
        fuel_fallback = enough_back;
      } in
      let (after, ends, queued, same_cells) = dispatch-submits da dl fuel p task start is_ready in
      let same : after ≡ nr = ok-injective (sym ends ∙ done) in
      subst Goal same
        (λ more.
          queued-Inv task p g fd e after _ queued same_cells
            (ap sq_key (last-eq (submitted s.nr.uring) (sym more ∙ queued.queued))
              ∙ sqe_for-key da dl task task.opcode (start.cells p).fd queued.idx op)
            more apart small)
        appended
    where
      Goal : NetRing → Type 0
      Goal n =
          submitted n.uring ≡ submitted s.nr.uring ++ e ∷ []
          → Inv words ring back sq_ring cq_ring
              (record { nr = n; taken = s.taken; flights = insert e.user_data p s.flights })

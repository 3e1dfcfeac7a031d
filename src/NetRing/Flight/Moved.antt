-- ===== src/NetRing/Flight/Moved.antt =====
-- method_poller.go and the kernel: the kernel's moves, and a goroutine's store to a cell, keep the
-- invariant of the entries on their way.
use netring.Prelude.{
  ℕ, ◌+◌, ◌<◌, ◌≡◌, inl, inr, ap, ◌∙◌, sym, List, [], ◌∷◌, ◌++◌, ◌==◌, ==_iff, arith, Bool-cases, ℤ,
  update,
}
use netring.IoUring.Entries.{SqEntry, CqEntry}
use netring.IoUring.Queues.{submitted, completed, cq_count, consume, post}
use netring.IoUring.Queues.Fifo.{consume-submitted, post-completed}
use netring.IoUring.Queues.Kept.{consume-CompletionsKept, post-SubmissionsKept}
use netring.NetRing.Cells.{TaskCell}
use netring.NetRing.Flight.{System}
use netring.NetRing.Flight.Keys.{
  count_key, count_key-append, count_key-one, count_key-nil, sq_key, cq_key, Inv,
}

module _ {words ring back sq_ring cq_ring : ℕ} (s : System)
    (inv : Inv words ring back sq_ring cq_ring s) where
  pub take-Inv :
      (e : SqEntry) (rest : List SqEntry)
      → submitted s.nr.uring ≡ e ∷ rest
      → Inv words ring back sq_ring cq_ring
          (record s { nr = record s.nr { uring = consume s.nr.uring }; taken = s.taken ++ e ∷ [] })
  take-Inv e rest oldest =
      let (valid, left) = consume-submitted s.nr.uring inv.sq e rest oldest in
      let kept = consume-CompletionsKept s.nr.uring in
      record {
        slots = inv.slots;
        bounds = inv.bounds;
        sq = valid;
        cq = kept.valid inv.cq;
        keys = λ k. omega (
          arith,
          inv.keys k,
          ap (count_key sq_key k) oldest,
          ap (count_key sq_key k) left,
          count_key-one sq_key k e rest,
          count_key-append sq_key k s.taken (e ∷ []),
          count_key-one sq_key k e [],
          count_key-nil sq_key k,
          ap (count_key cq_key k) kept.same,
        );
        held = inv.held;
      }

  pub complete-Inv :
      (e : SqEntry) (before after : List SqEntry) (res : ℤ) (flags : ℕ)
      → s.taken ≡ before ++ e ∷ after
      → cq_count s.nr.uring < s.nr.uring.cq_length_mask + 1
      → Inv words ring back sq_ring cq_ring (record s {
        nr = record s.nr {
          uring = post (record { user_data = e.user_data; res = res; flags = flags }) s.nr.uring;
        };
        taken = before ++ after;
      })
  complete-Inv e before after res flags at room =
      let c : CqEntry = record { user_data = e.user_data; res = res; flags = flags } in
      let (valid, more) = post-completed s.nr.uring c inv.cq room in
      let kept = post-SubmissionsKept s.nr.uring c in
      record {
        slots = inv.slots;
        bounds = inv.bounds;
        sq = kept.valid inv.sq;
        cq = valid;
        keys = λ k. omega (
          arith,
          inv.keys k,
          ap (count_key sq_key k) at,
          count_key-append sq_key k before (e ∷ after),
          count_key-one sq_key k e after,
          count_key-append sq_key k before after,
          ap (count_key cq_key k) more,
          count_key-append cq_key k (completed s.nr.uring) (c ∷ []),
          count_key-one cq_key k c [],
          count_key-nil cq_key k,
          ap (count_key sq_key k) kept.same,
        );
        held = inv.held;
      }

  pub store-Inv :
      (p : ℕ) (cell : TaskCell)
      → cell.op_code ≡ (s.nr.cells p).op_code
      → cell.fd ≡ (s.nr.cells p).fd
      → Inv words ring back sq_ring cq_ring
          (record s { nr = record s.nr { cells = update s.nr.cells p cell } })
  store-Inv p cell same_op same_fd = record {
    slots = inv.slots;
    bounds = inv.bounds;
    sq = inv.sq;
    cq = inv.cq;
    keys = inv.keys;
    held = λ k q found.
        let (held, low, fits) = inv.held k q found in
        (
          held,
          low,
          elim (Bool-cases (p == q)) [
            | inl hit ↦
                let at : p ≡ q = (==_iff _ _).0 hit in
                rw hit (λ is_send. rw same_fd (rw (← at) at fits (sym same_op ∙ is_send)))
            | inr miss ↦ rw miss fits
          ],
        );
  }

-- ===== src/NetRing/Send/Waiting.antt =====
-- method_send.go and the send case of method_poller.go: one goroutine that sends on a descriptor, with
-- the poller that records the results, as the single accesses to the send cell that they share. A submit
-- does not fail, the counters of sends do not reach 2 ^ 64, and the kernel sends no more than it is asked.
pub mod Whole
pub mod Runs
mod Tests
use netring.Prelude.{
  ℕ, ◌+◌, ◌%◌, ◌^◌, ◌≤◌, ◌<◌, ◌≡◌, Bool, true, false, Option, none, some, List, [], ◌∷◌, ◌++◌, ◌==◌,
  if◌then◌else◌, ℤ, is_negative, pos_part, neg_part, length,
}
use netring.NetRing.Cells.{NetError, errno, SendCell}
use netring.NetRing.Send.{compensate, queue_send}

-- where the goroutine is: in none of the calls, or in `previousSendWait` at its label, before the load of
-- `finished`, with the value loaded, behind the loop, or returned
pub data Sender : Type 0 where
  away labelled spinning settled : Sender
  loaded : ℕ → Sender
  returned : Option NetError → Sender

-- The send cell, the lengths of the sends that were submitted and have no result, and whether the poller
-- has written a result that it has not counted. Two sums are no words of the program: the bytes that the
-- kernel took since the last Send, and the length of that Send's data.
pub record Line : Type 0 where
  pub sender : Sender
  pub cell : SendCell
  pub outstanding : List ℕ
  pub uncounted : Bool
  pub acked : ℕ
  pub total : ℕ

-- the tests after the load of `finished`, of the error and of that value
abbrev pub after_load : (finished : ℕ) → SendCell → (err : Option NetError) → Sender
after_load finished s (some e) = returned (some e)
after_load finished s none = if finished == s.queued then settled else spinning

-- the next step of `previousSendWait`, the send cell, and the lengths that it submits
unfoldable pub wait_step : (p : ℕ) → Sender → SendCell → Sender × SendCell × List ℕ
wait_step p away s = (away, s, [])
wait_step p labelled s = ((if s.queued == 0 then returned none else spinning), s, [])
wait_step p spinning s = (loaded s.finished, s, [])
wait_step p (loaded finished) s = (after_load finished s s.err, s, [])
wait_step p settled s =
    if s.sent == s.len
    then (returned none, s, [])
    else (labelled, (compensate p s).1, (compensate p s).0.len ∷ [])
wait_step p (returned r) s = (returned r, s, [])

-- the poller's store of a result
unfoldable pub record_result : ℤ → SendCell → SendCell
record_result res s =
    if is_negative res
    then record s { err = some (errno (neg_part res)) }
    else record s { sent = (s.sent + pos_part res) % 2 ^ 64 }

-- `finished.Add(1)`
unfoldable pub count_finished : SendCell → SendCell
count_finished s = record s { finished = (s.finished + 1) % 2 ^ 64 }

-- the bytes that a result tells of
unfoldable pub taken_bytes : ℤ → ℕ
taken_bytes res = if is_negative res then 0 else pos_part res

pub data Access (l : Line) : Line → Type 0 where
  -- `Send` or `FlushFDSends` is called
  begin : l.sender ≡ away → Access l (record l { sender = labelled })
  wait :
      (p : ℕ) {t : Sender} {s : SendCell} {submitted : List ℕ}
      → l.cell.queued + 1 < 2 ^ 64
      → wait_step p l.sender l.cell ≡ (t, s, submitted)
      → Access l (record l { sender = t; cell = s; outstanding = l.outstanding ++ submitted })
  -- `Send` after the wait
  queue :
      (p buf len : ℕ)
      → l.sender ≡ returned none
      → len < 2 ^ 32
      → l.cell.queued + 1 < 2 ^ 64
      → Access l (record {
        sender = away;
        cell = (queue_send p buf len l.cell).1;
        outstanding = l.outstanding ++ (queue_send p buf len l.cell).0.len ∷ [];
        uncounted = l.uncounted;
        acked = 0;
        total = len;
      })
  -- `FlushFDSends` returns, or `Send` with the error
  leave : {r : Option NetError} → l.sender ≡ returned r → Access l (record l { sender = away })
  result :
      {len : ℕ} {rest : List ℕ} (res : ℤ)
      → l.uncounted ≡ false
      → l.outstanding ≡ len ∷ rest
      → taken_bytes res ≤ len
      → Access l (record l {
        cell = record_result res l.cell;
        outstanding = rest;
        uncounted = true;
        acked = l.acked + taken_bytes res;
      })
  count :
      l.uncounted ≡ true → Access l (record l { cell = count_finished l.cell; uncounted = false })

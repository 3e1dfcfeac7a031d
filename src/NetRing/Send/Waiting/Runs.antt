-- ===== src/NetRing/Send/Waiting/Runs.antt =====
-- What holds when `previousSendWait` returns.
use netring.Prelude.{◌≡◌, refl, subst, false, none, [], ◌++◌, arith}
use netring.NetRing.Cells.{SendCell}
use netring.NetRing.Send.{queue_send, send_task}
use netring.NetRing.Send.Waiting.{
  away, labelled, returned, Line, Access, begin, wait, queue, leave, result, count,
}
use netring.NetRing.Send.Waiting.Whole.{
  Inv, flying, Staged, no_length, moved-Inv, sent-Inv, wait-Inv, result-Inv, count-Inv,
}

-- a send cell that no send has used, as the zeroed array of New has it
abbrev pub unused : SendCell
unused = record { finished = 0; queued = 0; err = none; buf = 0; len = 0; sent = 0 }

abbrev pub start : Line
start = record {
  sender = away;
  cell = unused;
  outstanding = [];
  uncounted = false;
  acked = 0;
  total = 0;
}

pub data Run : Line → Type 0 where
  here : Run start
  later : {l m : Line} → Run l → Access l m → Run m

start-Inv : Inv start
start-Inv = record {
  counts = refl;
  alone = omega arith;
  fits = omega arith;
  asked = λ n rest e. absurd (cc);
  bytes = refl;
  fresh = λ e. (refl, refl);
  staged = tt;
}

returned-idle :
    (l : Line)
    → Inv l
    → l.sender ≡ returned none
    → Staged (returned none) l.cell (flying l.outstanding l.uncounted)
returned-idle l inv at =
    subst (λ t. Staged t l.cell (flying l.outstanding l.uncounted)) at inv.staged

Access-Inv : (l : Line) {m : Line} → Access l m → Inv l → Inv m
unfolding queue_send send_task
Access-Inv l (begin at) inv = moved-Inv l labelled inv tt
Access-Inv l (wait p {t} {s} {submitted} room stepped) inv =
    subst
      (λ next.
        Inv (record l { sender = next.0; cell = next.1; outstanding = l.outstanding ++ next.2 }))
      stepped (wait-Inv p l l.sender refl room inv)
Access-Inv l (queue p buf len at short room) inv =
    sent-Inv l away (queue_send p buf len l.cell).1 (queue_send p buf len l.cell).0.len 0 len inv
      (returned-idle l inv at).0 room (refl, omega (arith, room)) (omega (arith, short), refl)
      (omega arith) (omega (arith, short)) tt
Access-Inv l (leave at) inv = moved-Inv l away inv tt
Access-Inv l (result {len} {rest} res counted oldest few) inv =
    result-Inv l len rest res counted oldest few inv
Access-Inv l (count uncounted) inv = count-Inv l uncounted inv

Run-Inv : {l : Line} → Run l → Inv l
Run-Inv here = start-Inv
Run-Inv (later {l} way move) = Access-Inv l move (Run-Inv way)

-- When previousSendWait has returned nil, in whatever interleaving of its accesses with those of the
-- poller: no send of the descriptor is under way, none of them has failed, and the results since the
-- last Send, of that send and of its continuations, add up to the length of its data.
pub wait-whole :
    (l : Line)
    → Run l
    → l.sender ≡ returned none
    → (l.outstanding ≡ []) × (l.uncounted ≡ false) × (l.cell.err ≡ none) × (l.acked ≡ l.total)
wait-whole l way at =
    let inv = Run-Inv way in
    let (idle, fine, whole) = returned-idle l inv at in
    (
      no_length l.outstanding (omega (arith, idle)),
      ground (arith, idle),
      fine,
      omega (arith, inv.bytes, whole),
    )

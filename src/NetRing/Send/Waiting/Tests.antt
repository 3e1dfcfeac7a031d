-- ===== src/NetRing/Send/Waiting/Tests.antt =====
-- A send of ten bytes of which the kernel takes four at first.
use netring.Prelude.{◌≡◌, refl, false, none, [], arith, pos}
use netring.NetRing.Poller.{record_send}
use netring.NetRing.Cells.{SendCell}
use netring.NetRing.Send.{queue_send, compensate, send_task}
use netring.NetRing.Send.Waiting.{
  Line, returned, wait_step, record_result, count_finished, taken_bytes, begin, wait, queue, result,
  count,
}
use netring.NetRing.Send.Waiting.Runs.{unused, Run, here, later, wait-whole}

-- the two accesses of the poller are the send case of its round
both_accesses : (s : SendCell) → record_send (pos 7) s ≡ count_finished (record_result (pos 7) s)
unfolding record_send record_result count_finished
both_accesses s = refl

abbrev asked : SendCell
asked = (queue_send 3 4096 10 unused).1

abbrev partly_sent : SendCell
partly_sent = count_finished (record_result (pos 4) asked)

abbrev continued : SendCell
continued = (compensate 3 partly_sent).1

abbrev all_sent : SendCell
all_sent = count_finished (record_result (pos 6) continued)

abbrev waited : Line
waited = record {
  sender = returned none;
  cell = all_sent;
  outstanding = [];
  uncounted = false;
  acked = 10;
  total = 10;
}

-- The goroutine looks once while the poller has written the first result and not counted it.
to_waited : Run waited
unfolding wait_step record_result count_finished taken_bytes queue_send compensate send_task
to_waited =
    later
      (later
        (later
          (later
            (later
              (later
                (later
                  (later
                    (later
                      (later
                        (later
                          (later
                            (later
                              (later
                                (later
                                  (later
                                    (later
                                      (later (later here (begin refl)) (wait 3 (omega arith) refl))
                                      (queue 3 4096 10 refl (omega arith) (omega arith)))
                                    (begin refl))
                                  (wait 3 (omega arith) refl))
                                (result (pos 4) refl refl (omega arith)))
                              (wait 3 (omega arith) refl))
                            (wait 3 (omega arith) refl))
                          (count refl))
                        (wait 3 (omega arith) refl))
                      (wait 3 (omega arith) refl))
                    (wait 3 (omega arith) refl))
                  (wait 3 (omega arith) refl))
                (result (pos 6) refl refl (omega arith)))
              (count refl))
            (wait 3 (omega arith) refl))
          (wait 3 (omega arith) refl))
        (wait 3 (omega arith) refl))
      (wait 3 (omega arith) refl)

wait-whole_example :
    (waited.outstanding ≡ [])
    × (waited.uncounted ≡ false)
    × (waited.cell.err ≡ none)
    × (waited.acked ≡ waited.total)
wait-whole_example = wait-whole waited to_waited refl

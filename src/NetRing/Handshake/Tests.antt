-- ===== src/NetRing/Handshake/Tests.antt =====
-- A run in which the goroutine falls asleep before the completion.
use netring.Prelude.{◌≤◌, ◌≡◌, ◌≢◌, ◌⊎◌, refl, pos}
use netring.NetRing.Handshake.{
  park_unlock, complete_cas, after_unlock, after_cas, resumed, waiting, finished, written, Flight,
  park, complete, go_ready, Step, enter_park, swap_parked, write_result, swap_done, ready, armed,
  Reach, start, next,
}
use netring.NetRing.Handshake.Wakeups.{wakeups-Reach, progress}

abbrev asleep_then_done : Flight
asleep_then_done = complete (record (park (record (armed (pos 0)) { issuer = waiting })) {
  result = pos 5;
  completer = written;
})

woken_run : Reach (pos 0) (go_ready asleep_then_done)
unfolding park park_unlock after_unlock complete complete_cas after_cas
woken_run =
    next
      (next
        (next (next (next start (enter_park _ refl)) (swap_parked _ refl))
          (write_result _ (pos 5) refl))
        (swap_done _ refl))
      (ready _ refl)

wakeups-Reach_example :
    ((go_ready asleep_then_done).bad_wakes ≡ 0)
    × ((go_ready asleep_then_done).wakeups ≤ 1)
    × (((go_ready asleep_then_done).completer ≡ finished)
        ⊎ ((go_ready asleep_then_done).issuer ≢ resumed))
wakeups-Reach_example = wakeups-Reach woken_run

progress_example :
    ((g : Flight) × Step (go_ready asleep_then_done) g)
    ⊎ (((go_ready asleep_then_done).issuer ≡ resumed)
        × ((go_ready asleep_then_done).completer ≡ finished))
progress_example = progress woken_run

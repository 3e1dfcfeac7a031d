-- ===== src/NetRing/Handshake.antt =====
-- goruntime.go and the completion half of method_poller.go: how the goroutine that issued an operation
-- and the poller meet on the cell's state, in any interleaving of their atomic steps. gopark puts the
-- goroutine to waiting, then calls netringParkUnlock, and resumes the goroutine if that returns false;
-- goready of a goroutine that is not waiting is the runtime's fatal "bad g state".
pub mod Wakeups
mod Tests
use netring.Prelude.{ℕ, suc, ◌+◌, ◌≡◌, ◌≢◌, Bool, true, false, ℤ}
use netring.NetRing.Cells.{TaskState, in_core, done, parked}

-- `netringParkUnlock`: Swap(Parked) == InCore, and the state that the swap leaves
pub park_unlock : TaskState → TaskState × Bool
park_unlock in_core = (parked, true)
park_unlock done = (parked, false)
park_unlock parked = (parked, false)

-- `CompareAndSwap(taskStateInCore, taskStateDone)`
unfoldable pub complete_cas : TaskState → TaskState × Bool
complete_cas in_core = (done, true)
complete_cas done = (done, false)
complete_cas parked = (parked, false)

-- the goroutine: before gopark, in it before netringParkUnlock, asleep, and past gopark
pub data Issuer : Type 0 where
  running waiting asleep resumed : Issuer

-- the poller: before the completion, after the stores of the result, after the CompareAndSwap that
-- failed, and after the whole completion
pub data Completer : Type 0 where
  idle written woken finished : Completer

-- One operation in flight. `wakeups` counts the times that the goroutine got past gopark, `bad_wakes`
-- the calls of goready on a goroutine that was not waiting.
pub record Flight : Type 0 where
  pub state : TaskState
  pub result : ℤ
  pub issuer : Issuer
  pub completer : Completer
  pub wakeups : ℕ
  pub bad_wakes : ℕ

-- what netringParkUnlock's answer does to the goroutine
after_unlock : Bool → Flight → Flight
after_unlock true f = record f { issuer = asleep }
after_unlock false f = record f { issuer = resumed; wakeups = f.wakeups + 1 }

-- the swap, from inside gopark
pub park : Flight → Flight
unfolding park_unlock after_unlock
park f = let (s, sleeps) = park_unlock f.state in after_unlock sleeps (record f { state = s })

-- goready
wake : Issuer → Flight → Flight
wake running f = record f { bad_wakes = f.bad_wakes + 1 }
wake waiting f = record f { issuer = resumed; wakeups = f.wakeups + 1 }
wake asleep f = record f { issuer = resumed; wakeups = f.wakeups + 1 }
wake resumed f = record f { bad_wakes = f.bad_wakes + 1 }

-- what the answer of the CompareAndSwap leads to
after_cas : Bool → Flight → Flight
after_cas true f = record f { completer = finished }
after_cas false f = record f { completer = woken }

pub complete : Flight → Flight
unfolding complete_cas after_cas
complete f = let (s, won) = complete_cas f.state in after_cas won (record f { state = s })

pub go_ready : Flight → Flight
unfolding wake
go_ready f = wake f.issuer (record f { completer = finished })

-- One atomic step of either side; the kernel's result `r` is any number.
pub data Step : Flight → Flight → Type 0 where
  enter_park : (f : Flight) → f.issuer ≡ running → Step f (record f { issuer = waiting })
  swap_parked : (f : Flight) → f.issuer ≡ waiting → Step f (park f)
  write_result :
      (f : Flight) (r : ℤ)
      → f.completer ≡ idle
      → Step f (record f { result = r; completer = written })
  swap_done : (f : Flight) → f.completer ≡ written → Step f (complete f)
  ready : (f : Flight) → f.completer ≡ woken → Step f (go_ready f)

-- `taskCell` has armed the cell, and the task has been submitted.
abbrev pub armed : ℤ → Flight
armed r = record {
  state = in_core;
  result = r;
  issuer = running;
  completer = idle;
  wakeups = 0;
  bad_wakes = 0;
}

pub data Reach (r : ℤ) : Flight → Type 0 where
  start : Reach r (armed r)
  next : {f g : Flight} → Reach r f → Step f g → Reach r g

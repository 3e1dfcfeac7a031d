-- ===== src/NetRing/Submit.antt =====
-- method_submit.go: `submit` of a goroutine, and the shared words that it and the fallback loop use.
-- Every atomic load, store, swap or channel operation is a step of its own. The compare-and-swap loops
-- of submitIntention and setFallbackActive are the step of the swap that succeeds: those that fail
-- change nothing. Of dispatch only the submission queue's tail counts here, which Push reads and then
-- stores; tasks are those of the network operations, whose dispatch pushes one entry.
pub mod Translator
use netring.Prelude.{
  ℕ, ◌+◌, ◌-◌, ◌%◌, ◌^◌, ◌<◌, ◌≡◌, ◌≢◌, Bool, true, false, List, [], ◌∷◌, ◌++◌, length,
}
use netring.NetRing.Cells.{RingTask}

-- The barrier's flag and epoch, the two counters of pushes, the ticket, the submission queue's head and
-- tail, the fallback channel, and whether `stop` is closed. `total` and `dropped` are no words of the
-- program: they count the tasks that were submitted, and those that a stop made the program give up.
pub record Memory : Type 0 where
  pub active : Bool
  pub epoch : ℕ
  pub finished : ℕ
  pub ticket_tail : ℕ
  pub sq_head : ℕ
  pub sq_tail : ℕ
  pub chan : List RingTask
  pub stopped : Bool
  pub total : ℕ
  pub dropped : ℕ

-- Where a goroutine stands: outside `submit`; before the load of the ticket; with the ticket it loaded;
-- before the swap of the ticket; before the test for a full queue; before setFallbackActive; at the
-- select that sends the task; before the load of the tail in Push, and before its store; before
-- `finishedPushes.Add(1)`; before a new load of the barrier.
pub data Pc : Type 0 where
  idle trying activating sending pushing counting retrying : Pc
  loaded claiming claimed writing : ℕ → Pc

-- the branch at `statusCheck`
abbrev pub route : Bool → Pc
route true = sending
route false = trying

-- `tail - head` on uint32
abbrev pub waiting_entries : (tail head : ℕ) → ℕ
waiting_entries tail head = (tail + 2 ^ 32 - head) % 2 ^ 32

-- A step of one goroutine; `size` is the number of submission entries, `buffer` the capacity of the
-- fallback channel.
pub data Move (size buffer : ℕ) (m : Memory) : Pc → Memory → Pc → Type 0 where
  intend :
      Move size buffer m idle
        (record m { epoch = (m.epoch + 1) % 2 ^ 63; total = m.total + 1 })
        (route m.active)
  load_ticket : Move size buffer m trying m (loaded m.ticket_tail)
  unequal : {k : ℕ} → k ≢ m.sq_tail → Move size buffer m (loaded k) m retrying
  equal : {k : ℕ} → k ≡ m.sq_tail → Move size buffer m (loaded k) m (claiming k)
  again : Move size buffer m retrying m (route m.active)
  win :
      {t : ℕ}
      → m.ticket_tail ≡ t
      → Move size buffer m (claiming t) (record m { ticket_tail = (t + 1) % 2 ^ 32 }) (claimed t)
  lose : {t : ℕ} → m.ticket_tail ≢ t → Move size buffer m (claiming t) m retrying
  full : {t : ℕ} → waiting_entries t m.sq_head ≡ size → Move size buffer m (claimed t) m activating
  room : {t : ℕ} → waiting_entries t m.sq_head ≢ size → Move size buffer m (claimed t) m pushing
  activate : Move size buffer m activating (record m { active = true }) sending
  send :
      (task : RingTask)
      → length m.chan < buffer
      → Move size buffer m sending (record m { chan = m.chan ++ task ∷ [] }) idle
  refuse : m.stopped ≡ true → Move size buffer m sending (record m { dropped = m.dropped + 1 }) idle
  load_tail : Move size buffer m pushing m (writing m.sq_tail)
  store_tail :
      {x : ℕ} → Move size buffer m (writing x) (record m { sq_tail = (x + 1) % 2 ^ 32 }) counting
  count : Move size buffer m counting (record m { finished = (m.finished + 1) % 2 ^ 64 }) idle

-- ===== src/NetRing/Submit/Translator/Invariant.antt =====
-- What holds of the submission protocol between any two steps, while there are fewer than 2 ^ 32 - 2
-- submissions.
use netring.Prelude.{ℕ, ◌+◌, ◌^◌, ◌≤◌, ◌<◌, ◌≡◌, Bool, true, false, length, bit, sum_below}
use netring.NetRing.Submit.{Memory, Pc, idle, activating, sending, counting, claiming, claimed}
use netring.NetRing.Submit.Translator.{
  Phase, took, reselecting, unlocking, draining, snapped, holding, bumping, selecting, storing,
  leaving, storing_ticket, dropping, System,
}

-- the goroutine has the ticket
abbrev pub holds : Pc → ℕ
holds (claimed _) = 1
holds activating = 1
holds Pc.pushing = 1
holds (Pc.writing _) = 1
holds _ = 0

-- its task is submitted, and neither pushed nor in the channel
abbrev pub pending : Pc → ℕ
pending idle = 0
pending counting = 0
pending _ = 1

-- its task is pushed, and not yet counted
abbrev pub uncounted : Pc → ℕ
uncounted counting = 1
uncounted _ = 0

-- it will send its task to the channel
abbrev pub committed : Pc → ℕ
committed sending = 1
committed _ = 0

-- The loop has a task that it has not pushed.
abbrev pub in_hand : Phase → ℕ
in_hand took = 1
in_hand (snapped _ _) = 1
in_hand (holding _ _ _) = 1
in_hand (bumping _ _ _) = 1
in_hand (Phase.pushing _ _ _) = 1
in_hand (Phase.writing _ _ _ _) = 1
in_hand (dropping _) = 1
in_hand _ = 0

-- The loop has raised the ticket for its push.
abbrev pub bumped : Phase → ℕ
bumped (Phase.pushing _ _ _) = 1
bumped (Phase.writing _ _ _ _) = 1
bumped _ = 0

-- The loop has left the fallback, and not yet set the ticket free.
abbrev pub unlocks : Phase → ℕ
unlocks unlocking = 1
unlocks (storing_ticket _) = 1
unlocks _ = 0

-- Sums over the goroutines: those with the ticket, the pending, the uncounted, the committed.
pub record Sums : Type 0 where
  pub held : ℕ
  pub pend : ℕ
  pub uncount : ℕ
  pub commit : ℕ

abbrev pub sums : (n : ℕ) → (ℕ → Pc) → Sums
sums n pc = record {
  held = sum_below n (λ i. holds (pc i));
  pend = sum_below n (λ i. pending (pc i));
  uncount = sum_below n (λ i. uncounted (pc i));
  commit = sum_below n (λ i. committed (pc i));
}

-- The words of the program and the counts. The ticket runs ahead of the tail by one while somebody may
-- push: a goroutine, the fallback, or the loop that leaves it. While the fallback is inactive no task is
-- on its way to the loop.
pub record Counts (size : ℕ) (m : Memory) (ph : Phase) (k : Sums) : Type 0 where
  pub small : m.total + 2 < 2 ^ 32
  pub epoch : m.epoch ≡ m.total
  pub finished : m.finished + k.pend + k.uncount + length m.chan + in_hand ph ≤ m.total
  pub pushed : m.sq_tail + k.pend + length m.chan + in_hand ph + m.dropped ≡ m.total
  pub ticket : m.ticket_tail ≡ m.sq_tail + k.held + bit m.active + unlocks ph + bumped ph
  pub alone : k.held + bit m.active + unlocks ph ≤ 1
  pub quiet : m.active ≡ false → k.commit + length m.chan + in_hand ph ≡ 0
  pub queue : (m.sq_head ≤ m.sq_tail) × (m.sq_tail ≤ m.sq_head + size)
  pub given_up : m.stopped ≡ false → m.dropped ≡ 0

-- what the locals of a goroutine say about the shared words
abbrev pub Fresh : (size : ℕ) → Memory → Pc → Type 0
Fresh size m (claiming t) = t ≤ m.sq_tail
Fresh size m (claimed t) = t ≡ m.sq_tail
Fresh size m Pc.pushing = m.sq_tail < m.sq_head + size
Fresh size m (Pc.writing x) = (x ≡ m.sq_tail) × (m.sq_tail < m.sq_head + size)
Fresh size m _ = Unit

-- In a round of the loop: M is at least what the unfinished tasks up to the epoch `cur` come to,
-- `unfinished` being those of all.
pub record Round (m : Memory) (k : Sums) (was : Bool) (cur left : ℕ) (unfinished : ℕ) : Type 0 where
  pub on : m.active ≡ true
  pub saved : was ≡ true
  pub past : cur ≤ m.total
  pub covers : unfinished + cur ≤ m.total + left
  pub bound : left ≤ cur

abbrev pub open_tasks : Memory → Sums → Phase → ℕ
open_tasks m k ph = k.pend + k.uncount + length m.chan + in_hand ph

-- what the locals of the loop say
abbrev pub Current : (size : ℕ) → Memory → Sums → Phase → Type 0
Current size m k took = m.active ≡ true
Current size m k (snapped was cur) =
    (m.active ≡ true) × (was ≡ true) × (cur ≤ m.total) × (m.finished + k.uncount + 1 ≤ cur)
Current size m k (holding was cur left) =
    Round m k was cur left (open_tasks m k (holding was cur left)) × (0 < left)
Current size m k (bumping was cur left) =
    Round m k was cur left (open_tasks m k (bumping was cur left))
    × (0 < left)
    × (m.sq_tail < m.sq_head + size)
Current size m k (Phase.pushing was cur left) =
    Round m k was cur left (open_tasks m k (Phase.pushing was cur left))
    × (0 < left)
    × (m.sq_tail < m.sq_head + size)
Current size m k (Phase.writing was cur left x) =
    Round m k was cur left (open_tasks m k (Phase.writing was cur left x))
    × (0 < left)
    × (m.sq_tail < m.sq_head + size)
    × (x ≡ m.sq_tail)
Current size m k (selecting was cur left) =
    Round m k was cur left (open_tasks m k (selecting was cur left)) × (0 < left)
Current size m k (storing was cur) = Round m k was cur 0 (open_tasks m k (storing was cur))
Current size m k (leaving was cur) =
    Round m k was cur 0 (open_tasks m k (leaving was cur)) × (cur ≤ m.finished)
Current size m k reselecting = m.active ≡ true
Current size m k (storing_ticket x) = x ≡ m.sq_tail
Current size m k draining = m.stopped ≡ true
Current size m k (dropping _) = m.stopped ≡ true
Current size m k _ = Unit

pub record Inv (size n : ℕ) (s : System) : Type 0 where
  pub counts : Counts size s.mem s.phase (sums n s.pc)
  pub fresh : (i : ℕ) → i < n → Fresh size s.mem (s.pc i)
  pub current : Current size s.mem (sums n s.pc) s.phase

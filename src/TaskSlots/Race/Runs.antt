-- ===== src/TaskSlots/Race/Runs.antt =====
-- Every interleaving of Add and Del acts on the table one operation at a time.
use netring.Prelude.{ℕ, ◌≡◌, refl, Option, List, [], ◌∷◌}
use netring.TaskSlots.{Slots}
use netring.TaskSlots.Invariant.{view, Valid}
use netring.TaskSlots.Race.{outside, idle, Event, Race, counted, merged, table, Step}
use netring.TaskSlots.Race.Steps.{seen, IsOrdered, Step-Moves}
use netring.TaskSlots.Race.Shared.{Acts}

module _ {ℓ} {T : Type ℓ} where
  -- the steps of both threads, the first one first
  pub data Run : Race T → List (Event T) → Race T → Type ℓ where
    here : {r : Race T} → Run r [] r
    first :
        {e : Event T} {es : List (Event T)} {r s t : Race T}
        → Step r e s
        → Run s es t
        → Run r (e ∷ es) t

  -- The events, one after the other, lead from one map to the other.
  abbrev pub Replays : List (Event T) → (ℕ → Option T) → (ℕ → Option T) → Type ℓ
  Replays [] m n = (j : ℕ) → n j ≡ m j
  Replays (e ∷ es) m n = (k : ℕ → Option T) × Acts e m k × Replays es k n

  -- neither thread is in the table
  abbrev pub at_rest : Slots T → Race T
  at_rest s = record { translator = outside; poller = idle; slots = s }

  module _ {words ring back : ℕ} where
    Run-Replays :
        {r r' : Race T} {es : List (Event T)}
        → Run r es r'
        → IsOrdered words ring back r
        → IsOrdered words ring back r' × Replays es (seen r) (seen r')
    Run-Replays here ok = (ok, λ j. refl)
    Run-Replays {r} (first {s} step rest) ok =
        let moves = Step-Moves r step ok in
        let (kept, replays) =
          Run-Replays rest (record { valid = moves.valid; placed = moves.placed }) in
        (kept, (seen s, moves.acts, replays))

    -- From a valid table that neither thread is in, and whatever the interleaving of the steps of Add on
    -- the translator's thread and of Del on the poller's: the table that the shared memory stands for, which
    -- is the memory itself when both threads have left it, is valid, and the events are a history that leads
    -- from the one map to the other, one whole operation at a time. Each Add that returns stores its task at
    -- an index that is free at that moment, and each Del empties its index with its first access; nothing
    -- else changes the map.
    pub race-Replays :
        (s : Slots T) {r : Race T} {es : List (Event T)}
        → Valid words ring back s
        → Run (at_rest s) es r
        → Valid words ring back (table r.translator r.poller r.slots) × Replays es (view s) (seen r)
    unfolding table merged counted
    race-Replays s {r} {es} valid run =
        let (kept, replays) = Run-Replays run (record { valid = valid; placed = tt }) in
        (kept.valid, replays)

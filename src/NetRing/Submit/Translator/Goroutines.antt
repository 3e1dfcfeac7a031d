-- ===== src/NetRing/Submit/Translator/Goroutines.antt =====
-- A move of a goroutine keeps the invariant.
use netring.Prelude.{
  ℕ, ◌+◌, ◌^◌, ◌≤◌, ◌<◌, ◌≡◌, true, length, length-snoc, bit, arith, refl, sym, ◌∙◌,
}
use netring.NetRing.Submit.{
  Memory, Pc, idle, trying, activating, sending, counting, retrying, loaded, claiming, claimed,
  Move, intend, load_ticket, unequal, equal, again, win, lose, full, room, activate, send, refuse,
  load_tail, store_tail, count,
}
use netring.NetRing.Submit.Translator.{
  Phase, waiting, took, reselecting, unlocking, draining, snapped, holding, bumping, selecting,
  storing, leaving, storing_ticket, dropping,
}
use netring.NetRing.Submit.Translator.Invariant.{
  holds, pending, uncounted, committed, unlocks, Sums, Counts, Fresh, Current,
}

-- The sums before and after one goroutine goes from `p` to `p'`.
pub record Moved (p p' : Pc) (k k' : Sums) : Type 0 where
  pub held : k'.held + holds p ≡ k.held + holds p'
  pub pend : k'.pend + pending p ≡ k.pend + pending p'
  pub uncount : k'.uncount + uncounted p ≡ k.uncount + uncounted p'
  pub commit : k'.commit + committed p ≡ k.commit + committed p'

-- What a step of the others leaves alone: as seen by the loop, and by a goroutine that has the ticket.
pub record Steady (m m' : Memory) (ph : Phase) (k k' : Sums) : Type 0 where
  pub on : m.active ≡ true → m'.active ≡ true
  pub total : m.total ≤ m'.total
  pub stopped : m.stopped ≡ true → m'.stopped ≡ true
  pub open_tasks :
      k'.pend + k'.uncount + length m'.chan + m.total
      ≤ k.pend + k.uncount + length m.chan + m'.total
  pub counts_up : m.finished ≤ m'.finished
  pub unfinished :
      m'.finished + k'.pend + k'.uncount + length m'.chan + m.total
      ≤ m.finished + k.pend + k.uncount + length m.chan + m'.total
  pub counted : m.active ≡ true → m'.finished + k'.uncount ≤ m.finished + k.uncount
  pub tail_kept : 0 < bit m.active + unlocks ph → m'.sq_tail ≡ m.sq_tail
  pub tail : m.sq_tail ≤ m'.sq_tail
  pub head : m.sq_head ≤ m'.sq_head

-- The locals of the loop stay true.
pub Steady-Current :
    (size : ℕ) {m m' : Memory} (ph : Phase) {k k' : Sums}
    → Steady m m' ph k k'
    → Current size m k ph
    → Current size m' k' ph
Steady-Current size waiting s c = tt
Steady-Current size took s c = s.on c
Steady-Current size (snapped was cur) s c = ground (arith, s.on c.0, s.counted c.0, s.total)
Steady-Current size (holding was cur left) s c = ground (arith, s.on c.0.on)
Steady-Current size (bumping was cur left) s c =
    ground (arith, s.on c.0.on, s.tail_kept (ground arith))
Steady-Current size (Phase.pushing was cur left) s c =
    ground (arith, s.on c.0.on, s.tail_kept (ground arith))
Steady-Current size (Phase.writing was cur left x) s c =
    ground (arith, s.on c.0.on, s.tail_kept (ground arith))
Steady-Current size (selecting was cur left) s c = ground (arith, s.on c.0.on)
Steady-Current size (storing was cur) s c = ground (arith, s.on c.on)
Steady-Current size (leaving was cur) s c = ground (arith, s.on c.0.on)
Steady-Current size reselecting s c = s.on c
Steady-Current size unlocking s c = tt
Steady-Current size (storing_ticket x) s c = c ∙ sym (s.tail_kept (omega arith))
Steady-Current size draining s c = s.stopped c
Steady-Current size (dropping t) s c = s.stopped c

-- The locals of a goroutine stay true while others move.
pub kept-Fresh :
    (size : ℕ) (m m' : Memory) (q : Pc)
    → m.sq_tail ≤ m'.sq_tail
    → m.sq_head ≤ m'.sq_head
    → (holds q ≡ 1 → m'.sq_tail ≡ m.sq_tail)
    → Fresh size m q
    → Fresh size m' q
kept-Fresh size m m' idle tail head same f = tt
kept-Fresh size m m' trying tail head same f = tt
kept-Fresh size m m' activating tail head same f = tt
kept-Fresh size m m' sending tail head same f = tt
kept-Fresh size m m' Pc.pushing tail head same f = omega (arith, same refl)
kept-Fresh size m m' counting tail head same f = tt
kept-Fresh size m m' retrying tail head same f = tt
kept-Fresh size m m' (loaded k) tail head same f = tt
kept-Fresh size m m' (claiming t) tail head same f = omega arith
kept-Fresh size m m' (claimed t) tail head same f = f ∙ sym (same refl)
kept-Fresh size m m' (Pc.writing x) tail head same f = omega (arith, same refl)

module _ {size buffer : ℕ} {m : Memory} {ph : Phase} {k k' : Sums} (v : Counts size m ph k) where
  open v use {small, epoch, finished, pushed, ticket, alone, quiet, queue, given_up}

  pub Move-Counts :
      {p p' : Pc} {m' : Memory}
      → Move size buffer m p m' p'
      → m'.total + 2 < 2 ^ 32
      → Fresh size m p
      → Moved p p' k k'
      → Counts size m' ph k'
  Move-Counts intend lt f e = ground arith
  Move-Counts load_ticket lt f e = ground arith
  Move-Counts (unequal g) lt f e = ground arith
  Move-Counts (equal g) lt f e = ground arith
  Move-Counts again lt f e = ground arith
  Move-Counts (win g) lt f e = ground arith
  Move-Counts (lose g) lt f e = ground arith
  Move-Counts (full g) lt f e = ground arith
  Move-Counts (room g) lt f e = ground arith
  Move-Counts activate lt f e = ground arith
  Move-Counts (send task g) lt f e = ground (arith, length-snoc m.chan task)
  Move-Counts (refuse g) lt f e = ground arith
  Move-Counts load_tail lt f e = ground arith
  Move-Counts store_tail lt f e = ground arith
  Move-Counts count lt f e = ground arith

  -- What the loop can rely on while a goroutine moves.
  pub Move-Steady :
      {p p' : Pc} {m' : Memory}
      → Move size buffer m p m' p'
      → m'.total + 2 < 2 ^ 32
      → Fresh size m p
      → Moved p p' k k'
      → Steady m m' ph k k'
  Move-Steady intend lt f e = ground arith
  Move-Steady load_ticket lt f e = ground arith
  Move-Steady (unequal g) lt f e = ground arith
  Move-Steady (equal g) lt f e = ground arith
  Move-Steady again lt f e = ground arith
  Move-Steady (win g) lt f e = ground arith
  Move-Steady (lose g) lt f e = ground arith
  Move-Steady (full g) lt f e = ground arith
  Move-Steady (room g) lt f e = ground arith
  Move-Steady activate lt f e = ground arith
  Move-Steady (send task g) lt f e = ground (arith, length-snoc m.chan task)
  Move-Steady (refuse g) lt f e = ground arith
  Move-Steady load_tail lt f e = ground arith
  Move-Steady store_tail lt f e = ground arith
  Move-Steady count lt f e = ground arith

  -- The mover's own locals.
  pub Move-Fresh :
      {p p' : Pc} {m' : Memory}
      → Move size buffer m p m' p'
      → Fresh size m p
      → Moved p p' k k'
      → Fresh size m' p'
  Move-Fresh intend f e = ground arith
  Move-Fresh load_ticket f e = tt
  Move-Fresh (unequal g) f e = tt
  Move-Fresh (equal g) f e = omega arith
  Move-Fresh again f e = ground arith
  Move-Fresh (win g) f e = ground arith
  Move-Fresh (lose g) f e = tt
  Move-Fresh (full g) f e = tt
  Move-Fresh (room g) f e = ground arith
  Move-Fresh activate f e = tt
  Move-Fresh (send task g) f e = tt
  Move-Fresh (refuse g) f e = tt
  Move-Fresh load_tail f e = (refl, f)
  Move-Fresh store_tail f e = tt
  Move-Fresh count f e = tt

-- Only a goroutine with the ticket stores a tail.
pub Move-tail :
    {size buffer : ℕ} {m m' : Memory} {p p' : Pc}
    → Move size buffer m p m' p'
    → holds p ≡ 0
    → m'.sq_tail ≡ m.sq_tail
Move-tail store_tail h = absurd (omega arith)
Move-tail mv h = refl

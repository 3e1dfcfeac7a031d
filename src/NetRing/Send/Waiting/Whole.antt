-- ===== src/NetRing/Send/Waiting/Whole.antt =====
-- A wait that returns without an error has waited for every byte.
use mathlib.Core.List.{append-nil}
use netring.Prelude.{
  ℕ, ◌+◌, ◌%◌, ◌^◌, ◌≤◌, ◌<◌, ◌≡◌, refl, ap, ◌∙◌, subst, Bool, true, false, Option, none, some,
  List, [], ◌∷◌, ◌++◌, ◌==◌, ==_iff, ℤ, bit, length, arith, Bool-cases, inl, inr,
}
use netring.NetRing.Cells.{NetError, SendCell}
use netring.NetRing.Send.{compensate, send_task}
use netring.NetRing.Send.Waiting.{
  Sender, away, labelled, spinning, settled, loaded, returned, Line, wait_step, record_result,
  after_load, count_finished, taken_bytes,
}

-- how many sends are submitted and not counted as finished
abbrev pub flying : List ℕ → Bool → ℕ
flying outstanding uncounted = length outstanding + bit uncounted

abbrev pub Staged : Sender → SendCell → ℕ → Type 0
Staged away s k = Unit
Staged labelled s k = Unit
Staged spinning s k = Unit
Staged settled s k = (k ≡ 0) × (s.err ≡ none)
Staged (loaded finished) s k = finished ≡ s.queued → k ≡ 0
Staged (returned none) s k = (k ≡ 0) × (s.err ≡ none) × (s.sent ≡ s.len)
Staged (returned (some e)) s k = Unit

pub record Inv (l : Line) : Type 0 where
  pub counts : l.cell.finished + flying l.outstanding l.uncounted ≡ l.cell.queued
  pub alone : flying l.outstanding l.uncounted ≤ 1
  pub fits : (l.cell.queued < 2 ^ 64) × (l.cell.len < 2 ^ 32) × (l.cell.sent ≤ l.cell.len)
  pub asked :
      (n : ℕ) (rest : List ℕ) → l.outstanding ≡ n ∷ rest → (n ≡ l.cell.len) × (l.cell.sent ≡ 0)
  pub bytes : l.acked + l.cell.len ≡ l.total + l.cell.sent
  pub fresh : l.cell.queued ≡ 0 → (l.cell.sent ≡ l.cell.len) × (l.cell.err ≡ none)
  pub staged : Staged l.sender l.cell (flying l.outstanding l.uncounted)

pub no_length : (xs : List ℕ) → length xs ≡ 0 → xs ≡ []
no_length [] h = refl
no_length (x ∷ xs) h = absurd (omega (arith, h))

-- another place of the goroutine, at which the invariant asks no more of the line
pub moved-Inv :
    (l : Line) (t : Sender)
    → Inv l
    → Staged t l.cell (flying l.outstanding l.uncounted)
    → Inv (record l { sender = t })
moved-Inv l t inv staged = record {
  counts = inv.counts;
  alone = inv.alone;
  fits = inv.fits;
  asked = inv.asked;
  bytes = inv.bytes;
  fresh = inv.fresh;
  staged = staged;
}

-- a send of `len` bytes, on a line with no send under way
pub sent-Inv :
    (l : Line) (t : Sender) (s : SendCell) (len acked total : ℕ)
    → Inv l
    → flying l.outstanding l.uncounted ≡ 0
    → l.cell.queued + 1 < 2 ^ 64
    → (s.finished ≡ l.cell.finished) × (s.queued ≡ l.cell.queued + 1)
    → (s.len ≡ len) × (s.sent ≡ 0)
    → len < 2 ^ 32
    → acked + len ≡ total
    → Staged t s 1
    → Inv (record {
      sender = t;
      cell = s;
      outstanding = l.outstanding ++ len ∷ [];
      uncounted = l.uncounted;
      acked = acked;
      total = total;
    })
sent-Inv l t s len acked total inv idle room same asks short left staged =
    let empty : l.outstanding ≡ [] = no_length l.outstanding (omega (arith, idle)) in
    let settled_down : bit l.uncounted ≡ 0 = omega (arith, idle) in
    let one : flying (len ∷ []) l.uncounted ≡ 1 = omega (arith, settled_down) in
    rw empty (record {
      counts = omega (arith, inv.counts, idle, same, one);
      alone = omega (arith, one);
      fits = omega (arith, room, same, asks, short);
      asked = λ n rest e. ground (arith, asks);
      bytes = omega (arith, asks, left);
      fresh = λ e. absurd (omega (arith, e, same));
      staged = rw one staged;
    })

-- a step that submits nothing
stays-Inv :
    (l : Line) (t : Sender)
    → Inv l
    → Staged t l.cell (flying l.outstanding l.uncounted)
    → Inv (record l { sender = t; outstanding = l.outstanding ++ [] })
stays-Inv l t inv staged = rw (append-nil l.outstanding) (moved-Inv l t inv staged)

after_load-Staged :
    (s : SendCell) (finished k : ℕ) (err : Option NetError)
    → s.err ≡ err
    → (finished ≡ s.queued → k ≡ 0)
    → Staged (after_load finished s err) s k
after_load-Staged s finished k (some e) same idle = tt
after_load-Staged s finished k none same idle = elim (Bool-cases (finished == s.queued)) [
  | inl e ↦ rw e (idle ((==_iff _ _).0 e), same)
  | inr e ↦ rw e tt
]

pub wait-Inv :
    (p : ℕ) (l : Line) (t : Sender)
    → l.sender ≡ t
    → l.cell.queued + 1 < 2 ^ 64
    → Inv l
    → let next = wait_step p t l.cell in
      Inv (record l { sender = next.0; cell = next.1; outstanding = l.outstanding ++ next.2 })
unfolding wait_step compensate send_task
wait-Inv p l away at room inv = stays-Inv l away inv tt
wait-Inv p l labelled at room inv = elim (Bool-cases (l.cell.queued == 0)) [
  | inl e ↦
      let (same, no_error) = inv.fresh ((==_iff _ _).0 e) in
      rw e (
        stays-Inv l (returned none) inv
          (omega (arith, inv.counts, (==_iff _ _).0 e), no_error, same))
  | inr e ↦ rw e (stays-Inv l spinning inv tt)
]
wait-Inv p l spinning at room inv =
    stays-Inv l (loaded l.cell.finished) inv (λ e. omega (arith, e, inv.counts))
wait-Inv p l (loaded finished) at room inv =
    stays-Inv l (after_load finished l.cell l.cell.err) inv (
      after_load-Staged l.cell finished _ l.cell.err refl
        (subst (λ t. Staged t l.cell (flying l.outstanding l.uncounted)) at inv.staged))
wait-Inv p l (returned r) at room inv =
    stays-Inv l (returned r) inv
      (subst (λ t. Staged t l.cell (flying l.outstanding l.uncounted)) at inv.staged)
wait-Inv p l settled at room inv =
    let (idle, fine) =
      subst (λ t. Staged t l.cell (flying l.outstanding l.uncounted)) at inv.staged in
    elim (Bool-cases (l.cell.sent == l.cell.len)) [
      | inl e ↦ rw e (stays-Inv l (returned none) inv (idle, fine, (==_iff _ _).0 e))
      | inr e ↦ rw e (continued idle)
    ]
  where
    continued :
        flying l.outstanding l.uncounted ≡ 0
        → Inv (record l {
          sender = labelled;
          cell = (compensate p l.cell).1;
          outstanding = l.outstanding ++ (compensate p l.cell).0.len ∷ [];
        })
    continued idle =
        sent-Inv l labelled (compensate p l.cell).1 (compensate p l.cell).0.len l.acked l.total inv
          idle room (refl, omega (arith, room)) (omega (arith, inv.fits), refl) (omega arith)
          (omega (arith, inv.bytes, inv.fits)) tt

pub result-Inv :
    (l : Line) (len : ℕ) (rest : List ℕ) (res : ℤ)
    → l.uncounted ≡ false
    → l.outstanding ≡ len ∷ rest
    → taken_bytes res ≤ len
    → Inv l
    → Inv (record l {
      cell = record_result res l.cell;
      outstanding = rest;
      uncounted = true;
      acked = l.acked + taken_bytes res;
    })
unfolding record_result taken_bytes
result-Inv l len rest res counted oldest few inv =
    let (asked, unsent) = inv.asked len rest oldest in
    let before : flying l.outstanding l.uncounted ≡ flying (len ∷ rest) false =
      ap (λ xs. flying xs l.uncounted) oldest ∙ ap (flying (len ∷ rest)) counted in
    let flies : flying rest true ≡ flying l.outstanding l.uncounted = omega (arith, before) in
    let none_left : rest ≡ [] = no_length rest (omega (arith, before, inv.alone)) in
    record {
      counts = ground (arith, inv.counts, flies);
      alone = omega (arith, flies, inv.alone);
      fits = ground (arith, inv.fits, asked, unsent, few);
      asked = λ n more e. absurd (cc);
      bytes = ground (arith, inv.bytes, inv.fits, asked, unsent, few);
      fresh = λ e. absurd (ground (arith, inv.counts, before, e));
      staged = still l.sender inv.staged flies before;
    }
  where
    still :
        (t : Sender)
        → Staged t l.cell (flying l.outstanding l.uncounted)
        → flying rest true ≡ flying l.outstanding l.uncounted
        → flying l.outstanding l.uncounted ≡ flying (len ∷ rest) false
        → Staged t (record_result res l.cell) (flying rest true)
    still away h e k = tt
    still labelled h e k = tt
    still spinning h e k = tt
    still settled h e k = absurd (omega (arith, h.0, k))
    still (loaded finished) h e k = λ same. absurd (omega (arith, k, h (ground (arith, same))))
    still (returned none) h e k = absurd (omega (arith, h.0, k))
    still (returned (some error)) h e k = tt

pub count-Inv :
    (l : Line)
    → l.uncounted ≡ true
    → Inv l
    → Inv (record l { cell = count_finished l.cell; uncounted = false })
unfolding count_finished
count-Inv l uncounted inv =
    let before : flying l.outstanding l.uncounted ≡ flying l.outstanding true =
      ap (flying l.outstanding) uncounted in
    record {
      counts = omega (arith, inv.counts, before, inv.fits);
      alone = omega (arith, inv.alone, before);
      fits = inv.fits;
      asked = inv.asked;
      bytes = inv.bytes;
      fresh = inv.fresh;
      staged = still l.sender inv.staged before inv.alone;
    }
  where
    still :
        (t : Sender)
        → Staged t l.cell (flying l.outstanding l.uncounted)
        → flying l.outstanding l.uncounted ≡ flying l.outstanding true
        → flying l.outstanding l.uncounted ≤ 1
        → Staged t
            (record l.cell { finished = (l.cell.finished + 1) % 2 ^ 64 })
            (flying l.outstanding false)
    still away h e k = tt
    still labelled h e k = tt
    still spinning h e k = tt
    still settled h e k = absurd (omega (arith, h.0, e))
    still (loaded finished) h e k = λ same. omega (arith, e, k)
    still (returned none) h e k = absurd (omega (arith, h.0, e))
    still (returned (some error)) h e k = tt

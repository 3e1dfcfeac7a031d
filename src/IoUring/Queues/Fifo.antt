-- ===== src/IoUring/Queues/Fifo.antt =====
-- The submission and the completion queue are queues, first in first out.
use netring.Prelude.{
  ℕ, suc, ◌+◌, ◌-◌, ◌*◌, ◌%◌, ◌^◌, ◌<◌, ◌≡◌, ◌∙◌, ◌⊎◌, sym, ap, refl, true, false, Option, none,
  List, [], ◌∷◌, ◌++◌, arith, ◌==◌, ==_iff, ==_refl, if◌then◌else◌, update, wrap_position,
  Bool-cases, inl, inr,
}
use native.Mathlib.Nat.{mod-add-mod, add-mod_right}
use mathlib.Core.Path.{ap₂}
use mathlib.Core.Option
use netring.Window.{window, window-push, window-ext, window-cong, window-uncons}
use netring.IoUring.Entries.{SqEntry, CqEntry, zero_cqe, wakeup_failed}
use netring.IoUring.Queues.{
  Uring, need_wakeup, publish, push, get_task, sq_count, cq_count, submitted, completed, consume,
  post,
}

-- The kernel's setup: sizes that are powers of two, and an index array that is right for each entry
-- that waits.
pub record SqValid (ratio : ℕ) (r : Uring) : Type 0 where
  pub mask : r.sq_mask + 1 ≡ r.sq_entries
  pub ring : 2 ^ 32 ≡ ratio * r.sq_entries
  pub bounded : r.sq_entries < 2 ^ 32
  pub fits : (r.sq_head < 2 ^ 32) × (r.sq_tail < 2 ^ 32)
  pub indexed :
      (i : ℕ)
      → i < sq_count r
      → r.sq_array ((r.sq_head + i) % r.sq_entries) ≡ (r.sq_head + i) % r.sq_entries

wrap32 : (x ratio n : ℕ) → 2 ^ 32 ≡ ratio * n → x % 2 ^ 32 % n ≡ x % n
wrap32 x ratio n ring = wrap_position x (2 ^ 32) ratio n ring

-- The counter at the tail points past the window.
counter-slot :
    (ratio n head tail : ℕ)
    → 2 ^ 32 ≡ ratio * n
    → head < 2 ^ 32
    → tail < 2 ^ 32
    → tail % n ≡ (head + (tail + 2 ^ 32 - head) % 2 ^ 32) % n
counter-slot ratio n head tail ring h t =
    let count = (tail + 2 ^ 32 - head) % 2 ^ 32 in
    let at : tail ≡ (head + count) % 2 ^ 32 = omega arith in
    ap (λ (x : ℕ). x % n) at ∙ wrap32 (head + count) ratio n ring

next-slot :
    (ratio n head i : ℕ) → 2 ^ 32 ≡ ratio * n → ((head + 1) % 2 ^ 32 + i) % n ≡ (head + suc i) % n
next-slot ratio n head i ring =
    sym (mod-add-mod ((head + 1) % 2 ^ 32) n i)
    ∙ ap (λ (x : ℕ). (x + i) % n) (wrap32 (head + 1) ratio n ring)
    ∙ mod-add-mod (head + 1) n i
    ∙ ap (λ (x : ℕ). x % n) (omega arith)

submitted-direct :
    {ratio : ℕ} (r : Uring)
    → SqValid ratio r
    → submitted r ≡ window r.sq r.sq_entries (sq_count r) r.sq_head
submitted-direct r valid =
    window-ext _ r.sq r.sq_entries (sq_count r) r.sq_head (λ i lt. ap r.sq (valid.indexed i lt))

module _ {ratio : ℕ} (r : Uring) (valid : SqValid ratio r) where
  open valid use {mask, ring, bounded, fits, indexed}

  module _ (e : SqEntry) (room : sq_count r < r.sq_entries) where
    abbrev slot : ℕ
    slot = (r.sq_head + sq_count r) % r.sq_entries

    tail-slot : r.sq_tail % (r.sq_mask + 1) ≡ slot
    tail-slot = rw mask (counter-slot ratio r.sq_entries r.sq_head r.sq_tail ring fits.0 fits.1)

    count-publish : sq_count (publish e r) ≡ suc (sq_count r)
    unfolding publish
    count-publish = omega arith

    pub publish-SqValid : SqValid ratio (publish e r)
    unfolding publish
    publish-SqValid = record {
      mask = mask;
      ring = ring;
      bounded = bounded;
      fits = omega arith;
      indexed = λ i lt. elim (Bool-cases (r.sq_tail % (r.sq_mask + 1) == place i)) [
        | inl e ↦ rw e ((==_iff _ _).0 e)
        | inr e ↦ rw e (indexed i (earlier i lt e))
      ];
    }
      where
        place : ℕ → ℕ
        place i = (r.sq_head + i) % r.sq_entries

        earlier :
            (i : ℕ)
            → i < sq_count (publish e r)
            → (r.sq_tail % (r.sq_mask + 1) == place i) ≡ false
            → i < sq_count r
        earlier i lt apart = elim (Bool-cases (i == sq_count r)) [
          | inr e ↦ ground (arith, count-publish)
          | inl e ↦
              let same : slot ≡ place i = ap place (sym ((==_iff i (sq_count r)).0 e)) in
              absurd (ground (arith, tail-slot))
        ]

    submitted-publish : submitted (publish e r) ≡ submitted r ++ e ∷ []
    unfolding publish
    submitted-publish =
        submitted-direct (publish e r) publish-SqValid
        ∙ ap₂ (λ (k n : ℕ). window (update r.sq k e) r.sq_entries n r.sq_head) tail-slot
            count-publish
        ∙ window-push r.sq r.sq_entries (sq_count r) r.sq_head e room
        ∙ ap (λ l. l ++ e ∷ []) (sym (submitted-direct r valid))

    -- Push on a valid submission queue with room appends the entry, and keeps the queue valid. It fails only
    -- with the error of the wakeup call, when the kernel's poller is asleep.
    pub push-submits :
        (wakeup : Option ℕ)
        → SqValid ratio (push e wakeup r).0
          × (submitted (push e wakeup r).0 ≡ submitted r ++ e ∷ [])
          × ((push e wakeup r).1
              ≡ (if need_wakeup r then Option.map wakeup_failed wakeup else none))
    unfolding push need_wakeup publish
    push-submits wakeup = (publish-SqValid, submitted-publish, refl)

  -- When the oldest entry of a valid submission queue is taken by the kernel, the rest stays in its
  -- order and the queue stays valid.
  pub consume-submitted :
      (e : SqEntry) (rest : List SqEntry)
      → submitted r ≡ e ∷ rest
      → SqValid ratio (consume r) × (submitted (consume r) ≡ rest)
  consume-submitted e rest h =
      let (some_left, _, left) = window-uncons _ r.sq_entries (sq_count r) r.sq_head e rest h in
      let fewer : sq_count (consume r) ≡ sq_count r - 1 = omega arith in
      (
        record {
          mask = mask;
          ring = ring;
          bounded = bounded;
          fits = omega arith;
          indexed = λ i lt.
              let place = next-slot ratio r.sq_entries r.sq_head i ring in
              rw place (indexed (suc i) (omega arith));
        },
        ap (λ (n : ℕ). window (λ i. r.sq (r.sq_array i)) r.sq_entries n ((r.sq_head + 1) % 2 ^ 32))
              fewer
            ∙ window-cong _ r.sq_entries (sq_count r - 1) ((r.sq_head + 1) % 2 ^ 32) (r.sq_head + 1)
                (wrap32 (r.sq_head + 1) ratio r.sq_entries ring)
            ∙ left,
      )

-- On a full valid queue Push writes its entry over the oldest one that waits.
pub push-full :
    {ratio : ℕ} (r : Uring) (e : SqEntry) (wakeup : Option ℕ)
    → SqValid ratio r
    → sq_count r ≡ r.sq_entries
    → (push e wakeup r).0.sq (r.sq_head % r.sq_entries) ≡ e
unfolding push publish
push-full {ratio} r e wakeup valid full =
    let at : r.sq_tail ≡ (r.sq_head + r.sq_entries) % 2 ^ 32 = omega (arith, valid.fits, full) in
    let wrapped = wrap32 (r.sq_head + r.sq_entries) ratio r.sq_entries valid.ring in
    let around = add-mod_right r.sq_head r.sq_entries in
    let slot : r.sq_tail % (r.sq_mask + 1) ≡ r.sq_head % r.sq_entries =
      rw valid.mask (ap (λ (x : ℕ). x % r.sq_entries) at ∙ wrapped ∙ around) in
    rw (slot, ==_refl (r.sq_head % r.sq_entries)) refl

pub record CqValid (ratio : ℕ) (r : Uring) : Type 0 where
  pub ring : 2 ^ 32 ≡ ratio * (r.cq_length_mask + 1)
  pub fits : (r.cq_head < 2 ^ 32) × (r.cq_tail < 2 ^ 32)
  pub bounded : r.cq_length_mask + 1 < 2 ^ 32

-- On a valid completion queue GetTask reports an empty queue and changes nothing; else it returns the oldest completion and
-- leaves the others in their order, and the queue valid.
pub get_task-Fifo :
    {ratio : ℕ} (r : Uring)
    → CqValid ratio r
    → ((completed r ≡ []) × (get_task r ≡ (r, zero_cqe, false)))
      ⊎ ((e : CqEntry) × (rest : List CqEntry) × (completed r ≡ e ∷ rest)
          × (completed (get_task r).0 ≡ rest)
          × ((get_task r).1 ≡ e)
          × ((get_task r).2 ≡ true)
          × CqValid ratio (get_task r).0)
unfolding get_task window
get_task-Fifo {ratio} r valid = elim (Bool-cases (r.cq_head == r.cq_tail)) [
  | inl e ↦
      let empty : cq_count r ≡ 0 = ground (arith, valid.fits) in
      inl (ap (λ (n : ℕ). window r.cq (r.cq_length_mask + 1) n r.cq_head) empty, rw e refl)
  | inr e ↦
      let size = r.cq_length_mask + 1 in
      let head = (r.cq_head + 1) % 2 ^ 32 in
      let more : cq_count r ≡ suc (cq_count r - 1) = ground (arith, valid.fits) in
      let fewer : (r.cq_tail + 2 ^ 32 - head) % 2 ^ 32 ≡ cq_count r - 1 =
        ground (arith, valid.fits) in
      let same =
        window-cong r.cq size (cq_count r - 1) head (r.cq_head + 1)
          (wrap32 (r.cq_head + 1) ratio size valid.ring) in
      inr (
        r.cq (r.cq_head % size),
        window r.cq size (cq_count r - 1) (r.cq_head + 1),
        ap (λ (n : ℕ). window r.cq size n r.cq_head) more,
        rw e (ap (λ (n : ℕ). window r.cq size n head) fewer ∙ same),
        rw e refl,
        rw e refl,
        rw e (record {
          ring = valid.ring;
          fits = omega (arith, valid.fits);
          bounded = valid.bounded;
        }),
      )
]

-- A completion that the kernel posts to a valid queue with room goes to the end, and the queue stays
-- valid.
pub post-completed :
    {ratio : ℕ} (r : Uring) (e : CqEntry)
    → CqValid ratio r
    → cq_count r < r.cq_length_mask + 1
    → CqValid ratio (post e r) × (completed (post e r) ≡ completed r ++ e ∷ [])
post-completed {ratio} r e valid room =
    let size = r.cq_length_mask + 1 in
    let place = (r.cq_head + cq_count r) % size in
    let slot : r.cq_tail % size ≡ place =
      counter-slot ratio size r.cq_head r.cq_tail valid.ring valid.fits.0 valid.fits.1 in
    let more : cq_count (post e r) ≡ suc (cq_count r) =
      omega (arith, valid.fits, valid.bounded, room) in
    (
      record { ring = valid.ring; fits = omega (arith, valid.fits); bounded = valid.bounded },
      ap₂ (λ (k n : ℕ). window (update r.cq k e) size n r.cq_head) slot more
          ∙ window-push r.cq size (cq_count r) r.cq_head e room,
    )

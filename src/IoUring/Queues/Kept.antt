-- ===== src/IoUring/Queues/Kept.antt =====
-- An operation on one of the two queues leaves the other one as it is.
use netring.Prelude.{ℕ, ◌≡◌, refl, Option, ◌==◌, Bool-cases, inl, inr}
use netring.IoUring.Entries.{SqEntry, CqEntry}
use netring.IoUring.Queues.{
  Uring, publish, push, get_task, sq_count, cq_count, submitted, completed, consume, post,
}
use netring.IoUring.Queues.Fifo.{SqValid, CqValid}

-- The completion queue of `r'` is that of `r`, and so is the submission queue.
pub record CompletionsKept (r r' : Uring) : Type 0 where
  pub same : completed r' ≡ completed r
  pub same_count : cq_count r' ≡ cq_count r
  pub same_size : r'.cq_length_mask ≡ r.cq_length_mask
  pub valid : {ratio : ℕ} → CqValid ratio r → CqValid ratio r'

pub record SubmissionsKept (r r' : Uring) : Type 0 where
  pub same : submitted r' ≡ submitted r
  pub same_count : sq_count r' ≡ sq_count r
  pub valid : {ratio : ℕ} → SqValid ratio r → SqValid ratio r'

pub push-CompletionsKept :
    (r : Uring) (e : SqEntry) (wakeup : Option ℕ) → CompletionsKept r (push e wakeup r).0
unfolding push publish
push-CompletionsKept r e wakeup = record {
  same = refl;
  same_count = refl;
  same_size = refl;
  valid = λ v. record { ring = v.ring; fits = v.fits; bounded = v.bounded };
}

pub consume-CompletionsKept : (r : Uring) → CompletionsKept r (consume r)
consume-CompletionsKept r = record {
  same = refl;
  same_count = refl;
  same_size = refl;
  valid = λ v. record { ring = v.ring; fits = v.fits; bounded = v.bounded };
}

pub post-SubmissionsKept : (r : Uring) (e : CqEntry) → SubmissionsKept r (post e r)
post-SubmissionsKept r e = record {
  same = refl;
  same_count = refl;
  valid = λ v. record {
    mask = v.mask;
    ring = v.ring;
    bounded = v.bounded;
    fits = v.fits;
    indexed = v.indexed;
  };
}

pub get_task-SubmissionsKept : (r : Uring) → SubmissionsKept r (get_task r).0
unfolding get_task
get_task-SubmissionsKept r = elim (Bool-cases (r.cq_head == r.cq_tail)) [
  | inl e ↦ rw e (record { same = refl; same_count = refl; valid = λ v. v })
  | inr e ↦ rw e (record {
    same = refl;
    same_count = refl;
    valid = λ v. record {
      mask = v.mask;
      ring = v.ring;
      bounded = v.bounded;
      fits = v.fits;
      indexed = v.indexed;
    };
  })
]

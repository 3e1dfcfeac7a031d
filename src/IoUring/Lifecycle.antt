-- ===== src/IoUring/Lifecycle.antt =====
-- internal/iouring/iouring.go and method_close.go: the setup of a ring by system calls, and its release.
-- What a system call returns is an argument. Kept beside the results: the descriptors that `New` opens
-- and the regions that it maps, and what `Close` unmaps and closes.
pub mod Closing
mod Tests
use netring.Prelude.{
  ℕ, ◌+◌, ◌-◌, ◌*◌, ◌%◌, ◌^◌, Bool, true, false, not, ◌&&◌, ◌||◌, List, [], ◌∷◌, ◌++◌, ◌==◌, ltb,
  if◌then◌else◌, ones_count,
}

-- what a system call returns
pub data Answer {ℓ} (A : Type ℓ) : Type ℓ where
  errno : ℕ → Answer A
  answer : A → Answer A

-- the fields of `Params` that the kernel fills in and the sizes depend on
pub record Params : Type 0 where
  pub sq_entries : ℕ
  pub cq_entries : ℕ
  pub features : ℕ
  pub sq_off_array : ℕ
  pub cq_off_cqes : ℕ

-- the fields of `IOUring` that `Close` uses, and the mask; `sq_ptr` and `sq_len` are those of the slice `SQ`
pub record RingHandle : Type 0 where
  pub fd : ℕ
  pub params : Params
  pub sq_ring_ptr : ℕ
  pub cq_ring_ptr : ℕ
  pub sq_ptr : ℕ
  pub sq_len : ℕ
  pub cq_length_mask : ℕ

-- `Features & ioUringFeatSingleMMap != 0`
abbrev pub is_single_mmap : Params → Bool
is_single_mmap p = p.features % 2 == 1

-- `sqRingSize` and `cqRingSize`, the first before it is raised to the second
abbrev pub sq_array_end : Params → ℕ
sq_array_end p = (p.sq_off_array + p.sq_entries * 4) % 2 ^ 32

abbrev pub cq_ring_size : Params → ℕ
cq_ring_size p = (p.cq_off_cqes + p.cq_entries * 16) % 2 ^ 32

pub sq_ring_size : Params → ℕ
sq_ring_size p =
    if is_single_mmap p && ltb (sq_array_end p) (cq_ring_size p)
    then cq_ring_size p
    else sq_array_end p

pub data SetupError : Type 0 where
  not_power_of_two : SetupError
  too_few_entries : SetupError
  setup_failed : ℕ → SetupError
  mmap_failed : ℕ → SetupError

pub data Attempt : Type 0 where
  refused : SetupError → Attempt
  succeeded : RingHandle → Attempt

-- a call of `New`: what it has opened and mapped, and what it returns
pub record Trial : Type 0 where
  pub fds : List ℕ
  pub regions : List (ℕ × ℕ)
  pub ring : Attempt

-- the ring with its mappings
abbrev pub handle : (fd : ℕ) (p : Params) (sq_ring cq_ring sqes : ℕ) → RingHandle
handle fd p sq_ring cq_ring sqes = record {
  fd = fd;
  params = p;
  sq_ring_ptr = sq_ring;
  cq_ring_ptr = cq_ring;
  sq_ptr = sqes;
  sq_len = p.sq_entries;
  cq_length_mask = (p.cq_entries + 2 ^ 32 - 1) % 2 ^ 32;
}

-- `New` after the third mmap, where there is one
abbrev pub after_cq_mmap :
    (fd : ℕ) (p : Params) (sq_ring sqes : ℕ) → List (ℕ × ℕ) → Answer ℕ → Trial
after_cq_mmap fd p sq_ring sqes regions (errno e) = record {
  fds = fd ∷ [];
  regions = regions;
  ring = refused (mmap_failed e);
}
after_cq_mmap fd p sq_ring sqes regions (answer cq_ring) = record {
  fds = fd ∷ [];
  regions = regions ++ (cq_ring, cq_ring_size p) ∷ [];
  ring = succeeded (handle fd p sq_ring cq_ring sqes);
}

-- `New` after the second
abbrev pub after_sqes_mmap :
    (fd : ℕ) (p : Params) (sq_ring : ℕ) (cq_mmap : Answer ℕ) → Answer ℕ → Trial
after_sqes_mmap fd p sq_ring cq_mmap (errno e) = record {
  fds = fd ∷ [];
  regions = (sq_ring, sq_ring_size p) ∷ [];
  ring = refused (mmap_failed e);
}
after_sqes_mmap fd p sq_ring cq_mmap (answer sqes) =
    let regions = (sq_ring, sq_ring_size p) ∷ (sqes, p.sq_entries * 64) ∷ [] in
    if is_single_mmap p
    then record {
      fds = fd ∷ [];
      regions = regions;
      ring = succeeded (handle fd p sq_ring sq_ring sqes);
    }
    else after_cq_mmap fd p sq_ring sqes regions cq_mmap

-- `New` after the first
abbrev pub after_sq_mmap : (fd : ℕ) (p : Params) (sqes_mmap cq_mmap : Answer ℕ) → Answer ℕ → Trial
after_sq_mmap fd p sqes_mmap cq_mmap (errno e) = record {
  fds = fd ∷ [];
  regions = [];
  ring = refused (mmap_failed e);
}
after_sq_mmap fd p sqes_mmap cq_mmap (answer sq_ring) =
    after_sqes_mmap fd p sq_ring cq_mmap sqes_mmap

-- `New` after io_uring_setup, which gives the descriptor and fills in the parameters
abbrev pub after_setup : (sq_mmap sqes_mmap cq_mmap : Answer ℕ) → Answer (ℕ × Params) → Trial
after_setup sq_mmap sqes_mmap cq_mmap (errno e) = record {
  fds = [];
  regions = [];
  ring = refused (setup_failed e);
}
after_setup sq_mmap sqes_mmap cq_mmap (answer (fd, p)) =
    after_sq_mmap fd p sqes_mmap cq_mmap sq_mmap

-- `New`
pub new : (entries : ℕ) (setup : Answer (ℕ × Params)) (sq_mmap sqes_mmap cq_mmap : Answer ℕ) → Trial
new entries setup sq_mmap sqes_mmap cq_mmap =
    if ones_count 64 entries == 1
    then (if ltb entries 256
        then record { fds = []; regions = []; ring = refused too_few_entries }
        else after_setup sq_mmap sqes_mmap cq_mmap setup)
    else record { fds = []; regions = []; ring = refused not_power_of_two }

-- a call of `Close`: the ring after it, what it unmaps and closes, and whether it returns an error
pub record Closed : Type 0 where
  pub ring : RingHandle
  pub unmapped : List (ℕ × ℕ)
  pub fds : List ℕ
  pub failed : Bool

-- the regions that `Close` unmaps, in its order
pub close_regions : RingHandle → List (ℕ × ℕ)
close_regions h =
    (if ltb 0 h.sq_len then (h.sq_ptr, h.sq_len * 64) ∷ [] else [])
    ++ (if h.sq_ring_ptr == 0
        then []
        else (h.sq_ring_ptr, sq_ring_size h.params)
          ∷ (if not (is_single_mmap h.params) && not (h.cq_ring_ptr == 0)
              then (h.cq_ring_ptr, cq_ring_size h.params) ∷ []
              else []))

-- whether one of the calls of munmap fails
unfoldable pub any_fails : (fails : ℕ × ℕ → Bool) → List (ℕ × ℕ) → Bool
any_fails fails [] = false
any_fails fails (region ∷ rest) = fails region || any_fails fails rest

-- `Close`; `munmap_fails` and `close_fails` are what the system calls do
pub close : (munmap_fails : ℕ × ℕ → Bool) (close_fails : Bool) → RingHandle → Closed
unfolding close_regions any_fails
close munmap_fails close_fails h =
    if (h.fd == 0) || (h.fd == 2147483647)
    then record { ring = h; unmapped = []; fds = []; failed = false }
    else record {
      ring = record h { fd = 2147483647; sq_ring_ptr = 0; cq_ring_ptr = 0 };
      unmapped = close_regions h;
      fds = h.fd ∷ [];
      failed = any_fails munmap_fails (close_regions h) || close_fails;
    }

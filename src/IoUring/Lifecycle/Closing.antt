-- ===== src/IoUring/Lifecycle/Closing.antt =====
-- internal/iouring/iouring.go and method_close.go: what Close gives back, and what a failed New keeps.
use mathlib.Core.List.{Perm}
use mathlib.Core.List.Perm
use netring.Prelude.{
  ℕ, ◌*◌, ◌<◌, ◌≡◌, inl, inr, refl, Bool, true, false, ◌||◌, List, [], ◌∷◌, ◌==◌, ltb, ones_count,
  arith, Bool-cases,
}
use netring.IoUring.Lifecycle.{
  Answer, errno, answer, Params, RingHandle, is_single_mmap, cq_ring_size, sq_ring_size, Attempt,
  refused, succeeded, handle, new, after_setup, after_sq_mmap, after_sqes_mmap, after_cq_mmap,
  close_regions, any_fails, close, not_power_of_two, too_few_entries, setup_failed, mmap_failed,
}

-- What the kernel answers, should it not fail: a descriptor that is neither 0 nor the one that marks a
-- closed ring, with a queue of some entries; and a mapping that is not at 0.
abbrev pub IsOpened : Answer (ℕ × Params) → Type 0
IsOpened (errno e) = Unit
IsOpened (answer (fd, p)) = (0 < fd) × (fd < 2147483647) × (0 < p.sq_entries)

abbrev pub IsMapped : Answer ℕ → Type 0
IsMapped (errno e) = Unit
IsMapped (answer ptr) = 0 < ptr

-- a ring of such answers
record IsUsable (h : RingHandle) : Type 0 where
  pub opened : 0 < h.fd
  pub small : h.fd < 2147483647
  pub sq_mapped : 0 < h.sq_ring_ptr
  pub cq_mapped : 0 < h.cq_ring_ptr
  pub entries : 0 < h.sq_len

any_fails-swap :
    (fails : ℕ × ℕ → Bool) (a b : ℕ × ℕ) (rest : List (ℕ × ℕ))
    → any_fails fails (a ∷ b ∷ rest) ≡ any_fails fails (b ∷ a ∷ rest)
unfolding any_fails
any_fails-swap fails a b rest = exchange (fails a) (fails b) (any_fails fails rest)
  where
    exchange : (x y z : Bool) → (x || (y || z)) ≡ (y || (x || z))
    exchange true true z = refl
    exchange true false z = refl
    exchange false y z = refl

module _ (munmap_fails : ℕ × ℕ → Bool) (close_fails : Bool) where
  -- what New has opened and mapped, against what it returns
  abbrev pub Kept : List ℕ → List (ℕ × ℕ) → Attempt → Type 0
  Kept fds regions (refused not_power_of_two) = (fds ≡ []) × (regions ≡ [])
  Kept fds regions (refused too_few_entries) = (fds ≡ []) × (regions ≡ [])
  Kept fds regions (refused (setup_failed e)) = (fds ≡ []) × (regions ≡ [])
  Kept fds regions (refused (mmap_failed e)) = (fd : ℕ) × (fds ≡ fd ∷ [])
  Kept fds regions (succeeded h) =
      ((close munmap_fails close_fails h).fds ≡ fds)
      × Perm (close munmap_fails close_fails h).unmapped regions
      × ((close munmap_fails close_fails h).failed
          ≡ (any_fails munmap_fails regions || close_fails))
      × ((close munmap_fails close_fails (close munmap_fails close_fails h).ring).unmapped ≡ [])
      × ((close munmap_fails close_fails (close munmap_fails close_fails h).ring).fds ≡ [])

  close-Kept :
      (h : RingHandle) (regions : List (ℕ × ℕ))
      → IsUsable h
      → Perm (close_regions h) regions
      → any_fails munmap_fails (close_regions h) ≡ any_fails munmap_fails regions
      → Kept (h.fd ∷ []) regions (succeeded h)
  unfolding close
  close-Kept h regions usable same fails =
      let is_open : (h.fd == 0) ≡ false = ground (arith, usable.opened) in
      let no_mark : (h.fd == 2147483647) ≡ false = ground (arith, usable.small) in
      rw (is_open, no_mark, fails) (refl, same, refl, refl, refl)

  two_maps :
      (fd : ℕ) (p : Params) (sq_ring cq_ring sqes : ℕ)
      → is_single_mmap p ≡ true
      → IsUsable (handle fd p sq_ring cq_ring sqes)
      → Kept
          (fd ∷ [])
          ((sq_ring, sq_ring_size p) ∷ (sqes, p.sq_entries * 64) ∷ [])
          (succeeded (handle fd p sq_ring cq_ring sqes))
  unfolding close_regions
  two_maps fd p sq_ring cq_ring sqes single usable =
      let some_entry : ltb 0 p.sq_entries ≡ true = ground (arith, usable.entries) in
      let sq_at : (sq_ring == 0) ≡ false = ground (arith, usable.sq_mapped) in
      close-Kept (handle fd p sq_ring cq_ring sqes) _ usable
        (rw (some_entry, sq_at, single) (Perm.swap _ _ _))
        (rw (some_entry, sq_at, single)
          (any_fails-swap munmap_fails (sqes, p.sq_entries * 64) (sq_ring, sq_ring_size p) []))

  three_maps :
      (fd : ℕ) (p : Params) (sq_ring cq_ring sqes : ℕ)
      → is_single_mmap p ≡ false
      → IsUsable (handle fd p sq_ring cq_ring sqes)
      → Kept
          (fd ∷ [])
          ((sq_ring, sq_ring_size p) ∷ (sqes, p.sq_entries * 64) ∷ (cq_ring, cq_ring_size p) ∷ [])
          (succeeded (handle fd p sq_ring cq_ring sqes))
  unfolding close_regions
  three_maps fd p sq_ring cq_ring sqes separate usable =
      let some_entry : ltb 0 p.sq_entries ≡ true = ground (arith, usable.entries) in
      let sq_at : (sq_ring == 0) ≡ false = ground (arith, usable.sq_mapped) in
      let cq_at : (cq_ring == 0) ≡ false = ground (arith, usable.cq_mapped) in
      close-Kept (handle fd p sq_ring cq_ring sqes) _ usable
        (rw (some_entry, sq_at, separate, cq_at) (Perm.swap _ _ _))
        (rw (some_entry, sq_at, separate, cq_at)
          (any_fails-swap munmap_fails (sqes, p.sq_entries * 64) (sq_ring, sq_ring_size p)
            ((cq_ring, cq_ring_size p) ∷ [])))

  -- New without enough entries, with a number of entries that is no power of two, or whose
  -- io_uring_setup fails has opened and mapped nothing. When a mmap fails, the descriptor stays open,
  -- though New returns no ring. When New returns a ring, Close closes its descriptor and unmaps exactly
  -- the regions that New has mapped, goes through all of these calls whichever of them fail, returns an
  -- error exactly when one does, and a second Close does nothing. The kernel gives neither the descriptor
  -- 0 nor the one that marks a closed ring, some entries, and no mapping at 0.
  pub new-close :
      (entries : ℕ) (setup : Answer (ℕ × Params)) (sq_mmap sqes_mmap cq_mmap : Answer ℕ)
      → IsOpened setup
      → IsMapped sq_mmap
      → IsMapped cq_mmap
      → Kept
          (new entries setup sq_mmap sqes_mmap cq_mmap).fds
          (new entries setup sq_mmap sqes_mmap cq_mmap).regions
          (new entries setup sq_mmap sqes_mmap cq_mmap).ring
  unfolding new
  new-close entries setup sq_mmap sqes_mmap cq_mmap opened sq_mapped cq_mapped =
      elim (Bool-cases (ones_count 64 entries == 1)) [
        | inr e ↦ rw e (refl, refl)
        | inl power ↦ elim (Bool-cases (ltb entries 256)) [
          | inl e ↦ rw (power, e) (refl, refl)
          | inr enough ↦ rw (power, enough) (by_setup setup opened)
        ]
      ]
    where
      usable :
          (fd : ℕ) (p : Params) (sq_ring cq_ring sqes : ℕ)
          → IsOpened (answer (fd, p))
          → 0 < sq_ring
          → 0 < cq_ring
          → IsUsable (handle fd p sq_ring cq_ring sqes)
      usable fd p sq_ring cq_ring sqes (is_open, small, entries) sq_at cq_at = record {
        opened = is_open;
        small = small;
        sq_mapped = sq_at;
        cq_mapped = cq_at;
        entries = entries;
      }

      by_cq :
          (fd : ℕ) (p : Params) (sq_ring sqes : ℕ) (cq : Answer ℕ)
          → is_single_mmap p ≡ false
          → IsOpened (answer (fd, p))
          → 0 < sq_ring
          → IsMapped cq
          → (let t =
                after_cq_mmap fd p sq_ring sqes
                  ((sq_ring, sq_ring_size p) ∷ (sqes, p.sq_entries * 64) ∷ [])
                  cq in
              Kept t.fds t.regions t.ring)
      by_cq fd p sq_ring sqes (errno e) separate is_open sq_at cq_at = (fd, refl)
      by_cq fd p sq_ring sqes (answer cq_ring) separate is_open sq_at cq_at =
          three_maps fd p sq_ring cq_ring sqes separate
            (usable fd p sq_ring cq_ring sqes is_open sq_at cq_at)

      by_sqes :
          (fd : ℕ) (p : Params) (sq_ring : ℕ) (sqes : Answer ℕ)
          → IsOpened (answer (fd, p))
          → 0 < sq_ring
          → (let t = after_sqes_mmap fd p sq_ring cq_mmap sqes in Kept t.fds t.regions t.ring)
      by_sqes fd p sq_ring (errno e) is_open sq_at = (fd, refl)
      by_sqes fd p sq_ring (answer sqes) is_open sq_at = elim (Bool-cases (is_single_mmap p)) [
        | inl single ↦ rw single (
            two_maps fd p sq_ring sq_ring sqes single
              (usable fd p sq_ring sq_ring sqes is_open sq_at sq_at))
        | inr separate ↦
            rw separate (by_cq fd p sq_ring sqes cq_mmap separate is_open sq_at cq_mapped)
      ]

      by_sq :
          (fd : ℕ) (p : Params) (sq : Answer ℕ)
          → IsOpened (answer (fd, p))
          → IsMapped sq
          → (let t = after_sq_mmap fd p sqes_mmap cq_mmap sq in Kept t.fds t.regions t.ring)
      by_sq fd p (errno e) is_open sq_at = (fd, refl)
      by_sq fd p (answer sq_ring) is_open sq_at = by_sqes fd p sq_ring sqes_mmap is_open sq_at

      by_setup :
          (result : Answer (ℕ × Params))
          → IsOpened result
          → (let t = after_setup sq_mmap sqes_mmap cq_mmap result in Kept t.fds t.regions t.ring)
      by_setup (errno e) is_open = (refl, refl)
      by_setup (answer (fd, p)) is_open = by_sq fd p sq_mmap is_open sq_mapped

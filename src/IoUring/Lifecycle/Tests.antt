-- ===== src/IoUring/Lifecycle/Tests.antt =====
-- Runs of internal/iouring/iouring.go and method_close.go.
use netring.Prelude.{arith, ◌≡◌, refl, true, false, [], ◌∷◌, ones_count}
use netring.IoUring.Lifecycle.{
  Trial, Params, answer, handle, sq_ring_size, new, close, close_regions, any_fails,
}
use netring.IoUring.Lifecycle.Closing.{Kept, new-close}

abbrev params : Params
params = record {
  sq_entries = 256;
  cq_entries = 512;
  features = 0;
  sq_off_array = 64;
  cq_off_cqes = 128;
}

-- a setup that maps the three regions
abbrev three_regions : Trial
three_regions = new 256 (answer (5, params)) (answer 4096) (answer 8192) (answer 65536)

new-close_example :
    Kept (λ region. false) true three_regions.fds three_regions.regions three_regions.ring
new-close_example =
    new-close (λ region. false) true 256 (answer (5, params)) (answer 4096) (answer 8192)
      (answer 65536) (omega arith) (omega arith) (omega arith)

three_regions_mapped : three_regions.regions ≡ (4096, 1088) ∷ (8192, 16384) ∷ (65536, 8320) ∷ []
unfolding new sq_ring_size ones_count
three_regions_mapped = refl

-- with one failing munmap, and on a closed ring
close_goes_on :
    (close (λ region. true) false (handle 5 params 4096 65536 8192)).unmapped
    ≡ (8192, 16384) ∷ (4096, 1088) ∷ (65536, 8320) ∷ []
unfolding close close_regions sq_ring_size any_fails
close_goes_on = refl

close_twice : (close (λ region. true) false (handle 2147483647 params 0 0 8192)).unmapped ≡ []
unfolding close close_regions sq_ring_size any_fails
close_twice = refl

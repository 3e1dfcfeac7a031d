-- ===== src/IoUring/Buffers/Views.antt =====
-- Views and buffer ids: Buffer and ReleaseView are inverse, and a foreign view is refused.
use netring.Prelude.{
  ℕ, ◌+◌, ◌-◌, ◌*◌, ◌/◌, ◌%◌, ◌^◌, ◌≤◌, ◌<◌, ◌≡◌, ◌≢◌, ◌∙◌, ◌⊎◌, sym, refl, true, false, arith,
  ◌==◌, ==_iff, ltb, leb, Bool-cases, inl, inr,
}
use native.Mathlib.Nat.{
  mod-eq_of_lt, mul-mod_left, mul-div_left, div-lt_iff_lt-mul, div-add-mod',
  mul-lt-mul_of_pos_right,
}
use netring.IoUring.Buffers.{
  BufferRing, PbufError, PbufResult, ok, err, foreign_view, publish_buffer, release_buffer, buffer,
  release_view,
}
use netring.IoUring.Buffers.Publish.{RingValid}

ok_start : {p q n m : ℕ} → ◌≡◌ {A = PbufResult (ℕ × ℕ)} (ok (p, n)) (ok (q, m)) → p ≡ q
ok_start e = ground arith

differ : {e : PbufError} {q : BufferRing} → err e ≡ ok q → ⊥
differ h = cc

module _ {ratio : ℕ} (pbr : BufferRing) (valid : RingValid ratio pbr) where
  -- The start of buffer `bid` is taken for that buffer.
  pub release-start :
      (bid : ℕ)
      → bid < pbr.capacity
      → release_view (pbr.base_ptr + bid * pbr.buf_size) pbr ≡ ok (publish_buffer bid pbr)
  unfolding release_view release_buffer
  release-start bid h =
      let place = bid * pbr.buf_size in
      let above : ltb (pbr.base_ptr + place) pbr.base_ptr ≡ false = ground arith in
      let off : pbr.base_ptr + place - pbr.base_ptr ≡ place = omega arith in
      let lt = mul-lt-mul_of_pos_right h valid.sized in
      let inside : leb (pbr.capacity * pbr.buf_size) place ≡ false = ground arith in
      let multiple = mul-mod_left bid pbr.buf_size in
      let whole : (place % pbr.buf_size == 0) ≡ true = ground arith in
      let index : place / pbr.buf_size ≡ bid = mul-div_left bid valid.sized in
      let short : bid % 2 ^ 16 ≡ bid = mod-eq_of_lt (omega (arith, valid.bounded)) in
      let known : ltb bid pbr.capacity ≡ true = ground arith in
      rw (above, off, inside, whole) (rw (index, short, known) refl)

  pub buffer-start :
      (bid : ℕ)
      → bid < pbr.capacity
      → buffer bid pbr ≡ ok (pbr.base_ptr + bid * pbr.buf_size, pbr.buf_size)
  unfolding buffer
  buffer-start bid h =
      let known : ltb bid pbr.capacity ≡ true = ground arith in
      rw (known, valid.pointers bid h) refl

  -- An address that ReleaseView takes is the start of a buffer.
  start_of :
      (ptr : ℕ)
      → pbr.base_ptr ≤ ptr
      → ptr - pbr.base_ptr < pbr.capacity * pbr.buf_size
      → (ptr - pbr.base_ptr) % pbr.buf_size ≡ 0
      → (bid : ℕ) × (bid < pbr.capacity) × (ptr ≡ pbr.base_ptr + bid * pbr.buf_size)
  start_of ptr above inside whole =
      let offset = ptr - pbr.base_ptr in
      (
        offset / pbr.buf_size,
        (div-lt_iff_lt-mul valid.sized).1 inside,
        omega (arith, div-add-mod' offset pbr.buf_size),
      )

  -- ReleaseView gives back exactly the views that Buffer hands out: the start of buffer `bid` releases
  -- `bid`, and any other address is refused as foreign.
  pub release_view-cases :
      (ptr : ℕ)
      → ((bid : ℕ) × (bid < pbr.capacity)
          × (buffer bid pbr ≡ ok (ptr, pbr.buf_size))
          × (release_view ptr pbr ≡ ok (publish_buffer bid pbr)))
        ⊎ (((bid : ℕ) → bid < pbr.capacity → buffer bid pbr ≢ ok (ptr, pbr.buf_size))
            × (release_view ptr pbr ≡ err foreign_view))
  unfolding release_view
  release_view-cases ptr = elim (Bool-cases (ltb ptr pbr.base_ptr)) [
    | inl below ↦ inr (refused (rw below refl))
    | inr above ↦ elim (Bool-cases (leb (pbr.capacity * pbr.buf_size) (ptr - pbr.base_ptr))) [
      | inl past ↦ inr (refused (rw (above, past) refl))
      | inr inside ↦ elim (Bool-cases ((ptr - pbr.base_ptr) % pbr.buf_size == 0)) [
        | inr part ↦ inr (refused (rw (above, inside, part) refl))
        | inl whole ↦
            inl (taken (start_of ptr (ground arith) (ground arith) ((==_iff _ 0).0 whole)))
      ]
    ]
  ]
    where
      refused :
          release_view ptr pbr ≡ err foreign_view
          → ((bid : ℕ) → bid < pbr.capacity → buffer bid pbr ≢ ok (ptr, pbr.buf_size))
            × (release_view ptr pbr ≡ err foreign_view)
      refused e = (
        λ bid h same.
            let at : ptr ≡ pbr.base_ptr + bid * pbr.buf_size =
              ok_start (sym same ∙ buffer-start bid h) in
            let released = release-start bid h in differ (sym (rw at at e) ∙ released),
        e,
      )

      taken :
          (bid : ℕ) × (bid < pbr.capacity) × (ptr ≡ pbr.base_ptr + bid * pbr.buf_size)
          → (bid : ℕ) × (bid < pbr.capacity)
            × (buffer bid pbr ≡ ok (ptr, pbr.buf_size))
            × (release_view ptr pbr ≡ ok (publish_buffer bid pbr))
      taken (bid, h, at) = (bid, h, rw at (buffer-start bid h), rw at (release-start bid h))

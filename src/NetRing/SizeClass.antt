-- ===== src/NetRing/SizeClass.antt =====
-- netring.go: the size classes of the provided buffers, and method_pbuf.go.
pub mod Provision
use netring.Prelude.{
  ℕ, zero, suc, ◌+◌, ◌%◌, ◌^◌, ◌<◌, ◌≡◌, ◌↔◌, refl, Bool, true, false, Option, none, some, arith,
  ◌==◌, ltb, if◌then◌else◌, update, List,
}
use netring.IoUring.Buffers.{
  BufferRing, PbufError, PbufResult, ok, err, panic, Syscall, BufEntry, register_buffer_ring,
  unregister,
}
use netring.NetRing.Cells.{
  NetError, invalid_size_class, already_provisioned, not_provisioned, buffer_ring,
}

-- `sizeClassesCapacity`
size_classes_capacity : ℕ → ℕ
size_classes_capacity s =
    if s == 0
    then 128
    else if s == 1
    then 512
    else if s == 2
    then 1024
    else if s == 3
    then 4096
    else 16384

-- `SizeClass.Size`, of a number below 2 ^ 63
pub size : ℕ → ℕ
unfolding size_classes_capacity
size s = if ltb s 5 then size_classes_capacity s else 0

abbrev pub Rings : Type 0
Rings = ℕ → Option BufferRing

-- The rings after a call, and its error; `panic` is the index out of range of `nr.pbrs[sizeClass]`.
pub data RingsResult : Type 0 where
  done : Rings → Option NetError → RingsResult
  crash : RingsResult

-- the new ring's place, or the error
store_ring : (size_class : ℕ) → Rings → PbufResult BufferRing → RingsResult
store_ring size_class pbrs (ok pbr) = done (update pbrs size_class (some pbr)) none
store_ring size_class pbrs (err e) = done pbrs (some (buffer_ring e))
store_ring size_class pbrs panic = crash

-- a class without a ring gets what `made` is
provision_class :
    (size_class : ℕ) → Rings → (made : PbufResult BufferRing) → Option BufferRing → RingsResult
unfolding store_ring
provision_class size_class pbrs made (some _) = done pbrs (some already_provisioned)
provision_class size_class pbrs made none = store_ring size_class pbrs made

-- `NetRing.RegisterBufferRing`, with what the system calls give
pub register_ring :
    (size_class capacity : ℕ) (data_mem ring_mem : Syscall ℕ)
    → Option ℕ
    → (ℕ → BufEntry)
    → Rings
    → RingsResult
unfolding provision_class
register_ring size_class capacity data_mem ring_mem registered memory pbrs =
    if size size_class == 0
    then done pbrs (some invalid_size_class)
    else provision_class size_class pbrs
        (register_buffer_ring (size_class % 2 ^ 16) capacity (size size_class) data_mem ring_mem
          registered memory)
        (pbrs size_class)

-- `NetRing.UnregisterBufferRing`. A ring whose Unregister failed stays where it is.
pub unregister_ring :
    (size_class : ℕ) (registered ring_unmap data_unmap : Option ℕ) → Rings → RingsResult
unregister_ring size_class registered ring_unmap data_unmap pbrs =
    if ltb size_class 5
    then elim (pbrs size_class) [
      | none ↦ done pbrs (some not_provisioned)
      | some pbr ↦
          let (pbr', failure) = unregister registered ring_unmap data_unmap pbr in
          elim failure [
            | some e ↦ done (update pbrs size_class (some pbr')) (some (buffer_ring e))
            | none ↦ done (update pbrs size_class none) none
          ]
    ]
    else crash

-- The numbers below 5 are the size classes: they alone have a positive size, and every size is a
-- multiple of 64 bytes.
pub size-cases : (s : ℕ) → ((0 < size s) ↔ (s < 5)) × (size s % 64 ≡ 0)
unfolding size
size-cases s = (ground arith, ground arith)

-- ===== src/NetRing/Options/Tests.antt =====
-- Options at concrete inputs.
use netring.Prelude.{◌≡◌, ap, refl, some, none, arith, [], ◌∷◌, pos, ones_count}
use netring.TaskSlots.Creation.{made, new-made}
use netring.NetRing.Options.{
  Options, tasks_channels_count, applied, configure, apply_all, apply_option, store_slots,
  default_slots, is_slots_setter,
}

-- the default options, but for 8 channels
abbrev some_options : Options
some_options = record { tasks_chan_buffer = 256; tasks_chan_shards = 8; slots = some (made 0 8192) }

accepted : configure (tasks_channels_count (pos 8) ∷ []) ≡ applied some_options
unfolding configure apply_all apply_option store_slots default_slots is_slots_setter ones_count
accepted =
    ap (store_slots 8192 (record { tasks_chan_buffer = 256; tasks_chan_shards = 8; slots = none }))
      (new-made 0 8192 (record { one_bit = refl; enough = omega arith; positive = omega arith }) 8
        (omega arith) (omega arith))

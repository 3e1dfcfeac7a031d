-- ===== src/NetRing/Options.antt =====
-- netring_options.go, and the part of New of netring.go that applies the options. A task cell's
-- pointer has 8 bytes; the slot count is the bit pattern of an int.
pub mod Configuring
mod Tests
use netring.Prelude.{
  ℕ, Bool, true, false, ◌||◌, Option, none, some, List, [], ◌∷◌, ◌==◌, if◌then◌else◌, ones_count, ℤ,
  is_negative, pos_part,
}
use netring.TaskSlots.{Slots, NewError, NewResult, ok, err, new}

-- the OptionSetters of the package
pub data Setter : Type 0 where
  tasks_buffer_size : ℤ → Setter
  tasks_channels_count : ℤ → Setter
  slots_count : ℕ → Setter

-- `netringOptions`
pub record Options : Type 0 where
  pub tasks_chan_buffer : ℕ
  pub tasks_chan_shards : ℕ
  pub slots : Option (Slots ℕ)

pub data OptionError : Type 0 where
  buffer_not_positive : ℤ → OptionError
  channels_not_positive : ℤ → OptionError
  channels_odd : ℤ → OptionError
  bad_slots : NewError → OptionError

pub data Applied : Type 0 where
  applied : Options → Applied
  rejected : Setter → OptionError → Applied

-- what the slots setter does with the answer of taskslots.New
store_slots : (n : ℕ) → Options → NewResult (Slots ℕ) → Applied
store_slots n options (ok s) = applied (record options { slots = some s })
store_slots n options (err e) = rejected (slots_count n) (bad_slots e)

-- `n <= 0`
abbrev not_positive : ℤ → Bool
not_positive n = is_negative n || pos_part n == 0

-- the three `apply` methods; an error is wrapped with the option's name
pub apply_option : Setter → Options → Applied
unfolding store_slots
apply_option (tasks_buffer_size n) options =
    if not_positive n
    then rejected (tasks_buffer_size n) (buffer_not_positive n)
    else applied (record options { tasks_chan_buffer = pos_part n })
apply_option (tasks_channels_count n) options =
    if not_positive n
    then rejected (tasks_channels_count n) (channels_not_positive n)
    else if ones_count 64 (pos_part n) == 1
    then applied (record options { tasks_chan_shards = pos_part n })
    else rejected (tasks_channels_count n) (channels_odd n)
apply_option (slots_count n) options = store_slots n options (new 8 0 n)

pub is_slots_setter : Setter → Bool
is_slots_setter (slots_count n) = true
is_slots_setter _ = false

-- after the loop: the default slots, if no option set them
default_slots : (had_slots : Bool) → Options → Applied
unfolding apply_option
default_slots true options = applied options
default_slots false options = apply_option (slots_count 8192) options

-- an error ends the loop
abbrev pub and_then : Applied → (Options → Applied) → Applied
and_then (rejected s e) next = rejected s e
and_then (applied options) next = next options

-- the loop over the options that are left, and what follows it
apply_all : (had_slots : Bool) → List Setter → Options → Applied
unfolding default_slots
apply_all had_slots [] options = default_slots had_slots options
apply_all had_slots (s ∷ rest) options =
    and_then (apply_option s options) (apply_all (is_slots_setter s || had_slots) rest)

-- the options that New goes on with
pub configure : List Setter → Applied
unfolding apply_all
configure setters =
    apply_all false setters
      (record { tasks_chan_buffer = 256; tasks_chan_shards = 64; slots = none })

-- ===== src/NetRing/Options/Configuring.antt =====
-- What New's options come to.
use netring.Prelude.{
  ℕ, ◌+◌, ◌≤◌, ◌<◌, ◌≡◌, refl, ap, subst, sym, ◌∙◌, Bool, true, false, ◌||◌, none, some, List, [],
  ◌∷◌, arith, ◌==◌, ones_count, pos_part, Bool-cases, inl, inr,
}
use netring.TaskSlots.{Slots, sys_ids, NewResult, ok, err, new}
use netring.TaskSlots.Invariant.{Valid}
use netring.TaskSlots.Creation.{made, new-made, made-bounds, new-ok}
use netring.TaskSlots.Laws.{new-Valid}
use netring.NetRing.Options.{
  Setter, tasks_buffer_size, tasks_channels_count, slots_count, Options, Applied, applied, rejected,
  not_positive, store_slots, apply_option, is_slots_setter, default_slots, apply_all, configure,
}

-- a valid slot table, of some shape, whose indices are task ids
pub record IsTable (s : Slots ℕ) : Type 0 where
  pub words : ℕ
  pub ring : ℕ
  pub back : ℕ
  pub valid : Valid words ring back s
  pub bounds : s.fallback_mask + s.cap ≤ sys_ids

-- Options that are right; the slots are there once an option set them.
pub record Good (had_slots : Bool) (options : Options) : Type 0 where
  pub buffer : 0 < options.tasks_chan_buffer
  pub shards : ones_count 64 options.tasks_chan_shards ≡ 1
  pub table : had_slots ≡ true → (s : Slots ℕ) × (options.slots ≡ some s) × IsTable s

abbrev table_or : Slots ℕ → NewResult (Slots ℕ) → Slots ℕ
table_or s (ok t) = t
table_or s (err x) = s

made-IsTable : (n : ℕ) (s : Slots ℕ) → new 8 0 n ≡ ok s → IsTable s
made-IsTable n s e =
    let (capacity, positive, words) = new-ok 0 n 8 e in
    let (s', answered, valid, _) = new-Valid 0 n 8 capacity positive words in
    let same : s' ≡ s = cc in
    let is_made = new-made 0 n capacity 8 positive words in
    let at : made 0 n ≡ s = ap (table_or s) (sym is_made ∙ e) in
    record {
      words = _;
      ring = _;
      back = _;
      valid = rw same at valid;
      bounds = subst (λ t. t.fallback_mask + t.cap ≤ sys_ids) at (made-bounds {T = ℕ} 0 n capacity);
    }

stored-Good :
    (had_slots : Bool) (n : ℕ) (options after : Options) (made : NewResult (Slots ℕ))
    → Good had_slots options
    → new 8 0 n ≡ made
    → store_slots n options made ≡ applied after
    → Good true after
unfolding store_slots
stored-Good had_slots n options after (ok s) good same e =
    let at : record options { slots = some s } ≡ after = ground arith in rw (← at) with_slots
  where
    with_slots : Good true (record options { slots = some s })
    with_slots = record {
      buffer = good.buffer;
      shards = good.shards;
      table = λ _. (s, refl, made-IsTable n s same);
    }
stored-Good had_slots n options after (err x) good same e = absurd (ground arith)

apply_option-Good :
    (had_slots : Bool) (s : Setter) (options after : Options)
    → Good had_slots options
    → apply_option s options ≡ applied after
    → Good (is_slots_setter s || had_slots) after
unfolding apply_option is_slots_setter
apply_option-Good had_slots (slots_count n) options after good e =
    stored-Good had_slots n options after (new 8 0 n) good refl e
apply_option-Good had_slots (tasks_buffer_size n) options after good e =
    elim (Bool-cases (not_positive n)) [
      | inl bad ↦ absurd (let no = rw bad at e in ground arith)
      | inr fine ↦
          let at : record options { tasks_chan_buffer = pos_part n } ≡ after =
            (let yes = rw fine at e in ground arith) in
          rw (← at) (buffer_set fine)
    ]
  where
    buffer_set :
        not_positive n ≡ false → Good had_slots (record options { tasks_chan_buffer = pos_part n })
    buffer_set fine = record { buffer = ground arith; shards = good.shards; table = good.table }
apply_option-Good had_slots (tasks_channels_count n) options after good e =
    elim (Bool-cases (not_positive n)) [
      | inl bad ↦ absurd (let no = rw bad at e in ground arith)
      | inr fine ↦ elim (Bool-cases (ones_count 64 (pos_part n) == 1)) [
        | inr odd ↦ absurd (let no = rw (fine, odd) at e in ground arith)
        | inl power ↦
            let at : record options { tasks_chan_shards = pos_part n } ≡ after =
              (let yes = rw (fine, power) at e in ground arith) in
            rw (← at) (shards_set power)
      ]
    ]
  where
    shards_set :
        (ones_count 64 (pos_part n) == 1) ≡ true
        → Good had_slots (record options { tasks_chan_shards = pos_part n })
    shards_set power = record { buffer = good.buffer; shards = ground arith; table = good.table }

apply_all-Good :
    (setters : List Setter) (had_slots : Bool) (options after : Options)
    → Good had_slots options
    → apply_all had_slots setters options ≡ applied after
    → Good true after
unfolding apply_all default_slots is_slots_setter
apply_all-Good [] true options after good e =
    let at : options ≡ after = ground arith in rw (← at) good
apply_all-Good [] false options after good e =
    apply_option-Good false (slots_count 8192) options after good e
apply_all-Good (s ∷ rest) had_slots options after good e =
    through (apply_option s options) refl
      (λ middle. apply_all-Good rest (is_slots_setter s || had_slots) middle after)
  where
    through :
        (a : Applied)
        → apply_option s options ≡ a
        → ((middle : Options)
            → Good (is_slots_setter s || had_slots) middle
            → apply_all (is_slots_setter s || had_slots) rest middle ≡ applied after
            → Good true after)
        → Good true after
    through (rejected s' x) same rest_Good = absurd (let no = rw same at e in ground arith)
    through (applied middle) same rest_Good =
        rest_Good middle (apply_option-Good had_slots s options middle good same) (rw same at e)

-- When New accepts its options, whatever their order and number, the channel buffer is positive, the
-- number of channels is a power of two, and there is a slot table, which is valid.
pub configure-Good :
    (setters : List Setter) (options : Options)
    → configure setters ≡ applied options
    → Good true options
unfolding configure ones_count
configure-Good setters options e =
    apply_all-Good setters false
      (record { tasks_chan_buffer = 256; tasks_chan_shards = 64; slots = none }) options
      (record { buffer = omega arith; shards = refl; table = λ h. absurd (cc) }) e

-- the options of a New without any
abbrev pub defaults : Options
defaults = record { tasks_chan_buffer = 256; tasks_chan_shards = 64; slots = some (made 0 8192) }

pub configure-none : configure [] ≡ applied defaults
unfolding configure apply_all apply_option store_slots default_slots ones_count
configure-none =
    ap (store_slots 8192 (record { tasks_chan_buffer = 256; tasks_chan_shards = 64; slots = none }))
      (new-made 0 8192 (record { one_bit = refl; enough = omega arith; positive = omega arith }) 8
        (omega arith) (omega arith))

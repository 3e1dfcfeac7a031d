-- ===== src/TimingWheel.antt =====
-- internal/timingwheel/timingwheel.go: timers in a wheel of 4096 buckets. A callback is a value that
-- the loop of `Tick` hands out with its descriptor, in the order of the calls; that a callback does
-- not use the wheel is taken for granted.
pub mod Chains
pub mod Insert
pub mod Expire
pub mod Fires
mod Tests
use netring.Prelude.{
  ℕ, zero, suc, ◌+◌, ◌%◌, Bool, true, false, Option, none, some, List, [], ◌∷◌, ◌==◌, if◌then◌else◌,
  update, ℤ, pos,
}
use mathlib.Core.Option

abbrev pub invalid_index : ℕ
invalid_index = 4294967295

abbrev pub num_buckets : ℕ
num_buckets = 4096

-- `TimingWheel`: the fields of `linksPool` and `valuesPool`, each of `size` entries, and
-- `freeNodes` with its last entry first.
pub record TimingWheel {ℓ} (C : Type ℓ) : Type ℓ where
  pub current_bucket : ℕ
  pub buckets : ℕ → ℕ
  pub size : ℕ
  pub prev : ℕ → ℕ
  pub next : ℕ → ℕ
  pub bucket_index : ℕ → ℕ
  pub generation : ℕ → ℕ
  pub fd : ℕ → ℤ
  pub callback : ℕ → Option C
  pub free_nodes : List ℕ

-- `TimerId`
pub record TimerId : Type 0 where
  pub index : ℕ
  pub generation : ℕ

-- the entries of `freeNodes` of a new wheel, the last one first
pub indices_below : ℕ → List ℕ
indices_below zero = []
indices_below (suc i) = (i % 4294967296) ∷ indices_below i

module _ {ℓ} {C : Type ℓ} where
  -- `NewTimingWheel`
  abbrev pub new : (max_connections : ℕ) → TimingWheel C
  new max_connections = record {
    current_bucket = 0;
    buckets = λ _. invalid_index;
    size = max_connections;
    prev = λ _. invalid_index;
    next = λ _. invalid_index;
    bucket_index = λ _. 0;
    generation = λ _. 0;
    fd = λ _. pos 0;
    callback = λ _. none;
    free_nodes = indices_below max_connections;
  }

  -- `releaseNode`
  abbrev pub release_node : (idx : ℕ) → TimingWheel C → TimingWheel C
  release_node idx w = record w {
    generation = update w.generation idx ((w.generation idx + 1) % 4294967296);
    prev = update w.prev idx invalid_index;
    next = update w.next idx invalid_index;
    callback = update w.callback idx none;
    free_nodes = idx ∷ w.free_nodes;
  }

  -- the call of a callback, before those that follow
  abbrev pub call : Option C → ℤ → List (C × ℤ) → List (C × ℤ)
  call none fd later = later
  call (some callback) fd later = (callback, fd) ∷ later

  -- the loop of `Tick`, with the calls it makes; `none` when the fuel runs out
  pub tick_loop : ℕ → (current_idx : ℕ) → TimingWheel C → Option (TimingWheel C × List (C × ℤ))
  tick_loop zero current_idx w = none
  tick_loop (suc f) current_idx w =
      let rest = tick_loop f (w.next current_idx) (release_node current_idx w) in
      if current_idx == invalid_index
      then some (w, [])
      else Option.map (λ r. (r.0, call (w.callback current_idx) (w.fd current_idx) r.1)) rest

  -- `Tick` before its loop
  abbrev pub next_bucket : TimingWheel C → TimingWheel C
  next_bucket w = record w {
    current_bucket = (w.current_bucket + 1) % num_buckets;
    buckets = update w.buckets w.current_bucket invalid_index;
  }

  -- `Tick`; a list of nodes is no longer than the pool
  pub tick : TimingWheel C → Option (TimingWheel C × List (C × ℤ))
  tick w = tick_loop (w.size + 1) (w.buckets w.current_bucket) (next_bucket w)

  -- the bucket `Add` inserts into
  abbrev pub target_epoch : (ttl_seconds : ℕ) → TimingWheel C → ℕ
  target_epoch ttl_seconds w = (w.current_bucket + ttl_seconds) % 4294967296 % num_buckets

  -- `Add` with a free index
  abbrev pub insert :
      (target idx : ℕ) (rest : List ℕ) → ℤ → Option C → TimingWheel C → TimingWheel C
  insert target idx rest fd callback w = record w {
    free_nodes = rest;
    fd = update w.fd idx fd;
    callback = update w.callback idx callback;
    bucket_index = update w.bucket_index idx target;
    next = update w.next idx (w.buckets target);
    prev =
        (if w.buckets target == invalid_index
          then update w.prev idx invalid_index
          else update (update w.prev idx invalid_index) (w.buckets target) idx);
    buckets = update w.buckets target idx;
  }

  -- `Add` of a time that is not 0, by the free indices
  pub add_free : (ttl_seconds : ℕ) → ℤ → Option C → TimingWheel C → List ℕ → TimingWheel C × TimerId
  add_free ttl_seconds fd callback w [] = (w, record { index = invalid_index; generation = 0 })
  add_free ttl_seconds fd callback w (idx ∷ rest) = (
    insert (target_epoch ttl_seconds w) idx rest fd callback w,
    record { index = idx; generation = w.generation idx },
  )

  -- `Add`
  pub add : (ttl_seconds : ℕ) → ℤ → Option C → TimingWheel C → TimingWheel C × TimerId
  unfolding add_free
  add ttl_seconds fd callback w =
      if ttl_seconds == 0
      then (w, record { index = invalid_index; generation = 0 })
      else add_free ttl_seconds fd callback w w.free_nodes

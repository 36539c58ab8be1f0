-- ===== src/Throttle/Store.antt =====
-- crates/tork-core/src/throttle/store.rs: the counter backend, and the in-memory one. The state is
-- the map under the mutex; the moment of a call is its argument. Moments and durations are
-- nanoseconds, without the upper limits of `Instant` and `u64`.
pub mod Counting
use tork_framework.Base.{
  ℕ, suc, ◌+◌, ◌≡◌, Bool, Option, none, some, List, Text, ltb, leb, length, if◌then◌else◌, lookup,
  insert, retain, unwrap_or,
}

-- The trait: `incr now key ttl`, `count now key`. `none` is an `Err`.
pub record ThrottleStore : Type 1 where
  pub State : Type 0
  pub incr : ℕ → Text → ℕ → State → State × Option ℕ
  pub count : ℕ → Text → State → Option ℕ

abbrev pub sweep_threshold : ℕ
sweep_threshold = 4096

pub record Entry : Type 0 where
  pub count : ℕ
  pub expires_at : ℕ

abbrev pub Counters : Type 0
Counters = List (Text × Entry)

abbrev pub is_live : ℕ → Entry → Bool
is_live now e = ltb now e.expires_at

unfoldable pub sweep : ℕ → Counters → Counters
sweep now m = if ltb sweep_threshold (length m) then retain (is_live now) m else m

-- The entry after a hit: `or_insert`, the reset of an expired entry, and the increment.
abbrev pub hit : ℕ → ℕ → Option Entry → Entry
hit now ttl found =
    let entry = unwrap_or found (record { count = 0; expires_at = now + ttl }) in
    if leb entry.expires_at now
    then record { count = 1; expires_at = now + ttl }
    else record entry { count = entry.count + 1 }

unfoldable pub incr : ℕ → Text → ℕ → Counters → Counters × Option ℕ
unfolding sweep
incr now key ttl m =
    let swept = sweep now m in
    let entry = hit now ttl (lookup key swept) in (insert key entry swept, some entry.count)

abbrev pub live_count : ℕ → Option Entry → ℕ
live_count now none = 0
live_count now (some e) = if is_live now e then e.count else 0

unfoldable pub count : ℕ → Text → Counters → Option ℕ
count now key m = some (live_count now (lookup key m))

abbrev pub memory_store : ThrottleStore
memory_store = record { State = Counters; incr = incr; count = count }

-- ===== src/Ws/Limiter.antt =====
-- crates/tork-core/src/ws.rs: `WsIpLimiter` and `WsIpPermit`. The counts are a map from addresses.
pub mod Counting
use tork_framework.Base.{
  ℕ, zero, suc, ◌-◌, Bool, true, false, Option, none, some, List, [], ◌∷◌, Text, text_eq, lookup,
  insert, get_or, leb, ◌==◌, if◌then◌else◌,
}

abbrev pub Counts : Type 0
Counts = List (Text × ℕ)

-- `HashMap::remove`
unfoldable pub remove : Text → Counts → Counts
remove k [] = []
remove k ((j, v) ∷ m) = let rest = remove k m in if text_eq j k then m else (j, v) ∷ rest

-- `entry(ip).or_insert(0)`
abbrev pub entered : Text → Counts → Counts
entered ip m = elim (lookup ip m) [ none ↦ insert ip 0 m | some count ↦ m ]

-- The counts behind the call, and whether it gives a permit.
unfoldable pub try_acquire : (limit : ℕ) → Text → Counts → Counts × Bool
try_acquire limit ip m =
    if leb limit (get_or ip 0 m)
    then (entered ip m, false)
    else (insert ip (suc (get_or ip 0 m)) (entered ip m), true)

abbrev pub released : Text → ℕ → Counts → Option Counts
released ip zero m = none
released ip (suc count) m = some (if count == 0 then remove ip m else insert ip count m)

abbrev pub drop_at : Text → Counts → Option ℕ → Option Counts
drop_at ip m none = some m
drop_at ip m (some count) = released ip count m

-- The drop of a permit; `none` is the overflow of the subtraction.
unfoldable pub drop_permit : Text → Counts → Option Counts
drop_permit ip m = drop_at ip m (lookup ip m)

-- ===== src/Throttle/Policy.antt =====
-- crates/tork-core/src/throttle/engine.rs: policies, the configuration, and the limits that a route
-- is held to. A `Duration` is a number of nanoseconds. The store is in Throttle/Store.
pub mod Resolution
use tork_framework.Base.{
  ℕ, ◌*◌, ◌/◌, max, ◌++◌, Bool, true, false, Option, none, some, List, [], ◌∷◌, Text, bytes,
  decimal, lookup, insert, and_then, is_empty,
}

pub data ThrottlePolicy : Type 0 where
  inherit skip : ThrottlePolicy
  named : Text → ThrottlePolicy
  inline : (limit window_secs : ℕ) → ThrottlePolicy
  multiple : List Text → ThrottlePolicy

pub record Limit : Type 0 where
  pub limit : ℕ
  pub window : ℕ

abbrev pub from_secs : ℕ → ℕ
from_secs s = s * 1_000_000_000

abbrev pub as_secs : ℕ → ℕ
as_secs d = d / 1_000_000_000

abbrev pub Policies : Type 0
Policies = List (Text × Limit)

-- The builder `Throttle`.
pub record Throttle : Type 0 where
  pub policies : Policies
  pub default_name : Option Text
  pub sliding : Bool

abbrev pub new_throttle : Throttle
new_throttle = record { policies = []; default_name = none; sliding = false }

unfoldable pub policy : Text → (limit window_secs : ℕ) → Throttle → Throttle
policy name limit window_secs t = record t {
  policies =
      insert name (record { limit = limit; window = from_secs (max window_secs 1) }) t.policies;
}

abbrev pub set_default : Text → Throttle → Throttle
set_default name t = record t { default_name = some name }

abbrev pub set_sliding : Throttle → Throttle
set_sliding t = record t { sliding = true }

-- `Throttler` with its `Inner`.
pub record Throttler : Type 0 where
  pub policies : Policies
  pub default_limit : Option (Text × Limit)
  pub sliding : Bool

abbrev pub named_limit : Policies → Text → Option (Text × Limit)
named_limit ps name = and_then (lookup name ps) (λ limit. some (name, limit))

unfoldable pub new : Throttle → Throttler
new c = record {
  policies = c.policies;
  default_limit = and_then c.default_name (named_limit c.policies);
  sliding = c.sliding;
}

abbrev pub to_list : Option (Text × Limit) → List (Text × Limit)
to_list none = []
to_list (some l) = l ∷ []

abbrev pub filter_map : (Text → Option (Text × Limit)) → List Text → List (Text × Limit)
filter_map f [] = []
filter_map f (n ∷ ns) = to_list (f n) ++ filter_map f ns

-- `inline:{limit}:{window_secs}`
pub inline_name : ℕ → ℕ → Text
inline_name limit window_secs =
    bytes "inline:" ++ (decimal limit ++ (bytes ":" ++ decimal window_secs))

unfoldable pub resolve : Throttler → ThrottlePolicy → List (Text × Limit)
resolve t skip = []
resolve t inherit = to_list t.default_limit
resolve t (inline limit window_secs) =
    (
      inline_name limit window_secs,
      record { limit = limit; window = from_secs (max window_secs 1) },
    )
    ∷ []
resolve t (named name) = to_list (named_limit t.policies name)
resolve t (multiple names) = filter_map (named_limit t.policies) names

-- ===== src/Throttle/Tests.antt =====
-- Tests of the throttle, and its theorems at concrete inputs.
use tork_framework.Base.{
  ℕ, ◌+◌, ◌*◌, ◌/◌, ◌≤◌, ◌<◌, ◌≡◌, refl, true, false, none, some, [], ◌∷◌, Text, bytes, arith, ltb,
  lookup, insert, text_eq, decimal,
}
use tork_framework.Throttle.Store.{Counters, incr, ThrottleStore}
use tork_framework.Throttle.Policy.{named, Limit, Throttle, new, resolve, from_secs}
use tork_framework.Throttle.Engine.{
  Floats, Clock, allow, deny, counter_key, decide_one, decide_fixed, window_secs, enforce,
  check_all,
}
use tork_framework.Throttle.Engine.Limits.{decide_one_retry, RefusedBy, enforce-RefusedBy}
use tork_framework.Throttle.Engine.Window.{decisions, decisions_fresh, promised}
use tork_framework.Throttle.Engine.Sliding.{fails_open}

whole_grows : (c cap p a b : ℕ) → 0 < b → ltb cap c ≡ true → ltb cap (c + p * 0) ≡ true
whole_grows c cap p a b q h = ground arith

-- Whole numbers in place of doubles.
abbrev whole : Floats
whole = record {
  F = ℕ;
  of_u64 = λ n. n;
  div = λ a b. 0;
  mul = λ a b. a * b;
  add = λ a b. a + b;
  gt = λ a b. ltb b a;
  gt_of_u64 = λ a b p q. refl;
  add_zero = λ c a b p. omega arith;
  add_grows = whole_grows;
}

-- A store that is down.
abbrev broken : ThrottleStore
broken = record { State = Unit {0}; incr = λ now k ttl s. (s, none); count = λ now k s. none }

-- A store whose key stands at five hits, and at none in the bucket before.
abbrev five : ThrottleStore
five = record { State = Unit {0}; incr = λ now k ttl s. (s, some 5); count = λ now k s. some 0 }

abbrev two_a_minute : Limit
two_a_minute = record { limit = 2; window = from_secs 60 }

abbrev at : ℕ → Clock
at s = record { secs = s; at_incr = from_secs s; at_count = from_secs s }

abbrev path : Text
path = bytes "/login"

abbrev disc : Text
disc = bytes "strict"

abbrev ip : Text
ip = bytes "10.0.0.1"

burst_test :
    decisions whole path disc ip two_a_minute (at 61 ∷ at 62 ∷ at 70 ∷ at 119 ∷ at 120 ∷ []) []
    ≡ allow ∷ allow ∷ deny 50 ∷ deny 1 ∷ allow ∷ []
unfolding decisions decide_one decide_fixed counter_key incr lookup insert text_eq decimal
burst_test = refl

decisions_fresh_example :
    decisions whole path disc ip two_a_minute (at 61 ∷ at 62 ∷ at 70 ∷ []) []
    ≡ promised two_a_minute 0 (at 61 ∷ at 62 ∷ at 70 ∷ [])
unfolding lookup
decisions_fresh_example =
    decisions_fresh whole path disc ip two_a_minute (at 61) (at 62 ∷ at 70 ∷ []) 1 [] tt refl refl
      (omega arith) (omega arith)

abbrev stored : Counters
stored = (ip, record { count = 2; expires_at = 100 }) ∷ []

abbrev configured : Throttle
configured = record {
  policies = (disc, two_a_minute) ∷ [];
  default_name = some disc;
  sliding = false;
}

decide_one_retry_example :
    (0 < 50)
    × (50 ≤ window_secs two_a_minute)
    × (70 + 50 ≡ (70 / window_secs two_a_minute + 1) * window_secs two_a_minute)
unfolding decide_one decide_fixed
decide_one_retry_example =
    decide_one_retry whole five false (at 70) path disc two_a_minute ip tt 50 refl

enforce-RefusedBy_example :
    RefusedBy whole five false at 0 path ip ((disc, two_a_minute) ∷ []) tt tt 60
unfolding enforce resolve new lookup text_eq check_all decide_one decide_fixed
enforce-RefusedBy_example =
    enforce-RefusedBy whole five (new configured) at none path (named disc) (some ip) tt tt 60 refl

fails_open_example : (decide_one whole broken true (at 70) path disc two_a_minute ip tt).1 ≡ allow
fails_open_example =
    fails_open whole broken (at 70) path disc two_a_minute ip tt true (omega arith) refl refl refl

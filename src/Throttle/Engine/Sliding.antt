-- ===== src/Throttle/Engine/Sliding.antt =====
-- The sliding window, and a store that fails.
use tork_framework.Base.{
  ℕ, ◌<◌, ◌≤◌, ◌/◌, ◌*◌, ◌≡◌, Bool, true, false, Option, none, some, Text, arith, ltb,
  if◌then◌else◌, unwrap_or,
}
use tork_framework.Throttle.Store.{ThrottleStore}
use tork_framework.Throttle.Policy.{Limit}
use tork_framework.Throttle.Engine.{
  Floats, Clock, allow, deny, counter_key, window_secs, until_reset, previous_bucket, exceeds,
  decide_sliding, decide_fixed, decide_one,
}

-- The largest whole number up to which doubles are exact.
abbrev pub exact : ℕ
exact = 9_007_199_254_740_992

module _ (fl : Floats) where
  window_pos : (l : Limit) → 0 < window_secs l
  window_pos l = omega arith

  exceeds_over :
      (current previous : ℕ) (c : Clock) (l : Limit)
      → l.limit < current
      → current ≤ exact
      → exceeds fl current previous c l ≡ true
  exceeds_over current previous c l over small =
      fl.add_grows current l.limit previous (until_reset c l) (window_secs l) (window_pos l)
        (ground (arith, fl.gt_of_u64 current l.limit small (omega arith)))

  exceeds_alone :
      (current : ℕ) (c : Clock) (l : Limit)
      → current ≤ exact
      → l.limit ≤ exact
      → exceeds fl current 0 c l ≡ ltb l.limit current
  exceeds_alone current c l small small' =
      rw (fl.add_zero current (until_reset c l) (window_secs l) (window_pos l), exceeds)
        (fl.gt_of_u64 current l.limit small small')

module _ (fl : Floats) (store : ThrottleStore) (c : Clock) (scope disc : Text) (l : Limit)
    (key : Text) (s : store.State) where
  abbrev pub hit_result : store.State × Option ℕ
  hit_result =
      store.incr c.at_incr (counter_key scope disc key (c.secs / window_secs l)) (l.window * 2) s

  abbrev pub previous_result : Option ℕ
  previous_result =
      store.count c.at_count (counter_key scope disc key (previous_bucket (c.secs / window_secs l)))
        hit_result.0

  -- With the sliding window, a request over the limit in the current bucket alone is refused,
  -- whatever the bucket before it holds, for a count that doubles represent exactly.
  pub sliding_refuses :
      (current : ℕ)
      → hit_result.1 ≡ some current
      → l.limit < current
      → current ≤ exact
      → (decide_sliding fl store c scope disc l key s).1 ≡ deny (until_reset c l)
  unfolding decide_sliding
  sliding_refuses current answered over small =
      rw (answered, exceeds_over fl current (unwrap_or previous_result 0) c l over small)

  -- With no hit in the bucket before, the sliding estimate decides as the fixed window does on its
  -- count, for counts and limits that doubles represent exactly.
  pub sliding_alone :
      (current : ℕ)
      → hit_result.1 ≡ some current
      → previous_result ≡ some 0
      → current ≤ exact
      → l.limit ≤ exact
      → (decide_sliding fl store c scope disc l key s).1
        ≡ (if ltb l.limit current then deny (until_reset c l) else allow)
  unfolding decide_sliding
  sliding_alone current answered quiet small small' =
      rw (answered, quiet, exceeds_alone fl current c l small small')

  -- If the store fails on every call that the decision makes, no request is refused, in either
  -- mode, for a limit that doubles represent exactly.
  pub fails_open :
      (sliding : Bool)
      → l.limit ≤ exact
      → hit_result.1 ≡ none
      → previous_result ≡ none
      → (store.incr c.at_incr (counter_key scope disc key (c.secs / window_secs l)) l.window s).1
        ≡ none
      → (decide_one fl store sliding c scope disc l key s).1 ≡ allow
  unfolding decide_one decide_sliding decide_fixed
  fails_open true small down down' down_fixed =
      rw (down, down', exceeds_alone fl 0 c l (omega arith) small) (ground arith)
  fails_open false small down down' down_fixed = ground arith

-- ===== src/Throttle/Engine.antt =====
-- crates/tork-core/src/throttle/engine.rs: the decision on a request. The store is the trait's
-- record; the clocks that a call reads are arguments, and so is the client's address as text
-- (throttle/key.rs). f64 is a parameter: the operations that the estimate makes, with three laws.
pub mod Limits
pub mod Window
pub mod Sliding
use tork_framework.Base.{
  ℕ, suc, ◌+◌, ◌-◌, ◌*◌, ◌/◌, ◌%◌, ◌≤◌, ◌<◌, ◌≡◌, max, ◌++◌, Bool, true, false, Option, none, some,
  List, [], ◌∷◌, Text, bytes, decimal, ltb, ◌==◌, if◌then◌else◌, unwrap_or,
}
use tork_framework.Error.{Error, Result, ok, err, error, too_many_requests, with_code}
use tork_framework.Throttle.Store.{ThrottleStore}
use tork_framework.Throttle.Policy.{ThrottlePolicy, Limit, as_secs, Throttler, resolve}

-- Doubles: whole numbers below 2^53 compare exactly, a zero product adds nothing, and a sum with a
-- product of numbers that are not negative is not below its first term.
pub record Floats : Type 1 where
  pub F : Type 0
  pub of_u64 : ℕ → F
  pub div : F → F → F
  pub mul : F → F → F
  pub add : F → F → F
  pub gt : F → F → Bool
  pub gt_of_u64 :
      (a b : ℕ)
      → a ≤ 9_007_199_254_740_992
      → b ≤ 9_007_199_254_740_992
      → gt (of_u64 a) (of_u64 b) ≡ ltb b a
  pub add_zero :
      (c a b : ℕ) → 0 < b → add (of_u64 c) (mul (of_u64 0) (div (of_u64 a) (of_u64 b))) ≡ of_u64 c
  pub add_grows :
      (c cap p a b : ℕ)
      → 0 < b
      → gt (of_u64 c) (of_u64 cap) ≡ true
      → gt (add (of_u64 c) (mul (of_u64 p) (div (of_u64 a) (of_u64 b)))) (of_u64 cap) ≡ true

-- What a decision reads of the time: the seconds since the epoch, and the store's own moments.
pub record Clock : Type 0 where
  pub secs : ℕ
  pub at_incr : ℕ
  pub at_count : ℕ

pub data Decision : Type 0 where
  allow : Decision
  deny : (retry_after : ℕ) → Decision

-- `throttle:{scope}:{disc}:{key}:{bucket}`
unfoldable pub counter_key : (scope disc key : Text) → ℕ → Text
counter_key scope disc key bucket =
    bytes "throttle:"
    ++ (scope ++ (bytes ":" ++ (disc ++ (bytes ":" ++ (key ++ (bytes ":" ++ decimal bucket))))))

-- `wrapping_sub(1)` on u64.
abbrev pub previous_bucket : ℕ → ℕ
previous_bucket b = if b == 0 then 18_446_744_073_709_551_615 else b - 1

abbrev pub window_secs : Limit → ℕ
window_secs l = max (as_secs l.window) 1

abbrev pub until_reset : Clock → Limit → ℕ
until_reset c l = window_secs l - c.secs % window_secs l

-- `ByIp::throttle_key`: it never fails.
abbrev pub throttle_key : Option Text → Text
throttle_key peer = unwrap_or peer (bytes "unknown")

abbrev pub too_many : Error
too_many = with_code (bytes "RATE_LIMITED") (error too_many_requests (bytes "rate limit exceeded"))

-- A refusal returns at once, and otherwise the loop goes on.
abbrev pub proceed {ℓ} : {S : Type ℓ} → (S → S × Decision) → S × Decision → S × Decision
proceed rest (s, deny after) = (s, deny after)
proceed rest (s, allow) = rest s

module _ (fl : Floats) where
  abbrev pub exceeds : (current previous : ℕ) → Clock → Limit → Bool
  exceeds current previous c l =
      fl.gt
        (fl.add (fl.of_u64 current) (
          fl.mul (fl.of_u64 previous)
            (fl.div (fl.of_u64 (until_reset c l)) (fl.of_u64 (window_secs l)))))
        (fl.of_u64 l.limit)

module _ (fl : Floats) (store : ThrottleStore) where
  -- The two branches of `decide_one`; a store that fails counts as zero.
  unfoldable pub decide_sliding :
      Clock → (scope disc : Text) → Limit → Text → store.State → store.State × Decision
  decide_sliding c scope disc l key s =
      let bucket = c.secs / window_secs l in
      let (s', hit) = store.incr c.at_incr (counter_key scope disc key bucket) (l.window * 2) s in
      let current = unwrap_or hit 0 in
      let before =
        store.count c.at_count (counter_key scope disc key (previous_bucket bucket)) s' in
      let previous = unwrap_or before 0 in
      (s', if exceeds fl current previous c l then deny (until_reset c l) else allow)

  unfoldable pub decide_fixed :
      Clock → (scope disc : Text) → Limit → Text → store.State → store.State × Decision
  decide_fixed c scope disc l key s =
      let bucket = c.secs / window_secs l in
      let (s', hit) = store.incr c.at_incr (counter_key scope disc key bucket) l.window s in
      (s', if ltb l.limit (unwrap_or hit 0) then deny (until_reset c l) else allow)

  unfoldable pub decide_one :
      Bool → Clock → (scope disc : Text) → Limit → Text → store.State → store.State × Decision
  decide_one sliding c scope disc l key s =
      if sliding then decide_sliding c scope disc l key s else decide_fixed c scope disc l key s

  -- The loop of `enforce`, over the limits; `i` counts the readings of the clock.
  unfoldable pub check_all :
      Bool
      → (ℕ → Clock)
      → ℕ
      → Text
      → Text
      → List (Text × Limit)
      → store.State
      → store.State × Decision
  check_all sliding clock i scope key [] s = (s, allow)
  check_all sliding clock i scope key ((disc, l) ∷ limits) s =
      proceed (check_all sliding clock (suc i) scope key limits)
        (decide_one sliding (clock i) scope disc l key s)

  -- `enforce`, where `peer` is the client's address.
  unfoldable pub enforce :
      Throttler
      → (ℕ → Clock)
      → Option Text
      → Text
      → ThrottlePolicy
      → Option Text
      → store.State
      → store.State × Decision
  enforce t clock peer scope policy key s = elim (resolve t policy) [
    | [] ↦ (s, allow)
    | l ∷ ls ↦ check_all t.sliding clock 0 scope (unwrap_or key (throttle_key peer)) (l ∷ ls) s
  ]

  unfoldable pub check :
      Throttler
      → (ℕ → Clock)
      → Option Text
      → Text
      → ThrottlePolicy
      → Option Text
      → store.State
      → store.State × Result (Unit {0})
  check t clock peer path policy key s =
      let r = enforce t clock peer path policy key s in
      (r.0, elim r.1 [ allow ↦ ok tt | deny after ↦ err too_many ])

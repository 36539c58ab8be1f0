-- ===== src/Throttle/Engine/Window.antt =====
-- The fixed window over the in-memory store: which requests of a bucket are let through.
use tork_framework.Base.{
  ℕ, suc, ◌+◌, ◌/◌, ◌<◌, ◌≡◌, refl, false, none, some, List, [], ◌∷◌, Text, arith, ltb,
  if◌then◌else◌, lookup, HasUniqueKeys,
}
use tork_framework.Throttle.Store.{Counters, Entry, incr, memory_store}
use tork_framework.Throttle.Store.Counting.{
  incr_in_window, incr_in_window_count, incr_fresh, incr-HasUniqueKeys,
}
use tork_framework.Throttle.Policy.{Limit}
use tork_framework.Throttle.Engine.{
  Floats, Clock, Decision, allow, deny, counter_key, window_secs, until_reset, decide_fixed,
  decide_one,
}

-- What the limit promises: after `c` requests, the next are let through while fewer than the limit
-- came before them, and all the others are told to wait for the next window.
abbrev pub promised : Limit → ℕ → List Clock → List Decision
promised l c [] = []
promised l c (t ∷ ts) =
    (if ltb c l.limit then allow else deny (until_reset t l)) ∷ promised l (suc c) ts

-- All in the bucket `b`, and before the store's entry ends.
abbrev pub AllWithin : Limit → (b end : ℕ) → List Clock → Type 0
AllWithin l b end [] = Unit
AllWithin l b end (t ∷ ts) = (t.secs / window_secs l ≡ b) × (t.at_incr < end) × AllWithin l b end ts

module _ (fl : Floats) (scope disc key : Text) (l : Limit) where
  -- The decisions on requests that come one after the other.
  unfoldable pub decisions : List Clock → Counters → List Decision
  decisions [] m = []
  decisions (t ∷ ts) m =
      let r = decide_one fl memory_store false t scope disc l key m in r.1 ∷ decisions ts r.0

  decide_in_window :
      (t : Clock) (b : ℕ) (m : Counters) (e : Entry)
      → HasUniqueKeys m
      → lookup (counter_key scope disc key b) m ≡ some e
      → t.secs / window_secs l ≡ b
      → t.at_incr < e.expires_at
      → ((decide_one fl memory_store false t scope disc l key m).1
          ≡ (if ltb e.count l.limit then allow else deny (until_reset t l)))
        × ((decide_one fl memory_store false t scope disc l key m).0
            ≡ (incr t.at_incr (counter_key scope disc key b) l.window m).0)
  unfolding decide_one decide_fixed
  decide_in_window t b m e h found bucket before = ground (
    arith,
    incr_in_window_count t.at_incr (counter_key scope disc key b) l.window m e h found before,
  )

  decisions_in_window :
      (ts : List Clock) (b : ℕ) (m : Counters) (e : Entry)
      → HasUniqueKeys m
      → lookup (counter_key scope disc key b) m ≡ some e
      → AllWithin l b e.expires_at ts
      → decisions ts m ≡ promised l e.count ts
  unfolding decisions
  decisions_in_window [] b m e h found within = refl
  decisions_in_window (t ∷ ts) b m e h found (bucket, before, within) =
      let k = counter_key scope disc key b in
      let (answer, state) = decide_in_window t b m e h found bucket before in
      let next =
        decisions_in_window ts b (incr t.at_incr k l.window m).0 (record e { count = e.count + 1 })
          (incr-HasUniqueKeys t.at_incr k l.window m h)
          (incr_in_window t.at_incr k l.window m e h found before) within in
      rw (answer, state, next) (ground arith)

  -- With the fixed window over the in-memory store, in a bucket in which no request of the key was
  -- counted yet, exactly the first requests up to the limit are let through, and each later one is
  -- told the seconds left of the bucket. The keys of the map are distinct, the window is positive,
  -- and all the requests fall in that bucket and come before the store's entry for the first one
  -- ends.
  pub decisions_fresh :
      (t : Clock) (ts : List Clock) (b : ℕ) (m : Counters)
      → HasUniqueKeys m
      → lookup (counter_key scope disc key b) m ≡ none
      → t.secs / window_secs l ≡ b
      → 0 < l.window
      → AllWithin l b (t.at_incr + l.window) ts
      → decisions (t ∷ ts) m ≡ promised l 0 (t ∷ ts)
  unfolding decisions decide_one decide_fixed
  decisions_fresh t ts b m h absent bucket pos within =
      let k = counter_key scope disc key b in
      let (one, opened) = incr_fresh t.at_incr k l.window m absent pos in
      let next =
        decisions_in_window ts b (incr t.at_incr k l.window m).0
          (record { count = 1; expires_at = t.at_incr + l.window })
          (incr-HasUniqueKeys t.at_incr k l.window m h) opened within in
      rw bucket (ground (arith, one, next))

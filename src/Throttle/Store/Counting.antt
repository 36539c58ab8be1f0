-- ===== src/Throttle/Store/Counting.antt =====
-- What the in-memory store counts: the hits of the live window of a key, and nothing of other keys.
use tork_framework.Base.{
  ℕ, suc, ◌+◌, ◌<◌, ◌≡◌, ◌≢◌, true, Option, none, some, List, [], ◌∷◌, Text, arith, ltb, length,
  if◌then◌else◌, lookup, retain, lookup-insert_self, lookup-insert_ne, lookup-retain,
  lookup-retain-none, HasUniqueKeys, insert-HasUniqueKeys, retain-HasUniqueKeys, AllValues,
  retain-AllValues, insert-AllValues, text_eq, text_eq_iff, Bool-cases, inl, inr,
}
use tork_framework.Throttle.Store.{
  Counters, Entry, sweep_threshold, sweep, hit, is_live, incr, count, live_count,
}

sweep-HasUniqueKeys : (now : ℕ) (m : Counters) → HasUniqueKeys m → HasUniqueKeys (sweep now m)
unfolding sweep
sweep-HasUniqueKeys now m h = ground (arith, retain-HasUniqueKeys (is_live now) m h)

-- A sweep keeps what is live.
lookup-sweep :
    (now : ℕ) (key : Text) (m : Counters)
    → HasUniqueKeys m
    → live_count now (lookup key (sweep now m)) ≡ live_count now (lookup key m)
unfolding sweep
lookup-sweep now key m h = ground (arith, lookup-retain key (is_live now) m h)

lookup-sweep_live :
    (now : ℕ) (key : Text) (m : Counters) (e : Entry)
    → HasUniqueKeys m
    → lookup key m ≡ some e
    → now < e.expires_at
    → lookup key (sweep now m) ≡ some e
unfolding sweep
lookup-sweep_live now key m e h found live = ground (arith, lookup-retain key (is_live now) m h)

-- Every hit keeps the keys distinct.
pub incr-HasUniqueKeys :
    (now : ℕ) (key : Text) (ttl : ℕ) (m : Counters)
    → HasUniqueKeys m
    → HasUniqueKeys (incr now key ttl m).0
unfolding incr
incr-HasUniqueKeys now key ttl m h =
    insert-HasUniqueKeys key _ (sweep now m) (sweep-HasUniqueKeys now m h)

live_count-hit :
    (now ttl : ℕ) (o : Option Entry) → 0 < ttl → (hit now ttl o).count ≡ live_count now o + 1
live_count-hit now ttl o pos = ground arith

-- A hit with a positive duration, on a map with distinct keys, returns one more than the live count
-- of its key, and the store then reads that number; the live counts of the other keys stay, also
-- where the hit swept the expired entries.
pub incr_counts :
    (now : ℕ) (key : Text) (ttl : ℕ) (m : Counters)
    → HasUniqueKeys m
    → 0 < ttl
    → ((incr now key ttl m).1 ≡ some (live_count now (lookup key m) + 1))
      × (count now key (incr now key ttl m).0 ≡ some (live_count now (lookup key m) + 1))
      × ((j : Text) → key ≢ j → count now j (incr now key ttl m).0 ≡ count now j m)
unfolding incr count
incr_counts now key ttl m h pos = (
  ground (arith, lookup-sweep now key m h, live_count-hit now ttl (lookup key (sweep now m)) pos),
  ground (
    arith,
    lookup-sweep now key m h,
    lookup-insert_self key (hit now ttl (lookup key (sweep now m))) (sweep now m),
  ),
  λ j d. ground (
    arith,
    lookup-sweep now j m h,
    lookup-insert_ne key j (hit now ttl (lookup key (sweep now m))) (sweep now m) d,
  ),
)

-- A window does not slide: a hit inside it keeps its end.
pub incr_in_window :
    (now : ℕ) (key : Text) (ttl : ℕ) (m : Counters) (e : Entry)
    → HasUniqueKeys m
    → lookup key m ≡ some e
    → now < e.expires_at
    → lookup key (incr now key ttl m).0 ≡ some (record e { count = e.count + 1 })
unfolding incr
incr_in_window now key ttl m e h found live = ground (
  arith,
  lookup-sweep_live now key m e h found live,
  lookup-insert_self key (hit now ttl (lookup key (sweep now m))) (sweep now m),
)

pub incr_in_window_count :
    (now : ℕ) (key : Text) (ttl : ℕ) (m : Counters) (e : Entry)
    → HasUniqueKeys m
    → lookup key m ≡ some e
    → now < e.expires_at
    → (incr now key ttl m).1 ≡ some (e.count + 1)
unfolding incr
incr_in_window_count now key ttl m e h found live =
    ground (arith, lookup-sweep_live now key m e h found live)

lookup-sweep-none :
    (now : ℕ) (key : Text) (m : Counters) → lookup key m ≡ none → lookup key (sweep now m) ≡ none
unfolding sweep
lookup-sweep-none now key m absent = ground (arith, lookup-retain-none key (is_live now) m absent)

-- The first hit of a key opens a window of the given length.
pub incr_fresh :
    (now : ℕ) (key : Text) (ttl : ℕ) (m : Counters)
    → lookup key m ≡ none
    → 0 < ttl
    → ((incr now key ttl m).1 ≡ some 1)
      × (lookup key (incr now key ttl m).0 ≡ some (record { count = 1; expires_at = now + ttl }))
unfolding incr
incr_fresh now key ttl m absent pos = (
  ground (arith, lookup-sweep-none now key m absent),
  ground (
    arith,
    lookup-sweep-none now key m absent,
    lookup-insert_self key (hit now ttl (lookup key (sweep now m))) (sweep now m),
  ),
)

-- A hit on another key leaves a live entry alone.
pub incr_other :
    (now : ℕ) (key j : Text) (ttl : ℕ) (m : Counters) (e : Entry)
    → HasUniqueKeys m
    → key ≢ j
    → lookup j m ≡ some e
    → now < e.expires_at
    → lookup j (incr now key ttl m).0 ≡ some e
unfolding incr
incr_other now key j ttl m e h d found live = ground (
  arith,
  lookup-sweep_live now j m e h found live,
  lookup-insert_ne key j (hit now ttl (lookup key (sweep now m))) (sweep now m) d,
)

hit-is_live : (now ttl : ℕ) (o : Option Entry) → 0 < ttl → is_live now (hit now ttl o) ≡ true
hit-is_live now ttl o pos = ground arith

-- Past the threshold a hit leaves no expired entry in the map.
pub incr_sweeps :
    (now : ℕ) (key : Text) (ttl : ℕ) (m : Counters)
    → sweep_threshold < length m
    → 0 < ttl
    → AllValues (λ e. is_live now e ≡ true) (incr now key ttl m).0
unfolding incr sweep
incr_sweeps now key ttl m big pos =
    let over : ltb sweep_threshold (length m) ≡ true = ground arith in
    rw over (
      insert-AllValues (λ e. is_live now e ≡ true) key _ (retain (is_live now) m)
        (hit-is_live now ttl (lookup key (retain (is_live now) m)) pos)
        (retain-AllValues (is_live now) m))

-- A history of hits: the moment, the key and the duration of each.
pub run : List (ℕ × Text × ℕ) → Counters → Counters
run [] m = m
run ((now, key, ttl) ∷ hits) m = run hits (incr now key ttl m).0

abbrev pub hits_of : Text → List (ℕ × Text × ℕ) → ℕ
hits_of k [] = 0
hits_of k ((now, key, ttl) ∷ hits) = if text_eq key k then suc (hits_of k hits) else hits_of k hits

abbrev pub AllBefore : ℕ → List (ℕ × Text × ℕ) → Type 0
AllBefore end [] = Unit
AllBefore end ((now, key, ttl) ∷ hits) = (now < end) × AllBefore end hits

-- Whatever other keys are hit in between, an entry counts exactly the hits of its own key, as long
-- as all of the history lies before its end and the keys of the map are distinct.
pub run_counts :
    (hits : List (ℕ × Text × ℕ)) (k : Text) (m : Counters) (e : Entry)
    → HasUniqueKeys m
    → lookup k m ≡ some e
    → AllBefore e.expires_at hits
    → lookup k (run hits m) ≡ some (record e { count = e.count + hits_of k hits })
unfolding run
run_counts [] k m e h found before = ground arith
run_counts ((now, key, ttl) ∷ hits) k m e h found before = elim (Bool-cases (text_eq key k)) [
  | inl same ↦
      let key_is : key ≡ k = (text_eq_iff key k).0 same in
      let found' : lookup key m ≡ some e = ground arith in
      let next : lookup k (incr now key ttl m).0 ≡ some (record e { count = e.count + 1 }) =
        ground (arith, incr_in_window now key ttl m e h found' before.0) in
      ground (
        arith,
        run_counts hits k (incr now key ttl m).0 (record e { count = e.count + 1 })
            (incr-HasUniqueKeys now key ttl m h) next before.1,
      )
  | inr other ↦
      let apart : key ≢ k = λ q. ground (arith, text_eq_iff key k) in
      rw other (
        run_counts hits k (incr now key ttl m).0 e (incr-HasUniqueKeys now key ttl m h)
          (incr_other now key k ttl m e h apart found before.0) before.1)
]

-- ===== src/Throttle/Engine/Limits.antt =====
-- How the limits of a route combine, and what a refusal tells the client.
use tork_framework.Base.{
  ℕ, suc, ◌+◌, ◌*◌, ◌/◌, ◌≤◌, ◌<◌, ◌≡◌, refl, Bool, true, false, Option, List, [], ◌∷◌, ◌++◌, Text,
  arith, ap, length, unwrap_or,
}
use native.Mathlib.Nat.{div-add-mod}
use tork_framework.Throttle.Store.{ThrottleStore}
use tork_framework.Throttle.Policy.{Limit, ThrottlePolicy, Throttler, resolve}
use tork_framework.Throttle.Engine.{
  Floats, Clock, Decision, allow, deny, window_secs, until_reset, decide_one, decide_fixed,
  decide_sliding, check_all, enforce, throttle_key,
}

-- The wait that a refusal names ends at the first second of the next window: it is not zero, and
-- not longer than the window.
until_reset_lem :
    (c : Clock) (l : Limit)
    → (0 < until_reset c l)
      × (until_reset c l ≤ window_secs l)
      × (c.secs + until_reset c l ≡ (c.secs / window_secs l + 1) * window_secs l)
until_reset_lem c l = grind (arith, div-add-mod c.secs (window_secs l))

module _ (fl : Floats) (store : ThrottleStore) where
  -- Whatever the store answers, a refusal by one limit names exactly the seconds until that limit's
  -- next window begins, which are at least one and at most the window.
  pub decide_one_retry :
      (sliding : Bool) (c : Clock) (scope disc : Text) (l : Limit) (key : Text) (s : store.State)
      (after : ℕ)
      → (decide_one fl store sliding c scope disc l key s).1 ≡ deny after
      → (0 < after)
        × (after ≤ window_secs l)
        × (c.secs + after ≡ (c.secs / window_secs l + 1) * window_secs l)
  unfolding decide_one decide_sliding decide_fixed
  decide_one_retry true c scope disc l key s after e = ground (arith, until_reset_lem c l)
  decide_one_retry false c scope disc l key s after e = ground (arith, until_reset_lem c l)

  -- A request is refused by the first limit that refuses it: the limits before it let the request
  -- through and have counted it, and the limits behind it are not consulted.
  pub record RefusedBy (sliding : Bool) (clock : ℕ → Clock) (i : ℕ) (scope key : Text)
      (limits : List (Text × Limit)) (s s' : store.State) (after : ℕ) : Type 0 where
    pub before : List (Text × Limit)
    pub disc : Text
    pub limit : Limit
    pub later : List (Text × Limit)
    pub reached : store.State
    pub split : limits ≡ before ++ (disc, limit) ∷ later
    pub passed : check_all fl store sliding clock i scope key before s ≡ (reached, allow)
    pub refused :
        decide_one fl store sliding (clock (i + length before)) scope disc limit key reached
        ≡ (s', deny after)

  RefusedBy-cons :
      (sliding : Bool) (clock : ℕ → Clock) (i : ℕ) (scope key disc : Text) (l : Limit)
      (limits : List (Text × Limit)) (s s1 s' : store.State) (after : ℕ)
      → decide_one fl store sliding (clock i) scope disc l key s ≡ (s1, allow)
      → RefusedBy sliding clock (suc i) scope key limits s1 s' after
      → RefusedBy sliding clock i scope key ((disc, l) ∷ limits) s s' after
  unfolding check_all
  RefusedBy-cons sliding clock i scope key disc l limits s s1 s' after e r = record {
    before = (disc, l) ∷ r.before;
    disc = r.disc;
    limit = r.limit;
    later = r.later;
    reached = r.reached;
    split = ap (λ t. (disc, l) ∷ t) r.split;
    passed = rw (e, check_all) r.passed;
    refused =
        let n : i + suc (length r.before) ≡ suc i + length r.before = omega arith in rw n r.refused;
  }

  check_all-RefusedBy :
      (sliding : Bool) (clock : ℕ → Clock) (i : ℕ) (scope key : Text) (limits : List (Text × Limit))
      (s s' : store.State) (after : ℕ)
      → check_all fl store sliding clock i scope key limits s ≡ (s', deny after)
      → RefusedBy sliding clock i scope key limits s s' after
  unfolding check_all
  check_all-RefusedBy sliding clock i scope key [] s s' after e = cc
  check_all-RefusedBy sliding clock i scope key ((disc, l) ∷ limits) s s' after e =
      go (λ s1. check_all-RefusedBy sliding clock (suc i) scope key limits s1 s' after)
        (decide_one fl store sliding (clock i) scope disc l key s) refl
    where
      go :
          ((s1 : store.State)
            → check_all fl store sliding clock (suc i) scope key limits s1 ≡ (s', deny after)
            → RefusedBy sliding clock (suc i) scope key limits s1 s' after)
          → (r : store.State × Decision)
          → decide_one fl store sliding (clock i) scope disc l key s ≡ r
          → RefusedBy sliding clock i scope key ((disc, l) ∷ limits) s s' after
      go ih (s1, allow) q =
          RefusedBy-cons sliding clock i scope key disc l limits s s1 s' after q
            (ih s1 (rw (q, check_all) at e))
      go ih (s1, deny t) q = record {
        before = [];
        disc = disc;
        limit = l;
        later = limits;
        reached = s;
        split = refl;
        passed = refl;
        refused = let n : i + 0 ≡ i = omega arith in rw (n, q) (rw (q, check_all) at e);
      }

  -- If `enforce` refuses a request with a wait, then the request was refused by the first limit of
  -- its resolved policy that refuses it, at the given key or else at the client's address: the
  -- limits before it let the request through, and those behind it are not consulted.
  pub enforce-RefusedBy :
      (t : Throttler) (clock : ℕ → Clock) (peer : Option Text) (scope : Text)
      (policy : ThrottlePolicy) (key : Option Text) (s s' : store.State) (after : ℕ)
      → enforce fl store t clock peer scope policy key s ≡ (s', deny after)
      → RefusedBy t.sliding clock 0 scope
          (unwrap_or key (throttle_key peer))
          (resolve t policy)
          s
          s'
          after
  unfolding enforce
  enforce-RefusedBy t clock peer scope policy key s s' after = go (resolve t policy)
    where
      tracker : Text
      tracker = unwrap_or key (throttle_key peer)

      go :
          (limits : List (Text × Limit))
          → elim limits as (λ x. store.State × Decision) [
            | [] ↦ (s, allow)
            | l ∷ ls ↦ check_all fl store t.sliding clock 0 scope tracker (l ∷ ls) s
          ]
            ≡ (s', deny after)
          → RefusedBy t.sliding clock 0 scope tracker limits s s' after
      go [] e = cc
      go (l ∷ ls) e = check_all-RefusedBy t.sliding clock 0 scope tracker (l ∷ ls) s s' after e

-- ===== src/Throttle/Policy/Resolution.antt =====
-- The limits that policies resolve to.
use tork_framework.Base.{
  ℕ, ◌≤◌, Option, none, some, List, [], ◌∷◌, Text, arith, lookup, All, All-append, AllValues,
  insert-AllValues, lookup-AllValues, Option-cases, inl, inr, and_then,
}
use tork_framework.Throttle.Policy.{
  ThrottlePolicy, inherit, skip, named, inline, multiple, Limit, Policies, from_secs, Throttle,
  policy, new, named_limit, to_list, filter_map, resolve,
}

-- A window of a second at least.
abbrev pub IsLong : Limit → Type 0
IsLong l = from_secs 1 ≤ l.window

-- Every policy that the builder defines has such a window, also one of zero seconds.
pub policy-IsLong :
    (name : Text) (limit window_secs : ℕ) (t : Throttle)
    → AllValues IsLong t.policies
    → AllValues IsLong (policy name limit window_secs t).policies
unfolding policy
policy-IsLong name limit window_secs t h = insert-AllValues IsLong name _ t.policies (omega arith) h

named_limit-IsLong :
    (ps : Policies) (name : Text)
    → AllValues IsLong ps
    → All (λ l. IsLong l.1) (to_list (named_limit ps name))
named_limit-IsLong ps name h = elim (Option-cases (lookup name ps)) [
  | inl missing ↦ rw missing tt
  | inr (l, found) ↦ rw found (lookup-AllValues IsLong name ps h found, tt)
]

filter_map-IsLong :
    (ps : Policies) (names : List Text)
    → AllValues IsLong ps
    → All (λ l. IsLong l.1) (filter_map (named_limit ps) names)
filter_map-IsLong ps [] h = tt
filter_map-IsLong ps (n ∷ ns) h =
    All-append (λ l. IsLong l.1) (to_list (named_limit ps n)) _ (named_limit-IsLong ps n h)
      (filter_map-IsLong ps ns h)

default-IsLong :
    (ps : Policies) (name : Option Text)
    → AllValues IsLong ps
    → All (λ l. IsLong l.1) (to_list (and_then name (named_limit ps)))
default-IsLong ps none h = tt
default-IsLong ps (some name) h = named_limit-IsLong ps name h

-- Whatever its policy, a route is only ever held to windows of a second at least, if the configured
-- limits have such windows.
pub resolve-IsLong :
    (c : Throttle) (p : ThrottlePolicy)
    → AllValues IsLong c.policies
    → All (λ l. IsLong l.1) (resolve (new c) p)
unfolding resolve new
resolve-IsLong c skip h = tt
resolve-IsLong c inherit h = default-IsLong c.policies c.default_name h
resolve-IsLong c (inline limit window_secs) h = (omega arith, tt)
resolve-IsLong c (named name) h = named_limit-IsLong c.policies name h
resolve-IsLong c (multiple names) h = filter_map-IsLong c.policies names h

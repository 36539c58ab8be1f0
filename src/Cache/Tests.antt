-- ===== src/Cache/Tests.antt =====
-- Tests of the cache over a map with deadlines, and its theorem at a concrete input. A value is its
-- bytes.
use tork_framework.Base.{
  ℕ, ◌+◌, ◌≡◌, refl, sym, ap, Bool, true, Option, none, some, List, [], ◌∷◌, Text, bytes, lookup,
  insert, lookup-insert_self, and_then, if◌then◌else◌, ltb, ltb→lt, ◌≤◌, Bool-cases, inl, inr,
  arith, text_eq,
}
use tork_framework.Error.{ok}
use tork_framework.Cache.{
  CacheStore, Json, value, Cache, new_cache, with_default_ttl, get, get_or_set, IsRead, Expires,
}
use tork_framework.Cache.Keeping.{IsLaterCall, get_or_set_again}

abbrev is_alive : ℕ → Option ℕ → Bool
is_alive now none = true
is_alive now (some deadline) = ltb now deadline

abbrev deadline_of : ℕ → Option ℕ → Option ℕ
deadline_of now none = none
deadline_of now (some ttl) = some (now + ttl)

abbrev alive : ℕ → Text × Option ℕ → Option Text
alive now e = if is_alive now e.1 then some e.0 else none

without : Text → List (Text × (Text × Option ℕ)) → List (Text × (Text × Option ℕ))
without key [] = []
without key (e ∷ s) = let rest = without key s in if text_eq e.0 key then rest else e ∷ rest

abbrev deadlines : CacheStore
deadlines = record {
  State = List (Text × (Text × Option ℕ));
  get = λ now key s. (s, ok (and_then (lookup key s) (alive now)));
  set = λ now key b ttl s. (insert key (b, deadline_of now ttl) s, ok tt);
  delete = λ key s. (without key s, ok tt);
  clear = λ s. ([], ok tt);
}

alive-IsRead :
    (now later : ℕ) (b : Text) (ttl : Option ℕ)
    → now ≤ later
    → IsRead b now ttl later (ok (alive later (b, deadline_of now ttl)))
alive-IsRead now later b none after = (refl, after)
alive-IsRead now later b (some ttl) after = elim (Bool-cases (ltb later (now + ttl))) [
  | inl fresh ↦ rw fresh (refl, (after, ltb→lt later (now + ttl) fresh))
  | inr stale ↦ rw stale tt
]

deadlines-Expires : Expires deadlines
deadlines-Expires now later key b ttl s s' e after =
    let same : insert key (b, deadline_of now ttl) s ≡ s' = ap (λ r. r.0) e in
    rw (sym same, lookup-insert_self key (b, deadline_of now ttl) s)
      (alive-IsRead now later b ttl after)

abbrev raw : Json Text
raw = record { to_vec = value; from_slice = value }

abbrev cache : Cache deadlines
cache = with_default_ttl deadlines 60 (new_cache deadlines)

abbrev key : Text
key = bytes "user:1"

abbrev kept : List (Text × (Text × Option ℕ))
kept = (key, (bytes "Ada", some 160)) ∷ []

get_or_set_again_example :
    (get_or_set deadlines raw cache 100 key none (λ n. (n + 1, ok (bytes "Ada"))) ([], 0)
      ≡ ((kept, 1), ok (bytes "Ada")))
    × IsLaterCall deadlines raw cache 100 130
        (some 60)
        (bytes "Ada")
        (deadlines.get 130 key kept)
        (λ n. (n + 1, ok (bytes "Eve")))
        1
        (get_or_set deadlines raw cache 130 key none (λ n. (n + 1, ok (bytes "Eve"))) (kept, 1))
unfolding get lookup insert
get_or_set_again_example =
    get_or_set_again deadlines raw cache 100 130 key (bytes "Ada") none none
      (λ n. (n + 1, ok (bytes "Ada"))) (λ n. (n + 1, ok (bytes "Eve"))) [] kept 0 1 (bytes "Ada")
      deadlines-Expires refl refl refl refl refl (omega arith)

-- ===== src/Cache.antt =====
-- crates/tork-core/src/cache/handle.rs and store.rs: the cache over a store. The store is an
-- interface over a state of its own, and serde_json is the parameter `Json`. A moment and a time to
-- live are nanoseconds.
pub mod Keeping
mod Tests
use tork_framework.Base.{
  ℕ, ◌+◌, ◌<◌, ◌≤◌, ◌≡◌, ◌++◌, Bool, true, false, Option, none, some, Text, bytes, ◌==◌,
  if◌then◌else◌,
}
use tork_framework.Error.{Result, ok, err, Error, internal_error}

pub record CacheStore : Type 1 where
  pub State : Type 0
  pub get : (now : ℕ) → Text → State → State × Result (Option Text)
  pub set : (now : ℕ) → Text → Text → (ttl : Option ℕ) → State → State × Result (Unit {0})
  pub delete : Text → State → State × Result (Unit {0})
  pub clear : State → State × Result (Unit {0})

-- What serde_json makes of a value, and a value of what it reads, or the message of its error.
pub data Read (T : Type 0) : Type 0 where
  value : T → Read T
  unreadable : Text → Read T

pub record Json (T : Type 0) : Type 0 where
  pub to_vec : T → Read Text
  pub from_slice : Text → Read T

abbrev pub normalize_ttl : Option ℕ → Option ℕ
normalize_ttl none = none
normalize_ttl (some ttl) = if ttl == 0 then none else some ttl

abbrev pub not_deserialized : Text → Error
not_deserialized message =
    internal_error (bytes "cache value could not be deserialized: " ++ message)

abbrev pub not_serialized : Text → Error
not_serialized message = internal_error (bytes "cache value could not be serialized: " ++ message)

module _ (store : CacheStore) where
  -- The handle: a store and the time to live of `set`.
  pub record Cache : Type 0 where
    pub default_ttl : Option ℕ

  abbrev pub new_cache : Cache
  new_cache = record { default_ttl = none }

  abbrev pub with_default_ttl : ℕ → Cache → Cache
  with_default_ttl ttl c = record c { default_ttl = normalize_ttl (some ttl) }

  module _ {T : Type 0} (json : Json T) where
    abbrev pub read_bytes : Read T → Result (Option T)
    read_bytes (value v) = ok (some v)
    read_bytes (unreadable message) = err (not_deserialized message)

    abbrev pub found : store.State × Result (Option Text) → store.State × Result (Option T)
    found (s, err e) = (s, err e)
    found (s, ok none) = (s, ok none)
    found (s, ok (some b)) = (s, read_bytes (json.from_slice b))

    unfoldable pub get : (now : ℕ) → Text → store.State → store.State × Result (Option T)
    get now key s = found (store.get now key s)

    abbrev pub written :
        ℕ → Text → Option ℕ → store.State → Read Text → store.State × Result (Unit {0})
    written now key ttl s (unreadable message) = (s, err (not_serialized message))
    written now key ttl s (value b) = store.set now key b ttl s

    unfoldable pub write : ℕ → Text → T → Option ℕ → store.State → store.State × Result (Unit {0})
    write now key v ttl s = written now key ttl s (json.to_vec v)

    abbrev pub set : Cache → ℕ → Text → T → store.State → store.State × Result (Unit {0})
    set c now key v s = write now key v c.default_ttl s

    abbrev pub set_ttl : ℕ → Text → T → ℕ → store.State → store.State × Result (Unit {0})
    set_ttl now key v ttl s = write now key v (normalize_ttl (some ttl)) s

    abbrev pub ttl_of : Cache → Option ℕ → Option ℕ
    ttl_of c none = c.default_ttl
    ttl_of c (some ttl) = normalize_ttl (some ttl)

    -- `init` runs over a state of the caller.
    module _ {U : Type 0} where
      abbrev pub stored : U → T → store.State × Result (Unit {0}) → (store.State × U) × Result T
      stored u v (s, err e) = ((s, u), err e)
      stored u v (s, ok done) = ((s, u), ok v)

      abbrev pub computed :
          ℕ → Text → Option ℕ → store.State → U × Result T → (store.State × U) × Result T
      computed now key ttl s (u, err e) = ((s, u), err e)
      computed now key ttl s (u, ok v) = stored u v (write now key v ttl s)

      abbrev pub or_computed :
          Cache
          → ℕ
          → Text
          → Option ℕ
          → (U → U × Result T)
          → U
          → store.State × Result (Option T)
          → (store.State × U) × Result T
      or_computed c now key ttl init u (s, err e) = ((s, u), err e)
      or_computed c now key ttl init u (s, ok (some v)) = ((s, u), ok v)
      or_computed c now key ttl init u (s, ok none) = computed now key (ttl_of c ttl) s (init u)

      unfoldable pub get_or_set :
          Cache
          → ℕ
          → Text
          → Option ℕ
          → (U → U × Result T)
          → store.State × U
          → (store.State × U) × Result T
      get_or_set c now key ttl init (s, u) = or_computed c now key ttl init u (get now key s)

-- The moments up to which an entry is kept.
abbrev pub IsFresh : ℕ → Option ℕ → ℕ → Type 0
IsFresh now none later = now ≤ later
IsFresh now (some ttl) later = (now ≤ later) × (later < now + ttl)

-- What may be read where `b` was set: the store may fail, and it may have evicted the entry at any
-- moment; but what it has is what was set, and has not expired.
abbrev pub IsRead : Text → ℕ → Option ℕ → ℕ → Result (Option Text) → Type 0
IsRead b now ttl later (err e) = Unit
IsRead b now ttl later (ok none) = Unit
IsRead b now ttl later (ok (some x)) = (x ≡ b) × IsFresh now ttl later

abbrev pub Expires : CacheStore → Type 0
Expires store =
    (now later : ℕ) (key b : Text) (ttl : Option ℕ) (s s' : store.State)
    → store.set now key b ttl s ≡ (s', ok tt)
    → now ≤ later
    → IsRead b now ttl later (store.get later key s').1

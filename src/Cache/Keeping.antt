-- ===== src/Cache/Keeping.antt =====
-- Values that are computed once, and read back while they live.
use tork_framework.Base.{
  ℕ, zero, suc, ◌≡◌, ◌≤◌, ◌⊎◌, inl, inr, arith, refl, ap, ◌∙◌, Option, none, some, Text,
}
use tork_framework.Error.{Error, Result, ok, err}
use tork_framework.Cache.{
  CacheStore, Json, value, Cache, found, get, written, write, ttl_of, stored, computed, or_computed,
  get_or_set, IsFresh, IsRead, Expires,
}

-- How long an entry lives: as its call says, where zero is forever, or else as the cache does.
abbrev pub life : {store : CacheStore} → Cache store → Option ℕ → Option ℕ
life c none = c.default_ttl
life c (some zero) = none
life c (some (suc t)) = some (suc t)

module _ (store : CacheStore) {T : Type 0} (json : Json T) where
  ttl_of-life : (c : Cache store) (ttl : Option ℕ) → ttl_of store json c ttl ≡ life c ttl
  ttl_of-life c none = refl
  ttl_of-life c (some zero) = refl
  ttl_of-life c (some (suc t)) = ground arith

  module _ {U : Type 0} (c : Cache store) where
    miss :
        (now : ℕ) (key b : Text) (ttl : Option ℕ) (init : U → U × Result T) (s s' : store.State)
        (u u' : U) (v : T)
        → (get store json now key s).1 ≡ ok none
        → init u ≡ (u', ok v)
        → json.to_vec v ≡ value b
        → store.set now key b (ttl_of store json c ttl) (get store json now key s).0 ≡ (s', ok tt)
        → get_or_set store json c now key ttl init (s, u) ≡ ((s', u'), ok v)
    unfolding get_or_set write
    miss now key b ttl init s s' u u' v e i j w =
        ap (λ r. or_computed store json c now key ttl init u ((get store json now key s).0, r)) e
        ∙ ap (computed store json now key (ttl_of store json c ttl) (get store json now key s).0) i
        ∙ ap
            (λ r.
              stored store json u' v (
                written store json now key (ttl_of store json c ttl) (get store json now key s).0
                  r))
            j
        ∙ ap (stored store json u' v) w

    computed-user :
        (now : ℕ) (key : Text) (ttl : Option ℕ) (s : store.State) (out : U × Result T)
        → (computed store json now key ttl s out).0.1 ≡ out.0
    computed-user now key ttl s (u, err e) = refl
    computed-user now key ttl s (u, ok v) = go (write store json now key v ttl s)
      where
        go : (r : store.State × Result (Unit {0})) → (stored store json u v r).0.1 ≡ u
        go (s', err e) = refl
        go (s', ok done) = refl

    -- How a later call may go: out of the cache, without its own `init`, while the entry lives;
    -- with an error of the store, without it too; or with its own `init`, where the store has no
    -- entry any more.
    abbrev pub IsLaterCall :
        (now later : ℕ)
        → Option ℕ
        → T
        → store.State × Result (Option Text)
        → (U → U × Result T)
        → U
        → (store.State × U) × Result T
        → Type 0
    IsLaterCall now later ttl v read init u out =
        (IsFresh now ttl later × (out ≡ ((read.0, u), ok v)))
        ⊎ ((e : Error) × (read.1 ≡ err e) × (out ≡ ((read.0, u), err e)))
        ⊎ ((read.1 ≡ ok none) × (out.0.1 ≡ (init u).0))

    or_computed-IsLaterCall :
        (now later : ℕ) (key b : Text) (ttl ttl' : Option ℕ) (v : T) (init : U → U × Result T)
        (u : U) (read : store.State × Result (Option Text))
        → json.from_slice b ≡ value v
        → IsRead b now ttl later read.1
        → IsLaterCall now later ttl v read init u
            (or_computed store json c later key ttl' init u (found store json read))
    or_computed-IsLaterCall now later key b ttl ttl' v init u (s, err e) reads h =
        inr (inl (e, refl, refl))
    or_computed-IsLaterCall now later key b ttl ttl' v init u (s, ok none) reads h =
        inr (inr (refl, computed-user later key (ttl_of store json c ttl') s (init u)))
    or_computed-IsLaterCall now later key b ttl ttl' v init u (s, ok (some x)) reads h =
        inl (h.1, rw (h.0, reads) refl)

    -- If a key is missing and `init` gives a value that the store takes for the life of the call,
    -- then `get_or_set` answers that value, and a later call answers the same value without its own
    -- `init`, which it may do only as long as that life lasts, or fails with the store, or runs its
    -- own `init` because the store has no entry any more. The store keeps to lives, but may fail or
    -- evict at any moment, and the format reads its own values back.
    pub get_or_set_again :
        (now later : ℕ) (key b : Text) (ttl ttl' : Option ℕ) (init init' : U → U × Result T)
        (s s' : store.State) (u u' : U) (v : T)
        → Expires store
        → json.to_vec v ≡ value b
        → json.from_slice b ≡ value v
        → (get store json now key s).1 ≡ ok none
        → init u ≡ (u', ok v)
        → store.set now key b (life c ttl) (get store json now key s).0 ≡ (s', ok tt)
        → now ≤ later
        → (get_or_set store json c now key ttl init (s, u) ≡ ((s', u'), ok v))
          × IsLaterCall now later
              (life c ttl)
              v
              (store.get later key s')
              init'
              u'
              (get_or_set store json c later key ttl' init' (s', u'))
    unfolding get_or_set get
    get_or_set_again now later key b ttl ttl' init init' s s' u u' v expires j k e i w f = (
      miss now key b ttl init s s' u u' v e i j (rw (ttl_of-life c ttl) w),
      or_computed-IsLaterCall now later key b (life c ttl) ttl' v init' u' (store.get later key s')
          k (expires now later key b (life c ttl) (get store json now key s).0 s' w f),
    )

-- ===== src/Base/Maps.antt =====
-- `HashMap<String, V>` as an association list with at most one entry for a key.
use mathlib.Core.Path.{◌≡◌, refl}
use mathlib.Core.Logic.{◌≢◌, inl, inr}
use mathlib.Core.Bool.{Bool, true}
use mathlib.Core.Option.{Option, none, some}
use mathlib.Core.List.{List, [], ◌∷◌}
use native.Mathlib.Omega.{arith}
use tork_framework.Base.Tests.{if◌then◌else◌, unwrap_or, Bool-cases}
use tork_framework.Base.Strings.{Text, text_eq, text_eq_iff, text_eq_refl}

module _ {ℓ} {V : Type ℓ} where
  unfoldable pub lookup : Text → List (Text × V) → Option V
  lookup k [] = none
  lookup k ((j, v) ∷ m) = if text_eq j k then some v else lookup k m

  unfoldable pub insert : Text → V → List (Text × V) → List (Text × V)
  insert k v [] = (k, v) ∷ []
  insert k v ((j, w) ∷ m) = if text_eq j k then (k, v) ∷ m else (j, w) ∷ insert k v m

  unfoldable pub retain : (V → Bool) → List (Text × V) → List (Text × V)
  retain p [] = []
  retain p ((j, v) ∷ m) = if p v then (j, v) ∷ retain p m else retain p m

  -- `or_insert` and the entry it returns: what stands at the key, or the default.
  abbrev pub get_or : Text → V → List (Text × V) → V
  get_or k d m = unwrap_or (lookup k m) d

  abbrev pub when : (V → Bool) → Option V → Option V
  when p none = none
  when p (some v) = if p v then some v else none

  -- A key stands for at most one entry.
  abbrev pub HasUniqueKeys : List (Text × V) → Type ℓ
  HasUniqueKeys [] = Unit
  HasUniqueKeys ((k, v) ∷ m) = (lookup k m ≡ none) × HasUniqueKeys m

  abbrev pub AllValues : (V → Type 0) → List (Text × V) → Type 0
  AllValues P [] = Unit
  AllValues P ((k, v) ∷ m) = P v × AllValues P m

  pub lookup-insert :
      (k j : Text) (v : V) (m : List (Text × V))
      → lookup j (insert k v m) ≡ (if text_eq k j then some v else lookup j m)
  unfolding lookup insert
  lookup-insert k j v [] = refl
  lookup-insert k j v ((i, w) ∷ m) =
      ground (arith, text_eq_iff k j, text_eq_iff i k, text_eq_iff i j, lookup-insert k j v m)

  pub lookup-insert_self :
      (k : Text) (v : V) (m : List (Text × V)) → lookup k (insert k v m) ≡ some v
  lookup-insert_self k v m = rw (lookup-insert k k v m, text_eq_refl k)

  pub lookup-insert_ne :
      (k j : Text) (v : V) (m : List (Text × V)) → k ≢ j → lookup j (insert k v m) ≡ lookup j m
  lookup-insert_ne k j v m d = ground (arith, lookup-insert k j v m, text_eq_iff k j)

  pub insert-HasUniqueKeys :
      (k : Text) (v : V) (m : List (Text × V)) → HasUniqueKeys m → HasUniqueKeys (insert k v m)
  unfolding lookup insert
  insert-HasUniqueKeys k v [] h = (refl, tt)
  insert-HasUniqueKeys k v ((j, w) ∷ m) h = ground (
    arith,
    text_eq_iff j k,
    lookup-insert k j v m,
    text_eq_iff k j,
    insert-HasUniqueKeys k v m h.1,
  )

  pub lookup-retain-none :
      (k : Text) (p : V → Bool) (m : List (Text × V))
      → lookup k m ≡ none
      → lookup k (retain p m) ≡ none
  unfolding lookup retain
  lookup-retain-none k p [] h = refl
  lookup-retain-none k p ((j, w) ∷ m) h = ground (arith, lookup-retain-none k p m)

  pub retain-HasUniqueKeys :
      (p : V → Bool) (m : List (Text × V)) → HasUniqueKeys m → HasUniqueKeys (retain p m)
  unfolding retain
  retain-HasUniqueKeys p [] h = tt
  retain-HasUniqueKeys p ((j, w) ∷ m) h =
      ground (arith, lookup-retain-none j p m h.0, retain-HasUniqueKeys p m h.1)

  pub lookup-retain :
      (k : Text) (p : V → Bool) (m : List (Text × V))
      → HasUniqueKeys m
      → lookup k (retain p m) ≡ when p (lookup k m)
  unfolding lookup retain
  lookup-retain k p [] h = refl
  lookup-retain k p ((j, w) ∷ m) h =
      ground (arith, text_eq_iff j k, lookup-retain k p m h.1, lookup-retain-none j p m h.0)

  pub retain-AllValues :
      (p : V → Bool) (m : List (Text × V)) → AllValues (λ v. p v ≡ true) (retain p m)
  unfolding retain
  retain-AllValues p [] = tt
  retain-AllValues p ((j, w) ∷ m) = ground (arith, retain-AllValues p m)

  pub insert-AllValues :
      (P : V → Type 0) (k : Text) (v : V) (m : List (Text × V))
      → P v
      → AllValues P m
      → AllValues P (insert k v m)
  unfolding insert
  insert-AllValues P k v [] pv h = (pv, tt)
  insert-AllValues P k v ((j, w) ∷ m) pv h = ground (arith, insert-AllValues P k v m pv h.1)

  pub lookup-AllValues :
      (P : V → Type 0) (k : Text) (m : List (Text × V)) {v : V}
      → AllValues P m
      → lookup k m ≡ some v
      → P v
  unfolding lookup
  lookup-AllValues P k [] h e = cc
  lookup-AllValues P k ((j, w) ∷ m) {v} h e = elim (Bool-cases (text_eq j k)) [
    | inl same ↦ let q : w ≡ v = ground arith in rw q at h.0
    | inr other ↦ lookup-AllValues P k m h.1 (ground arith)
  ]

module _ {ℓ κ} {V : Type ℓ} (P : Text → V → Type κ) where
  abbrev pub AllEntries : List (Text × V) → Type κ
  AllEntries [] = Unit
  AllEntries ((k, v) ∷ m) = P k v × AllEntries m

  pub insert-AllEntries :
      (k : Text) (v : V) (m : List (Text × V)) → P k v → AllEntries m → AllEntries (insert k v m)
  unfolding insert
  insert-AllEntries k v [] p h = (p, tt)
  insert-AllEntries k v ((j, w) ∷ m) p h = elim (Bool-cases (text_eq j k)) [
    | inl same ↦ rw same (p, h.1)
    | inr other ↦ rw other (h.0, insert-AllEntries k v m p h.1)
  ]

  pub lookup-AllEntries :
      (k : Text) (m : List (Text × V)) {v : V} → AllEntries m → lookup k m ≡ some v → P k v
  unfolding lookup
  lookup-AllEntries k [] h e = cc
  lookup-AllEntries k ((j, w) ∷ m) {v} h e = elim (Bool-cases (text_eq j k)) [
    | inl same ↦
        let key : j ≡ k = (text_eq_iff j k).0 same in
        let value : w ≡ v = ground arith in rw (← key, ← value) h.0
    | inr other ↦ lookup-AllEntries k m h.1 (ground arith)
  ]

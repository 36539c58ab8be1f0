-- ===== src/Ws/Limiter/Counting.antt =====
-- The counts of the limiter against the permits that are live.
use tork_framework.Base.{
  ℕ, zero, suc, ◌+◌, ◌≤◌, ◌≡◌, refl, sym, ap, ◌∙◌, ◌⊎◌, inl, inr, ◌++◌, Bool, true, false, Option,
  none, some, List, [], ◌∷◌, Text, text_eq, text_eq_iff, text_eq_refl, lookup, insert, get_or, leb,
  ◌==◌, ==_iff, if◌then◌else◌, arith, HasUniqueKeys, insert-HasUniqueKeys, lookup-insert,
  Bool-cases, unwrap_or,
}
use tork_framework.Ws.Limiter.{Counts, remove, entered, try_acquire, drop_at, drop_permit}

lookup-remove-none : (k j : Text) (m : Counts) → lookup j m ≡ none → lookup j (remove k m) ≡ none
unfolding lookup remove
lookup-remove-none k j [] e = refl
lookup-remove-none k j ((i, v) ∷ m) e = ground (arith, lookup-remove-none k j m)

lookup-remove :
    (k j : Text) (m : Counts)
    → HasUniqueKeys m
    → lookup j (remove k m) ≡ (if text_eq k j then none else lookup j m)
unfolding lookup remove
lookup-remove k j [] u = ground arith
lookup-remove k j ((i, v) ∷ m) u =
    ground (arith, text_eq_iff i k, text_eq_iff k j, text_eq_iff i j, lookup-remove k j m u.1, u.0)

remove-HasUniqueKeys : (k : Text) (m : Counts) → HasUniqueKeys m → HasUniqueKeys (remove k m)
unfolding remove
remove-HasUniqueKeys k [] u = tt
remove-HasUniqueKeys k ((i, v) ∷ m) u =
    ground (arith, lookup-remove-none k i m u.0, remove-HasUniqueKeys k m u.1)

-- How often an address is in a list.
abbrev pub times : Text → List Text → ℕ
times ip [] = 0
times ip (x ∷ xs) = (if text_eq x ip then 1 else 0) + times ip xs

times-append : (ip : Text) (xs ys : List Text) → times ip (xs ++ ys) ≡ times ip xs + times ip ys
times-append ip [] ys = omega arith
times-append ip (x ∷ xs) ys = omega (arith, times-append ip xs ys)

-- The counts are those of the live permits, of which no address has more than the limit.
pub record IsExact (limit : ℕ) (m : Counts) (live : List Text) : Type 0 where
  pub keys : HasUniqueKeys m
  pub counted : (ip : Text) → get_or ip 0 m ≡ times ip live
  pub few : (ip : Text) → times ip live ≤ limit

get_or-insert :
    (ip j : Text) (v : ℕ) (m : Counts)
    → get_or j 0 (insert ip v m) ≡ (if text_eq ip j then v else get_or j 0 m)
get_or-insert ip j v m = ground (arith, lookup-insert ip j v m)

entered-cases :
    (ip : Text) (m : Counts)
    → ((entered ip m ≡ insert ip 0 m) × (lookup ip m ≡ none)) ⊎ (entered ip m ≡ m)
entered-cases ip m = go (lookup ip m) refl
  where
    go :
        (o : Option ℕ)
        → lookup ip m ≡ o
        → (((elim o as (λ x. Counts) [ none ↦ insert ip 0 m | some c ↦ m ]) ≡ insert ip 0 m)
            × (lookup ip m ≡ none))
          ⊎ ((elim o as (λ x. Counts) [ none ↦ insert ip 0 m | some c ↦ m ]) ≡ m)
    go none e = inl (refl, e)
    go (some c) e = inr refl

get_or-entered : (ip j : Text) (m : Counts) → get_or j 0 (entered ip m) ≡ get_or j 0 m
get_or-entered ip j m = elim (entered-cases ip m) [
  | inl (e, free) ↦
      ap (get_or j 0) e
      ∙ ground (arith, get_or-insert ip j 0 m, text_eq_iff ip j, ap (λ o. unwrap_or o 0) free)
  | inr e ↦ ap (get_or j 0) e
]

entered-HasUniqueKeys : (ip : Text) (m : Counts) → HasUniqueKeys m → HasUniqueKeys (entered ip m)
entered-HasUniqueKeys ip m u = elim (entered-cases ip m) [
  | inl (e, free) ↦ rw e (insert-HasUniqueKeys ip 0 m u)
  | inr e ↦ rw e u
]

-- The permits behind a call.
abbrev pub granted : Text → List Text → Bool → List Text
granted ip live true = ip ∷ live
granted ip live false = live

try_acquire-IsExact :
    (limit : ℕ) (ip : Text) (m : Counts) (live : List Text)
    → IsExact limit m live
    → IsExact limit (try_acquire limit ip m).0 (granted ip live (try_acquire limit ip m).1)
unfolding try_acquire
try_acquire-IsExact limit ip m live x = elim (Bool-cases (leb limit (get_or ip 0 m))) [
  | inl full ↦ rw full (record {
    keys = entered-HasUniqueKeys ip m x.keys;
    counted = λ j. get_or-entered ip j m ∙ x.counted j;
    few = x.few;
  })
  | inr room ↦ rw room (record {
    keys = insert-HasUniqueKeys ip _ (entered ip m) (entered-HasUniqueKeys ip m x.keys);
    counted = λ j. ground (
      arith,
      get_or-insert ip j (suc (get_or ip 0 m)) (entered ip m),
      get_or-entered ip j m,
      x.counted j,
      text_eq_iff ip j,
      x.counted ip,
    );
    few = λ j. ground (arith, x.few j, text_eq_iff ip j, room, x.counted ip);
  })
]

-- A live permit is counted.
live-lookup :
    (limit : ℕ) (ip : Text) (m : Counts) (before after : List Text)
    → IsExact limit m (before ++ ip ∷ after)
    → (c : ℕ) × (lookup ip m ≡ some (suc c)) × (suc c ≡ times ip (before ++ ip ∷ after))
live-lookup limit ip m before after x = go (lookup ip m) refl
  where
    go :
        (o : Option ℕ)
        → lookup ip m ≡ o
        → (c : ℕ) × (lookup ip m ≡ some (suc c)) × (suc c ≡ times ip (before ++ ip ∷ after))
    go none e = ground (
      arith,
      x.counted ip,
      ap (λ o. unwrap_or o 0) e,
      times-append ip before (ip ∷ after),
      text_eq_refl ip,
    )
    go (some zero) e = ground (
      arith,
      x.counted ip,
      ap (λ o. unwrap_or o 0) e,
      times-append ip before (ip ∷ after),
      text_eq_refl ip,
    )
    go (some (suc c)) e = (c, e, sym (ap (λ o. unwrap_or o 0) e) ∙ x.counted ip)

times-dropped :
    (j ip : Text) (before after : List Text)
    → times j (before ++ ip ∷ after) ≡ (if text_eq ip j then 1 else 0) + times j (before ++ after)
times-dropped j ip before after =
    omega (arith, times-append j before (ip ∷ after), times-append j before after)

module _ (limit : ℕ) (ip : Text) (m : Counts) (before after : List Text)
    (x : IsExact limit m (before ++ ip ∷ after)) where
  removed-IsExact :
      times ip (before ++ ip ∷ after) ≡ 1 → IsExact limit (remove ip m) (before ++ after)
  removed-IsExact last = record {
    keys = remove-HasUniqueKeys ip m x.keys;
    counted = λ j. ground (
      arith,
      ap (λ o. unwrap_or o 0) (lookup-remove ip j m x.keys),
      x.counted j,
      times-dropped j ip before after,
      text_eq_iff ip j,
      last,
    );
    few = λ j. ground (arith, x.few j, times-dropped j ip before after);
  }

  lowered-IsExact :
      (c : ℕ)
      → times ip (before ++ ip ∷ after) ≡ suc c
      → IsExact limit (insert ip c m) (before ++ after)
  lowered-IsExact c more = record {
    keys = insert-HasUniqueKeys ip c m x.keys;
    counted = λ j. ground (
      arith,
      get_or-insert ip j c m,
      x.counted j,
      times-dropped j ip before after,
      text_eq_iff ip j,
      more,
    );
    few = λ j. ground (arith, x.few j, times-dropped j ip before after);
  }

  -- The drop of a live permit does not underflow.
  drop_permit-IsExact :
      (m' : Counts) × (drop_permit ip m ≡ some m') × IsExact limit m' (before ++ after)
  unfolding drop_permit
  drop_permit-IsExact =
      let (c, there, many) = live-lookup limit ip m before after x in
      elim (Bool-cases (c == 0)) [
        | inl last ↦ (
          remove ip m,
          ap (drop_at ip m) there ∙ rw last refl,
          removed-IsExact (ground (arith, many, ==_iff c 0, last)),
        )
        | inr more ↦
            (insert ip c m, ap (drop_at ip m) there ∙ rw more refl, lowered-IsExact c (sym many))
      ]

some_injective : {a b : Counts} → some a ≡ some b → a ≡ b
some_injective e = cc

-- The counts and the live permits that a limiter comes to.
pub data Reach (limit : ℕ) : Counts → List Text → Type 0 where
  fresh : Reach limit [] []
  asked :
      (ip : Text) (m : Counts) (live : List Text)
      → Reach limit m live
      → Reach limit (try_acquire limit ip m).0 (granted ip live (try_acquire limit ip m).1)
  dropped :
      (ip : Text) (m m' : Counts) (before after : List Text)
      → Reach limit m (before ++ ip ∷ after)
      → drop_permit ip m ≡ some m'
      → Reach limit m' (before ++ after)

-- In every state that a limiter comes to from a new one, by asking for permits and by dropping live
-- ones, the count of each address is the number of its live permits, and no address has more than
-- the limit.
pub Reach-IsExact :
    (limit : ℕ) (m : Counts) (live : List Text) → Reach limit m live → IsExact limit m live
unfolding lookup
Reach-IsExact limit _ _ fresh = record { keys = tt; counted = λ ip. refl; few = λ ip. omega arith }
Reach-IsExact limit _ _ (asked ip m live r) =
    try_acquire-IsExact limit ip m live (Reach-IsExact limit m live r)
Reach-IsExact limit _ _ (dropped ip m m' before after r e) =
    let (n, q, x) =
      drop_permit-IsExact limit ip m before after
        (Reach-IsExact limit m (before ++ ip ∷ after) r) in
    let same : n ≡ m' = some_injective (sym q ∙ e) in rw (← same) x

-- released
pub Reach-drop_permit :
    (limit : ℕ) (ip : Text) (m : Counts) (before after : List Text)
    → Reach limit m (before ++ ip ∷ after)
    → (m' : Counts) × (drop_permit ip m ≡ some m')
Reach-drop_permit limit ip m before after r =
    let (m', q, x) =
      drop_permit-IsExact limit ip m before after
        (Reach-IsExact limit m (before ++ ip ∷ after) r) in
    (m', q)

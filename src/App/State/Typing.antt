-- ===== src/App/State/Typing.antt =====
-- crates/tork-core/src/state.rs: what is found under a type.
use tork_framework.Base.{
  ◌≡◌, ◌≢◌, refl, sym, ap, ◌∙◌, arith, true, Option, none, some, [], ◌∷◌, and_then, is_some,
}
use mathlib.Core.Path.{subst}
use mathlib.Core.Logic.{ite}
use mathlib.Core.Path.{subst_refl}
use mathlib.Core.Logic.{dif_pos, if_pos, if_neg}
use mathlib.Core.HLevel.{hedberg}
use tork_framework.App.State.{
  Types, Any, StateMap, downcast, entry, insert_entry, insert_state, get_state, contains_state,
  remove_state,
}

module _ (ts : Types) where
  -- The states that a program comes to from the empty one.
  pub data Reach : StateMap ts → Type 0 where
    new : Reach []
    inserted :
        {m : StateMap ts} (t : ts.TypeId) (v : ts.El t) → Reach m → Reach (insert_state ts t v m)
    removed : {m : StateMap ts} (t : ts.TypeId) → Reach m → Reach (remove_state ts t m)

  -- Each value is of the type under which it stands.
  abbrev IsTyped : StateMap ts → Type 0
  IsTyped [] = Unit
  IsTyped ((t, a) ∷ m) = (a.0 ≡ t) × IsTyped m

  insert_entry-IsTyped :
      (t : ts.TypeId) (a : Any ts) (m : StateMap ts)
      → a.0 ≡ t
      → IsTyped m
      → IsTyped (insert_entry ts t a m)
  unfolding insert_entry
  insert_entry-IsTyped t a [] e h = (e, tt)
  insert_entry-IsTyped t a ((u, b) ∷ m) e h = elim (ts.same u t) [
    | yes p ↦ rw (if_pos (ts.same u t) p ((t, a) ∷ m) _) (e, h.1)
    | no p ↦ rw (if_neg (ts.same u t) p ((t, a) ∷ m) _) (h.0, insert_entry-IsTyped t a m e h.1)
  ]

  remove_state-IsTyped :
      (t : ts.TypeId) (m : StateMap ts) → IsTyped m → IsTyped (remove_state ts t m)
  unfolding remove_state
  remove_state-IsTyped t [] h = tt
  remove_state-IsTyped t ((u, b) ∷ m) h =
      let rest = remove_state-IsTyped t m h.1 in
      elim (ts.same u t) [
        | yes p ↦ rw (if_pos (ts.same u t) p (remove_state ts t m) _) rest
        | no p ↦ rw (if_neg (ts.same u t) p (remove_state ts t m) _) (h.0, rest)
      ]

  Reach-IsTyped : {m : StateMap ts} → Reach m → IsTyped m
  Reach-IsTyped new = tt
  Reach-IsTyped (inserted {m} t v r) = insert_entry-IsTyped t (t, v) m refl (Reach-IsTyped r)
  Reach-IsTyped (removed {m} t r) = remove_state-IsTyped t m (Reach-IsTyped r)

  pub downcast_self : (t : ts.TypeId) (v : ts.El t) → downcast ts t (t, v) ≡ some v
  unfolding downcast
  downcast_self t v =
      dif_pos (ts.same t t) (hedberg ts.same t t) refl (λ e. some (subst ts.El e v)) (λ _. none)
      ∙ ap some (subst_refl ts.El v)

  downcast-is_some : (t : ts.TypeId) (a : Any ts) → a.0 ≡ t → is_some (downcast ts t a) ≡ true
  unfolding downcast
  downcast-is_some t a e = ap is_some (
      dif_pos (ts.same a.0 t) (hedberg ts.same a.0 t) e (λ p. some (subst ts.El p a.1)) (λ _. none))

  pub entry-insert_self :
      (t : ts.TypeId) (a : Any ts) (m : StateMap ts) → entry ts t (insert_entry ts t a m) ≡ some a
  unfolding entry insert_entry
  entry-insert_self t a [] = if_pos (ts.same t t) refl (some a) none
  entry-insert_self t a ((u, b) ∷ m) = elim (ts.same u t) [
    | yes p ↦
        rw (if_pos (ts.same u t) p ((t, a) ∷ m) ((u, b) ∷ insert_entry ts t a m))
          (if_pos (ts.same t t) refl (some a) (entry ts t m))
    | no p ↦ rw (if_neg (ts.same u t) p ((t, a) ∷ m) ((u, b) ∷ insert_entry ts t a m)) (
        if_neg (ts.same u t) p (some b) (entry ts t (insert_entry ts t a m))
        ∙ entry-insert_self t a m)
  ]

  entry-cons :
      (t u : ts.TypeId) (b : Any ts) (m : StateMap ts)
      → u ≢ t
      → entry ts t ((u, b) ∷ m) ≡ entry ts t m
  unfolding entry
  entry-cons t u b m d = if_neg (ts.same u t) d (some b) (entry ts t m)

  entry-behind :
      (k u : ts.TypeId) (b : Any ts) (m m' : StateMap ts)
      → entry ts k m ≡ entry ts k m'
      → entry ts k ((u, b) ∷ m) ≡ entry ts k ((u, b) ∷ m')
  unfolding entry
  entry-behind k u b m m' e = ap (λ o. ite (ts.same u k) (some b) o) e

  pub entry-insert_ne :
      (t k : ts.TypeId) (a : Any ts) (m : StateMap ts)
      → t ≢ k
      → entry ts k (insert_entry ts t a m) ≡ entry ts k m
  unfolding insert_entry
  entry-insert_ne t k a [] d = entry-cons k t a [] d
  entry-insert_ne t k a ((u, b) ∷ m) d = elim (ts.same u t) [
    | yes p ↦
        rw (if_pos (ts.same u t) p ((t, a) ∷ m) ((u, b) ∷ insert_entry ts t a m))
          (entry-cons k t a m d ∙ sym (entry-cons k u b m (λ q. d (sym p ∙ q))))
    | no p ↦
        rw (if_neg (ts.same u t) p ((t, a) ∷ m) ((u, b) ∷ insert_entry ts t a m))
          (entry-behind k u b (insert_entry ts t a m) m (entry-insert_ne t k a m d))
  ]

  entry-remove_self : (t : ts.TypeId) (m : StateMap ts) → entry ts t (remove_state ts t m) ≡ none
  unfolding remove_state
  entry-remove_self t [] = unfold entry in refl
  entry-remove_self t ((u, b) ∷ m) =
      let rest = remove_state ts t m in
      elim (ts.same u t) [
        | yes p ↦ rw (if_pos (ts.same u t) p rest ((u, b) ∷ rest)) (entry-remove_self t m)
        | no p ↦
            rw (if_neg (ts.same u t) p rest ((u, b) ∷ rest))
              (entry-cons t u b rest p ∙ entry-remove_self t m)
      ]

  entry-remove_ne :
      (t k : ts.TypeId) (m : StateMap ts) → t ≢ k → entry ts k (remove_state ts t m) ≡ entry ts k m
  unfolding remove_state
  entry-remove_ne t k [] d = refl
  entry-remove_ne t k ((u, b) ∷ m) d =
      let rest = remove_state ts t m in
      elim (ts.same u t) [
        | yes p ↦
            rw (if_pos (ts.same u t) p rest ((u, b) ∷ rest))
              (entry-remove_ne t k m d ∙ sym (entry-cons k u b m (λ q. d (sym p ∙ q))))
        | no p ↦
            rw (if_neg (ts.same u t) p rest ((u, b) ∷ rest))
              (entry-behind k u b rest m (entry-remove_ne t k m d))
      ]

  entry-IsTyped :
      (t : ts.TypeId) (m : StateMap ts) {a : Any ts} → IsTyped m → entry ts t m ≡ some a → a.0 ≡ t
  unfolding entry
  entry-IsTyped t [] h e = cc
  entry-IsTyped t ((u, b) ∷ m) {a} h e = elim (ts.same u t) [
    | yes p ↦
        let q : some b ≡ some a = sym (if_pos (ts.same u t) p (some b) (entry ts t m)) ∙ e in
        let same : b ≡ a = ground arith in ap (λ c. c.0) (sym same) ∙ h.0 ∙ p
    | no p ↦ entry-IsTyped t m h.1 (sym (if_neg (ts.same u t) p (some b) (entry ts t m)) ∙ e)
  ]

  is_some-downcast :
      (t : ts.TypeId) (o : Option (Any ts))
      → ((a : Any ts) → o ≡ some a → a.0 ≡ t)
      → is_some o ≡ is_some (and_then o (downcast ts t))
  is_some-downcast t none h = refl
  is_some-downcast t (some a) h = sym (downcast-is_some t a (h a refl))

  -- In every state that a program comes to from the empty one, a type that is contained is found as
  -- a value of that type; what is inserted under a type is found there, and what is removed is no
  -- longer found, while every other type stands as it did.
  pub get_state-insert_state :
      {m : StateMap ts} (t k : ts.TypeId) (v : ts.El t)
      → Reach m
      → t ≢ k
      → (contains_state ts t m ≡ is_some (get_state ts t m))
        × (get_state ts t (insert_state ts t v m) ≡ some v)
        × (get_state ts k (insert_state ts t v m) ≡ get_state ts k m)
        × (get_state ts t (remove_state ts t m) ≡ none)
        × (get_state ts k (remove_state ts t m) ≡ get_state ts k m)
  unfolding get_state contains_state
  get_state-insert_state {m} t k v r d = (
    is_some-downcast t (entry ts t m) (λ a e. entry-IsTyped t m (Reach-IsTyped r) e),
    ap (λ o. and_then o (downcast ts t)) (entry-insert_self t (t, v) m) ∙ downcast_self t v,
    ap (λ o. and_then o (downcast ts k)) (entry-insert_ne t k (t, v) m d),
    ap (λ o. and_then o (downcast ts t)) (entry-remove_self t m),
    ap (λ o. and_then o (downcast ts k)) (entry-remove_ne t k m d),
  )

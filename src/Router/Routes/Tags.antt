-- ===== src/Router/Routes/Tags.antt =====
-- Tags and security schemes: no duplicates, and nothing lost.
use tork_framework.Base.{
  ◌++◌, ◌≡◌, refl, false, ◌||◌, List, [], ◌∷◌, Text, text_eq, text_eq_iff, arith, any-append,
}
use tork_framework.Router.Routes.{contains, add_tag, add_tags}

-- No tag stands twice.
abbrev pub AreDistinct : List Text → Type 0
AreDistinct [] = Unit
AreDistinct (t ∷ ts) = (contains ts t ≡ false) × AreDistinct ts

text_eq_comm : (a b : Text) → text_eq a b ≡ text_eq b a
text_eq_comm a b = ground (arith, text_eq_iff a b, text_eq_iff b a)

pub AreDistinct-append :
    (ts : List Text) (t : Text)
    → AreDistinct ts
    → contains ts t ≡ false
    → AreDistinct (ts ++ t ∷ [])
AreDistinct-append [] t d absent = (refl, tt)
AreDistinct-append (s ∷ ts) t d absent =
    ground
      (arith, any-append (text_eq s) ts (t ∷ []), text_eq_comm s t, AreDistinct-append ts t d.1)

add_tag-AreDistinct : (ts : List Text) (t : Text) → AreDistinct ts → AreDistinct (add_tag ts t)
unfolding add_tag
add_tag-AreDistinct ts t d = ground (arith, AreDistinct-append ts t d)

contains-add_tag :
    (ts : List Text) (t s : Text) → contains (add_tag ts t) s ≡ (contains ts s || text_eq s t)
unfolding add_tag
contains-add_tag ts t s = ground (arith, any-append (text_eq s) ts (t ∷ []), text_eq_iff s t)

-- Inheriting the tags of an enclosing router keeps a route's tags distinct, also where the router's
-- list repeats a tag, and the route then has exactly its own tags and the router's.
pub add_tags_lem :
    (own ts : List Text)
    → AreDistinct own
    → AreDistinct (add_tags own ts)
      × ((s : Text) → contains (add_tags own ts) s ≡ (contains own s || contains ts s))
unfolding add_tags
add_tags_lem own [] d = (d, λ s. ground arith)
add_tags_lem own (t ∷ ts) d =
    let (distinct, members) = add_tags_lem (add_tag own t) ts (add_tag-AreDistinct own t d) in
    (distinct, λ s. ground (arith, members s, contains-add_tag own t s))

-- Two lists of tags one after the other are their concatenation.
pub add_tags-append :
    (own ts us : List Text) → add_tags (add_tags own ts) us ≡ add_tags own (ts ++ us)
unfolding add_tags
add_tags-append own [] us = refl
add_tags-append own (t ∷ ts) us = add_tags-append (add_tag own t) ts us

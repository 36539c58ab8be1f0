-- ===== src/Multipart/Paths/Containment.antt =====
-- The components of a path that an upload is saved to, against those of its directory.
use tork_framework.Base.{
  ℕ, ◌≡◌, refl, sym, ap, ◌∙◌, inl, inr, ◌++◌, Bool, true, false, ◌||◌, List, [], ◌∷◌, Text, bytes,
  text_eq, text_eq_sound, is_empty, split_on, starts_with, ends_with, Bool-cases, if◌then◌else◌,
  append-nil, append_assoc, ◌==◌, arith,
}
use tork_framework.Base.Splitting.{split_on-cons}
use tork_framework.Error.{ok}
use tork_framework.Multipart.Paths.{
  Component, root_dir, cur_dir, parent_dir, normal, separator, add_segment, body, relative,
  is_absolute, components, join, target, build_safe_target,
}

split_on-sep : (b : ℕ) (p s : Text) → split_on b (p ++ b ∷ s) ≡ split_on b p ++ split_on b s
unfolding split_on
split_on-sep b [] s = ground arith
split_on-sep b (c ∷ p) s =
    let (q, qs, e) = split_on-cons b p in
    elim (Bool-cases (c == b)) [
      | inl same ↦ rw (same, split_on-sep b p s) refl
      | inr other ↦ rw (other, split_on-sep b p s, e) refl
    ]

add_segment-append :
    (s : Text) (cs ds : List Component) → add_segment s (cs ++ ds) ≡ add_segment s cs ++ ds
add_segment-append s cs ds = elim (Bool-cases (is_empty s || text_eq s (bytes "."))) [
  | inl skipped ↦ rw skipped refl
  | inr kept ↦ rw kept refl
]

body-append : (ss ts : List Text) → body (ss ++ ts) ≡ body ss ++ body ts
unfolding body
body-append [] ts = refl
body-append (s ∷ ss) ts =
    ap (add_segment s) (body-append ss ts) ∙ add_segment-append s (body ss) (body ts)

if_append :
    (b : Bool) (x x' y y' z : List Component)
    → x' ≡ x ++ z
    → y' ≡ y ++ z
    → (if b then x' else y') ≡ (if b then x else y) ++ z
if_append true x x' y y' z e f = e
if_append false x x' y y' z e f = f

relative-append :
    (s : Text) (ss ts : List Text) → relative ((s ∷ ss) ++ ts) ≡ relative (s ∷ ss) ++ body ts
unfolding body
relative-append s ss ts =
    if_append (text_eq s (bytes ".")) (cur_dir ∷ body ss) (cur_dir ∷ body (ss ++ ts))
      (add_segment s (body ss)) (add_segment s (body (ss ++ ts))) (body ts)
      (ap (λ x. cur_dir ∷ x) (body-append ss ts))
      (ap (add_segment s) (body-append ss ts) ∙ add_segment-append s (body ss) (body ts))

-- The components of a path with given segments.
abbrev of_segments : Bool → List Text → List Component
of_segments rooted ss = if rooted then root_dir ∷ body ss else relative ss

of_segments-append :
    (rooted : Bool) (s : Text) (ss ts : List Text)
    → of_segments rooted ((s ∷ ss) ++ ts) ≡ of_segments rooted (s ∷ ss) ++ body ts
unfolding body
of_segments-append true s ss ts = ap (λ cs. root_dir ∷ cs) (body-append (s ∷ ss) ts)
of_segments-append false s ss ts = relative-append s ss ts

is_absolute-append : (c : ℕ) (d t : Text) → is_absolute ((c ∷ d) ++ t) ≡ is_absolute (c ∷ d)
unfolding starts_with
is_absolute-append c d t = refl

components_below :
    (c : ℕ) (d t : Text)
    → components ((c ∷ d) ++ separator ∷ t) ≡ components (c ∷ d) ++ body (split_on separator t)
unfolding components starts_with
components_below c d t =
    let (s, ss, e) = split_on-cons separator (c ∷ d) in
    ap (λ x. of_segments (is_absolute (c ∷ d)) x)
      (split_on-sep separator (c ∷ d) t ∙ ap (λ x. x ++ split_on separator t) e)
    ∙ of_segments-append (is_absolute (c ∷ d)) s ss (split_on separator t)
    ∙ ap (λ x. of_segments (is_absolute (c ∷ d)) x ++ body (split_on separator t)) (sym e)

-- A separator at the end adds no component.
components-separator :
    (c : ℕ) (d : Text) → components ((c ∷ d) ++ separator ∷ []) ≡ components (c ∷ d)
unfolding body split_on
components-separator c d = components_below c d [] ∙ append-nil (components (c ∷ d))

-- A path that ends in a separator is another one with a separator behind it.
ends_with-last : (b : ℕ) (p : Text) → ends_with (b ∷ []) p ≡ true → (d : Text) × (p ≡ d ++ b ∷ [])
unfolding ends_with text_eq
ends_with-last b [] e = cc
ends_with-last b (c ∷ p) e = elim (Bool-cases (text_eq (b ∷ []) (c ∷ p))) [
  | inl whole ↦ ([], sym (text_eq_sound (b ∷ []) (c ∷ p) whole))
  | inr longer ↦
      let (d, q) = ends_with-last b p (sym (rw longer refl) ∙ e) in (c ∷ d, ap (λ x. c ∷ x) q)
]

-- A path of one plain component starts with no separator and no dot.
relative_plain : (ss : List Text) (c : Text) → relative ss ≡ normal c ∷ [] → body ss ≡ normal c ∷ []
unfolding body
relative_plain [] c e = e
relative_plain (s ∷ ss) c e = go (text_eq s (bytes ".")) e
  where
    go :
        (b : Bool)
        → (if b then cur_dir ∷ body ss else body (s ∷ ss)) ≡ normal c ∷ []
        → body (s ∷ ss) ≡ normal c ∷ []
    go true e = cc
    go false e = e

name_body :
    (name c : Text)
    → components name ≡ normal c ∷ []
    → (is_absolute name ≡ false) × (body (split_on separator name) ≡ normal c ∷ [])
unfolding components
name_body name c e = go (is_absolute name) e
  where
    go :
        (b : Bool)
        → of_segments b (split_on separator name) ≡ normal c ∷ []
        → (b ≡ false) × (body (split_on separator name) ≡ normal c ∷ [])
    go true e = cc
    go false e = (refl, relative_plain (split_on separator name) c e)

target-ok :
    (dir file_name path : Text) (cs : List Component)
    → target dir file_name cs ≡ ok path
    → (c : Text) × (cs ≡ normal c ∷ []) × (path ≡ join dir file_name)
target-ok dir file_name path [] e = cc
target-ok dir file_name path (root_dir ∷ cs) e = cc
target-ok dir file_name path (cur_dir ∷ cs) e = cc
target-ok dir file_name path (parent_dir ∷ cs) e = cc
target-ok dir file_name path (normal c ∷ d ∷ cs) e = cc
target-ok dir file_name path (normal c ∷ []) e = (c, refl, sym (ok_injective e))
  where
    ok_injective : {x y : Text} → ok x ≡ ok y → x ≡ y
    ok_injective q = cc

below_separator :
    (d name : Text)
    → components (d ++ separator ∷ name)
      ≡ components (d ++ separator ∷ []) ++ body (split_on separator name)
unfolding components starts_with split_on body
below_separator [] name = refl
below_separator (c ∷ d) name =
    components_below c d name
    ∙ ap (λ x. x ++ body (split_on separator name)) (sym (components-separator c d))

join_below :
    (dir name c : Text)
    → components name ≡ normal c ∷ []
    → components (join dir name) ≡ components dir ++ normal c ∷ []
unfolding join components starts_with split_on body text_eq
join_below [] name c e = rw ((name_body name c e).0) e
join_below (b ∷ d) name c e =
    let (rel, plain) = name_body name c e in
    elim (Bool-cases (ends_with (separator ∷ []) (b ∷ d))) [
      | inr open_end ↦
          rw (rel, open_end) (components_below b d name ∙ ap (λ x. components (b ∷ d) ++ x) plain)
      | inl closed ↦
          let (d', q) = ends_with-last separator (b ∷ d) closed in
          rw (rel, closed)
            (ap components (ap (λ x. x ++ name) q ∙ append_assoc d' (separator ∷ []) name)
              ∙ below_separator d' name
              ∙ ap (λ x. components x ++ body (split_on separator name)) (sym q)
              ∙ ap (λ x. components (b ∷ d) ++ x) plain)
    ]

-- A target that is accepted lies directly in its directory: its components are those of the
-- directory, and one plain name behind them.
pub build_safe_target-components :
    (dir file_name path : Text)
    → build_safe_target dir file_name ≡ ok path
    → (c : Text) × (components path ≡ components dir ++ normal c ∷ [])
unfolding build_safe_target
build_safe_target-components dir file_name path e =
    let (c, plain, where_to) = target-ok dir file_name path (components file_name) e in
    (c, ap components where_to ∙ join_below dir file_name c plain)

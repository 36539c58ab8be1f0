-- ===== src/Router/Paths/Laws.antt =====
-- The normal form of joined paths, and that joining is associative.
use tork_framework.Base.{
  ◌==◌, ◌≡⟨◌⟩◌, ◌∎, ◌++◌, ◌≡◌, refl, sym, ap, ◌∙◌, ◌⊎◌, inl, inr, true, false, [], ◌∷◌, append-nil,
  append_assoc, Text, trim_start, trim_end, starts_with, ends_with, is_empty, if◌then◌else◌, arith,
}
use tork_framework.Base.Trimming.{
  trim_before, trim_end-append, trim_end_idem, trim_start-trim_end, start_before, trim_start-append,
  trimmed-ends_with,
}
use tork_framework.Router.Paths.{slash, join_paths}

abbrev T : Text → Text
T = trim_end b'/'

abbrev S : Text → Text
S = trim_start b'/'

-- A path behind its slash, unless it is empty.
abbrev tail : Text → Text
tail [] = []
tail (c ∷ s) = b'/' ∷ c ∷ s

-- A prefix with a slash in front, unless it is empty.
abbrev lead : Text → Text
lead [] = []
lead (c ∷ s) = if c == b'/' then c ∷ s else b'/' ∷ c ∷ s

abbrev or_root : Text → Text
or_root [] = slash
or_root (c ∷ s) = c ∷ s

abbrev rooted : Text → Text
rooted s = if starts_with slash s then s else b'/' ∷ s

rooted-lead : (h z : Text) → rooted (h ++ b'/' ∷ z) ≡ lead h ++ b'/' ∷ z
unfolding starts_with
rooted-lead [] z = refl
rooted-lead (c ∷ h) z = ground arith

T-rooted : (h : Text) → T h ≡ h → T (rooted h) ≡ lead h
unfolding starts_with trim_end
T-rooted [] e = refl
T-rooted (c ∷ h) e = ground (arith, e)

-- A text that begins with no slash.
abbrev HasNoLead : Text → Type 0
HasNoLead [] = Unit
HasNoLead (c ∷ s) = (c == b'/') ≡ false

S-HasNoLead : (s : Text) → HasNoLead (S s)
unfolding trim_start
S-HasNoLead [] = tt
S-HasNoLead (c ∷ s) = ground (arith, S-HasNoLead s)

T-HasNoLead : (z : Text) → HasNoLead z → HasNoLead (T z)
unfolding trim_end
T-HasNoLead [] n = tt
T-HasNoLead (c ∷ z) n = ground arith

S-eq_self : (z : Text) → HasNoLead z → S z ≡ z
unfolding trim_start
S-eq_self [] n = refl
S-eq_self (c ∷ z) n = ground arith

S-tail : (z : Text) → S (tail z) ≡ S z
unfolding trim_start
S-tail [] = refl
S-tail (c ∷ z) = refl

T-tail : (z : Text) → HasNoLead z → T (tail z) ≡ tail (T z)
unfolding trim_end
T-tail [] n = refl
T-tail (c ∷ z) n = ground arith

-- A trimmed prefix with a path that begins with no slash.
T-rooted-append :
    (h z : Text) → T h ≡ h → HasNoLead z → T (rooted (h ++ tail z)) ≡ lead h ++ tail (T z)
unfolding trim_end
T-rooted-append h [] e n = rw (append-nil h, append-nil (lead h)) (T-rooted h e)
T-rooted-append h (c ∷ z) e n =
    T (rooted (h ++ b'/' ∷ c ∷ z))
    ≡⟨ ap T (rooted-lead h (c ∷ z)) ⟩ T (lead h ++ b'/' ∷ c ∷ z)
    ≡⟨ trim_end-append b'/' (lead h) (b'/' ∷ c ∷ z) ⟩ trim_before b'/' (lead h) (T (tail (c ∷ z)))
    ≡⟨ ground (arith, T-tail (c ∷ z) n) ⟩ lead h ++ tail (T (c ∷ z)) ∎

body : Text → Text → Text
body p q = lead (T p) ++ tail (T (S q))

glue-tail : (h t : Text) → (if is_empty t then h else h ++ b'/' ∷ t) ≡ h ++ tail t
glue-tail h [] = sym (append-nil h)
glue-tail h (c ∷ t) = refl

root-or_root : (x : Text) → (if is_empty x then slash else x) ≡ or_root x
root-or_root [] = refl
root-or_root (c ∷ x) = refl

join_paths-body : (p q : Text) → join_paths p q ≡ or_root (body p q)
unfolding join_paths body
join_paths-body p q =
    root-or_root _
    ∙ ap or_root (
        ap (λ g. T (rooted g)) (glue-tail (T p) (S q))
        ∙ T-rooted-append (T p) (S q) (trim_end_idem b'/' p) (S-HasNoLead q))

S-lead : (h : Text) → S (lead h) ≡ S h
unfolding trim_start
S-lead [] = refl
S-lead (c ∷ h) = ground arith

S-or_root : (x : Text) → S (or_root x) ≡ S x
unfolding trim_start
S-or_root [] = refl
S-or_root (c ∷ x) = refl

T-or_root : (x : Text) → T (or_root x) ≡ T x
unfolding trim_end
T-or_root [] = refl
T-or_root (c ∷ x) = refl

lead-lead : (h z : Text) → lead (lead h ++ tail z) ≡ lead h ++ tail z
lead-lead [] [] = refl
lead-lead [] (c ∷ z) = refl
lead-lead (c ∷ h) z = ground arith

lead-body : (p q : Text) → lead (body p q) ≡ body p q
unfolding body
lead-body p q = lead-lead (T p) (T (S q))

T-body : (p q : Text) → T (body p q) ≡ body p q
unfolding body
T-body p q =
    T (body p q)
    ≡⟨ ap T (sym (T-rooted-append (T p) (S q) (trim_end_idem b'/' p) (S-HasNoLead q))) ⟩
      T (T (rooted (T p ++ tail (S q))))
    ≡⟨ trim_end_idem b'/' _ ⟩ T (rooted (T p ++ tail (S q)))
    ≡⟨ T-rooted-append (T p) (S q) (trim_end_idem b'/' p) (S-HasNoLead q) ⟩ body p q ∎

T-join_paths : (p q : Text) → T (join_paths p q) ≡ body p q
T-join_paths p q = ap T (join_paths-body p q) ∙ T-or_root (body p q) ∙ T-body p q

-- What a path contributes behind a prefix.
part : Text → Text
part p = tail (T (S p))

part-start_before :
    (u w : Text)
    → T u ≡ u
    → T w ≡ w
    → HasNoLead w
    → tail (T (start_before b'/' u (tail w))) ≡ tail u ++ tail w
part-start_before [] w eu ew n = rw (S-tail w, S-eq_self w n, ew) refl
part-start_before (d ∷ r) [] eu ew n =
    ap tail (ap T (append-nil (d ∷ r)) ∙ eu) ∙ sym (append-nil (tail (d ∷ r)))
part-start_before (d ∷ r) (c ∷ w) eu ew n = ap tail (
    trim_end-append b'/' (d ∷ r) (tail (c ∷ w))
    ∙ ap (trim_before b'/' (d ∷ r)) (T-tail (c ∷ w) n ∙ ap tail ew))

part-join_paths : (p q : Text) → part (join_paths p q) ≡ part p ++ part q
unfolding part body
part-join_paths p q =
    part (join_paths p q)
    ≡⟨ ap (λ x. tail (T (S x))) (join_paths-body p q) ⟩ part (or_root (body p q))
    ≡⟨ ap (λ x. tail (T x)) (S-or_root (body p q)) ⟩ tail (T (S (body p q)))
    ≡⟨ ap (λ x. tail (T x)) (trim_start-append b'/' (lead (T p)) (tail (T (S q)))) ⟩
      tail (T (start_before b'/' (S (lead (T p))) (tail (T (S q)))))
    ≡⟨ ap (λ x. tail (T (start_before b'/' x (tail (T (S q))))))
        (S-lead (T p) ∙ trim_start-trim_end b'/' p) ⟩
      tail (T (start_before b'/' (T (S p)) (tail (T (S q)))))
    ≡⟨ part-start_before (T (S p)) (T (S q)) (trim_end_idem b'/' (S p)) (trim_end_idem b'/' (S q))
        (T-HasNoLead (S q) (S-HasNoLead q)) ⟩
      part p ++ part q ∎

-- A joined path begins with a slash, and ends in one only if it is the root path.
pub join_paths_normal :
    (p q : Text)
    → (starts_with slash (join_paths p q) ≡ true)
      × ((join_paths p q ≡ slash) ⊎ (ends_with slash (join_paths p q) ≡ false))
unfolding starts_with
join_paths_normal p q = rw (join_paths-body p q) (go (body p q) (T-body p q) (lead-body p q))
  where
    go :
        (x : Text)
        → T x ≡ x
        → lead x ≡ x
        → (starts_with slash (or_root x) ≡ true)
          × ((or_root x ≡ slash) ⊎ (ends_with slash (or_root x) ≡ false))
    go [] e l = (refl, inl refl)
    go (c ∷ x) e l = (ground (arith, l), inr (trimmed-ends_with b'/' (c ∷ x) e))

-- Joining is associative: nesting a router under another gives the paths of one router whose prefix
-- is the joined prefix.
pub join_paths_assoc :
    (p q r : Text) → join_paths p (join_paths q r) ≡ join_paths (join_paths p q) r
unfolding body part
join_paths_assoc p q r =
    join_paths p (join_paths q r)
    ≡⟨ join_paths-body p (join_paths q r) ⟩ or_root (lead (T p) ++ part (join_paths q r))
    ≡⟨ ap (λ x. or_root (lead (T p) ++ x)) (part-join_paths q r) ⟩
      or_root (lead (T p) ++ (part q ++ part r))
    ≡⟨ ap or_root (sym (append_assoc (lead (T p)) (part q) (part r))) ⟩ or_root (body p q ++ part r)
    ≡⟨ ap (λ x. or_root (x ++ part r)) (sym (lead-lead (T p) (T (S q)))) ⟩
      or_root (lead (body p q) ++ part r)
    ≡⟨ ap (λ x. or_root (lead x ++ part r)) (sym (T-join_paths p q)) ⟩
      or_root (lead (T (join_paths p q)) ++ part r)
    ≡⟨ sym (join_paths-body (join_paths p q) r) ⟩ join_paths (join_paths p q) r ∎

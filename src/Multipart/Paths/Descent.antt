-- ===== src/Multipart/Paths/Descent.antt =====
-- Paths that never lead above the directory that they start in.
use tork_framework.Base.{
  ℕ, zero, suc, ◌≡◌, refl, Bool, true, false, ◌||◌, List, [], ◌∷◌, Text, bytes, text_eq, is_empty,
  split_on, if◌then◌else◌, Option, none, some, any, arith,
}
use tork_framework.Error.{Error, ok, err}
use tork_framework.Multipart.Paths.{
  Component, root_dir, cur_dir, parent_dir, normal, separator, add_segment, body, relative,
  is_absolute, components, is_parent_dir, validate_save_path, ensure_target_is_not_symlink,
}

-- The depth that a path comes to, below where it starts; `none` where it leaves it.
abbrev pub walk : ℕ → List Component → Option ℕ
walk n [] = some n
walk n (root_dir ∷ cs) = none
walk n (cur_dir ∷ cs) = walk n cs
walk n (normal c ∷ cs) = walk (suc n) cs
walk zero (parent_dir ∷ cs) = none
walk (suc n) (parent_dir ∷ cs) = walk n cs

abbrev is_root_dir : Component → Bool
is_root_dir root_dir = true
is_root_dir c = false

walk-descends :
    (n : ℕ) (cs : List Component)
    → any is_root_dir cs ≡ false
    → any is_parent_dir cs ≡ false
    → (m : ℕ) × (walk n cs ≡ some m)
walk-descends n [] r p = (n, refl)
walk-descends n (root_dir ∷ cs) r p = cc
walk-descends n (cur_dir ∷ cs) r p = walk-descends n cs r p
walk-descends n (normal c ∷ cs) r p = walk-descends (suc n) cs r p
walk-descends n (parent_dir ∷ cs) r p = cc

named : (b : Bool) (s : Text) → is_root_dir (if b then parent_dir else normal s) ≡ false
named true s = refl
named false s = refl

add_segment-rootless :
    (s : Text) (cs : List Component)
    → any is_root_dir cs ≡ false
    → any is_root_dir (add_segment s cs) ≡ false
add_segment-rootless s cs r = go (is_empty s || text_eq s (bytes "."))
  where
    go :
        (b : Bool)
        → any is_root_dir
            (if b then cs else (if text_eq s (bytes "..") then parent_dir else normal s) ∷ cs)
          ≡ false
    go true = r
    go false = ground (arith, named (text_eq s (bytes "..")) s, r)

body-rootless : (ss : List Text) → any is_root_dir (body ss) ≡ false
unfolding body
body-rootless [] = refl
body-rootless (s ∷ ss) = add_segment-rootless s (body ss) (body-rootless ss)

relative-rootless : (ss : List Text) → any is_root_dir (relative ss) ≡ false
relative-rootless [] = refl
relative-rootless (s ∷ ss) = go (text_eq s (bytes "."))
  where
    go : (b : Bool) → any is_root_dir (if b then cur_dir ∷ body ss else body (s ∷ ss)) ≡ false
    go true = body-rootless ss
    go false = body-rootless (s ∷ ss)

components-rootless :
    (path : Text) → is_absolute path ≡ false → any is_root_dir (components path) ≡ false
unfolding components
components-rootless path rel = rw rel (relative-rootless (split_on separator path))

-- Three guards that let a path through.
passed :
    (a b c : Bool) (x y z : Error)
    → (if a then err x else if b then err y else if c then err z else ok tt) ≡ ok (tt {0})
    → (a ≡ false) × (b ≡ false) × (c ≡ false)
passed true b c x y z e = cc
passed false true c x y z e = cc
passed false false true x y z e = cc
passed false false false x y z e = (refl, refl, refl)

module _ (is_symlink : Text → Bool) where
  -- A path that is accepted for an upload names no symbolic link, and walking along its components
  -- never leads above the directory that it starts in, nor to the root.
  pub validate_save_path-walk :
      (path : Text)
      → validate_save_path is_symlink path ≡ ok tt
      → (is_symlink path ≡ false) × ((n : ℕ) × (walk 0 (components path) ≡ some n))
  unfolding validate_save_path ensure_target_is_not_symlink
  validate_save_path-walk path e =
      let (rel, down, plain) =
        passed (is_absolute path) (any is_parent_dir (components path)) (is_symlink path) _ _ _ e in
      (plain, walk-descends 0 (components path) (components-rootless path rel) down)

-- ===== src/Extract/Nesting.antt =====
-- The guard on the depth of a JSON text, against the depth of the JSON value that it writes.
use tork_framework.Base.{
  ℕ, suc, ◌+◌, ◌≤◌, ◌≡◌, refl, ◌∙◌, ◌++◌, Bool, true, false, ◌||◌, List, [], ◌∷◌, Text, arith, leb,
  ◌==◌, if◌then◌else◌, max, Bool-cases, inl, inr,
}
use tork_framework.Error.{Result, ok, err}
use tork_framework.Extract.Body.{
  Scan, outside, scan_byte, scan, too_deep, ensure_json_depth_within_limit, max_json_nesting,
}

-- A character of a string: one byte, or a backslash and a byte.
pub data Chr : Type 0 where
  plain escape : ℕ → Chr

mutual
  -- A JSON value; the text of a scalar is a number or a word.
  pub data Json : Type 0 where
    scalar : Text → Json
    string : List Chr → Json
    array : Members → Json
    object : Members → Json

  -- What stands between the brackets: a text in front of each value (separators, white space), for
  -- an object also a key, and the text behind the last.
  pub data Members : Type 0 where
    last : Text → Members
    member : Text → Json → Members → Members
    field : Text → List Chr → Text → Json → Members → Members

-- Bytes that are neither quotes nor brackets.
abbrev pub is_special : ℕ → Bool
is_special c = c == b'"' || (c == b'{' || (c == b'[' || (c == b'}' || c == b']')))

abbrev pub IsPlain : Text → Type 0
IsPlain [] = Unit
IsPlain (c ∷ s) = (is_special c ≡ false) × IsPlain s

abbrev pub AreChrs : List Chr → Type 0
AreChrs [] = Unit
AreChrs (plain c ∷ cs) = ((c == b'"') ≡ false) × ((c == b'\\') ≡ false) × AreChrs cs
AreChrs (escape c ∷ cs) = AreChrs cs

abbrev pub chars : List Chr → Text → Text
chars [] s = s
chars (plain c ∷ cs) s = c ∷ chars cs s
chars (escape c ∷ cs) s = b'\\' ∷ c ∷ chars cs s

abbrev pub quoted : List Chr → Text → Text
quoted cs s = b'"' ∷ chars cs (b'"' ∷ s)

unfoldable mutual
  -- The text of a value, in front of a text.
  pub print : Json → Text → Text
  print (scalar t) s = t ++ s
  print (string cs) s = quoted cs s
  print (array ms) s = b'[' ∷ print_members ms (b']' ∷ s)
  print (object ms) s = b'{' ∷ print_members ms (b'}' ∷ s)

  pub print_members : Members → Text → Text
  print_members (last t) s = t ++ s
  print_members (member t v ms) s = t ++ print v (print_members ms s)
  print_members (field t key u v ms) s = t ++ quoted key (u ++ print v (print_members ms s))

unfoldable mutual
  pub depth : Json → ℕ
  depth (scalar t) = 0
  depth (string cs) = 0
  depth (array ms) = suc (depth_members ms)
  depth (object ms) = suc (depth_members ms)

  pub depth_members : Members → ℕ
  depth_members (last t) = 0
  depth_members (member t v ms) = max (depth v) (depth_members ms)
  depth_members (field t key u v ms) = max (depth v) (depth_members ms)

unfoldable mutual
  -- The texts in front of values hold no quotes and brackets, and strings none that end them.
  pub IsJson : Json → Type 0
  IsJson (scalar t) = IsPlain t
  IsJson (string cs) = AreChrs cs
  IsJson (array ms) = AreMembers ms
  IsJson (object ms) = AreMembers ms

  pub AreMembers : Members → Type 0
  AreMembers (last t) = IsPlain t
  AreMembers (member t v ms) = IsPlain t × IsJson v × AreMembers ms
  AreMembers (field t key u v ms) = IsPlain t × AreChrs key × IsPlain u × IsJson v × AreMembers ms

scan-plain : (t s : Text) (d : ℕ) → IsPlain t → scan (t ++ s) (outside d) ≡ scan s (outside d)
unfolding scan scan_byte
scan-plain [] s d h = refl
scan-plain (c ∷ t) s d h = ground (arith, scan-plain t s d h.1)

abbrev inside : ℕ → Scan
inside d = record { depth = d; in_string = true; escaped = false }

scan-chars :
    (cs : List Chr) (s : Text) (d : ℕ)
    → AreChrs cs
    → scan (chars cs (b'"' ∷ s)) (inside d) ≡ scan s (outside d)
unfolding scan scan_byte
scan-chars [] s d h = refl
scan-chars (plain c ∷ cs) s d h = ground (arith, scan-chars cs s d h.2)
scan-chars (escape c ∷ cs) s d h = scan-chars cs s d h

scan-quoted :
    (cs : List Chr) (s : Text) (d : ℕ)
    → AreChrs cs
    → scan (quoted cs s) (outside d) ≡ scan s (outside d)
unfolding scan scan_byte
scan-quoted cs s d h = scan-chars cs s d h

-- What is left of a scan that reaches a depth.
abbrev reaching : ℕ → Result (Unit {0}) → Result (Unit {0})
reaching n rest = if leb n max_json_nesting then rest else err too_deep

scan-open :
    (c : ℕ) (s : Text) (d : ℕ)
    → (c == b'{' || c == b'[') ≡ true
    → scan (c ∷ s) (outside d) ≡ reaching (d + 1) (scan s (outside (d + 1)))
unfolding scan scan_byte
scan-open c s d o = ground arith

scan-close :
    (c : ℕ) (s : Text) (d : ℕ)
    → (c == b'}' || c == b']') ≡ true
    → scan (c ∷ s) (outside (d + 1)) ≡ scan s (outside d)
unfolding scan scan_byte
scan-close c s d o = ground arith

-- A bracket, what is between it and its partner, and the rest.
scan-nested :
    (left right : ℕ) (inner s : Text) (d n : ℕ)
    → (left == b'{' || left == b'[') ≡ true
    → (right == b'}' || right == b']') ≡ true
    → (d + 1 ≤ max_json_nesting
        → scan inner (outside (d + 1)) ≡ reaching (d + 1 + n) (scan (right ∷ s) (outside (d + 1))))
    → scan (left ∷ inner) (outside d) ≡ reaching (d + suc n) (scan s (outside d))
scan-nested left right inner s d n o c step = elim (Bool-cases (leb (d + 1) max_json_nesting)) [
  | inl fits ↦ ground (arith, scan-open left inner d o, scan-close right s d c, step)
  | inr over ↦ ground (arith, scan-open left inner d o)
]

mutual
  unfolding print print_members depth depth_members IsJson AreMembers

  scan-print :
      (v : Json) (s : Text) (d : ℕ)
      → IsJson v
      → d ≤ max_json_nesting
      → scan (print v s) (outside d) ≡ reaching (d + depth v) (scan s (outside d))
  scan-print (scalar t) s d h fits = ground (arith, scan-plain t s d h)
  scan-print (string cs) s d h fits = ground (arith, scan-quoted cs s d h)
  scan-print (array ms) s d h fits =
      scan-nested b'[' b']' (print_members ms (b']' ∷ s)) s d (depth_members ms) refl refl
        (scan-print_members ms (b']' ∷ s) (d + 1) h)
  scan-print (object ms) s d h fits =
      scan-nested b'{' b'}' (print_members ms (b'}' ∷ s)) s d (depth_members ms) refl refl
        (scan-print_members ms (b'}' ∷ s) (d + 1) h)

  scan-print_members :
      (ms : Members) (s : Text) (d : ℕ)
      → AreMembers ms
      → d ≤ max_json_nesting
      → scan (print_members ms s) (outside d) ≡ reaching (d + depth_members ms) (scan s (outside d))
  scan-print_members (last t) s d h fits = ground (arith, scan-plain t s d h)
  scan-print_members (member t v ms) s d (plain_t, json, others) fits =
      scan-plain t (print v (print_members ms s)) d plain_t
      ∙ scan-print v (print_members ms s) d json fits
      ∙ ground (arith, scan-print_members ms s d others fits)
  scan-print_members (field t key u v ms) s d (plain_t, chrs, plain_u, json, others) fits =
      scan-plain t (quoted key (u ++ print v (print_members ms s))) d plain_t
      ∙ scan-quoted key (u ++ print v (print_members ms s)) d chrs
      ∙ scan-plain u (print v (print_members ms s)) d plain_u
      ∙ scan-print v (print_members ms s) d json fits
      ∙ ground (arith, scan-print_members ms s d others fits)

-- The text of a JSON value passes the guard exactly if the value is nested no deeper than 128,
-- whatever brackets its strings hold: the quotes and backslashes in a string are escaped, and the
-- texts between the parts hold neither quotes nor brackets.
pub ensure-print :
    (v : Json)
    → IsJson v
    → ensure_json_depth_within_limit (print v [])
      ≡ (if leb (depth v) max_json_nesting then ok tt else err too_deep)
unfolding ensure_json_depth_within_limit scan
ensure-print v h = ground (arith, scan-print v [] 0 h (omega arith))

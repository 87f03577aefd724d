-- ===== src/Patches/Text.antt =====
-- Python's `str` where scripts/generate-patches.py walks it: a text is the list of its code points.
pub mod Blank
use Prim.Native.Char.{code}
use datadog_sample_finance.Shared.{
  ℕ, suc, zero, String, ◌≡◌, refl, Bool, true, false, ◌&&◌, ◌||◌, Option, none, some, List, [], ◌∷◌,
  ◌++◌, ◌⊎◌, inl, inr, eqb, leb, if◌then◌else◌, arith,
}

abbrev pub Text : Type 0
Text = List ℕ

abbrev pub codes : String → Text
codes String.[] = []
codes (String.◌∷◌ c s) = code c ∷ codes s

-- The code point of `─`, of which the banners' rules consist.
abbrev pub dash : ℕ
dash = 9472

abbrev pub newline : ℕ
newline = b'\n'

-- What `\s` and `str.strip` take for white space.
unfoldable pub is_space : ℕ → Bool
is_space c =
    (leb 9 c && leb c 13)
    || (leb 28 c && leb c 32)
    || eqb c 133
    || eqb c 160
    || eqb c 5760
    || (leb 8192 c && leb c 8202)
    || eqb c 8232
    || eqb c 8233
    || eqb c 8239
    || eqb c 8287
    || eqb c 12288

abbrev pub is_blank : ℕ → Bool
is_blank c = eqb c b' ' || eqb c b'\t'

unfoldable pub size : Text → ℕ
size [] = 0
size (x ∷ s) = suc (size s)

unfoldable pub take : ℕ → Text → Text
take zero s = []
take (suc n) [] = []
take (suc n) (x ∷ s) = x ∷ take n s

unfoldable pub drop : ℕ → Text → Text
drop zero s = s
drop (suc n) [] = []
drop (suc n) (x ∷ s) = drop n s

-- The text behind a prefix.
unfoldable pub without_prefix : Text → Text → Option Text
without_prefix [] s = some s
without_prefix (c ∷ p) [] = none
without_prefix (c ∷ p) (x ∷ s) = let rest = without_prefix p s in if eqb c x then rest else none

abbrev pub is_some {ℓ} : {A : Type ℓ} → Option A → Bool
is_some none = false
is_some (some a) = true

-- `s.startswith(p)`
abbrev pub has_prefix : Text → Text → Bool
has_prefix p s = is_some (without_prefix p s)

-- `re.match(r"^(p1|p2|…)", s)` for literal alternatives.
unfoldable pub has_any_prefix : List Text → Text → Bool
has_any_prefix [] s = false
has_any_prefix (p ∷ ps) s = has_prefix p s || has_any_prefix ps s

-- The white space at the head of a text, and the rest.
unfoldable pub indent_of : Text → Text
indent_of [] = []
indent_of (x ∷ s) = let rest = indent_of s in if is_space x then x ∷ rest else []

unfoldable pub lstrip : Text → Text
lstrip [] = []
lstrip (x ∷ s) = let rest = lstrip s in if is_space x then rest else x ∷ s

abbrev trim_end : ℕ → Text → Text
trim_end x [] = if is_space x then [] else x ∷ []
trim_end x (y ∷ s) = x ∷ y ∷ s

unfoldable pub rstrip : Text → Text
rstrip [] = []
rstrip (x ∷ s) = trim_end x (rstrip s)

-- `s.strip()`
abbrev pub strip : Text → Text
strip s = lstrip (rstrip s)

abbrev pub is_empty : Text → Bool
is_empty [] = true
is_empty (x ∷ s) = false

-- `x` put before the first line.
abbrev pub cons_line : ℕ → List Text → List Text
cons_line x [] = (x ∷ []) ∷ []
cons_line x (l ∷ ls) = (x ∷ l) ∷ ls

-- `s.split("\n")`
unfoldable pub split_lines : Text → List Text
split_lines [] = [] ∷ []
split_lines (x ∷ s) =
    let rest = split_lines s in if eqb x newline then [] ∷ rest else cons_line x rest

-- `"\n".join(lines)`
unfoldable pub join_lines : List Text → Text
join_lines [] = []
join_lines (l ∷ []) = l
join_lines (l ∷ m ∷ ls) = l ++ newline ∷ join_lines (m ∷ ls)

split_ne_nil : (s : Text) → split_lines s ≡ [] → ⊥
unfolding split_lines
split_ne_nil [] h = cc
split_ne_nil (x ∷ s) h = ground (arith, split_ne_nil s)

lines-cases : (ls : List Text) → (ls ≡ []) ⊎ ((l : Text) × (m : List Text) × (ls ≡ l ∷ m))
lines-cases [] = inl refl
lines-cases (l ∷ ls) = inr (l, ls, refl)

join_cons_line :
    (x : ℕ) (l : Text) (ls : List Text) → join_lines ((x ∷ l) ∷ ls) ≡ x ∷ join_lines (l ∷ ls)
unfolding join_lines
join_cons_line x l [] = refl
join_cons_line x l (m ∷ ls) = refl

-- The lines of a text, joined again, are the text.
pub join-split : (s : Text) → join_lines (split_lines s) ≡ s
unfolding split_lines join_lines
join-split [] = refl
join-split (x ∷ s) = elim (lines-cases (split_lines s)) [
  | inl h ↦ elim (split_ne_nil s h) [ ]
  | inr (l, ls, h) ↦ ground (arith, h, join-split s, join_cons_line x l ls)
]

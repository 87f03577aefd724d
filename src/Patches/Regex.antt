-- ===== src/Patches/Regex.antt =====
-- Python's `re` where scripts/generate-patches.py uses it: patterns without groups, matched by
-- backtracking, and `sub`, which replaces the matches from left to right.
pub mod Spans
pub mod Sub
use datadog_sample_finance.Shared.{
  ℕ, suc, zero, Bool, true, false, ◌||◌, Option, none, some, List, [], ◌∷◌, ◌++◌, eqb,
}
use datadog_sample_finance.Patches.Text.{Text, newline, take, drop, is_some}

-- A pattern is a list of pieces, each of which is about the characters of a class.
pub data Piece : Type 0 where
  one : (ℕ → Bool) → Piece
  -- `[…]*` and `[…]*?`
  many few : (ℕ → Bool) → Piece
  -- `^` under MULTILINE, and `$` without it.
  line_start text_end : Piece

abbrev pub Pattern : Type 0
Pattern = List Piece

abbrev pub at_end : Text → Bool
at_end [] = true
at_end (x ∷ []) = eqb x newline
at_end (x ∷ y ∷ s) = false

abbrev pub longer : Option ℕ → Option ℕ
longer none = none
longer (some n) = some (suc n)

-- The longest run of the class first, then the shorter ones.
unfoldable pub greedy : (ℕ → Bool) → (ℕ → Text → Option ℕ) → ℕ → Text → Option ℕ
greedy k rest c [] = rest c []
greedy k rest c (x ∷ s) = elim (k x) [
  | true ↦ elim (greedy k rest x s) [ some n ↦ some (suc n) | none ↦ rest c (x ∷ s) ]
  | false ↦ rest c (x ∷ s)
]

-- The shortest run of the class first.
unfoldable pub lazy : (ℕ → Bool) → (ℕ → Text → Option ℕ) → ℕ → Text → Option ℕ
lazy k rest c [] = rest c []
lazy k rest c (x ∷ s) = elim (rest c (x ∷ s)) [
  | some n ↦ some n
  | none ↦ elim (k x) [ true ↦ longer (lazy k rest x s) | false ↦ none ]
]

-- `re.match`: how much of the text, which stands behind the character `c`, the pattern takes. The
-- text at the start of a subject stands behind a newline, as `^` has it.
unfoldable pub match : Pattern → ℕ → Text → Option ℕ
match [] c s = some 0
match (one k ∷ p) c [] = none
match (one k ∷ p) c (x ∷ s) = elim (k x) [ true ↦ longer (match p x s) | false ↦ none ]
match (many k ∷ p) c s = greedy k (match p) c s
match (few k ∷ p) c s = lazy k (match p) c s
match (line_start ∷ p) c s = elim (eqb c newline) [ true ↦ match p c s | false ↦ none ]
match (text_end ∷ p) c s = elim (at_end s) [ true ↦ match p c s | false ↦ none ]

-- `pattern.sub(f, s)` for a pattern that takes no empty text; `skip` characters of the text belong
-- to the match before.
unfoldable pub sub : Pattern → (Text → Text) → ℕ → ℕ → Text → Text
sub p f c skip [] = []
sub p f c (suc skip) (x ∷ s) = sub p f x skip s
sub p f c zero (x ∷ s) = elim (match p c (x ∷ s)) [
  | some (suc n) ↦ f (take (suc n) (x ∷ s)) ++ sub p f x n s
  | some zero ↦ x ∷ sub p f x zero s
  | none ↦ x ∷ sub p f x zero s
]

-- `re.sub(pattern, f, s, count=1)`, of the same patterns, each given as what it takes of a text.
unfoldable pub sub_once : (ℕ → Text → Option ℕ) → (Text → Text) → ℕ → Text → Text
sub_once takes f c [] = []
sub_once takes f c (x ∷ s) = elim (takes c (x ∷ s)) [
  | some (suc n) ↦ f (take (suc n) (x ∷ s)) ++ drop n s
  | some zero ↦ x ∷ sub_once takes f x s
  | none ↦ x ∷ sub_once takes f x s
]

-- Whether `pattern.search(s)` finds anything.
unfoldable pub found : (ℕ → Text → Option ℕ) → ℕ → Text → Bool
found takes c [] = false
found takes c (x ∷ s) = let rest = found takes x s in is_some (takes c (x ∷ s)) || rest

-- ===== src/Patches/Engine/Lines.antt =====
-- The lines of a text of scripts/generate-patches.py, split, joined and split again.
use datadog_sample_finance.Shared.{
  ℕ, ◌≡◌, refl, ap, ◌∙◌, Bool, true, false, not, ◌&&◌, some, List, [], ◌∷◌, ◌++◌, inl, inr, eqb,
  arith, Bool-cases,
}
use datadog_sample_finance.Patches.Text.{
  Text, newline, without_prefix, indent_of, lstrip, cons_line, split_lines, join_lines,
}

-- A text on one line.
unfoldable pub is_line : Text → Bool
is_line [] = true
is_line (x ∷ s) = not (eqb x newline) && is_line s

unfoldable pub are_lines : List Text → Bool
are_lines [] = true
are_lines (l ∷ ls) = is_line l && are_lines ls

cons_line_are :
    (x : ℕ) (ls : List Text)
    → eqb x newline ≡ false
    → are_lines ls ≡ true
    → are_lines (cons_line x ls) ≡ true
unfolding is_line are_lines
cons_line_are x [] e h = ground (arith, e)
cons_line_are x (l ∷ ls) e h = ground (arith, e, h)

pub split_lines_are : (s : Text) → are_lines (split_lines s) ≡ true
unfolding split_lines is_line are_lines
split_lines_are [] = refl
split_lines_are (x ∷ s) = elim (Bool-cases (eqb x newline)) [
  | inl e ↦ ground (arith, e, split_lines_are s)
  | inr e ↦ ground (arith, e, cons_line_are x (split_lines s) e (split_lines_are s))
]

split_line : (l : Text) → is_line l ≡ true → split_lines l ≡ l ∷ []
unfolding split_lines is_line
split_line [] h = refl
split_line (x ∷ l) h = ground (arith, split_line l)

split_line_more :
    (l s : Text) → is_line l ≡ true → split_lines (l ++ newline ∷ s) ≡ l ∷ split_lines s
unfolding split_lines is_line
split_line_more [] s h = refl
split_line_more (x ∷ l) s h = ground (arith, split_line_more l s)

pub split-join :
    (l : Text) (ls : List Text)
    → are_lines (l ∷ ls) ≡ true
    → split_lines (join_lines (l ∷ ls)) ≡ l ∷ ls
unfolding are_lines join_lines
split-join l [] h = split_line l (ground (arith, h))
split-join l (m ∷ ls) h =
    split_line_more l (join_lines (m ∷ ls)) (ground (arith, h))
    ∙ ap (λ t. l ∷ t) (split-join m ls (ground (arith, h)))

pub is_line-indent :
    (s t : Text) → is_line s ≡ true → is_line t ≡ true → is_line (indent_of s ++ t) ≡ true
unfolding is_line indent_of
is_line-indent [] t h i = i
is_line-indent (x ∷ s) t h i = ground (arith, is_line-indent s t)

pub is_line-lstrip : (s : Text) → is_line s ≡ true → is_line (lstrip s) ≡ true
unfolding is_line lstrip
is_line-lstrip [] h = refl
is_line-lstrip (x ∷ s) h = ground (arith, is_line-lstrip s)

pub is_line-rest :
    (p s r : Text) → is_line s ≡ true → without_prefix p s ≡ some r → is_line r ≡ true
unfolding is_line without_prefix
is_line-rest [] s r h e = ground (arith, h, e)
is_line-rest (c ∷ p) [] r h e = cc
is_line-rest (c ∷ p) (x ∷ s) r h e = ground (arith, h, e, is_line-rest p s r)

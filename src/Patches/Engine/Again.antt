-- ===== src/Patches/Engine/Again.antt =====
-- Uncommenting a banner of Python or JavaScript that has been uncommented changes nothing.
use datadog_sample_finance.Shared.{
  ℕ, ◌≡◌, refl, ap, subst, sym, ◌∙◌, Bool, true, false, Option, none, some, List, [], ◌∷◌, ◌++◌,
  ◌⊎◌, inl, inr, eqb, arith, Bool-cases, Option-cases,
}
use datadog_sample_finance.Patches.Text.{
  Text, codes, is_space, without_prefix, indent_of, lstrip, split_lines, join_lines,
}
use datadog_sample_finance.Patches.Code.{is_code_py, is_code_js}
use datadog_sample_finance.Patches.Code.Marks.{
  shows, shows-lstrip, shows-indent, is_code_py-shows, is_code_js-shows, eq_of,
}
use datadog_sample_finance.Patches.Engine.{
  comment_of, uncomment_line, kept_lines, is_rule_of, uncomment_python_block, uncomment_js_block,
}
use datadog_sample_finance.Patches.Engine.Lines.{
  is_line, are_lines, split_lines_are, split-join, is_line-indent, is_line-lstrip, is_line-rest,
}

unshown :
    (m : ℕ) (p s : Text) → is_space m ≡ false → shows m s ≡ false → without_prefix (m ∷ p) s ≡ none
unfolding shows without_prefix
unshown m p [] h e = refl
unshown m p (x ∷ s) h e = elim (Bool-cases (eqb m x)) [
  | inr j ↦ ground (arith, j)
  | inl j ↦
      let i : is_space x ≡ false = ap is_space (sym (eq_of m x j)) ∙ h in ground (arith, e, i, j)
]

-- How a line comes to be kept.
abbrev Kept : (Text → Option (Text × Text)) → (Text → Bool) → Text → Text → Type 0
Kept comment is_code l k =
    ((comment l ≡ none) × (k ≡ l))
    ⊎ ((i : Text) × (r : Text) × (comment l ≡ some (i, r)) × (is_code r ≡ true) × (k ≡ i ++ r))

pub uncomment_line-Kept :
    (is_rule : Text → Bool) (comment : Text → Option (Text × Text)) (is_code : Text → Bool)
    (l k : Text)
    → uncomment_line is_rule comment is_code l ≡ some k
    → Kept comment is_code l k
unfolding uncomment_line
uncomment_line-Kept is_rule comment is_code l k h = elim (Bool-cases (is_rule l)) [
  | inl e ↦ ground (arith, h, e)
  | inr e ↦ elim (Option-cases (comment l)) [
    | inl c ↦ inl (c, ground (arith, h, e, c))
    | inr ((i, r), c) ↦ elim (Bool-cases (is_code r)) [
      | inl d ↦ inr (i, r, c, d, ground (arith, h, e, c, d))
      | inr d ↦ ground (arith, h, e, c, d)
    ]
  ]
]

uncomment_line_plain :
    (is_rule : Text → Bool) (comment : Text → Option (Text × Text)) (is_code : Text → Bool)
    (k : Text)
    → is_rule k ≡ false
    → comment k ≡ none
    → uncomment_line is_rule comment is_code k ≡ some k
unfolding uncomment_line
uncomment_line_plain is_rule comment is_code k h e = ground (arith, h, e)

comment_of-some :
    (mark l i r : Text)
    → comment_of mark l ≡ some (i, r)
    → (i ≡ indent_of l) × (without_prefix mark (lstrip l) ≡ some r)
comment_of-some mark l i r h = elim (Option-cases (without_prefix mark (lstrip l))) [
  | inl e ↦ ground (arith, h, e)
  | inr (s, e) ↦ (ground (arith, h, e), ground (arith, h, e))
]

-- What a line becomes, in a language whose code does not look like its comments.
module _ (m : ℕ) (mark : Text) (is_code : Text → Bool) (m_shows : is_space m ≡ false)
    (code_shows : (rest : Text) → is_code rest ≡ true → shows m rest ≡ false) where
  abbrev uncomment : Text → Option Text
  uncomment = uncomment_line (is_rule_of (m ∷ mark)) (comment_of (m ∷ mark)) is_code

  uncomment_again : (l k : Text) → uncomment l ≡ some k → uncomment k ≡ some k
  uncomment_again l k h =
      elim (uncomment_line-Kept (is_rule_of (m ∷ mark)) (comment_of (m ∷ mark)) is_code l k h) [
        | inl (c, e) ↦ subst (λ t. uncomment t ≡ some k) (sym e) h
        | inr (i, r, c, d, e) ↦
            let (e', _) = comment_of-some (m ∷ mark) l i r c in
            let q : shows m k ≡ false =
              ap (shows m) (e ∙ ap (λ t. t ++ r) e') ∙ shows-indent m l r ∙ code_shows r d in
            let q' : shows m (lstrip k) ≡ false = shows-lstrip m k ∙ q in
            uncomment_line_plain (is_rule_of (m ∷ mark)) (comment_of (m ∷ mark)) is_code k
              (ground (
                arith,
                unshown m (mark ++ codes "── DATADOG") k m_shows q,
                unshown m (mark ++ codes "─────") k m_shows q,
              ))
              (ground (arith, unshown m mark (lstrip k) m_shows q'))
      ]

  is_line-uncomment : (l k : Text) → is_line l ≡ true → uncomment l ≡ some k → is_line k ≡ true
  is_line-uncomment l k g h =
      elim (uncomment_line-Kept (is_rule_of (m ∷ mark)) (comment_of (m ∷ mark)) is_code l k h) [
        | inl (c, e) ↦ ap is_line e ∙ g
        | inr (i, r, c, d, e) ↦
            let (e', f) = comment_of-some (m ∷ mark) l i r c in
            ap is_line (e ∙ ap (λ t. t ++ r) e')
            ∙ is_line-indent l r g (is_line-rest (m ∷ mark) (lstrip l) r (is_line-lstrip l g) f)
      ]

  kept_again :
      (ls : List Text) → kept_lines uncomment (kept_lines uncomment ls) ≡ kept_lines uncomment ls
  unfolding kept_lines
  kept_again [] = refl
  kept_again (l ∷ ls) = elim (Option-cases (uncomment l)) [
    | inl e ↦ ground (arith, e, kept_again ls)
    | inr (k, e) ↦ ground (arith, e, uncomment_again l k e, kept_again ls)
  ]

  kept_are_lines :
      (ls : List Text) → are_lines ls ≡ true → are_lines (kept_lines uncomment ls) ≡ true
  unfolding kept_lines are_lines
  kept_are_lines [] h = refl
  kept_are_lines (l ∷ ls) h = elim (Option-cases (uncomment l)) [
    | inl e ↦ ground (arith, h, e, kept_are_lines ls)
    | inr (k, e) ↦ ground (arith, h, e, is_line-uncomment l k, kept_are_lines ls)
  ]

  uncomment_empty : kept_lines uncomment (split_lines []) ≡ [] ∷ []
  unfolding kept_lines uncomment_line without_prefix lstrip split_lines
  uncomment_empty = refl

  joined_again :
      (ls : List Text)
      → are_lines ls ≡ true
      → kept_lines uncomment ls ≡ ls
      → join_lines (kept_lines uncomment (split_lines (join_lines ls))) ≡ join_lines ls
  unfolding join_lines
  joined_again [] h e = ap join_lines uncomment_empty
  joined_again (l ∷ ls) h e =
      ap (λ t. join_lines (kept_lines uncomment t)) (split-join l ls h) ∙ ap join_lines e

  block_again :
      (b : Text)
      → (let c = join_lines (kept_lines uncomment (split_lines b)) in
          join_lines (kept_lines uncomment (split_lines c)) ≡ c)
  block_again b =
      joined_again (kept_lines uncomment (split_lines b))
        (kept_are_lines (split_lines b) (split_lines_are b)) (kept_again (split_lines b))

is_space-hash : is_space b'#' ≡ false
unfolding is_space
is_space-hash = refl

is_space-slash : is_space b'/' ≡ false
unfolding is_space
is_space-slash = refl

-- A block of Python or JavaScript that has been uncommented once is not changed by a second pass:
-- nothing that was kept as code is taken for a comment or a rule, and no line is torn.
pub uncomment_block_idempotent :
    (b : Text)
    → (uncomment_python_block (uncomment_python_block b) ≡ uncomment_python_block b)
      × (uncomment_js_block (uncomment_js_block b) ≡ uncomment_js_block b)
unfolding uncomment_python_block uncomment_js_block
uncomment_block_idempotent b = (
  block_again b'#' (codes " ") is_code_py is_space-hash is_code_py-shows b,
  block_again b'/' (codes "/ ") is_code_js is_space-slash is_code_js-shows b,
)

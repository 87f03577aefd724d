-- ===== src/Patches/Engine/Blocks.antt =====
-- What of a file process_python, process_js and process_go of scripts/generate-patches.py replace.
use datadog_sample_finance.Shared.{
  ℕ, ◌≡◌, refl, ap, subst, sym, ◌∙◌, true, [], ◌∷◌, ◌++◌, eqb, arith,
}
use datadog_sample_finance.Patches.Text.{Text, codes, newline, dash, is_blank, drop}
use datadog_sample_finance.Patches.Regex.{many, line_start, sub}
use datadog_sample_finance.Patches.Regex.Spans.{Spans, at_line}
use datadog_sample_finance.Patches.Regex.Sub.{last_of}
use datadog_sample_finance.Patches.Code.{literal}
use datadog_sample_finance.Patches.Engine.{
  rule_line, banner_go, uncomment_python_block, uncomment_js_block, uncomment_go_block,
  process_python, process_js, process_go,
}
use datadog_sample_finance.Patches.Engine.Pieces.{
  all_of, literal_span, many_span, line_span, rule_span, many_span_of, literal_span_of,
  rule_span_of,
}
use datadog_sample_finance.Patches.Engine.Banners.{Closer, Uncommented, sub-Uncommented}

-- A rule of five dashes or more behind its mark, to the end of the line.
abbrev pub IsRule : Text → Closer
IsRule mark c v =
    (rest : Text) × (v ≡ mark ++ (codes "─────" ++ (rest ++ newline ∷ [])))
    × (all_of (eqb dash) rest ≡ true)

mark_closes :
    (mark : Text) (c : ℕ) (b s : Text) → Spans (literal mark ++ rule_line) c b s → IsRule mark c b
mark_closes mark c b s h =
    let (w, e1, g) = literal_span mark rule_line c b s h in
    let (rest, dashes, e2) = rule_span _ w s g in (rest, e1 ∙ ap (λ z. mark ++ z) e2, dashes)

mark_spans :
    (mark : Text) (c : ℕ) (b s : Text) → IsRule mark c b → Spans (literal mark ++ rule_line) c b s
mark_spans mark c b s (rest, e, dashes) =
    subst (λ z. Spans (literal mark ++ rule_line) c z s) (sym e)
      (literal_span_of mark rule_line c (codes "─────" ++ (rest ++ newline ∷ [])) s
        (rule_span_of _ rest s dashes))

-- A rule that has its line to itself, but for blanks before its mark.
abbrev pub IsRuleLine : Closer
IsRuleLine c v =
    (c ≡ newline)
    × ((indent w : Text) × (v ≡ indent ++ w)
        × (all_of is_blank indent ≡ true)
        × IsRule (codes "// ") c w)

line_closes :
    (c : ℕ) (b s : Text)
    → Spans (line_start ∷ many is_blank ∷ literal (codes "// ") ++ rule_line) c b s
    → IsRuleLine c b
line_closes c b s h =
    let (at, g) = line_span c b s h in
    let (indent, w, e, blank, g') = many_span c b s g in
    (at, (indent, w, e, blank, mark_closes (codes "// ") _ w s g'))

line_spans :
    (c : ℕ) (b s : Text)
    → IsRuleLine c b
    → Spans (line_start ∷ many is_blank ∷ literal (codes "// ") ++ rule_line) c b s
line_spans c b s (at, (indent, w, e, blank, closed)) = at_line (ground (arith, at)) (
    subst (λ z. Spans (many is_blank ∷ literal (codes "// ") ++ rule_line) c z s) (sym e)
      (many_span_of c indent w s blank (mark_spans (codes "// ") _ w s closed)))

py_space : (c : ℕ) → last_of c (codes "# ── DATADOG ") ≡ b' '
unfolding last_of
py_space c = refl

js_space : (c : ℕ) → last_of c (codes "// ── DATADOG ") ≡ b' '
unfolding last_of
js_space c = refl

go_space : (c : ℕ) → last_of c (codes "\t// ── DATADOG ") ≡ b' '
unfolding last_of
go_space c = refl

-- What the Python, JavaScript and Go files become. From left to right, each banner, from its opener
-- to the first closer behind it, is replaced by its uncommented block, and everything else is copied.
-- A closer is a rule of five dashes or more behind the comment's mark, to the end of a line; in
-- JavaScript it has its line to itself, so that a rule nested in a comment closes nothing. A Go file
-- is rewritten twice, for the banners with and without a tab.
pub process-Uncommented :
    (content : Text)
    → Uncommented
        (codes "# ── DATADOG ")
        (IsRule (codes "# "))
        uncomment_python_block
        content
        (process_python content)
      × Uncommented
          (codes "// ── DATADOG ")
          IsRuleLine
          uncomment_js_block
          content
          (process_js content)
      × ((once : Text) × Uncommented
            (codes "\t// ── DATADOG ")
            (IsRule (codes "\t// "))
            uncomment_go_block
            content
            once
          × Uncommented
              (codes "// ── DATADOG ")
              (IsRule (codes "// "))
              uncomment_go_block
              once
              (process_go content))
unfolding process_python process_js process_go drop
process-Uncommented content = (
  sub-Uncommented _ _ (literal (codes "# ") ++ rule_line) (IsRule (codes "# "))
      (mark_closes (codes "# ")) (mark_spans (codes "# ")) py_space uncomment_python_block newline 0
      content,
  sub-Uncommented _ _ (line_start ∷ many is_blank ∷ literal (codes "// ") ++ rule_line) IsRuleLine
      line_closes line_spans js_space uncomment_js_block newline 0 content,
  (
    sub banner_go uncomment_go_block newline 0 content,
    sub-Uncommented _ _ (literal (codes "\t// ") ++ rule_line) (IsRule (codes "\t// "))
        (mark_closes (codes "\t// ")) (mark_spans (codes "\t// ")) go_space uncomment_go_block
        newline 0 content,
    sub-Uncommented _ _ (literal (codes "// ") ++ rule_line) (IsRule (codes "// "))
        (mark_closes (codes "// ")) (mark_spans (codes "// ")) js_space uncomment_go_block newline 0
        (sub banner_go uncomment_go_block newline 0 content),
  ),
)

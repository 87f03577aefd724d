-- ===== src/Patches/Engine.antt =====
-- scripts/generate-patches.py, the uncomment engine: the banners of the four languages, what is kept
-- of a banner's lines, and the rewriting of a file.
pub mod Lines
pub mod Again
pub mod Pieces
pub mod Banners
pub mod Blocks
use datadog_sample_finance.Shared.{
  ℕ, Bool, true, ◌||◌, Option, none, some, List, [], ◌∷◌, ◌++◌, eqb, if◌then◌else◌,
}
use datadog_sample_finance.Patches.Text.{
  Text, codes, dash, newline, is_blank, has_prefix, without_prefix, indent_of, lstrip, split_lines,
  join_lines,
}
use datadog_sample_finance.Patches.Code.{literal, is_code_py, is_code_js, is_code_go, is_code_java}
use datadog_sample_finance.Patches.Regex.{one, many, few, line_start, Pattern, sub}

-- `─{5,}\n`
abbrev pub rule_line : Pattern
rule_line =
    one (eqb dash)
    ∷ one (eqb dash)
    ∷ one (eqb dash)
    ∷ one (eqb dash)
    ∷ one (eqb dash)
    ∷ many (eqb dash)
    ∷ one (eqb newline)
    ∷ []

-- `.` under DOTALL
abbrev pub any : ℕ → Bool
any c = true

abbrev pub banner_py : Pattern
banner_py = literal (codes "# ── DATADOG ") ++ few any ∷ literal (codes "# ") ++ rule_line

abbrev pub banner_js : Pattern
banner_js =
    literal (codes "// ── DATADOG ")
    ++ few any ∷ line_start ∷ many is_blank ∷ literal (codes "// ")
    ++ rule_line

abbrev pub banner_go : Pattern
banner_go = literal (codes "\t// ── DATADOG ") ++ few any ∷ literal (codes "\t// ") ++ rule_line

abbrev pub banner_go_notab : Pattern
banner_go_notab = literal (codes "// ── DATADOG ") ++ few any ∷ literal (codes "// ") ++ rule_line

abbrev pub banner_java : Pattern
banner_java =
    many is_blank ∷ literal (codes "// ── DATADOG ")
    ++ few any ∷ many is_blank ∷ literal (codes "// ")
    ++ rule_line

-- `^(\s*)# (.*)$`, of a line: the indentation and what stands behind the mark.
abbrev pub comment_of : Text → Text → Option (Text × Text)
comment_of mark line = elim (without_prefix mark (lstrip line)) [
  | none ↦ none
  | some rest ↦ some (indent_of line, rest)
]

-- A line of a banner: dropped, freed of its mark, or kept.
unfoldable pub uncomment_line :
    (Text → Bool) → (Text → Option (Text × Text)) → (Text → Bool) → Text → Option Text
uncomment_line is_rule comment is_code line = if is_rule line then none else elim (comment line) [
  | none ↦ some line
  | some (indent, rest) ↦ if is_code rest then some (indent ++ rest) else none
]

unfoldable pub kept_lines : (Text → Option Text) → List Text → List Text
kept_lines f [] = []
kept_lines f (l ∷ ls) = let rest = kept_lines f ls in elim (f l) [ none ↦ rest | some k ↦ k ∷ rest ]

abbrev pub is_rule_of : Text → Text → Bool
is_rule_of mark line =
    has_prefix (mark ++ codes "── DATADOG") line || has_prefix (mark ++ codes "─────") line

abbrev pub uncomment_python_line : Text → Option Text
uncomment_python_line =
    uncomment_line (is_rule_of (codes "# ")) (comment_of (codes "# ")) is_code_py

unfoldable pub uncomment_python_block : Text → Text
uncomment_python_block block = join_lines (kept_lines uncomment_python_line (split_lines block))

unfoldable pub process_python : Text → Text
process_python content = sub banner_py uncomment_python_block newline 0 content

abbrev pub uncomment_js_line : Text → Option Text
uncomment_js_line = uncomment_line (is_rule_of (codes "// ")) (comment_of (codes "// ")) is_code_js

unfoldable pub uncomment_js_block : Text → Text
uncomment_js_block block = join_lines (kept_lines uncomment_js_line (split_lines block))

unfoldable pub process_js : Text → Text
process_js content = sub banner_js uncomment_js_block newline 0 content

-- `^(\s*)//([ \t])(.*)$`: a tab behind the mark is part of what stands there.
abbrev rest_of_go : Text → Text → Option (Text × Text)
rest_of_go indent [] = none
rest_of_go indent (x ∷ s) =
    if eqb x b'\t' then some (indent, x ∷ s) else if eqb x b' ' then some (indent, s) else none

abbrev pub comment_of_go : Text → Option (Text × Text)
comment_of_go line = elim (without_prefix (codes "//") (lstrip line)) [
  | none ↦ none
  | some s ↦ rest_of_go (indent_of line) s
]

abbrev pub uncomment_go_line : Text → Option Text
uncomment_go_line =
    uncomment_line (λ line. is_rule_of (codes "// ") (lstrip line)) comment_of_go is_code_go

unfoldable pub uncomment_go_block : Text → Text
uncomment_go_block block = join_lines (kept_lines uncomment_go_line (split_lines block))

unfoldable pub process_go : Text → Text
process_go content =
    sub banner_go_notab uncomment_go_block newline 0
      (sub banner_go uncomment_go_block newline 0 content)

abbrev pub uncomment_java_line : Text → Option Text
uncomment_java_line =
    uncomment_line (λ line. is_rule_of (codes "// ") (lstrip line)) (comment_of (codes "// "))
      is_code_java

unfoldable pub uncomment_java_block : Text → Text
uncomment_java_block block = join_lines (kept_lines uncomment_java_line (split_lines block))

unfoldable pub process_java : Text → Text
process_java content = sub banner_java uncomment_java_block newline 0 content

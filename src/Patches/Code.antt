-- ===== src/Patches/Code.antt =====
-- scripts/generate-patches.py, the uncomment engine: what a comment inside a banner must hold to be
-- taken for code, in each of the four languages.
pub mod Marks
use datadog_sample_finance.Shared.{
  ℕ, Bool, false, ◌&&◌, ◌||◌, none, some, List, [], ◌∷◌, ◌++◌, eqb, leb, not, if◌then◌else◌,
}
use datadog_sample_finance.Patches.Text.{
  Text, codes, newline, is_space, is_blank, is_some, is_empty, has_prefix, has_any_prefix,
  without_prefix, strip,
}
use datadog_sample_finance.Patches.Regex.{one, many, text_end, Pattern, match}

abbrev pub literal : Text → Pattern
literal [] = []
literal (c ∷ s) = one (eqb c) ∷ literal s

abbrev pub is_lower : ℕ → Bool
is_lower c = leb b'a' c && leb c b'z'

abbrev pub is_upper : ℕ → Bool
is_upper c = leb b'A' c && leb c b'Z'

-- `[a-zA-Z_]`
abbrev pub is_word : ℕ → Bool
is_word c = is_lower c || is_upper c || eqb c b'_'

-- `[a-zA-Z0-9_.]`
abbrev pub is_name : ℕ → Bool
is_name c = is_word c || (leb b'0' c && leb c b'9') || eqb c b'.'

abbrev pub is_quote : ℕ → Bool
is_quote c = eqb c b'\'' || eqb c b'"'

-- `re.match(p, s)`, as a test.
abbrev pub matches : Pattern → Text → Bool
matches p s = is_some (match p newline s)

-- `s == p`
abbrev pub same : Text → Text → Bool
same p s = elim (without_prefix p s) [ none ↦ false | some rest ↦ is_empty rest ]

-- `^[a-zA-Z_][a-zA-Z0-9_.]*\(\s*$`
abbrev pub call_line_py : Pattern
call_line_py = one is_word ∷ many is_name ∷ one (eqb b'(') ∷ many is_space ∷ text_end ∷ []

-- `^    [a-z_]+[\.\(=,\s]`
abbrev pub argument_py : Pattern
argument_py =
    literal (codes "    ")
    ++ one (λ c. is_lower c || eqb c b'_')
      ∷ many (λ c. is_lower c || eqb c b'_')
      ∷ one (λ c. eqb c b'.' || eqb c b'(' || eqb c b'=' || eqb c b',' || is_space c)
      ∷ []

-- What a comment of a Python banner must hold to be taken for code.
abbrev pub keywords_py : List Text
keywords_py =
    codes "import "
    ∷ codes "from "
    ∷ codes "with "
    ∷ codes "if "
    ∷ codes "patch_"
    ∷ codes "patch_all"
    ∷ codes "tracer."
    ∷ codes "statsd."
    ∷ codes "initialize"
    ∷ codes "ddtrace"
    ∷ []

unfoldable pub is_code_py : Text → Bool
is_code_py rest =
    let stripped = strip rest in
    has_any_prefix keywords_py rest
    || matches call_line_py stripped
    || has_prefix (codes ")") stripped
    || has_prefix (codes "}") stripped
    || has_prefix (codes "\"") stripped
    || has_prefix (codes "f'") stripped
    || has_prefix (codes "f\"") stripped
    || has_prefix (codes "],") stripped
    || same (codes "]") stripped
    || (has_prefix (codes "    ") rest && matches argument_py rest)

-- `^[a-zA-Z_$][a-zA-Z0-9_$.]*\(`
abbrev pub call_js : Pattern
call_js =
    one (λ c. is_word c || eqb c b'$') ∷ many (λ c. is_name c || eqb c b'$') ∷ one (eqb b'(') ∷ []

-- `^['\"][^'\"]*['\"]\s*:`
abbrev pub property_js : Pattern
property_js =
    one is_quote ∷ many (λ c. not (is_quote c)) ∷ one is_quote ∷ many is_space ∷ one (eqb b':') ∷ []

-- `^  [a-z]+[A-Z:]`
abbrev pub key_js : Pattern
key_js =
    literal (codes "  ") ++ one is_lower ∷ many is_lower ∷ one (λ c. is_upper c || eqb c b':') ∷ []

abbrev pub keywords_js : List Text
keywords_js =
    codes "const "
    ∷ codes "'use strict'"
    ∷ codes "require("
    ∷ codes "tracer."
    ∷ codes "logger."
    ∷ codes "logInjection"
    ∷ codes "runtimeMetrics"
    ∷ codes "profiling"
    ∷ []

unfoldable pub is_code_js : Text → Bool
is_code_js rest =
    let stripped = strip rest in
    has_any_prefix keywords_js rest
    || matches call_js stripped
    || matches property_js stripped
    || has_prefix (codes "}") stripped
    || has_prefix (codes ")") stripped
    || same (codes "});") stripped
    || same (codes ");") stripped
    || (has_prefix (codes "  ") rest && matches key_js rest)

-- `^[ \t]*(p1|p2|…)`, whose alternatives begin with no blank.
unfoldable pub lstrip_blanks : Text → Text
lstrip_blanks [] = []
lstrip_blanks (x ∷ s) = let rest = lstrip_blanks s in if is_blank x then rest else x ∷ s

abbrev pub has_any_prefix_after_blanks : List Text → Text → Bool
has_any_prefix_after_blanks ps rest = has_any_prefix ps (lstrip_blanks rest)

unfoldable pub is_code_go : Text → Bool
is_code_go rest =
    let stripped = strip rest in
    has_any_prefix
      (codes "\t"
        ∷ codes "\"go."
        ∷ codes "import"
        ∷ codes "tracer."
        ∷ codes "profiler."
        ∷ codes "if "
        ∷ codes "defer "
        ∷ codes "edgesMap"
        ∷ codes "ctx "
        ∷ codes "_ ="
        ∷ codes "datastreams"
        ∷ codes "options."
        ∷ codes "statsd"
        ∷ [])
      rest
    || has_any_prefix_after_blanks
        (codes "tracer."
          ∷ codes "profiler."
          ∷ codes "datastreams."
          ∷ codes "options."
          ∷ codes "statsd"
          ∷ codes "edgesMap"
          ∷ codes "\"go."
          ∷ codes "[]string"
          ∷ [])
        rest
    || has_prefix (codes "\"") stripped
    || has_prefix (codes ")") stripped
    || has_prefix (codes "}") stripped
    || has_prefix (codes "[]") stripped
    || has_prefix (codes "context.") stripped

abbrev pub keywords_java : List Text
keywords_java =
    codes "import "
    ∷ codes "Tracer "
    ∷ codes "Span "
    ∷ codes "tracer."
    ∷ codes "span."
    ∷ codes "if "
    ∷ codes "statsd"
    ∷ codes "StatsDClient"
    ∷ codes "NonBlocking"
    ∷ codes "compileOnly "
    ∷ codes "implementation "
    ∷ codes "    "
    ∷ codes "}"
    ∷ codes ")"
    ∷ []

unfoldable pub is_code_java : Text → Bool
is_code_java rest =
    let stripped = strip rest in
    has_any_prefix keywords_java rest
    || has_prefix (codes "\"") stripped
    || has_prefix (codes ")") stripped
    || has_prefix (codes "}") stripped

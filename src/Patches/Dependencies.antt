-- ===== src/Patches/Dependencies.antt =====
-- scripts/generate-patches.py, what is changed in the files that list dependencies.
pub mod Laws
use datadog_sample_finance.Shared.{
  ℕ, Option, none, some, [], ◌∷◌, ◌++◌, List, not, ◌==◌, ◌+◌, if◌then◌else◌,
}
use datadog_sample_finance.Shared.Json.{
  Json, null, bool, num, big, str, arr, obj, nil, cons, end, field, Fields, get_or, assign, update,
}
use datadog_sample_finance.Python.{Result, ok, raised, type_error, value_error, attribute_error}
use datadog_sample_finance.Patches.Text.{
  Text, codes, newline, is_space, size, without_prefix, split_lines, has_prefix, drop,
}
use datadog_sample_finance.Patches.Regex.{Pattern, one, many, line_start, sub, sub_once}
use datadog_sample_finance.Patches.Code.{literal}

-- `re.sub(r"^# (…)", r"\1", s, flags=re.MULTILINE)` for a package: its line loses `# `.
abbrev pub commented_package : Text → Pattern
commented_package name =
    line_start ∷ literal (codes "# " ++ name)
    ++ one (λ c. not (is_space c)) ∷ many (λ c. not (is_space c)) ∷ []

unfoldable pub uncomment_package : Text → Text → Text
uncomment_package name content = sub (commented_package name) (drop 2) newline 0 content

-- `deps = {"dd-trace": "^5.0.0"}; deps.update(…)`. A list of pairs, which `update` takes too, is left
-- out.
abbrev pub updated_by : Fields → Json → Result Fields
updated_by deps (obj d) = ok (update deps d)
updated_by deps (arr nil) = ok deps
updated_by deps (arr (cons x xs)) = raised value_error
updated_by deps (str s) = if s == "" then ok deps else raised value_error
updated_by deps null = raised type_error
updated_by deps (bool b) = raised type_error
updated_by deps (num x) = raised type_error
updated_by deps (big n) = raised type_error

unfoldable pub add_dd_trace : Json → Result Json
add_dd_trace (obj pkg) =
    elim (updated_by (field "dd-trace" (str "^5.0.0") end) (get_or "dependencies" pkg (obj end))) [
      | ok deps ↦ ok (obj (assign "dependencies" (obj deps) pkg))
      | raised e ↦ raised e
    ]
add_dd_trace pkg = raised attribute_error

-- `// require \(\n(?://[^\n]*\n)*// \)`: the lines are taken greedily, up to the last that the closer
-- can follow.
unfoldable pub closer_in : List Text → Option ℕ
closer_in [] = none
closer_in (l ∷ ls) =
    let rest = closer_in ls in
    let here = if has_prefix (codes "// )") l then some 4 else none in
    if has_prefix (codes "//") l
    then elim rest [ none ↦ here | some n ↦ some (size l + 1 + n) ]
    else here

abbrev pub require_opener : Text
require_opener = codes "// require (\n"

abbrev pub commented_require : ℕ → Text → Option ℕ
commented_require c s = elim (without_prefix require_opener s) [
  | none ↦ none
  | some rest ↦ elim (closer_in (split_lines rest)) [
    | none ↦ none
    | some n ↦ some (size require_opener + n)
  ]
]

abbrev pub uncommented_block : Text
uncommented_block =
    codes
      "require (\n\tgithub.com/DataDog/dd-trace-go/v2 v2.0.0\n\tgithub.com/DataDog/datadog-go/v5 v5.5.0\n)"

unfoldable pub uncomment_require : Text → Text
uncomment_require content = sub_once commented_require (λ _. uncommented_block) newline content

abbrev pub agent_lines : Text
agent_lines =
    codes
      "# ADD https://dtdg.co/latest-java-tracer /dd-java-agent.jar\n# RUN chmod 444 /dd-java-agent.jar"

unfoldable pub add_agent : Text → Text
add_agent content =
    sub (literal agent_lines)
      (λ _.
        codes
          "ADD https://dtdg.co/latest-java-tracer /dd-java-agent.jar\nRUN chmod 444 /dd-java-agent.jar")
      newline 0 content

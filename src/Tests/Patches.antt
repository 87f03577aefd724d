-- ===== src/Tests/Patches.antt =====
-- The patch generator at concrete texts.
use datadog_sample_finance.Shared.{
  String, none, some, Bool, true, ◌≡◌, ◌≢◌, refl, if◌then◌else◌, ◌++◌, ◌∷◌, [], ◌==◌,
  String-discrete,
}
use datadog_sample_finance.Shared.Json.{
  Json, obj, str, Fields, end, field, get, get_or, assign, update,
}
use datadog_sample_finance.Shared.Dict.{lookup}
use datadog_sample_finance.Python.{ok}
use datadog_sample_finance.Patches.Text.{
  Text, codes, newline, is_space, has_any_prefix, without_prefix, indent_of, lstrip, rstrip,
  split_lines, join_lines, take, drop,
}
use datadog_sample_finance.Patches.Regex.{match, sub, greedy, lazy}
use datadog_sample_finance.Patches.Code.{is_code_py}
use datadog_sample_finance.Patches.Engine.{
  uncomment_line, kept_lines, uncomment_python_block, uncomment_js_block, uncomment_go_block,
  process_python, process_js, process_go,
}
use datadog_sample_finance.Patches.Engine.Lines.{is_line}
use datadog_sample_finance.Patches.Engine.Again.{uncomment_block_idempotent}
use datadog_sample_finance.Patches.Engine.Banners.{Uncommented}
use datadog_sample_finance.Patches.Engine.Blocks.{IsRule, IsRuleLine, process-Uncommented}
use datadog_sample_finance.Patches.Files.{Tools, World, relabel, header_for}
use datadog_sample_finance.Patches.Files.Headers.{relabel_hunks}
use datadog_sample_finance.Patches.Dependencies.{add_dd_trace}
use datadog_sample_finance.Patches.Dependencies.Laws.{unique, add_dd_trace_lem}
use datadog_sample_finance.Patches.Services.{main}
use datadog_sample_finance.Patches.Services.Steps.{Checkout}
use datadog_sample_finance.Patches.Services.Expected.{expected}
use datadog_sample_finance.Patches.Services.Main.{main-expected}

abbrev banner : Text
banner =
    codes
      "    # ── DATADOG INSTRUMENTATION ───────\n    # Prose here.\n    # import ddtrace\n    # if high:\n    #     span.error(1)\n    #         span.error = 1\n    # ───────\n"

-- The lines of a banner are uncommented, but not those that are indented by more than four spaces.
process_python-banner :
    process_python (codes "import os\n" ++ banner ++ codes "# ─── other\n")
    ≡ codes "import os\n        import ddtrace\n    if high:\n        span.error(1)\n# ─── other\n"
unfolding process_python sub match greedy lazy uncomment_python_block kept_lines uncomment_line
    is_code_py has_any_prefix without_prefix indent_of lstrip rstrip is_space split_lines join_lines
    take drop
process_python-banner = refl

-- The end of the span banner of fraud-detection/listener.py: the `if` loses its body.
process_python_listener :
    uncomment_python_block (
      codes
        "        #     if result[\"bucket\"] == \"high\":\n        #         span.error = 1\n        #         span.set_tag(\"error.message\", \"High-risk transaction flagged\")\n        # ─────\n\n        logger.info(\n")
    ≡ codes "            if result[\"bucket\"] == \"high\":\n\n        logger.info(\n"
unfolding match greedy lazy uncomment_python_block kept_lines uncomment_line is_code_py
    has_any_prefix without_prefix indent_of lstrip rstrip is_space split_lines join_lines
process_python_listener = refl

uncomment_block_idempotent_example :
    (uncomment_python_block (uncomment_python_block banner) ≡ uncomment_python_block banner)
    × (uncomment_js_block (uncomment_js_block banner) ≡ uncomment_js_block banner)
uncomment_block_idempotent_example = uncomment_block_idempotent banner

process-Uncommented_example :
    Uncommented
      (codes "# ── DATADOG ")
      (IsRule (codes "# "))
      uncomment_python_block
      banner
      (process_python banner)
    × Uncommented (codes "// ── DATADOG ") IsRuleLine uncomment_js_block banner (process_js banner)
    × ((once : Text) × Uncommented
          (codes "\t// ── DATADOG ")
          (IsRule (codes "\t// "))
          uncomment_go_block
          banner
          once
        × Uncommented
            (codes "// ── DATADOG ")
            (IsRule (codes "// "))
            uncomment_go_block
            once
            (process_go banner))
process-Uncommented_example = process-Uncommented banner

abbrev hunks : Text
hunks = codes "@@ -1 +1 @@\n--- a comment\n+++ a comment\n"

relabel_hunks_example :
    relabel "a/b.py" (
      (codes "---" ++ b' ' ∷ [])
      ++ (codes "/x/a/b.py"
          ++ newline ∷ ((codes "+++" ++ b' ' ∷ []) ++ (codes "/tmp/b.py" ++ newline ∷ hunks))))
    ≡ header_for (codes "---") (codes "a/") "a/b.py"
      ++ (header_for (codes "+++") (codes "b/") "a/b.py" ++ hunks)
unfolding is_line
relabel_hunks_example =
    relabel_hunks "a/b.py" (codes "/x/a/b.py") (codes "/tmp/b.py") hunks refl refl refl

abbrev dependencies : Fields
dependencies = field "express" (str "^4.18.0") (field "dd-trace" (str "^4.0.0") end)

abbrev package_json : Fields
package_json =
    field "name" (str "transaction-service") (field "dependencies" (obj dependencies) end)

package_json_get : get "dependencies" package_json ≡ some (obj dependencies)
unfolding get String-discrete
package_json_get = refl

unique-dependencies : unique dependencies ≡ true
unfolding unique get String-discrete
unique-dependencies = refl

add_dd_trace_lem_example :
    (pkg_patched deps_patched : Fields) × (add_dd_trace (obj package_json) ≡ ok (obj pkg_patched))
    × ((key : String) → key ≢ "dependencies" → get key pkg_patched ≡ get key package_json)
    × (get "dependencies" pkg_patched ≡ some (obj deps_patched))
    × ((name : String)
        → get name deps_patched ≡ elim (get name dependencies) [
          | some v ↦ some v
          | none ↦ if name == "dd-trace" then some (str "^5.0.0") else none
        ])
add_dd_trace_lem_example =
    add_dd_trace_lem package_json dependencies package_json_get unique-dependencies

-- Every file holds one line, every difference is the patched text under two headers.
abbrev tools : Tools
tools = record {
  files = λ path. some (codes "# ddtrace==2.0.0\n");
  diff = λ original patched. record { returncode = 1; stdout = codes "--- x\n+++ y\n" ++ patched };
  dry_run_patch = λ patch. record { returncode = 0; stdout = [] };
  loads = λ text. some (obj end);
  dumps = λ v. codes "{}";
}

abbrev checkout : Checkout tools (λ path. codes "# ddtrace==2.0.0\n")
checkout = record {
  gateway_main = refl;
  gateway_requirements = refl;
  fraud_main = refl;
  fraud_listener = refl;
  fraud_requirements = refl;
  index_js = refl;
  ledger_js = refl;
  payments_js = refl;
  producer_js = refl;
  package_json = refl;
  main_go = refl;
  go_mod = refl;
  listener_java = refl;
  build_gradle = refl;
  dockerfile = refl;
}

abbrev pkg_patched : Json
pkg_patched = obj (field "dependencies" (obj (field "dd-trace" (str "^5.0.0") end)) end)

empty_json : add_dd_trace (obj end) ≡ ok pkg_patched
unfolding add_dd_trace get_or get assign update
empty_json = refl

abbrev stale : World
stale = record {
  patches = ("gateway-api", codes "stale") ∷ ("other", codes "kept") ∷ [];
  printed = [];
}

main-expected_example :
    ((fits : Bool) × ((main tools stale).0 ≡ ok fits))
    × ((name : String)
        → lookup name (main tools stale).1.patches
          ≡ expected tools
              (λ path. codes "# ddtrace==2.0.0\n")
              pkg_patched
              name
              (lookup name stale.patches))
main-expected_example =
    main-expected tools (λ path. codes "# ddtrace==2.0.0\n") checkout (obj end) pkg_patched refl
      empty_json stale

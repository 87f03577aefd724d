-- ===== src/Patches/Dependencies/Laws.antt =====
-- What adding dd-trace to package.json keeps.
use datadog_sample_finance.Shared.{
  String, ◌≡◌, refl, Bool, true, none, some, not, ◌&&◌, if◌then◌else◌, ◌==◌, ◌≢◌, arith,
}
use datadog_sample_finance.Shared.Json.{
  str, obj, Fields, end, field, get, get_or, assign, update, get-assign,
}
use datadog_sample_finance.Python.{ok}
use datadog_sample_finance.Patches.Text.{is_some}
use datadog_sample_finance.Patches.Dependencies.{add_dd_trace}

-- No key stands twice, as in every dict.
unfoldable pub unique : Fields → Bool
unique end = true
unique (field k v rest) = not (is_some (get k rest)) && unique rest

get-update :
    (j : String) (d e : Fields)
    → unique e ≡ true
    → get j (update d e) ≡ elim (get j e) [ none ↦ get j d | some v ↦ some v ]
unfolding get update unique
get-update j d end h = refl
get-update j d (field k v rest) h =
    ground (arith, h, get-update j (assign k v d) rest, get-assign j k v d)

-- Adding dd-trace to a package.json whose dependencies are a dict succeeds. Every other key of the
-- document keeps its value, every dependency keeps its version, dd-trace itself included when it is
-- already there; a missing dd-trace is added.
pub add_dd_trace_lem :
    (pkg deps : Fields)
    → get "dependencies" pkg ≡ some (obj deps)
    → unique deps ≡ true
    → (pkg_patched deps_patched : Fields) × (add_dd_trace (obj pkg) ≡ ok (obj pkg_patched))
      × ((key : String) → key ≢ "dependencies" → get key pkg_patched ≡ get key pkg)
      × (get "dependencies" pkg_patched ≡ some (obj deps_patched))
      × ((name : String)
          → get name deps_patched ≡ elim (get name deps) [
            | some v ↦ some v
            | none ↦ if name == "dd-trace" then some (str "^5.0.0") else none
          ])
unfolding add_dd_trace get_or get
add_dd_trace_lem pkg deps h u =
    let d : Fields = field "dd-trace" (str "^5.0.0") end in
    let deps_patched : Fields = update d deps in
    (
      assign "dependencies" (obj deps_patched) pkg,
      deps_patched,
      ground (arith, h),
      λ key e. ground (arith, e, get-assign key "dependencies" (obj deps_patched) pkg),
      ground (arith, get-assign "dependencies" "dependencies" (obj deps_patched) pkg),
      λ name. get-update name d deps u,
    )

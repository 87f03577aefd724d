-- ===== src/Patches/Files.antt =====
-- scripts/generate-patches.py, the helpers: differences, the headers of a patch, and the patch files.
pub mod Effects
pub mod Headers
use datadog_sample_finance.Shared.{
  ℕ, String, Bool, true, false, Option, none, some, [], ◌∷◌, ◌++◌, List, eqb, not, if◌then◌else◌,
}
use datadog_sample_finance.Shared.Json.{Json}
use datadog_sample_finance.Shared.Dict.{Dict, lookup, insert, remove}
use datadog_sample_finance.Python.{Io, os_error, modify, gets, or_raise, pure, ◌>>=◌, ◌>>◌}
use datadog_sample_finance.Patches.Text.{Text, codes, newline, strip, is_empty}
use datadog_sample_finance.Patches.Regex.{Pattern, one, many, line_start, match, sub_once}
use datadog_sample_finance.Patches.Code.{literal}

-- What a tool leaves: its exit code and its standard output.
pub record Ran : Type 0 where
  pub returncode : ℕ
  pub stdout : Text

-- The repository, the tools `diff -u` and `patch --dry-run`, and the `json` module.
pub record Tools : Type 0 where
  -- The files under ROOT that are read, as texts.
  pub files : String → Option Text
  -- The original (`none` where the file is missing) and the patched text.
  pub diff : Option Text → Text → Ran
  pub dry_run_patch : Option Text → Ran
  pub loads : Text → Option Json
  pub dumps : Json → Text

-- A line that the program prints.
pub data Report : Type 0 where
  reads : String → Report
  diff_failed : String → Report
  no_diff : String → Report
  appended wrote : String → String → Report
  dry_run_ok dry_run_failed : String → Report
  no_require_block nothing_to_instrument : Report

pub record World : Type 0 where
  -- scripts/patches/NAME.patch, by NAME.
  pub patches : Dict Text
  pub printed : List Report

abbrev pub print : Report → Io World (Unit {0})
print r = modify (λ w. record w { printed = w.printed ++ r ∷ [] })

abbrev pub write_patch : String → Text → Io World (Unit {0})
write_patch name text = modify (λ w. record w { patches = insert name text w.patches })

-- `open("a")` and `write`: a file that is not there is made.
abbrev pub append_to : Option Text → Text → Text
append_to none text = text
append_to (some before) text = before ++ text

-- `^--- .*\n` and `^\+\+\+ .*\n`, under MULTILINE.
abbrev pub header : Text → Pattern
header sign =
    line_start ∷ literal (sign ++ b' ' ∷ [])
    ++ many (λ c. not (eqb c newline)) ∷ one (eqb newline) ∷ []

abbrev pub header_for : Text → Text → String → Text
header_for sign side rel = sign ++ (b' ' ∷ side ++ (codes rel ++ newline ∷ []))

-- The two headers of a difference, made relative.
unfoldable pub relabel : String → Text → Text
relabel rel text =
    sub_once (match (header (codes "+++"))) (λ _. header_for (codes "+++") (codes "b/") rel) newline
      (sub_once (match (header (codes "---"))) (λ _. header_for (codes "---") (codes "a/") rel)
        newline text)

unfoldable pub reset_patch : String → Io World (Unit {0})
reset_patch patch_name = modify (λ w. record w { patches = remove patch_name w.patches })

-- What is done with a difference, to be saved by `save` when there is one.
abbrev pub record_diff : Ran → String → String → Io World (Unit {0}) → Io World Bool
record_diff ran orig_rel shown save =
    if eqb ran.returncode 2
    then (do print (diff_failed orig_rel); pure false)
    else if is_empty (strip ran.stdout)
    then (do print (no_diff shown); pure false)
    else (do save; pure true)

abbrev pub append_patch : String → Text → Io World (Unit {0})
append_patch name text = do
  before ← gets (λ w. lookup name w.patches)
  write_patch name (append_to before text)

module _ (T : Tools) where
  unfoldable pub read : String → Io World Text
  read path = or_raise (Tools.files T path) os_error

  unfoldable pub append_diff_from_strings : String → Text → Text → String → Io World Bool
  append_diff_from_strings orig_rel original patched patch_name =
      let ran = Tools.diff T (some original) patched in
      record_diff ran orig_rel orig_rel do
        append_patch patch_name (relabel orig_rel ran.stdout)
        print (appended orig_rel patch_name)

  unfoldable pub append_diff : String → Text → String → Io World Bool
  append_diff orig_rel patched patch_name =
      let ran = Tools.diff T (Tools.files T orig_rel) patched in
      record_diff ran orig_rel orig_rel do
        append_patch patch_name (relabel orig_rel ran.stdout)
        print (appended orig_rel patch_name)

  unfoldable pub make_patch : String → Text → String → Io World Bool
  make_patch orig_rel patched patch_name =
      let ran = Tools.diff T (Tools.files T orig_rel) patched in
      record_diff ran orig_rel patch_name
        do write_patch patch_name (relabel orig_rel ran.stdout); print (wrote orig_rel patch_name)

  unfoldable pub dry_run : String → Io World Bool
  dry_run patch_name = do
    ran ← gets (λ w. Tools.dry_run_patch T (lookup patch_name w.patches))
    let fits = eqb ran.returncode 0
    print (if fits then dry_run_ok patch_name else dry_run_failed patch_name)
    pure fits

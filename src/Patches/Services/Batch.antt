-- ===== src/Patches/Services/Batch.antt =====
-- What patch_batch_processor of scripts/generate-patches.py leaves.
use datadog_sample_finance.Shared.{
  String, ◌≡◌, refl, subst, ap, ◌∙◌, Bool, true, false, Option, none, some, [], ◌++◌, if◌then◌else◌,
  arith,
}
use datadog_sample_finance.Shared.Dict.{lookup-insert}
use datadog_sample_finance.Python.{Io, pure, ◌>>=◌}
use datadog_sample_finance.Patches.Text.{Text, strip, is_empty}
use datadog_sample_finance.Patches.Text.Blank.{is_empty-strip_append}
use datadog_sample_finance.Patches.Engine.{process_java}
use datadog_sample_finance.Patches.Files.{
  Tools, Report, World, reads, wrote, no_diff, nothing_to_instrument, print, write_patch, relabel,
  read, dry_run,
}
use datadog_sample_finance.Patches.Files.Effects.{Updates, put}
use datadog_sample_finance.Patches.Services.{java_listener, diff_of, patch_batch_processor}
use datadog_sample_finance.Patches.Services.Steps.{Checkout, after_read, announced}

-- What a difference brings where diff's exit code is not looked at.
abbrev pub unchecked : Tools → String → Text → Text → Text
unchecked T rel original patched =
    let ran = Tools.diff T (some original) patched in
    if is_empty (strip ran.stdout) then [] else relabel rel ran.stdout

-- Both differences, or nothing where the first has none.
abbrev pub both : Text → Text → Option Text
both java gradle = if is_empty (strip java) then none else some (java ++ gradle)

if_java :
    (T : Tools) (name : String) (java gradle : Text) (r : Report) (b c : Bool)
    → is_empty (strip java) ≡ b
    → is_empty (strip (java ++ gradle)) ≡ c
    → Updates
        (if b
          then print nothing_to_instrument
          else if c
          then print (no_diff name)
          else (write_patch name (java ++ gradle) >>= λ _.
              print r >>= λ _. dry_run T name >>= λ _. pure tt))
        name
        (λ o. put o (both java gradle))
unfolding dry_run
if_java T name java gradle r true c e f w = ((tt, refl), λ n. ground (arith, e))
if_java T name java gradle r false true e f w =
    ground (arith, f, is_empty-strip_append java gradle e)
if_java T name java gradle r false false e f w =
    ((tt, refl), λ n. ground (arith, e, lookup-insert n name (java ++ gradle) w.patches))

diff_of_lem :
    (T : Tools) (rel : String) (c patched : Text)
    → Tools.files T rel ≡ some c
    → diff_of T rel patched ≡ unchecked T rel c patched
diff_of_lem T rel c patched h =
    ap
      (λ o.
        let ran = Tools.diff T o patched in
        if is_empty (strip ran.stdout) then [] else relabel rel ran.stdout)
      h

abbrev pub batch_change : Tools → (String → Text) → Option Text
batch_change T src =
    both (unchecked T java_listener (src java_listener) (process_java (src java_listener))) (
      unchecked T "batch-processor/build.gradle" (src "batch-processor/build.gradle")
        (process_java (src "batch-processor/build.gradle")))

module _ (T : Tools) (src : String → Text) (C : Checkout T src) where
  pub patch_batch_processor-Updates :
      Updates (patch_batch_processor T) "batch-processor" (λ o. put o (batch_change T src))
  unfolding patch_batch_processor
  patch_batch_processor-Updates =
      let gradle : String = "batch-processor/build.gradle" in
      let j : Text = diff_of T java_listener (process_java (src java_listener)) in
      let g : Text = diff_of T gradle (process_java (src gradle)) in
      let body : Text → Text → Io World (Unit {0}) = λ java build.
        if is_empty (strip java)
        then print nothing_to_instrument
        else if is_empty (strip (java ++ build))
        then print (no_diff "batch-processor")
        else (write_patch "batch-processor" (java ++ build) >>= λ _.
            print (wrote java_listener "batch-processor") >>= λ _.
            dry_run T "batch-processor" >>= λ _. pure tt) in
      let after_gradle : Text → Io World (Unit {0}) = λ java. print (reads gradle) >>= λ _.
      read T gradle >>= λ c. body java (diff_of T gradle (process_java c)) in
      let jc : Text = src java_listener in
      let gc : Text = src gradle in
      let report : Report = wrote java_listener "batch-processor" in
      let same_j = diff_of_lem T java_listener jc (process_java jc) (Checkout.listener_java C) in
      let same_g = diff_of_lem T gradle gc (process_java gc) (Checkout.build_gradle C) in
      subst (λ c. Updates (patch_batch_processor T) "batch-processor" (λ o. put o c))
        (ap (λ x. both x g) same_j
          ∙ ap (both (unchecked T java_listener jc (process_java jc))) same_g)
        (announced T src java_listener
          (read T java_listener >>= λ c. after_gradle (diff_of T java_listener (process_java c)))
          "batch-processor" (λ o. put o (both j g))
          (after_read T src java_listener
            (λ c. after_gradle (diff_of T java_listener (process_java c))) "batch-processor"
            (λ o. put o (both j g)) (Checkout.listener_java C)
            (announced T src gradle
              (read T gradle >>= λ c. body j (diff_of T gradle (process_java c))) "batch-processor"
              (λ o. put o (both j g))
              (after_read T src gradle (λ c. body j (diff_of T gradle (process_java c)))
                "batch-processor" (λ o. put o (both j g)) (Checkout.build_gradle C)
                (if_java T "batch-processor" j g report (is_empty (strip j))
                  (is_empty (strip (j ++ g))) refl refl)))))

-- ===== src/Patches/Services/Steps.antt =====
-- The steps of which each service's part of scripts/generate-patches.py consists.
use datadog_sample_finance.Shared.{
  String, ◌≡◌, refl, subst, Bool, Option, none, some, [], ◌∷◌, List,
}
use datadog_sample_finance.Python.{Io, ◌>>=◌}
use datadog_sample_finance.Patches.Text.{Text}
use datadog_sample_finance.Patches.Files.{
  Tools, World, reads, print, reset_patch, read, append_diff_from_strings, append_diff, make_patch,
  dry_run,
}
use datadog_sample_finance.Patches.Files.Effects.{
  Updates, bind-Updates, pure-Updates, read_lem, print-Updates, dry_run-Updates,
  reset_patch-Updates, contribution, add, put, append_diff_from_strings-Updates,
  append_diff-Updates, make_patch-Updates,
}
use datadog_sample_finance.Patches.Services.{java_listener}

-- The differences of one patch, in order; `none` is a file that brings nothing.
unfoldable pub joined_onto : Option Text → List (Option Text) → Option Text
joined_onto o [] = o
joined_onto o (c ∷ cs) = joined_onto (add o c) cs

abbrev pub joined : List (Option Text) → Option Text
joined = joined_onto none

-- Steps one after another, and a last one.
unfoldable pub run_all : List (Io World Bool) → Io World Bool → Io World Bool
run_all [] last = last
run_all (m ∷ ms) last = m >>= λ _. run_all ms last

-- Steps each of which adds one difference to the patch.
pub data Stages : String → List (Io World Bool) → List (Option Text) → Type 0 where
  over : {name : String} → Stages name [] []
  stage :
      {name : String} {m : Io World Bool} {c : Option Text} {ms : List (Io World Bool)}
      {cs : List (Option Text)}
      → Updates m name (λ o. add o c)
      → Stages name ms cs
      → Stages name (m ∷ ms) (c ∷ cs)

run_all-Updates :
    (last : Io World Bool) (name : String)
    → Updates last name (λ o. o)
    → {ms : List (Io World Bool)} {cs : List (Option Text)} → Stages name ms cs
    → Updates (run_all ms last) name (λ o. joined_onto o cs)
unfolding run_all joined_onto
run_all-Updates last name h over = h
run_all-Updates last name h (stage {m} {c} {ms} {cs} g gs) =
    bind-Updates m (λ _. run_all ms last) name (λ o. add o c) (λ o. joined_onto o cs) g
      (λ _. run_all-Updates last name h gs)

-- A service's part of the program: the patch is deleted, made anew, grown and tried.
pub service-Updates :
    {A : Type 0} (T : Tools) (name : String) (first : Io World A) (f : Option Text → Option Text)
    (c : Option Text)
    → Updates first name f
    → f none ≡ add none c
    → {ms : List (Io World Bool)} {cs : List (Option Text)} → Stages name ms cs
    → Updates
        (reset_patch name >>= λ _. first >>= λ _. run_all ms (dry_run T name))
        name
        (λ o. joined (c ∷ cs))
unfolding joined_onto
service-Updates T name first f c h e {ms} {cs} gs =
    let rest : Io World Bool = run_all ms (dry_run T name) in
    subst
      (λ x. Updates (reset_patch name >>= λ _. first >>= λ _. rest) name (λ o. joined_onto x cs)) e
      (bind-Updates (reset_patch name) (λ _. first >>= λ _. rest) name (λ o. none)
        (λ o. joined_onto (f o) cs) (reset_patch-Updates name)
        (λ _.
          bind-Updates first (λ _. rest) name f (λ o. joined_onto o cs) h
            (λ _. run_all-Updates (dry_run T name) name (dry_run-Updates T name name) gs)))

-- The files that the program reads are there, with the texts that `src` gives.
pub record Checkout (T : Tools) (src : String → Text) : Type 0 where
  pub gateway_main : Tools.files T "gateway-api/main.py" ≡ some (src "gateway-api/main.py")
  pub gateway_requirements :
      Tools.files T "gateway-api/requirements.txt" ≡ some (src "gateway-api/requirements.txt")
  pub fraud_main : Tools.files T "fraud-detection/main.py" ≡ some (src "fraud-detection/main.py")
  pub fraud_listener :
      Tools.files T "fraud-detection/listener.py" ≡ some (src "fraud-detection/listener.py")
  pub fraud_requirements :
      Tools.files T "fraud-detection/requirements.txt"
      ≡ some (src "fraud-detection/requirements.txt")
  pub index_js :
      Tools.files T "transaction-service/src/index.js"
      ≡ some (src "transaction-service/src/index.js")
  pub ledger_js :
      Tools.files T "transaction-service/src/services/ledger.js"
      ≡ some (src "transaction-service/src/services/ledger.js")
  pub payments_js :
      Tools.files T "transaction-service/src/routes/payments.js"
      ≡ some (src "transaction-service/src/routes/payments.js")
  pub producer_js :
      Tools.files T "transaction-service/src/messaging/producer.js"
      ≡ some (src "transaction-service/src/messaging/producer.js")
  pub package_json :
      Tools.files T "transaction-service/package.json"
      ≡ some (src "transaction-service/package.json")
  pub main_go :
      Tools.files T "notification-service/main.go" ≡ some (src "notification-service/main.go")
  pub go_mod :
      Tools.files T "notification-service/go.mod" ≡ some (src "notification-service/go.mod")
  pub listener_java : Tools.files T java_listener ≡ some (src java_listener)
  pub build_gradle :
      Tools.files T "batch-processor/build.gradle" ≡ some (src "batch-processor/build.gradle")
  pub dockerfile :
      Tools.files T "batch-processor/Dockerfile" ≡ some (src "batch-processor/Dockerfile")

pub put-none : (c : Option Text) → put none c ≡ add none c
put-none none = refl
put-none (some c) = refl

module _ (T : Tools) (src : String → Text) where
  -- What one rewritten file brings to its service's patch.
  abbrev pub change : String → (Text → Text) → Option Text
  change rel f = contribution T rel (src rel) (f (src rel))

  pub after_read :
      {A : Type 0} (rel : String) (k : Text → Io World A) (name : String)
      (f : Option Text → Option Text)
      → Tools.files T rel ≡ some (src rel)
      → Updates (k (src rel)) name f
      → Updates (read T rel >>= k) name f
  after_read rel k name f h u =
      pure-Updates (read T rel) k name f (src rel) (read_lem T rel (src rel) h) u

  pub announced :
      {A : Type 0} (rel : String) (m : Io World A) (name : String) (f : Option Text → Option Text)
      → Updates m name f
      → Updates (print (reads rel) >>= λ _. m) name f
  announced rel m name f u =
      bind-Updates (print (reads rel)) (λ _. m) name (λ o. o) f (print-Updates (reads rel) name)
        (λ _. u)

  pub makes :
      (rel : String) (f : Text → Text) (name : String)
      → Tools.files T rel ≡ some (src rel)
      → Updates
          (print (reads rel) >>= λ _. read T rel >>= λ content. make_patch T rel (f content) name)
          name
          (λ o. put o (change rel f))
  makes rel f name h =
      announced rel (read T rel >>= λ content. make_patch T rel (f content) name) name
        (λ o. put o (change rel f))
        (after_read rel (λ content. make_patch T rel (f content) name) name
          (λ o. put o (change rel f)) h (make_patch-Updates T rel name (f (src rel)) (src rel) h))

  pub appends_quietly :
      (rel : String) (f : Text → Text) (name : String)
      → Tools.files T rel ≡ some (src rel)
      → Updates
          (read T rel >>= λ content. append_diff T rel (f content) name)
          name
          (λ o. add o (change rel f))
  appends_quietly rel f name h =
      after_read rel (λ content. append_diff T rel (f content) name) name
        (λ o. add o (change rel f)) h (append_diff-Updates T rel name (f (src rel)) (src rel) h)

  pub appends_strings :
      (rel : String) (f : Text → Text) (name : String)
      → Tools.files T rel ≡ some (src rel)
      → Updates
          (read T rel >>= λ content. append_diff_from_strings T rel content (f content) name)
          name
          (λ o. add o (change rel f))
  appends_strings rel f name h =
      after_read rel (λ content. append_diff_from_strings T rel content (f content) name) name
        (λ o. add o (change rel f)) h
        (append_diff_from_strings-Updates T rel name (f (src rel)) (src rel))

  pub appends :
      (rel : String) (f : Text → Text) (name : String)
      → Tools.files T rel ≡ some (src rel)
      → Updates
          (print (reads rel) >>= λ _. read T rel >>= λ content. append_diff T rel (f content) name)
          name
          (λ o. add o (change rel f))
  appends rel f name h =
      announced rel (read T rel >>= λ content. append_diff T rel (f content) name) name
        (λ o. add o (change rel f)) (appends_quietly rel f name h)

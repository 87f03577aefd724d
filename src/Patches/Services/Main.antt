-- ===== src/Patches/Services/Main.antt =====
-- What the main program of scripts/generate-patches.py leaves in the patch files.
use datadog_sample_finance.Shared.{
  String, ◌≡◌, subst, sym, ap, ◌∙◌, Bool, Option, some, if◌then◌else◌, ◌==◌,
}
use datadog_sample_finance.Shared.Json.{Json}
use datadog_sample_finance.Shared.Dict.{lookup}
use datadog_sample_finance.Python.{Io, ok, ◌>>=◌}
use datadog_sample_finance.Patches.Text.{Text}
use datadog_sample_finance.Patches.Files.{Tools, World}
use datadog_sample_finance.Patches.Files.Effects.{Updates, bind_ok}
use datadog_sample_finance.Patches.Dependencies.{add_dd_trace}
use datadog_sample_finance.Patches.Services.{
  generate_gateway_api, generate_fraud_detection, generate_transaction_service,
  generate_notification_service, generate_batch_processor, main,
}
use datadog_sample_finance.Patches.Services.Steps.{Checkout}
use datadog_sample_finance.Patches.Services.Expected.{
  gateway_api_patch, fraud_detection_patch, transaction_service_patch, notification_service_patch,
  batch_processor_patch, expected,
}
use datadog_sample_finance.Patches.Services.Result.{
  gateway_api-Updates, fraud_detection-Updates, transaction_service-Updates,
  notification_service-Updates, batch_processor-Updates,
}

-- Every patch file after a step that ends without an exception.
abbrev Leaves : {A : Type 0} → Io World A → (String → Option Text → Option Text) → Type 0
Leaves {A} m g =
    (w : World)
    → ((a : A) × ((m w).0 ≡ ok a))
      × ((n : String) → lookup n (m w).1.patches ≡ g n (lookup n w.patches))

next_service :
    (m k : Io World Bool) (name : String) (o : Option Text) (g : String → Option Text → Option Text)
    → Updates m name (λ _. o)
    → Leaves k g
    → Leaves (m >>= λ _. k) (λ n before. g n (if n == name then o else before))
next_service m k name o g hm hk w =
    let ((a, e), l) = hm w in
    let (t, l') = hk (m w).1 in
    subst
      (λ r.
        ((b : Bool) × (r.0 ≡ ok b))
        × ((n : String) → lookup n r.1.patches ≡ g n (if n == name then o else lookup n w.patches)))
      (sym (bind_ok m (λ _. k) w a e)) (t, λ n. l' n ∙ ap (g n) (l n))

-- In a checkout that has the files which the program reads, with a package.json that is JSON, whose
-- dependencies can be extended: the program ends without an exception, and every patch file is then
-- what `expected` says. A service's patch holds the differences of its own files, in order, with
-- their headers made relative, and nothing of what stood there before; other files are kept.
pub main-expected :
    (T : Tools) (src : String → Text)
    → Checkout T src
    → (pkg pkg_patched : Json) → Tools.loads T (src "transaction-service/package.json") ≡ some pkg
    → add_dd_trace pkg ≡ ok pkg_patched
    → (w : World)
    → ((fits : Bool) × ((main T w).0 ≡ ok fits))
      × ((name : String)
          → lookup name (main T w).1.patches
            ≡ expected T src pkg_patched name (lookup name w.patches))
unfolding main
main-expected T src C pkg pkg_patched loaded added =
    let k5 : Io World Bool = generate_batch_processor T in
    let k4 : Io World Bool = generate_notification_service T >>= λ _. k5 in
    let k3 : Io World Bool = generate_transaction_service T >>= λ _. k4 in
    let k2 : Io World Bool = generate_fraud_detection T >>= λ _. k3 in
    let g5 : String → Option Text → Option Text =
      λ n o. if n == "batch-processor" then batch_processor_patch T src else o in
    let g4 : String → Option Text → Option Text =
      λ n o. g5 n (if n == "notification-service" then notification_service_patch T src else o) in
    let g3 : String → Option Text → Option Text = λ n o.
      g4 n
        (if n == "transaction-service" then transaction_service_patch T src pkg_patched else o) in
    let g2 : String → Option Text → Option Text =
      λ n o. g3 n (if n == "fraud-detection" then fraud_detection_patch T src else o) in
    next_service (generate_gateway_api T) k2 "gateway-api" (gateway_api_patch T src) g2
      (gateway_api-Updates T src C pkg pkg_patched loaded added)
      (next_service (generate_fraud_detection T) k3 "fraud-detection" (fraud_detection_patch T src)
        g3 (fraud_detection-Updates T src C pkg pkg_patched loaded added)
        (next_service (generate_transaction_service T) k4 "transaction-service"
          (transaction_service_patch T src pkg_patched) g4
          (transaction_service-Updates T src C pkg pkg_patched loaded added)
          (next_service (generate_notification_service T) k5 "notification-service"
            (notification_service_patch T src) g5
            (notification_service-Updates T src C pkg pkg_patched loaded added)
            (batch_processor-Updates T src C pkg pkg_patched loaded added))))

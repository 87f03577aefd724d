-- ===== src/Patches/Services/Result.antt =====
-- The patch that each service's part of scripts/generate-patches.py leaves.
use datadog_sample_finance.Shared.{
  String, ◌≡◌, Bool, true, false, some, [], ◌∷◌, ◌++◌, if◌then◌else◌, arith,
}
use datadog_sample_finance.Shared.Json.{Json}
use datadog_sample_finance.Python.{Io, ok, or_raise, lift, ◌>>=◌, json_decode_error}
use datadog_sample_finance.Patches.Text.{Text, codes, newline}
use datadog_sample_finance.Patches.Regex.{found}
use datadog_sample_finance.Patches.Engine.{process_python, process_js, process_go}
use datadog_sample_finance.Patches.Files.{
  Tools, World, no_require_block, print, append_diff_from_strings,
}
use datadog_sample_finance.Patches.Files.Effects.{
  Updates, bind-Updates, pure-Updates, print-Updates, contribution, add, put,
  append_diff_from_strings-Updates,
}
use datadog_sample_finance.Patches.Dependencies.{
  uncomment_package, add_dd_trace, commented_require, uncomment_require, add_agent,
}
use datadog_sample_finance.Patches.Services.{
  patch_gateway_api, patch_gateway_api_deps, patch_fraud_detection, patch_fraud_detection_listener,
  patch_fraud_detection_deps, patch_transaction_service, patch_transaction_service_ledger,
  patch_transaction_service_payments, patch_transaction_service_producer,
  patch_transaction_service_deps, patch_notification_service, patch_notification_service_deps,
  patch_batch_processor, patch_batch_processor_dockerfile, generate_gateway_api,
  generate_fraud_detection, generate_transaction_service, generate_notification_service,
  generate_batch_processor,
}
use datadog_sample_finance.Patches.Services.Steps.{
  run_all, over, stage, service-Updates, Checkout, put-none, change, after_read, makes,
  appends_quietly, appends_strings, appends,
}
use datadog_sample_finance.Patches.Services.Batch.{batch_change, patch_batch_processor-Updates}
use datadog_sample_finance.Patches.Services.Expected.{
  package_change, require_change, gateway_api_patch, fraud_detection_patch,
  transaction_service_patch, notification_service_patch, batch_processor_patch,
}

if_found :
    (T : Tools) (b : Bool) (rel name : String) (c new : Text)
    → Updates
        (if b
          then append_diff_from_strings T rel c new name
          else (print no_require_block >>= λ _. append_diff_from_strings T rel c c name))
        name
        (λ o. add o (contribution T rel c (if b then new else c)))
if_found T true rel name c new = append_diff_from_strings-Updates T rel name new c
if_found T false rel name c new =
    bind-Updates (print no_require_block) (λ _. append_diff_from_strings T rel c c name) name
      (λ o. o) (λ o. add o (contribution T rel c c)) (print-Updates no_require_block name)
      (λ _. append_diff_from_strings-Updates T rel name c c)

module _ (T : Tools) (src : String → Text) (C : Checkout T src) (pkg pkg_patched : Json)
    (loaded : Tools.loads T (src "transaction-service/package.json") ≡ some pkg)
    (added : add_dd_trace pkg ≡ ok pkg_patched) where
  package_json-Updates :
      Updates
        (patch_transaction_service_deps T)
        "transaction-service"
        (λ o. add o (package_change T src pkg_patched))
  unfolding patch_transaction_service_deps
  package_json-Updates =
      let rel : String = "transaction-service/package.json" in
      let name : String = "transaction-service" in
      let append : Text → Json → Io World Bool =
        λ c p. append_diff_from_strings T rel c (Tools.dumps T p ++ newline ∷ []) name in
      after_read T src rel
        (λ c. or_raise (Tools.loads T c) json_decode_error >>= λ p.
          lift (add_dd_trace p) >>= λ q. append c q)
        name (λ o. add o (package_change T src pkg_patched)) (Checkout.package_json C)
        (pure-Updates (or_raise (Tools.loads T (src rel)) json_decode_error)
          (λ p. lift (add_dd_trace p) >>= λ q. append (src rel) q) name
          (λ o. add o (package_change T src pkg_patched)) pkg (λ w. ground (arith, loaded))
          (pure-Updates (lift (add_dd_trace pkg)) (λ q. append (src rel) q) name
            (λ o. add o (package_change T src pkg_patched)) pkg_patched (λ w. ground (arith, added))
            (append_diff_from_strings-Updates T rel name (Tools.dumps T pkg_patched ++ newline ∷ [])
              (src rel))))

  go_mod-Updates :
      Updates
        (patch_notification_service_deps T)
        "notification-service"
        (λ o. add o (change T src "notification-service/go.mod" require_change))
  unfolding patch_notification_service_deps
  go_mod-Updates =
      let rel : String = "notification-service/go.mod" in
      let name : String = "notification-service" in
      after_read T src rel
        (λ c.
          if found commented_require newline c
          then append_diff_from_strings T rel c (uncomment_require c) name
          else (print no_require_block >>= λ _. append_diff_from_strings T rel c c name))
        name (λ o. add o (change T src rel require_change)) (Checkout.go_mod C)
        (if_found T (found commented_require newline (src rel)) rel name (src rel)
          (uncomment_require (src rel)))

  pub gateway_api-Updates :
      Updates (generate_gateway_api T) "gateway-api" (λ o. gateway_api_patch T src)
  unfolding run_all generate_gateway_api patch_gateway_api patch_gateway_api_deps
  gateway_api-Updates =
      service-Updates T "gateway-api" (patch_gateway_api T)
        (λ o. put o (change T src "gateway-api/main.py" process_python))
        (change T src "gateway-api/main.py" process_python)
        (makes T src "gateway-api/main.py" process_python "gateway-api" (Checkout.gateway_main C))
        (put-none (change T src "gateway-api/main.py" process_python))
        (stage {m = patch_gateway_api_deps T}
          (appends_strings T src "gateway-api/requirements.txt"
            (uncomment_package (codes "ddtrace==")) "gateway-api" (Checkout.gateway_requirements C))
          over)

  pub fraud_detection-Updates :
      Updates (generate_fraud_detection T) "fraud-detection" (λ o. fraud_detection_patch T src)
  unfolding run_all generate_fraud_detection patch_fraud_detection patch_fraud_detection_listener
      patch_fraud_detection_deps
  fraud_detection-Updates =
      service-Updates T "fraud-detection" (patch_fraud_detection T)
        (λ o. put o (change T src "fraud-detection/main.py" process_python))
        (change T src "fraud-detection/main.py" process_python)
        (makes T src "fraud-detection/main.py" process_python "fraud-detection"
          (Checkout.fraud_main C))
        (put-none (change T src "fraud-detection/main.py" process_python))
        (stage {m = patch_fraud_detection_listener T}
          (appends T src "fraud-detection/listener.py" process_python "fraud-detection"
            (Checkout.fraud_listener C))
          (stage {m = patch_fraud_detection_deps T}
            (appends_strings T src "fraud-detection/requirements.txt"
              (uncomment_package (codes "ddtrace[data_streams]==")) "fraud-detection"
              (Checkout.fraud_requirements C))
            over))

  pub transaction_service-Updates :
      Updates
        (generate_transaction_service T)
        "transaction-service"
        (λ o. transaction_service_patch T src pkg_patched)
  unfolding run_all generate_transaction_service patch_transaction_service
      patch_transaction_service_ledger patch_transaction_service_payments
      patch_transaction_service_producer patch_transaction_service_deps
  transaction_service-Updates =
      service-Updates T "transaction-service" (patch_transaction_service T)
        (λ o. put o (change T src "transaction-service/src/index.js" process_js))
        (change T src "transaction-service/src/index.js" process_js)
        (makes T src "transaction-service/src/index.js" process_js "transaction-service"
          (Checkout.index_js C))
        (put-none (change T src "transaction-service/src/index.js" process_js))
        (stage {m = patch_transaction_service_ledger T}
          (appends T src "transaction-service/src/services/ledger.js" process_js
            "transaction-service" (Checkout.ledger_js C))
          (stage {m = patch_transaction_service_payments T}
            (appends T src "transaction-service/src/routes/payments.js" process_js
              "transaction-service" (Checkout.payments_js C))
            (stage {m = patch_transaction_service_producer T}
              (appends T src "transaction-service/src/messaging/producer.js" process_js
                "transaction-service" (Checkout.producer_js C))
              (stage {m = patch_transaction_service_deps T} package_json-Updates over))))

  pub notification_service-Updates :
      Updates
        (generate_notification_service T)
        "notification-service"
        (λ o. notification_service_patch T src)
  unfolding run_all generate_notification_service patch_notification_service
      patch_notification_service_deps
  notification_service-Updates =
      service-Updates T "notification-service" (patch_notification_service T)
        (λ o. put o (change T src "notification-service/main.go" process_go))
        (change T src "notification-service/main.go" process_go)
        (makes T src "notification-service/main.go" process_go "notification-service"
          (Checkout.main_go C))
        (put-none (change T src "notification-service/main.go" process_go))
        (stage {m = patch_notification_service_deps T} go_mod-Updates over)

  pub batch_processor-Updates :
      Updates (generate_batch_processor T) "batch-processor" (λ o. batch_processor_patch T src)
  unfolding run_all generate_batch_processor patch_batch_processor_dockerfile
  batch_processor-Updates =
      service-Updates T "batch-processor" (patch_batch_processor T)
        (λ o. put o (batch_change T src)) (batch_change T src)
        (patch_batch_processor-Updates T src C) (put-none (batch_change T src))
        (stage {m = patch_batch_processor_dockerfile T}
          (appends_quietly T src "batch-processor/Dockerfile" add_agent "batch-processor"
            (Checkout.dockerfile C))
          over)

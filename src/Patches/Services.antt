-- ===== src/Patches/Services.antt =====
-- scripts/generate-patches.py, the patches of the five services and the main program.
pub mod Steps
pub mod Batch
pub mod Expected
pub mod Result
pub mod Main
use datadog_sample_finance.Shared.{String, Bool, [], ◌∷◌, ◌++◌, if◌then◌else◌}
use datadog_sample_finance.Python.{Io, json_decode_error, lift, or_raise, pure, ◌>>=◌, ◌>>◌}
use datadog_sample_finance.Patches.Text.{Text, codes, newline, strip, is_empty}
use datadog_sample_finance.Patches.Regex.{found}
use datadog_sample_finance.Patches.Engine.{process_python, process_js, process_go, process_java}
use datadog_sample_finance.Patches.Files.{
  Tools, World, reads, wrote, no_diff, no_require_block, nothing_to_instrument, print, write_patch,
  relabel, reset_patch, read, append_diff_from_strings, append_diff, make_patch, dry_run,
}
use datadog_sample_finance.Patches.Dependencies.{
  uncomment_package, add_dd_trace, commented_require, uncomment_require, add_agent,
}

abbrev pub java_listener : String
java_listener =
    "batch-processor/src/main/java/com/example/finance/batch/listener/DatadogJobListener.java"

module _ (T : Tools) where
  unfoldable pub patch_gateway_api : Io World Bool
  patch_gateway_api = do
    print (reads "gateway-api/main.py")
    content ← read T "gateway-api/main.py"
    make_patch T "gateway-api/main.py" (process_python content) "gateway-api"

  unfoldable pub patch_fraud_detection : Io World Bool
  patch_fraud_detection = do
    print (reads "fraud-detection/main.py")
    content ← read T "fraud-detection/main.py"
    make_patch T "fraud-detection/main.py" (process_python content) "fraud-detection"

  unfoldable pub patch_fraud_detection_listener : Io World Bool
  patch_fraud_detection_listener = do
    print (reads "fraud-detection/listener.py")
    content ← read T "fraud-detection/listener.py"
    append_diff T "fraud-detection/listener.py" (process_python content) "fraud-detection"

  unfoldable pub patch_transaction_service : Io World Bool
  patch_transaction_service = do
    print (reads "transaction-service/src/index.js")
    content ← read T "transaction-service/src/index.js"
    make_patch T "transaction-service/src/index.js" (process_js content) "transaction-service"

  unfoldable pub patch_transaction_service_ledger : Io World Bool
  patch_transaction_service_ledger = do
    print (reads "transaction-service/src/services/ledger.js")
    content ← read T "transaction-service/src/services/ledger.js"
    append_diff T "transaction-service/src/services/ledger.js" (process_js content)
        "transaction-service"

  unfoldable pub patch_transaction_service_payments : Io World Bool
  patch_transaction_service_payments = do
    print (reads "transaction-service/src/routes/payments.js")
    content ← read T "transaction-service/src/routes/payments.js"
    append_diff T "transaction-service/src/routes/payments.js" (process_js content)
        "transaction-service"

  unfoldable pub patch_transaction_service_producer : Io World Bool
  patch_transaction_service_producer = do
    print (reads "transaction-service/src/messaging/producer.js")
    content ← read T "transaction-service/src/messaging/producer.js"
    append_diff T "transaction-service/src/messaging/producer.js" (process_js content)
        "transaction-service"

  unfoldable pub patch_notification_service : Io World Bool
  patch_notification_service = do
    print (reads "notification-service/main.go")
    content ← read T "notification-service/main.go"
    make_patch T "notification-service/main.go" (process_go content) "notification-service"

  -- The difference of one file, its headers made relative; diff's exit code is not looked at.
  abbrev pub diff_of : String → Text → Text
  diff_of orig_rel patched =
      let ran = Tools.diff T (Tools.files T orig_rel) patched in
      if is_empty (strip ran.stdout) then [] else relabel orig_rel ran.stdout

  unfoldable pub patch_batch_processor : Io World (Unit {0})
  patch_batch_processor = do
    print (reads java_listener)
    content_java ← read T java_listener
    print (reads "batch-processor/build.gradle")
    content_gradle ← read T "batch-processor/build.gradle"
    let java_diff = diff_of java_listener (process_java content_java)
    let combined = java_diff ++ diff_of "batch-processor/build.gradle" (process_java content_gradle)
    if is_empty (strip java_diff)
        then print nothing_to_instrument
        else if is_empty (strip combined)
        then print (no_diff "batch-processor")
        else do
          write_patch "batch-processor" combined
          print (wrote java_listener "batch-processor")
          _ ← dry_run T "batch-processor"
          pure tt

  unfoldable pub patch_gateway_api_deps : Io World Bool
  patch_gateway_api_deps = do
    content ← read T "gateway-api/requirements.txt"
    append_diff_from_strings T "gateway-api/requirements.txt" content
        (uncomment_package (codes "ddtrace==") content) "gateway-api"

  unfoldable pub patch_fraud_detection_deps : Io World Bool
  patch_fraud_detection_deps = do
    content ← read T "fraud-detection/requirements.txt"
    append_diff_from_strings T "fraud-detection/requirements.txt" content
        (uncomment_package (codes "ddtrace[data_streams]==") content) "fraud-detection"

  unfoldable pub patch_transaction_service_deps : Io World Bool
  patch_transaction_service_deps = do
    original_content ← read T "transaction-service/package.json"
    pkg ← or_raise (Tools.loads T original_content) json_decode_error
    pkg_patched ← lift (add_dd_trace pkg)
    let patched_content = Tools.dumps T pkg_patched ++ newline ∷ []
    append_diff_from_strings T "transaction-service/package.json" original_content patched_content
        "transaction-service"

  unfoldable pub patch_notification_service_deps : Io World Bool
  patch_notification_service_deps = do
    original_content ← read T "notification-service/go.mod"
    if found commented_require newline original_content
        then append_diff_from_strings T "notification-service/go.mod" original_content
            (uncomment_require original_content) "notification-service"
        else do
          print no_require_block
          append_diff_from_strings T "notification-service/go.mod" original_content original_content
              "notification-service"

  unfoldable pub patch_batch_processor_dockerfile : Io World Bool
  patch_batch_processor_dockerfile = do
    content ← read T "batch-processor/Dockerfile"
    append_diff T "batch-processor/Dockerfile" (add_agent content) "batch-processor"

  -- The five parts of the main program.
  unfoldable pub generate_gateway_api : Io World Bool
  generate_gateway_api = do
    reset_patch "gateway-api"
    _ ← patch_gateway_api
    _ ← patch_gateway_api_deps
    dry_run T "gateway-api"

  unfoldable pub generate_fraud_detection : Io World Bool
  generate_fraud_detection = do
    reset_patch "fraud-detection"
    _ ← patch_fraud_detection
    _ ← patch_fraud_detection_listener
    _ ← patch_fraud_detection_deps
    dry_run T "fraud-detection"

  unfoldable pub generate_transaction_service : Io World Bool
  generate_transaction_service = do
    reset_patch "transaction-service"
    _ ← patch_transaction_service
    _ ← patch_transaction_service_ledger
    _ ← patch_transaction_service_payments
    _ ← patch_transaction_service_producer
    _ ← patch_transaction_service_deps
    dry_run T "transaction-service"

  unfoldable pub generate_notification_service : Io World Bool
  generate_notification_service = do
    reset_patch "notification-service"
    _ ← patch_notification_service
    _ ← patch_notification_service_deps
    dry_run T "notification-service"

  unfoldable pub generate_batch_processor : Io World Bool
  generate_batch_processor = do
    reset_patch "batch-processor"
    _ ← patch_batch_processor
    _ ← patch_batch_processor_dockerfile
    dry_run T "batch-processor"

  unfoldable pub main : Io World Bool
  main = do
    _ ← generate_gateway_api
    _ ← generate_fraud_detection
    _ ← generate_transaction_service
    _ ← generate_notification_service
    generate_batch_processor

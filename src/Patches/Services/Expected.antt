-- ===== src/Patches/Services/Expected.antt =====
-- What the patches of scripts/generate-patches.py ought to be.
use datadog_sample_finance.Shared.{String, Option, [], ◌∷◌, ◌++◌, if◌then◌else◌, ◌==◌}
use datadog_sample_finance.Shared.Json.{Json}
use datadog_sample_finance.Patches.Text.{Text, codes, newline}
use datadog_sample_finance.Patches.Regex.{found}
use datadog_sample_finance.Patches.Engine.{process_python, process_js, process_go}
use datadog_sample_finance.Patches.Files.{Tools}
use datadog_sample_finance.Patches.Files.Effects.{contribution}
use datadog_sample_finance.Patches.Dependencies.{
  uncomment_package, commented_require, uncomment_require, add_agent,
}
use datadog_sample_finance.Patches.Services.Steps.{joined, change}
use datadog_sample_finance.Patches.Services.Batch.{batch_change}

-- What package.json brings.
abbrev pub package_change : Tools → (String → Text) → Json → Option Text
package_change T src pkg_patched =
    contribution T "transaction-service/package.json" (src "transaction-service/package.json")
      (Tools.dumps T pkg_patched ++ newline ∷ [])

-- go.mod with its commented block replaced, where it has one.
abbrev pub require_change : Text → Text
require_change content =
    if found commented_require newline content then uncomment_require content else content

-- The patch of each service: the differences of its files, in the order in which they are taken.
abbrev pub gateway_api_patch : Tools → (String → Text) → Option Text
gateway_api_patch T src = joined (
    change T src "gateway-api/main.py" process_python
    ∷ change T src "gateway-api/requirements.txt" (uncomment_package (codes "ddtrace=="))
    ∷ [])

abbrev pub fraud_detection_patch : Tools → (String → Text) → Option Text
fraud_detection_patch T src = joined (
    change T src "fraud-detection/main.py" process_python
    ∷ change T src "fraud-detection/listener.py" process_python
    ∷ change T src "fraud-detection/requirements.txt"
        (uncomment_package (codes "ddtrace[data_streams]=="))
    ∷ [])

abbrev pub transaction_service_patch : Tools → (String → Text) → Json → Option Text
transaction_service_patch T src pkg_patched = joined (
    change T src "transaction-service/src/index.js" process_js
    ∷ change T src "transaction-service/src/services/ledger.js" process_js
    ∷ change T src "transaction-service/src/routes/payments.js" process_js
    ∷ change T src "transaction-service/src/messaging/producer.js" process_js
    ∷ package_change T src pkg_patched
    ∷ [])

abbrev pub notification_service_patch : Tools → (String → Text) → Option Text
notification_service_patch T src = joined (
    change T src "notification-service/main.go" process_go
    ∷ change T src "notification-service/go.mod" require_change
    ∷ [])

abbrev pub batch_processor_patch : Tools → (String → Text) → Option Text
batch_processor_patch T src =
    joined (batch_change T src ∷ change T src "batch-processor/Dockerfile" add_agent ∷ [])

-- The patch `name` after the program, from what it was before.
abbrev pub expected : Tools → (String → Text) → Json → String → Option Text → Option Text
expected T src pkg_patched name stale =
    if name == "batch-processor"
    then batch_processor_patch T src
    else if name == "notification-service"
    then notification_service_patch T src
    else if name == "transaction-service"
    then transaction_service_patch T src pkg_patched
    else if name == "fraud-detection"
    then fraud_detection_patch T src
    else if name == "gateway-api"
    then gateway_api_patch T src
    else stale

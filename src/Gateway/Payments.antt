-- ===== src/Gateway/Payments.antt =====
-- gateway-api/main.py, `initiate_payment`, `list_payments` and `validate_payment`.
pub mod Laws
pub mod Validate
use datadog_sample_finance.Shared.{
  ℕ, String, ◌<>◌, Bool, true, false, Option, none, some, [], ◌∷◌, eqb, ◌==◌, take_text,
  if◌then◌else◌,
}
use datadog_sample_finance.Shared.Float.{Float, negate, whole}
use datadog_sample_finance.Shared.Json.{
  Json, null, bool, num, str, arr, obj, nil, end, field, Fields, get_or, fields_of, truthy,
}
use datadog_sample_finance.Python.{
  Io, Result, ok, raised, http_exception, attribute_error, type_error, value_error,
  validation_error, is_http_error, pure, lift, or_raise, try_except, to_float, ◌>>=◌, ◌>>◌,
}
use datadog_sample_finance.Gateway.Http.{
  Env, World, Request, Response, http_get, http_post, http_patch, account_service,
  transaction_service, info, warning, error, log_event, raise_for_status, response_json, ask, send,
}
use datadog_sample_finance.Gateway.Models.{
  PaymentRequest, PaymentResponse, PaymentValidationRequest, payment_response,
}
use datadog_sample_finance.Gateway.Roles.{require_role, payment_roles, validation_roles, user_roles}
use datadog_sample_finance.Gateway.Transfer.{balance_patch}

abbrev pub payments_post : String → PaymentRequest → Request
payments_post payment_id payload = record {
  method = http_post;
  base = transaction_service;
  path = "v1" ∷ "payments" ∷ [];
  json = some (
      obj (
        field "payment_id" (str payment_id) (
          field "amount" (num payload.amount) (
            field "currency" (str payload.currency)
              (field "account_id" (str payload.account_id) end)))));
}

abbrev pub alert_post : PaymentRequest → Request
alert_post payload = record {
  method = http_post;
  base = account_service;
  path = "v1" ∷ "accounts" ∷ payload.account_id ∷ "payment-alert" ∷ [];
  json = some (obj (field "currency" (str payload.currency) end));
}

abbrev pub payments_get : Request
payments_get = record {
  method = http_get;
  base = transaction_service;
  path = "v1" ∷ "payments" ∷ [];
  json = none;
}

abbrev pub optional_str : Option String → Json
optional_str none = null
optional_str (some s) = str s

abbrev pub payment_patch : String → PaymentValidationRequest → Request
payment_patch payment_id body = record {
  method = http_patch;
  base = transaction_service;
  path = "v1" ∷ "payments" ∷ payment_id ∷ [];
  json = some (obj (field "status" (str body.action) (field "note" (optional_str body.note) end)));
}

abbrev pub payment_reason : String
payment_reason = "is read-only. Requires finance-trader or finance-admin to initiate payments."

abbrev pub validation_reason : String
validation_reason = "cannot validate payments. Requires finance-compliance or finance-admin."

module _ (E : Env) where
  abbrev W : Type 0
  W = World E.State

  -- A value in a formatted string.
  unfoldable pub show : Json → String
  show (str s) = s
  show v = E.display v

  -- The ledger write, and its fallback when the service does not answer with success.
  unfoldable pub submit_payment : String → PaymentRequest → Io W Json
  submit_payment payment_id payload =
      try_except
        (do
          r ← send E (payments_post payment_id payload)
          raise_for_status r
          v ← response_json r
          d ← or_raise (fields_of v) attribute_error
          pure (get_or "status" d (str "pending")))
        is_http_error
        (λ _. do log_event warning "transaction-service.unreachable"; pure (str "pending"))

  -- The alert, which must never fail the payment.
  unfoldable pub send_alert : PaymentRequest → Io W (Unit {0})
  send_alert payload =
      try_except
        (do
          r ← send E (alert_post payload)
          if eqb r.status_code 404
              then log_event warning "payment.alert.account_not_found"
              else pure tt)
        is_http_error (λ _. log_event warning "payment.alert.unreachable")

  unfoldable pub initiate_payment : PaymentRequest → Fields → Io W PaymentResponse
  initiate_payment payload claims = do
    require_role payment_roles (log_event warning "payment.authorize.forbidden") payment_reason
        (user_roles claims)
    hex ← ask E.uuid4_hex
    let payment_id = "pay-" <> take_text 12 hex
    log_event info "payment.authorize.start"
    tx_status ← submit_payment payment_id payload
    send_alert payload
    log_event info "payment.authorize.complete"
    or_raise (payment_response payment_id tx_status payload) validation_error

  unfoldable pub list_payments : Fields → Io W Json
  list_payments claims = do
    log_event info "payment.list"
    try_except (do r ← send E payments_get; raise_for_status r; response_json r) is_http_error
        λ _. do log_event warning "transaction-service.unreachable"; pure (arr nil)

  -- The decision, forwarded to the transaction service.
  unfoldable pub forward_decision : String → PaymentValidationRequest → Io W Json
  forward_decision payment_id body =
      try_except
        (do r ← send E (payment_patch payment_id body); raise_for_status r; response_json r)
        is_http_error
        (λ _. do
          log_event error "transaction-service.validate.failed"
          lift (raised (http_exception 502 "Could not reach transaction-service")))

  -- The debit that follows an approval: a failure is logged and does not undo the approval.
  unfoldable pub debit_account : Json → Json → Io W (Unit {0})
  debit_account account_id amount =
      try_except
        (do
          x ← lift (to_float E.parse_float amount)
          r ← send E (balance_patch (show account_id) (negate x))
          raise_for_status r
          log_event info "account.balance.debited")
        is_http_error (λ _. log_event error "account.balance.debit.failed")

  unfoldable pub debit_approved : Json → Io W (Unit {0})
  debit_approved payment_data = do
    d ← or_raise (fields_of payment_data) attribute_error
    let account_id = get_or "account_id" d null
    let amount = get_or "amount" d (num (whole 0))
    if truthy account_id then debit_account account_id amount else pure tt

  unfoldable pub validate_payment : String → PaymentValidationRequest → Fields → Io W Json
  validate_payment payment_id body claims = do
    require_role validation_roles (log_event warning "payment.validate.forbidden") validation_reason
        (user_roles claims)
    log_event info "payment.validate"
    payment_data ← forward_decision payment_id body
    if body.action == "approved" then debit_approved payment_data else pure tt
    pure payment_data

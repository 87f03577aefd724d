-- ===== src/Gateway/Routes.antt =====
-- gateway-api/main.py, the routes: a body that is no JSON is refused at once; then each route but
-- `/health` depends on `verify_token`, then its body is read by its model, then the handler runs; fastapi makes a status of what comes out, and the middleware
-- logs both ends of the request.
pub mod Laws
use datadog_sample_finance.Shared.{ℕ, String, Option, none, some, List, [], ◌∷◌}
use datadog_sample_finance.Shared.Json.{Json, str, obj, field, end, Fields, arr, Items, nil, cons}
use datadog_sample_finance.Python.{
  Io, Result, ok, raised, Exception, http_exception, request_validation_error, validation_error,
  pure, or_raise, ◌>>=◌, ◌>>◌,
}
use datadog_sample_finance.Gateway.Http.{Env, World, info, log_event, ask}
use datadog_sample_finance.Gateway.Auth.{verify_token}
use datadog_sample_finance.Gateway.Models.{
  BalanceResponse, DepositResponse, TransferResponse, PaymentResponse, PaymentDetail, parse_payment,
  parse_deposit, parse_transfer, parse_validation, parse_payment_detail,
}
use datadog_sample_finance.Gateway.Transfer.{transfer}
use datadog_sample_finance.Gateway.Payments.{initiate_payment, list_payments, validate_payment}
use datadog_sample_finance.Gateway.Accounts.{deposit, get_account_balance}

-- A call of one of the routes, with its path parameters and its body, which is `none` when it is no
-- JSON.
pub data Call : Type 0 where
  health list_payments_call : Call
  validate_payment_call deposit_call : String → Option Json → Call
  transfer_call initiate_payment_call : Option Json → Call
  get_account_balance_call : String → Call

-- What a route returns.
pub data Payload : Type 0 where
  service_health : Json → Payload
  payment_list : List PaymentDetail → Payload
  payment_detail : PaymentDetail → Payload
  deposit_done : DepositResponse → Payload
  transfer_done : TransferResponse → Payload
  payment_initiated : PaymentResponse → Payload
  account_balance : BalanceResponse → Payload

-- A response: its status, and its payload if the handler returned one.
pub record Answer : Type 0 where
  pub status : ℕ
  pub payload : Option Payload

abbrev pub success_status : Call → ℕ
success_status (transfer_call raw) = 201
success_status (initiate_payment_call raw) = 201
success_status c = 200

-- The exceptions that fastapi answers itself; any other one passes through the middleware.
abbrev pub answered_status : Exception → Option ℕ
answered_status (http_exception s detail) = some s
answered_status request_validation_error = some 422
answered_status e = none

module _ (E : Env) where
  abbrev W : Type 0
  W = World E.State

  abbrev read_body : {B : Type 0} → (Json → Option B) → Json → Io W B
  read_body parse raw = or_raise (parse raw) request_validation_error

  -- fastapi decodes a body before it solves the dependencies of the route.
  abbrev decoded : Option Json → Io W Json
  decoded body = or_raise body request_validation_error

  -- The response model `list[PaymentDetail]`.
  abbrev details_of_items : Items → Option (List PaymentDetail)
  details_of_items nil = some []
  details_of_items (cons v vs) = elim (parse_payment_detail E.coerce_float v) [
    | none ↦ none
    | some d ↦ elim (details_of_items vs) [ none ↦ none | some ds ↦ some (d ∷ ds) ]
  ]

  abbrev details : Json → Option (List PaymentDetail)
  details (arr vs) = details_of_items vs
  details v = none

  unfoldable pub route : Option String → Call → Io W Payload
  route header health =
      pure
        (service_health (obj (field "status" (str "ok") (field "service" (str "gateway-api") end))))
  route header list_payments_call = do
    claims ← verify_token E header
    v ← list_payments E claims
    ds ← or_raise (details v) validation_error
    pure (payment_list ds)
  route header (validate_payment_call payment_id sent) = do
    raw ← decoded sent
    claims ← verify_token E header
    body ← read_body (parse_validation) raw
    v ← validate_payment E payment_id body claims
    d ← or_raise (parse_payment_detail E.coerce_float v) validation_error
    pure (payment_detail d)
  route header (deposit_call account_id sent) = do
    raw ← decoded sent
    claims ← verify_token E header
    body ← read_body (parse_deposit E.coerce_float) raw
    r ← deposit E account_id body claims
    pure (deposit_done r)
  route header (transfer_call sent) = do
    raw ← decoded sent
    claims ← verify_token E header
    body ← read_body (parse_transfer E.coerce_float) raw
    r ← transfer E body claims
    pure (transfer_done r)
  route header (initiate_payment_call sent) = do
    raw ← decoded sent
    claims ← verify_token E header
    body ← read_body (parse_payment E.coerce_float) raw
    r ← initiate_payment E body claims
    pure (payment_initiated r)
  route header (get_account_balance_call account_id) = do
    claims ← verify_token E header
    r ← get_account_balance E account_id claims
    pure (account_balance r)

  abbrev answer_of : ℕ → Result Payload → Result Answer
  answer_of success (ok p) = ok (record { status = success; payload = some p })
  answer_of success (raised e) = elim (answered_status e) [
    | none ↦ raised e
    | some s ↦ ok (record { status = s; payload = none })
  ]

  -- What the middleware sees of a route.
  unfoldable pub call_route : Option String → Call → Io W Answer
  call_route header c w = let (r, w') = route header c w in (answer_of (success_status c) r, w')

  unfoldable pub log_requests : Io W Answer → Io W Answer
  log_requests call_next = do
    request_id ← ask E.uuid4_hex
    log_event info "request.started"
    response ← call_next
    log_event info "request.finished"
    pure response

-- ===== src/Gateway/Payments/Laws.antt =====
-- `initiate_payment` and `list_payments` on every answer of the services: fallbacks and the requests
-- they send.
use datadog_sample_finance.Shared.{
  String, ◌<>◌, ◌≡◌, ◌⊎◌, true, false, ◌&&◌, some, arith, leb, take_text,
}
use datadog_sample_finance.Shared.Json.{arr, nil, str, obj, Fields, get_or}
use datadog_sample_finance.Python.{
  Result, ok, raised, Exception, json_decode_error, attribute_error, validation_error,
}
use datadog_sample_finance.Gateway.Http.{
  Env, World, Response, Reply, answered, unreachable, log_event, warning, info,
}
use datadog_sample_finance.Gateway.Models.{PaymentRequest, PaymentResponse, payment_response}
use datadog_sample_finance.Gateway.Roles.{payment_roles}
use datadog_sample_finance.Gateway.Roles.Laws.{is_permitted, require_role_permitted}
use datadog_sample_finance.Gateway.Payments.{
  payment_reason, payments_post, alert_post, payments_get, submit_payment, send_alert,
  initiate_payment, list_payments,
}

-- The answer is no success: there is none, or its status lies outside 200 to 299.
abbrev pub IsFailure : Reply → Type 0
IsFailure unreachable = Unit
IsFailure (answered r) = (leb 200 r.status_code && leb r.status_code 299) ≡ false

-- What `initiate_payment` reports of a payment: its own id, and the request's values.
abbrev pub Echoes : String → PaymentRequest → Result PaymentResponse → Type 0
Echoes hex payload (ok r) =
    (r.payment_id ≡ "pay-" <> take_text 12 hex)
    × (r.amount ≡ payload.amount)
    × (r.currency ≡ payload.currency)
    × (r.account_id ≡ payload.account_id)
Echoes hex payload (raised e) =
    (e ≡ json_decode_error) ⊎ (e ≡ attribute_error) ⊎ (e ≡ validation_error)

module _ (E : Env) where
  send_alert_quiet :
      (payload : PaymentRequest) (w : World E.State) → (send_alert E payload w).0 ≡ ok tt
  unfolding send_alert
  send_alert_quiet payload w = ground arith

  submit_payment-raised :
      (id : String) (payload : PaymentRequest) (w : World E.State) (e : Exception)
      → (submit_payment E id payload w).0 ≡ raised e
      → (e ≡ json_decode_error) ⊎ (e ≡ attribute_error)
  unfolding submit_payment
  submit_payment-raised id payload w e h = ground arith

  submit_payment_fallback :
      (id : String) (payload : PaymentRequest) (w : World E.State)
      → IsFailure (E.exchange (payments_post id payload) w.env).0
      → (submit_payment E id payload w).0 ≡ ok (str "pending")
  unfolding submit_payment
  submit_payment_fallback id payload w h = ground arith

  module _ (payload : PaymentRequest) (claims : Fields) (w : World E.State)
      (permitted : is_permitted payment_roles claims ≡ true) where
    abbrev payment_id : String
    payment_id = "pay-" <> take_text 12 (E.uuid4_hex w.env).0

    -- The worlds in which the payment is submitted, and in which the alert is sent.
    abbrev submitting : World E.State
    submitting =
        (log_event info "payment.authorize.start" (record w { env = (E.uuid4_hex w.env).1 })).1

    abbrev alerting : World E.State
    alerting = (submit_payment E payment_id payload submitting).1

    -- For a permitted caller `initiate_payment` either returns the request's amount, currency and
    -- account under a fresh `pay-` id, or raises for a success of the transaction service whose
    -- body is not JSON, no object, or has a status that is no text. Nothing else makes it fail.
    pub initiate_payment-Echoes :
        Echoes (E.uuid4_hex w.env).0 payload (initiate_payment E payload claims w).0
    unfolding initiate_payment payment_response
    initiate_payment-Echoes = grind (
      arith,
      require_role_permitted payment_roles (log_event warning "payment.authorize.forbidden")
          payment_reason claims w permitted,
      submit_payment-raised payment_id payload submitting,
      send_alert_quiet payload alerting,
    )

    -- For a permitted caller: if the transaction service gives no success, the payment is answered
    -- as pending, under a fresh `pay-` id, whatever the answer to the alert is.
    pub initiate_payment_fallback :
        IsFailure (E.exchange (payments_post payment_id payload) (E.uuid4_hex w.env).1).0
        → (initiate_payment E payload claims w).0
          ≡ ok (record {
            payment_id = payment_id;
            status = "pending";
            amount = payload.amount;
            currency = payload.currency;
            account_id = payload.account_id;
          })
    unfolding initiate_payment payment_response
    initiate_payment_fallback failed = ground (
      arith,
      require_role_permitted payment_roles (log_event warning "payment.authorize.forbidden")
          payment_reason claims w permitted,
      submit_payment_fallback payment_id payload submitting failed,
      send_alert_quiet payload alerting,
    )

    submit_payment_accepted :
        (r : Response) (d : Fields) (status : String)
        → (E.exchange (payments_post payment_id payload) submitting.env).0 ≡ answered r
        → leb 200 r.status_code ≡ true
        → leb r.status_code 299 ≡ true
        → r.body ≡ some (obj d)
        → get_or "status" d (str "pending") ≡ str status
        → submit_payment E payment_id payload submitting ≡ (
          ok (str status),
          record submitting {
            env = (E.exchange (payments_post payment_id payload) submitting.env).1;
          },
        )
    unfolding submit_payment
    submit_payment_accepted r d status e lo hi b es = ground arith

    send_alert_env :
        (v : World E.State)
        → (send_alert E payload v).1.env ≡ (E.exchange (alert_post payload) v.env).1
    unfolding send_alert
    send_alert_env v = ground arith

    -- For a permitted caller and an accepted payment, the requests are the submission and the alert.
    pub initiate_payment_accepted :
        (r : Response) (d : Fields) (status : String)
        → (E.exchange (payments_post payment_id payload) (E.uuid4_hex w.env).1).0 ≡ answered r
        → leb 200 r.status_code ≡ true
        → leb r.status_code 299 ≡ true
        → r.body ≡ some (obj d)
        → get_or "status" d (str "pending") ≡ str status
        → ((initiate_payment E payload claims w).0
            ≡ ok (record {
              payment_id = payment_id;
              status = status;
              amount = payload.amount;
              currency = payload.currency;
              account_id = payload.account_id;
            }))
          × ((initiate_payment E payload claims w).1.env
              ≡ (E.exchange
                  (alert_post payload)
                  (E.exchange (payments_post payment_id payload) (E.uuid4_hex w.env).1).1).1)
    unfolding initiate_payment payment_response
    initiate_payment_accepted r d status e lo hi b es =
        let checked =
          require_role_permitted payment_roles (log_event warning "payment.authorize.forbidden")
            payment_reason claims w permitted in
        let submitted = submit_payment_accepted r d status e lo hi b es in
        (
          ground (arith, checked, submitted, send_alert_quiet payload alerting),
          ground (
            arith,
            checked,
            submitted,
            send_alert_quiet payload alerting,
            send_alert_env alerting,
          ),
        )

  -- Without a success of the transaction service `list_payments` answers the empty list, after
  -- one request.
  pub list_payments_fallback :
      (claims : Fields) (w : World E.State)
      → IsFailure (E.exchange payments_get w.env).0
      → ((list_payments E claims w).0 ≡ ok (arr nil))
        × ((list_payments E claims w).1.env ≡ (E.exchange payments_get w.env).1)
  unfolding list_payments
  list_payments_fallback claims w h = (ground arith, ground arith)

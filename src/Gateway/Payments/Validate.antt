-- ===== src/Gateway/Payments/Validate.antt =====
-- `validate_payment` on every answer of the services: its result and the requests it sends.
use datadog_sample_finance.Shared.{String, ◌≡◌, ◌≢◌, true, some, arith, leb}
use datadog_sample_finance.Shared.Float.{Float, negate}
use datadog_sample_finance.Shared.Json.{Json, num, str, obj, Fields, get, get_or, truthy}
use datadog_sample_finance.Python.{ok, raised, http_exception, to_float}
use datadog_sample_finance.Gateway.Http.{Env, World, Response, Reply, answered, log_event, warning}
use datadog_sample_finance.Gateway.Models.{PaymentValidationRequest}
use datadog_sample_finance.Gateway.Roles.{validation_roles, require_role, user_roles}
use datadog_sample_finance.Gateway.Roles.Laws.{is_permitted, require_role_permitted}
use datadog_sample_finance.Gateway.Transfer.{balance_patch}
use datadog_sample_finance.Gateway.Payments.{
  validation_reason, payment_patch, forward_decision, debit_account, debit_approved,
  validate_payment, show,
}
use datadog_sample_finance.Gateway.Payments.Laws.{IsFailure}

module _ (E : Env) where
  module _ (payment_id : String) (body : PaymentValidationRequest) (claims : Fields)
      (w : World E.State) (permitted : is_permitted validation_roles claims ≡ true) where
    role_check :
        require_role validation_roles
          (log_event warning "payment.validate.forbidden")
          validation_reason
          (user_roles claims)
          w
        ≡ (ok tt, w)
    role_check =
        require_role_permitted validation_roles (log_event warning "payment.validate.forbidden")
          validation_reason claims w permitted

    abbrev decision : Reply × E.State
    decision = E.exchange (payment_patch payment_id body) w.env

    -- For a permitted caller: if the transaction service gives no success the answer is 502, and
    -- the decision was the one request that was sent, so no account is touched.
    pub validate_payment_refusal :
        IsFailure decision.0
        → ((validate_payment E payment_id body claims w).0
            ≡ raised (http_exception 502 "Could not reach transaction-service"))
          × ((validate_payment E payment_id body claims w).1.env ≡ decision.1)
    unfolding validate_payment forward_decision
    validate_payment_refusal h = (ground (arith, role_check), ground (arith, role_check))

    -- For a permitted caller and every action but `approved` the decision is the one request that
    -- is sent, so no account is touched, and the JSON body of the success that answers it is
    -- returned.
    pub validate_payment_undebited :
        (r : Response) (v : Json)
        → body.action ≢ "approved"
        → decision.0 ≡ answered r
        → leb 200 r.status_code ≡ true
        → leb r.status_code 299 ≡ true
        → r.body ≡ some v
        → ((validate_payment E payment_id body claims w).0 ≡ ok v)
          × ((validate_payment E payment_id body claims w).1.env ≡ decision.1)
    unfolding validate_payment forward_decision
    validate_payment_undebited r v other e lo hi b =
        (ground (arith, role_check), ground (arith, role_check))

    -- An approval, for a permitted caller, that the transaction service confirms with a payment
    -- object that names its account and its amount: the payment is returned, and one more request
    -- is sent, the debit of that account by that amount; its answer changes nothing of the result.
    pub validate_payment_approval :
        (r : Response) (d : Fields) (account_id : String) (x : Float)
        → body.action ≡ "approved"
        → decision.0 ≡ answered r
        → leb 200 r.status_code ≡ true
        → leb r.status_code 299 ≡ true
        → r.body ≡ some (obj d)
        → get "account_id" d ≡ some (str account_id)
        → account_id ≢ ""
        → get "amount" d ≡ some (num x)
        → ((validate_payment E payment_id body claims w).0 ≡ ok (obj d))
          × ((validate_payment E payment_id body claims w).1.env
              ≡ (E.exchange (balance_patch account_id (negate x)) decision.1).1)
    unfolding validate_payment forward_decision debit_approved debit_account show to_float get_or
        truthy
    validate_payment_approval r d account_id x approved e lo hi b ea ne ex =
        ground (arith, role_check)

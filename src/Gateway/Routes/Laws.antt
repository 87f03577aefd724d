-- ===== src/Gateway/Routes/Laws.antt =====
-- The routes as a whole: what a request meets before its handler, and the bodies that do
-- not fit their models.
use datadog_sample_finance.Shared.{String, ◌≡◌, ◌⊎◌, Option, none, some, arith}
use datadog_sample_finance.Shared.Json.{Fields}
use datadog_sample_finance.Python.{ok, raised, Exception, request_validation_error}
use datadog_sample_finance.Gateway.Http.{Env, World}
use datadog_sample_finance.Gateway.Auth.{verify_token, bearer_token}
use datadog_sample_finance.Gateway.Auth.Verify.{Decodes, IsFinance}
use datadog_sample_finance.Gateway.Models.{
  parse_payment, parse_deposit, parse_transfer, parse_validation,
}
use datadog_sample_finance.Gateway.Routes.{
  Call, validate_payment_call, deposit_call, transfer_call, initiate_payment_call, route,
  call_route,
}

-- The body that a call carries is no JSON.
abbrev pub IsUndecodable : Call → Type 0
IsUndecodable (validate_payment_call id none) = Unit
IsUndecodable (deposit_call id none) = Unit
IsUndecodable (transfer_call none) = Unit
IsUndecodable (initiate_payment_call none) = Unit
IsUndecodable c = ⊥

module _ (E : Env) (header : Option String) (w : World E.State) where
  -- What `verify_token` has found in an accepted header.
  abbrev pub Accepted : Type 0
  Accepted =
      (token : String) × (claims : Fields) × (bearer_token header ≡ some token)
      × Decodes E token (verify_token E header w).1 claims
      × IsFinance claims

  -- How a request ends: see `route_needs_token`.
  abbrev pub Ends : Call → Type 0
  Ends c =
      (IsUndecodable c × (route E header c w ≡ (raised request_validation_error, w)))
      ⊎ ((e : Exception) × ((verify_token E header w).0 ≡ raised e)
          × (route E header c w ≡ (raised e, (verify_token E header w).1)))
      ⊎ ((IsUndecodable c → ⊥) × Accepted)

  -- The body of a call, as its model reads it.
  abbrev BadBody : Call → Type 0
  BadBody (validate_payment_call id (some raw)) = parse_validation raw ≡ none
  BadBody (deposit_call id (some raw)) = parse_deposit E.coerce_float raw ≡ none
  BadBody (transfer_call (some raw)) = parse_transfer E.coerce_float raw ≡ none
  BadBody (initiate_payment_call (some raw)) = parse_payment E.coerce_float raw ≡ none
  BadBody c = ⊥

  -- With an accepted token, a body that does not fit its model is answered with 422, and the
  -- handler is not run.
  pub call_route-BadBody :
      (c : Call) (claims : Fields)
      → BadBody c
      → (verify_token E header w).0 ≡ ok claims
      → call_route E header c w
        ≡ (ok (record { status = 422; payload = none }), (verify_token E header w).1)
  unfolding call_route route
  call_route-BadBody (validate_payment_call id (some raw)) claims bad v = ground (arith, bad, v)
  call_route-BadBody (deposit_call id (some raw)) claims bad v = ground (arith, bad, v)
  call_route-BadBody (transfer_call (some raw)) claims bad v = ground (arith, bad, v)
  call_route-BadBody (initiate_payment_call (some raw)) claims bad v = ground (arith, bad, v)
  call_route-BadBody _ claims bad v = absurd bad

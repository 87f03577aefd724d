-- ===== src/Gateway/Accounts.antt =====
-- gateway-api/main.py, `deposit` and `get_account_balance`.
pub mod Laws
use datadog_sample_finance.Shared.{String, Option, none, some, [], ◌∷◌, not}
use datadog_sample_finance.Shared.Float.{Float, whole}
use datadog_sample_finance.Shared.Json.{
  Json, num, str, null, bool, arr, obj, Fields, get, get_or, fields_of,
}
use datadog_sample_finance.Python.{
  Io, Result, ok, raised, http_exception, attribute_error, type_error, key_error, validation_error,
  is_http_error, pure, lift, or_raise, raise_if, try_except, index, ◌>>=◌, ◌>>◌,
}
use datadog_sample_finance.Gateway.Http.{
  Env, World, Request, http_get, account_service, info, warning, error, log_event, raise_for_status,
  response_json, send,
}
use datadog_sample_finance.Gateway.Auth.{contains_in}
use datadog_sample_finance.Gateway.Models.{
  DepositRequest, DepositResponse, BalanceResponse, deposit_response, balance_response,
}
use datadog_sample_finance.Gateway.Roles.{user_roles}
use datadog_sample_finance.Gateway.Transfer.{balance_patch, patch_balance}

abbrev pub balance_get : String → Request
balance_get account_id = record {
  method = http_get;
  base = account_service;
  path = "v1" ∷ "accounts" ∷ account_id ∷ "balance" ∷ [];
  json = none;
}

module _ (E : Env) where
  abbrev W : Type 0
  W = World E.State

  -- The credit of a deposit, and the account service's answer.
  unfoldable pub credit_account : String → Float → Io W Json
  credit_account account_id amount =
      try_except
        (do r ← send E (balance_patch account_id amount); raise_for_status r; response_json r)
        is_http_error
        (λ _. do
          log_event error "account.deposit.failed"
          lift (raised (http_exception 502 "Could not reach account-service")))

  unfoldable pub deposit : String → DepositRequest → Fields → Io W DepositResponse
  deposit account_id body claims = do
    is_admin ← lift (contains_in "finance-admin" (user_roles claims))
    raise_if (not is_admin)
        (http_exception 403 "Only finance-admin may deposit funds into an account.")
    log_event info "account.deposit"
    answer ← credit_account account_id body.amount
    id ← lift (index "accountId" answer)
    balance ← lift (index "balance" answer)
    currency ← lift (index "currency" answer)
    tier ← lift (index "tier" answer)
    or_raise (deposit_response E.coerce_float id body.amount balance currency tier) validation_error

  -- The balance and its currency, or the stub values where the service gives no success.
  unfoldable pub fetch_balance : String → Io W (Json × Json)
  fetch_balance account_id =
      try_except
        (do
          r ← send E (balance_get account_id)
          raise_for_status r
          v ← response_json r
          d ← or_raise (fields_of v) attribute_error
          pure (get_or "balance" d (num (whole 0)), get_or "currency" d (str "USD")))
        is_http_error
        (λ _. do log_event warning "account-service.unreachable"; pure (num (whole 0), str "USD"))

  unfoldable pub get_account_balance : String → Fields → Io W BalanceResponse
  get_account_balance account_id claims = do
    log_event info "account.balance_check.start"
    found ← fetch_balance account_id
    log_event info "account.balance_check.complete"
    or_raise (balance_response E.coerce_float account_id found.0 found.1) validation_error

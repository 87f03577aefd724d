-- ===== src/Gateway/Accounts/Laws.antt =====
-- `get_account_balance` and `deposit` on every answer of account-service.
use datadog_sample_finance.Shared.{String, ◌≡◌, true, some, arith, leb}
use datadog_sample_finance.Shared.Float.{Float, whole}
use datadog_sample_finance.Shared.Json.{num, str, obj, Fields, get, get_or}
use datadog_sample_finance.Python.{ok, raised, http_exception, index}
use datadog_sample_finance.Gateway.Http.{Env, World, Response, answered}
use datadog_sample_finance.Gateway.Auth.{contains_in}
use datadog_sample_finance.Gateway.Models.{DepositRequest, balance_response, deposit_response}
use datadog_sample_finance.Gateway.Roles.{user_roles}
use datadog_sample_finance.Gateway.Transfer.{balance_patch}
use datadog_sample_finance.Gateway.Accounts.{
  balance_get, fetch_balance, get_account_balance, credit_account, deposit,
}
use datadog_sample_finance.Gateway.Payments.Laws.{IsFailure}

module _ (E : Env) (account_id : String) (claims : Fields) (w : World E.State) where
  -- Where pydantic takes numbers as floats: without a success of account-service, also where it
  -- answers that the account is unknown, the balance is reported as 0.0 USD, after one GET.
  pub get_account_balance_fallback :
      ((x : Float) → E.coerce_float (num x) ≡ some x)
      → IsFailure (E.exchange (balance_get account_id) w.env).0
      → ((get_account_balance E account_id claims w).0
          ≡ ok (record { account_id = account_id; balance = whole 0; currency = "USD" }))
        × ((get_account_balance E account_id claims w).1.env
            ≡ (E.exchange (balance_get account_id) w.env).1)
  unfolding get_account_balance fetch_balance balance_response
  get_account_balance_fallback coerced h = (ground (arith, coerced (whole 0)), ground arith)

  -- Where pydantic takes numbers as floats: a success of account-service that carries a numeric
  -- balance and a currency is reported as it is.
  pub get_account_balance_success :
      (a : Response) (d : Fields) (x : Float) (currency : String)
      → ((x : Float) → E.coerce_float (num x) ≡ some x)
      → (E.exchange (balance_get account_id) w.env).0 ≡ answered a
      → leb 200 a.status_code ≡ true
      → leb a.status_code 299 ≡ true
      → a.body ≡ some (obj d)
      → get "balance" d ≡ some (num x)
      → get "currency" d ≡ some (str currency)
      → (get_account_balance E account_id claims w).0
        ≡ ok (record { account_id = account_id; balance = x; currency = currency })
  unfolding get_account_balance fetch_balance balance_response get_or
  get_account_balance_success a d x currency coerced e lo hi b eb ec = ground (arith, coerced x)

  -- A deposit by a finance-admin that account-service does not confirm with success ends in 502;
  -- its one request is the credit of the amount.
  pub deposit_failure :
      (body : DepositRequest)
      → contains_in "finance-admin" (user_roles claims) ≡ ok true
      → IsFailure (E.exchange (balance_patch account_id body.amount) w.env).0
      → ((deposit E account_id body claims w).0
          ≡ raised (http_exception 502 "Could not reach account-service"))
        × ((deposit E account_id body claims w).1.env
            ≡ (E.exchange (balance_patch account_id body.amount) w.env).1)
  unfolding deposit credit_account
  deposit_failure body admin h = (ground arith, ground arith)

  -- Where pydantic takes numbers as floats: a deposit by a finance-admin sends one request, the
  -- credit of the amount, and reports the account that a success of account-service describes.
  pub deposit_success :
      (body : DepositRequest) (a : Response) (d : Fields) (x : Float) (id currency tier : String)
      → contains_in "finance-admin" (user_roles claims) ≡ ok true
      → ((x : Float) → E.coerce_float (num x) ≡ some x)
      → (E.exchange (balance_patch account_id body.amount) w.env).0 ≡ answered a
      → leb 200 a.status_code ≡ true
      → leb a.status_code 299 ≡ true
      → a.body ≡ some (obj d)
      → get "accountId" d ≡ some (str id)
      → get "balance" d ≡ some (num x)
      → get "currency" d ≡ some (str currency)
      → get "tier" d ≡ some (str tier)
      → ((deposit E account_id body claims w).0
          ≡ ok (record {
            account_id = id;
            deposited = body.amount;
            balance = x;
            currency = currency;
            tier = tier;
          }))
        × ((deposit E account_id body claims w).1.env
            ≡ (E.exchange (balance_patch account_id body.amount) w.env).1)
  unfolding deposit credit_account deposit_response index
  deposit_success body a d x id currency tier admin coerced e lo hi b ei eb ec et =
      (ground (arith, coerced x), ground arith)

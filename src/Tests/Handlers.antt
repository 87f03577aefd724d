-- ===== src/Tests/Handlers.antt =====
-- The role checks, the account handlers and the models at concrete data.
use Prim.Native.String.{count}
use datadog_sample_finance.Shared.{none, ◌⊎◌, ◌≡◌, refl, some, [], ◌∷◌, String-discrete}
use datadog_sample_finance.Shared.Int.{pos, ◌+ℤ◌}
use datadog_sample_finance.Shared.Float.{nan, less, finite, whole}
use datadog_sample_finance.Shared.Json.{Json, Fields, get, get_or, obj, str, num, end, field}
use datadog_sample_finance.Shared.Dict.{lookup}
use datadog_sample_finance.Python.{ok}
use datadog_sample_finance.Gateway.Http.{answered}
use datadog_sample_finance.Gateway.Models.{
  TransferRequest, DepositRequest, PaymentRequest, PaymentValidationRequest, parse_transfer,
  parse_payment, parse_deposit, parse_validation,
}
use datadog_sample_finance.Gateway.Models.Valid.{IsPositive, bodies_valid}
use datadog_sample_finance.Gateway.Roles.Laws.{IsRefused, handlers_refuse}
use datadog_sample_finance.Gateway.Transfer.{transfer, balance_patch}
use datadog_sample_finance.Gateway.Payments.{initiate_payment, validate_payment}
use datadog_sample_finance.Gateway.Accounts.{balance_get, deposit, get_account_balance}
use datadog_sample_finance.Gateway.Accounts.Laws.{get_account_balance_fallback}
use datadog_sample_finance.Services.Accounts.{Account, get_balance, update_balance, apply_delta}
use datadog_sample_finance.Services.Stack.{refuse, exchange, under_fault, serve_at, serve_accounts}
use datadog_sample_finance.Tests.Network.{
  no_trader, no_validator, no_admin, refused_IsFailure, success_of,
}
use datadog_sample_finance.Tests.Sample.{
  auditor, alice, env, library, world, transfer_of, decision, payment_request, deposit_request,
}

handlers_refuse_example :
    let w = world [] in
    IsRefused w (transfer env (transfer_of "acc-a" "acc-b") auditor w)
    × IsRefused w (initiate_payment env payment_request auditor w)
    × IsRefused w (validate_payment env "pay-1" (decision "approved") auditor w)
    × IsRefused w (deposit env "acc-a" deposit_request auditor w)
handlers_refuse_example =
    handlers_refuse env (world []) auditor (transfer_of "acc-a" "acc-b") payment_request "pay-1"
      (decision "approved") "acc-a" deposit_request no_trader no_validator no_admin

-- An account as its answers describe it.
abbrev fields_of_account : Account → Fields
fields_of_account a = field "accountId" (str a.id) (
    field "balance" (num (finite a.balance))
      (field "currency" (str a.currency) (field "tier" (str a.tier) end)))

abbrev richer : Account
richer = record alice { balance = pos 140 }

balance_answer :
    (env.exchange (balance_get "acc-a") (world []).env).0
    ≡ answered (success_of (obj (fields_of_account alice)))
unfolding exchange under_fault serve_at serve_accounts get_balance lookup String-discrete
balance_answer = refl

deposit_answer :
    (env.exchange (balance_patch "acc-a" (finite (pos 40))) (world []).env).0
    ≡ answered (success_of (obj (fields_of_account richer)))
unfolding exchange under_fault serve_at serve_accounts update_balance apply_delta get_or lookup
    String-discrete ◌+ℤ◌
deposit_answer = refl

account_id_field : (a : Account) → get "accountId" (fields_of_account a) ≡ some (str a.id)
unfolding get String-discrete
account_id_field a = refl

balance_field : (a : Account) → get "balance" (fields_of_account a) ≡ some (num (finite a.balance))
unfolding get String-discrete
balance_field a = refl

currency_field : (a : Account) → get "currency" (fields_of_account a) ≡ some (str a.currency)
unfolding get String-discrete
currency_field a = refl

tier_field : (a : Account) → get "tier" (fields_of_account a) ≡ some (str a.tier)
unfolding get String-discrete
tier_field a = refl

get_account_balance_fallback_example :
    let w = world (refuse 404 ∷ []) in
    ((get_account_balance env "acc-a" auditor w).0
      ≡ ok (record { account_id = "acc-a"; balance = whole 0; currency = "USD" }))
    × ((get_account_balance env "acc-a" auditor w).1.env
        ≡ (env.exchange (balance_get "acc-a") w.env).1)
get_account_balance_fallback_example =
    get_account_balance_fallback env "acc-a" auditor (world (refuse 404 ∷ [])) (λ x. refl)
      (refused_IsFailure (balance_get "acc-a") 404 refl)

abbrev transfer_body : Json
transfer_body = obj (
    field "from_account_id" (str "acc-a") (
      field "to_account_id" (str "acc-b")
        (field "amount" (num (finite (pos 40))) (field "currency" (str "EUR") end))))

abbrev payment_body : Json
payment_body =
    obj (
      field "amount" (num nan)
        (field "currency" (str "EUR") (field "account_id" (str "acc-a") end)))

abbrev deposit_body : Json
deposit_body = obj (field "amount" (num (finite (pos 40))) end)

abbrev action_body : Json
action_body = obj (field "action" (str "rejected") end)

abbrev read_transfer : TransferRequest
read_transfer = record {
  from_account_id = "acc-a";
  to_account_id = "acc-b";
  amount = finite (pos 40);
  currency = "EUR";
}

abbrev read_payment : PaymentRequest
read_payment = record { amount = nan; currency = "EUR"; account_id = "acc-a" }

abbrev read_deposit : DepositRequest
read_deposit = record { amount = finite (pos 40); note = none }

abbrev read_action : PaymentValidationRequest
read_action = record { action = "rejected"; note = none }

transfer_read : parse_transfer library.coerce_float transfer_body ≡ some read_transfer
unfolding parse_transfer get String-discrete less
transfer_read = refl

payment_read : parse_payment library.coerce_float payment_body ≡ some read_payment
unfolding parse_payment get String-discrete
payment_read = refl

deposit_read : parse_deposit library.coerce_float deposit_body ≡ some read_deposit
unfolding parse_deposit get String-discrete less
deposit_read = refl

action_read : parse_validation action_body ≡ some read_action
unfolding parse_validation get String-discrete
action_read = refl

bodies_valid_example :
    (IsPositive read_transfer.amount × (count read_transfer.currency ≡ 3))
    × (IsPositive read_payment.amount × (count read_payment.currency ≡ 3))
    × IsPositive read_deposit.amount
    × ((read_action.action ≡ "approved")
        ⊎ (read_action.action ≡ "rejected")
        ⊎ (read_action.action ≡ "flagged"))
bodies_valid_example =
    bodies_valid library.coerce_float transfer_body payment_body deposit_body action_body
      read_transfer read_payment read_deposit read_action transfer_read payment_read deposit_read
      action_read

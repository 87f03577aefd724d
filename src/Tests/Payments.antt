-- ===== src/Tests/Payments.antt =====
-- The payment handlers at concrete data.
use datadog_sample_finance.Shared.Int.{neg, ◌+ℤ◌}
use datadog_sample_finance.Gateway.Accounts.{deposit, get_account_balance}
use datadog_sample_finance.EndToEnd.Patch.{store_of, credited}
use datadog_sample_finance.EndToEnd.Lifecycle.{payment_id, stored_payment, payment_lifecycle}
use datadog_sample_finance.EndToEnd.Deposits.{deposit_then_balance}
use datadog_sample_finance.Tests.Network.{admin_deposits}
use text.Mathlib.TextEquality.{eq_iff}
use datadog_sample_finance.Shared.{◌≡◌, ◌≢◌, refl, none, some, [], String, String-discrete, arith}
use datadog_sample_finance.Shared.Int.{ℤ, pos}
use datadog_sample_finance.Shared.Float.{finite}
use datadog_sample_finance.Shared.Json.{Fields, null, get, get_or, obj, str, num, end, field}
use datadog_sample_finance.Shared.Dict.{lookup}
use datadog_sample_finance.Python.{ok}
use datadog_sample_finance.Gateway.Http.{answered}
use datadog_sample_finance.Gateway.Payments.{payment_patch, initiate_payment, validate_payment}
use datadog_sample_finance.Services.Payments.{
  find, put, same_key, patch_payment, decide, assign, js_truthy,
}
use datadog_sample_finance.Services.Stack.{exchange, under_fault, serve_at, serve_payments}
use datadog_sample_finance.Tests.Network.{admin_pays, admin_validates, named_account, success_of}
use datadog_sample_finance.Tests.Sample.{
  alice, library, deposit_request, admin, auditor, env, world, decision, payment_request,
}

-- The payment after a decision.
abbrev answer_to : String → Fields
answer_to action = field "payment_id" (str "pay-1") (
    field "amount" (num (finite (pos 25))) (
      field "currency" (str "EUR") (
        field "account_id" (str "acc-a") (
          field "status" (str action) (
            field "created_at" (str "2026-01-01T00:00:00Z")
              (field "note" null (field "validated_at" (str "2026-01-01T00:00:00Z") end)))))))

rejected_answer :
    (env.exchange (payment_patch "pay-1" (decision "rejected")) (world []).env).0
    ≡ answered (success_of (obj (answer_to "rejected")))
unfolding exchange under_fault serve_at serve_payments patch_payment decide assign js_truthy find
    same_key put get_or String-discrete
rejected_answer = refl

approved_answer :
    (env.exchange (payment_patch "pay-1" (decision "approved")) (world []).env).0
    ≡ answered (success_of (obj (answer_to "approved")))
unfolding exchange under_fault serve_at serve_payments patch_payment decide assign js_truthy find
    same_key put get_or String-discrete
approved_answer = refl

approved_account : get "account_id" (answer_to "approved") ≡ some (str "acc-a")
unfolding get String-discrete
approved_account = refl

approved_amount : get "amount" (answer_to "approved") ≡ some (num (finite (pos 25)))
unfolding get String-discrete
approved_amount = refl

rejected_ne_approved : ◌≢◌ {A = String} "rejected" "approved"
rejected_ne_approved = ground (arith, eq_iff "rejected" "approved")

not_zero : ◌≢◌ {A = ℤ} (pos 40) (pos 0)
not_zero = ground arith

priced : ◌≢◌ {A = String} "EUR" ""
priced = ground (arith, eq_iff "EUR" "")

payment_lifecycle_example :
    let w1 = (initiate_payment env payment_request admin (world [])).1 in
    let id = payment_id library payment_request (pos 40) refl not_zero priced named_account in
    (find id w1.env.payments
      ≡ some (stored_payment library payment_request (pos 40) refl not_zero priced named_account))
    × (store_of w1 ≡ store_of (world []))
    × (store_of (validate_payment env id (decision "approved") admin w1).1
        ≡ credited "acc-a" (neg (pos 40)) (store_of (world [])))
payment_lifecycle_example =
    payment_lifecycle library payment_request (pos 40) refl not_zero priced named_account admin
      admin none (world []) admin_pays admin_validates refl

stored_alice : lookup "acc-a" (store_of (world [])) ≡ some alice
unfolding lookup String-discrete
stored_alice = refl

deposit_then_balance_example :
    let (r, w1) = deposit env "acc-a" deposit_request admin (world []) in
    (r
      ≡ ok (record {
        account_id = "acc-a";
        deposited = finite (pos 40);
        balance = finite (pos 100 +ℤ pos 40);
        currency = "EUR";
        tier = "premium";
      }))
    × ((get_account_balance env "acc-a" auditor w1).0
        ≡ ok (record {
          account_id = "acc-a";
          balance = finite (pos 100 +ℤ pos 40);
          currency = "EUR";
        }))
deposit_then_balance_example =
    deposit_then_balance library "acc-a" alice deposit_request (pos 40) admin auditor (world [])
      (λ y. refl) refl admin_deposits refl stored_alice

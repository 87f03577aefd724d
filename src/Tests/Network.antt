-- ===== src/Tests/Network.antt =====
-- Requests that a proxy answers or that get lost, and the roles of the callers.
use text.Mathlib.TextEquality.{eq_iff}
use datadog_sample_finance.Shared.{
  ◌≡◌, ◌≢◌, refl, true, false, some, none, [], ◌∷◌, ◌&&◌, ℕ, String, String-discrete, contains,
  arith, leb,
}
use datadog_sample_finance.Shared.Json.{Json, get_or}
use datadog_sample_finance.Python.{ok}
use datadog_sample_finance.Gateway.Http.{Request, Response, answered, unreachable}
use datadog_sample_finance.Gateway.Auth.{contains_in}
use datadog_sample_finance.Gateway.Roles.{
  text_set, set_of_items, intersects, user_roles, transfer_roles, validation_roles, payment_roles,
}
use datadog_sample_finance.Gateway.Roles.Laws.{is_permitted}
use datadog_sample_finance.Gateway.Payments.Laws.{IsFailure}
use datadog_sample_finance.Services.Accounts.{reply}
use datadog_sample_finance.Services.Stack.{lose_request, refuse, exchange, under_fault}
use datadog_sample_finance.Tests.Sample.{admin, auditor, env, world}

pub no_trader : is_permitted transfer_roles auditor ≡ false
unfolding text_set set_of_items intersects get_or String-discrete contains
no_trader = refl

pub no_validator : is_permitted validation_roles auditor ≡ false
unfolding text_set set_of_items intersects get_or String-discrete contains
no_validator = refl

auditor_no_admin : contains_in "finance-admin" (user_roles auditor) ≡ ok false
unfolding contains_in get_or String-discrete
auditor_no_admin = refl

pub no_admin : contains_in "finance-admin" (user_roles auditor) ≢ ok true
no_admin = ground (arith, auditor_no_admin)

pub admin_pays : is_permitted payment_roles admin ≡ true
unfolding text_set set_of_items intersects get_or String-discrete contains
admin_pays = refl

pub admin_validates : is_permitted validation_roles admin ≡ true
unfolding text_set set_of_items intersects get_or String-discrete contains
admin_validates = refl

pub admin_deposits : contains_in "finance-admin" (user_roles admin) ≡ ok true
unfolding contains_in get_or String-discrete
admin_deposits = refl

-- A request that a proxy answers, and one that gets lost.
refused :
    (r : Request) (n : ℕ) → (env.exchange r (world (refuse n ∷ [])).env).0 ≡ answered (reply n none)
unfolding exchange under_fault
refused r n = refl

dropped : (r : Request) → (env.exchange r (world (lose_request ∷ [])).env).0 ≡ unreachable
unfolding exchange under_fault
dropped r = refl

pub refused_IsFailure :
    (r : Request) (n : ℕ)
    → (leb 200 n && leb n 299) ≡ false
    → IsFailure (env.exchange r (world (refuse n ∷ [])).env).0
refused_IsFailure r n h = rw (refused r n) h

pub dropped_IsFailure : (r : Request) → IsFailure (env.exchange r (world (lose_request ∷ [])).env).0
dropped_IsFailure r = rw (dropped r) tt

abbrev pub success_of : Json → Response
success_of v = reply 200 (some v)

pub named_account : ◌≢◌ {A = String} "acc-a" ""
named_account = ground (arith, eq_iff "acc-a" "")

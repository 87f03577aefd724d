-- ===== src/Traffic/Scenarios.antt =====
-- scripts/generate-traffic.py, the scenarios: the requests that each one sends, in their order. The
-- `expected` statuses of a request only colour its log line, and are left out.
pub mod Laws
use datadog_sample_finance.Shared.{
  ℕ, zero, suc, String, Option, none, some, List, [], ◌∷◌, eqb, if◌then◌else◌,
}
use datadog_sample_finance.Shared.Int.{pos, neg}
use datadog_sample_finance.Shared.Float.{Float, finite, whole}
use datadog_sample_finance.Shared.Json.{
  Json, null, num, str, obj, field, end, get_or, fields_of, truthy,
}
use datadog_sample_finance.Python.{Io, attribute_error, pure, gets, or_raise, ◌>>=◌, ◌>>◌}
use datadog_sample_finance.Traffic.Client.{
  Site, World, Host, Call, gateway, accounts, txns, batch, ask, attempt, http, auth_header,
}

pub data Scenario : Type 0 where
  balance_check payment account_lookup health_checks not_found unauthorized bad_payload batch_job :
      Scenario

-- The element at an index; the default stands for an index that `random.choice` never draws.
unfoldable pub element : {A : Type 0} → A → List A → ℕ → A
element default [] i = default
element default (x ∷ xs) zero = x
element default (x ∷ xs) (suc i) = element default xs i

unfoldable pub size : {A : Type 0} → List A → ℕ
size [] = 0
size (x ∷ xs) = suc (size xs)

-- `KEYCLOAK_USERS`, by their user names, and those that may initiate payments.
abbrev pub usernames : List String
usernames = "alice.analyst" ∷ "bob.trader" ∷ "carol.admin" ∷ "dave.auditor" ∷ []

abbrev pub traders : List String
traders = "bob.trader" ∷ "carol.admin" ∷ []

abbrev pub currencies : List String
currencies = "EUR" ∷ "USD" ∷ "GBP" ∷ "JPY" ∷ "CHF" ∷ []

-- `AMOUNTS`
abbrev pub amounts : List Float
amounts =
    whole 10
    ∷ finite (pos 25500000)
    ∷ whole 100
    ∷ whole 250
    ∷ finite (pos 999990000)
    ∷ whole 5000
    ∷ whole 12500
    ∷ []

-- `f"acc-{random.randint(1, 5):03d}"`
abbrev pub made_up_ids : List Json
made_up_ids = str "acc-001" ∷ str "acc-002" ∷ str "acc-003" ∷ str "acc-004" ∷ str "acc-005" ∷ []

abbrev pub payment_body : Float → String → Json → Json
payment_body amount currency account_id = obj (
    field "amount" (num amount)
      (field "currency" (str currency) (field "account_id" account_id end)))

abbrev pub get_call : Host → List Json → Option Json → Call
get_call host path authorization = record {
  method = "GET";
  host = host;
  path = path;
  body = none;
  authorization = authorization;
}

abbrev pub post_call : Host → List Json → Json → Option Json → Call
post_call host path body authorization = record {
  method = "POST";
  host = host;
  path = path;
  body = some body;
  authorization = authorization;
}

abbrev pub balance_path : Json → List Json
balance_path account_id = str "v1" ∷ str "accounts" ∷ account_id ∷ str "balance" ∷ []

module _ (E : Site) where
  abbrev W : Type 0
  W = World E.State

  -- `random.choice(xs)`
  unfoldable pub choose : {A : Type 0} → A → List A → Io W A
  choose default xs = do i ← ask E (E.choice (size xs)); pure (element default xs i)

  abbrev pub account_or : Io W Json → List Json → Io W Json
  account_or fallback [] = fallback
  account_or fallback (id ∷ ids) = choose id (id ∷ ids)

  -- A known account, or a made-up one.
  unfoldable pub some_account : Io W Json
  some_account = do
    ids ← gets (λ w. w.account_ids)
    account_or (choose (str "acc-001") made_up_ids) ids

  abbrev follow_id : Json → Io W (Unit {0})
  follow_id pid = do
    attempt E (E.sleep (finite (pos 100000)))
    http E (get_call txns (str "v1" ∷ str "payments" ∷ pid ∷ []) none)
    pure tt

  abbrev follow : Json → Io W (Unit {0})
  follow v = do
    d ← or_raise (fields_of v) attribute_error
    let pid = get_or "payment_id" d null
    if truthy pid then follow_id pid else pure tt

  -- The look at a payment that was accepted.
  unfoldable pub follow_up : ℕ × Json → Io W (Unit {0})
  follow_up (status, v) = if eqb status 201 then follow v else pure tt

  unfoldable pub scenario : Scenario → Io W (Unit {0})
  scenario health_checks = do
    http E (get_call gateway (str "health" ∷ []) none)
    http E (get_call accounts (str "health" ∷ []) none)
    http E (get_call txns (str "health" ∷ []) none)
    pure tt
  scenario balance_check = do
    user ← choose "alice.analyst" usernames
    account_id ← some_account
    authorization ← auth_header E user
    http E (get_call gateway (balance_path account_id) authorization)
    pure tt
  scenario payment = do
    user ← choose "bob.trader" traders
    account_id ← some_account
    amount ← choose (whole 10) amounts
    currency ← choose "EUR" currencies
    authorization ← auth_header E user
    answer ← http E (
        post_call gateway (str "v1" ∷ str "payments" ∷ []) (payment_body amount currency account_id)
          authorization)
    follow_up answer
  scenario account_lookup = do
    account_id ← some_account
    http E (get_call accounts (str "v1" ∷ str "accounts" ∷ account_id ∷ []) none)
    http E (get_call accounts (balance_path account_id) none)
    pure tt
  scenario unauthorized = do
    ids ← gets (λ w. w.account_ids)
    account_id ← account_or (pure (str "acc-001")) ids
    http E (get_call gateway (balance_path account_id) none)
    http E (
        post_call gateway (str "v1" ∷ str "payments" ∷ [])
          (payment_body (whole 100) "EUR" account_id) none)
    pure tt
  scenario bad_payload = do
    user ← choose "alice.analyst" usernames
    authorization ← auth_header E user
    http E (
        post_call gateway (str "v1" ∷ str "payments" ∷ [])
          (obj (
            field "amount" (num (finite (neg (pos 5000000))))
              (field "account_id" (str "acc-001") end)))
          authorization)
    pure tt
  scenario not_found = do
    user ← choose "alice.analyst" usernames
    http E (get_call accounts (str "v1" ∷ str "accounts" ∷ str "acc-does-not-exist-999" ∷ []) none)
    http E (get_call txns (str "v1" ∷ str "payments" ∷ str "pay-does-not-exist-999" ∷ []) none)
    pure tt
  scenario batch_job = do
    http E (post_call batch (str "jobs" ∷ str "reconciliation" ∷ []) (obj end) none)
    pure tt

-- ===== src/Suite/Payments.antt =====
-- scripts/test-e2e.py: the sections about payments.
use datadog_sample_finance.Shared.{
  ℕ, String, Bool, false, ◌&&◌, ◌||◌, Option, none, some, List, [], ◌∷◌, eqb,
}
use datadog_sample_finance.Shared.Float.{Float, whole, plus, negate}
use datadog_sample_finance.Shared.Json.{Json, null, num, str, obj, end, field, truthy}
use datadog_sample_finance.Python.{Io, pure, ◌>>=◌, ◌>>◌}
use datadog_sample_finance.Suite.{
  Site, World, request, get_of, equals, section, evaluate, chk, http, balance, make_account,
  token_of, http_as,
}
use datadog_sample_finance.Suite.Compare.{first_with, items_of}
use datadog_sample_finance.Suite.Sections.{expect_status, has_status}

abbrev pub payments_path : List Json
payments_path = str "v1" ∷ str "payments" ∷ []

abbrev pub payment_path : Json → List Json
payment_path payment_id = str "v1" ∷ str "payments" ∷ payment_id ∷ []

abbrev pub payment_body : Json → ℕ → Json
payment_body account_id amount = obj (
    field "account_id" account_id
      (field "amount" (num (whole amount)) (field "currency" (str "EUR") end)))

abbrev pub action_body : String → Json
action_body action = obj (field "action" (str action) end)

abbrev pub noted_body : String → String → Json
noted_body action note = obj (field "action" (str action) (field "note" (str note) end))

-- `bool(found)`
abbrev pub is_found : Option Json → Bool
is_found none = false
is_found (some v) = truthy v

module _ (E : Site) where
  unfoldable pub payment_section : Io (World E.State) (Json × Json)
  payment_section = do
    section E "Payment initiation (finance-trader + finance-admin)"
    acc ← make_account E "EUR" "retail" 20000
    (status, _) ← http E (request "POST" payments_path (some (payment_body acc 100)) none)
    _ ← chk E "No token → 401" (eqb status 401)
    _ ←
        expect_status E "Analyst blocked → 403" 403 "alice.analyst" "POST" payments_path
          (some (payment_body acc 100))
    _ ←
        expect_status E "Auditor blocked → 403" 403 "dave.auditor" "POST" payments_path
          (some (payment_body acc 100))
    (status, body) ← http_as E "bob.trader" "POST" payments_path (some (payment_body acc 2500))
    pid ← evaluate (get_of "payment_id" null body)
    pending ← evaluate (has_status E 201 "pending" status body)
    _ ← chk E "Trader initiates → 201 pending" pending
    (status, body) ← http_as E "carol.admin" "POST" payments_path (some (payment_body acc 500))
    pending ← evaluate (has_status E 201 "pending" status body)
    _ ← chk E "Admin initiates → 201 pending" pending
    (status, lst) ← http_as E "alice.analyst" "GET" payments_path none
    found ← evaluate (first_with "payment_id" pid (items_of lst))
    _ ← chk E "Analyst can list payments (sees pending)" (eqb status 200 && is_found found)
    pure (acc, pid)

  -- `balance(_tokens["carol.admin"], acc_id)`
  unfoldable pub admin_balance : Json → Io (World E.State) Float
  admin_balance acc_id = do admin ← token_of E "carol.admin"; balance E admin acc_id

  unfoldable pub validation_section : Json → Json → Io (World E.State) Bool
  validation_section acc_id payment_id = do
    section E "Payment validation (finance-compliance + finance-admin)"
    bal_before ← admin_balance acc_id
    _ ←
        expect_status E "Trader blocked from validating → 403" 403 "bob.trader" "PATCH"
          (payment_path payment_id) (some (action_body "approved"))
    _ ←
        expect_status E "Analyst blocked from validating → 403" 403 "alice.analyst" "PATCH"
          (payment_path payment_id) (some (action_body "approved"))
    (status, body) ←
        http_as E "eve.compliance" "PATCH" (payment_path payment_id)
          (some (noted_body "approved" "Looks good"))
    approved ← evaluate (has_status E 200 "approved" status body)
    _ ← evaluate (get_of "validated_at" null body)
    _ ← chk E "Compliance approves → approved" approved
    bal_after ← admin_balance acc_id
    _ ←
        chk E "Balance debited by 2 500 after approval"
          (equals bal_after (plus bal_before (negate (whole 2500))))
    (_, pay2) ← http_as E "bob.trader" "POST" payments_path (some (payment_body acc_id 1000))
    pid2 ← evaluate (get_of "payment_id" null pay2)
    _ ←
        expect_status E "Compliance rejects second payment → rejected" 200 "eve.compliance" "PATCH"
          (payment_path pid2) (some (noted_body "rejected" "Suspicious"))
    bal_after_reject ← admin_balance acc_id
    _ ← chk E "Balance unchanged after rejection" (equals bal_after_reject bal_after)
    (_, pay3) ← http_as E "carol.admin" "POST" payments_path (some (payment_body acc_id 50000))
    pid3 ← evaluate (get_of "payment_id" null pay3)
    (status, body3) ←
        http_as E "carol.admin" "PATCH" (payment_path pid3)
          (some (noted_body "flagged" "Large transfer — review"))
    flagged ← evaluate (has_status E 200 "flagged" status body3)
    _ ← chk E "Admin flags large payment → flagged" flagged
    (status, _) ←
        http_as E "eve.compliance" "PATCH" (payment_path payment_id) (some (action_body "delete"))
    chk E "Invalid validation action → 4xx" (eqb status 400 || eqb status 422)

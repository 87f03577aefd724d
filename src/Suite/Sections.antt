-- ===== src/Suite/Sections.antt =====
-- scripts/test-e2e.py: the sections about accounts, deposits and transfers.
use datadog_sample_finance.Shared.{
  ℕ, String, Bool, false, ◌&&◌, Option, none, some, List, [], ◌∷◌, eqb, if◌then◌else◌,
}
use datadog_sample_finance.Shared.Float.{Float, whole}
use datadog_sample_finance.Shared.Json.{Json, null, num, str, obj, end, field, truthy}
use datadog_sample_finance.Python.{Io, Result, ok, raised, pure, ◌>>=◌, ◌>>◌}
use datadog_sample_finance.Suite.{
  Site, World, request, get_of, is_text, equals, section, evaluate, chk, http, balance_of, balance,
  account_body, make_account, token_of, http_as,
}
use datadog_sample_finance.Suite.Compare.{first_with, items_of}

-- The path of an account's balance or deposit.
abbrev pub account_path : Json → String → List Json
account_path account_id what = str "v1" ∷ str "accounts" ∷ account_id ∷ str what ∷ []

abbrev pub transfers_path : List Json
transfers_path = str "v1" ∷ str "transfers" ∷ []

abbrev pub transfer_body : Json → Json → ℕ → Json
transfer_body from_account to_account amount = obj (
    field "from_account_id" from_account (
      field "to_account_id" to_account
        (field "amount" (num (whole amount)) (field "currency" (str "EUR") end))))

abbrev pub amount_body : ℕ → Json
amount_body amount = obj (field "amount" (num (whole amount)) end)

module _ (E : Site) where
  -- A request whose answer ought to have one status.
  unfoldable pub expect_status :
      String → ℕ → String → String → List Json → Option Json → Io (World E.State) Bool
  expect_status label expected username method path body = do
    (status, _) ← http_as E username method path body
    chk E label (eqb status expected)

  -- `status == 200 and float(body.get("balance", 0)) == x`
  abbrev pub has_balance : ℕ → ℕ → Json → Result Bool
  has_balance amount status body =
      if eqb status 200
      then elim (balance_of E body) [ ok x ↦ ok (equals x (whole amount)) | raised e ↦ raised e ]
      else ok false

  -- `status == 200 and found and float(found.get("balance", 0)) == x`
  abbrev pub found_with_balance : ℕ → ℕ → Option Json → Result Bool
  found_with_balance amount status none = ok false
  found_with_balance amount status (some found) =
      if truthy found then has_balance amount status found else ok false

  -- The lookup of `balance` for the printed detail, of an entry that was found.
  abbrev pub detail_of : Option Json → Result Json
  detail_of none = ok null
  detail_of (some found) = if truthy found then get_of "balance" null found else ok found

  -- `status == expected and body.get("status") == text`
  abbrev pub has_status : ℕ → String → ℕ → Json → Result Bool
  has_status expected text status body =
      if eqb status expected
      then elim (get_of "status" null body) [ ok v ↦ ok (is_text text v) | raised e ↦ raised e ]
      else ok false

  unfoldable pub account_section : Io (World E.State) Json
  account_section = do
    section E "Account operations"
    (status, body) ← http E (
        request "POST" (str "internal" ∷ str "accounts" ∷ [])
          (some (account_body E "suite" "EUR" "premium" 5000)) none)
    acc1 ← evaluate (get_of "id" null body)
    _ ← chk E "Create account (EUR, premium, 5 000)" (eqb status 201 && truthy acc1)
    (status, lst) ← http E (request "GET" (str "internal" ∷ str "accounts" ∷ []) none none)
    found ← evaluate (first_with "id" acc1 (items_of lst))
    visible ← evaluate (found_with_balance 5000 status found)
    _ ← evaluate (detail_of found)
    _ ← chk E "List accounts — new account visible with balance" visible
    (status, body) ← http_as E "bob.trader" "GET" (account_path acc1 "balance") none
    right ← evaluate (has_balance 5000 status body)
    _ ← chk E "Balance via gateway = 5 000" right
    pure acc1

  unfoldable pub deposit_section : Json → Io (World E.State) Float
  deposit_section acc_id = do
    section E "Deposit (finance-admin only)"
    (status, body) ←
        http_as E "carol.admin" "POST" (account_path acc_id "deposit")
          (some (obj (field "amount" (num (whole 3000)) (field "note" (str "Test top-up") end))))
    right ← evaluate (has_balance 8000 status body)
    _ ← evaluate (get_of "balance" null body)
    _ ← chk E "Admin deposits 3 000 → balance 8 000" right
    _ ←
        expect_status "Trader blocked from deposit → 403" 403 "bob.trader" "POST"
          (account_path acc_id "deposit") (some (amount_body 1))
    _ ←
        expect_status "Compliance blocked from deposit → 403" 403 "eve.compliance" "POST"
          (account_path acc_id "deposit") (some (amount_body 1))
    pure (whole 8000)

  unfoldable pub transfer_section : Io (World E.State) Bool
  transfer_section = do
    section E "Transfer (finance-trader + finance-admin)"
    acc_src ← make_account E "EUR" "premium" 10000
    acc_dst ← make_account E "EUR" "retail" 2000
    (status, body) ←
        http_as E "bob.trader" "POST" transfers_path (some (transfer_body acc_src acc_dst 4000))
    completed ← evaluate (has_status 201 "completed" status body)
    _ ← evaluate (get_of "transfer_id" null body)
    _ ← chk E "Trader transfers 4 000 src→dst" completed
    admin ← token_of E "carol.admin"
    bal_src ← balance E admin acc_src
    admin ← token_of E "carol.admin"
    bal_dst ← balance E admin acc_dst
    _ ← chk E "src = 10 000 − 4 000 = 6 000" (equals bal_src (whole 6000))
    _ ← chk E "dst = 2 000 + 4 000 = 6 000" (equals bal_dst (whole 6000))
    (status, body) ←
        http_as E "carol.admin" "POST" transfers_path (some (transfer_body acc_dst acc_src 1000))
    completed ← evaluate (has_status 201 "completed" status body)
    _ ← chk E "Admin transfers 1 000 back dst→src" completed
    _ ←
        expect_status "Same-account transfer → 400" 400 "bob.trader" "POST" transfers_path
          (some (transfer_body acc_src acc_src 1))
    _ ←
        expect_status "Compliance blocked from transfer → 403" 403 "eve.compliance" "POST"
          transfers_path (some (transfer_body acc_src acc_dst 1))
    expect_status "Analyst blocked from transfer → 403" 403 "alice.analyst" "POST" transfers_path
        (some (transfer_body acc_src acc_dst 1))

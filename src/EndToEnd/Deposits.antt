-- ===== src/EndToEnd/Deposits.antt =====
-- `deposit` and `get_account_balance` (gateway-api/main.py) over account-service: a deposit is read
-- back.
use datadog_sample_finance.Shared.{
  Option, String, ◌≡◌, refl, ap, ◌∙◌, true, some, [], arith, ==_self, String-discrete,
}
use datadog_sample_finance.Shared.Int.{ℤ, ◌+ℤ◌}
use datadog_sample_finance.Shared.Float.{Float, finite}
use datadog_sample_finance.Shared.Json.{
  num, null, str, obj, Fields, field, end, get, get_or-field_self,
}
use datadog_sample_finance.Shared.Dict.{Dict, lookup, insert, lookup-insert_self}
use datadog_sample_finance.Python.{ok}
use datadog_sample_finance.Gateway.Http.{World, Reply, answered, account_service}
use datadog_sample_finance.Gateway.Auth.{contains_in}
use datadog_sample_finance.Gateway.Roles.{user_roles}
use datadog_sample_finance.Gateway.Models.{DepositRequest}
use datadog_sample_finance.Gateway.Transfer.{balance_patch}
use datadog_sample_finance.Gateway.Accounts.{balance_get, deposit, get_account_balance}
use datadog_sample_finance.Gateway.Accounts.Laws.{deposit_success, get_account_balance_success}
use datadog_sample_finance.Services.Accounts.{
  Account, reply, update_balance, apply_delta, get_balance,
}
use datadog_sample_finance.Services.Stack.{
  Stack, Library, stack_env, exchange, under_fault, serve_at, serve_accounts,
}
use datadog_sample_finance.EndToEnd.Patch.{store_of, with_balance}

-- The fields of an account's answers.
abbrev fields_of_account : Account → Fields
fields_of_account a = field "accountId" (str a.id) (
    field "balance" (num (finite a.balance))
      (field "currency" (str a.currency) (field "tier" (str a.tier) end)))

abbrev raised_by : ℤ → Account → Account
raised_by x a = record a { balance = a.balance +ℤ x }

update_balance_known :
    (parse_decimal : String → Option ℤ) (id : String) (a : Account) (x : ℤ) (store : Dict Account)
    → lookup id store ≡ some a
    → update_balance parse_decimal id (field "delta" (num (finite x)) end) store ≡ (
      reply 200 (some (obj (fields_of_account (raised_by x a)))),
      insert id (raised_by x a) store,
    )
unfolding update_balance apply_delta
update_balance_known parse_decimal id a x store known =
    ground (arith, known, get_or-field_self "delta" (num (finite x)) null end)

module _ (L : Library) (id : String) (a : Account) where
  serve_credit :
      (x : ℤ) (s : Stack)
      → lookup id s.accounts.store ≡ some a
      → serve_at L account_service (balance_patch id (finite x)) s ≡ (
        reply 200 (some (obj (fields_of_account (raised_by x a)))),
        with_balance s (insert id (raised_by x a) s.accounts.store),
      )
  unfolding serve_at serve_accounts
  serve_credit x s known =
      rw (==_self "v1", ==_self "accounts", ==_self "balance")
        (ground (arith, update_balance_known L.parse_decimal id a x s.accounts.store known))

  serve_balance :
      (s : Stack)
      → lookup id s.accounts.store ≡ some a
      → serve_at L account_service (balance_get id) s
        ≡ (reply 200 (some (obj (fields_of_account a))), s)
  unfolding serve_at serve_accounts get_balance
  serve_balance s known =
      rw (==_self "v1", ==_self "accounts", ==_self "balance") (ground (arith, known))

  exchange_credit :
      (x : ℤ) (s : Stack)
      → s.faults ≡ []
      → lookup id s.accounts.store ≡ some a
      → exchange L (balance_patch id (finite x)) s ≡ (
        answered (reply 200 (some (obj (fields_of_account (raised_by x a))))),
        with_balance s (insert id (raised_by x a) s.accounts.store),
      )
  unfolding exchange under_fault
  exchange_credit x s quiet known = ground (arith, serve_credit x (record s { faults = [] }) known)

  exchange_balance :
      (s : Stack)
      → s.faults ≡ []
      → lookup id s.accounts.store ≡ some a
      → (exchange L (balance_get id) s).0 ≡ answered (reply 200 (some (obj (fields_of_account a))))
  unfolding exchange under_fault
  exchange_balance s quiet known = ground (arith, serve_balance (record s { faults = [] }) known)

id_field : (a : Account) → get "accountId" (fields_of_account a) ≡ some (str a.id)
unfolding get String-discrete
id_field a = refl

balance_field : (a : Account) → get "balance" (fields_of_account a) ≡ some (num (finite a.balance))
unfolding get String-discrete
balance_field a = refl

currency_field : (a : Account) → get "currency" (fields_of_account a) ≡ some (str a.currency)
unfolding get String-discrete
currency_field a = refl

tier_field : (a : Account) → get "tier" (fields_of_account a) ≡ some (str a.tier)
unfolding get String-discrete
tier_field a = refl

-- The round trip of a deposit, over a network without faults and where pydantic takes numbers as
-- floats: after a finance-admin has deposited a finite amount into a known account, the balance that
-- any caller then reads is the old one plus the amount, in the account's currency, and the deposit
-- itself was answered with that balance.
pub deposit_then_balance :
    (L : Library) (id : String) (a : Account) (body : DepositRequest) (x : ℤ)
    (admin reader : Fields) (w : World Stack)
    → ((y : Float) → L.coerce_float (num y) ≡ some y)
    → body.amount ≡ finite x
    → contains_in "finance-admin" (user_roles admin) ≡ ok true
    → w.env.faults ≡ []
    → lookup id (store_of w) ≡ some a
    → let (r, w1) = deposit (stack_env L) id body admin w in
      (r
        ≡ ok (record {
          account_id = a.id;
          deposited = finite x;
          balance = finite (a.balance +ℤ x);
          currency = a.currency;
          tier = a.tier;
        }))
      × ((get_account_balance (stack_env L) id reader w1).0
          ≡ ok (record {
            account_id = id;
            balance = finite (a.balance +ℤ x);
            currency = a.currency;
          }))
deposit_then_balance L id a body x admin reader w coerced amount is_admin quiet known =
    let a' = raised_by x a in
    let credit : exchange L (balance_patch id body.amount) w.env ≡ (
      answered (reply 200 (some (obj (fields_of_account a')))),
      with_balance w.env (insert id a' (store_of w)),
    ) =
      rw amount (exchange_credit L id a x w.env quiet known) in
    let done =
      deposit_success (stack_env L) id admin w body (reply 200 (some (obj (fields_of_account a'))))
        (fields_of_account a') (finite a'.balance) a.id a.currency a.tier is_admin coerced
        (ap (λ (t : Reply × Stack). t.0) credit) refl refl refl (id_field a') (balance_field a')
        (currency_field a') (tier_field a') in
    let w1 = (deposit (stack_env L) id body admin w).1 in
    let moved : w1.env ≡ with_balance w.env (insert id a' (store_of w)) =
      done.1 ∙ ap (λ (t : Reply × Stack). t.1) credit in
    let stored : lookup id (store_of w1) ≡ some a' =
      ap (λ (s : Stack). lookup id s.accounts.store) moved
      ∙ lookup-insert_self id a' (store_of w) in
    (
      ground (arith, done.0),
      get_account_balance_success (stack_env L) id reader w1
          (reply 200 (some (obj (fields_of_account a')))) (fields_of_account a') (finite a'.balance)
          a.currency coerced
          (exchange_balance L id a' w1.env (ap (λ (s : Stack). s.faults) moved ∙ quiet) stored) refl
          refl refl (balance_field a') (currency_field a'),
    )

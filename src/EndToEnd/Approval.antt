-- ===== src/EndToEnd/Approval.antt =====
-- `validate_payment` (gateway-api/main.py) over transaction-service and account-service: the effect
-- of an approval, and of approving again.
use text.Mathlib.TextEquality.{eq_iff}
use datadog_sample_finance.Shared.{
  String, ◌≡◌, ◌∙◌, ap, refl, ◌≢◌, true, some, [], arith, ==_self, ◌==◌, if◌then◌else◌,
}
use datadog_sample_finance.Shared.Int.{ℤ, neg}
use datadog_sample_finance.Shared.Float.{finite, negate}
use datadog_sample_finance.Shared.Json.{
  Json, null, num, str, obj, Fields, end, field, get, get_or-field_self, get_or-field_ne,
}
use datadog_sample_finance.Python.{ok}
use datadog_sample_finance.Gateway.Http.{World, Reply, answered, transaction_service}
use datadog_sample_finance.Gateway.Models.{PaymentValidationRequest}
use datadog_sample_finance.Gateway.Roles.{validation_roles}
use datadog_sample_finance.Gateway.Roles.Laws.{is_permitted}
use datadog_sample_finance.Gateway.Transfer.{balance_patch}
use datadog_sample_finance.Gateway.Payments.{payment_patch, optional_str, validate_payment}
use datadog_sample_finance.Gateway.Payments.Validate.{validate_payment_approval}
use datadog_sample_finance.Services.Accounts.{reply}
use datadog_sample_finance.Services.Payments.{
  Payments, find, put, find-put_self, assign, decide, patch_payment,
}
use datadog_sample_finance.Services.Stack.{
  Stack, Library, stack_env, exchange, under_fault, serve_at, serve_payments,
}
use datadog_sample_finance.EndToEnd.Patch.{credited, store_of, with_balance, serve_at-balance_patch}

get-assign :
    (k j : String) (v : Json) (d : Fields)
    → get k (assign j v d) ≡ (if k == j then some v else get k d)
unfolding get assign
get-assign k j v end = refl
get-assign k j v (field i w d) = ground (arith, get-assign k j v d)

-- A decision leaves the fields of the payment alone that it does not set.
get-decide :
    (k now : String) (status note : Json) (d : Fields)
    → k ≢ "status"
    → k ≢ "note"
    → k ≢ "validated_at"
    → get k (decide status note now d) ≡ get k d
unfolding decide
get-decide k now status note d h1 h2 h3 = simp get-assign (ground arith)

-- Texts that are told apart by evaluation.
note_ne_status : ◌≢◌ {A = String} "note" "status"
note_ne_status = ground (arith, eq_iff "note" "status")

module _ (L : Library) (id : String) (body : PaymentValidationRequest) where
  -- The payment after the decision.
  abbrev pub decided : Fields → Fields
  decided p = decide (str body.action) (optional_str body.note) L.now_text p

  account-decided : (p : Fields) → get "account_id" (decided p) ≡ get "account_id" p
  account-decided p =
      get-decide "account_id" L.now_text (str body.action) (optional_str body.note) p
        (ground (arith, eq_iff "account_id" "status")) (ground (arith, eq_iff "account_id" "note"))
        (ground (arith, eq_iff "account_id" "validated_at"))

  amount-decided : (p : Fields) → get "amount" (decided p) ≡ get "amount" p
  amount-decided p =
      get-decide "amount" L.now_text (str body.action) (optional_str body.note) p
        (ground (arith, eq_iff "amount" "status")) (ground (arith, eq_iff "amount" "note"))
        (ground (arith, eq_iff "amount" "validated_at"))

  patch_payment_approved :
      (p : Fields) (payments : Payments)
      → body.action ≡ "approved"
      → find id payments ≡ some p
      → patch_payment L.now_text id
          (field "status" (str body.action) (field "note" (optional_str body.note) end))
          payments
        ≡ (reply 200 (some (obj (decided p))), put (str id) (decided p) payments)
  unfolding patch_payment
  patch_payment_approved p payments a e =
      let note = optional_str body.note in
      ground (
        arith,
        get_or-field_self "status" (str body.action) null (field "note" note end),
        get_or-field_ne "note" "status" (str body.action) null (field "note" note end)
            note_ne_status,
        get_or-field_self "note" note null end,
      )

  serve_at-payment_patch :
      (p : Fields) (s : Stack)
      → body.action ≡ "approved"
      → find id s.payments ≡ some p
      → serve_at L transaction_service (payment_patch id body) s ≡ (
        reply 200 (some (obj (decided p))),
        record s { payments = put (str id) (decided p) s.payments },
      )
  unfolding serve_at serve_payments
  serve_at-payment_patch p s a e =
      rw (==_self "v1", ==_self "payments")
        (ground (arith, patch_payment_approved p s.payments a e))

  exchange_decision :
      (p : Fields) (s : Stack)
      → body.action ≡ "approved"
      → s.faults ≡ []
      → find id s.payments ≡ some p
      → exchange L (payment_patch id body) s ≡ (
        answered (reply 200 (some (obj (decided p)))),
        record s { payments = put (str id) (decided p) s.payments },
      )
  unfolding exchange under_fault
  exchange_decision p s a quiet e =
      ground (arith, serve_at-payment_patch p (record s { faults = [] }) a e)

  exchange_debit :
      (account_id : String) (x : ℤ) (s : Stack)
      → s.faults ≡ []
      → (exchange L (balance_patch account_id (negate (finite x))) s).1
        ≡ with_balance s (credited account_id (neg x) s.accounts.store)
  unfolding exchange under_fault negate
  exchange_debit account_id x s quiet =
      ground (arith, serve_at-balance_patch L account_id (neg x) (record s { faults = [] }))

  module _ (claims : Fields) (permitted : is_permitted validation_roles claims ≡ true)
      (approved : body.action ≡ "approved") (account_id : String) (x : ℤ)
      (named : account_id ≢ "") where
    -- Over a network without faults, for a permitted caller: the approval of a stored payment that
    -- names its account and a finite amount returns the payment with its new status, stores it,
    -- debits the account by the amount (if account-service knows it), and changes nothing else
    -- outside the gateway. The payment's status before does not matter.
    pub approval_debits :
        (p : Fields) (w : World Stack)
        → w.env.faults ≡ []
        → find id w.env.payments ≡ some p
        → get "account_id" p ≡ some (str account_id)
        → get "amount" p ≡ some (num (finite x))
        → let (r, w') = validate_payment (stack_env L) id body claims w in
          (r ≡ ok (obj (decided p)))
          × (w'.env ≡ record (with_balance w.env (credited account_id (neg x) (store_of w))) {
            payments = put (str id) (decided p) w.env.payments;
          })
    approval_debits p w quiet e ea ex =
        let s = record w.env { payments = put (str id) (decided p) w.env.payments } in
        let moved = exchange_decision p w.env approved quiet e in
        let done =
          validate_payment_approval (stack_env L) id body claims w permitted
            (reply 200 (some (obj (decided p)))) (decided p) account_id (finite x) approved
            (ap (λ (t : Reply × Stack). t.0) moved) refl refl refl (account-decided p ∙ ea) named
            (amount-decided p ∙ ex) in
        (done.0, done.1 ∙ (rw moved (exchange_debit account_id x s quiet)))

    -- Under the same conditions, approving the same payment a second time debits the account
    -- by its amount a second time: neither service looks at the status that the payment had.
    pub approval_repeats :
        (p : Fields) (w : World Stack)
        → w.env.faults ≡ []
        → find id w.env.payments ≡ some p
        → get "account_id" p ≡ some (str account_id)
        → get "amount" p ≡ some (num (finite x))
        → store_of
            (validate_payment
              (stack_env L)
              id
              body
              claims
              (validate_payment (stack_env L) id body claims w).1).1
          ≡ credited account_id (neg x) (credited account_id (neg x) (store_of w))
    approval_repeats p w quiet e ea ex =
        let w1 = (validate_payment (stack_env L) id body claims w).1 in
        let once = (approval_debits p w quiet e ea ex).1 in
        let stored : find id w1.env.payments ≡ some (decided p) =
          rw once (find-put_self id (decided p) w.env.payments) in
        let twice =
          (approval_debits (decided p) w1 (rw once quiet) stored (account-decided p ∙ ea)
            (amount-decided p ∙ ex)).1 in
        ap (λ (s : Stack). s.accounts.store) twice
        ∙ ap (λ (s : Stack). credited account_id (neg x) s.accounts.store) once

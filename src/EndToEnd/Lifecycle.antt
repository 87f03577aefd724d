-- ===== src/EndToEnd/Lifecycle.antt =====
-- The life of a payment (gateway-api/main.py, `initiate_payment`, then `validate_payment`) over
-- transaction-service and account-service.
use datadog_sample_finance.Shared.{
  String, ◌<>◌, ◌≡◌, ◌≢◌, refl, sym, ap, ◌∙◌, true, Option, some, [], arith, ==_self,
  String-discrete, take_text, strip_prefix, strip_prefix-append,
}
use datadog_sample_finance.Shared.Int.{ℤ, pos, neg}
use datadog_sample_finance.Shared.Float.{finite}
use datadog_sample_finance.Shared.Json.{num, str, obj, null, Fields, field, end, get, get_or}
use datadog_sample_finance.Gateway.Http.{
  World, Reply, answered, transaction_service, account_service,
}
use datadog_sample_finance.Gateway.Models.{PaymentRequest, PaymentValidationRequest}
use datadog_sample_finance.Gateway.Roles.{payment_roles, validation_roles}
use datadog_sample_finance.Gateway.Roles.Laws.{is_permitted}
use datadog_sample_finance.Gateway.Payments.{
  payments_post, alert_post, initiate_payment, validate_payment,
}
use datadog_sample_finance.Gateway.Payments.Laws.{initiate_payment_accepted}
use datadog_sample_finance.Services.Accounts.{reply, payment_alert}
use datadog_sample_finance.Services.Payments.{
  Payments, find, put, find-put_self, create_payment, js_truthy,
}
use datadog_sample_finance.Services.Stack.{
  Stack, Library, stack_env, exchange, under_fault, serve_at, serve_accounts, serve_payment_alert,
  serve_payments,
}
use datadog_sample_finance.EndToEnd.Patch.{credited, store_of}
use datadog_sample_finance.EndToEnd.Approval.{approval_debits}

pay_ne_empty : (t : String) → "pay-" <> t ≢ ""
unfolding strip_prefix
pay_ne_empty t p =
    let e : strip_prefix "pay-" "" ≡ some t =
      ap (strip_prefix "pay-") (sym p) ∙ strip_prefix-append "pay-" t in
    ground (arith, e)

-- The body of the submission, and the payment that is stored for it.
abbrev submission : String → ℤ → String → String → Fields
submission id x currency account_id = field "payment_id" (str id) (
    field "amount" (num (finite x))
      (field "currency" (str currency) (field "account_id" (str account_id) end)))

abbrev pub new_payment : String → ℤ → String → String → String → Fields
new_payment id x currency account_id now = field "payment_id" (str id) (
    field "amount" (num (finite x)) (
      field "currency" (str currency) (
        field "account_id" (str account_id)
          (field "status" (str "pending") (field "created_at" (str now) end)))))

amount_truthy : (x : ℤ) → x ≢ pos 0 → js_truthy (num (finite x)) ≡ true
unfolding js_truthy
amount_truthy x h = ground arith

text_truthy : (s : String) → s ≢ "" → js_truthy (str s) ≡ true
unfolding js_truthy
text_truthy s h = ground arith

module _ (id : String) (x : ℤ) (currency account_id now : String) where
  abbrev d : Fields
  d = submission id x currency account_id

  read_id : get_or "payment_id" d null ≡ str id
  unfolding get_or String-discrete
  read_id = refl

  read_amount : get_or "amount" d null ≡ num (finite x)
  unfolding get_or String-discrete
  read_amount = refl

  read_currency : get_or "currency" d null ≡ str currency
  unfolding get_or String-discrete
  read_currency = refl

  read_account : get_or "account_id" d null ≡ str account_id
  unfolding get_or String-discrete
  read_account = refl

  create_payment_new :
      (fresh : String) (payments : Payments)
      → id ≢ ""
      → x ≢ pos 0
      → currency ≢ ""
      → account_id ≢ ""
      → create_payment fresh now d payments ≡ (
        reply 201 (some (obj (new_payment id x currency account_id now))),
        put (str id) (new_payment id x currency account_id now) payments,
      )
  unfolding create_payment
  create_payment_new fresh payments h1 h2 h3 h4 = ground (
    arith,
    read_id,
    read_amount,
    read_currency,
    read_account,
    text_truthy id h1,
    amount_truthy x h2,
    text_truthy currency h3,
    text_truthy account_id h4,
  )

module _ (L : Library) (payload : PaymentRequest) (x : ℤ) (amount : payload.amount ≡ finite x)
    (sized : x ≢ pos 0) (priced : payload.currency ≢ "") (named : payload.account_id ≢ "") where
  abbrev pub payment_id : String
  payment_id = "pay-" <> take_text 12 L.uuid4_hex

  abbrev pub stored_payment : Fields
  stored_payment = new_payment payment_id x payload.currency payload.account_id L.now_text

  serve_submission :
      (s : Stack)
      → serve_at L transaction_service (payments_post payment_id payload) s ≡ (
        reply 201 (some (obj stored_payment)),
        record s { payments = put (str payment_id) stored_payment s.payments },
      )
  unfolding serve_at serve_payments
  serve_submission s =
      rw (amount, ==_self "v1", ==_self "payments")
        (ground (
          arith,
          create_payment_new payment_id x payload.currency payload.account_id L.now_text L.uuid4_hex
              s.payments (pay_ne_empty (take_text 12 L.uuid4_hex)) sized priced named,
        ))

  exchange_submission :
      (s : Stack)
      → s.faults ≡ []
      → exchange L (payments_post payment_id payload) s ≡ (
        answered (reply 201 (some (obj stored_payment))),
        record s { payments = put (str payment_id) stored_payment s.payments },
      )
  unfolding exchange under_fault
  exchange_submission s quiet = ground (arith, serve_submission (record s { faults = [] }))

  serve_alert :
      (s : Stack)
      → let s' = (serve_at L account_service (alert_post payload) s).1 in
        (s'.payments ≡ s.payments) × (s'.accounts.store ≡ s.accounts.store) × (s'.faults ≡ s.faults)
  unfolding serve_at serve_accounts serve_payment_alert payment_alert
  serve_alert s = rw (==_self "v1", ==_self "accounts", ==_self "payment-alert") (ground arith)

  exchange_alert :
      (s : Stack)
      → s.faults ≡ []
      → let s' = (exchange L (alert_post payload) s).1 in
        (s'.payments ≡ s.payments) × (s'.accounts.store ≡ s.accounts.store) × (s'.faults ≡ [])
  unfolding exchange under_fault
  exchange_alert s quiet = ground (arith, serve_alert (record s { faults = [] }))

  status_read : get_or "status" stored_payment (str "pending") ≡ str "pending"
  unfolding get_or String-discrete
  status_read = refl

  account_read : get "account_id" stored_payment ≡ some (str payload.account_id)
  unfolding get String-discrete
  account_read = refl

  amount_read : get "amount" stored_payment ≡ some (num (finite x))
  unfolding get String-discrete
  amount_read = refl

  initiated :
      (trader : Fields) (w : World Stack)
      → is_permitted payment_roles trader ≡ true
      → w.env.faults ≡ []
      → let w1 = (initiate_payment (stack_env L) payload trader w).1 in
        (w1.env.payments ≡ put (str payment_id) stored_payment w.env.payments)
        × (store_of w1 ≡ store_of w)
        × (w1.env.faults ≡ [])
  initiated trader w permitted quiet =
      let sent = exchange_submission w.env quiet in
      let s = record w.env { payments = put (str payment_id) stored_payment w.env.payments } in
      let done =
        initiate_payment_accepted (stack_env L) payload trader w permitted
          (reply 201 (some (obj stored_payment))) stored_payment "pending"
          (ap (λ (t : Reply × Stack). t.0) sent) refl refl refl status_read in
      ground (arith, done.1, ap (λ (t : Reply × Stack). t.1) sent, exchange_alert s quiet)

  -- The life of a payment, over a network without faults: a caller who may pay initiates a payment
  -- of a finite amount other than zero, with a currency and an account id that are not empty; then
  -- one who may validate approves it. After the first call the payment is stored as pending, and
  -- no balance has changed; after the second, account-service has debited the named account, if
  -- it knows it, by the amount, and no other account has changed.
  pub payment_lifecycle :
      (trader officer : Fields) (note : Option String) (w : World Stack)
      → is_permitted payment_roles trader ≡ true
      → is_permitted validation_roles officer ≡ true
      → w.env.faults ≡ []
      → let w1 = (initiate_payment (stack_env L) payload trader w).1 in
        let approval : PaymentValidationRequest = record { action = "approved"; note = note } in
        (find payment_id w1.env.payments ≡ some stored_payment)
        × (store_of w1 ≡ store_of w)
        × (store_of (validate_payment (stack_env L) payment_id approval officer w1).1
            ≡ credited payload.account_id (neg x) (store_of w))
  payment_lifecycle trader officer note w may_pay may_validate quiet =
      let w1 = (initiate_payment (stack_env L) payload trader w).1 in
      let approval : PaymentValidationRequest = record { action = "approved"; note = note } in
      let (paid, kept, still) = initiated trader w may_pay quiet in
      let stored : find payment_id w1.env.payments ≡ some stored_payment =
        ap (find payment_id) paid ∙ find-put_self payment_id stored_payment w.env.payments in
      let approved =
        approval_debits L payment_id approval officer may_validate refl payload.account_id x named
          stored_payment w1 still stored account_read amount_read in
      (
        stored,
        kept,
        ap (λ (s : Stack). s.accounts.store) approved.1
            ∙ ap (credited payload.account_id (neg x)) kept,
      )

-- ===== src/Gateway/Transfer.antt =====
-- gateway-api/main.py, `transfer`: debit the source, credit the destination, and reverse the debit
-- as well as it can if the credit fails.
use datadog_sample_finance.Shared.{String, ◌<>◌, some, [], ◌∷◌, ◌==◌, take_text}
use datadog_sample_finance.Shared.Float.{Float, negate}
use datadog_sample_finance.Shared.Json.{num, obj, end, field, Fields}
use datadog_sample_finance.Python.{
  Io, raised, http_exception, is_http_error, pure, lift, raise_if, try_except, ◌>>=◌, ◌>>◌,
}
use datadog_sample_finance.Gateway.Http.{
  Env, World, Request, http_patch, account_service, info, error, log_event, raise_for_status, ask,
  send,
}
use datadog_sample_finance.Gateway.Models.{TransferRequest, TransferResponse}
use datadog_sample_finance.Gateway.Roles.{require_role, transfer_roles, user_roles}

-- `PATCH /v1/accounts/{account_id}/balance` with `{"delta": delta}`
abbrev pub balance_patch : String → Float → Request
balance_patch account_id delta = record {
  method = http_patch;
  base = account_service;
  path = "v1" ∷ "accounts" ∷ account_id ∷ "balance" ∷ [];
  json = some (obj (field "delta" (num delta) end));
}

abbrev pub transfer_reason : String
transfer_reason = "cannot transfer funds. Requires finance-trader or finance-admin."

module _ (E : Env) where
  abbrev W : Type 0
  W = World E.State

  -- The two statements of a `try` block that patches a balance.
  unfoldable pub patch_balance : String → Float → Io W (Unit {0})
  patch_balance account_id delta = do
    r ← send E (balance_patch account_id delta)
    raise_for_status r

  -- Step 1, the debit of the source.
  unfoldable pub debit_source : TransferRequest → Io W (Unit {0})
  debit_source body =
      try_except (patch_balance body.from_account_id (negate body.amount)) is_http_error λ _. do
        log_event error "transfer.debit.failed"
        lift (raised (http_exception 502 "Could not debit source account"))

  -- The reversal of the debit: the status of its answer is not looked at.
  unfoldable pub reverse_debit : TransferRequest → Io W (Unit {0})
  reverse_debit body =
      try_except
        (do
          send E (balance_patch body.from_account_id body.amount)
          log_event info "transfer.debit.reversed")
        is_http_error (λ _. log_event error "transfer.reversal.failed")

  -- Step 2, the credit of the destination.
  unfoldable pub credit_destination : TransferRequest → Io W (Unit {0})
  credit_destination body =
      try_except (patch_balance body.to_account_id body.amount) is_http_error λ _. do
        log_event error "transfer.credit.failed"
        reverse_debit body
        lift (raised (http_exception 502 "Could not credit destination account"))

  unfoldable pub transfer : TransferRequest → Fields → Io W TransferResponse
  transfer body claims = do
    require_role transfer_roles (pure tt) transfer_reason (user_roles claims)
    raise_if (body.from_account_id == body.to_account_id)
        (http_exception 400 "Source and destination accounts must differ.")
    hex ← ask E.uuid4_hex
    let transfer_id = "txf-" <> take_text 12 hex
    created_at ← ask E.utc_now
    log_event info "transfer.start"
    debit_source body
    credit_destination body
    log_event info "transfer.complete"
    pure (record {
      transfer_id = transfer_id;
      from_account_id = body.from_account_id;
      to_account_id = body.to_account_id;
      amount = body.amount;
      currency = body.currency;
      status = "completed";
      created_at = created_at;
    })

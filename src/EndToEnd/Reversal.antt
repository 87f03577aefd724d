-- ===== src/EndToEnd/Reversal.antt =====
-- The reversal of a transfer's debit (gateway-api/main.py, `transfer`): the status of its answer is
-- not looked at.
use datadog_sample_finance.Shared.{String, ◌≡◌, ◌≢◌, true, List, [], ◌∷◌, ◌++◌, ℕ, arith}
use datadog_sample_finance.Shared.Int.{ℤ, neg}
use datadog_sample_finance.Shared.Float.{finite, negate}
use datadog_sample_finance.Shared.Json.{Fields}
use datadog_sample_finance.Python.{ok, raised, http_exception, pure}
use datadog_sample_finance.Gateway.Http.{World, Event, Level, info, error}
use datadog_sample_finance.Gateway.Models.{TransferRequest}
use datadog_sample_finance.Gateway.Roles.{transfer_roles}
use datadog_sample_finance.Gateway.Roles.Laws.{is_permitted, require_role_permitted}
use datadog_sample_finance.Gateway.Transfer.{
  transfer, transfer_reason, debit_source, credit_destination, reverse_debit,
}
use datadog_sample_finance.Services.Stack.{
  deliver, lose_request, refuse, Stack, Library, stack_env, next_fault, later_faults, exchange,
  under_fault,
}
use datadog_sample_finance.EndToEnd.Patch.{
  credited, is_known, store_of, patch_balance_world, patch_balance_result,
}
use datadog_sample_finance.EndToEnd.Saga.{
  transfer_refines_saga, credit_world, credit_result, debit_source_lem, credit_destination_lem,
  reversal_world, started,
}

-- The log of `w` with one more record.
abbrev pub logged : List Event → Level → String → List Event
logged log level message = log ++ record { level = level; message = message } ∷ []

module _ (L : Library) (body : TransferRequest) (x : ℤ) (amount : body.amount ≡ finite x) where
  reverse_debit_log :
      (n : ℕ) (w : World Stack)
      → next_fault w.env.faults ≡ refuse n
      → (reverse_debit (stack_env L) body w).1.log ≡ logged w.log info "transfer.debit.reversed"
  unfolding reverse_debit exchange under_fault
  reverse_debit_log n w d = ground arith

  credit_destination_log :
      (n : ℕ) (w : World Stack)
      → next_fault w.env.faults ≡ lose_request
      → next_fault (later_faults w.env.faults) ≡ refuse n
      → (credit_destination (stack_env L) body w).1.log
        ≡ logged (logged w.log error "transfer.credit.failed") info "transfer.debit.reversed"
  unfolding credit_destination
  credit_destination_log n w d2 d3 = ground (
    arith,
    credit_world L body x amount body.to_account_id w,
    credit_result L body x amount body.to_account_id w,
    reverse_debit_log n (reversal_world L body x amount w),
  )

  debit_source_log :
      (w : World Stack)
      → (debit_source (stack_env L) body w).0 ≡ ok tt
      → (debit_source (stack_env L) body w).1.log ≡ w.log
  unfolding debit_source negate
  debit_source_log w = rw amount (
      ground (
        arith,
        patch_balance_world L body.from_account_id (neg x) w,
        patch_balance_result L body.from_account_id (neg x) w,
      ))

  -- A transfer loses the money for good, and logs that its debit was reversed: for a permitted
  -- caller, a finite amount and two different account ids, the first of them known, if the debit is
  -- delivered, the request for the credit gets lost and the reversal is answered by any status at
  -- all in the service's place, then the answer is 502, the source stays debited, nothing else has
  -- changed in the account store, and the log ends in `transfer.debit.reversed`.
  pub transfer_false_reversal :
      (claims : Fields) (w : World Stack) (n : ℕ)
      → is_permitted transfer_roles claims ≡ true
      → body.from_account_id ≢ body.to_account_id
      → is_known body.from_account_id (store_of w) ≡ true
      → next_fault w.env.faults ≡ deliver
      → next_fault (later_faults w.env.faults) ≡ lose_request
      → next_fault (later_faults (later_faults w.env.faults)) ≡ refuse n
      → let (r, w') = transfer (stack_env L) body claims w in
        (r ≡ raised (http_exception 502 "Could not credit destination account"))
        × (store_of w' ≡ credited body.from_account_id (neg x) (store_of w))
        × (w'.log
            ≡ logged
                (logged (logged w.log info "transfer.start") error "transfer.credit.failed")
                info
                "transfer.debit.reversed")
  unfolding transfer
  transfer_false_reversal claims w n permitted differ known d1 d2 d3 =
      let w1 = started L body x amount w in
      let w2 = (debit_source (stack_env L) body w1).1 in
      let saga_done = transfer_refines_saga L body x amount claims w permitted differ in
      (
        ground (arith, saga_done.0, saga_done.1),
        ground (arith, saga_done.0),
        ground (
          arith,
          require_role_permitted transfer_roles (pure tt) transfer_reason claims w permitted,
          debit_source_lem L body x amount w1,
          debit_source_log w1,
          credit_destination_lem L body x amount w2,
          credit_destination_log n w2,
        ),
      )

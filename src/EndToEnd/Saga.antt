-- ===== src/EndToEnd/Saga.antt =====
-- `transfer` over the services: a specification of its effect on the account store (`saga`), and
-- the proof that the handler has that effect under every schedule of network faults.
use datadog_sample_finance.Shared.{String, ◌≡◌, ◌≢◌, ◌⊎◌, Bool, true, false, arith, if◌then◌else◌}
use datadog_sample_finance.Shared.Int.{ℤ, neg}
use datadog_sample_finance.Shared.Float.{finite, negate}
use datadog_sample_finance.Shared.Json.{Fields}
use datadog_sample_finance.Shared.Dict.{Dict}
use datadog_sample_finance.Python.{fails_http, Result, ok, raised, http_exception, pure}
use datadog_sample_finance.Gateway.Http.{World, error, info, log_event}
use datadog_sample_finance.Gateway.Models.{TransferRequest, TransferResponse}
use datadog_sample_finance.Gateway.Roles.{transfer_roles}
use datadog_sample_finance.Gateway.Roles.Laws.{is_permitted, require_role_permitted}
use datadog_sample_finance.Gateway.Transfer.{
  patch_balance, debit_source, reverse_debit, credit_destination, transfer, transfer_reason,
}
use datadog_sample_finance.Services.Accounts.{Account}
use datadog_sample_finance.Services.Stack.{
  Fault, Stack, Library, stack_env, next_fault, later_faults, exchange, under_fault,
}
use datadog_sample_finance.EndToEnd.Patch.{
  is_known, is_confirmed, store_of, patched_store, patched_world, patch_balance_world,
  patch_balance_result,
}

pub data Outcome : Type 0 where
  completed debit_failed credit_failed : Outcome

-- What the first three faults of the schedule make of a transfer of `x`.
abbrev pub saga_credit : Fault → Fault → String → String → ℤ → Dict Account → Outcome × Dict Account
saga_credit f2 f3 source target x store =
    let store' = patched_store f2 target x store in
    if is_confirmed f2 (is_known target store)
    then (completed, store')
    else (credit_failed, patched_store f3 source x store')

abbrev pub saga :
    Fault → Fault → Fault → String → String → ℤ → Dict Account → Outcome × Dict Account
saga f1 f2 f3 source target x store =
    let store' = patched_store f1 source (neg x) store in
    if is_confirmed f1 (is_known source store)
    then saga_credit f2 f3 source target x store'
    else (debit_failed, store')

-- How the handler reports an outcome.
abbrev pub Reports : Outcome → Result TransferResponse → Type 0
Reports completed (ok r) = r.status ≡ "completed"
Reports debit_failed (raised e) = e ≡ http_exception 502 "Could not debit source account"
Reports credit_failed (raised e) = e ≡ http_exception 502 "Could not credit destination account"
Reports o r = ⊥

-- How a `try` block around a balance patch ends.
abbrev pub Ends : Bool → String → Result (Unit {0}) → Type 0
Ends true detail r = r ≡ ok tt
Ends false detail r = r ≡ raised (http_exception 502 detail)

module _ (L : Library) (body : TransferRequest) (x : ℤ) (amount : body.amount ≡ finite x) where
  abbrev pub source : String
  source = body.from_account_id

  abbrev pub target : String
  target = body.to_account_id

  pub credit_world :
      (id : String) (w : World Stack)
      → (patch_balance (stack_env L) id body.amount w).1 ≡ patched_world id x w
  credit_world id w = rw amount (patch_balance_world L id x w)

  pub credit_result :
      (id : String) (w : World Stack)
      → let confirmed = is_confirmed (next_fault w.env.faults) (is_known id (store_of w)) in
        let r = (patch_balance (stack_env L) id body.amount w).0 in
        ((confirmed ≡ true) × (r ≡ ok tt)) ⊎ ((confirmed ≡ false) × (fails_http r ≡ true))
  credit_result id w = rw amount (patch_balance_result L id x w)

  pub debit_source_lem :
      (w : World Stack)
      → let f = next_fault w.env.faults in
        let (r, w') = debit_source (stack_env L) body w in
        (store_of w' ≡ patched_store f source (neg x) (store_of w))
        × (w'.env.faults ≡ later_faults w.env.faults)
        × Ends (is_confirmed f (is_known source (store_of w))) "Could not debit source account" r
  unfolding debit_source negate
  debit_source_lem w = rw amount (
      ground
        (arith, patch_balance_world L source (neg x) w, patch_balance_result L source (neg x) w))

  reverse_debit_store :
      (w : World Stack)
      → store_of (reverse_debit (stack_env L) body w).1
        ≡ patched_store (next_fault w.env.faults) source x (store_of w)
  unfolding reverse_debit patch_balance
  reverse_debit_store w = rw amount (ground (arith, patch_balance_world L source x w))

  reverse_debit_quiet : (w : World Stack) → (reverse_debit (stack_env L) body w).0 ≡ ok tt
  unfolding reverse_debit exchange under_fault
  reverse_debit_quiet w = ground arith

  -- The world in which the reversal starts.
  abbrev pub reversal_world : World Stack → World Stack
  reversal_world w = (log_event error "transfer.credit.failed" (patched_world target x w)).1

  pub credit_destination_lem :
      (w : World Stack)
      → let f = next_fault w.env.faults in
        let (r, w') = credit_destination (stack_env L) body w in
        let g = next_fault (later_faults w.env.faults) in
        (store_of w' ≡ (saga_credit f g source target x (store_of w)).1)
        × Ends
            (is_confirmed f (is_known target (store_of w)))
            "Could not credit destination account"
            r
  unfolding credit_destination
  credit_destination_lem w = ground (
    arith,
    credit_world target w,
    credit_result target w,
    reverse_debit_store (reversal_world w),
    reverse_debit_quiet (reversal_world w),
  )

  -- The world in which the debit starts.
  abbrev pub started : World Stack → World Stack
  started w = (log_event info "transfer.start" w).1

  -- Under any schedule of network faults, for a permitted caller, a finite amount and two different
  -- account ids, the handler leaves the account store as the saga does, and reports the saga's
  -- outcome: a completed transfer, or 502 for the failed debit or the failed credit.
  pub transfer_refines_saga :
      (claims : Fields) (w : World Stack)
      → is_permitted transfer_roles claims ≡ true
      → source ≢ target
      → let f1 = next_fault w.env.faults in
        let f2 = next_fault (later_faults w.env.faults) in
        let f3 = next_fault (later_faults (later_faults w.env.faults)) in
        let (o, store) = saga f1 f2 f3 source target x (store_of w) in
        let (r, w') = transfer (stack_env L) body claims w in (store_of w' ≡ store) × Reports o r
  unfolding transfer
  transfer_refines_saga claims w permitted differ = ground (
    arith,
    require_role_permitted transfer_roles (pure tt) transfer_reason claims w permitted,
    debit_source_lem (started w),
    credit_destination_lem (debit_source (stack_env L) body (started w)).1,
  )

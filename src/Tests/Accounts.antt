-- ===== src/Tests/Accounts.antt =====
-- Transfers and approvals at concrete data.
use text.Mathlib.TextEquality.{eq_iff}
use datadog_sample_finance.Shared.{
  ◌≡◌, ◌≢◌, refl, true, some, [], ◌∷◌, String, String-discrete, contains, arith, ◌==◌,
  if◌then◌else◌,
}
use datadog_sample_finance.Shared.Int.{pos, neg, ◌+ℤ◌}
use datadog_sample_finance.Shared.Float.{finite}
use datadog_sample_finance.Shared.Json.{get, get_or, obj, str, num}
use datadog_sample_finance.Shared.Dict.{lookup}
use datadog_sample_finance.Python.{ok, raised, http_exception}
use datadog_sample_finance.Gateway.Http.{info, error}
use datadog_sample_finance.Gateway.Roles.{text_set, set_of_items, intersects, transfer_roles}
use datadog_sample_finance.Gateway.Roles.Laws.{is_permitted}
use datadog_sample_finance.Gateway.Transfer.{transfer}
use datadog_sample_finance.Gateway.Payments.{validate_payment}
use datadog_sample_finance.Services.Payments.{find, put, same_key}
use datadog_sample_finance.Services.Stack.{deliver, lose_request, lose_answer, refuse}
use datadog_sample_finance.EndToEnd.Patch.{store_of, credited, is_known, with_balance}
use datadog_sample_finance.EndToEnd.Saga.{completed, Outcome, saga, Reports, transfer_refines_saga}
use datadog_sample_finance.EndToEnd.Money.{Settles, Drifts, total}
use datadog_sample_finance.EndToEnd.Transfers.{transfer_atomic, transfer_drift, transfer_moves}
use datadog_sample_finance.EndToEnd.Reversal.{transfer_false_reversal, logged}
use datadog_sample_finance.EndToEnd.Approval.{approval_debits, approval_repeats, decided}
use datadog_sample_finance.Tests.Network.{admin_validates, named_account}
use datadog_sample_finance.Tests.Sample.{
  admin, env, library, world, transfer_of, alice, bob, decision, payment,
}

admin_transfers : is_permitted transfer_roles admin ≡ true
unfolding text_set set_of_items intersects get_or String-discrete contains
admin_transfers = refl

a_not_b : ◌≢◌ {A = String} "acc-a" "acc-b"
a_not_b = ground (arith, eq_iff "acc-a" "acc-b")

stored_alice : lookup "acc-a" (store_of (world [])) ≡ some alice
unfolding lookup String-discrete
stored_alice = refl

known_alice : is_known "acc-a" (store_of (world [])) ≡ true
unfolding lookup String-discrete
known_alice = refl

stored_bob : lookup "acc-b" (store_of (world [])) ≡ some bob
unfolding lookup String-discrete
stored_bob = refl

stored_payment : find "pay-1" (world []).env.payments ≡ some payment
unfolding find same_key String-discrete
stored_payment = refl

account_of_payment : get "account_id" payment ≡ some (str "acc-a")
unfolding get String-discrete
account_of_payment = refl

amount_of_payment : get "amount" payment ≡ some (num (finite (pos 25)))
unfolding get String-discrete
amount_of_payment = refl

transfer_refines_saga_example :
    let w = world (deliver ∷ refuse 503 ∷ deliver ∷ []) in
    let (o, store) = saga deliver (refuse 503) deliver "acc-a" "acc-b" (pos 40) (store_of w) in
    let (r, w') = transfer env (transfer_of "acc-a" "acc-b") admin w in
    (store_of w' ≡ store) × Reports o r
transfer_refines_saga_example =
    transfer_refines_saga library (transfer_of "acc-a" "acc-b") (pos 40) refl admin
      (world (deliver ∷ refuse 503 ∷ deliver ∷ [])) admin_transfers a_not_b

-- The credit meets a proxy that answers 503, and the debit is reversed.
transfer_atomic_example :
    let w = world (deliver ∷ refuse 503 ∷ []) in
    let (r, w') = transfer env (transfer_of "acc-a" "acc-b") admin w in
    (o : Outcome) × Reports o r × Settles o "acc-a" "acc-b" (pos 40) (store_of w) (store_of w')
transfer_atomic_example =
    transfer_atomic library (transfer_of "acc-a" "acc-b") (pos 40) refl admin
      (world (deliver ∷ refuse 503 ∷ [])) admin_transfers a_not_b tt refl refl

-- The credit is applied, but its answer lost, so that the debit is reversed.
transfer_drift_example :
    let w = world (deliver ∷ lose_answer ∷ []) in
    let w' = (transfer env (transfer_of "acc-a" "acc-b") admin w).1 in
    Drifts (pos 40) (total (store_of w)) (total (store_of w'))
transfer_drift_example =
    transfer_drift library (transfer_of "acc-a" "acc-b") (pos 40) refl admin
      (world (deliver ∷ lose_answer ∷ [])) admin_transfers a_not_b tt tt

transfer_moves_example :
    let w = world [] in
    let (r, w') = transfer env (transfer_of "acc-a" "acc-b") admin w in
    Reports completed r
    × (lookup "acc-b" (store_of w') ≡ (
        if "acc-b" == "acc-b"
        then some (record bob { balance = bob.balance +ℤ pos 40 })
        else if "acc-b" == "acc-a"
        then some (record alice { balance = alice.balance +ℤ neg (pos 40) })
        else lookup "acc-b" (store_of w)))
transfer_moves_example =
    transfer_moves library (transfer_of "acc-a" "acc-b") (pos 40) refl admin (world [])
      admin_transfers a_not_b alice bob "acc-b" refl stored_alice stored_bob

transfer_false_reversal_example :
    let w = world (deliver ∷ lose_request ∷ refuse 500 ∷ []) in
    let (r, w') = transfer env (transfer_of "acc-a" "acc-b") admin w in
    (r ≡ raised (http_exception 502 "Could not credit destination account"))
    × (store_of w' ≡ credited "acc-a" (neg (pos 40)) (store_of w))
    × (w'.log
        ≡ logged
            (logged (logged w.log info "transfer.start") error "transfer.credit.failed")
            info
            "transfer.debit.reversed")
transfer_false_reversal_example =
    transfer_false_reversal library (transfer_of "acc-a" "acc-b") (pos 40) refl admin
      (world (deliver ∷ lose_request ∷ refuse 500 ∷ [])) 500 admin_transfers a_not_b known_alice
      refl refl refl

approval_debits_example :
    let w = world [] in
    let (r, w') = validate_payment env "pay-1" (decision "approved") admin w in
    (r ≡ ok (obj (decided library "pay-1" (decision "approved") payment)))
    × (w'.env ≡ record (with_balance w.env (credited "acc-a" (neg (pos 25)) (store_of w))) {
      payments =
          put (str "pay-1") (decided library "pay-1" (decision "approved") payment) w.env.payments;
    })
approval_debits_example =
    approval_debits library "pay-1" (decision "approved") admin admin_validates refl "acc-a"
      (pos 25) named_account payment (world []) refl stored_payment account_of_payment
      amount_of_payment

approval_repeats_example :
    store_of
      (validate_payment env "pay-1"
        (decision "approved")
        admin
        (validate_payment env "pay-1" (decision "approved") admin (world [])).1).1
    ≡ credited "acc-a" (neg (pos 25)) (credited "acc-a" (neg (pos 25)) (store_of (world [])))
approval_repeats_example =
    approval_repeats library "pay-1" (decision "approved") admin admin_validates refl "acc-a"
      (pos 25) named_account payment (world []) refl stored_payment account_of_payment
      amount_of_payment

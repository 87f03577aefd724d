-- ===== src/EndToEnd/Transfers.antt =====
-- What `transfer` (gateway-api/main.py) does to the accounts, under the faults that the network may
-- have: its atomicity, its effect, and how money is lost or made.
use datadog_sample_finance.Shared.{String, ◌≡◌, ◌≢◌, true, some, [], arith, ◌==◌, if◌then◌else◌}
use datadog_sample_finance.Shared.Int.{ℤ, neg, ◌+ℤ◌}
use datadog_sample_finance.Shared.Float.{finite}
use datadog_sample_finance.Shared.Json.{Fields}
use datadog_sample_finance.Shared.Dict.{Dict, insert, lookup, lookup-insert}
use datadog_sample_finance.Gateway.Http.{World}
use datadog_sample_finance.Gateway.Models.{TransferRequest}
use datadog_sample_finance.Gateway.Roles.{transfer_roles}
use datadog_sample_finance.Gateway.Roles.Laws.{is_permitted}
use datadog_sample_finance.Gateway.Transfer.{transfer}
use datadog_sample_finance.Services.Accounts.{Account}
use datadog_sample_finance.Services.Stack.{
  Fault, deliver, Stack, Library, stack_env, next_fault, later_faults,
}
use datadog_sample_finance.EndToEnd.Patch.{store_of}
use datadog_sample_finance.EndToEnd.Saga.{Outcome, completed, saga, Reports, transfer_refines_saga}
use datadog_sample_finance.EndToEnd.Money.{
  total, credited-some, IsClean, Settles, saga-Settles, IsHonest, Drifts, saga-Drifts,
}

module _ (L : Library) (body : TransferRequest) (x : ℤ) (amount : body.amount ≡ finite x)
    (claims : Fields) (w : World Stack) (permitted : is_permitted transfer_roles claims ≡ true)
    (differ : body.from_account_id ≢ body.to_account_id) where
  abbrev source : String
  source = body.from_account_id

  abbrev target : String
  target = body.to_account_id

  -- The three requests of a transfer meet the first three faults of the schedule.
  abbrev first : Fault
  first = next_fault w.env.faults

  abbrev second : Fault
  second = next_fault (later_faults w.env.faults)

  abbrev third : Fault
  third = next_fault (later_faults (later_faults w.env.faults))

  abbrev after : Dict Account
  after = store_of (transfer (stack_env L) body claims w).1

  refined :
      (store_of (transfer (stack_env L) body claims w).1
        ≡ (saga first second third source target x (store_of w)).1)
      × Reports
          (saga first second third source target x (store_of w)).0
          (transfer (stack_env L) body claims w).0
  refined = transfer_refines_saga L body x amount claims w permitted differ

  -- For a permitted caller, a finite amount and two different account ids: a transfer is atomic, if
  -- its first two requests meet clean faults (the service acts just if the gateway sees a success)
  -- and the third is delivered. Either it is completed, both accounts are known, and the source is
  -- debited and the target credited; or it answers 502, and the account store is as before.
  pub transfer_atomic :
      IsClean first
      → IsClean second
      → third ≡ deliver
      → (o : Outcome) × Reports o (transfer (stack_env L) body claims w).0
        × Settles o source target x (store_of w) after
  transfer_atomic c1 c2 d = (
    (saga first second third source target x (store_of w)).0,
    refined.1,
    rw refined.0 (saga-Settles first second third source target x (store_of w) c1 c2 d),
  )

  -- For a permitted caller, a finite amount and two different account ids: if no proxy answers the
  -- first or the second request with a success of its own, then whatever else the network does, the
  -- sum of all balances after a transfer is as before, or lower or higher by just the amount.
  pub transfer_drift :
      IsHonest first → IsHonest second → Drifts x (total (store_of w)) (total after)
  transfer_drift h1 h2 =
      rw refined.0 (saga-Drifts first second third source target x (store_of w) h1 h2)

  -- Over a network without faults, for a permitted caller, a finite amount and two different known
  -- accounts, a transfer is completed, lowers the source by the amount, raises the target by it, and
  -- changes no other account.
  pub transfer_moves :
      (a b : Account) (id : String)
      → w.env.faults ≡ []
      → lookup source (store_of w) ≡ some a
      → lookup target (store_of w) ≡ some b
      → Reports completed (transfer (stack_env L) body claims w).0
        × (lookup id after ≡ (
            if id == target
            then some (record b { balance = b.balance +ℤ x })
            else if id == source
            then some (record a { balance = a.balance +ℤ neg x })
            else lookup id (store_of w)))
  transfer_moves a b id quiet ea eb =
      let paid = record a { balance = a.balance +ℤ neg x } in
      let store' = insert source paid (store_of w) in
      let known : lookup target store' ≡ some b =
        rw (lookup-insert target source paid (store_of w)) (ground arith) in
      let e : after ≡ insert target (record b { balance = b.balance +ℤ x }) store' = ground (
        arith,
        refined.0,
        credited-some source (neg x) (store_of w) a ea,
        credited-some target x store' b known,
      ) in
      (
        ground (arith, refined.1, known),
        rw e (
            ground (
              arith,
              lookup-insert id target (record b { balance = b.balance +ℤ x }) store',
              lookup-insert id source paid (store_of w),
            )),
      )

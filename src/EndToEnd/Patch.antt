-- ===== src/EndToEnd/Patch.antt =====
-- One `PATCH /v1/accounts/{id}/balance` of the gateway, from its request to the stored balance.
use datadog_sample_finance.Shared.{
  Option, ℕ, ◌⊎◌, String, ◌≡◌, Bool, true, false, ◌&&◌, none, some, arith, leb, ==_self,
  if◌then◌else◌,
}
use datadog_sample_finance.Shared.Int.{ℤ, ◌+ℤ◌}
use datadog_sample_finance.Shared.Float.{finite}
use datadog_sample_finance.Shared.Json.{num, null, end, field, get_or-field_self}
use datadog_sample_finance.Shared.Dict.{Dict, lookup, insert}
use datadog_sample_finance.Python.{ok, fails_http}
use datadog_sample_finance.Gateway.Http.{World, account_service}
use datadog_sample_finance.Gateway.Transfer.{balance_patch, patch_balance}
use datadog_sample_finance.Services.Accounts.{Account, apply_delta, update_balance}
use datadog_sample_finance.Services.Stack.{
  Fault, deliver, lose_answer, refuse, Stack, Library, stack_env, next_fault, later_faults,
  exchange, under_fault, serve_at, serve_accounts,
}

-- The store after a delta has been applied: unknown ids change nothing.
abbrev pub credited : String → ℤ → Dict Account → Dict Account
credited id x store = elim (lookup id store) [
  | none ↦ store
  | some a ↦ insert id (record a { balance = a.balance +ℤ x }) store
]

abbrev pub is_known : String → Dict Account → Bool
is_known id store = elim (lookup id store) [ none ↦ false | some a ↦ true ]

-- Whether the service acts on a request under a fault, and whether the gateway then sees success.
abbrev pub is_applied : Fault → Bool
is_applied deliver = true
is_applied lose_answer = true
is_applied f = false

abbrev pub is_confirmed : Fault → Bool → Bool
is_confirmed deliver known = known
is_confirmed (refuse n) known = leb 200 n && leb n 299
is_confirmed f known = false

abbrev pub store_of : World Stack → Dict Account
store_of w = w.env.accounts.store

abbrev pub patched_store : Fault → String → ℤ → Dict Account → Dict Account
patched_store f id x store = if is_applied f then credited id x store else store

-- The world after the request: the schedule has moved on, and the store is patched.
abbrev pub patched_world : String → ℤ → World Stack → World Stack
patched_world id x w = record w {
  env = record w.env {
    faults = later_faults w.env.faults;
    accounts = record w.env.accounts {
      store = patched_store (next_fault w.env.faults) id x (store_of w);
    };
  };
}

abbrev pub with_balance : Stack → Dict Account → Stack
with_balance s store = record s { accounts = record s.accounts { store = store } }

-- The status that account-service answers with.
abbrev pub patch_status : Bool → ℕ
patch_status known = if known then 200 else 404

update_balance_store :
    (parse_decimal : String → Option ℤ) (id : String) (x : ℤ) (store : Dict Account)
    → ((update_balance parse_decimal id (field "delta" (num (finite x)) end) store).1
        ≡ credited id x store)
      × ((update_balance parse_decimal id (field "delta" (num (finite x)) end) store).0.status_code
          ≡ patch_status (is_known id store))
unfolding update_balance apply_delta
update_balance_store parse_decimal id x store =
    ground (arith, get_or-field_self "delta" (num (finite x)) null end)

abbrev popped : World Stack → Stack
popped w = record w.env { faults = later_faults w.env.faults }

module _ (L : Library) where
  pub serve_at-balance_patch :
      (id : String) (x : ℤ) (s : Stack)
      → ((serve_at L account_service (balance_patch id (finite x)) s).1
          ≡ with_balance s (credited id x s.accounts.store))
        × ((serve_at L account_service (balance_patch id (finite x)) s).0.status_code
            ≡ patch_status (is_known id s.accounts.store))
  unfolding serve_at serve_accounts
  serve_at-balance_patch id x s =
      rw (==_self "v1", ==_self "accounts", ==_self "balance")
        (ground (arith, update_balance_store L.parse_decimal id x s.accounts.store))

  -- The gateway's `PATCH` leaves the store as the service would, where the request arrives.
  pub patch_balance_world :
      (id : String) (x : ℤ) (w : World Stack)
      → (patch_balance (stack_env L) id (finite x) w).1 ≡ patched_world id x w
  unfolding patch_balance exchange under_fault
  patch_balance_world id x w = ground (arith, serve_at-balance_patch id x (popped w))

  -- It succeeds just if it is confirmed, and raises an `httpx.HTTPError` otherwise.
  pub patch_balance_result :
      (id : String) (x : ℤ) (w : World Stack)
      → let confirmed = is_confirmed (next_fault w.env.faults) (is_known id (store_of w)) in
        let r = (patch_balance (stack_env L) id (finite x) w).0 in
        ((confirmed ≡ true) × (r ≡ ok tt)) ⊎ ((confirmed ≡ false) × (fails_http r ≡ true))
  unfolding patch_balance exchange under_fault
  patch_balance_result id x w = ground (arith, serve_at-balance_patch id x (popped w))

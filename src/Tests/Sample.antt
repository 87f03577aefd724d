-- ===== src/Tests/Sample.antt =====
-- Concrete data for the runs: two accounts, a payment, a library and callers.
use datadog_sample_finance.Shared.{
  true, ℕ, String, Option, none, some, List, [], ◌∷◌, ◌==◌, if◌then◌else◌, ◌+◌,
}
use datadog_sample_finance.Shared.Int.{pos}
use datadog_sample_finance.Shared.Float.{Float, finite}
use datadog_sample_finance.Shared.Json.{Json, num, str, arr, nil, cons, Fields, end, field}
use datadog_sample_finance.Gateway.Http.{Env, World, answered}
use datadog_sample_finance.Gateway.Models.{
  TransferRequest, PaymentRequest, PaymentValidationRequest, DepositRequest,
}
use datadog_sample_finance.Services.Accounts.{Account}
use datadog_sample_finance.Services.Stack.{Fault, Stack, Library, stack_env}

-- Claims of a caller of the finance realm with one role.
abbrev pub claims_of : String → Fields
claims_of role =
    field "iss" (str "http://keycloak:8080/realms/finance")
      (field "sub" (str "u-1") (field "roles" (arr (cons (str role) nil)) end))

abbrev pub admin : Fields
admin = claims_of "finance-admin"

abbrev pub auditor : Fields
auditor = claims_of "finance-auditor"

-- A token decodes under the new keys alone.
abbrev decode : String → Json → Option Fields
decode token (str keys) = if keys == "new" then some admin else none
decode token v = none

abbrev pub coerce : Json → Option Float
coerce (num x) = some x
coerce v = none

abbrev pub library : Library
library = record {
  decode = decode;
  coerce_float = coerce;
  parse_float = λ s. none;
  display = λ v. "None";
  uuid4_hex = "0123456789abcdef0123456789abcdef";
  now_text = "2026-01-01T00:00:00Z";
  parse_decimal = λ s. none;
  scalar_text = λ v. "1";
  is_sent = λ s. true;
}

abbrev pub env : Env
env = stack_env library

abbrev pub alice : Account
alice = record {
  id = "acc-a";
  owner_id = some "owner-alice";
  balance = pos 100;
  currency = "EUR";
  tier = "premium";
  created_at = "2026-01-01T00:00:00Z";
}

abbrev pub bob : Account
bob = record {
  id = "acc-b";
  owner_id = some "owner-bob";
  balance = pos 50;
  currency = "EUR";
  tier = "retail";
  created_at = "2026-01-02T00:00:00Z";
}

abbrev pub payment : Fields
payment = field "payment_id" (str "pay-1") (
    field "amount" (num (finite (pos 25))) (
      field "currency" (str "EUR") (
        field "account_id" (str "acc-a")
          (field "status" (str "pending") (field "created_at" (str "2026-01-01T00:00:00Z") end)))))

-- The process with old keys in its cache, fetched at time 0, and the services behind a schedule
-- of faults.
abbrev pub world : List Fault → World Stack
world faults = record {
  env = record {
    accounts = record { store = ("acc-a", alice) ∷ ("acc-b", bob) ∷ []; alerts = []; events = [] };
    payments = (str "pay-1", payment) ∷ [];
    keys = str "new";
    clock = 1000;
    faults = faults;
  };
  jwks_cache = str "old";
  jwks_cache_fetched_at = 0;
  log = [];
}

abbrev pub transfer_of : String → String → TransferRequest
transfer_of source target = record {
  from_account_id = source;
  to_account_id = target;
  amount = finite (pos 40);
  currency = "EUR";
}

abbrev pub payment_request : PaymentRequest
payment_request = record { amount = finite (pos 40); currency = "EUR"; account_id = "acc-a" }

abbrev pub deposit_request : DepositRequest
deposit_request = record { amount = finite (pos 40); note = none }

abbrev pub decision : String → PaymentValidationRequest
decision action = record { action = action; note = none }

-- Keycloak alone, which always answers with the new keys, and counts the requests.
abbrev pub key_server : Env
key_server = record {
  State = ℕ;
  exchange = λ r n. (answered (record { status_code = 200; body = some (str "new") }), n + 1);
  time = λ n. (1000, n);
  uuid4_hex = λ n. ("0123456789abcdef0123456789abcdef", n);
  utc_now = λ n. ("2026-01-01T00:00:00Z", n);
  decode = λ n token keys. decode token keys;
  coerce_float = coerce;
  parse_float = λ s. none;
  display = λ v. "None";
}

abbrev pub key_world : World ℕ
key_world = record { env = 0; jwks_cache = str "old"; jwks_cache_fetched_at = 0; log = [] }

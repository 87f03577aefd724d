-- ===== src/Services/Accounts.antt =====
-- account-service (Account.java, AccountService.java, AccountController.java,
-- PaymentEventProducer.java): the in-memory account store, the endpoints, and the messages that the
-- broker takes. Balances are `BigDecimal`s, so sums are exact; they are counted in the unit of
-- `Float`.
pub mod Ledger
use datadog_sample_finance.Shared.{
  Bool, String, ℕ, ◌*◌, Option, none, some, List, [], ◌∷◌, ◌++◌, ◌==◌, ◌||◌, if◌then◌else◌,
}
use datadog_sample_finance.Shared.Int.{ℤ, pos, ◌+ℤ◌, ◌*ℤ◌}
use datadog_sample_finance.Shared.Float.{finite}
use datadog_sample_finance.Shared.Json.{
  Json, null, num, big, str, arr, obj, Items, nil, cons, field, end, Fields, get, get_or,
}
use datadog_sample_finance.Shared.Dict.{Dict, lookup, insert}
use datadog_sample_finance.Gateway.Http.{Response}

pub record Account : Type 0 where
  pub id : String
  pub owner_id : Option String
  pub balance : ℤ
  pub currency : String
  pub tier : String
  pub created_at : String

-- The account that Jackson reads from the body of a `POST`, as far as it is used.
pub record AccountRequest : Type 0 where
  pub owner_id : Option String
  pub balance : Option ℤ
  pub currency : Option String
  pub tier : Option String

-- One payment alert that the broker has taken. Its random correlation id is left out.
pub record Alert : Type 0 where
  pub account_id : String
  pub channel : String
  pub currency : String
  pub tier : String

-- One account.created event that the broker has taken.
pub record AccountCreated : Type 0 where
  pub account_id : String
  pub tier : String
  pub currency : String

pub record AccountService : Type 0 where
  pub store : Dict Account
  pub alerts : List Alert
  pub events : List AccountCreated

-- The seed of the constructor.
abbrev pub initial : String → AccountService
initial now = record {
  store =
      (
        "acc-001",
        record {
          id = "acc-001";
          owner_id = some "owner-42";
          balance = pos (12500 * 1000000);
          currency = "EUR";
          tier = "premium";
          created_at = now;
        },
      )
      ∷ [];
  alerts = [];
  events = [];
}

abbrev pub reply : ℕ → Option Json → Response
reply status body = record { status_code = status; body = body }

-- `applyDelta`, by `ConcurrentHashMap.compute`: no entry is made for an unknown id.
unfoldable pub apply_delta : String → ℤ → Dict Account → Option (Account × Dict Account)
apply_delta id delta store = elim (lookup id store) [
  | none ↦ none
  | some account ↦
      let updated = record account { balance = account.balance +ℤ delta } in
      some (updated, insert id updated store)
]

abbrev pub account_json : Account → Json
account_json a = obj (
    field "accountId" (str a.id) (
      field "balance" (num (finite a.balance))
        (field "currency" (str a.currency) (field "tier" (str a.tier) end))))

abbrev pub patched : Dict Account → Option (Account × Dict Account) → Response × Dict Account
patched store none = (reply 404 none, store)
patched store (some (account, store')) = (reply 200 (some (account_json account)), store')

module _ (parse_decimal : String → Option ℤ) where
  -- `new BigDecimal(rawDelta.toString())`, where `parse_decimal` is `new BigDecimal` of a text: a
  -- NumberFormatException for what spells no number.
  abbrev pub decimal_of : Json → Option ℤ
  decimal_of (num (finite x)) = some x
  decimal_of (big n) = some (n *ℤ 1000000)
  decimal_of (str s) = parse_decimal s
  decimal_of v = none

  -- `PATCH /v1/accounts/{id}/balance`
  unfoldable pub update_balance : String → Fields → Dict Account → Response × Dict Account
  unfolding apply_delta
  update_balance id body store = elim (get_or "delta" body null) [
    | null ↦ (reply 400 none, store)
    | raw ↦ elim (decimal_of raw) [
      | none ↦ (reply 500 none, store)
      | some delta ↦ patched store (apply_delta id delta store)
    ]
  ]

-- `GET /v1/accounts/{id}/balance`
unfoldable pub get_balance : String → Dict Account → Response
get_balance id store = elim (lookup id store) [
  | none ↦ reply 404 none
  | some account ↦ reply 200 (some (account_json account))
]

-- `body.getOrDefault("currency", "UNKNOWN")`: a null that is there is returned.
abbrev currency_of : Dict (Option String) → Option String
currency_of body = elim (lookup "currency" body) [ none ↦ some "UNKNOWN" | some v ↦ v ]

-- `sendPaymentAlert`, for a message that the broker takes (`is_sent`) or that `send` fails on, which
-- is caught.
abbrev pub send_payment_alert : Bool → Account → String → AccountService → AccountService
send_payment_alert is_sent account currency s =
    let alert : Alert = record {
      account_id = account.id;
      channel = if account.tier == "premium" || account.tier == "corporate" then "sms" else "email";
      currency = currency;
      tier = account.tier;
    } in
    if is_sent then record s { alerts = s.alerts ++ alert ∷ [] } else s

-- `POST /v1/accounts/{id}/payment-alert`, of a body that Jackson has read as a map of texts and
-- nulls. `Map.of` refuses a null currency.
unfoldable pub payment_alert :
    Bool → String → Dict (Option String) → AccountService → Response × AccountService
payment_alert is_sent id body s = elim (lookup id s.store) [
  | none ↦ (reply 404 none, s)
  | some account ↦ elim (currency_of body) [
    | none ↦ (reply 500 none, s)
    | some currency ↦ (
      reply 202
          (some (obj (field "accountId" (str id) (field "status" (str "alert_published") end)))),
      send_payment_alert is_sent account currency s,
    )
  ]
]

-- An account as Jackson writes it.
abbrev pub account_bean : Account → Json
account_bean a = obj (
    field "id" (str a.id) (
      field "ownerId" (elim a.owner_id [ none ↦ null | some owner ↦ str owner ])
        (field "balance" (num (finite a.balance)) (
          field "currency" (str a.currency)
            (field "tier" (str a.tier) (field "createdAt" (str a.created_at) end))))))

abbrev or_else : {A : Type 0} → A → Option A → A
or_else default none = default
or_else default (some v) = v

-- `createAccount` of the service; `fresh` is the new id, `acc-` and eight digits of a random UUID.
unfoldable pub new_account : String → String → AccountRequest → Account
new_account fresh now request = record {
  id = fresh;
  owner_id = request.owner_id;
  balance = or_else (pos 0) request.balance;
  currency = or_else "EUR" request.currency;
  tier = or_else "retail" request.tier;
  created_at = now;
}

-- The payload of `sendAccountCreatedEvent`.
abbrev pub event_of : Account → AccountCreated
event_of account = record {
  account_id = account.id;
  tier = account.tier;
  currency = account.currency;
}

-- `sendAccountCreatedEvent`: a failure of `send` is caught.
abbrev pub send_account_created : Bool → Account → AccountService → AccountService
send_account_created is_sent account s =
    if is_sent then record s { events = s.events ++ event_of account ∷ [] } else s

-- The message of an event, up to the order of its keys, which `Map.of` leaves open.
abbrev pub event_json : AccountCreated → Fields
event_json e = field "eventType" (str "account.created") (
    field "accountId" (str e.account_id)
      (field "tier" (str e.tier) (field "currency" (str e.currency) end)))

-- `POST /v1/accounts`
unfoldable pub create_account :
    Bool → String → String → AccountRequest → AccountService → Response × AccountService
create_account is_sent fresh now request s =
    let account = new_account fresh now request in
    (
      reply 201 (some (account_bean account)),
      send_account_created is_sent account (record s { store = insert account.id account s.store }),
    )

abbrev beans : Dict Account → Items
beans [] = nil
beans ((k, a) ∷ rest) = cons (account_bean a) (beans rest)

-- `GET /v1/accounts`; the order of `ConcurrentHashMap.values` is left open by Java.
unfoldable pub list_accounts : Dict Account → Response
list_accounts store = reply 200 (some (arr (beans store)))

-- `GET /v1/accounts/{id}`
unfoldable pub get_account : String → Dict Account → Response
get_account id store = elim (lookup id store) [
  | none ↦ reply 404 none
  | some account ↦ reply 200 (some (account_bean account))
]

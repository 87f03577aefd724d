-- ===== src/Gateway/Models.antt =====
-- gateway-api/main.py, the pydantic models: what a request body must be, and the answers. The
-- conversion of a JSON value to `float` is pydantic's own and a parameter; the constraints are here.
pub mod Valid
use Prim.Native.String.{count}
use datadog_sample_finance.Shared.{String, Bool, true, false, ◌||◌, Option, none, some, eqb, ◌==◌}
use datadog_sample_finance.Shared.Float.{Float, nan, whole, less}
use datadog_sample_finance.Shared.Json.{Json, null, str, Fields, get, fields_of}

pub record PaymentRequest : Type 0 where
  pub amount : Float
  pub currency : String
  pub account_id : String

pub record PaymentResponse : Type 0 where
  pub payment_id : String
  pub status : String
  pub amount : Float
  pub currency : String
  pub account_id : String

pub record BalanceResponse : Type 0 where
  pub account_id : String
  pub balance : Float
  pub currency : String

pub record DepositRequest : Type 0 where
  pub amount : Float
  pub note : Option String

pub record DepositResponse : Type 0 where
  pub account_id : String
  pub deposited : Float
  pub balance : Float
  pub currency : String
  pub tier : String

pub record TransferRequest : Type 0 where
  pub from_account_id : String
  pub to_account_id : String
  pub amount : Float
  pub currency : String

pub record TransferResponse : Type 0 where
  pub transfer_id : String
  pub from_account_id : String
  pub to_account_id : String
  pub amount : Float
  pub currency : String
  pub status : String
  pub created_at : String

pub record PaymentValidationRequest : Type 0 where
  pub action : String
  pub note : Option String

pub record PaymentDetail : Type 0 where
  pub payment_id : String
  pub status : String
  pub amount : Float
  pub currency : String
  pub account_id : String
  pub created_at : Option String
  pub validated_at : Option String
  pub note : Option String

infixl 5 ◌>>=◌ ◌>>◌
abbrev ◌>>=◌ : {A B : Type 0} → Option A → (A → Option B) → Option B
none >>= f = none
some a >>= f = f a

abbrev ◌>>◌ : {B : Type 0} → Option (Unit {0}) → Option B → Option B
m >> k = m >>= λ _. k

abbrev guard : Bool → Option (Unit {0})
guard true = some tt
guard false = none

-- A `str` field with no default.
abbrev text_of : Json → Option String
text_of (str s) = some s
text_of v = none

abbrev text_field : String → Fields → Option String
text_field key d = get key d >>= text_of

-- A field `str | None = None`.
abbrev optional_text_of : Json → Option (Option String)
optional_text_of null = some none
optional_text_of (str s) = some (some s)
optional_text_of v = none

abbrev optional_text : String → Fields → Option (Option String)
optional_text key d = elim (get key d) [ none ↦ some none | some v ↦ optional_text_of v ]

-- `Field(..., gt=0)`: pydantic refuses what is `<= 0`, and so lets nan pass.
abbrev pub is_positive : Float → Bool
is_positive nan = true
is_positive x = less (whole 0) x

-- `Field(..., min_length=3, max_length=3)`
abbrev pub is_currency : String → Bool
is_currency s = eqb (count s) 3

-- `pattern="^(approved|rejected|flagged)$"`
abbrev pub is_action : String → Bool
is_action s = s == "approved" || s == "rejected" || s == "flagged"

unfoldable pub parse_validation : Json → Option PaymentValidationRequest
parse_validation body = do
  d ← fields_of body
  action ← text_field "action" d
  guard (is_action action)
  note ← optional_text "note" d
  some (record { action = action; note = note })

module _ (coerce_float : Json → Option Float) where
  unfoldable pub parse_payment : Json → Option PaymentRequest
  parse_payment body = do
    d ← fields_of body
    amount ← get "amount" d >>= coerce_float
    guard (is_positive amount)
    currency ← text_field "currency" d
    guard (is_currency currency)
    account_id ← text_field "account_id" d
    some (record { amount = amount; currency = currency; account_id = account_id })

  unfoldable pub parse_deposit : Json → Option DepositRequest
  parse_deposit body = do
    d ← fields_of body
    amount ← get "amount" d >>= coerce_float
    guard (is_positive amount)
    note ← optional_text "note" d
    some (record { amount = amount; note = note })

  unfoldable pub parse_transfer : Json → Option TransferRequest
  parse_transfer body = do
    d ← fields_of body
    from_id ← text_field "from_account_id" d
    to_id ← text_field "to_account_id" d
    amount ← get "amount" d >>= coerce_float
    guard (is_positive amount)
    currency ← text_field "currency" d
    guard (is_currency currency)
    some (record {
      from_account_id = from_id;
      to_account_id = to_id;
      amount = amount;
      currency = currency;
    })

  -- The response model of the payment routes, which keeps the declared fields alone.
  unfoldable pub parse_payment_detail : Json → Option PaymentDetail
  parse_payment_detail v = do
    d ← fields_of v
    payment_id ← text_field "payment_id" d
    status ← text_field "status" d
    amount ← get "amount" d >>= coerce_float
    currency ← text_field "currency" d
    account_id ← text_field "account_id" d
    created_at ← optional_text "created_at" d
    validated_at ← optional_text "validated_at" d
    note ← optional_text "note" d
    some (record {
      payment_id = payment_id;
      status = status;
      amount = amount;
      currency = currency;
      account_id = account_id;
      created_at = created_at;
      validated_at = validated_at;
      note = note;
    })

  -- A model that the code builds from values of an answer: each must fit its field.
  unfoldable pub balance_response : String → Json → Json → Option BalanceResponse
  balance_response account_id balance currency = do
    b ← coerce_float balance
    c ← text_of currency
    some (record { account_id = account_id; balance = b; currency = c })

  unfoldable pub deposit_response : Json → Float → Json → Json → Json → Option DepositResponse
  deposit_response account_id deposited balance currency tier = do
    a ← text_of account_id
    b ← coerce_float balance
    c ← text_of currency
    t ← text_of tier
    some (record { account_id = a; deposited = deposited; balance = b; currency = c; tier = t })

unfoldable pub payment_response : String → Json → PaymentRequest → Option PaymentResponse
payment_response payment_id status payload = do
  s ← text_of status
  some (record {
    payment_id = payment_id;
    status = s;
    amount = payload.amount;
    currency = payload.currency;
    account_id = payload.account_id;
  })

-- ===== src/Services/Payments.antt =====
-- transaction-service (routes/payments.js): the in-memory payment map and its endpoints. A payment
-- is the JavaScript object itself. The ledger write and the fraud-scoring messages of a new payment,
-- which no endpoint reads back, are in Posting.
use datadog_sample_finance.Shared.{
  Option, List, ◌&&◌, ◌≡◌, arith, ==_self, String, Bool, true, false, ◌||◌, not, none, some, [],
  ◌∷◌, eqb, ◌==◌, if◌then◌else◌,
}
use datadog_sample_finance.Shared.Int.{pos, negsuc}
use datadog_sample_finance.Shared.Float.{Float, finite, infinity, neg_infinity, nan, less}
use datadog_sample_finance.Shared.Json.{
  Json, null, bool, num, big, str, arr, obj, Items, nil, cons, Fields, field, end, get_or,
}
use datadog_sample_finance.Gateway.Http.{Response}
use datadog_sample_finance.Services.Accounts.{reply}

-- `o.key = value` on an object: in place where the key is there.
unfoldable pub assign : String → Json → Fields → Fields
assign key v end = field key v end
assign key v (field k w rest) = if key == k then field k v rest else field k w (assign key v rest)

-- JavaScript's truth value; `undefined` is `null`.
unfoldable pub js_truthy : Json → Bool
js_truthy null = false
js_truthy (bool b) = b
js_truthy (num (finite (pos n))) = not (eqb n 0)
js_truthy (num nan) = false
js_truthy (num x) = true
js_truthy (big n) = true
js_truthy (str s) = not (s == "")
js_truthy v = true

-- A number as JavaScript reads it from JSON.
abbrev pub js_number : Json → Option Float
js_number (num x) = some x
js_number (big (pos n)) = some infinity
js_number (big (negsuc n)) = some neg_infinity
js_number v = none

abbrev same_number : Float → Float → Bool
same_number nan nan = true
same_number nan y = false
same_number x nan = false
same_number x y = not (less x y) && not (less y x)

-- Whether two values are one key of a `Map`: each request's objects and arrays are new ones.
unfoldable pub same_key : Json → Json → Bool
same_key (str s) (str t) = s == t
same_key (bool a) (bool b) = if a then b else not b
same_key v w = elim (js_number v) [
  | none ↦ false
  | some x ↦ elim (js_number w) [ none ↦ false | some y ↦ same_number x y ]
]

-- The payment map, in insertion order.
abbrev pub Payments : Type 0
Payments = List (Json × Fields)

-- `payments.get(id)`, of an id from a path.
unfoldable pub find : String → Payments → Option Fields
find id [] = none
find id ((k, p) ∷ rest) = if same_key (str id) k then some p else find id rest

-- `payments.set(key, payment)`
unfoldable pub put : Json → Fields → Payments → Payments
put key payment [] = (key, payment) ∷ []
put key payment ((k, p) ∷ rest) =
    if same_key key k then (k, payment) ∷ rest else (k, p) ∷ put key payment rest

pub find-put_self :
    (id : String) (p : Fields) (payments : Payments) → find id (put (str id) p payments) ≡ some p
unfolding find put same_key
find-put_self id p [] = ground (arith, ==_self id)
find-put_self id p ((k, q) ∷ rest) = ground (arith, find-put_self id p rest)

-- `POST /v1/payments`; `fresh` is `uuidv4()` and `now` the ISO time.
unfoldable pub create_payment : String → String → Fields → Payments → Response × Payments
unfolding js_truthy
create_payment fresh now body payments =
    let amount = get_or "amount" body null in
    let currency = get_or "currency" body null in
    let account_id = get_or "account_id" body null in
    let incoming = get_or "payment_id" body null in
    let payment_id = if js_truthy incoming then incoming else str fresh in
    let payment = field "payment_id" payment_id (
      field "amount" amount (
        field "currency" currency (
          field "account_id" account_id
            (field "status" (str "pending") (field "created_at" (str now) end))))) in
    if not (js_truthy amount) || not (js_truthy currency) || not (js_truthy account_id)
    then (reply 400 none, payments)
    else (reply 201 (some (obj payment)), put payment_id payment payments)

abbrev values : Payments → Items
values [] = nil
values ((k, p) ∷ rest) = cons (obj p) (values rest)

-- `GET /v1/payments`
unfoldable pub list_all : Payments → Response
list_all payments = reply 200 (some (arr (values payments)))

abbrev is_valid_status : Json → Bool
is_valid_status (str s) = s == "approved" || s == "rejected" || s == "flagged"
is_valid_status v = false

-- The three assignments of the PATCH handler.
unfoldable pub decide : Json → Json → String → Fields → Fields
unfolding assign js_truthy
decide status note now payment =
    assign "validated_at" (str now)
      (assign "note" (if js_truthy note then note else null) (assign "status" status payment))

-- `PATCH /v1/payments/:id`
unfoldable pub patch_payment : String → String → Fields → Payments → Response × Payments
patch_payment now id body payments =
    if is_valid_status (get_or "status" body null)
    then elim (find id payments) [
      | none ↦ (reply 404 none, payments)
      | some payment ↦
          let decided = decide (get_or "status" body null) (get_or "note" body null) now payment in
          (reply 200 (some (obj decided)), put (str id) decided payments)
    ]
    else (reply 400 none, payments)

-- `GET /v1/payments/:id`
unfoldable pub get_payment : String → Payments → Response
get_payment id payments = elim (find id payments) [
  | none ↦ reply 404 none
  | some payment ↦ reply 200 (some (obj payment))
]

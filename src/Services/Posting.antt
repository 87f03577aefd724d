-- ===== src/Services/Posting.antt =====
-- transaction-service: services/ledger.js, messaging/producer.js and the whole handler of
-- `POST /v1/payments` in routes/payments.js, with its two best-effort steps. Spans and log records
-- are left out.
pub mod Laws
use datadog_sample_finance.Shared.{
  ℕ, zero, suc, String, ◌<>◌, Bool, true, false, not, ◌||◌, none, some, List, [], ◌∷◌, ◌++◌,
  if◌then◌else◌,
}
use datadog_sample_finance.Shared.Json.{Json, null, str, obj, Fields, field, end, get_or}
use datadog_sample_finance.Shared.Dict.{Dict}
use datadog_sample_finance.Gateway.Http.{Response}
use datadog_sample_finance.Services.Accounts.{reply}
use datadog_sample_finance.Services.Payments.{Payments, js_truthy, put}

-- What `ledger.commit` and `producer.send` are given.
pub record Payload : Type 0 where
  pub payment_id : Json
  pub amount : Json
  pub currency : Json
  pub account_id : Json

-- The statements of `commit`, with their parameters: the read of an account's last activity, the
-- insertion of a pending transaction and its settlement.
pub data Query : Type 0 where
  recent_activity settle : Json → Query
  insert_transaction : Json → Json → Json → Json → Query

-- What transaction-service does not implement.
pub record Backends : Type 1 where
  pub State : Type 0
  -- `db.query`: whether it resolves.
  pub query : Query → State → Bool × State
  -- `stompit.connect`: whether it yields a client.
  pub connect : State → Bool × State
  -- `JSON.stringify`, `Buffer.byteLength` in decimal, and the text of a header's value.
  pub stringify : Json → String
  pub byte_length : String → String
  pub header_text : Json → String

-- A frame that a client has sent.
pub record Message : Type 0 where
  pub headers : Dict String
  pub body : String

pub record Process (S : Type 0) : Type 0 where
  pub backends : S
  pub payments : Payments
  pub sent : List Message

abbrev pub payload_json : Payload → Fields
payload_json p =
    field "payment_id" p.payment_id
      (field "amount" p.amount (field "currency" p.currency (field "account_id" p.account_id end)))

-- The guard of the handler: a field that it needs is missing.
abbrev pub lacks_field : Fields → Bool
lacks_field body =
    not (js_truthy (get_or "amount" body null))
    || not (js_truthy (get_or "currency" body null))
    || not (js_truthy (get_or "account_id" body null))

abbrev pub payload_of : String → Fields → Payload
payload_of fresh body =
    let incoming = get_or "payment_id" body null in
    record {
      payment_id = if js_truthy incoming then incoming else str fresh;
      amount = get_or "amount" body null;
      currency = get_or "currency" body null;
      account_id = get_or "account_id" body null;
    }

abbrev pub payment_of : String → Payload → Fields
payment_of now p = field "payment_id" p.payment_id (
    field "amount" p.amount (
      field "currency" p.currency (
        field "account_id" p.account_id
          (field "status" (str "pending") (field "created_at" (str now) end)))))

module _ (B : Backends) where
  abbrev W : Type 0
  W = Process B.State

  -- `ledger.commit`: whether it resolves.
  unfoldable pub commit : Payload → B.State → Bool × B.State
  commit p s =
      let (is_read, s1) = B.query (recent_activity p.account_id) s in
      let (is_inserted, s2) =
        B.query (insert_transaction p.payment_id p.amount p.currency p.account_id) s1 in
      if not is_read
      then (false, s1)
      else if not is_inserted
      then (false, s2)
      else B.query (settle p.payment_id) s2

  abbrev pub message_of : String → Payload → Message
  message_of destination p =
      let body = B.stringify (obj (payload_json p)) in
      record {
        headers =
            ("destination", "/queue/" <> destination)
            ∷ ("content-type", "application/json")
            ∷ ("content-length", B.byte_length body)
            ∷ (
              "jms-correlation-id",
              if js_truthy p.payment_id then B.header_text p.payment_id else "",
            )
            ∷ [];
        body = body;
      }

  -- `producer.send`: whether it resolves.
  unfoldable pub send : String → Payload → W → Bool × W
  send destination p w =
      let (is_connected, s) = B.connect w.backends in
      (
        is_connected,
        if is_connected
            then record w { backends = s; sent = w.sent ++ message_of destination p ∷ [] }
            else record w { backends = s },
      )

  -- The loop of the handler, whose first failure ends it.
  unfoldable pub publish : ℕ → Payload → W → W
  publish zero p w = w
  publish (suc n) p w =
      let (is_sent, w') = send "fraud.score.queue" p w in
      let rest = publish n p w' in if is_sent then rest else w'

  -- `POST /v1/payments`, where `duplicate_factor` is the number of rounds of its loop.
  unfoldable pub post_payment : ℕ → String → String → Fields → W → Response × W
  post_payment duplicate_factor fresh now body w =
      if lacks_field body
      then (reply 400 none, w)
      else (let p = payload_of fresh body in
          let payment = payment_of now p in
          let stored = put p.payment_id payment w.payments in
          let (_, s) = commit p w.backends in
          (
            reply 201 (some (obj payment)),
            publish duplicate_factor p (record w { backends = s; payments = stored }),
          ))

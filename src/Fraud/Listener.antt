-- ===== src/Fraud/Listener.antt =====
-- fraud-detection/listener.py, `FraudScoreListener`: one message of the scoring queue, from the
-- frame to its acknowledgement.
pub mod Laws
use datadog_sample_finance.Shared.{
  String, Option, none, some, Bool, true, false, if◌then◌else◌, List, [], ◌∷◌, ◌++◌,
}
use datadog_sample_finance.Shared.Float.{Float, whole}
use datadog_sample_finance.Shared.Json.{Json, num, str, field, end, Fields, get_or, fields_of}
use datadog_sample_finance.Shared.Dict.{Dict, lookup}
use datadog_sample_finance.Python.{
  Io, Result, ok, raised, raise, Exception, attribute_error, json_decode_error, type_error, pure,
  lift, or_raise, modify, to_float, ◌>>=◌, ◌>>◌,
}
use datadog_sample_finance.Fraud.Scorer.{Score, Bucket, score_transaction}

-- A STOMP frame: its headers, and its body's text.
pub record Frame : Type 0 where
  pub headers : Dict String
  pub body : String

-- The log records of the listener with their `extra` fields. The queue's name, which is constant,
-- is left out.
pub data Record : Type 0 where
  stomp_error : String → Record
  parse_failed : String → Record
  score_computed : Json → Json → Json → Float → Bucket → String → Record

-- What the listener does not implement: `json.loads` of a text, `float` of a text, and the connection's `ack` with its message id and subscription.
pub record Broker : Type 1 where
  pub State : Type 0
  pub loads : String → Result Json
  pub parse_float : String → Option Float
  pub ack : String → String → State → Result (Unit {0}) × State

-- The connection and the log.
pub record Desk (S : Type 0) : Type 0 where
  pub conn : S
  pub log : List Record

-- `except (json.JSONDecodeError, TypeError)`
abbrev pub is_parse_error : Exception → Bool
is_parse_error json_decode_error = true
is_parse_error type_error = true
is_parse_error e = false

-- `headers.get(key, default)`
abbrev pub header_or : String → Dict String → String → String
header_or key headers default = elim (lookup key headers) [ none ↦ default | some v ↦ v ]

abbrev pub message_id : Frame → String
message_id frame = header_or "message-id" frame.headers "unknown"

abbrev pub subscription_id : Frame → String
subscription_id frame = header_or "subscription" frame.headers "unknown"

abbrev pub correlation_id : Frame → String
correlation_id frame = header_or "correlation-id" frame.headers ""

module _ (B : Broker) where
  abbrev W : Type 0
  W = Desk B.State

  abbrev pub record_log : Record → Io W (Unit {0})
  record_log r = modify (λ w. record w { log = w.log ++ r ∷ [] })

  -- `self.conn.ack(message_id, subscription_id)`
  unfoldable pub acknowledge : Frame → Io W (Unit {0})
  acknowledge frame w =
      let (r, c) = B.ack (message_id frame) (subscription_id frame) w.conn in
      (r, record w { conn = c })

  unfoldable pub on_error : Frame → Io W (Unit {0})
  on_error frame = record_log (stomp_error frame.body)

  -- The message after its body has been parsed: score it and log the result.
  unfoldable pub score_message : Frame → Json → Io W (Unit {0})
  score_message frame body = do
    d ← or_raise (fields_of body) attribute_error
    let transaction_id = get_or "transaction_id" d (str "unknown")
    let transaction_type = get_or "transaction_type" d (str "unknown")
    amount ← lift (to_float B.parse_float (get_or "amount" d (num (whole 0))))
    let currency = get_or "currency" d (str "UNKNOWN")
    result ← lift (
        score_transaction B.parse_float
          (field "transaction_id" transaction_id (field "amount" (num amount) end)))
    record_log (
        score_computed transaction_id transaction_type currency result.score result.bucket
          (correlation_id frame))

  unfoldable pub on_message : Frame → Io W (Unit {0})
  on_message frame = elim (B.loads frame.body) [
    | ok body ↦ do score_message frame body; acknowledge frame
    | raised e ↦
        if is_parse_error e
        then (do record_log (parse_failed (message_id frame)); acknowledge frame)
        else raise e
  ]

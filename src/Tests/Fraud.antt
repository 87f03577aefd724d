-- ===== src/Tests/Fraud.antt =====
-- The scorer, the listener and the consumer at concrete data.
use datadog_sample_finance.Shared.{
  subst, ℕ, ◌+◌, ◌≡◌, ◌≢◌, refl, ◌⊎◌, inr, String, Option, none, true, false, [], ◌∷◌, arith,
  String-discrete,
}
use datadog_sample_finance.Shared.Float.{Float, whole, less, abs}
use datadog_sample_finance.Shared.Json.{
  Json, null, num, str, obj, arr, nil, field, end, Fields, get_or,
}
use datadog_sample_finance.Python.{
  ok, raised, Exception, type_error, connect_failed, keyboard_interrupt, to_float,
}
use datadog_sample_finance.Fraud.Scorer.{bucket_of, bucket_score, low, medium, score_transaction}
use datadog_sample_finance.Fraud.Scorer.Bands.{Band, score-Band}
use datadog_sample_finance.Fraud.Listener.{Frame, Broker, Desk, on_message}
use datadog_sample_finance.Fraud.Listener.Laws.{
  IsShapeError, Ends, Refused, deliveries, on_message_poison, on_message_total,
}
use datadog_sample_finance.Fraud.Consumer.{
  Stomp, Process, connecting, watching, stopped, Notice, shutting_down, step, main, body, establish,
  watch, shut_down, handle,
}
use datadog_sample_finance.Fraud.Consumer.Laws.{
  GoesOn, main_survives, step_stops, step_interrupted_pause,
}

abbrev read_none : String → Option Float
read_none s = none

abbrev transaction : Float → Fields
transaction x = field "transaction_id" (str "txn-1") (field "amount" (num x) end)

amount_read :
    (x : Float) → to_float read_none (get_or "amount" (transaction x) (num (whole 0))) ≡ ok x
unfolding to_float get_or String-discrete
amount_read x = refl

scored_low :
    score_transaction read_none (transaction (whole 500))
    ≡ ok (record { score = bucket_score low; bucket = low })
unfolding score_transaction to_float get_or String-discrete bucket_of abs less
scored_low = refl

scored_medium :
    score_transaction read_none (transaction (whole 2500))
    ≡ ok (record { score = bucket_score medium; bucket = medium })
unfolding score_transaction to_float get_or String-discrete bucket_of abs less
scored_medium = refl

score-Band_example :
    (x : Float) × (to_float read_none (get_or "amount" (transaction (whole 2500)) (num (whole 0)))
      ≡ ok x)
    × Band medium x
    × (bucket_score medium ≡ bucket_score medium)
    × (less (bucket_score medium) (whole 0) ≡ false)
    × (less (whole 1) (bucket_score medium) ≡ false)
score-Band_example =
    score-Band read_none (transaction (whole 2500))
      (record { score = bucket_score medium; bucket = medium }) scored_medium

-- A broker that counts acknowledgements, and whose messages all hold one document.
abbrev broker_of : Json → Broker
broker_of v = record {
  State = ℕ;
  loads = λ s. ok v;
  parse_float = read_none;
  ack = λ id subscription n. (ok tt, n + 1);
}

abbrev frame : Frame
frame = record { headers = ("message-id", "m-1") ∷ ("subscription", "1") ∷ []; body = "…" }

abbrev desk : Desk ℕ
desk = record { conn = 0; log = [] }

abbrev nameless : Json
nameless = obj (field "transaction_id" (str "txn-2") (field "amount" null end))

nameless_refused :
    to_float read_none (
      get_or "amount"
        (field "transaction_id" (str "txn-2") (field "amount" null end))
        (num (whole 0)))
    ≡ raised type_error
unfolding to_float get_or String-discrete
nameless_refused = refl

on_message_poison_example :
    let B = broker_of nameless in
    (deliveries B 7 frame desk ≡ desk)
    × ((e : Exception) × IsShapeError e
        × ((on_message B frame (deliveries B 7 frame desk)).0 ≡ raised e))
on_message_poison_example = on_message_poison (broker_of nameless) frame nameless desk 7 refl (
    inr (
      field "transaction_id" (str "txn-2") (field "amount" null end),
      type_error,
      refl,
      nameless_refused,
    ))

on_message_total_example :
    let B = broker_of (arr nil) in
    ((e : Exception) × (B.loads "…" ≡ raised e) × Refused B frame desk e)
    ⊎ ((v : Json) × (B.loads "…" ≡ ok v) × Ends B frame desk v)
on_message_total_example = on_message_total (broker_of (arr nil)) frame desk

-- A broker that is never there.
abbrev absent : Stomp
absent = record {
  State = ℕ;
  create = λ n. (ok tt, n + 1);
  connect = λ n. (raised connect_failed, n);
  subscribe = λ n. (ok tt, n);
  is_connected = λ n. (ok false, n);
  disconnect = λ n. (ok tt, n);
  sleep = λ seconds n. (ok tt, n);
}

-- A connection that is up, on which every pause is interrupted.
abbrev interrupted : Stomp
interrupted = record absent {
  is_connected = λ n. (ok true, n);
  disconnect = λ n. (ok tt, n + 100);
  sleep = λ seconds n. (raised keyboard_interrupt, n);
}

abbrev process : Process ℕ
process = record { stomp = 0; has_conn = true; log = [] }

main_survives_example : GoesOn absent (main absent 1000 process).0
main_survives_example =
    main_survives absent (λ s. ground arith) (λ s. ground arith) (λ s. ground arith)
      (λ s. ground arith) (λ n s e. ground arith) 1000 process

interrupted_watch : body interrupted watching process ≡ (raised keyboard_interrupt, process)
unfolding watch
interrupted_watch = refl

interrupted-step : (step interrupted watching process).0 ≡ ok stopped
unfolding step watch handle shut_down
interrupted-step = refl

over : GoesOn interrupted (step interrupted watching process).0 → ⊥
over g = subst (GoesOn interrupted) interrupted-step g

step_stops_example :
    (e : Exception) × ((body interrupted watching process).0 ≡ raised e)
    × ((e ≡ keyboard_interrupt)
        ⊎ ((e' : Exception) × ((interrupted.sleep 5 (body interrupted watching process).1.stomp).0
              ≡ raised e')))
step_stops_example = step_stops interrupted watching process tt over

failed_connect :
    body interrupted connecting process ≡ (raised connect_failed, record process { stomp = 1 })
unfolding establish
failed_connect = refl

no_interrupt : connect_failed ≢ keyboard_interrupt
no_interrupt = ground arith

step_interrupted_pause_example :
    (n : Notice) × (n ≢ shutting_down)
    × (step interrupted connecting process
        ≡ (raised keyboard_interrupt, record process { stomp = 1; log = n ∷ [] }))
step_interrupted_pause_example =
    step_interrupted_pause interrupted connecting process (record process { stomp = 1 })
      connect_failed 1 failed_connect no_interrupt refl

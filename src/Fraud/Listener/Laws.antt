-- ===== src/Fraud/Listener/Laws.antt =====
-- fraud-detection/listener.py: which messages are acknowledged, and which ones are not.
use datadog_sample_finance.Shared.{
  ℕ, zero, suc, ◌≡◌, refl, ◌⊎◌, inl, inr, none, [], ◌∷◌, ◌++◌, arith, Bool-cases, true, false,
}
use text.Mathlib.TextEquality.{eq_iff}
use datadog_sample_finance.Shared.Float.{Float, whole, abs}
use datadog_sample_finance.Shared.Json.{
  Json, null, bool, arr, num, big, str, obj, field, end, Fields, get_or, fields_of,
  get_or-field_self, get_or-field_ne,
}
use datadog_sample_finance.Python.{
  Result-cases, Result, ok, raised, Exception, attribute_error, type_error, value_error,
  overflow_error, to_float,
}
use datadog_sample_finance.Fraud.Scorer.{score_of, bucket_of, bucket_score, score_transaction}
use datadog_sample_finance.Fraud.Scorer.Bands.{Band, bucket_of-Band, score_transaction_ok}
use datadog_sample_finance.Fraud.Listener.{
  Frame, Record, parse_failed, score_computed, Broker, Desk, acknowledge, score_message, on_message,
  correlation_id, message_id, is_parse_error,
}

-- What `float` and `.get` raise for a message of the wrong shape.
abbrev pub IsShapeError : Exception → Type 0
IsShapeError e = (e ≡ attribute_error) ⊎ (e ≡ type_error) ⊎ (e ≡ value_error) ⊎ (e ≡ overflow_error)

module _ (B : Broker) where
  -- The desk with one more log record.
  abbrev pub noted : Record → Desk B.State → Desk B.State
  noted r w = record w { log = w.log ++ r ∷ [] }

  -- The log record of a scored message, whose amount falls in the record's bucket.
  abbrev pub IsScoreOf : Json → Record → Type 0
  IsScoreOf (obj d) (score_computed transaction_id transaction_type currency score bucket corr) =
      (transaction_id ≡ get_or "transaction_id" d (str "unknown"))
      × (score ≡ bucket_score bucket)
      × ((x : Float) × (to_float B.parse_float (get_or "amount" d (num (whole 0))) ≡ ok x)
          × Band bucket x)
  IsScoreOf body r = ⊥

  abbrev amount_of : Fields → Result Float
  amount_of d = to_float B.parse_float (get_or "amount" d (num (whole 0)))

  -- The dict that the listener hands to the scorer.
  abbrev scored_dict : Fields → Float → Fields
  scored_dict d x =
      field "transaction_id" (get_or "transaction_id" d (str "unknown"))
        (field "amount" (num x) end)

  scored_amount :
      (d : Fields) (x : Float) → get_or "amount" (scored_dict d x) (num (whole 0)) ≡ num x
  scored_amount d x = ground (
    arith,
    get_or-field_ne "amount" "transaction_id" (get_or "transaction_id" d (str "unknown"))
        (num (whole 0)) (field "amount" (num x) end)
        (ground (arith, eq_iff "amount" "transaction_id")),
    get_or-field_self "amount" (num x) (num (whole 0)) end,
  )

  scored :
      (d : Fields) (x : Float)
      → score_transaction B.parse_float (scored_dict d x) ≡ ok (score_of (bucket_of (abs x)))
  unfolding to_float
  scored d x =
      score_transaction_ok B.parse_float (scored_dict d x) x (ground (arith, scored_amount d x))

  to_float-raised :
      (v : Json) (e : Exception) → to_float B.parse_float v ≡ raised e → IsShapeError e
  unfolding to_float
  to_float-raised v e h = ground arith

  -- The log record of a message, by its amount.
  abbrev record_of : Frame → Fields → Float → Record
  record_of frame d x =
      score_computed (get_or "transaction_id" d (str "unknown"))
        (get_or "transaction_type" d (str "unknown")) (get_or "currency" d (str "UNKNOWN"))
        (bucket_score (bucket_of (abs x))) (bucket_of (abs x)) (correlation_id frame)

  score_message_ok :
      (frame : Frame) (d : Fields) (x : Float) (w : Desk B.State)
      → amount_of d ≡ ok x
      → score_message B frame (obj d) w ≡ (ok tt, noted (record_of frame d x) w)
  unfolding score_message
  score_message_ok frame d x w e = ground (arith, e, scored d x)

  -- A message with an amount that `float` reads is logged by `record_of` and acknowledged.
  pub on_message_recorded :
      (frame : Frame) (d : Fields) (x : Float) (w : Desk B.State)
      → B.loads frame.body ≡ ok (obj d)
      → amount_of d ≡ ok x
      → on_message B frame w ≡ acknowledge B frame (noted (record_of frame d x) w)
  unfolding on_message
  on_message_recorded frame d x w loaded e = ground (arith, loaded, score_message_ok frame d x w e)

  -- A message that parses to a dict whose amount `float` reads (or that has none) is scored: one
  -- record is logged, with the message's transaction id and the bucket and score of its amount,
  -- and then the frame is acknowledged, which is all that happens.
  pub on_message_scores :
      (frame : Frame) (d : Fields) (x : Float) (w : Desk B.State)
      → B.loads frame.body ≡ ok (obj d)
      → to_float B.parse_float (get_or "amount" d (num (whole 0))) ≡ ok x
      → (r : Record) × IsScoreOf (obj d) r
        × (on_message B frame w ≡ acknowledge B frame (noted r w))
  on_message_scores frame d x w loaded e = (
    record_of frame d x,
    (refl, refl, (x, e, bucket_of-Band x)),
    on_message_recorded frame d x w loaded e,
  )

  -- A message that parses, but to no dict, or to a dict whose amount `float` refuses.
  abbrev pub IsPoison : Json → Type 0
  IsPoison body =
      (fields_of body ≡ none)
      ⊎ ((d : Fields) × (e : Exception) × (body ≡ obj d)
          × (to_float B.parse_float (get_or "amount" d (num (whole 0))) ≡ raised e))

  score_message_raised :
      (frame : Frame) (body : Json) (w : Desk B.State)
      → IsPoison body
      → (e : Exception) × IsShapeError e × (score_message B frame body w ≡ (raised e, w))
  unfolding score_message
  score_message_raised frame body w (inl no_dict) =
      (attribute_error, inl refl, ground (arith, no_dict))
  score_message_raised frame body w (inr (d, e, is_dict, refused)) = (
    e,
    to_float-raised (get_or "amount" d (num (whole 0))) e refused,
    ground (arith, is_dict, refused),
  )

  -- The desk after the broker has delivered the frame `n` times.
  abbrev pub deliveries : ℕ → Frame → Desk B.State → Desk B.State
  deliveries zero frame w = w
  deliveries (suc n) frame w = deliveries n frame (on_message B frame w).1

  poison_raised :
      (frame : Frame) (body : Json) (w : Desk B.State)
      → B.loads frame.body ≡ ok body
      → IsPoison body
      → (e : Exception) × IsShapeError e × (on_message B frame w ≡ (raised e, w))
  unfolding on_message
  poison_raised frame body w loaded poison =
      let (e, shape, same) = score_message_raised frame body w poison in
      (e, shape, ground (arith, loaded, same))

  -- A message that parses to no dict, or to a dict whose amount `float` refuses, makes the listener
  -- raise an AttributeError, a TypeError, a ValueError or an OverflowError on each delivery, and is never
  -- acknowledged: after any number of deliveries the connection and the log are as before.
  pub on_message_poison :
      (frame : Frame) (body : Json) (w : Desk B.State) (n : ℕ)
      → B.loads frame.body ≡ ok body
      → IsPoison body
      → (deliveries n frame w ≡ w)
        × ((e : Exception) × IsShapeError e
            × ((on_message B frame (deliveries n frame w)).0 ≡ raised e))
  on_message_poison frame body w zero loaded poison =
      let (e, shape, same) = poison_raised frame body w loaded poison in
      (refl, (e, shape, rw same refl))
  on_message_poison frame body w (suc n) loaded poison =
      let (e, shape, same) = poison_raised frame body w loaded poison in
      rw same (on_message_poison frame body w n loaded poison)

  -- How the delivery of a message that parses to `body` ends.
  abbrev pub Ends : Frame → Desk B.State → Json → Type 0
  Ends frame w body =
      ((r : Record) × IsScoreOf body r × (on_message B frame w ≡ acknowledge B frame (noted r w)))
      ⊎ ((e : Exception) × IsShapeError e × (on_message B frame w ≡ (raised e, w)))

  -- How the delivery of a text that `json.loads` refuses ends.
  abbrev pub Refused : Frame → Desk B.State → Exception → Type 0
  Refused frame w e =
      ((is_parse_error e ≡ true)
        × (on_message B frame w ≡ acknowledge B frame (noted (parse_failed (message_id frame)) w)))
      ⊎ ((is_parse_error e ≡ false) × (on_message B frame w ≡ (raised e, w)))

  parsed-Ends :
      (frame : Frame) (w : Desk B.State) (body : Json)
      → B.loads frame.body ≡ ok body
      → Ends frame w body
  parsed-Ends frame w (obj d) e = elim (Result-cases (amount_of d)) [
    | inl (x, scores) ↦ inl (on_message_scores frame d x w e scores)
    | inr (err, refused) ↦ inr (poison_raised frame (obj d) w e (inr (d, err, refl, refused)))
  ]
  parsed-Ends frame w null e = inr (poison_raised frame null w e (inl refl))
  parsed-Ends frame w (bool b) e = inr (poison_raised frame (bool b) w e (inl refl))
  parsed-Ends frame w (big n) e = inr (poison_raised frame (big n) w e (inl refl))
  parsed-Ends frame w (num x) e = inr (poison_raised frame (num x) w e (inl refl))
  parsed-Ends frame w (str s) e = inr (poison_raised frame (str s) w e (inl refl))
  parsed-Ends frame w (arr vs) e = inr (poison_raised frame (arr vs) w e (inl refl))

  -- Every delivery ends in one of four ways. A text that `json.loads` refuses with a JSONDecodeError
  -- or a TypeError is logged with its message id and acknowledged; any other exception of
  -- `json.loads` leaves the handler; a message that parses to a dict whose amount `float` reads (or
  -- that has none) is logged with its score and acknowledged; and for any other message that
  -- parses the handler raises an AttributeError, a TypeError, a ValueError or an OverflowError. An
  -- exception leaves neither a log record nor an acknowledgement.
  pub on_message_total :
      (frame : Frame) (w : Desk B.State)
      → ((e : Exception) × (B.loads frame.body ≡ raised e) × Refused frame w e)
        ⊎ ((body : Json) × (B.loads frame.body ≡ ok body) × Ends frame w body)
  unfolding on_message
  on_message_total frame w = elim (Result-cases (B.loads frame.body)) [
    | inl (body, e) ↦ inr (body, e, parsed-Ends frame w body e)
    | inr (err, e) ↦ inl (
      err,
      e,
      elim (Bool-cases (is_parse_error err)) [
        | inl b ↦ inl (b, ground (arith, e, b))
        | inr b ↦ inr (b, ground (arith, e, b))
      ],
    )
  ]

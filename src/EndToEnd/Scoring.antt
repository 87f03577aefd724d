-- ===== src/EndToEnd/Scoring.antt =====
-- A payment's way from transaction-service over the scoring queue to fraud-detection's listener.
use datadog_sample_finance.Shared.{
  if◌then◌else◌, Bool, ℕ, zero, suc, ◌≡◌, refl, ap, sym, ◌∙◌, inl, inr, ◌⊎◌, subst, String, Option,
  some, none, String-discrete, List, [], ◌∷◌, ◌++◌, arith,
}
use datadog_sample_finance.Shared.Float.{Float, whole, abs, less}
use datadog_sample_finance.Shared.Json.{Json, get, null, num, str, obj, Fields, get_or}
use datadog_sample_finance.Shared.Dict.{insert, lookup}
use datadog_sample_finance.Python.{ok, to_float}
use datadog_sample_finance.Fraud.Scorer.{Bucket, low, bucket_of, bucket_score}
use datadog_sample_finance.Fraud.Scorer.Bands.{Band, bucket_of-Band}
use datadog_sample_finance.Fraud.Listener.{
  Frame, Broker, Desk, score_computed, acknowledge, on_message, correlation_id,
}
use datadog_sample_finance.Fraud.Listener.Laws.{noted, on_message_recorded}
use datadog_sample_finance.Services.Accounts.{
  AccountRequest, AccountCreated, AccountService, new_account, event_of, event_json, create_account,
}
use datadog_sample_finance.Services.Posting.{
  Backends, Message, Process, Payload, payload_of, payload_json, message_of, post_payment,
}
use datadog_sample_finance.Services.Posting.Laws.{copies, append_nil, post_payment_lem}

cancel : (a x y : List Message) → a ++ x ≡ a ++ y → x ≡ y
cancel [] x y h = h
cancel (m ∷ a) x y h = cancel a x y (ground (arith, h))

-- One of the messages.
abbrev pub IsIn : Message → List Message → Type 0
IsIn m [] = ⊥
IsIn m (x ∷ l) = (m ≡ x) ⊎ IsIn m l

transaction_id_unknown :
    (p : Payload) → get_or "transaction_id" (payload_json p) (str "unknown") ≡ str "unknown"
unfolding get_or String-discrete
transaction_id_unknown p = refl

transaction_type_unknown :
    (p : Payload) → get_or "transaction_type" (payload_json p) (str "unknown") ≡ str "unknown"
unfolding get_or String-discrete
transaction_type_unknown p = refl

payload_amount : (p : Payload) → get_or "amount" (payload_json p) (num (whole 0)) ≡ p.amount
unfolding get_or String-discrete
payload_amount p = refl

payload_currency : (p : Payload) → get_or "currency" (payload_json p) (str "UNKNOWN") ≡ p.currency
unfolding get_or String-discrete
payload_currency p = refl

IsIn-copies : (k : ℕ) (m c : Message) → IsIn m (copies k c) → m ≡ c
IsIn-copies zero m c x = elim x [ ]
IsIn-copies (suc k) m c (inl e) = e
IsIn-copies (suc k) m c (inr h) = IsIn-copies k m c h

event_amount : (e : AccountCreated) → get_or "amount" (event_json e) (num (whole 0)) ≡ num (whole 0)
unfolding get_or String-discrete
event_amount e = refl

event_transaction_id :
    (e : AccountCreated) → get_or "transaction_id" (event_json e) (str "unknown") ≡ str "unknown"
unfolding get_or String-discrete
event_transaction_id e = refl

event_transaction_type :
    (e : AccountCreated) → get_or "transaction_type" (event_json e) (str "unknown") ≡ str "unknown"
unfolding get_or String-discrete
event_transaction_type e = refl

event_currency :
    (e : AccountCreated) → get_or "currency" (event_json e) (str "UNKNOWN") ≡ str e.currency
unfolding get_or String-discrete
event_currency e = refl

read_num : (parse_float : String → Option Float) (x : Float) → to_float parse_float (num x) ≡ ok x
unfolding to_float
read_num parse_float x = refl

append_none : (l : List AccountCreated) → l ++ [] ≡ l
append_none [] = refl
append_none (x ∷ l) = ap (λ t. x ∷ t) (append_none l)

zero_low : bucket_of (abs (whole 0)) ≡ low
unfolding bucket_of abs less
zero_low = refl

no_correlation_id :
    (T : Backends) (p : Payload)
    → lookup "correlation-id" (message_of T "fraud.score.queue" p).headers ≡ none
unfolding lookup String-discrete
no_correlation_id T p = refl

module _ (T : Backends) (B : Broker) where
  -- The messages of a new payment are all the same.
  sent_message :
      (duplicate_factor : ℕ) (fresh now : String) (body : Fields) (w : Process T.State)
      (added : List Message) (m : Message)
      → (post_payment T duplicate_factor fresh now body w).1.sent ≡ w.sent ++ added
      → IsIn m added
      → m ≡ message_of T "fraud.score.queue" (payload_of fresh body)
  sent_message n fresh now body w added m e h =
      let (_, _, o) = post_payment_lem T n fresh now body w in
      let c : Message = message_of T "fraud.score.queue" (payload_of fresh body) in
      elim o [
        | inl (_, same) ↦
            let q : added ≡ [] =
              cancel w.sent added [] (sym e ∙ ap (λ v. v.sent) same ∙ sym (append_nil w.sent)) in
            subst (λ l. IsIn m l → m ≡ c) (sym q) (λ x. elim x [ ]) h
        | inr (_, (k, _, all)) ↦
            IsIn-copies k m c (subst (IsIn m) (cancel w.sent added (copies k c) (sym e ∙ all)) h)
      ]

  -- Each message that a new payment sends, delivered with its text and its correlation header, is
  -- scored by the payment's amount and acknowledged. The record names the currency, but neither the
  -- payment nor a correlation id: transaction-service writes `payment_id` and `jms-correlation-id`,
  -- where the listener reads `transaction_id` and `correlation-id`. The condition is that the
  -- amount is one that `float` reads and that `json.loads` undoes `JSON.stringify`.
  pub payment_scored :
      (duplicate_factor : ℕ) (fresh now : String) (body : Fields) (w : Process T.State)
      (added : List Message) (m : Message) (frame : Frame) (x : Float) (desk : Desk B.State)
      → (post_payment T duplicate_factor fresh now body w).1.sent ≡ w.sent ++ added
      → IsIn m added
      → frame.body ≡ m.body
      → lookup "correlation-id" frame.headers ≡ lookup "correlation-id" m.headers
      → B.loads (T.stringify (obj (payload_json (payload_of fresh body))))
        ≡ ok (obj (payload_json (payload_of fresh body)))
      → to_float B.parse_float (get_or "amount" body null) ≡ ok x
      → (bucket : Bucket) × Band bucket x
        × (on_message B frame desk
            ≡ acknowledge B frame (
                noted B
                  (score_computed
                    (str "unknown")
                    (str "unknown")
                    (get_or "currency" body null)
                    (bucket_score bucket)
                    bucket
                    "")
                  desk))
  payment_scored n fresh now body w added m frame x desk e h same_body same_id loads amount =
      let p : Payload = payload_of fresh body in
      let c : m ≡ message_of T "fraud.score.queue" p =
        sent_message n fresh now body w added m e h in
      let unnamed : lookup "correlation-id" frame.headers ≡ none =
        same_id ∙ ap (λ v. lookup "correlation-id" v.headers) c ∙ no_correlation_id T p in
      let recorded =
        on_message_recorded B frame (payload_json p) x desk
          (ap B.loads (same_body ∙ ap (λ v. v.body) c) ∙ loads)
          (ap (to_float B.parse_float) (payload_amount p) ∙ amount) in
      (
        bucket_of (abs x),
        bucket_of-Band x,
        recorded
            ∙ ground (
              arith,
              transaction_id_unknown p,
              transaction_type_unknown p,
              payload_currency p,
              unnamed,
            ),
      )

-- The event of a created account goes out once, or not at all where the broker does not take it;
-- the account is created all the same. When the listener reads the event from a message, with its
-- keys in any order, it takes it for a transaction of no amount: the record says unknown for the
-- transaction and its type, and the bucket is low, whatever the account; then the message is
-- acknowledged.
pub account_created_scored :
    (B : Broker) (is_sent : Bool) (fresh now : String) (request : AccountRequest)
    (s : AccountService) (d : Fields) (frame : Frame) (desk : Desk B.State)
    → B.loads frame.body ≡ ok (obj d)
    → ((k : String) → get k d ≡ get k (event_json (event_of (new_account fresh now request))))
    → let (r, s') = create_account is_sent fresh now request s in
      (r.status_code ≡ 201)
      × (s'.store ≡ insert fresh (new_account fresh now request) s.store)
      × (s'.events
          ≡ s.events ++ (if is_sent then event_of (new_account fresh now request) ∷ [] else []))
      × (on_message B frame desk
          ≡ acknowledge B frame (
              noted B
                (score_computed
                  (str "unknown")
                  (str "unknown")
                  (str (new_account fresh now request).currency)
                  (bucket_score low)
                  low
                  (correlation_id frame))
                desk))
unfolding create_account new_account get_or
account_created_scored B is_sent fresh now request s d frame desk loads same =
    let e : AccountCreated = event_of (new_account fresh now request) in
    let read : (k : String) (v : Json) → get_or k d v ≡ get_or k (event_json e) v =
      λ k v. ap (λ o. elim o [ none ↦ v | some x ↦ x ]) (same k) in
    let amount : to_float B.parse_float (get_or "amount" d (num (whole 0))) ≡ ok (whole 0) =
      ap (to_float B.parse_float) (read "amount" (num (whole 0)) ∙ event_amount e)
      ∙ read_num B.parse_float (whole 0) in
    (
      refl,
      ground arith,
      ground (arith, append_none s.events),
      on_message_recorded B frame d (whole 0) desk loads amount
          ∙ ground (
            arith,
            read "transaction_id" (str "unknown"),
            read "transaction_type" (str "unknown"),
            read "currency" (str "UNKNOWN"),
            event_transaction_id e,
            event_transaction_type e,
            event_currency e,
            zero_low,
          ),
    )

-- ===== src/Tests/Posting.antt =====
-- A payment that transaction-service publishes twice, over a ledger that fails, and the accounts of
-- account-service.
use datadog_sample_finance.Shared.{
  ◌==◌, if◌then◌else◌, Option, ◌≡◌, String, arith, ◌≢◌, refl, ◌⊎◌, inl, inr, ℕ, none, some, List,
  true, false, [], ◌∷◌, ◌++◌, String-discrete,
}
use datadog_sample_finance.Shared.Float.{whole}
use datadog_sample_finance.Shared.Int.{pos, ℤ, ◌+ℤ◌}
use text.Mathlib.TextEquality.{eq_iff}
use datadog_sample_finance.Shared.Json.{null, num, str, obj, Fields, field, end, get_or}
use datadog_sample_finance.Shared.Dict.{lookup, insert}
use datadog_sample_finance.Python.{ok, to_float}
use datadog_sample_finance.Fraud.Scorer.{Bucket, low, bucket_score}
use datadog_sample_finance.Fraud.Scorer.Bands.{Band}
use datadog_sample_finance.Fraud.Listener.{
  Broker, Desk, Frame, score_computed, acknowledge, on_message, correlation_id,
}
use datadog_sample_finance.Fraud.Listener.Laws.{noted}
use datadog_sample_finance.Services.Accounts.{
  AccountRequest, AccountService, new_account, event_of, event_json, create_account,
}
use datadog_sample_finance.Services.Accounts.Ledger.{
  Change, creates, patches, alerts, serve_all, additions, IsApart, serve_all-additions,
}
use datadog_sample_finance.Tests.Sample.{alice}
use datadog_sample_finance.Services.Payments.{create_payment, js_truthy}
use datadog_sample_finance.Services.Posting.{
  Backends, Message, Process, payload_of, payload_json, message_of, commit, send, publish,
  post_payment, lacks_field,
}
use datadog_sample_finance.Services.Posting.Laws.{
  Published, copies, post_payment_lem, post_payment_published,
}
use datadog_sample_finance.EndToEnd.Scoring.{payment_scored, account_created_scored}

abbrev body : Fields
body =
    field "amount" (num (whole 2500))
      (field "currency" (str "EUR") (field "account_id" (str "acc-1") end))

-- A ledger that is down, and a broker that counts connections.
abbrev backends : Backends
backends = record {
  State = ℕ;
  query = λ q n. (false, n);
  connect = λ n. (true, n);
  stringify = λ v. "{…}";
  byte_length = λ s. "5";
  header_text = λ v. "pay-1";
}

abbrev idle : Process ℕ
idle = record { backends = 0; payments = []; sent = [] }

abbrev message : Message
message = message_of backends "fraud.score.queue" (payload_of "pay-1" body)

sent_twice :
    (post_payment backends 2 "pay-1" "now" body idle).1.sent ≡ idle.sent ++ message ∷ message ∷ []
unfolding post_payment publish send commit get_or js_truthy String-discrete insert
sent_twice = refl

post_payment_lem_example :
    let r = post_payment backends 2 "pay-1" "now" body idle in
    (r.0 ≡ (create_payment "pay-1" "now" body []).0)
    × (r.1.payments ≡ (create_payment "pay-1" "now" body []).1)
    × (((r.0.status_code ≡ 400) × (r.1 ≡ idle))
        ⊎ ((r.0.status_code ≡ 201) × Published backends 2 (payload_of "pay-1" body) [] r.1.sent))
post_payment_lem_example = post_payment_lem backends 2 "pay-1" "now" body idle

abbrev broker : Broker
broker = record {
  State = ℕ;
  loads = λ s. ok (obj (payload_json (payload_of "pay-1" body)));
  parse_float = λ s. none;
  ack = λ id subscription n. (ok tt, n);
}

abbrev delivered : Frame
delivered = record {
  headers = ("message-id", "m-1") ∷ ("subscription", "1") ∷ message.headers;
  body = message.body;
}

abbrev desk : Desk ℕ
desk = record { conn = 0; log = [] }

amount_read : to_float (broker.parse_float) (get_or "amount" body null) ≡ ok (whole 2500)
unfolding to_float get_or String-discrete
amount_read = refl

same_id : lookup "correlation-id" delivered.headers ≡ lookup "correlation-id" message.headers
unfolding lookup String-discrete
same_id = refl

payment_scored_example :
    (bucket : Bucket) × Band bucket (whole 2500)
    × (on_message broker delivered desk
        ≡ acknowledge broker delivered (
            noted broker
              (score_computed
                (str "unknown")
                (str "unknown")
                (get_or "currency" body null)
                (bucket_score bucket)
                bucket
                "")
              desk))
payment_scored_example =
    payment_scored backends broker 2 "pay-1" "now" body idle (message ∷ message ∷ []) message
      delivered (whole 2500) desk sent_twice (inr (inl refl)) refl same_id refl amount_read

abbrev request : AccountRequest
request = record { owner_id = none; balance = none; currency = some "USD"; tier = none }

abbrev accounts : AccountService
accounts = record { store = ("acc-a", alice) ∷ []; alerts = []; events = [] }

-- It reads one text.
abbrev read_decimal : String → Option ℤ
read_decimal s = if s == "5" then some (pos 5000000) else none

abbrev changes : List Change
changes =
    patches "acc-a" (field "delta" (num (whole 1)) end)
    ∷ creates false "acc-b" "now" request
    ∷ patches "acc-a" (field "delta" (str "much") end)
    ∷ patches "acc-a" (field "delta" (str "5") end)
    ∷ alerts true "acc-a" (("currency", none) ∷ [])
    ∷ []

alice_there : lookup "acc-a" accounts.store ≡ some alice
unfolding lookup String-discrete
alice_there = refl

other_id : ◌≢◌ {A = String} "acc-a" "acc-b"
other_id = ground (arith, eq_iff "acc-a" "acc-b")

apart : IsApart "acc-a" changes
apart = (other_id, tt)

serve_all-additions_example :
    lookup "acc-a" (serve_all read_decimal changes accounts).store
    ≡ some (record alice { balance = alice.balance +ℤ additions read_decimal "acc-a" changes })
serve_all-additions_example =
    serve_all-additions read_decimal changes "acc-a" alice accounts apart alice_there

abbrev created_broker : Broker
created_broker = record broker {
  loads = λ s. ok (obj (event_json (event_of (new_account "acc-b" "now" request))));
}

account_created_scored_example :
    let (r, s') = create_account true "acc-b" "now" request accounts in
    (r.status_code ≡ 201)
    × (s'.store ≡ insert "acc-b" (new_account "acc-b" "now" request) accounts.store)
    × (s'.events
        ≡ accounts.events
          ++ (if true then event_of (new_account "acc-b" "now" request) ∷ [] else []))
    × (on_message created_broker delivered desk
        ≡ acknowledge created_broker delivered (
            noted created_broker
              (score_computed
                (str "unknown")
                (str "unknown")
                (str (new_account "acc-b" "now" request).currency)
                (bucket_score low)
                low
                (correlation_id delivered))
              desk))
account_created_scored_example =
    account_created_scored created_broker true "acc-b" "now" request accounts
      (event_json (event_of (new_account "acc-b" "now" request))) delivered desk refl (λ k. refl)

complete : lacks_field body ≡ false
unfolding get_or js_truthy String-discrete
complete = refl

post_payment_published_example :
    (post_payment backends 2 "pay-1" "now" body idle).1.sent ≡ [] ++ copies 2 message
post_payment_published_example =
    post_payment_published backends 2 "pay-1" "now" body idle (λ s. refl) complete

-- ===== src/Services/Stack.antt =====
-- The whole stack as surroundings of the gateway: both services, Keycloak's keys, a clock, and a
-- network that follows a schedule of faults, one for each request.
use datadog_sample_finance.Shared.{
  Bool, ℕ, String, Option, none, some, List, [], ◌∷◌, ◌==◌, ◌&&◌, if◌then◌else◌,
}
use datadog_sample_finance.Shared.Float.{Float}
use datadog_sample_finance.Shared.Json.{Json, null, str, arr, obj, field, end, Fields}
use datadog_sample_finance.Shared.Int.{ℤ}
use datadog_sample_finance.Shared.Dict.{Dict}
use datadog_sample_finance.Gateway.Http.{
  Method, http_get, http_post, http_patch, Service, account_service, transaction_service, keycloak,
  Request, Response, Reply, answered, unreachable, Env,
}
use datadog_sample_finance.Services.Accounts.{
  Account, AccountService, reply, update_balance, get_balance, payment_alert,
}
use datadog_sample_finance.Services.Payments.{Payments, create_payment, list_all, patch_payment}

-- What the network does with one request: carry it and its answer, lose it on the way, lose the
-- answer after the service has acted, or answer in the service's place with a status.
pub data Fault : Type 0 where
  deliver lose_request lose_answer : Fault
  refuse : ℕ → Fault

pub record Stack : Type 0 where
  pub accounts : AccountService
  pub payments : Payments
  pub keys : Json
  pub clock : ℕ
  pub faults : List Fault

-- The object that a request carries; a request without one has an empty body.
abbrev body_of : Option Json → Fields
body_of (some (obj d)) = d
body_of v = end

abbrev with_store : Stack → Response × Dict Account → Response × Stack
with_store s (r, store) = (r, record s { accounts = record s.accounts { store = store } })

abbrev with_accounts : Stack → Response × AccountService → Response × Stack
with_accounts s (r, a) = (r, record s { accounts = a })

abbrev with_payments : Stack → Response × Payments → Response × Stack
with_payments s (r, payments) = (r, record s { payments = payments })

-- What a service does not know it answers with 404.
abbrev unknown : Stack → Response × Stack
unknown s = (reply 404 none, s)

-- The libraries and random sources of the gateway's process, which no service influences.
pub record Library : Type 0 where
  pub decode : String → Json → Option Fields
  pub coerce_float : Json → Option Float
  pub parse_float : String → Option Float
  pub display : Json → String
  pub uuid4_hex : String
  pub now_text : String
  -- account-service's: `new BigDecimal` of a text, Jackson's text of a number or a Boolean, and
  -- whether the broker takes its next message.
  pub parse_decimal : String → Option ℤ
  pub scalar_text : Json → String
  pub is_sent : AccountService → Bool

-- The next entry of the schedule; a schedule that has ended delivers everything.
abbrev pub next_fault : List Fault → Fault
next_fault [] = deliver
next_fault (f ∷ fs) = f

abbrev pub later_faults : List Fault → List Fault
later_faults [] = []
later_faults (f ∷ fs) = fs

module _ (L : Library) where
  -- Jackson's reading of a body as a `Map<String, String>`.
  abbrev text_entry : Json → Option (Option String)
  text_entry (str t) = some (some t)
  text_entry null = some none
  text_entry (arr vs) = none
  text_entry (obj d) = none
  text_entry v = some (some (L.scalar_text v))

  unfoldable pub text_map : Fields → Option (Dict (Option String))
  text_map end = some []
  text_map (field k v rest) =
      let later = text_map rest in
      elim (text_entry v) [
        | none ↦ none
        | some t ↦ elim later [ none ↦ none | some m ↦ some ((k, t) ∷ m) ]
      ]

  unfoldable pub serve_payment_alert :
      Stack → String → Option (Dict (Option String)) → Response × Stack
  serve_payment_alert s id none = (reply 400 none, s)
  serve_payment_alert s id (some body) =
      with_accounts s (payment_alert (L.is_sent s.accounts) id body s.accounts)

  -- The routing of account-service by method and path.
  unfoldable pub serve_accounts : Method → List String → Fields → Stack → Response × Stack
  serve_accounts http_patch (v ∷ a ∷ id ∷ last ∷ []) body s =
      if v == "v1" && a == "accounts" && last == "balance"
      then with_store s (update_balance L.parse_decimal id body s.accounts.store)
      else unknown s
  serve_accounts http_get (v ∷ a ∷ id ∷ last ∷ []) body s =
      if v == "v1" && a == "accounts" && last == "balance"
      then (get_balance id s.accounts.store, s)
      else unknown s
  serve_accounts http_post (v ∷ a ∷ id ∷ last ∷ []) body s =
      if v == "v1" && a == "accounts" && last == "payment-alert"
      then serve_payment_alert s id (text_map body)
      else unknown s
  serve_accounts m path body s = unknown s

  -- The routing of transaction-service.
  unfoldable pub serve_payments : Method → List String → Fields → Stack → Response × Stack
  serve_payments http_post (v ∷ p ∷ []) body s =
      if v == "v1" && p == "payments"
      then with_payments s (create_payment L.uuid4_hex L.now_text body s.payments)
      else unknown s
  serve_payments http_get (v ∷ p ∷ []) body s =
      if v == "v1" && p == "payments" then (list_all s.payments, s) else unknown s
  serve_payments http_patch (v ∷ p ∷ id ∷ []) body s =
      if v == "v1" && p == "payments"
      then with_payments s (patch_payment L.now_text id body s.payments)
      else unknown s
  serve_payments m path body s = unknown s

  unfoldable pub serve_at : Service → Request → Stack → Response × Stack
  serve_at account_service r s = serve_accounts r.method r.path (body_of r.json) s
  serve_at transaction_service r s = serve_payments r.method r.path (body_of r.json) s
  serve_at keycloak r s = (reply 200 (some s.keys), s)

  unfoldable pub under_fault : Fault → Request → Stack → Reply × Stack
  under_fault deliver r s = let (a, s') = serve_at r.base r s in (answered a, s')
  under_fault lose_request r s = (unreachable, s)
  under_fault lose_answer r s = let (a, s') = serve_at r.base r s in (unreachable, s')
  under_fault (refuse status) r s = (answered (reply status none), s)

  unfoldable pub exchange : Request → Stack → Reply × Stack
  exchange r s = under_fault (next_fault s.faults) r (record s { faults = later_faults s.faults })

  abbrev pub stack_env : Env
  stack_env = record {
    State = Stack;
    exchange = exchange;
    time = λ s. (s.clock, s);
    uuid4_hex = λ s. (L.uuid4_hex, s);
    utc_now = λ s. (L.now_text, s);
    decode = λ s token keys. L.decode token keys;
    coerce_float = L.coerce_float;
    parse_float = L.parse_float;
    display = L.display;
  }

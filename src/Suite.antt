-- ===== src/Suite.antt =====
-- scripts/test-e2e.py: the counters, the HTTP helpers and the helpers for accounts. What is printed
-- is left out.
pub mod Compare
pub mod Sections
pub mod Payments
pub mod Run
pub mod Counts
pub mod Health
pub mod Tokens
pub mod Verdict
pub mod Missing
pub mod Down
use datadog_sample_finance.Shared.{
  ℕ, ◌+◌, String, Bool, true, false, not, ◌&&◌, ◌||◌, Option, none, some, List, [], ◌∷◌, eqb, ◌==◌,
  if◌then◌else◌,
}
use datadog_sample_finance.Shared.Float.{Float, finite, infinity, neg_infinity, nan, whole, less}
use datadog_sample_finance.Shared.Json.{
  Json, null, bool, num, str, arr, obj, Items, nil, cons, Fields, end, field, get, get_or,
  fields_of, truthy,
}
use datadog_sample_finance.Shared.Dict.{Dict, lookup}
use datadog_sample_finance.Python.{
  Io, Result, ok, raised, Exception, http_status_error, transport_error, value_error,
  attribute_error, runtime_error, key_error, gets, or_raise, keyboard_interrupt, pure, lift, modify,
  raise, index, to_float, ◌>>=◌, ◌>>◌,
}

-- The addresses: the proxy in front of the gateway and of account-service, and the services.
pub data Host : Type 0 where
  base gateway accounts txns keycloak : Host

-- A request: its method, its URL as a host and the values between the slashes, its body and the token of its `Authorization` header.
pub record Call : Type 0 where
  pub method : String
  pub host : Host
  pub path : List Json
  pub body : Option Json
  pub bearer : Option Json

-- What urllib makes of a request: an answer, an HTTPError, any other exception or an interrupt. A
-- body is `none` when it is no JSON.
pub data Answer : Type 0 where
  answered refused : ℕ → Option Json → Answer
  unanswered : String → Answer
  interrupted : Answer

-- What the script does not implement.
pub record Site : Type 1 where
  pub State : Type 0
  pub urlopen : Call → State → Answer × State
  -- `time.sleep(5)`
  pub sleep : State → Result (Unit {0}) × State
  -- `float` of a text.
  pub parse_float : String → Option Float

-- The module globals.
pub record World (S : Type 0) : Type 0 where
  pub site : S
  pub passed : ℕ
  pub failed : ℕ
  pub section_title : String
  pub tokens : Dict Json

abbrev pub or_empty : Option Json → Json
or_empty none = obj end
or_empty (some v) = v

-- The pair that `http` returns.
abbrev pub outcome_of : Answer → Result (ℕ × Json)
outcome_of (answered status body) = ok (status, or_empty body)
outcome_of (refused status body) = ok (status, or_empty body)
outcome_of (unanswered message) = ok (0, obj (field "_error" (str message) end))
outcome_of interrupted = raised keyboard_interrupt

-- `json.loads(r.read())`, of an answer that `urlopen` returns.
abbrev pub loaded_of : Answer → Result Json
loaded_of (answered status (some v)) = ok v
loaded_of (answered status none) = raised value_error
loaded_of (refused status body) = raised (http_status_error status)
loaded_of (unanswered message) = raised transport_error
loaded_of interrupted = raised keyboard_interrupt

-- `body.get(key, default)`
abbrev pub get_of : String → Json → Json → Result Json
get_of key default body = elim (fields_of body) [
  | none ↦ raised attribute_error
  | some d ↦ ok (get_or key d default)
]

-- `v == s`, for a text.
abbrev pub is_text : String → Json → Bool
is_text s (str t) = t == s
is_text s v = false

-- `x == y`
abbrev pub equals : Float → Float → Bool
equals nan y = false
equals x nan = false
equals x y = not (less x y) && not (less y x)

unfoldable pub token_call : String → Call
token_call username = record {
  method = "POST";
  host = base;
  path =
      str "auth"
      ∷ str "realms"
      ∷ str "finance"
      ∷ str "protocol"
      ∷ str "openid-connect"
      ∷ str "token"
      ∷ [];
  body = some (str username);
  bearer = none;
}

abbrev pub request : String → List Json → Option Json → Option Json → Call
request method path body bearer = record {
  method = method;
  host = base;
  path = path;
  body = body;
  bearer = bearer;
}

-- An expression that may raise.
unfoldable pub evaluate : {S A : Type 0} → Result A → Io (World S) A
evaluate r w = (r, w)

module _ (E : Site) where
  abbrev pub W : Type 0
  W = World E.State

  unfoldable pub section : String → Io W (Unit {0})
  section title = modify (λ w. record w { section_title = title })

  unfoldable pub chk : String → Bool → Io W Bool
  chk label cond w = (
    ok cond,
    if cond then record w { passed = w.passed + 1 } else record w { failed = w.failed + 1 },
  )

  abbrev pub urlopen : Call → Io W Answer
  urlopen call w = let (a, s) = E.urlopen call w.site in (ok a, record w { site = s })

  unfoldable pub http : Call → Io W (ℕ × Json)
  http call = do answer ← urlopen call; lift (outcome_of answer)

  unfoldable pub token : String → Io W Json
  token username = do
    answer ← urlopen (token_call username)
    v ← lift (loaded_of answer)
    lift (index "access_token" v)

  -- `float(body.get("balance", 0))`
  abbrev pub balance_of : Json → Result Float
  balance_of body = elim (get_of "balance" (num (whole 0)) body) [
    | ok v ↦ to_float E.parse_float v
    | raised e ↦ raised e
  ]

  unfoldable pub balance : Json → Json → Io W Float
  balance tok account_id = do
    (status, body) ← http (
        request "GET" (str "v1" ∷ str "accounts" ∷ account_id ∷ str "balance" ∷ []) none (some tok))
    if eqb status 200 then lift (balance_of body) else raise runtime_error

  abbrev pub account_body : String → String → String → ℕ → Json
  account_body owner currency tier initial_balance = obj (
      field "ownerId" (str owner) (
        field "currency" (str currency)
          (field "tier" (str tier) (field "balance" (num (whole initial_balance)) end))))

  unfoldable pub make_account : String → String → ℕ → Io W Json
  make_account currency tier initial_balance = do
    (status, body) ← http (
        request "POST" (str "internal" ∷ str "accounts" ∷ [])
          (some (account_body "test-suite" currency tier initial_balance)) none)
    if eqb status 201 then lift (index "id" body) else raise runtime_error

  -- `_tokens[username]`
  unfoldable pub token_of : String → Io W Json
  token_of username = do tokens ← gets (λ w. w.tokens); or_raise (lookup username tokens) key_error

  -- A request with a user's token, `auth(_tokens[username])`.
  unfoldable pub http_as : String → String → List Json → Option Json → Io W (ℕ × Json)
  http_as username method path body = do
    tok ← token_of username
    http (request method path body (some tok))

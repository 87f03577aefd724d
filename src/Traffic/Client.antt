-- ===== src/Traffic/Client.antt =====
-- scripts/generate-traffic.py: `http`, `get_token`, `auth_header` and `seed_accounts`. What is
-- printed is left out.
pub mod Tokens
pub mod Seeds
use datadog_sample_finance.Shared.{
  ℕ, String, ◌<>◌, Bool, true, false, Option, none, some, List, [], ◌∷◌, ◌++◌, eqb, if◌then◌else◌,
}
use datadog_sample_finance.Shared.Int.{ℤ, pos}
use datadog_sample_finance.Shared.Float.{Float, finite, whole, negate, plus, less}
use datadog_sample_finance.Shared.Json.{
  Json, null, bool, num, big, str, arr, obj, Fields, end, field, get, get_or, fields_of, truthy,
}
use datadog_sample_finance.Shared.Dict.{Dict, lookup, insert}
use datadog_sample_finance.Python.{
  Io, Result, ok, raised, Exception, http_status_error, keyboard_interrupt, type_error,
  overflow_error, attribute_error, value_error, pure, lift, gets, or_raise, modify, try_except,
  index, ◌>>=◌, ◌>>◌,
}

-- The services' addresses.
pub data Host : Type 0 where
  gateway accounts txns batch keycloak : Host

-- A request: its method, its URL as a host and the values between the slashes of its path, its body and its `Authorization` header.
pub record Call : Type 0 where
  pub method : String
  pub host : Host
  pub path : List Json
  pub body : Option Json
  pub authorization : Option Json

-- A 2xx answer: its status, whether its content type announces JSON, and its body where that is
-- JSON.
pub record Success : Type 0 where
  pub status : ℕ
  pub announces_json : Bool
  pub body : Option Json

-- What the generator does not implement. `urlopen` raises `http_status_error` for urllib's
-- HTTPError, any other exception for a failure to connect or a timeout; an interrupt may come too.
-- Times are in millionths of a second.
pub record Site : Type 1 where
  pub State : Type 0
  pub urlopen : Call → State → Result Success × State
  pub now : State → ℤ × State
  pub sleep : Float → State → Result (Unit {0}) × State
  -- `random.uniform(0, total)` in millionths.
  pub uniform : ℕ → State → ℕ × State
  -- The index that `random.choice` draws for a number of elements.
  pub choice : ℕ → State → ℕ × State

-- An entry of `_tokens`.
pub record Token : Type 0 where
  pub token : Json
  pub expires_at : Float

-- The module globals, with `Stats.total`.
pub record World (S : Type 0) : Type 0 where
  pub site : S
  pub tokens : Dict Token
  pub account_ids : List Json
  pub last_seed_time : ℤ
  pub total : ℕ

-- `json.loads(r.read())`
abbrev loads : Option Json → Result Json
loads none = raised value_error
loads (some v) = ok v

-- `except Exception`
abbrev pub is_exception : Exception → Bool
is_exception keyboard_interrupt = false
is_exception e = true

-- `except urllib.error.HTTPError as e`, then `except Exception`: the status that `http` returns.
abbrev pub status_of : Exception → ℕ
status_of (http_status_error code) = code
status_of e = 0

-- The content that `http` returns with a success; `value_error` is a JSONDecodeError.
abbrev pub content_of : Success → Result Json
content_of r = if r.announces_json then loads r.body else ok (obj end)

-- `json.dumps(body).encode() if body else None`
abbrev pub data_of : Option Json → Option Json
data_of none = none
data_of (some v) = if truthy v then some v else none

-- A number that is added to a time; one beyond the range of a double is an OverflowError, and
-- anything else a TypeError.
unfoldable pub seconds_of : Json → Result Float
seconds_of (num x) = ok x
seconds_of (big n) = raised overflow_error
seconds_of (bool true) = ok (whole 1)
seconds_of (bool false) = ok (whole 0)
seconds_of null = raised type_error
seconds_of (str s) = raised type_error
seconds_of (arr vs) = raised type_error
seconds_of (obj d) = raised type_error

abbrev pub seed_of : String → String → String → ℕ → Json
seed_of owner currency tier balance = obj (
    field "ownerId" (str owner) (
      field "currency" (str currency)
        (field "tier" (str tier) (field "balance" (num (whole balance)) end))))

-- The accounts that `seed_accounts` creates.
abbrev pub seeds : List Json
seeds =
    seed_of "owner-alice" "EUR" "premium" 50000
    ∷ seed_of "owner-bob" "USD" "retail" 2500
    ∷ seed_of "owner-carol" "GBP" "corporate" 250000
    ∷ seed_of "owner-dave" "EUR" "retail" 1200
    ∷ seed_of "owner-extra" "CHF" "premium" 18000
    ∷ []

module _ (E : Site) where
  abbrev W : Type 0
  W = World E.State

  abbrev pub ask : {A : Type 0} → (E.State → A × E.State) → Io W A
  ask f w = let (a, s) = f w.site in (ok a, record w { site = s })

  abbrev pub attempt : {A : Type 0} → (E.State → Result A × E.State) → Io W A
  attempt f w = let (r, s) = f w.site in (r, record w { site = s })

  -- `http`: the status and the body; (0, {}) for what is no HTTP answer.
  unfoldable pub http : Call → Io W (ℕ × Json)
  http call =
      try_except
        (do
          r ← attempt (E.urlopen (record call { body = data_of call.body }))
          v ← lift (content_of r)
          pure (r.status, v))
        is_exception (λ e. pure (status_of e, obj end))

  -- The token request of a user; the form's fields stand for themselves.
  abbrev pub token_call : String → Call
  token_call username = record {
    method = "POST";
    host = keycloak;
    path = str "realms" ∷ str "finance" ∷ str "protocol" ∷ str "openid-connect" ∷ str "token" ∷ [];
    body = some (str username);
    authorization = none;
  }

  -- The statements of the `try` block of `get_token`.
  unfoldable pub issue_token : String → Io W Json
  issue_token username = do
    r ← attempt (E.urlopen (token_call username))
    td ← lift (loads r.body)
    token ← lift (index "access_token" td)
    now ← ask E.now
    d ← or_raise (fields_of td) attribute_error
    lasts ← lift (seconds_of (get_or "expires_in" d (num (whole 300))))
    modify (λ w. record w {
      tokens =
          insert username (record { token = token; expires_at = plus (finite now) lasts }) w.tokens;
    })
    pure token

  abbrev pub request_token : String → Io W Json
  request_token username = try_except (issue_token username) is_exception (λ _. pure null)

  -- Whether a cached token is used: `time.time() < entry["expires_at"] - 60`.
  abbrev pub is_current : ℤ → Token → Bool
  is_current now entry = less (finite now) (plus entry.expires_at (negate (whole 60)))

  abbrev pub cached_or_new : String → Option Token → Io W Json
  cached_or_new username none = request_token username
  cached_or_new username (some entry) = do
    now ← ask E.now
    if is_current now entry then pure entry.token else request_token username

  -- `None` is `null`.
  unfoldable pub get_token : String → Io W Json
  get_token username = do
    tokens ← gets (λ w. w.tokens)
    cached_or_new username (lookup username tokens)

  -- `auth_header`: the token behind `Bearer `, or no header.
  unfoldable pub auth_header : String → Io W (Option Json)
  auth_header username = do
    token ← get_token username
    pure (if truthy token then some token else none)

  abbrev seed_call : Json → Call
  seed_call seed = record {
    method = "POST";
    host = accounts;
    path = str "v1" ∷ str "accounts" ∷ [];
    body = some seed;
    authorization = none;
  }

  -- `if body.get("id"): _account_ids.append(body["id"])`
  abbrev remember_id : Json → Io W (Unit {0})
  remember_id v = do
    d ← or_raise (fields_of v) attribute_error
    let id = get_or "id" d null
    if truthy id then modify (λ w. record w { account_ids = w.account_ids ++ id ∷ [] }) else pure tt

  abbrev remember : ℕ × Json → Io W (Unit {0})
  remember (status, v) = if eqb status 201 then remember_id v else pure tt

  -- The loop of `seed_accounts`.
  unfoldable pub create_accounts : List Json → Io W (Unit {0})
  create_accounts [] = pure tt
  create_accounts (seed ∷ rest) = do
    answer ← http (seed_call seed)
    remember answer
    create_accounts rest

  unfoldable pub seed_accounts : Io W (Unit {0})
  seed_accounts = do
    modify (λ w. record w { account_ids = [] })
    now ← ask E.now
    modify (λ w. record w { last_seed_time = now })
    create_accounts seeds

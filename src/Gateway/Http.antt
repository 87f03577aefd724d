-- ===== src/Gateway/Http.antt =====
-- gateway-api/main.py: the process state and what the gateway reaches outside of itself: the HTTP
-- client, the clock, the log, uuids and the JWT library. The services behind the client are a
-- parameter (`Env`).
use datadog_sample_finance.Shared.{
  ◌≡◌, refl, ◌⊎◌, inl, inr, ℕ, String, ◌&&◌, Option, List, [], ◌∷◌, ◌++◌, leb, if◌then◌else◌,
}
use datadog_sample_finance.Shared.Float.{Float}
use datadog_sample_finance.Shared.Json.{Json, Fields}
use datadog_sample_finance.Python.{
  Io, Result, ok, raised, transport_error, http_status_error, json_decode_error, jwt_error,
  or_raise, modify,
}

pub data Method : Type 0 where
  http_get http_post http_patch : Method

-- The base URLs, read from the environment at start.
pub data Service : Type 0 where
  account_service transaction_service keycloak : Service

-- A request of the HTTP client. The URL is its base and its path segments: identifiers that hold
-- `/`, `?` or `#` are not told apart from their escaped form.
pub record Request : Type 0 where
  pub method : Method
  pub base : Service
  pub path : List String
  pub json : Option Json

-- An answer: its status, and its body where that is JSON.
pub record Response : Type 0 where
  pub status_code : ℕ
  pub body : Option Json

pub data Reply : Type 0 where
  answered : Response → Reply
  unreachable : Reply

pub Reply-cases : (x : Reply) → (x ≡ unreachable) ⊎ ((r : Response) × (x ≡ answered r))
Reply-cases unreachable = inl refl
Reply-cases (answered r) = inr (r, refl)

pub data Level : Type 0 where
  info warning error : Level

-- One log record: its level and its message. The `extra` fields are left out.
pub record Event : Type 0 where
  pub level : Level
  pub message : String

-- What the gateway does not implement.
pub record Env : Type 1 where
  pub State : Type 0
  -- httpx: one request and its answer, retries on a dead connection included.
  pub exchange : Request → State → Reply × State
  -- `time.time()`, in milliseconds.
  pub time : State → ℕ × State
  -- `uuid.uuid4().hex`
  pub uuid4_hex : State → String × State
  -- `time.strftime("%Y-%m-%dT%H:%M:%SZ", time.gmtime())`
  pub utc_now : State → String × State
  -- `jwt.decode` of a token against a key set, with RS256 and no check of audience and issuer:
  -- the claims, or `none` for a JWTError (a bad signature or an expired token).
  pub decode : State → String → Json → Option Fields
  -- pydantic's conversion of a value to `float`, `none` where it refuses it.
  pub coerce_float : Json → Option Float
  -- `float(text)`, `none` for a ValueError.
  pub parse_float : String → Option Float
  -- `str(value)` of a value that is not a text.
  pub display : Json → String

-- The gateway's module globals, its log, and the state of everything outside. `null` stands for
-- the `None` of `_jwks_cache`.
pub record World (S : Type 0) : Type 0 where
  pub env : S
  pub jwks_cache : Json
  pub jwks_cache_fetched_at : ℕ
  pub log : List Event

abbrev pub log_event : {S : Type 0} → Level → String → Io (World S) (Unit {0})
log_event level message =
    modify (λ w. record w { log = w.log ++ record { level = level; message = message } ∷ [] })

module _ {S : Type 0} where
  -- `response.raise_for_status()`
  abbrev pub raise_for_status : Response → Io (World S) (Unit {0})
  raise_for_status r w = (
    if leb 200 r.status_code && leb r.status_code 299
        then ok tt
        else raised (http_status_error r.status_code),
    w,
  )

  -- `response.json()`
  abbrev pub response_json : Response → Io (World S) Json
  response_json r = or_raise r.body json_decode_error

abbrev as_response : Reply → Result Response
as_response (answered r) = ok r
as_response unreachable = raised transport_error

-- An effect of the surroundings.
abbrev pub ask : {S A : Type 0} → (S → A × S) → Io (World S) A
ask f w = let (a, s) = f w.env in (ok a, record w { env = s })

abbrev pub send : (E : Env) → Request → Io (World E.State) Response
send E request w =
    let (reply, s) = E.exchange request w.env in (as_response reply, record w { env = s })

abbrev pub decode_token : (E : Env) → String → Json → Io (World E.State) Fields
decode_token E token jwks w = or_raise (E.decode w.env token jwks) jwt_error w

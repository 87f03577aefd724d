-- ===== src/Gateway/Auth.antt =====
-- gateway-api/main.py, `_get_jwks` and `verify_token`: the key cache with its time to live, and
-- the check of the Bearer token with one self-healing retry.
pub mod Cache
pub mod Verify
pub mod Refusals
use datadog_sample_finance.Shared.{
  ℕ, ◌-◌, ◌*◌, String, Bool, true, false, ◌||◌, Option, none, some, [], ltb, strip_prefix,
  has_infix, ◌==◌, if◌then◌else◌, not,
}
use datadog_sample_finance.Shared.Json.{
  Json, null, bool, num, big, str, arr, obj, Items, nil, cons, Fields, get_or, keys,
}
use datadog_sample_finance.Shared.{contains}
use datadog_sample_finance.Python.{
  Io, Result, ok, raised, type_error, jwt_error, http_exception, pure, lift, gets, or_raise,
  raise_if, modify, try_except, is_jwt_error, ◌>>=◌, ◌>>◌,
}
use datadog_sample_finance.Gateway.Http.{
  Env, World, Request, http_get, keycloak, warning, log_event, raise_for_status, response_json, ask,
  send, decode_token,
}

abbrev pub jwks_cache_ttl_seconds : ℕ
jwks_cache_ttl_seconds = 300

-- `_jwks_cache is None`
abbrev pub is_none : Json → Bool
is_none null = true
is_none v = false

abbrev pub jwks_request : Request
jwks_request = record { method = http_get; base = keycloak; path = []; json = none }

abbrev has_text : Items → String → Bool
has_text nil x = false
has_text (cons (str s) xs) x = x == s || has_text xs x
has_text (cons v xs) x = has_text xs x

-- Python's `x in value` for a text `x`: a part of a text, an element of a list, a key of a dict.
unfoldable pub contains_in : String → Json → Result Bool
unfolding contains has_infix
contains_in x (str s) = ok (has_infix x s)
contains_in x (arr xs) = ok (has_text xs x)
contains_in x (obj d) = ok (contains (keys d) x)
contains_in x null = raised type_error
contains_in x (bool b) = raised type_error
contains_in x (num n) = raised type_error
contains_in x (big n) = raised type_error

-- The token of an `Authorization` header, which a request may lack.
unfoldable pub bearer_token : Option String → Option String
unfolding strip_prefix
bearer_token header = strip_prefix "Bearer " (elim header [ none ↦ "" | some h ↦ h ])

module _ (E : Env) where
  abbrev W : Type 0
  W = World E.State

  -- The body of the `if` in `_get_jwks`.
  unfoldable pub fetch_jwks : Io W (Unit {0})
  fetch_jwks = do
    r ← send E jwks_request
    raise_for_status r
    keys ← response_json r
    modify (λ w. record w { jwks_cache = keys })
    now ← ask E.time
    modify (λ w. record w { jwks_cache_fetched_at = now })

  unfoldable pub get_jwks : Bool → Io W Json
  get_jwks force_refresh = do
    now ← ask E.time
    cache ← gets (λ w. w.jwks_cache)
    fetched_at ← gets (λ w. w.jwks_cache_fetched_at)
    let is_stale = ltb (jwks_cache_ttl_seconds * 1000) (now - fetched_at)
    if force_refresh || is_none cache || is_stale then fetch_jwks else pure tt
    gets (λ w. w.jwks_cache)

  -- `_decode(await _get_jwks(force_refresh))`
  unfoldable pub decode_with : Bool → String → Io W Fields
  decode_with force_refresh token = do jwks ← get_jwks force_refresh; decode_token E token jwks

  -- The claims, after at most one retry with a fresh key set.
  unfoldable pub decode_retrying : String → Io W Fields
  decode_retrying token =
      try_except (decode_with false token) is_jwt_error
        λ _. do log_event warning "auth.jwks_stale_retry"; decode_with true token

  -- The manual check of the issuer's realm.
  unfoldable pub check_realm : Fields → Io W Fields
  unfolding contains_in
  check_realm claims = do
    is_finance ← lift (contains_in "/realms/finance" (get_or "iss" claims (str "")))
    raise_if (not is_finance) jwt_error
    pure claims

  unfoldable pub verify_token : Option String → Io W Fields
  verify_token header = do
    token ← or_raise (bearer_token header) (http_exception 401 "Missing Bearer token")
    try_except (do claims ← decode_retrying token; check_realm claims) is_jwt_error
        λ _. do
          log_event warning "auth.token_invalid"
          lift (raised (http_exception 401 "Invalid or expired token"))

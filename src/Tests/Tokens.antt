-- ===== src/Tests/Tokens.antt =====
-- The token check and the routes at concrete data.
use datadog_sample_finance.Shared.{
  ◌≡◌, refl, ◌⊎◌, true, false, some, none, [], ◌∷◌, ◌+◌, ◌≤◌, String, ◌<>◌, String-discrete, arith,
  has_infix, strip_prefix, starts_with,
}
use datadog_sample_finance.Shared.Json.{null, get_or, str}
use datadog_sample_finance.Python.{ok, raised, http_exception, transport_error}
use datadog_sample_finance.Gateway.Auth.{
  verify_token, get_jwks, fetch_jwks, decode_with, decode_retrying, check_realm, bearer_token,
  contains_in,
}
use datadog_sample_finance.Gateway.Auth.Cache.{WasCached, Serves, get_jwks_freshness}
use datadog_sample_finance.Gateway.Auth.Verify.{
  IsFinance, Decodes, fetch_allowance, verify_token_sound, verify_token_asks_twice,
  verify_token_recovers,
}
use datadog_sample_finance.Gateway.Auth.Refusals.{Refusal, verify_token_raised}
use datadog_sample_finance.Gateway.Models.{parse_transfer}
use datadog_sample_finance.Services.Stack.{lose_request, exchange, under_fault}
use datadog_sample_finance.Tests.Sample.{admin, env, coerce, world, key_server, key_world}

accepted : (verify_token key_server (some ("Bearer " <> "t")) key_world).0 ≡ ok admin
unfolding verify_token decode_retrying decode_with get_jwks fetch_jwks check_realm bearer_token
    String-discrete get_or strip_prefix
accepted = refl

finance : IsFinance admin
unfolding contains_in has_infix starts_with strip_prefix String-discrete get_or
finance = refl

verify_token_sound_example :
    let w' = (verify_token key_server (some ("Bearer " <> "t")) key_world).1 in
    (token : String) × (bearer_token (some ("Bearer " <> "t")) ≡ some token)
    × Decodes key_server token w' admin
    × IsFinance admin
verify_token_sound_example =
    verify_token_sound key_server (some ("Bearer " <> "t")) key_world admin accepted

-- Without the header.
bare :
    (verify_token key_server none key_world).0 ≡ raised (http_exception 401 "Missing Bearer token")
unfolding verify_token bearer_token strip_prefix
bare = refl

verify_token_raised_example :
    let e = http_exception 401 "Missing Bearer token" in
    ((bearer_token none ≡ none) × (e ≡ http_exception 401 "Missing Bearer token"))
    ⊎ ((token : String) × (bearer_token none ≡ some token) × Refusal key_server token key_world e)
verify_token_raised_example =
    verify_token_raised key_server none key_world (http_exception 401 "Missing Bearer token") bare

verify_token_asks_twice_example :
    (verify_token key_server (some "Bearer t") key_world).1.env
    ≤ 0 + fetch_allowance (bearer_token (some "Bearer t"))
verify_token_asks_twice_example =
    verify_token_asks_twice key_server (λ n. n) (λ n. refl) (λ n. omega arith) (some "Bearer t")
      key_world

stale : key_server.decode 0 "t" (str "old") ≡ none
unfolding String-discrete
stale = refl

fresh : key_server.decode 0 "t" (str "new") ≡ some admin
unfolding String-discrete
fresh = refl

refreshed : (get_jwks key_server true key_world).0 ≡ ok (str "new")
unfolding get_jwks fetch_jwks
refreshed = refl

lost : (get_jwks env true (world (lose_request ∷ []))).0 ≡ raised transport_error
unfolding get_jwks fetch_jwks exchange under_fault
lost = refl

verify_token_recovers_example :
    (verify_token key_server (some ("Bearer " <> "t")) key_world).0 ≡ ok admin
verify_token_recovers_example =
    verify_token_recovers key_server (str "new") (λ n. refl) "t" key_world admin (λ n. stale)
      (λ n. fresh) finance

get_jwks_freshness_example :
    (str "new" ≡ (get_jwks key_server true key_world).1.jwks_cache)
    × (((true ≡ false) × WasCached key_server key_world (str "new"))
        ⊎ Serves key_server 0 (str "new"))
get_jwks_freshness_example = get_jwks_freshness key_server true key_world (str "new") refreshed

no_transfer : parse_transfer coerce null ≡ none
unfolding parse_transfer
no_transfer = refl

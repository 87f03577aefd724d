-- ===== src/Gateway/Auth/Verify.antt =====
-- `verify_token`: what an accepted token has passed, how often Keycloak is asked, and the recovery
-- from stale keys.
use datadog_sample_finance.Shared.{
  ℕ, ◌+◌, ◌≤◌, ◌≡◌, ◌⊎◌, inl, inr, Bool, true, false, Option, none, some, arith, Option-cases, suc,
  String, ◌<>◌,
}
use datadog_sample_finance.Shared.{strip_prefix-append}
use datadog_sample_finance.Shared.Json.{Json, Fields, get_or, str}
use datadog_sample_finance.Python.{ok, raised, jwt_error}
use datadog_sample_finance.Gateway.Http.{answered, log_event, warning, Env, World}
use datadog_sample_finance.Gateway.Auth.{
  jwks_request, fetch_jwks, get_jwks, decode_with, decode_retrying, check_realm, verify_token,
  bearer_token, contains_in,
}
use datadog_sample_finance.Gateway.Auth.Cache.{get_jwks-eq-cache}

abbrev pub IsFinance : Fields → Type 0
IsFinance claims = contains_in "/realms/finance" (get_or "iss" claims (str "")) ≡ ok true

-- How many key fetches a request may cause.
abbrev pub fetch_allowance : Option String → ℕ
fetch_allowance none = 0
fetch_allowance (some token) = 2

module _ (E : Env) where
  -- In the world `w` the token decodes to the claims under the cached keys.
  abbrev pub Decodes : String → World E.State → Fields → Type 0
  Decodes token w claims = E.decode w.env token w.jwks_cache ≡ some claims

  decode_with-Decodes :
      (force : Bool) (token : String) (w : World E.State) (claims : Fields)
      → (decode_with E force token w).0 ≡ ok claims
      → Decodes token (decode_with E force token w).1 claims
  unfolding decode_with
  decode_with-Decodes force token w claims h = grind (arith, get_jwks-eq-cache)

  -- The world in which the retry starts.
  abbrev pub retry_world : String → World E.State → World E.State
  retry_world token w =
      (log_event warning "auth.jwks_stale_retry" (decode_with E false token w).1).1

  decode_retrying-Decodes :
      (token : String) (w : World E.State) (claims : Fields)
      → (decode_retrying E token w).0 ≡ ok claims
      → Decodes token (decode_retrying E token w).1 claims
  unfolding decode_retrying
  decode_retrying-Decodes token w claims h = ground (
    arith,
    decode_with-Decodes false token w claims,
    decode_with-Decodes true token (retry_world token w) claims,
  )

  -- A token is accepted only where the header carries it behind `Bearer `, it decodes to the
  -- returned claims under the keys that are then in the cache, and the issuer of the claims
  -- contains "/realms/finance".
  pub verify_token_sound :
      (header : Option String) (w : World E.State) (claims : Fields)
      → (verify_token E header w).0 ≡ ok claims
      → (token : String) × (bearer_token header ≡ some token)
        × Decodes token (verify_token E header w).1 claims
        × IsFinance claims
  unfolding verify_token check_realm
  verify_token_sound header w claims h = elim (Option-cases (bearer_token header)) [
    | inl e ↦ absurd (ground (arith, e))
    | inr (t, e) ↦ (t, e, ground (arith, decode_retrying-Decodes t w claims), ground arith)
  ]

  module _ (asked : E.State → ℕ) (asked-time : (s : E.State) → asked (E.time s).1 ≡ asked s)
      (asked-exchange : (s : E.State) → asked (E.exchange jwks_request s).1 ≡ suc (asked s)) where
    get_jwks-asked :
        (force : Bool) (w : World E.State) → asked (get_jwks E force w).1.env ≤ suc (asked w.env)
    unfolding get_jwks fetch_jwks
    get_jwks-asked force w = grind (arith, asked-time, asked-exchange)

    decode_with-asked :
        (force : Bool) (token : String) (w : World E.State)
        → asked (decode_with E force token w).1.env ≤ suc (asked w.env)
    unfolding decode_with
    decode_with-asked force token w = grind (arith, get_jwks-asked)

    decode_retrying-asked :
        (token : String) (w : World E.State)
        → asked (decode_retrying E token w).1.env ≤ suc (suc (asked w.env))
    unfolding decode_retrying
    decode_retrying-asked token w =
        ground (
          arith,
          decode_with-asked false token w,
          decode_with-asked true token (retry_world token w),
        )

    -- `asked` counts the key fetches. The check of one token makes two of them at most, and none
    -- for a header that lacks the Bearer token.
    pub verify_token_asks_twice :
        (header : Option String) (w : World E.State)
        → asked (verify_token E header w).1.env
          ≤ asked w.env + fetch_allowance (bearer_token header)
    unfolding verify_token check_realm
    verify_token_asks_twice header w = elim (Option-cases (bearer_token header)) [
      | inl e ↦ ground (arith, e)
      | inr (t, e) ↦ ground (arith, e, decode_retrying-asked t w)
    ]

  module _ (keys : Json)
      (served : (s : E.State)
        → (E.exchange jwks_request s).0
          ≡ answered (record { status_code = 200; body = some keys })) where
    get_jwks-served :
        (force : Bool) (w : World E.State)
        → ((get_jwks E force w).0 ≡ ok keys)
          ⊎ ((force ≡ false) × ((get_jwks E force w).0 ≡ ok w.jwks_cache))
    unfolding get_jwks fetch_jwks
    get_jwks-served force w = ground (arith, served (E.time w.env).1)

    decode_with-served :
        (force : Bool) (token : String) (w : World E.State) (claims : Fields)
        → ((s : E.State) → E.decode s token w.jwks_cache ≡ none)
        → ((s : E.State) → E.decode s token keys ≡ some claims)
        → ((decode_with E force token w).0 ≡ ok claims)
          ⊎ ((force ≡ false) × ((decode_with E force token w).0 ≡ raised jwt_error))
    unfolding decode_with
    decode_with-served force token w claims stale fresh =
        let s = (get_jwks E force w).1.env in
        ground (arith, get_jwks-served force w, stale s, fresh s)

    decode_with-forced :
        (token : String) (w : World E.State) (claims : Fields)
        → ((s : E.State) → E.decode s token keys ≡ some claims)
        → (decode_with E true token w).0 ≡ ok claims
    unfolding decode_with
    decode_with-forced token w claims fresh =
        ground (arith, get_jwks-served true w, fresh (get_jwks E true w).1.env)

    -- The self-healing retry: if the token does not decode under the cached keys at any moment,
    -- but Keycloak answers every key request with keys under which it decodes to claims whose
    -- issuer contains "/realms/finance", then the request is accepted, whatever the cache holds
    -- and however old it is.
    pub verify_token_recovers :
        (token : String) (w : World E.State) (claims : Fields)
        → ((s : E.State) → E.decode s token w.jwks_cache ≡ none)
        → ((s : E.State) → E.decode s token keys ≡ some claims)
        → IsFinance claims
        → (verify_token E (some ("Bearer " <> token)) w).0 ≡ ok claims
    unfolding verify_token check_realm decode_retrying bearer_token
    verify_token_recovers token w claims stale fresh finance = rw strip_prefix-append (
        ground (
          arith,
          decode_with-served false token w claims stale fresh,
          decode_with-forced token (retry_world token w) claims fresh,
        ))

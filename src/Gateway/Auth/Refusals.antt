-- ===== src/Gateway/Auth/Refusals.antt =====
-- `verify_token`: why a token is refused.
use datadog_sample_finance.Shared.{
  refl, if◌then◌else◌, ◌∙◌, sym, ◌≡◌, ◌⊎◌, inl, inr, Bool, true, false, Option, none, some, arith,
  Option-cases, subst, String,
}
use datadog_sample_finance.Shared.Json.{Json, Fields, get_or, str, null, bool, num, big, arr, obj}
use datadog_sample_finance.Python.{
  Result-cases, ok, raised, is_http_error, is_jwt_error, ◌>>=◌, json_decode_error, jwt_error,
  type_error, http_exception, Exception,
}
use datadog_sample_finance.Gateway.Http.{Env, World}
use datadog_sample_finance.Gateway.Auth.{
  get_jwks, decode_with, decode_retrying, check_realm, verify_token, bearer_token, contains_in,
}
use datadog_sample_finance.Gateway.Auth.Cache.{get_jwks_failure}
use datadog_sample_finance.Gateway.Auth.Verify.{retry_world}

fetch_no_jwt :
    (e : Exception) → (is_http_error e ≡ true) ⊎ (e ≡ json_decode_error) → is_jwt_error e ≡ false
fetch_no_jwt jwt_error (inl h) = ground (arith, h)
fetch_no_jwt jwt_error (inr h) = ground (arith, h)
fetch_no_jwt _ h = refl

-- A value that Python's `in` refuses: no text, list or dict.
abbrev pub IsScalar : Json → Type 0
IsScalar null = Unit
IsScalar (bool b) = Unit
IsScalar (num x) = Unit
IsScalar (big n) = Unit
IsScalar v = ⊥

contains_in-raised :
    (x : String) (v : Json) (e : Exception)
    → contains_in x v ≡ raised e
    → (e ≡ type_error) × IsScalar v
unfolding contains_in
contains_in-raised x null e h = (ground (arith, h), tt)
contains_in-raised x (bool b) e h = (ground (arith, h), tt)
contains_in-raised x (num n) e h = (ground (arith, h), tt)
contains_in-raised x (big n) e h = (ground (arith, h), tt)
contains_in-raised x (str t) e h = ground (arith, h)
contains_in-raised x (arr vs) e h = ground (arith, h)
contains_in-raised x (obj d) e h = ground (arith, h)

module _ (E : Env) where
  -- The key fetch of `get_jwks` failed: an `httpx.HTTPError`, or an answer that is not JSON.
  abbrev pub FetchFails : Bool → World E.State → Exception → Type 0
  FetchFails force w e =
      ((get_jwks E force w).0 ≡ raised e) × ((is_http_error e ≡ true) ⊎ (e ≡ json_decode_error))

  decode_with-raised :
      (force : Bool) (token : String) (w : World E.State) (e : Exception)
      → (decode_with E force token w).0 ≡ raised e
      → (e ≡ jwt_error) ⊎ FetchFails force w e
  unfolding decode_with
  decode_with-raised force token w e h = elim (Result-cases (get_jwks E force w).0) [
    | inl (keys, g) ↦ inl (ground (arith, g, h))
    | inr (err, g) ↦
        let same : err ≡ e = ground (arith, g, h) in
        let (_, _, kind) = get_jwks_failure E force w err g in
        inr (
          subst
            (λ x.
              ((get_jwks E force w).0 ≡ raised x)
              × ((is_http_error x ≡ true) ⊎ (x ≡ json_decode_error)))
            same (g, kind))
  ]

  -- One of the two key fetches that a token may cause has failed.
  abbrev pub AskFails : String → World E.State → Exception → Type 0
  AskFails token w e = FetchFails false w e ⊎ FetchFails true (retry_world E token w) e

  decode_retrying-raised :
      (token : String) (w : World E.State) (e : Exception)
      → (decode_retrying E token w).0 ≡ raised e
      → (e ≡ jwt_error) ⊎ AskFails token w e
  unfolding decode_retrying
  decode_retrying-raised token w e h = elim (Result-cases (decode_with E false token w).0) [
    | inl (claims, g) ↦ absurd (ground (arith, g, h))
    | inr (err, g) ↦ elim (decode_with-raised false token w err g) [
      | inl j ↦
          elim (decode_with-raised true token (retry_world E token w) e (ground (arith, g, j, h))) [
            | inl k ↦ inl k
            | inr k ↦ inr (inr k)
          ]
      | inr (k, kind) ↦
          let same : err ≡ e = ground (arith, g, h, fetch_no_jwt err kind) in
          inr (inl (subst (FetchFails false w) same (k, kind)))
    ]
  ]

  -- Why a token is refused with an exception.
  abbrev pub Refusal : String → World E.State → Exception → Type 0
  Refusal token w e =
      (e ≡ http_exception 401 "Invalid or expired token")
      ⊎ AskFails token w e
      ⊎ ((e ≡ type_error)
          × ((claims : Fields) × ((decode_retrying E token w).0 ≡ ok claims)
              × IsScalar (get_or "iss" claims (str ""))))

  refused_claims :
      (claims : Fields) (w : World E.State) (e : Exception)
      → (check_realm E claims w).0 ≡ raised e
      → (e ≡ jwt_error) ⊎ ((e ≡ type_error) × IsScalar (get_or "iss" claims (str "")))
  unfolding check_realm
  refused_claims claims w e h =
      let issuer : Json = get_or "iss" claims (str "") in
      elim (Result-cases (contains_in "/realms/finance" issuer)) [
        | inl (b, c) ↦ inl (ground (arith, c, h))
        | inr (x, c) ↦
            let same : x ≡ e = ground (arith, c, h) in
            let (t, scalar) = contains_in-raised "/realms/finance" issuer x c in
            inr (sym same ∙ t, scalar)
      ]

  refusal :
      (token : String) (w : World E.State) (e x : Exception)
      → ((decode_retrying E token >>= check_realm E) w).0 ≡ raised x
      → e ≡ (if is_jwt_error x then http_exception 401 "Invalid or expired token" else x)
      → Refusal token w e
  refusal token w e x h q = elim (Result-cases (decode_retrying E token w).0) [
    | inl (claims, d) ↦
        elim (refused_claims claims (decode_retrying E token w).1 x (ground (arith, d, h))) [
          | inl j ↦ inl (ground (arith, q, j))
          | inr (t, scalar) ↦ inr (inr (ground (arith, q, t), (claims, d, scalar)))
        ]
    | inr (err, d) ↦
        let same : err ≡ x = ground (arith, d, h) in
        elim (decode_retrying-raised token w err d) [
          | inl j ↦ inl (ground (arith, q, j, same))
          | inr asked ↦
              let kept : is_jwt_error err ≡ false = elim asked [
                | inl (g, kind) ↦ fetch_no_jwt err kind
                | inr (g, kind) ↦ fetch_no_jwt err kind
              ] in
              inr (inl (subst (AskFails token w) (ground (arith, q, same, kept)) asked))
        ]
  ]

  -- When a token is not accepted, there are four reasons. The header has no Bearer token, and the
  -- exception is a 401; or it is the 401 for an invalid token; or it is that of a key fetch, the
  -- first one or the forced one of the retry, which failed with an `httpx.HTTPError` or an answer
  -- that is not JSON; or it is a TypeError, and the token has decoded to claims whose issuer is no
  -- text, list or dict. No JWTError escapes.
  pub verify_token_raised :
      (header : Option String) (w : World E.State) (e : Exception)
      → (verify_token E header w).0 ≡ raised e
      → ((bearer_token header ≡ none) × (e ≡ http_exception 401 "Missing Bearer token"))
        ⊎ ((token : String) × (bearer_token header ≡ some token) × Refusal token w e)
  unfolding verify_token
  verify_token_raised header w e h = elim (Option-cases (bearer_token header)) [
    | inl b ↦ inl (b, ground (arith, b, h))
    | inr (t, b) ↦ inr (
      t,
      b,
      elim (Result-cases ((decode_retrying E t >>= check_realm E) w).0) [
        | inl (claims, r) ↦ absurd (ground (arith, b, h, r))
        | inr (x, r) ↦ refusal t w e x r (ground (arith, b, h, r))
      ],
    )
  ]

-- ===== src/Gateway/Auth/Cache.antt =====
-- `_get_jwks`: how old the keys are that a call returns, and what a failed refresh leaves.
use datadog_sample_finance.Shared.{
  ◌+◌, ◌*◌, ◌≤◌, ◌≡◌, ◌⊎◌, inl, inr, Bool, true, false, some, arith, Option-cases,
}
use datadog_sample_finance.Shared.Json.{Json}
use datadog_sample_finance.Python.{ok, raised, is_http_error, json_decode_error, Exception}
use datadog_sample_finance.Gateway.Http.{Reply-cases, Env, World, Response, answered}
use datadog_sample_finance.Gateway.Auth.{
  jwks_cache_ttl_seconds, jwks_request, is_none, fetch_jwks, get_jwks,
}

module _ (E : Env) where
  -- Keycloak's answer to the next request, in the surroundings `s`, is the key set `keys`.
  abbrev pub Serves : E.State → Json → Type 0
  Serves s keys =
      (r : Response) × ((E.exchange jwks_request s).0 ≡ answered r)
      × (200 ≤ r.status_code)
      × (r.status_code ≤ 299)
      × (r.body ≡ some keys)

  -- The keys were in the cache, and no older than the time to live when the call began.
  abbrev pub WasCached : World E.State → Json → Type 0
  WasCached w keys =
      (keys ≡ w.jwks_cache)
      × (is_none keys ≡ false)
      × ((E.time w.env).0 ≤ w.jwks_cache_fetched_at + jwks_cache_ttl_seconds * 1000)

  fetch_jwks-Serves :
      (w : World E.State) → (fetch_jwks E w).0 ≡ ok tt → Serves w.env (fetch_jwks E w).1.jwks_cache
  unfolding fetch_jwks
  fetch_jwks-Serves w h = elim (Reply-cases (E.exchange jwks_request w.env).0) [
    | inl e ↦ absurd (ground (arith, e))
    | inr (r, e) ↦ elim (Option-cases r.body) [
      | inl b ↦ absurd (ground (arith, e, b))
      | inr (k, b) ↦ (r, e, ground (arith, e, b), ground (arith, e, b), ground (arith, e, b))
    ]
  ]

  -- The keys that `_get_jwks` returns are the ones it leaves in the cache. Without a forced
  -- refresh they may be the cached ones, if those are present and at most 300 seconds old by the
  -- clock; otherwise Keycloak has just answered with them, with a 2xx status.
  pub get_jwks_freshness :
      (force : Bool) (w : World E.State) (keys : Json)
      → (get_jwks E force w).0 ≡ ok keys
      → (keys ≡ (get_jwks E force w).1.jwks_cache)
        × (((force ≡ false) × WasCached w keys) ⊎ Serves (E.time w.env).1 keys)
  unfolding get_jwks
  get_jwks_freshness force w keys h =
      ground (arith, fetch_jwks-Serves (record w { env = (E.time w.env).1 }))

  pub get_jwks-eq-cache :
      (force : Bool) (w : World E.State) (keys : Json)
      → (get_jwks E force w).0 ≡ ok keys
      → (get_jwks E force w).1.jwks_cache ≡ keys
  unfolding get_jwks
  get_jwks-eq-cache force w keys h = ground arith

  -- When `_get_jwks` raises, the cache and its time stamp are as before, and the exception is an
  -- `httpx.HTTPError` or a body that is not JSON.
  pub get_jwks_failure :
      (force : Bool) (w : World E.State) (e : Exception)
      → (get_jwks E force w).0 ≡ raised e
      → ((get_jwks E force w).1.jwks_cache ≡ w.jwks_cache)
        × ((get_jwks E force w).1.jwks_cache_fetched_at ≡ w.jwks_cache_fetched_at)
        × ((is_http_error e ≡ true) ⊎ (e ≡ json_decode_error))
  unfolding get_jwks fetch_jwks
  get_jwks_failure force w e h = ground arith

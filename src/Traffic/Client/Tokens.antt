-- ===== src/Traffic/Client/Tokens.antt =====
-- scripts/generate-traffic.py, `http` and `get_token`: what they return, and the token cache.
use datadog_sample_finance.Shared.{
  String, ◌≡◌, refl, ◌⊎◌, inl, inr, Option, none, some, arith, Bool-cases,
}
use datadog_sample_finance.Shared.Json.{Json, null}
use datadog_sample_finance.Shared.Dict.{Dict, lookup, lookup-insert_self}
use datadog_sample_finance.Python.{Result, ok, raised, keyboard_interrupt, pure, recover}
use datadog_sample_finance.Traffic.Client.{
  Site, World, Token, issue_token, request_token, get_token, cached_or_new, is_current,
  is_exception,
}

module _ (E : Site) where
  -- The token that the cache holds for a user.
  abbrev pub token_at : String → Dict Token → Option Json
  token_at username tokens = elim (lookup username tokens) [ none ↦ none | some t ↦ some t.token ]

  -- How a token request ends.
  abbrev pub Yields : String → World E.State → Result Json × World E.State → Type 0
  Yields username w (r, w') =
      (r ≡ raised keyboard_interrupt)
      ⊎ ((r ≡ ok null) × (w'.tokens ≡ w.tokens))
      ⊎ ((token : Json) × (r ≡ ok token) × (token_at username w'.tokens ≡ some token))

  -- An exception leaves the cache alone; a token is in it.
  abbrev Issues : String → World E.State → Result Json × World E.State → Type 0
  Issues username w (raised e, w') = w'.tokens ≡ w.tokens
  Issues username w (ok v, w') = token_at username w'.tokens ≡ some v

  issue_token-Issues :
      (username : String) (w : World E.State) → Issues username w (issue_token E username w)
  unfolding issue_token
  issue_token-Issues username w = grind (arith, lookup-insert_self)

  handled :
      (username : String) (w : World E.State) (a : Result Json × World E.State)
      → Issues username w a
      → Yields username w (recover a.0 is_exception (λ _. pure null) a.1)
  handled username w (ok v, w') held = inr (inr (v, refl, held))
  handled username w (raised keyboard_interrupt, w') held = inl refl
  handled username w (raised e, w') held = inr (inl (ground arith, held))

  request_token-Yields :
      (username : String) (w : World E.State) → Yields username w (request_token E username w)
  request_token-Yields username w =
      handled username w (issue_token E username w) (issue_token-Issues username w)

  cached_or_new-Yields :
      (username : String) (w : World E.State) (o : Option Token)
      → lookup username w.tokens ≡ o
      → Yields username w (cached_or_new E username o w)
  cached_or_new-Yields username w none e = request_token-Yields username w
  cached_or_new-Yields username w (some entry) e =
      let w' = record w { site = (E.now w.site).1 } in
      elim (Bool-cases (is_current E (E.now w.site).0 entry)) [
        | inl now ↦ rw now (inr (inr (entry.token, refl, ground (arith, e))))
        | inr later ↦ rw later (request_token-Yields username w')
      ]

  -- `get_token` ends in one of three ways: it is interrupted; or it returns None and leaves the
  -- cache as it was; or it returns the token that the cache then holds for the user.
  pub get_token_total :
      (username : String) (w : World E.State) → Yields username w (get_token E username w)
  unfolding get_token
  get_token_total username w = cached_or_new-Yields username w (lookup username w.tokens) refl

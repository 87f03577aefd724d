-- ===== src/Suite/Run.antt =====
-- scripts/test-e2e.py: the check of the services' health, the tokens and `main`. An exit code is the
-- result; an exception ends the script with a traceback.
use datadog_sample_finance.Shared.{
  ℕ, suc, zero, String, Bool, true, false, not, ◌&&◌, none, some, List, [], ◌∷◌, eqb, if◌then◌else◌,
}
use datadog_sample_finance.Shared.Json.{Json, str, truthy}
use datadog_sample_finance.Shared.Dict.{Dict, lookup, insert}
use datadog_sample_finance.Python.{
  Io, Exception, keyboard_interrupt, pure, gets, modify, try_except, ◌>>=◌, ◌>>◌,
}
use datadog_sample_finance.Suite.{
  Host, base, gateway, accounts, txns, keycloak, Call, Site, World, section, chk, http, token,
}
use datadog_sample_finance.Suite.Sections.{account_section, deposit_section, transfer_section}
use datadog_sample_finance.Suite.Payments.{payment_section, validation_section}

-- `except Exception`
abbrev pub is_exception : Exception → Bool
is_exception keyboard_interrupt = false
is_exception e = true

abbrev pub health_call : Host → List Json → Call
health_call host path = record {
  method = "GET";
  host = host;
  path = path;
  body = none;
  bearer = none;
}

-- The services that `preflight` asks, in its order.
abbrev pub services : List Call
services =
    health_call gateway (str "health" ∷ [])
    ∷ health_call accounts (str "health" ∷ [])
    ∷ health_call txns (str "health" ∷ [])
    ∷ health_call base []
    ∷ health_call keycloak
        (str "realms" ∷ str "finance" ∷ str ".well-known" ∷ str "openid-configuration" ∷ [])
    ∷ []

abbrev pub users : List String
users = "alice.analyst" ∷ "bob.trader" ∷ "carol.admin" ∷ "dave.auditor" ∷ "eve.compliance" ∷ []

abbrev pub has_token : String → Dict Json → Bool
has_token username tokens = elim (lookup username tokens) [ none ↦ false | some tok ↦ true ]

module _ (E : Site) where
  -- `time.sleep(5)`
  abbrev pub sleep : Io (World E.State) (Unit {0})
  sleep w = let (r, s) = E.sleep w.site in (r, record w { site = s })

  -- The attempts that are left, one at least: the last status.
  unfoldable pub attempts : ℕ → Call → Io (World E.State) ℕ
  attempts zero call = do (status, _) ← http E call; pure status
  attempts (suc n) call = do
    (status, _) ← http E call
    if eqb status 200 then pure status else do sleep; attempts n call

  -- The loop over the services, which the first one that fails ends.
  unfoldable pub check_services : List Call → Io (World E.State) Bool
  check_services [] = pure true
  check_services (call ∷ calls) = do
    status ← attempts 2 call
    healthy ← chk E "service health" (eqb status 200)
    if healthy then check_services calls else pure false

  unfoldable pub preflight : Io (World E.State) Bool
  preflight = do section E "Pre-flight: service health"; check_services services

  -- The body of the loop of `auth_section`.
  unfoldable pub authenticate : String → Io (World E.State) Bool
  authenticate username =
      try_except
        (do
          tok ← token E username
          modify (λ w. record w { tokens = insert username tok w.tokens })
          chk E username (truthy tok))
        is_exception (λ _. chk E username false)

  unfoldable pub authenticate_all : List String → Io (World E.State) (Unit {0})
  authenticate_all [] = pure tt
  authenticate_all (username ∷ rest) = do _ ← authenticate username; authenticate_all rest

  unfoldable pub auth_section : Io (World E.State) (Unit {0})
  auth_section = do section E "Authentication: all Keycloak users"; authenticate_all users

  -- The sections that need tokens, and the exit code.
  unfoldable pub run_sections : Io (World E.State) ℕ
  run_sections = do
    acc1 ← account_section E
    _ ← deposit_section E acc1
    _ ← transfer_section E
    (acc_pay, payment_id) ← payment_section E
    _ ← validation_section E acc_pay payment_id
    failed ← gets (λ w. w.failed)
    pure (if eqb failed 0 then 0 else 1)

  unfoldable pub main : Io (World E.State) ℕ
  main = do
    healthy ← preflight
    if not healthy then pure 1 else do
      auth_section
      tokens ← gets (λ w. w.tokens)
      if not (
            has_token "bob.trader" tokens
            && (has_token "carol.admin" tokens && has_token "eve.compliance" tokens))
          then pure 1
          else run_sections

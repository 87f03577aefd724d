-- ===== src/Traffic/Scenarios/Laws.antt =====
-- scripts/generate-traffic.py, the scenarios: what they leave of the module state.
use datadog_sample_finance.Shared.{ℕ, String, ◌≡◌, refl, Option, none, some, List, [], ◌∷◌, arith}
use datadog_sample_finance.Shared.Json.{Json, str}
use datadog_sample_finance.Python.{pure}
use datadog_sample_finance.Traffic.Client.{
  Site, World, Token, issue_token, request_token, cached_or_new, get_token, auth_header,
}
use datadog_sample_finance.Traffic.Client.Seeds.{http_keeps}
use datadog_sample_finance.Traffic.Scenarios.{
  Scenario, balance_check, payment, account_lookup, health_checks, not_found, unauthorized,
  bad_payload, batch_job, choose, account_or, made_up_ids, some_account, follow_up, scenario,
}
use datadog_sample_finance.Shared.Dict.{lookup}

module _ (E : Site) where
  issue_token_total :
      (username : String) (w : World E.State) → (issue_token E username w).1.total ≡ w.total
  unfolding issue_token
  issue_token_total username w = ground arith

  request_token_total :
      (username : String) (w : World E.State) → (request_token E username w).1.total ≡ w.total
  request_token_total username w = ground (arith, issue_token_total username w)

  cached_or_new_total :
      (username : String) (o : Option Token) (w : World E.State)
      → (cached_or_new E username o w).1.total ≡ w.total
  cached_or_new_total username none w = request_token_total username w
  cached_or_new_total username (some entry) w =
      ground (arith, request_token_total username (record w { site = (E.now w.site).1 }))

  auth_header_total :
      (username : String) (w : World E.State) → (auth_header E username w).1.total ≡ w.total
  unfolding auth_header get_token
  auth_header_total username w =
      ground (arith, cached_or_new_total username (lookup username w.tokens) w)

  choose_total :
      {A : Type 0} (default : A) (xs : List A) (w : World E.State)
      → (choose E default xs w).1.total ≡ w.total
  unfolding choose
  choose_total default xs w = refl

  made_up_total :
      (ids : List Json) (w : World E.State)
      → (account_or E (choose E (str "acc-001") made_up_ids) ids w).1.total ≡ w.total
  made_up_total [] w = choose_total (str "acc-001") made_up_ids w
  made_up_total (id ∷ ids) w = choose_total id (id ∷ ids) w

  fixed_total :
      (ids : List Json) (w : World E.State)
      → (account_or E (pure (str "acc-001")) ids w).1.total ≡ w.total
  fixed_total [] w = refl
  fixed_total (id ∷ ids) w = choose_total id (id ∷ ids) w

  some_account_total : (w : World E.State) → (some_account E w).1.total ≡ w.total
  unfolding some_account
  some_account_total w = made_up_total w.account_ids w

  follow_up_total :
      (answer : ℕ × Json) (w : World E.State) → (follow_up E answer w).1.total ≡ w.total
  unfolding follow_up
  follow_up_total (status, v) w = grind (arith, http_keeps)

  -- No scenario touches the count of requests.
  pub scenario_total : (s : Scenario) (w : World E.State) → (scenario E s w).1.total ≡ w.total
  unfolding scenario
  scenario_total balance_check w =
      grind (arith, http_keeps, choose_total, some_account_total, auth_header_total)
  scenario_total payment w =
      grind
        (arith, http_keeps, choose_total, some_account_total, auth_header_total, follow_up_total)
  scenario_total account_lookup w = grind (arith, http_keeps, some_account_total)
  scenario_total health_checks w = grind (arith, http_keeps)
  scenario_total not_found w = grind (arith, http_keeps, choose_total)
  scenario_total unauthorized w = grind (arith, http_keeps, fixed_total)
  scenario_total bad_payload w = grind (arith, http_keeps, choose_total, auth_header_total)
  scenario_total batch_job w = grind (arith, http_keeps)

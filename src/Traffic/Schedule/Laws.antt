-- ===== src/Traffic/Schedule/Laws.antt =====
-- scripts/generate-traffic.py: the weights of the scenarios, and what the main loop counts.
use datadog_sample_finance.Shared.{
  List, [], ◌∷◌, ℕ, zero, suc, ◌+◌, ◌*◌, ◌≤◌, ◌<◌, ◌≡◌, refl, ◌⊎◌, true, Option, none, some, arith,
}
use datadog_sample_finance.Shared.Int.{ℤ}
use datadog_sample_finance.Python.{ok}
use datadog_sample_finance.Traffic.Client.{Site, World}
use datadog_sample_finance.Traffic.Client.Seeds.{seed_accounts_keeps}
use datadog_sample_finance.Traffic.Scenarios.{
  Scenario, balance_check, payment, account_lookup, health_checks, not_found, unauthorized,
  bad_payload, batch_job,
}
use datadog_sample_finance.Traffic.Scenarios.Laws.{scenario_total}
use datadog_sample_finance.Traffic.Schedule.{
  scenarios, total_weight, pick_from, is_over, reseed_if_due, pick_scenario, serve_one, loop,
}

-- The share of the range from 0 to 102 that selects a scenario.
abbrev pub share : Scenario → ℕ × ℕ
share balance_check = (0, 30)
share payment = (30, 55)
share account_lookup = (55, 75)
share health_checks = (75, 85)
share not_found = (85, 92)
share unauthorized = (92, 97)
share bad_payload = (97, 100)
share batch_job = (100, 102)

-- Each scenario of the list has a share as wide as its weight.
abbrev pub IsWide : List (ℕ × Scenario) → Type 0
IsWide [] = Unit
IsWide ((weight, s) ∷ rest) = let (lo, hi) = share s in (lo + weight ≡ hi) × IsWide rest

-- The shares of the scenarios, which are as wide as their weights, fill the range that
-- `random.uniform` draws from, 0 to 102; and for each number in it the scenario that is picked is
-- the one whose share holds the number, with its upper bound and (but for 0) without its lower one.
pub pick_from-share :
    (r : ℕ)
    → r ≤ total_weight scenarios * 1000000
    → let (lo, hi) = share (pick_from r 0 scenarios) in
      (total_weight scenarios ≡ 102)
      × IsWide scenarios
      × ((lo * 1000000 < r) ⊎ (r ≡ 0))
      × (r ≤ hi * 1000000)
unfolding pick_from total_weight
pick_from-share r h = ground arith

module _ (E : Site) where
  reseed_if_due_total : (w : World E.State) → (reseed_if_due E w).1.total ≡ w.total
  unfolding reseed_if_due
  reseed_if_due_total w =
      ground (arith, seed_accounts_keeps E (record w { site = (E.now w.site).1 }))

  pick_scenario_total : (w : World E.State) → (pick_scenario E w).1.total ≡ w.total
  unfolding pick_scenario
  pick_scenario_total w = ground arith

  serve_one_total :
      (delay : ℤ) (w : World E.State)
      → (serve_one E delay w).0 ≡ ok tt
      → (serve_one E delay w).1.total ≡ suc w.total
  unfolding serve_one
  serve_one_total delay w h =
      grind (arith, reseed_if_due_total, pick_scenario_total, scenario_total)

  is_over_total :
      (deadline : Option ℤ) (w : World E.State) → (is_over E deadline w).1.total ≡ w.total
  unfolding is_over
  is_over_total none w = refl
  is_over_total (some d) w = refl

  -- A loop that is still running after `n` passes has counted `n` more requests.
  pub loop_counts :
      (n : ℕ) (delay : ℤ) (deadline : Option ℤ) (w : World E.State)
      → (loop E n delay deadline w).0 ≡ ok true
      → (loop E n delay deadline w).1.total ≡ w.total + n
  unfolding loop
  loop_counts zero delay deadline w h = ground arith
  loop_counts (suc n) delay deadline w h =
      let w1 = (is_over E deadline w).1 in
      let w2 = (serve_one E delay w1).1 in
      ground
        (arith, is_over_total deadline w, serve_one_total delay w1, loop_counts n delay deadline w2)

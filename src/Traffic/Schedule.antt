-- ===== src/Traffic/Schedule.antt =====
-- scripts/generate-traffic.py, `pick_scenario` and `main`: the weighted choice of a scenario and
-- the main loop.
pub mod Laws
use datadog_sample_finance.Shared.{
  ℕ, zero, suc, ◌+◌, ◌*◌, String, Bool, true, false, ◌&&◌, not, Option, none, some, List, [], ◌∷◌,
  ltb, leb, if◌then◌else◌,
}
use datadog_sample_finance.Shared.Int.{ℤ, pos, ◌+ℤ◌, ◌-ℤ◌, ltb_ℤ}
use datadog_sample_finance.Shared.Float.{Float, finite, less, plus, negate}
use datadog_sample_finance.Python.{
  Io, Result, ok, raised, Exception, keyboard_interrupt, pure, gets, modify, try_except, ◌>>=◌,
  ◌>>◌,
}
use datadog_sample_finance.Traffic.Scenarios.{
  Scenario, balance_check, payment, account_lookup, health_checks, not_found, unauthorized,
  bad_payload, batch_job, scenario, usernames,
}
use datadog_sample_finance.Traffic.Client.{Site, World, ask, attempt, seed_accounts, get_token}

-- `SCENARIOS`
abbrev pub scenarios : List (ℕ × Scenario)
scenarios =
    (30, balance_check)
    ∷ (25, payment)
    ∷ (20, account_lookup)
    ∷ (10, health_checks)
    ∷ (7, not_found)
    ∷ (5, unauthorized)
    ∷ (3, bad_payload)
    ∷ (2, batch_job)
    ∷ []

-- `sum(_weights)`
unfoldable pub total_weight : List (ℕ × Scenario) → ℕ
total_weight [] = 0
total_weight ((w, s) ∷ rest) = w + total_weight rest

-- The loop of `pick_scenario`: `running` is the sum before the list, `r` counts millionths, and
-- the last function is the fallback.
unfoldable pub pick_from : ℕ → ℕ → List (ℕ × Scenario) → Scenario
pick_from r running [] = batch_job
pick_from r running ((w, s) ∷ rest) =
    let later = pick_from r (running + w) rest in
    if leb r ((running + w) * 1000000) then s else later

abbrev pub reseed_interval_seconds : ℕ
reseed_interval_seconds = 120

abbrev pub seconds : ℕ → ℤ
seconds n = pos (n * 1000000)

-- `max(0, delay - elapsed)`, in millionths.
abbrev pub pause : ℤ → ℤ → Float
pause delay elapsed =
    if ltb_ℤ (delay -ℤ elapsed) (pos 0) then finite (pos 0) else finite (delay -ℤ elapsed)

module _ (E : Site) where
  abbrev W : Type 0
  W = World E.State

  unfoldable pub pick_scenario : Io W Scenario
  pick_scenario = do r ← ask E (E.uniform (total_weight scenarios)); pure (pick_from r 0 scenarios)

  -- `Stats.tick`
  abbrev pub tick : Io W (Unit {0})
  tick = modify (λ w. record w { total = w.total + 1 })

  -- Whether the deadline, if there is one, is over.
  unfoldable pub is_over : Option ℤ → Io W Bool
  is_over none = pure false
  is_over (some deadline) = do now ← ask E E.now; pure (not (ltb_ℤ now deadline))

  unfoldable pub reseed_if_due : Io W (Unit {0})
  reseed_if_due = do
    now ← ask E E.now
    last ← gets (λ w. w.last_seed_time)
    if ltb_ℤ (now -ℤ last) (seconds reseed_interval_seconds) then pure tt else seed_accounts E

  -- The body of the loop behind its `break`.
  unfoldable pub serve_one : ℤ → Io W (Unit {0})
  serve_one delay = do
    reseed_if_due
    t0 ← ask E E.now
    s ← pick_scenario
    scenario E s
    tick
    t1 ← ask E E.now
    attempt E (E.sleep (pause delay (t1 -ℤ t0)))

  -- `n` passes of the loop; the result tells whether it is still running.
  unfoldable pub loop : ℕ → ℤ → Option ℤ → Io W Bool
  loop zero delay deadline = pure true
  loop (suc n) delay deadline = do
    over ← is_over deadline
    elim over [ true ↦ pure false | false ↦ serve_one delay >> loop n delay deadline ]

  unfoldable pub warm_up : List String → Io W (Unit {0})
  warm_up [] = pure tt
  warm_up (u ∷ rest) = do get_token E u; warm_up rest

  abbrev is_interrupt : Exception → Bool
  is_interrupt keyboard_interrupt = true
  is_interrupt e = false

  -- The pass of `--once` through a list of scenarios.
  unfoldable pub run_once : List (ℕ × Scenario) → Io W (Unit {0})
  run_once [] = pure tt
  run_once ((w, s) ∷ rest) = do
    scenario E s
    tick
    attempt E (E.sleep (finite (pos 300000)))
    run_once rest

  -- The deadline, where the duration is not zero.
  abbrev deadline_of : Option ℤ → Io W (Option ℤ)
  deadline_of none = pure none
  deadline_of (some duration) = do start ← ask E E.now; pure (some (start +ℤ duration))

  abbrev serve : ℕ → ℤ → Option ℤ → Io W Bool
  serve n delay deadline = try_except (loop n delay deadline) is_interrupt (λ _. pure false)

  abbrev serve_once : Io W Bool
  serve_once = do run_once scenarios; pure false

  -- `main` with its three options; the result tells whether it is still running after `n` passes.
  unfoldable pub main : ℕ → Bool → ℤ → Option ℤ → Io W Bool
  main n once delay duration = do
    warm_up usernames
    seed_accounts E
    modify (λ w. record w { total = 0 })
    deadline ← deadline_of duration
    if once then serve_once else serve n delay deadline

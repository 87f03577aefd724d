-- ===== src/Tests/Traffic.antt =====
-- The traffic generator at concrete data.
use datadog_sample_finance.Shared.{
  ℕ, ◌+◌, ◌*◌, ◌≤◌, ◌<◌, ◌≡◌, refl, ◌⊎◌, none, some, true, [], ◌∷◌, arith, String-discrete,
}
use datadog_sample_finance.Shared.Int.{pos, ◌-ℤ◌, ◌+ℤ◌}
use datadog_sample_finance.Shared.Float.{whole, less, plus, negate}
use datadog_sample_finance.Shared.Json.{get, get_or, str, obj, field, end}
use datadog_sample_finance.Shared.Dict.{lookup, insert}
use datadog_sample_finance.Python.{index, ok}
use datadog_sample_finance.Traffic.Client.{
  Site, World, auth_header, issue_token, seconds_of, http, get_token,
}
use datadog_sample_finance.Traffic.Client.Tokens.{Yields, get_token_total}
use datadog_sample_finance.Traffic.Scenarios.{
  scenario, choose, element, size, some_account, follow_up,
}
use datadog_sample_finance.Traffic.Schedule.{
  scenarios, total_weight, pick_from, loop, is_over, serve_one, reseed_if_due, pick_scenario,
}
use datadog_sample_finance.Traffic.Schedule.Laws.{IsWide, share, pick_from-share}

-- A site that answers everything with 200 and one document; random draws are all zero.
abbrev site : Site
site = record {
  State = ℕ;
  urlopen = λ c n. (
    ok (record {
      status = 200;
      announces_json = true;
      body = some (obj (field "access_token" (str "t") end));
    }),
    n + 1,
  );
  now = λ n. (pos (n * 1000000), n);
  sleep = λ s n. (ok tt, n);
  uniform = λ total n. (0, n);
  choice = λ count n. (0, n);
}

abbrev start : World ℕ
start = record {
  site = 0;
  tokens = ("alice.analyst", record { token = str "old"; expires_at = whole 50 }) ∷ [];
  account_ids = str "acc-1" ∷ [];
  last_seed_time = pos 0;
  total = 0;
}

get_token_total_example : Yields site "alice.analyst" start (get_token site "alice.analyst" start)
get_token_total_example = get_token_total site "alice.analyst" start

in_range : 31000000 ≤ total_weight scenarios * 1000000
unfolding total_weight
in_range = omega arith

pick_from-share_example :
    let (lo, hi) = share (pick_from 31000000 0 scenarios) in
    (total_weight scenarios ≡ 102)
    × IsWide scenarios
    × ((lo * 1000000 < 31000000) ⊎ (◌≡◌ {A = ℕ} 31000000 0))
    × (31000000 ≤ hi * 1000000)
pick_from-share_example = pick_from-share 31000000 in_range

still_running : (loop site 3 (pos 1000000) none start).0 ≡ ok true
unfolding loop is_over serve_one reseed_if_due pick_scenario pick_from total_weight scenario choose
    element size some_account follow_up http ◌-ℤ◌ ◌+ℤ◌ auth_header get_token lookup String-discrete
    less plus negate issue_token index get seconds_of get_or insert
still_running = refl

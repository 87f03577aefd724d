-- ===== src/Tests/Suite.antt =====
-- scripts/test-e2e.py over a site that answers by a script.
use datadog_sample_finance.Shared.{none, some, List, [], ◌∷◌, ◌≡◌, ◌≢◌, refl, ◌+◌, String-discrete}
use datadog_sample_finance.Shared.Float.{whole, less, plus, negate}
use datadog_sample_finance.Shared.Int.{◌+ℤ◌, neg}
use datadog_sample_finance.Shared.Json.{
  obj, arr, str, num, nil, cons, end, field, get, get_or, truthy,
}
use datadog_sample_finance.Shared.Dict.{lookup, insert}
use datadog_sample_finance.Python.{ok, index, to_float}
use datadog_sample_finance.Suite.{
  Answer, answered, refused, unanswered, Site, World, section, evaluate, chk, http, token,
  token_call, token_of, http_as, balance, make_account,
}
use datadog_sample_finance.Suite.Compare.{count, equal, first_with}
use datadog_sample_finance.Suite.Sections.{
  expect_status, account_section, deposit_section, transfer_section,
}
use datadog_sample_finance.Suite.Payments.{payment_section, admin_balance, validation_section}
use datadog_sample_finance.Suite.Run.{
  attempts, check_services, preflight, authenticate, authenticate_all, auth_section, run_sections,
  main,
}
use datadog_sample_finance.Suite.Verdict.{Verdict, main-Verdict}
use datadog_sample_finance.Suite.Missing.{run_sections_needs_alice}
use datadog_sample_finance.Suite.Down.{main_down}

abbrev next_answer : List Answer → Answer × List Answer
next_answer [] = (unanswered "refused", [])
next_answer (answer ∷ answers) = (answer, answers)

-- The answers of a stack that does what the script expects.
abbrev good_answers : List Answer
good_answers =
    answered 200 none
    ∷ answered 200 none
    ∷ answered 200 none
    ∷ answered 200 none
    ∷ answered 200 none
    ∷ answered 200 (some (obj (field "access_token" (str "t") end)))
    ∷ answered 200 (some (obj (field "access_token" (str "t") end)))
    ∷ answered 200 (some (obj (field "access_token" (str "t") end)))
    ∷ answered 200 (some (obj (field "access_token" (str "t") end)))
    ∷ answered 200 (some (obj (field "access_token" (str "t") end)))
    ∷ answered 201 (some (obj (field "id" (str "a") end)))
    ∷ answered 200 (
        some (arr (cons (obj (field "id" (str "a") (field "balance" (num (whole 5000)) end))) nil)))
    ∷ answered 200 (some (obj (field "balance" (num (whole 5000)) end)))
    ∷ answered 200 (some (obj (field "balance" (num (whole 8000)) end)))
    ∷ refused 403 none
    ∷ refused 403 none
    ∷ answered 201 (some (obj (field "id" (str "s") end)))
    ∷ answered 201 (some (obj (field "id" (str "d") end)))
    ∷ answered 201 (some (obj (field "status" (str "completed") end)))
    ∷ answered 200 (some (obj (field "balance" (num (whole 6000)) end)))
    ∷ answered 200 (some (obj (field "balance" (num (whole 6000)) end)))
    ∷ answered 201 (some (obj (field "status" (str "completed") end)))
    ∷ refused 400 none
    ∷ refused 403 none
    ∷ refused 403 none
    ∷ answered 201 (some (obj (field "id" (str "p") end)))
    ∷ refused 401 none
    ∷ refused 403 none
    ∷ refused 403 none
    ∷ answered 201 (some (obj (field "status" (str "pending") (field "payment_id" (str "x") end))))
    ∷ answered 201 (some (obj (field "status" (str "pending") end)))
    ∷ answered 200 (some (arr (cons (obj (field "payment_id" (str "x") end)) nil)))
    ∷ answered 200 (some (obj (field "balance" (num (whole 20000)) end)))
    ∷ refused 403 none
    ∷ refused 403 none
    ∷ answered 200 (some (obj (field "status" (str "approved") end)))
    ∷ answered 200 (some (obj (field "balance" (num (whole 17500)) end)))
    ∷ answered 201 (some (obj (field "payment_id" (str "y") end)))
    ∷ answered 200 (some (obj (field "status" (str "rejected") end)))
    ∷ answered 200 (some (obj (field "balance" (num (whole 17500)) end)))
    ∷ answered 201 (some (obj (field "payment_id" (str "z") end)))
    ∷ answered 200 (some (obj (field "status" (str "flagged") end)))
    ∷ refused 422 none
    ∷ []

abbrev scripted : Site
scripted = record {
  State = List Answer;
  urlopen = λ call answers. next_answer answers;
  sleep = λ answers. (ok tt, answers);
  parse_float = λ s. none;
}

abbrev start : List Answer → World (List Answer)
start answers = record { site = answers; passed = 0; failed = 0; section_title = ""; tokens = [] }

main_passes : (main scripted (start good_answers)).0 ≡ ok 0
unfolding main preflight check_services attempts section chk http auth_section authenticate_all
    authenticate token token_call run_sections account_section deposit_section transfer_section
    payment_section validation_section expect_status http_as token_of balance make_account
    admin_balance evaluate index get get_or truthy lookup insert equal first_with less plus negate
    ◌+ℤ◌ neg String-discrete to_float count
main_passes = refl

main-Verdict_example : Verdict (main scripted (start good_answers)).1 0
main-Verdict_example = main-Verdict scripted (start good_answers) 0 refl refl main_passes

run_sections_needs_alice_example : (run_sections scripted (start good_answers)).0 ≢ ok 0
unfolding lookup
run_sections_needs_alice_example = run_sections_needs_alice scripted (start good_answers) 0 refl

abbrev silent : Site
silent = record {
  State = Unit {0};
  urlopen = λ call s. (unanswered "refused", s);
  sleep = λ s. (ok tt, s);
  parse_float = λ s. none;
}

abbrev begin : World (Unit {0})
begin = record { site = tt; passed = 0; failed = 0; section_title = ""; tokens = [] }

main_down_example :
    ((main silent begin).0 ≡ ok 1)
    × ((main silent begin).1.passed ≡ begin.passed)
    × ((main silent begin).1.failed ≡ begin.failed + 1)
main_down_example = main_down silent (λ call s. ("refused", refl)) (λ s. refl) begin

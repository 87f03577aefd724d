-- ===== src/Suite/Missing.antt =====
-- A token of scripts/test-e2e.py that main does not ask for.
use datadog_sample_finance.Shared.{
  ℕ, String, ◌≡◌, ◌≢◌, ap, sym, ◌∙◌, Option, none, some, List, eqb, if◌then◌else◌, arith,
}
use datadog_sample_finance.Shared.Json.{Json}
use datadog_sample_finance.Shared.Dict.{lookup}
use datadog_sample_finance.Python.{Io, ok, gets, pure, ◌>>=◌}
use datadog_sample_finance.Suite.{Site, World, chk, http, token_of, http_as, request}
use datadog_sample_finance.Suite.Sections.{transfer_section, expect_status}
use datadog_sample_finance.Suite.Counts.{
  Counts, counts, bind_lem, evaluate-Counts, chk-Counts, section-Counts, http_as-Counts,
  token_of-Counts, balance-Counts, make_account-Counts, expect_status-Counts,
}
use datadog_sample_finance.Suite.Counts.Sections.{account_section-Counts, deposit_section-Counts}
use datadog_sample_finance.Suite.Payments.{payment_section, validation_section}
use datadog_sample_finance.Suite.Run.{run_sections}

-- A step that never ends without an exception where a user has no token.
data Never {S A : Type 0} (u : String) : Io (World S) A → Type 0 where
  never :
      {m : Io (World S) A}
      → ((w : World S) (a : A) → lookup u w.tokens ≡ none → (m w).0 ≡ ok a → ⊥)
      → Never u m

stopped :
    {S A : Type 0} {u : String} {m : Io (World S) A}
    → Never u m
    → (w : World S) (a : A) → lookup u w.tokens ≡ none
    → (m w).0 ≡ ok a
    → ⊥
stopped (never f) = f

-- A step before it that keeps the tokens changes nothing.
passing :
    {S A B : Type 0} {u : String} {m : Io (World S) A} {k : A → Io (World S) B} {n : ℕ}
    → Counts m n
    → ((a : A) → Never u (k a))
    → Never u (m >>= k)
passing {u} {m} {k} (counts f) g = never λ w b none_yet h.
    let (a, e, q) = bind_lem m k w b h in
    let (_, _, t) = f w a e in
    stopped (g a) (m w).1 b (ap (lookup u) t ∙ none_yet) (ap (λ r. r.0) (sym q) ∙ h)

stopping :
    {S A B : Type 0} {u : String} {m : Io (World S) A} (k : A → Io (World S) B)
    → Never u m
    → Never u (m >>= k)
stopping {m} k (never f) =
    never λ w b none_yet h. let (a, e, q) = bind_lem m k w b h in f w a none_yet e

module _ (E : Site) where
  token_of-Never : (u : String) → Never u (token_of E u)
  unfolding token_of
  token_of-Never u = never λ w a none_yet h. ground (arith, none_yet, h)

  http_as-Never :
      (u v : String) (path : List Json) (body : Option Json) → Never u (http_as E u v path body)
  unfolding http_as
  http_as-Never u v path body =
      stopping (λ tok. http E (request v path body (some tok))) (token_of-Never u)

  expect_status-Never :
      (l : String) (i : ℕ) (u v : String) (path : List Json) (body : Option Json)
      → Never u (expect_status E l i u v path body)
  unfolding expect_status
  expect_status-Never l i u v path body =
      stopping (λ r. chk E l (eqb r.0 i)) (http_as-Never u v path body)

  transfer_section-Never : Never "alice.analyst" (transfer_section E)
  unfolding transfer_section
  transfer_section-Never = passing (section-Counts E _) λ _.
      passing (make_account-Counts E _ _ _) λ _. passing (make_account-Counts E _ _ _) λ _.
        passing (http_as-Counts E _ _ _ _) λ _. passing (evaluate-Counts _) λ _.
          passing (evaluate-Counts _) λ _. passing (chk-Counts E _ _) λ _.
            passing (token_of-Counts E _) λ _. passing (balance-Counts E _ _) λ _.
              passing (token_of-Counts E _) λ _. passing (balance-Counts E _ _) λ _.
                passing (chk-Counts E _ _) λ _. passing (chk-Counts E _ _) λ _.
                  passing (http_as-Counts E _ _ _ _) λ _. passing (evaluate-Counts _) λ _.
                    passing (chk-Counts E _ _) λ _.
                      passing (expect_status-Counts E _ _ _ _ _ _) λ _.
                        passing (expect_status-Counts E _ _ _ _ _ _)
                          λ _. expect_status-Never _ _ "alice.analyst" _ _ _

  -- The sections, which main starts as soon as it has the tokens of bob, carol and eve, never come to
  -- an exit code without the token of alice: an exception ends the script, and there is no summary.
  pub run_sections_needs_alice :
      (w : World E.State) (code : ℕ)
      → lookup "alice.analyst" w.tokens ≡ none
      → (run_sections E w).0 ≢ ok code
  unfolding run_sections
  run_sections_needs_alice w code none_yet h =
      let all : Never "alice.analyst" (run_sections E) = passing (account_section-Counts E) λ _.
        passing (deposit_section-Counts E _) λ _.
          stopping
            (λ _. payment_section E >>= λ r. validation_section E r.0 r.1 >>= λ _.
              gets (λ w. w.failed) >>= λ failed. pure (if eqb failed 0 then 0 else 1))
            transfer_section-Never in
      stopped all w code none_yet h

-- ===== src/Suite/Counts/Sections.antt =====
-- How many checks each section of scripts/test-e2e.py makes.
use datadog_sample_finance.Shared.{ℕ, suc, String, Bool, Option, List}
use datadog_sample_finance.Shared.Float.{Float}
use datadog_sample_finance.Shared.Json.{Json}
use datadog_sample_finance.Python.{Io, Result, ◌>>=◌}
use datadog_sample_finance.Suite.{
  Call, Site, World, section, evaluate, chk, http, balance, make_account, token_of, http_as,
}
use datadog_sample_finance.Suite.Sections.{
  account_section, deposit_section, transfer_section, expect_status,
}
use datadog_sample_finance.Suite.Payments.{payment_section, validation_section, admin_balance}
use datadog_sample_finance.Suite.Counts.{
  Counts, bind_free, bind_check, pure-Counts, evaluate-Counts, chk-Counts, section-Counts,
  http-Counts, token_of-Counts, http_as-Counts, balance-Counts, make_account-Counts,
  expect_status-Counts, admin_balance-Counts,
}

module _ (E : Site) where
  -- The rules by which a section is read step by step.
  after_section :
      {B : Type 0} (title : String) {k : Unit {0} → Io (World E.State) B} {n : ℕ}
      → ((a : Unit {0}) → Counts (k a) n)
      → Counts (section E title >>= k) n
  after_section title g = bind_free (section-Counts E title) g

  after_http :
      {B : Type 0} (call : Call) {k : (ℕ × Json) → Io (World E.State) B} {n : ℕ}
      → ((a : (ℕ × Json)) → Counts (k a) n)
      → Counts (http E call >>= k) n
  after_http call g = bind_free (http-Counts E call) g

  after_http_as :
      {B : Type 0} (u v : String) (path : List Json) (body : Option Json)
      {k : (ℕ × Json) → Io (World E.State) B} {n : ℕ}
      → ((a : (ℕ × Json)) → Counts (k a) n)
      → Counts (http_as E u v path body >>= k) n
  after_http_as u v path body g = bind_free (http_as-Counts E u v path body) g

  after_token :
      {B : Type 0} (u : String) {k : Json → Io (World E.State) B} {n : ℕ}
      → ((a : Json) → Counts (k a) n)
      → Counts (token_of E u >>= k) n
  after_token u g = bind_free (token_of-Counts E u) g

  after_balance :
      {B : Type 0} (tok id : Json) {k : Float → Io (World E.State) B} {n : ℕ}
      → ((a : Float) → Counts (k a) n)
      → Counts (balance E tok id >>= k) n
  after_balance tok id g = bind_free (balance-Counts E tok id) g

  after_admin :
      {B : Type 0} (id : Json) {k : Float → Io (World E.State) B} {n : ℕ}
      → ((a : Float) → Counts (k a) n)
      → Counts (admin_balance E id >>= k) n
  after_admin id g = bind_free (admin_balance-Counts E id) g

  after_account :
      {B : Type 0} (c t : String) (i : ℕ) {k : Json → Io (World E.State) B} {n : ℕ}
      → ((a : Json) → Counts (k a) n)
      → Counts (make_account E c t i >>= k) n
  after_account c t i g = bind_free (make_account-Counts E c t i) g

  after_expect :
      {B : Type 0} (l : String) (i : ℕ) (u v : String) (path : List Json) (body : Option Json)
      {k : Bool → Io (World E.State) B} {n : ℕ}
      → ((a : Bool) → Counts (k a) n)
      → Counts (expect_status E l i u v path body >>= k) (suc n)
  after_expect l i u v path body g = bind_check (expect_status-Counts E l i u v path body) g

  after_chk :
      {B : Type 0} (l : String) (b : Bool) {k : Bool → Io (World E.State) B} {n : ℕ}
      → ((a : Bool) → Counts (k a) n)
      → Counts (chk E l b >>= k) (suc n)
  after_chk l b g = bind_check (chk-Counts E l b) g

  after_evaluate :
      {A B : Type 0} (r : Result A) {k : A → Io (World E.State) B} {n : ℕ}
      → ((a : A) → Counts (k a) n)
      → Counts (evaluate r >>= k) n
  after_evaluate r g = bind_free (evaluate-Counts r) g

  pub account_section-Counts : Counts (account_section E) 3
  unfolding account_section
  account_section-Counts = after_section _ λ _. after_http _ λ _. after_evaluate _ λ _.
      after_chk _ _ λ _. after_http _ λ _. after_evaluate _ λ _. after_evaluate _ λ _.
        after_evaluate _ λ _.
          after_chk _ _
            λ _. after_http_as _ _ _ _ λ _. after_evaluate _ λ _. after_chk _ _ λ _. pure-Counts _

  pub deposit_section-Counts : (id : Json) → Counts (deposit_section E id) 3
  unfolding deposit_section
  deposit_section-Counts id = after_section _ λ _. after_http_as _ _ _ _ λ _. after_evaluate _ λ _.
      after_evaluate _ λ _.
        after_chk _ _ λ _. after_expect _ _ _ _ _ _ λ _. after_expect _ _ _ _ _ _ λ _. pure-Counts _

  pub transfer_section-Counts : Counts (transfer_section E) 7
  unfolding transfer_section
  transfer_section-Counts = after_section _ λ _. after_account _ _ _ λ _. after_account _ _ _ λ _.
      after_http_as _ _ _ _ λ _. after_evaluate _ λ _. after_evaluate _ λ _. after_chk _ _ λ _.
        after_token _ λ _. after_balance _ _ λ _. after_token _ λ _. after_balance _ _ λ _.
          after_chk _ _ λ _. after_chk _ _ λ _. after_http_as _ _ _ _ λ _. after_evaluate _ λ _.
            after_chk _ _ λ _.
              after_expect _ _ _ _ _ _
                λ _. after_expect _ _ _ _ _ _ λ _. expect_status-Counts E _ _ _ _ _ _

  pub payment_section-Counts : Counts (payment_section E) 6
  unfolding payment_section
  payment_section-Counts = after_section _ λ _. after_account _ _ _ λ _. after_http _ λ _.
      after_chk _ _ λ _. after_expect _ _ _ _ _ _ λ _. after_expect _ _ _ _ _ _ λ _.
        after_http_as _ _ _ _ λ _. after_evaluate _ λ _. after_evaluate _ λ _. after_chk _ _ λ _.
          after_http_as _ _ _ _ λ _. after_evaluate _ λ _.
            after_chk _ _
              λ _. after_http_as _ _ _ _ λ _. after_evaluate _ λ _. after_chk _ _ λ _. pure-Counts _

  pub validation_section-Counts : (id pid : Json) → Counts (validation_section E id pid) 8
  unfolding validation_section
  validation_section-Counts id pid = after_section _ λ _. after_admin _ λ _.
      after_expect _ _ _ _ _ _ λ _. after_expect _ _ _ _ _ _ λ _. after_http_as _ _ _ _ λ _.
        after_evaluate _ λ _. after_evaluate _ λ _. after_chk _ _ λ _. after_admin _ λ _.
          after_chk _ _ λ _. after_http_as _ _ _ _ λ _. after_evaluate _ λ _.
            after_expect _ _ _ _ _ _ λ _. after_admin _ λ _. after_chk _ _ λ _.
              after_http_as _ _ _ _ λ _. after_evaluate _ λ _. after_http_as _ _ _ _ λ _.
                after_evaluate _ λ _. after_chk _ _ λ _. after_http_as _ _ _ _ λ _. chk-Counts E _ _

-- ===== src/Suite/Verdict.antt =====
-- The exit code of scripts/test-e2e.py and the checks behind it.
use datadog_sample_finance.Shared.{
  ℕ, ◌+◌, ◌≤◌, ◌≡◌, ◌⊎◌, refl, ap, sym, ◌∙◌, subst, Bool, true, false, not, ◌&&◌, eqb,
  if◌then◌else◌, arith, Bool-cases, inl, inr,
}
use datadog_sample_finance.Shared.Json.{Json}
use datadog_sample_finance.Shared.Dict.{Dict}
use datadog_sample_finance.Python.{Io, ok, pure, gets, ◌>>=◌}
use datadog_sample_finance.Suite.{Site, World, section}
use datadog_sample_finance.Suite.Counts.{Grown, Counts, counts, bind_lem}
use datadog_sample_finance.Suite.Counts.Sections.{
  account_section-Counts, deposit_section-Counts, transfer_section-Counts, payment_section-Counts,
  validation_section-Counts,
}
use datadog_sample_finance.Suite.Run.{
  services, users, has_token, preflight, auth_section, run_sections, main,
}
use datadog_sample_finance.Suite.Health.{length, Healthy, Checked, check_services-Healthy}
use datadog_sample_finance.Suite.Tokens.{users_in, all_have, SignedAll, authenticate_all-SignedAll}

-- The exit code for the failures that were counted.
abbrev code_for : ℕ → ℕ
code_for failed = if eqb failed 0 then 0 else 1

-- The verdict of a run: 0 after all 37 checks and no failure, or 1 after a failure.
abbrev pub Verdict : {S : Type 0} → World S → ℕ → Type 0
Verdict w code = ((code ≡ 0) × (w.failed ≡ 0) × (w.passed ≡ 37)) ⊎ ((code ≡ 1) × (1 ≤ w.failed))

module _ {S : Type 0} where
  -- A step that makes `n` checks, and whose exit code then tells whether one has failed.
  data Judges : Io (World S) ℕ → ℕ → Type 0 where
    judges :
        {m : Io (World S) ℕ} {n : ℕ}
        → ((w : World S) (code : ℕ)
            → (m w).0 ≡ ok code
            → (Grown w (m w).1 n) × (code ≡ code_for (m w).1.failed))
        → Judges m n

  judged :
      {m : Io (World S) ℕ} {n : ℕ}
      → Judges m n
      → (w : World S) (code : ℕ) → (m w).0 ≡ ok code
      → (Grown w (m w).1 n) × (code ≡ code_for (m w).1.failed)
  judged (judges f) = f

  judge :
      {A : Type 0} {m : Io (World S) A} {k : A → Io (World S) ℕ} {i n : ℕ}
      → Counts m i
      → ((a : A) → Judges (k a) n)
      → Judges (m >>= k) (i + n)
  judge {m} {k} {i} {n} (counts f) g = judges λ w b h.
      let (a, e, q) = bind_lem m k w b h in
      let (s, l, t) = f w a e in
      let ((s', l', t'), c) = judged (g a) (m w).1 b (ap (λ r. r.0) (sym q) ∙ h) in
      subst (λ r. (Grown w r.1 (i + n)) × (b ≡ code_for r.1.failed)) (sym q)
        ((omega (arith, s, l, s', l'), omega (arith, s, l, s', l'), t' ∙ t), c)

module _ (E : Site) where
  last_step :
      Judges {S = E.State}
        (gets (λ w. w.failed) >>= λ failed. pure (if eqb failed 0 then 0 else 1))
        0
  last_step = judges λ w code h. ((omega arith, omega arith, refl), ground (arith, h))

  run_sections-Judges : Judges (run_sections E) 27
  unfolding run_sections
  run_sections-Judges = judge (account_section-Counts E) λ acc1.
      judge (deposit_section-Counts E acc1) λ _. judge (transfer_section-Counts E) λ _.
        judge (payment_section-Counts E)
          λ r. judge (validation_section-Counts E r.0 r.1) λ _. last_step

  -- The rest of main, after the tokens were asked for.
  with_tokens : Bool → Io (World E.State) ℕ
  with_tokens ready = if not ready then pure 1 else run_sections E

  ready : Dict Json → Bool
  ready tokens =
      has_token "bob.trader" tokens
      && (has_token "carol.admin" tokens && has_token "eve.compliance" tokens)

  all_have-ready : (d : Dict Json) → all_have users d ≡ true → ready d ≡ true
  unfolding all_have ready
  all_have-ready d h = ground (arith, h)

  with_tokens-Verdict :
      (r : Bool) (w : World E.State) (code : ℕ)
      → w.passed + w.failed ≡ 10
      → (1 ≤ w.failed) ⊎ (r ≡ true)
      → (with_tokens r w).0 ≡ ok code
      → Verdict (with_tokens r w).1 code
  unfolding with_tokens
  with_tokens-Verdict false w code s d h =
      inr (ground (arith, h), elim d [ inl x ↦ x | inr y ↦ ground (arith, y) ])
  with_tokens-Verdict true w code s d h =
      let ((s', l', t'), c) = judged run_sections-Judges w code h in
      elim (Bool-cases (eqb (run_sections E w).1.failed 0)) [
        | inl e ↦
            let z : (run_sections E w).1.failed ≡ 0 = ground (arith, e) in
            inl (ground (arith, c, e), z, omega (arith, s, s', z))
        | inr e ↦ inr (ground (arith, c, e), ground (arith, e))
      ]

  -- The rest of main, after preflight.
  pub after_preflight : Bool → Io (World E.State) ℕ
  after_preflight healthy =
      if not healthy
      then pure 1
      else (auth_section E >>= λ _. gets (λ w. w.tokens) >>= λ tokens. with_tokens (ready tokens))

  pub after_preflight_failed : (w : World E.State) → after_preflight false w ≡ (ok 1, w)
  unfolding after_preflight
  after_preflight_failed w = refl

  pub main_is : (w : World E.State) → main E w ≡ (preflight E >>= after_preflight) w
  unfolding main after_preflight with_tokens ready
  main_is w = refl

  auth_section-SignedAll :
      (w : World E.State) (t : Unit {0})
      → (auth_section E w).0 ≡ ok t
      → SignedAll E users w (auth_section E w).1
  unfolding auth_section section SignedAll
  auth_section-SignedAll w t h =
      authenticate_all-SignedAll E users
        (record w { section_title = "Authentication: all Keycloak users" }) t h

  after_preflight-Verdict :
      (healthy : Bool) (w0 w : World E.State) (code : ℕ)
      → w0.passed ≡ 0
      → w0.failed ≡ 0
      → Healthy E services w0 w healthy
      → (after_preflight healthy w).0 ≡ ok code
      → Verdict (after_preflight healthy w).1 code
  unfolding after_preflight Healthy length SignedAll users_in
  after_preflight-Verdict false w0 w code p f g h = inr (ground (arith, h), omega (arith, f, g))
  after_preflight-Verdict true w0 w code p f (s, l, u) h =
      let k : Unit {0} → Io (World E.State) ℕ =
        λ _. gets (λ w. w.tokens) >>= λ tokens. with_tokens (ready tokens) in
      let (t, e, q) = bind_lem (auth_section E) k w code h in
      let w2 : World E.State = (auth_section E w).1 in
      let (s', l', d, _) = auth_section-SignedAll w t e in
      subst (λ r. Verdict r.1 code) (sym q)
        (with_tokens-Verdict (ready w2.tokens) w2 code (ground (arith, p, f, s, s'))
          (elim d [ inl x ↦ inl (omega (arith, x)) | inr y ↦ inr (all_have-ready w2.tokens y) ])
          (ap (λ r. r.0) (sym q) ∙ h))

  preflight-Healthy :
      (w : World E.State) (b : Bool)
      → (preflight E w).0 ≡ ok b
      → Healthy E services w (preflight E w).1 b
  unfolding preflight section Healthy Checked
  preflight-Healthy w true h =
      check_services-Healthy E services (record w { section_title = "Pre-flight: service health" })
        true h
  preflight-Healthy w false h =
      check_services-Healthy E services (record w { section_title = "Pre-flight: service health" })
        false h

  -- A run that starts with the counters at zero and ends with an exit code has exit code 0 exactly
  -- when all 37 checks were made and passed. Exit code 1 stands for at least one check that failed,
  -- also where main leaves early because a service is down or a token is missing.
  pub main-Verdict :
      (w : World E.State) (code : ℕ)
      → w.passed ≡ 0
      → w.failed ≡ 0
      → (main E w).0 ≡ ok code
      → Verdict (main E w).1 code
  main-Verdict w code p f h =
      let (b, e, q) =
        bind_lem (preflight E) after_preflight w code (ap (λ r. r.0) (sym (main_is w)) ∙ h) in
      subst (λ r. Verdict r.1 code) (sym (main_is w ∙ q))
        (after_preflight-Verdict b w (preflight E w).1 code p f (preflight-Healthy w b e)
          (ap (λ r. r.0) (sym (main_is w ∙ q)) ∙ h))

-- ===== src/Suite/Health.antt =====
-- What the loop over the services of scripts/test-e2e.py counts.
use datadog_sample_finance.Shared.{
  ℕ, suc, zero, ◌+◌, ◌≤◌, ◌≡◌, refl, ap, sym, ◌∙◌, subst, Bool, true, false, List, [], ◌∷◌, eqb,
  if◌then◌else◌, arith,
}
use datadog_sample_finance.Python.{Io, ok, pure, ◌>>=◌}
use datadog_sample_finance.Suite.{Call, Site, World, chk}
use datadog_sample_finance.Suite.Counts.{
  Grown, Counts, after, bind_lem, bind_free, free, either, pure-Counts, http-Counts,
}
use datadog_sample_finance.Suite.Run.{sleep, attempts, check_services}

unfoldable pub length : List Call → ℕ
length [] = 0
length (c ∷ cs) = suc (length cs)

module _ (E : Site) where
  pub attempts-Counts : (n : ℕ) (call : Call) → Counts (attempts E n call) 0
  unfolding attempts
  attempts-Counts zero call = bind_free (http-Counts E call) (λ r. pure-Counts _)
  attempts-Counts (suc n) call = bind_free (http-Counts E call) (λ r.
      either (eqb r.0 200) (pure-Counts _)
        (bind_free {m = sleep E} (free (λ w. (refl, refl, refl))) (λ _. attempts-Counts n call)))

  -- A loop over the services that finds them all healthy has checked each; one that does not has
  -- counted a failure.
  unfoldable pub Healthy : List Call → World E.State → World E.State → Bool → Type 0
  Healthy calls w w' true = Grown w w' (length calls)
  Healthy calls w w' false = suc w.failed ≤ w'.failed

  go_on : List Call → Bool → Io (World E.State) Bool
  go_on calls healthy = if healthy then check_services E calls else pure false

  unfoldable pub Checked : List Call → Type 0
  Checked calls =
      (w : World E.State) (b : Bool)
      → (check_services E calls w).0 ≡ ok b
      → Healthy calls w (check_services E calls w).1 b

  one_more :
      (call : Call) (calls : List Call) (w w1 : World E.State) (b : Bool)
      → w1.passed ≡ w.passed + 1
      → w1.failed ≡ w.failed
      → w1.tokens ≡ w.tokens
      → (w' : World E.State) → Healthy calls w1 w' b
      → Healthy (call ∷ calls) w w' b
  unfolding Healthy length
  one_more call calls w w1 true p f t w' (s, l, u) =
      (omega (arith, p, f, s), omega (arith, f, l), u ∙ t)
  one_more call calls w w1 false p f t w' l = omega (arith, f, l)

  moved :
      (calls : List Call) (w w1 : World E.State) (b : Bool)
      → Grown w w1 0
      → (w' : World E.State) → Healthy calls w1 w' b
      → Healthy calls w w' b
  unfolding Healthy
  moved calls w w1 true (s, l, t) w' (s', l', t') =
      (omega (arith, s, s'), omega (arith, l, l'), t' ∙ t)
  moved calls w w1 false (s, l, t) w' l' = omega (arith, l, l')

  Checked-one :
      (call : Call) (calls : List Call)
      → Checked calls
      → (c : Bool) (w : World E.State) (b : Bool)
      → ((chk E "service health" c >>= go_on calls) w).0 ≡ ok b
      → Healthy (call ∷ calls) w ((chk E "service health" c >>= go_on calls) w).1 b
  unfolding chk go_on Checked Healthy
  Checked-one call calls ih true w b h =
      one_more call calls w (record w { passed = w.passed + 1 }) b refl refl refl
        (check_services E calls (record w { passed = w.passed + 1 })).1
        (ih (record w { passed = w.passed + 1 }) b h)
  Checked-one call calls ih false w true h = ground arith
  Checked-one call calls ih false w false h = omega arith

  pub check_services-Healthy : (calls : List Call) → Checked calls
  unfolding check_services Checked go_on Healthy length
  check_services-Healthy [] w true h = (omega arith, omega arith, refl)
  check_services-Healthy [] w false h = ground arith
  check_services-Healthy (call ∷ calls) w b h =
      let k : ℕ → Io (World E.State) Bool =
        λ status. chk E "service health" (eqb status 200) >>= go_on calls in
      let (status, e, q) = bind_lem (attempts E 2 call) k w b h in
      let w1 : World E.State = (attempts E 2 call w).1 in
      subst (λ r. Healthy (call ∷ calls) w r.1 b) (sym q)
        (moved (call ∷ calls) w w1 b (after (attempts-Counts 2 call) w status e)
          ((chk E "service health" (eqb status 200) >>= go_on calls) w1).1
          (Checked-one call calls (check_services-Healthy calls) (eqb status 200) w1 b
            (ap (λ r. r.0) (sym q) ∙ h)))

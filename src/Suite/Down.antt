-- ===== src/Suite/Down.antt =====
-- What scripts/test-e2e.py does when nothing answers.
use datadog_sample_finance.Shared.{
  ℕ, suc, zero, ◌+◌, String, ◌≡◌, refl, ap, sym, ◌∙◌, subst, List, ◌∷◌, false, eqb, if◌then◌else◌,
  arith,
}
use datadog_sample_finance.Shared.Json.{Json, str, obj, field, end}
use datadog_sample_finance.Python.{Io, Result, ok, raised, pure, ◌>>=◌}
use datadog_sample_finance.Suite.{Call, Site, World, unanswered, section, chk, http}
use datadog_sample_finance.Suite.Verdict.{after_preflight, after_preflight_failed, main_is}
use datadog_sample_finance.Suite.Run.{sleep, attempts, check_services, preflight, main}

module _ (E : Site)
    (down : (call : Call) (s : E.State)
      → (message : String) × ((E.urlopen call s).0 ≡ unanswered message))
    (awake : (s : E.State) → (E.sleep s).0 ≡ ok tt) where
  -- A run that ends with `a`, with `n` more failures and no check that passed.
  Left : {A : Type 0} → World E.State → Result A × World E.State → A → ℕ → Type 0
  Left w r a n = (r.0 ≡ ok a) × (r.1.passed ≡ w.passed) × (r.1.failed ≡ w.failed + n)

  then_Left :
      {A B : Type 0} (m : Io (World E.State) A) (k : A → Io (World E.State) B) (w : World E.State)
      (a : A) (b : B) (i n : ℕ)
      → Left w (m w) a i
      → Left (m w).1 (k a (m w).1) b n
      → Left w ((m >>= k) w) b (i + n)
  unfolding Left
  then_Left {A} {B} m k w a b i n (e, p, f) (e', p', f') =
      let next : Result A → Result B × World E.State =
        λ r. elim r [ ok x ↦ k x (m w).1 | raised x ↦ (raised x, (m w).1) ] in
      let q : (m >>= k) w ≡ k a (m w).1 = ap next e in
      (
        ap (λ r. r.0) q ∙ e',
        ap (λ r. r.1.passed) q ∙ p' ∙ p,
        ap (λ r. r.1.failed) q ∙ f' ∙ ground (arith, f),
      )

  http-Left : (call : Call) (w : World E.State) → (body : Json) × Left w (http E call w) (0, body) 0
  unfolding http Left
  http-Left call w =
      let (message, e) = down call w.site in
      (obj (field "_error" (str message) end), (ground (arith, e), refl, ground arith))

  sleep-Left : (w : World E.State) → Left w (sleep E w) tt 0
  unfolding Left
  sleep-Left w = (awake w.site, refl, ground arith)

  attempts-Left : (n : ℕ) (call : Call) (w : World E.State) → Left w (attempts E n call w) 0 0
  unfolding attempts Left
  attempts-Left zero call w =
      let (body, l) = http-Left call w in
      then_Left (http E call) (λ r. pure r.0) w (0, body) 0 0 0 l (refl, refl, ground arith)
  attempts-Left (suc n) call w =
      let (body, l) = http-Left call w in
      let rest : Io (World E.State) ℕ = sleep E >>= λ _. attempts E n call in
      let w1 : World E.State = (http E call w).1 in
      then_Left (http E call) (λ r. if eqb r.0 200 then pure r.0 else rest) w (0, body) 0 0 0 l
        (then_Left (sleep E) (λ _. attempts E n call) w1 tt 0 0 0 (sleep-Left w1)
          (attempts-Left n call (sleep E w1).1))

  check_services-Left :
      (call : Call) (calls : List Call) (w : World E.State)
      → Left w (check_services E (call ∷ calls) w) false 1
  unfolding check_services chk Left
  check_services-Left call calls w =
      then_Left (attempts E 2 call)
        (λ status. chk E "service health" (eqb status 200) >>= λ healthy.
          if healthy then check_services E calls else pure false)
        w 0 false 0 1 (attempts-Left 2 call w) (refl, refl, refl)

  preflight-Left : (w : World E.State) → Left w (preflight E w) false 1
  unfolding preflight section Left
  preflight-Left w =
      check_services-Left _ _ (record w { section_title = "Pre-flight: service health" })

  -- When no request is answered, not by an error status either, and no pause is interrupted, main
  -- ends with exit code 1 and without an exception: one more check has failed, and no more have
  -- passed.
  pub main_down :
      (w : World E.State)
      → ((main E w).0 ≡ ok 1)
        × ((main E w).1.passed ≡ w.passed)
        × ((main E w).1.failed ≡ w.failed + 1)
  unfolding Left
  main_down w =
      subst (λ r. (r.0 ≡ ok 1) × (r.1.passed ≡ w.passed) × (r.1.failed ≡ w.failed + 1))
        (sym (main_is E w))
        (then_Left (preflight E) (after_preflight E) w false 1 1 0 (preflight-Left w) (
          subst (λ r. Left (preflight E w).1 r 1 0)
            (sym (after_preflight_failed E (preflight E w).1)) (refl, refl, ground arith)))

-- ===== src/Suite/Counts.antt =====
-- How many checks of scripts/test-e2e.py a step makes.
pub mod Sections
use datadog_sample_finance.Shared.{
  ℕ, suc, zero, ◌+◌, ◌≤◌, String, ◌≡◌, refl, ap, sym, ◌∙◌, subst, Bool, true, false, not, ◌&&◌,
  ◌||◌, Option, none, some, List, [], ◌∷◌, eqb, ◌==◌, if◌then◌else◌, arith, Bool-cases, inl, inr,
}
use datadog_sample_finance.Shared.Float.{Float}
use datadog_sample_finance.Shared.Json.{Json, str, truthy}
use datadog_sample_finance.Shared.Dict.{Dict, lookup, insert}
use datadog_sample_finance.Python.{
  Io, Result, ok, raised, Exception, keyboard_interrupt, pure, gets, modify, lift, or_raise,
  try_except, raise, ◌>>=◌, ◌>>◌, Result-cases,
}
use datadog_sample_finance.Suite.{
  Host, Call, Site, World, section, evaluate, chk, http, token, balance, make_account, token_of,
  http_as,
}
use datadog_sample_finance.Suite.Sections.{
  account_section, deposit_section, transfer_section, expect_status,
}
use datadog_sample_finance.Suite.Payments.{payment_section, validation_section, admin_balance}

module _ {S : Type 0} where
  abbrev pub Grown : World S → World S → ℕ → Type 0
  Grown w w' n =
      (w'.passed + w'.failed ≡ w.passed + w.failed + n)
      × (w.failed ≤ w'.failed)
      × (w'.tokens ≡ w.tokens)

  -- A step that makes `n` checks and keeps the tokens, whenever it ends without an exception.
  pub data Counts {A : Type 0} : Io (World S) A → ℕ → Type 0 where
    counts :
        {m : Io (World S) A} {n : ℕ}
        → ((w : World S) (a : A) → (m w).0 ≡ ok a → Grown w (m w).1 n)
        → Counts m n

  pub after :
      {A : Type 0} {m : Io (World S) A} {n : ℕ}
      → Counts m n
      → (w : World S) (a : A) → (m w).0 ≡ ok a
      → Grown w (m w).1 n
  after (counts f) = f

  pub bind_lem :
      {A B : Type 0} (m : Io (World S) A) (k : A → Io (World S) B) (w : World S) (b : B)
      → ((m >>= k) w).0 ≡ ok b
      → (a : A) × ((m w).0 ≡ ok a) × ((m >>= k) w ≡ k a (m w).1)
  bind_lem {A} {B} m k w b h =
      let next : Result A → Result B × World S =
        λ r. elim r [ ok a ↦ k a (m w).1 | raised e ↦ (raised e, (m w).1) ] in
      elim (Result-cases (m w).0) [
        | inl (a, e) ↦ (a, e, ap next e)
        | inr (x, e) ↦
            let q : (next (m w).0).0 ≡ raised x = ap (λ r. (next r).0) e in ground (arith, h, q)
      ]

  -- A step, and then one that makes `n` checks.
  pub bind :
      {A B : Type 0} {m : Io (World S) A} {k : A → Io (World S) B} {i n : ℕ}
      → Counts m i
      → ((a : A) → Counts (k a) n)
      → Counts (m >>= k) (i + n)
  bind {A} {B} {m} {k} {i} {n} (counts f) g = counts λ w b h.
      let (a, e, q) = bind_lem m k w b h in
      let (s, l, t) = f w a e in
      let (s', l', t') = after (g a) (m w).1 b (ap (λ r. r.0) (sym q) ∙ h) in
      subst (λ r. Grown w r.1 (i + n)) (sym q)
        (omega (arith, s, l, s', l'), omega (arith, s, l, s', l'), t' ∙ t)

  pub bind_free :
      {A B : Type 0} {m : Io (World S) A} {k : A → Io (World S) B} {n : ℕ}
      → Counts m 0
      → ((a : A) → Counts (k a) n)
      → Counts (m >>= k) n
  bind_free {m} {k} {n} f g = subst (Counts (m >>= k)) (ground arith) (bind f g)

  pub bind_check :
      {A B : Type 0} {m : Io (World S) A} {k : A → Io (World S) B} {n : ℕ}
      → Counts m 1
      → ((a : A) → Counts (k a) n)
      → Counts (m >>= k) (suc n)
  bind_check {m} {k} {n} f g = subst (Counts (m >>= k)) (ground arith) (bind f g)

  -- Steps that leave the counters alone.
  pub free :
      {A : Type 0} {m : Io (World S) A}
      → ((w : World S)
          → ((m w).1.passed ≡ w.passed) × ((m w).1.failed ≡ w.failed) × ((m w).1.tokens ≡ w.tokens))
      → Counts m 0
  free f = counts λ w a h. let (p, q, t) = f w in (omega (arith, p, q), omega (arith, p, q), t)

  pub either :
      {A : Type 0} {m k : Io (World S) A} {n : ℕ} (b : Bool)
      → Counts m n
      → Counts k n
      → Counts (if b then m else k) n
  either true f g = f
  either false f g = g

  pub pure-Counts : {A : Type 0} (a : A) → Counts (pure a) 0
  pure-Counts a = free (λ w. (refl, refl, refl))

  pub lift-Counts : {A : Type 0} (r : Result A) → Counts (lift r) 0
  lift-Counts r = free (λ w. (refl, refl, refl))

  pub evaluate-Counts : {A : Type 0} (r : Result A) → Counts (evaluate r) 0
  unfolding evaluate
  evaluate-Counts r = free (λ w. (refl, refl, refl))

  pub raise-Counts : {A : Type 0} (e : Exception) → Counts {A = A} (raise e) 0
  raise-Counts e = free (λ w. (refl, refl, refl))

module _ (E : Site) where
  pub chk-Counts : (label : String) (b : Bool) → Counts (chk E label b) 1
  unfolding chk
  chk-Counts label true = counts λ w a h. (ground arith, ground arith, refl)
  chk-Counts label false = counts λ w a h. (ground arith, ground arith, refl)

  pub section-Counts : (title : String) → Counts (section E title) 0
  unfolding section
  section-Counts title = free (λ w. (refl, refl, refl))

  pub http-Counts : (call : Call) → Counts (http E call) 0
  unfolding http
  http-Counts call = free (λ w. (refl, refl, refl))

  pub token_of-Counts : (username : String) → Counts (token_of E username) 0
  unfolding token_of
  token_of-Counts username = free (λ w. (refl, refl, refl))

  pub http_as-Counts :
      (username method : String) (path : List Json) (body : Option Json)
      → Counts (http_as E username method path body) 0
  unfolding http_as
  http_as-Counts username method path body = bind (token_of-Counts username) (λ tok. http-Counts _)

  pub balance-Counts : (tok account_id : Json) → Counts (balance E tok account_id) 0
  unfolding balance
  balance-Counts tok account_id =
      bind (http-Counts _) (λ r. either (eqb r.0 200) (lift-Counts _) (raise-Counts _))

  pub make_account-Counts :
      (currency tier : String) (n : ℕ) → Counts (make_account E currency tier n) 0
  unfolding make_account
  make_account-Counts currency tier n =
      bind (http-Counts _) (λ r. either (eqb r.0 201) (lift-Counts _) (raise-Counts _))

  pub expect_status-Counts :
      (label : String) (expected : ℕ) (username method : String) (path : List Json)
      (body : Option Json)
      → Counts (expect_status E label expected username method path body) 1
  unfolding expect_status
  expect_status-Counts label expected username method path body =
      bind (http_as-Counts username method path body) (λ r. chk-Counts label _)

  pub admin_balance-Counts : (id : Json) → Counts (admin_balance E id) 0
  unfolding admin_balance
  admin_balance-Counts id = bind (token_of-Counts _) (λ tok. balance-Counts tok id)

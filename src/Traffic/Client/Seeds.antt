-- ===== src/Traffic/Client/Seeds.antt =====
-- scripts/generate-traffic.py, `http` and `seed_accounts`: what they leave of the module state.
use datadog_sample_finance.Shared.{ℕ, suc, ◌+◌, ◌≤◌, ◌≡◌, refl, List, [], ◌∷◌, ◌++◌, arith}
use datadog_sample_finance.Shared.Json.{Json}
use datadog_sample_finance.Traffic.Client.{
  Site, World, Call, http, remember, create_accounts, seed_accounts,
}

-- The number of elements.
unfoldable pub length : {A : Type 0} → List A → ℕ
length [] = 0
length (x ∷ xs) = suc (length xs)

length-snoc : {A : Type 0} (xs : List A) (x : A) → length (xs ++ x ∷ []) ≡ suc (length xs)
unfolding length
length-snoc [] x = refl
length-snoc (y ∷ xs) x = ground (arith, length-snoc xs x)

module _ (E : Site) where
  pub http_keeps :
      (call : Call) (w : World E.State)
      → let w' = (http E call w).1 in
        (w'.account_ids ≡ w.account_ids) × (w'.total ≡ w.total) × (w'.tokens ≡ w.tokens)
  unfolding http
  http_keeps call w = ground arith

  remember_grows :
      (answer : ℕ × Json) (w : World E.State)
      → let w' = (remember E answer w).1 in
        (length w'.account_ids ≤ suc (length w.account_ids))
        × (w'.total ≡ w.total)
        × (w'.tokens ≡ w.tokens)
  remember_grows (status, v) w = grind (arith, length-snoc)

  create_accounts_grows :
      (seeds : List Json) (w : World E.State)
      → let w' = (create_accounts E seeds w).1 in
        (length w'.account_ids ≤ length w.account_ids + length seeds)
        × (w'.total ≡ w.total)
        × (w'.tokens ≡ w.tokens)
  unfolding create_accounts length
  create_accounts_grows [] w = ground arith
  create_accounts_grows (seed ∷ rest) w =
      grind (arith, http_keeps, remember_grows, create_accounts_grows rest)

  -- `seed_accounts` forgets the accounts it knew: afterwards, whether it returned or raised, at
  -- most five ids are known. It does not touch the tokens and the number of requests.
  pub seed_accounts_keeps :
      (w : World E.State)
      → let w' = (seed_accounts E w).1 in
        (length w'.account_ids ≤ 5) × (w'.total ≡ w.total) × (w'.tokens ≡ w.tokens)
  unfolding seed_accounts length
  seed_accounts_keeps w = grind (arith, create_accounts_grows)

-- ===== src/Suite/Tokens.antt =====
-- What the loop over the users of scripts/test-e2e.py counts, and which tokens it leaves.
use datadog_sample_finance.Shared.{
  ℕ, suc, ◌+◌, ◌≤◌, String, ◌≡◌, ◌⊎◌, refl, ap, sym, ◌∙◌, subst, Bool, true, false, ◌&&◌, List, [],
  ◌∷◌, if◌then◌else◌, arith, inl, inr,
}
use datadog_sample_finance.Shared.Json.{Json, truthy}
use datadog_sample_finance.Shared.Dict.{Dict, insert, lookup-insert}
use datadog_sample_finance.Python.{
  Io, Result, ok, raised, Exception, modify, try_except, lift, index, ◌>>=◌, ◌>>◌,
}
use datadog_sample_finance.Suite.{Site, World, chk, token, token_call, loaded_of}
use datadog_sample_finance.Suite.Counts.{bind_lem}
use datadog_sample_finance.Suite.Run.{has_token, is_exception, authenticate, authenticate_all}

unfoldable pub users_in : List String → ℕ
users_in [] = 0
users_in (u ∷ us) = suc (users_in us)

unfoldable pub all_have : List String → Dict Json → Bool
all_have [] d = true
all_have (u ∷ us) d = has_token u d && all_have us d

module _ (E : Site) where
  -- What one round of auth_section does: one check, which fails or leaves a token; other users keep
  -- theirs.
  Signed : String → World E.State → World E.State → Type 0
  Signed u w w' =
      (w'.passed + w'.failed ≡ w.passed + w.failed + 1)
      × (w.failed ≤ w'.failed)
      × ((suc w.failed ≤ w'.failed) ⊎ (has_token u w'.tokens ≡ true))
      × ((v : String) → has_token v w.tokens ≡ true → has_token v w'.tokens ≡ true)

  lifted_keeps :
      {A B : Type 0} (r : Result A) (k : A → Result B) (w : World E.State)
      → ((lift r >>= λ a. lift (k a)) w).1 ≡ w
  lifted_keeps (ok a) k w = refl
  lifted_keeps (raised e) k w = refl

  token_keeps :
      (u : String) (w : World E.State)
      → (token E u w).1 ≡ record w { site = (E.urlopen (token_call u) w.site).1 }
  unfolding token
  token_keeps u w =
      lifted_keeps (loaded_of (E.urlopen (token_call u) w.site).0) (index "access_token")
        (record w { site = (E.urlopen (token_call u) w.site).1 })

  -- The rest of the round, once the token is there or not.
  settle : String → Result Json → Io (World E.State) Bool
  settle u r =
      try_except
        (lift r >>= λ tok.
          modify (λ w. record w { tokens = insert u tok w.tokens }) >> chk E u (truthy tok))
        is_exception (λ _. chk E u false)

  authenticate_settles :
      (u : String) (w : World E.State)
      → authenticate E u w ≡ settle u (token E u w).0 (token E u w).1
  unfolding authenticate settle
  authenticate_settles u w = refl

  has-insert :
      (u v : String) (tok : Json) (d : Dict Json)
      → has_token v d ≡ true
      → has_token v (insert u tok d) ≡ true
  has-insert u v tok d h = ground (arith, h, lookup-insert v u tok d)

  has-insert_self : (u : String) (tok : Json) (d : Dict Json) → has_token u (insert u tok d) ≡ true
  has-insert_self u tok d = ground (arith, lookup-insert u u tok d)

  chk-Signed :
      (u : String) (c : Bool) (w w0 : World E.State)
      → w0.passed ≡ w.passed
      → w0.failed ≡ w.failed
      → (c ≡ true → has_token u w0.tokens ≡ true)
      → ((v : String) → has_token v w.tokens ≡ true → has_token v w0.tokens ≡ true)
      → Signed u w (chk E u c w0).1
  unfolding chk Signed
  chk-Signed u true w w0 p f has keep =
      (omega (arith, p, f), omega (arith, f), inr (has refl), keep)
  chk-Signed u false w w0 p f has keep =
      (omega (arith, p, f), omega (arith, f), inl (omega (arith, f)), keep)

  recovered-Signed :
      (u : String) (c : Bool) (x : Exception) (w : World E.State) (b : Bool)
      → (if c then chk E u false w else (raised x, w)).0 ≡ ok b
      → Signed u w (if c then chk E u false w else (raised x, w)).1
  recovered-Signed u true x w b h =
      chk-Signed u false w w refl refl (λ e. ground (arith, e)) (λ v k. k)
  recovered-Signed u false x w b h = ground (arith, h)

  settle-Signed :
      (u : String) (r : Result Json) (w : World E.State) (b : Bool)
      → (settle u r w).0 ≡ ok b
      → Signed u w (settle u r w).1
  unfolding settle chk
  settle-Signed u (ok tok) w b h =
      chk-Signed u (truthy tok) w (record w { tokens = insert u tok w.tokens }) refl refl
        (λ _. has-insert_self u tok w.tokens) (λ v k. has-insert u v tok w.tokens k)
  settle-Signed u (raised x) w b h = recovered-Signed u (is_exception x) x w b h

  authenticate-Signed :
      (u : String) (w : World E.State) (b : Bool)
      → (authenticate E u w).0 ≡ ok b
      → Signed u w (authenticate E u w).1
  unfolding Signed
  authenticate-Signed u w b h =
      let w1 : World E.State = record w { site = (E.urlopen (token_call u) w.site).1 } in
      let q : authenticate E u w ≡ settle u (token E u w).0 w1 =
        authenticate_settles u w ∙ ap (settle u (token E u w).0) (token_keeps u w) in
      subst (λ r. Signed u w r.1) (sym q)
        (settle-Signed u (token E u w).0 w1 b (ap (λ r. r.0) (sym q) ∙ h))

  -- After the loop over the users: a check for each, and a failure or a token for all.
  unfoldable pub SignedAll : List String → World E.State → World E.State → Type 0
  SignedAll us w w' =
      (w'.passed + w'.failed ≡ w.passed + w.failed + users_in us)
      × (w.failed ≤ w'.failed)
      × ((suc w.failed ≤ w'.failed) ⊎ (all_have us w'.tokens ≡ true))
      × ((v : String) → has_token v w.tokens ≡ true → has_token v w'.tokens ≡ true)

  pub authenticate_all-SignedAll :
      (us : List String) (w : World E.State) (t : Unit {0})
      → (authenticate_all E us w).0 ≡ ok t
      → SignedAll us w (authenticate_all E us w).1
  unfolding authenticate_all SignedAll users_in all_have Signed
  authenticate_all-SignedAll [] w t h = (omega arith, omega arith, inr refl, λ v k. k)
  authenticate_all-SignedAll (u ∷ us) w t h =
      let (b, e, q) = bind_lem (authenticate E u) (λ _. authenticate_all E us) w t h in
      let w1 : World E.State = (authenticate E u w).1 in
      let (s, l, d, k) = authenticate-Signed u w b e in
      let (s', l', d', k') = authenticate_all-SignedAll us w1 t (ap (λ r. r.0) (sym q) ∙ h) in
      subst (λ r. SignedAll (u ∷ us) w r.1) (sym q)
        (
          omega (arith, s, s'),
          omega (arith, l, l'),
          elim d [
            | inl x ↦ inl (omega (arith, x, l'))
            | inr x ↦ elim d' [
              | inl y ↦ inl (omega (arith, l, y))
              | inr y ↦ inr (ground (arith, k' u x, y))
            ]
          ],
          λ v g. k' v (k v g),
        )

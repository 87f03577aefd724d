-- ===== src/Services/Accounts/Ledger.antt =====
-- account-service: the balances of the store, told by the deltas that were applied.
use datadog_sample_finance.Shared.{
  Option, Bool, true, false, String, ◌≡◌, ◌≢◌, refl, ap, ◌∙◌, ◌==◌, some, none, List, [], ◌∷◌,
  arith, if◌then◌else◌, inl, inr, Option-cases,
}
use text.Mathlib.TextEquality.{eq_iff}
use datadog_sample_finance.Shared.Int.{ℤ, pos, ◌+ℤ◌, int_laws}
use datadog_sample_finance.Shared.Json.{Json, null, bool, num, big, str, arr, obj, Fields, get_or}
use datadog_sample_finance.Shared.Float.{finite, infinity, neg_infinity, nan}
use datadog_sample_finance.Shared.Dict.{Dict, lookup, insert, lookup-insert, lookup-insert_ne}
use datadog_sample_finance.Services.Accounts.{
  Account, AccountRequest, AccountService, decimal_of, apply_delta, update_balance, payment_alert,
  create_account, new_account, patched, send_account_created, send_payment_alert,
}

-- A request that may change the state of account-service, and for the two that end with a message
-- whether the broker takes it.
pub data Change : Type 0 where
  creates : Bool → String → String → AccountRequest → Change
  patches : String → Fields → Change
  alerts : Bool → String → Dict (Option String) → Change

-- No creation takes the id again.
abbrev pub IsApart : String → List Change → Type 0
IsApart id [] = Unit
IsApart id (creates sent fresh now request ∷ cs) = (id ≢ fresh) × IsApart id cs
IsApart id (c ∷ cs) = IsApart id cs

add_zero : (x : ℤ) → x ≡ x +ℤ pos 0
add_zero x = grind int_laws

add_assoc : (x y z : ℤ) → (x +ℤ y) +ℤ z ≡ x +ℤ (y +ℤ z)
add_assoc x y z = grind int_laws

grown : Account → ℤ → Account
grown a x = record a { balance = a.balance +ℤ x }

grown_zero : (a : Account) → a ≡ grown a (pos 0)
unfolding grown
grown_zero a = ap (λ x. record a { balance = x }) (add_zero a.balance)

IsApart-head :
    (c : Change) (cs : List Change) (id : String) → IsApart id (c ∷ cs) → IsApart id (c ∷ [])
IsApart-head (creates sent j now request) cs id (h, _) = (h, tt)
IsApart-head (patches j body) cs id h = tt
IsApart-head (alerts sent j body) cs id h = tt

IsApart-tail : (c : Change) (cs : List Change) (id : String) → IsApart id (c ∷ cs) → IsApart id cs
IsApart-tail (creates sent j now request) cs id (_, h) = h
IsApart-tail (patches j body) cs id h = h
IsApart-tail (alerts sent j body) cs id h = h

module _ (parse : String → Option ℤ) where
  abbrev pub serve : Change → AccountService → AccountService
  serve (creates sent fresh now request) s = (create_account sent fresh now request s).1
  serve (patches id body) s = record s { store = (update_balance parse id body s.store).1 }
  serve (alerts sent id body) s = (payment_alert sent id body s).1

  abbrev pub serve_all : List Change → AccountService → AccountService
  serve_all [] s = s
  serve_all (c ∷ cs) s = serve_all cs (serve c s)

  -- The delta of a body, zero where the handler refuses it.
  abbrev pub delta_of : Fields → ℤ
  delta_of body = elim (decimal_of parse (get_or "delta" body null)) [ none ↦ pos 0 | some x ↦ x ]

  -- What a change adds to an account.
  abbrev pub addition : String → Change → ℤ
  addition id (patches j body) = if id == j then delta_of body else pos 0
  addition id c = pos 0

  abbrev pub additions : String → List Change → ℤ
  additions id [] = pos 0
  additions id (c ∷ cs) = addition id c +ℤ additions id cs

  -- A body whose delta is no number changes nothing.
  refused_lem :
      (v : Json) (id : String) (body : Fields) (store : Dict Account)
      → get_or "delta" body null ≡ v
      → decimal_of parse v ≡ none
      → (update_balance parse id body store).1 ≡ store
  unfolding update_balance
  refused_lem null id body store e h = ground (arith, e)
  refused_lem (bool b) id body store e h = ground (arith, e)
  refused_lem (num (finite x)) id body store e h = ground (arith, h)
  refused_lem (num infinity) id body store e h = ground (arith, e)
  refused_lem (num neg_infinity) id body store e h = ground (arith, e)
  refused_lem (num nan) id body store e h = ground (arith, e)
  refused_lem (big n) id body store e h = ground (arith, h)
  refused_lem (str t) id body store e h = ground (arith, e, h)
  refused_lem (arr vs) id body store e h = ground (arith, e)
  refused_lem (obj d) id body store e h = ground (arith, e)

  read_lem :
      (v : Json) (x : ℤ) (id : String) (body : Fields) (store : Dict Account)
      → get_or "delta" body null ≡ v
      → decimal_of parse v ≡ some x
      → update_balance parse id body store ≡ patched store (apply_delta id x store)
  unfolding update_balance
  read_lem null x id body store e h = ground (arith, h)
  read_lem (bool b) x id body store e h = ground (arith, h)
  read_lem (num y) x id body store e h = ground (arith, e, h)
  read_lem (big n) x id body store e h = ground (arith, e, h)
  read_lem (str t) x id body store e h = ground (arith, e, h)
  read_lem (arr vs) x id body store e h = ground (arith, h)
  read_lem (obj d) x id body store e h = ground (arith, h)

  applied_lem :
      (j id : String) (body : Fields) (x : ℤ) (a : Account) (store : Dict Account)
      → decimal_of parse (get_or "delta" body null) ≡ some x
      → lookup id store ≡ some a
      → lookup id (update_balance parse j body store).1 ≡ some (if id == j then grown a x else a)
  unfolding apply_delta grown
  applied_lem j id body x a store e h =
      let read = read_lem (get_or "delta" body null) x j body store refl e in
      elim (Option-cases (lookup j store)) [
        | inl missing ↦ ground (arith, read, h, missing, eq_iff id j)
        | inr (b, there) ↦ ground (
          arith,
          read,
          h,
          there,
          eq_iff id j,
          lookup-insert id j (record b { balance = b.balance +ℤ x }) store,
        )
      ]

  -- Whether the broker takes a message is no matter to the store.
  created_store :
      (sent : Bool) (a : Account) (s : AccountService)
      → (send_account_created sent a s).store ≡ s.store
  created_store true a s = refl
  created_store false a s = refl

  alerted_store :
      (sent : Bool) (a : Account) (currency : String) (s : AccountService)
      → (send_payment_alert sent a currency s).store ≡ s.store
  alerted_store true a currency s = refl
  alerted_store false a currency s = refl

  alert_keeps :
      (sent : Bool) (j : String) (body : Dict (Option String)) (s : AccountService)
      → (payment_alert sent j body s).1.store ≡ s.store
  unfolding payment_alert
  alert_keeps sent j body s = grind (arith, alerted_store)

  -- A change keeps an account, whose balance grows by what the change adds.
  serve_keeps :
      (c : Change) (id : String) (a : Account) (s : AccountService)
      → IsApart id (c ∷ [])
      → lookup id s.store ≡ some a
      → lookup id (serve c s).store ≡ some (grown a (addition id c))
  unfolding create_account new_account
  serve_keeps (creates sent j now request) id a s (apart, _) h =
      let b : Account = new_account j now request in
      ap (lookup id) (created_store sent b (record s { store = insert j b s.store }))
      ∙ lookup-insert_ne id j b s.store apart
      ∙ h
      ∙ ap some (grown_zero a)
  serve_keeps (patches j body) id a s fresh h =
      elim (Option-cases (decimal_of parse (get_or "delta" body null))) [
        | inl e ↦
            ap (lookup id) (refused_lem (get_or "delta" body null) j body s.store refl e)
            ∙ h
            ∙ ap some (grown_zero a)
            ∙ ground (arith, e)
        | inr (x, e) ↦ applied_lem j id body x a s.store e h ∙ ground (arith, e, grown_zero a)
      ]
  serve_keeps (alerts sent j body) id a s fresh h =
      ap (lookup id) (alert_keeps sent j body s) ∙ h ∙ ap some (grown_zero a)

  -- An account that is there stays there under any sequence of creations of other accounts, balance
  -- patches and payment alerts: its owner, currency, tier and time of creation stay, and its balance
  -- is the old one plus the sum of the deltas sent to it, where a refused delta counts as zero.
  pub serve_all-additions :
      (cs : List Change) (id : String) (a : Account) (s : AccountService)
      → IsApart id cs
      → lookup id s.store ≡ some a
      → lookup id (serve_all cs s).store
        ≡ some (record a { balance = a.balance +ℤ additions id cs })
  unfolding grown
  serve_all-additions [] id a s apart h = h ∙ ap some (grown_zero a)
  serve_all-additions (c ∷ cs) id a s apart h =
      serve_all-additions cs id (grown a (addition id c)) (serve c s) (IsApart-tail c cs id apart)
        (serve_keeps c id a s (IsApart-head c cs id apart) h)
      ∙ ap (λ x. some (record a { balance = x }))
          (add_assoc a.balance (addition id c) (additions id cs))

-- ===== src/EndToEnd/Money.antt =====
-- The sum of the balances in account-service's store under the patches of the gateway, and under
-- the saga of a transfer.
use datadog_sample_finance.Shared.{
  String, ◌≡◌, refl, ◌⊎◌, true, false, ◌&&◌, none, some, [], ◌∷◌, arith, leb, Bool-cases,
  Option-cases, inl, inr,
}
use datadog_sample_finance.Shared.Int.{ℤ, pos, neg, ◌+ℤ◌, int_laws}
use datadog_sample_finance.Shared.Dict.{
  Dict, lookup, insert, lookup-insert, lookup-insert_self, insert-insert, insert-lookup,
}
use datadog_sample_finance.Services.Accounts.{Account}
use datadog_sample_finance.Services.Stack.{Fault, deliver, lose_request, lose_answer, refuse}
use datadog_sample_finance.EndToEnd.Patch.{credited, is_known, is_confirmed, patched_store}
use datadog_sample_finance.EndToEnd.Saga.{Outcome, completed, saga}

-- The sum of all balances.
unfoldable pub total : Dict Account → ℤ
total [] = pos 0
total ((_, a) ∷ d) = a.balance +ℤ total d

total-insert :
    (id : String) (a old : Account) (d : Dict Account)
    → lookup id d ≡ some old
    → total (insert id a d) +ℤ old.balance ≡ total d +ℤ a.balance
unfolding total insert lookup
total-insert id a old [] h = ground arith
total-insert id a old ((j, b) ∷ d) h = grind (int_laws, total-insert id a old d)

pub credited-some :
    (id : String) (x : ℤ) (d : Dict Account) (a : Account)
    → lookup id d ≡ some a
    → credited id x d ≡ insert id (record a { balance = a.balance +ℤ x }) d
credited-some id x d a e = rw (e, credited)

pub credited-none :
    (id : String) (x : ℤ) (d : Dict Account) → lookup id d ≡ none → credited id x d ≡ d
credited-none id x d e = rw (e, credited)

-- A delta to a known account moves the sum by the delta.
pub total-credited :
    (id : String) (x : ℤ) (d : Dict Account)
    → is_known id d ≡ true
    → total (credited id x d) ≡ total d +ℤ x
total-credited id x d known = elim (Option-cases (lookup id d)) [
  | inl e ↦ absurd (ground (arith, e))
  | inr (a, e) ↦
      rw (credited-some id x d a e)
        (grind (int_laws, total-insert id (record a { balance = a.balance +ℤ x }) a d e))
]

restored : (b x : ℤ) → (b +ℤ neg x) +ℤ x ≡ b
restored b x = omega int_laws

-- A credit of `x` after a debit of `x` restores the store.
pub credited-credited :
    (id : String) (x : ℤ) (d : Dict Account) → credited id x (credited id (neg x) d) ≡ d
credited-credited id x d = elim (Option-cases (lookup id d)) [
  | inl e ↦ rw (credited-none id (neg x) d e) (credited-none id x d e)
  | inr (a, e) ↦
      let a' = record a { balance = a.balance +ℤ neg x } in
      rw
        (
          credited-some id (neg x) d a e,
          credited-some id x (insert id a' d) a' (lookup-insert_self id a' d),
          insert-insert id _ a' d,
          restored a.balance x,
        )
        (insert-lookup id a d e)
]

-- A fault under which the service acts just if the gateway sees its success.
abbrev pub IsClean : Fault → Type 0
IsClean deliver = Unit
IsClean lose_request = Unit
IsClean lose_answer = ⊥
IsClean (refuse n) = (leb 200 n && leb n 299) ≡ false

-- What a transfer that ended with the outcome has done to the store.
abbrev pub Settles : Outcome → String → String → ℤ → Dict Account → Dict Account → Type 0
Settles completed source target x store store' =
    (is_known source store ≡ true)
    × (is_known target store ≡ true)
    × (store' ≡ credited target x (credited source (neg x) store))
Settles o source target x store store' = store' ≡ store

is_known-credited :
    (id j : String) (x : ℤ) (d : Dict Account) → is_known j (credited id x d) ≡ is_known j d
is_known-credited id j x d = elim (Option-cases (lookup id d)) [
  | inl e ↦ rw (credited-none id x d e) refl
  | inr (a, e) ↦ ground (
    arith,
    credited-some id x d a e,
    lookup-insert j id (record a { balance = a.balance +ℤ x }) d,
  )
]

pub saga-Settles :
    (f1 f2 f3 : Fault) (source target : String) (x : ℤ) (store : Dict Account)
    → IsClean f1
    → IsClean f2
    → f3 ≡ deliver
    → let (o, store') = saga f1 f2 f3 source target x store in
      Settles o source target x store store'
saga-Settles f1 f2 f3 source target x store c1 c2 d =
    ground (arith, is_known-credited source target (neg x) store, credited-credited source x store)

-- How far a transfer may have moved the sum of the balances.
abbrev pub Drifts : ℤ → ℤ → ℤ → Type 0
Drifts x before after = (after ≡ before) ⊎ (after ≡ before +ℤ neg x) ⊎ (after ≡ before +ℤ x)

-- No proxy answers with a success of its own.
abbrev pub IsHonest : Fault → Type 0
IsHonest (refuse n) = (leb 200 n && leb n 299) ≡ false
IsHonest f = Unit

moved_back : (t x : ℤ) → (t +ℤ neg x) +ℤ x ≡ t
moved_back t x = omega int_laws

made : (t x : ℤ) → ((t +ℤ neg x) +ℤ x) +ℤ x ≡ t +ℤ x
made t x = omega int_laws

total-unknown :
    (id : String) (x : ℤ) (d : Dict Account)
    → is_known id d ≡ false
    → total (credited id x d) ≡ total d
total-unknown id x d h = elim (Option-cases (lookup id d)) [
  | inl e ↦ rw (credited-none id x d e)
  | inr (a, e) ↦ absurd (ground (arith, e))
]

-- A patch under a fault moves the sum by its delta or not at all.
total-patched :
    (f : Fault) (id : String) (x : ℤ) (d : Dict Account)
    → (total (patched_store f id x d) ≡ total d) ⊎ (total (patched_store f id x d) ≡ total d +ℤ x)
total-patched f id x d = ground (arith, total-unknown id x d, total-credited id x d)

total-patched_confirmed :
    (f : Fault) (id : String) (x : ℤ) (d : Dict Account)
    → IsHonest f
    → is_confirmed f (is_known id d) ≡ true
    → total (patched_store f id x d) ≡ total d +ℤ x
total-patched_confirmed f id x d h c = ground (arith, total-credited id x d)

pub saga-Drifts :
    (f1 f2 f3 : Fault) (source target : String) (x : ℤ) (store : Dict Account)
    → IsHonest f1
    → IsHonest f2
    → Drifts x (total store) (total (saga f1 f2 f3 source target x store).1)
saga-Drifts f1 f2 f3 source target x store h1 h2 =
    let s1 = patched_store f1 source (neg x) store in
    let s2 = patched_store f2 target x s1 in
    elim (Bool-cases (is_confirmed f1 (is_known source store))) [
      | inl c1 ↦ elim (Bool-cases (is_confirmed f2 (is_known target s1))) [
        | inl c2 ↦
            rw (c1, c2)
              (ground (
                arith,
                total-patched_confirmed f1 source (neg x) store h1 c1,
                total-patched_confirmed f2 target x s1 h2 c2,
                moved_back (total store) x,
              ))
        | inr c2 ↦
            rw (c1, c2)
              (ground (
                arith,
                total-patched_confirmed f1 source (neg x) store h1 c1,
                total-patched f2 target x s1,
                total-patched f3 source x s2,
                moved_back (total store) x,
                made (total store) x,
              ))
      ]
      | inr c1 ↦ rw c1 (ground (arith, total-patched f1 source (neg x) store))
    ]

-- ===== src/Fraud/Scorer/Bands.antt =====
-- fraud-detection/scorer.py: which amounts fall in which bucket, told by their magnitude, and the
-- laws that follow.
use datadog_sample_finance.Shared.{
  ℕ, ◌*◌, ◌≤◌, ◌<◌, ◌≡◌, refl, inl, inr, String, Option, false, arith, suc,
}
use datadog_sample_finance.Shared.Int.{ℤ, pos, negsuc, neg}
use datadog_sample_finance.Shared.Float.{
  Float, finite, infinity, neg_infinity, nan, whole, less, abs, negate, abs-negate,
}
use datadog_sample_finance.Shared.Json.{num, Fields, field, get_or, get_or-field_self}
use datadog_sample_finance.Python.{Result-cases, Result, ok, to_float}
use datadog_sample_finance.Fraud.Scorer.{
  Bucket, low, medium, high, bucket_score, Score, score_of, bucket_of, score_transaction,
}

-- The distance of a number from zero, in millionths.
abbrev pub magnitude : ℤ → ℕ
magnitude (pos n) = n
magnitude (negsuc n) = suc n

-- The amounts of a bucket: below a thousand, from there to below five thousand, and the rest, with
-- the values that are no finite number.
abbrev pub Band : Bucket → Float → Type 0
Band low (finite x) = magnitude x < 1000 * 1000000
Band medium (finite x) = (1000 * 1000000 ≤ magnitude x) × (magnitude x < 5000 * 1000000)
Band high (finite x) = 5000 * 1000000 ≤ magnitude x
Band high x = Unit
Band b x = ⊥

pub bucket_of-Band : (x : Float) → Band (bucket_of (abs x)) x
unfolding bucket_of abs less neg
bucket_of-Band (finite (pos n)) = ground arith
bucket_of-Band (finite (negsuc n)) = ground arith
bucket_of-Band infinity = ground arith
bucket_of-Band neg_infinity = ground arith
bucket_of-Band nan = ground arith

-- Buckets in the order of their risk.
abbrev pub risk : Bucket → ℕ
risk low = 0
risk medium = 1
risk high = 2

bucket_score_bounds :
    (b : Bucket)
    → (less (bucket_score b) (whole 0) ≡ false) × (less (whole 1) (bucket_score b) ≡ false)
unfolding less
bucket_score_bounds low = (refl, refl)
bucket_score_bounds medium = (refl, refl)
bucket_score_bounds high = (refl, refl)

risk_monotone :
    (b c : Bucket) (x y : ℤ)
    → Band b (finite x)
    → Band c (finite y)
    → magnitude x ≤ magnitude y
    → risk b ≤ risk c
risk_monotone low c x y hb hc le = ground arith
risk_monotone medium low x y hb hc le = ground arith
risk_monotone medium medium x y hb hc le = ground arith
risk_monotone medium high x y hb hc le = ground arith
risk_monotone high low x y hb hc le = ground arith
risk_monotone high medium x y hb hc le = ground arith
risk_monotone high high x y hb hc le = ground arith

module _ (parse_float : String → Option Float) where
  abbrev amount_of : Fields → Result Float
  amount_of transaction = to_float parse_float (get_or "amount" transaction (num (whole 0)))

  pub score_transaction_ok :
      (transaction : Fields) (x : Float)
      → amount_of transaction ≡ ok x
      → score_transaction parse_float transaction ≡ ok (score_of (bucket_of (abs x)))
  unfolding score_transaction
  score_transaction_ok transaction x e = ground (arith, e)

  -- A transaction that is scored has an amount that `float` reads (0.0 where there is none); its
  -- bucket is low for a magnitude below 1000, medium from 1000 to below 5000, and high otherwise,
  -- also for the infinite amounts and nan; its score is the bucket's, and lies between 0 and 1.
  pub score-Band :
      (transaction : Fields) (r : Score)
      → score_transaction parse_float transaction ≡ ok r
      → (x : Float) × (to_float parse_float (get_or "amount" transaction (num (whole 0))) ≡ ok x)
        × Band r.bucket x
        × (r.score ≡ bucket_score r.bucket)
        × (less r.score (whole 0) ≡ false)
        × (less (whole 1) r.score ≡ false)
  unfolding score_transaction
  score-Band transaction r h = elim (Result-cases (amount_of transaction)) [
    | inl (x, e) ↦
        let b = bucket_of (abs x) in
        let same : r ≡ record { score = bucket_score b; bucket = b } = ground (arith, e) in
        let bounds = bucket_score_bounds b in
        (x, e, rw same (bucket_of-Band x), rw same refl, rw same bounds.0, rw same bounds.1)
    | inr (err, e) ↦ absurd (ground (arith, e))
  ]

  -- The sign of an amount does not matter: a transaction whose amount is a number is scored, and
  -- one with the opposite amount gets the same score.
  pub score_even :
      (x : Float) (rest : Fields)
      → score_transaction parse_float (field "amount" (num (negate x)) rest)
        ≡ score_transaction parse_float (field "amount" (num x) rest)
  unfolding score_transaction to_float
  score_even x rest = ground (
    arith,
    get_or-field_self "amount" (num (negate x)) (num (whole 0)) rest,
    get_or-field_self "amount" (num x) (num (whole 0)) rest,
    abs-negate x,
  )

  -- Of two scored transactions with finite amounts, the one of the greater magnitude has at
  -- least the risk of the other.
  pub score_monotone :
      (d e : Fields) (x y : ℤ) (r t : Score)
      → to_float parse_float (get_or "amount" d (num (whole 0))) ≡ ok (finite x)
      → to_float parse_float (get_or "amount" e (num (whole 0))) ≡ ok (finite y)
      → score_transaction parse_float d ≡ ok r
      → score_transaction parse_float e ≡ ok t
      → magnitude x ≤ magnitude y
      → risk r.bucket ≤ risk t.bucket
  unfolding score_transaction
  score_monotone d e x y r t ex ey hr ht le =
      let hx : r.bucket ≡ bucket_of (abs (finite x)) = ground (arith, ex) in
      let hy : t.bucket ≡ bucket_of (abs (finite y)) = ground (arith, ey) in
      rw (hx, hy)
        (risk_monotone (bucket_of (abs (finite x))) (bucket_of (abs (finite y))) x y
          (bucket_of-Band (finite x)) (bucket_of-Band (finite y)) le)

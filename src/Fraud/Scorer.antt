-- ===== src/Fraud/Scorer.antt =====
-- fraud-detection/scorer.py: the score and the bucket of a transaction, by its amount alone.
pub mod Bands
use datadog_sample_finance.Shared.{String, Option, if◌then◌else◌}
use datadog_sample_finance.Shared.Int.{pos}
use datadog_sample_finance.Shared.Float.{Float, finite, whole, less, abs}
use datadog_sample_finance.Shared.Json.{num, Fields, get_or}
use datadog_sample_finance.Python.{Result, ok, raised, to_float}

abbrev pub low_threshold : Float
low_threshold = whole 1000

abbrev pub medium_threshold : Float
medium_threshold = whole 5000

-- The three bucket names.
pub data Bucket : Type 0 where
  low medium high : Bucket

-- `_BUCKET_SCORES`, in millionths.
abbrev pub bucket_score : Bucket → Float
bucket_score low = finite (pos 100000)
bucket_score medium = finite (pos 550000)
bucket_score high = finite (pos 900000)

-- The dict that `score` returns.
pub record Score : Type 0 where
  pub score : Float
  pub bucket : Bucket

unfoldable pub bucket_of : Float → Bucket
bucket_of amount =
    if less amount low_threshold then low else if less amount medium_threshold then medium else high

abbrev pub score_of : Bucket → Score
score_of b = record { score = bucket_score b; bucket = b }

-- `score`, where `parse_float` is `float` of a text.
unfoldable pub score_transaction : (String → Option Float) → Fields → Result Score
unfolding bucket_of
score_transaction parse_float transaction =
    elim (to_float parse_float (get_or "amount" transaction (num (whole 0)))) [
      | raised e ↦ raised e
      | ok x ↦ ok (score_of (bucket_of (abs x)))
    ]

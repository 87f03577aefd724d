-- ===== src/Gateway/Models/Valid.antt =====
-- What a body that fits its model is known to satisfy when the handler sees it.
use Prim.Native.String.{count}
use datadog_sample_finance.Shared.{◌<◌, ◌≡◌, true, ◌⊎◌, some, arith}
use datadog_sample_finance.Shared.Json.{Json}
use datadog_sample_finance.Shared.{Option}
use datadog_sample_finance.Shared.Float.{Float, less, finite, infinity, neg_infinity, nan}
use datadog_sample_finance.Shared.Int.{pos, negsuc}
use datadog_sample_finance.Gateway.Models.{
  PaymentRequest, DepositRequest, TransferRequest, PaymentValidationRequest, parse_payment,
  parse_deposit, parse_transfer, parse_validation, is_positive,
}

-- What `gt=0` lets pass: a positive number, infinity or nan, but not zero or a negative value.
abbrev pub IsPositive : Float → Type 0
IsPositive (finite (pos n)) = 0 < n
IsPositive (finite (negsuc n)) = ⊥
IsPositive infinity = Unit
IsPositive neg_infinity = ⊥
IsPositive nan = Unit

positive : (x : Float) → is_positive x ≡ true → IsPositive x
unfolding less
positive (finite (pos n)) h = ground arith
positive (finite (negsuc n)) h = ground arith
positive infinity h = tt
positive neg_infinity h = cc
positive nan h = tt

module _ (coerce_float : Json → Option Float) where
  transfer_valid :
      (body : Json) (r : TransferRequest)
      → parse_transfer coerce_float body ≡ some r
      → IsPositive r.amount × (count r.currency ≡ 3)
  unfolding parse_transfer
  transfer_valid body r h = (positive r.amount (ground arith), ground arith)

  payment_valid :
      (body : Json) (r : PaymentRequest)
      → parse_payment coerce_float body ≡ some r
      → IsPositive r.amount × (count r.currency ≡ 3)
  unfolding parse_payment
  payment_valid body r h = (positive r.amount (ground arith), ground arith)

  deposit_valid :
      (body : Json) (r : DepositRequest)
      → parse_deposit coerce_float body ≡ some r
      → IsPositive r.amount
  unfolding parse_deposit
  deposit_valid body r h = positive r.amount (ground arith)

  validation_valid :
      (body : Json) (r : PaymentValidationRequest)
      → parse_validation body ≡ some r
      → (r.action ≡ "approved") ⊎ (r.action ≡ "rejected") ⊎ (r.action ≡ "flagged")
  unfolding parse_validation
  validation_valid body r h = ground arith

  -- Whatever pydantic's conversion to float does: the amount of a transfer, a payment and a deposit
  -- that the models accept is a positive finite number, infinity or nan; the currency of a transfer
  -- and of a payment has three characters; and the action of a validation is one of the three words.
  pub bodies_valid :
      (transfer_body payment_body deposit_body action_body : Json) (transfer : TransferRequest)
      (payment : PaymentRequest) (deposit : DepositRequest) (validation : PaymentValidationRequest)
      → parse_transfer coerce_float transfer_body ≡ some transfer
      → parse_payment coerce_float payment_body ≡ some payment
      → parse_deposit coerce_float deposit_body ≡ some deposit
      → parse_validation action_body ≡ some validation
      → (IsPositive transfer.amount × (count transfer.currency ≡ 3))
        × (IsPositive payment.amount × (count payment.currency ≡ 3))
        × IsPositive deposit.amount
        × ((validation.action ≡ "approved")
            ⊎ (validation.action ≡ "rejected")
            ⊎ (validation.action ≡ "flagged"))
  bodies_valid tb pb db ab t p d v ht hp hd hv = (
    transfer_valid tb t ht,
    payment_valid pb p hp,
    deposit_valid db d hd,
    validation_valid ab v hv,
  )

-- ===== src/Gateway/Roles/Laws.antt =====
-- What the role checks let through, and that a caller without a role reaches no service.
use datadog_sample_finance.Shared.{String, ◌≡◌, ◌≢◌, Bool, true, false, List, eqb, arith}
use datadog_sample_finance.Shared.Json.{Json, arr, obj, str, Items, nil, cons, Fields}
use datadog_sample_finance.Python.{
  Io, Result, ok, raised, Exception, type_error, http_exception, pure,
}
use datadog_sample_finance.Gateway.Http.{Env, World, warning, log_event}
use datadog_sample_finance.Gateway.Auth.{contains_in}
use datadog_sample_finance.Gateway.Models.{
  TransferRequest, PaymentRequest, PaymentValidationRequest, DepositRequest,
}
use datadog_sample_finance.Gateway.Roles.{
  set_of_items, texts_of_items, text_set, text_list, intersects, require_role, payment_roles,
  transfer_roles, validation_roles, user_roles,
}
use datadog_sample_finance.Gateway.Transfer.{transfer_reason, transfer}
use datadog_sample_finance.Gateway.Payments.{
  payment_reason, validation_reason, initiate_payment, validate_payment,
}
use datadog_sample_finance.Gateway.Accounts.{deposit}

abbrev permits : List String → Result (List String) → Bool
permits allowed (ok mine) = intersects allowed mine
permits allowed (raised e) = false

-- The caller's roles form a set that meets the allowed ones.
abbrev pub is_permitted : List String → Fields → Bool
is_permitted allowed claims = permits allowed (text_set (user_roles claims))

pub require_role_permitted :
    {W : Type 0} (allowed : List String) (warn : Io W (Unit {0})) (reason : String)
    (claims : Fields) (w : W)
    → is_permitted allowed claims ≡ true
    → require_role allowed warn reason (user_roles claims) w ≡ (ok tt, w)
unfolding require_role
require_role_permitted allowed warn reason claims w h = ground arith

-- The two ways in which a role check fails: 403, or a TypeError of roles that form no set of texts.
abbrev pub is_role_error : Exception → Bool
is_role_error (http_exception status detail) = eqb status 403
is_role_error type_error = true
is_role_error e = false

-- The call raised such an error, and no request was sent: the surroundings are as before.
abbrev pub IsRefused : {S A : Type 0} → World S → Result A × World S → Type 0
IsRefused w (ok a, w') = ⊥
IsRefused w (raised e, w') = (w'.env ≡ w.env) × (is_role_error e ≡ true)

set_of_items-raised : (xs : Items) (e : Exception) → set_of_items xs ≡ raised e → e ≡ type_error
unfolding set_of_items
set_of_items-raised nil e h = cc
set_of_items-raised (cons (arr _) xs) e h = cc
set_of_items-raised (cons (obj _) xs) e h = cc
set_of_items-raised (cons (str s) xs) e h = ground (arith, set_of_items-raised xs e)
set_of_items-raised (cons v xs) e h = set_of_items-raised xs e h

texts_of_items-raised : (xs : Items) (e : Exception) → texts_of_items xs ≡ raised e → e ≡ type_error
unfolding texts_of_items
texts_of_items-raised nil e h = cc
texts_of_items-raised (cons (str s) xs) e h = ground (arith, texts_of_items-raised xs e)
texts_of_items-raised (cons v xs) e h = cc

text_set-raised : (v : Json) (e : Exception) → text_set v ≡ raised e → e ≡ type_error
unfolding text_set
text_set-raised (arr xs) e h = set_of_items-raised xs e h
text_set-raised v e h = cc

text_list-raised : (v : Json) (e : Exception) → text_list v ≡ raised e → e ≡ type_error
unfolding text_list
text_list-raised (arr xs) e h = texts_of_items-raised xs e h
text_list-raised v e h = cc

module _ {S : Type 0} (w : World S) (claims : Fields) where
  require_role-IsRefused :
      (allowed : List String) (message reason : String)
      → is_permitted allowed claims ≡ false
      → IsRefused w (require_role allowed (log_event warning message) reason (user_roles claims) w)
  unfolding require_role
  require_role-IsRefused allowed message reason h = grind (arith, text_set-raised, text_list-raised)

  require_role_quiet-IsRefused :
      (allowed : List String) (reason : String)
      → is_permitted allowed claims ≡ false
      → IsRefused w (require_role allowed (pure tt) reason (user_roles claims) w)
  unfolding require_role
  require_role_quiet-IsRefused allowed reason h = grind (arith, text_set-raised, text_list-raised)

module _ (E : Env) (w : World E.State) (claims : Fields) where
  transfer-IsRefused :
      (body : TransferRequest)
      → is_permitted transfer_roles claims ≡ false
      → IsRefused w (transfer E body claims w)
  unfolding transfer
  transfer-IsRefused body h =
      ground (arith, require_role_quiet-IsRefused w claims transfer_roles transfer_reason h)

  initiate_payment-IsRefused :
      (body : PaymentRequest)
      → is_permitted payment_roles claims ≡ false
      → IsRefused w (initiate_payment E body claims w)
  unfolding initiate_payment
  initiate_payment-IsRefused body h = ground (
    arith,
    require_role-IsRefused w claims payment_roles "payment.authorize.forbidden" payment_reason h,
  )

  validate_payment-IsRefused :
      (payment_id : String) (body : PaymentValidationRequest)
      → is_permitted validation_roles claims ≡ false
      → IsRefused w (validate_payment E payment_id body claims w)
  unfolding validate_payment
  validate_payment-IsRefused payment_id body h = ground (
    arith,
    require_role-IsRefused w claims validation_roles "payment.validate.forbidden" validation_reason
        h,
  )

  deposit-IsRefused :
      (account_id : String) (body : DepositRequest)
      → contains_in "finance-admin" (user_roles claims) ≢ ok true
      → IsRefused w (deposit E account_id body claims w)
  unfolding deposit contains_in
  deposit-IsRefused account_id body h = ground arith

  -- A caller whose roles meet neither the transfer roles nor the validation roles, and do not
  -- contain finance-admin, is refused by `transfer`, `initiate_payment`, `validate_payment` and
  -- `deposit`: each raises 403 (or a TypeError, if the roles claim is no collection of texts), and
  -- sends no request to any service.
  pub handlers_refuse :
      (t : TransferRequest) (p : PaymentRequest) (payment_id : String)
      (v : PaymentValidationRequest) (account_id : String) (d : DepositRequest)
      → is_permitted transfer_roles claims ≡ false
      → is_permitted validation_roles claims ≡ false
      → contains_in "finance-admin" (user_roles claims) ≢ ok true
      → IsRefused w (transfer E t claims w)
        × IsRefused w (initiate_payment E p claims w)
        × IsRefused w (validate_payment E payment_id v claims w)
        × IsRefused w (deposit E account_id d claims w)
  handlers_refuse t p payment_id v account_id d traders validators admins = (
    transfer-IsRefused t traders,
    initiate_payment-IsRefused p traders,
    validate_payment-IsRefused payment_id v validators,
    deposit-IsRefused account_id d admins,
  )

-- ===== src/Python.antt =====
-- What the Python services use of the language: exceptions, statements that may raise and change
-- the state they run in, and `try`/`except`. What was written before a raise stays written.
use datadog_sample_finance.Shared.{
  ◌≡◌, refl, ◌⊎◌, inl, inr, ℕ, String, Bool, true, false, Option, none, some, if◌then◌else◌,
}
use datadog_sample_finance.Shared.Float.{Float, whole}
use datadog_sample_finance.Shared.Json.{Json, null, bool, num, big, str, arr, obj, get}

pub data Exception : Type 0 where
  -- httpx: an answer outside 2xx under `raise_for_status`, and every failure to get an answer.
  http_status_error : ℕ → Exception
  transport_error : Exception
  json_decode_error jwt_error : Exception
  key_error type_error value_error overflow_error attribute_error : Exception
  -- What `json.loads` raises for a text that is nested too deeply.
  recursion_error : Exception
  -- pydantic's, raised when the code builds a model itself.
  validation_error : Exception
  -- fastapi's, for a body that does not fit its model.
  request_validation_error : Exception
  -- fastapi's `HTTPException(status_code, detail)`.
  http_exception : ℕ → String → Exception
  -- stomp's two exceptions of a broker that is not there, and any other one of its making.
  connect_failed not_connected stomp_error : Exception
  -- A file that cannot be read.
  os_error : Exception
  runtime_error : Exception
  -- The one that is no `Exception` in Python: `except Exception` lets it pass.
  keyboard_interrupt : Exception

-- `except httpx.HTTPError`
abbrev pub is_http_error : Exception → Bool
is_http_error (http_status_error s) = true
is_http_error transport_error = true
is_http_error _ = false

-- `except JWTError`
abbrev pub is_jwt_error : Exception → Bool
is_jwt_error jwt_error = true
is_jwt_error _ = false

pub data Result (A : Type 0) : Type 0 where
  ok : A → Result A
  raised : Exception → Result A

pub Result-cases :
    {A : Type 0} (r : Result A) → ((a : A) × (r ≡ ok a)) ⊎ ((e : Exception) × (r ≡ raised e))
Result-cases (ok a) = inl (a, refl)
Result-cases (raised e) = inr (e, refl)

-- Whether `except httpx.HTTPError` takes the outcome.
abbrev pub fails_http : {A : Type 0} → Result A → Bool
fails_http (ok a) = false
fails_http (raised e) = is_http_error e

-- `float(value)`; `parse_float` reads a text, and is `none` for a ValueError.
unfoldable pub to_float : (String → Option Float) → Json → Result Float
to_float parse_float (num x) = ok x
to_float parse_float (big n) = raised overflow_error
to_float parse_float (bool true) = ok (whole 1)
to_float parse_float (bool false) = ok (whole 0)
to_float parse_float (str s) = elim (parse_float s) [ none ↦ raised value_error | some x ↦ ok x ]
to_float parse_float null = raised type_error
to_float parse_float (arr xs) = raised type_error
to_float parse_float (obj d) = raised type_error

-- `value[key]`, for a decoded JSON value.
unfoldable pub index : String → Json → Result Json
index key (obj d) = elim (get key d) [ none ↦ raised key_error | some v ↦ ok v ]
index key null = raised type_error
index key (bool b) = raised type_error
index key (num x) = raised type_error
index key (big n) = raised type_error
index key (str s) = raised type_error
index key (arr xs) = raised type_error

-- A statement over the mutable state `W`.
abbrev pub Io : Type 0 → Type 0 → Type 0
Io W A = W → Result A × W

module _ {W A : Type 0} where
  abbrev pub pure : A → Io W A
  pure a w = (ok a, w)

  abbrev pub raise : Exception → Io W A
  raise e w = (raised e, w)

  abbrev pub lift : Result A → Io W A
  lift r w = (r, w)

  abbrev pub gets : (W → A) → Io W A
  gets f w = (ok (f w), w)

  abbrev pub or_raise : Option A → Exception → Io W A
  or_raise o e w = (elim o [ none ↦ raised e | some a ↦ ok a ], w)

  -- What `except` clauses make of an outcome.
  abbrev pub recover : Result A → (Exception → Bool) → (Exception → Io W A) → Io W A
  recover (ok a) caught handler w = (ok a, w)
  recover (raised e) caught handler w = if caught e then handler e w else (raised e, w)

  -- `try: body` with one `except` clause.
  abbrev pub try_except : Io W A → (Exception → Bool) → (Exception → Io W A) → Io W A
  try_except body caught handler w = let (r, w') = body w in recover r caught handler w'

infixl 5 ◌>>=◌ ◌>>◌
abbrev pub ◌>>=◌ : {W A B : Type 0} → Io W A → (A → Io W B) → Io W B
◌>>=◌ m f w = let (r, w') = m w in elim r [ ok a ↦ f a w' | raised e ↦ (raised e, w') ]

abbrev pub ◌>>◌ : {W A B : Type 0} → Io W A → Io W B → Io W B
m >> k = m >>= λ _. k

abbrev pub modify : {W : Type 0} → (W → W) → Io W (Unit {0})
modify f w = (ok tt, f w)

abbrev pub raise_if : {W : Type 0} → Bool → Exception → Io W (Unit {0})
raise_if b e w = (if b then raised e else ok tt, w)

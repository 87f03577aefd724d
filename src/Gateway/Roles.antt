-- ===== src/Gateway/Roles.antt =====
-- gateway-api/main.py, the role checks of the handlers over `claims.get("roles", [])`.
pub mod Laws
use datadog_sample_finance.Shared.{
  String, ◌<>◌, Bool, true, false, ◌||◌, not, List, [], ◌∷◌, contains, join, characters,
  if◌then◌else◌,
}
use datadog_sample_finance.Shared.Json.{
  Json, null, bool, num, big, str, arr, obj, Items, nil, cons, Fields, get_or, keys,
}
use datadog_sample_finance.Python.{
  Io, Result, ok, raised, type_error, http_exception, pure, lift, ◌>>=◌, ◌>>◌,
}

abbrev map_ok : (List String → List String) → Result (List String) → Result (List String)
map_ok f (ok xs) = ok (f xs)
map_ok f (raised e) = raised e

-- The texts among the elements of `set(items)`; a list or a dict among them has no hash.
unfoldable pub set_of_items : Items → Result (List String)
set_of_items nil = ok []
set_of_items (cons (arr _) xs) = raised type_error
set_of_items (cons (obj _) xs) = raised type_error
set_of_items (cons (str s) xs) = map_ok (λ rest. s ∷ rest) (set_of_items xs)
set_of_items (cons v xs) = set_of_items xs

-- `set(value)`
unfoldable pub text_set : Json → Result (List String)
unfolding set_of_items characters
text_set (arr xs) = set_of_items xs
text_set (str s) = ok (characters s)
text_set (obj d) = ok (keys d)
text_set null = raised type_error
text_set (bool b) = raised type_error
text_set (num n) = raised type_error
text_set (big n) = raised type_error

-- The elements that `", ".join(items)` accepts: texts alone.
unfoldable pub texts_of_items : Items → Result (List String)
texts_of_items nil = ok []
texts_of_items (cons (str s) xs) = map_ok (λ rest. s ∷ rest) (texts_of_items xs)
texts_of_items (cons v xs) = raised type_error

unfoldable pub text_list : Json → Result (List String)
unfolding texts_of_items characters
text_list (arr xs) = texts_of_items xs
text_list (str s) = ok (characters s)
text_list (obj d) = ok (keys d)
text_list null = raised type_error
text_list (bool b) = raised type_error
text_list (num n) = raised type_error
text_list (big n) = raised type_error

-- Whether `allowed.intersection(mine)` is not empty.
unfoldable pub intersects : List String → List String → Bool
unfolding contains
intersects [] mine = false
intersects (r ∷ allowed) mine = contains mine r || intersects allowed mine

abbrev pub user_roles : Fields → Json
user_roles claims = get_or "roles" claims (arr nil)

abbrev pub payment_roles : List String
payment_roles = "finance-trader" ∷ "finance-admin" ∷ []

abbrev pub transfer_roles : List String
transfer_roles = "finance-trader" ∷ "finance-admin" ∷ []

abbrev pub validation_roles : List String
validation_roles = "finance-compliance" ∷ "finance-admin" ∷ []

-- The head of a handler: unless the caller has one of the roles, `warn` and answer 403.
unfoldable pub require_role :
    {W : Type 0} → List String → Io W (Unit {0}) → String → Json → Io W (Unit {0})
require_role allowed warn reason roles = do
  mine ← lift (text_set roles)
  if intersects allowed mine then pure tt else do
    warn
    names ← lift (text_list roles)
    lift (raised (http_exception 403 ("Role '" <> join ", " names <> "' " <> reason)))

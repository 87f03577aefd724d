-- ===== src/Shared/Json.antt =====
-- Decoded JSON documents as Python sees them: `json.loads` yields None, bool, float, str, list and
-- dict, and a dict keeps its keys in order.
use Prim.Native.String.{String}
use mathlib.Core.Path.{◌≡◌}
use mathlib.Core.Logic.{◌≢◌}
use mathlib.Core.Bool.{Bool, true, false, not}
use mathlib.Core.Option.{Option, none, some}
use native.Mathlib.Omega.{arith}
use mathlib.Core.List.{List, [], ◌∷◌}
use datadog_sample_finance.Shared.Bools.{eqb, if◌then◌else◌}
use datadog_sample_finance.Shared.Texts.{◌==◌}
use datadog_sample_finance.Shared.Int.{ℤ, pos}
use datadog_sample_finance.Shared.Float.{Float, finite}

mutual
  pub data Json : Type 0 where
    null : Json
    bool : Bool → Json
    num : Float → Json
    -- A whole number beyond the range of a double, which JSON may hold and Python keeps.
    big : ℤ → Json
    str : String → Json
    arr : Items → Json
    obj : Fields → Json

  pub data Items : Type 0 where
    nil : Items
    cons : Json → Items → Items

  pub data Fields : Type 0 where
    end : Fields
    field : String → Json → Fields → Fields

-- `d.get(key)`, with `none` for a missing key.
unfoldable pub get : String → Fields → Option Json
get key end = none
get key (field k v rest) = if key == k then some v else get key rest

-- `d.get(key, default)`
unfoldable pub get_or : String → Fields → Json → Json
unfolding get
get_or key d default = elim (get key d) [ none ↦ default | some v ↦ v ]

unfoldable pub keys : Fields → List String
keys end = []
keys (field k v rest) = k ∷ keys rest

-- Python's truth value.
unfoldable pub truthy : Json → Bool
truthy null = false
truthy (bool b) = b
truthy (num (finite (pos n))) = not (eqb n 0)
truthy (num x) = true
truthy (big n) = true
truthy (str s) = not (s == "")
truthy (arr nil) = false
truthy (arr (cons x xs)) = true
truthy (obj end) = false
truthy (obj (field k v rest)) = true

-- `payload.get(key)` for a value that need not be a dict is an AttributeError: `none`.
abbrev pub fields_of : Json → Option Fields
fields_of (obj d) = some d
fields_of v = none

pub get_or-field_self : (k : String) (v d : Json) (rest : Fields) → get_or k (field k v rest) d ≡ v
unfolding get_or
get_or-field_self k v d rest = ground arith

pub get_or-field_ne :
    (k j : String) (v d : Json) (rest : Fields)
    → k ≢ j
    → get_or k (field j v rest) d ≡ get_or k rest d
unfolding get_or
get_or-field_ne k j v d rest h = ground arith

-- `d[key] = v`
unfoldable pub assign : String → Json → Fields → Fields
assign key v end = field key v end
assign key v (field k w rest) = if key == k then field k v rest else field k w (assign key v rest)

-- `d.update(e)`
unfoldable pub update : Fields → Fields → Fields
update d end = d
update d (field k v rest) = update (assign k v d) rest

pub get-assign :
    (j k : String) (v : Json) (d : Fields)
    → get j (assign k v d) ≡ (if j == k then some v else get j d)
unfolding get assign
get-assign j k v end = ground arith
get-assign j k v (field _ _ d) = ground (arith, get-assign j k v d)

-- ===== src/Suite/Compare.antt =====
-- Python's `==` on decoded JSON values, and the search for an entry of a list.
use datadog_sample_finance.Shared.{
  ℕ, suc, String, Bool, true, false, ◌&&◌, Option, none, some, eqb, ◌==◌, if◌then◌else◌,
}
use datadog_sample_finance.Shared.Float.{Float, whole}
use datadog_sample_finance.Shared.Int.{pos, negsuc}
use datadog_sample_finance.Shared.Json.{
  Json, null, bool, num, big, str, arr, obj, Items, nil, cons, Fields, end, field, get,
}
use datadog_sample_finance.Python.{Result, ok, raised}
use datadog_sample_finance.Suite.{equals, get_of}

-- A bool counts as a number: `True == 1`.
abbrev pub equals_number : Float → Json → Bool
equals_number x (num y) = equals x y
equals_number x (bool true) = equals x (whole 1)
equals_number x (bool false) = equals x (whole 0)
equals_number x v = false

unfoldable pub count : Fields → ℕ
count end = 0
count (field k v d) = suc (count d)

unfoldable mutual
  pub equal : Json → Json → Bool
  equal null null = true
  equal null v = false
  equal (bool true) v = equals_number (whole 1) v
  equal (bool false) v = equals_number (whole 0) v
  equal (num x) v = equals_number x v
  equal (big (pos m)) (big (pos n)) = eqb m n
  equal (big (negsuc m)) (big (negsuc n)) = eqb m n
  equal (big n) v = false
  equal (str s) (str t) = s == t
  equal (str s) v = false
  equal (arr xs) (arr ys) = equal_items xs ys
  equal (arr xs) v = false
  equal (obj d) (obj e) = eqb (count d) (count e) && all_in d e
  equal (obj d) v = false

  pub equal_items : Items → Items → Bool
  equal_items nil nil = true
  equal_items nil (cons y ys) = false
  equal_items (cons x xs) nil = false
  equal_items (cons x xs) (cons y ys) = equal x y && equal_items xs ys

  -- Whether each key of the first dict has an equal value in the second.
  pub all_in : Fields → Fields → Bool
  all_in end e = true
  all_in (field k v d) e = elim (get k e) [ none ↦ false | some w ↦ equal v w ] && all_in d e

-- `next((a for a in items if a.get(key) == v), None)`
unfoldable pub first_with : String → Json → Items → Result (Option Json)
first_with key v nil = ok none
first_with key v (cons a items) =
    let rest = first_with key v items in
    elim (get_of key null a) [
      | ok w ↦ if equal w v then ok (some a) else rest
      | raised e ↦ raised e
    ]

-- `lst if isinstance(lst, list) else []`
abbrev pub items_of : Json → Items
items_of (arr items) = items
items_of v = nil

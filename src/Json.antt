-- ===== src/Json.antt =====
-- The values that `json.loads` returns, and what Python's builtins do with them. Numbers with a
-- fraction or an exponent are left out: the tools print whole numbers.
pub mod Words
pub mod Fields
use hammerhead_bench.Prelude.{
  Bool, List, Option, Text, [], ap, false, is_empty, list_eq, nat_eq, negsuc, none, not, pos, refl,
  some, true, ℕ_eq, ℤ, ◌∷◌, ◌≡◌,
}
use hammerhead_bench.Prelude.Dict.{Dict, get}

mutual
  pub data Json : Type 0 where
    null : Json
    boolean : Bool → Json
    number : ℤ → Json
    text : Text → Json
    array : Items → Json
    object : Members → Json

  pub data Items : Type 0 where
    no_items : Items
    item : Json → Items → Items

  pub data Members : Type 0 where
    no_members : Members
    member : Text → Json → Members → Members

-- The list of an array, and the dictionary of an object.
unfoldable pub items_of : Items → List Json
items_of no_items = []
items_of (item j js) = j ∷ items_of js

unfoldable pub members_of : Members → Dict Text Json
members_of no_members = []
members_of (member k j ms) = (k, j) ∷ members_of ms

unfoldable pub array_of : List Json → Items
array_of [] = no_items
array_of (j ∷ js) = item j (array_of js)

unfoldable pub object_of : Dict Text Json → Members
object_of [] = no_members
object_of ((k, j) ∷ d) = member k j (object_of d)

-- `d.get(k)`: a missing key reads as `None`.
unfoldable pub look : Text → Dict Text Json → Json
look k d = elim (get k d) [ none ↦ null | some j ↦ j ]

-- `bool(j)`
unfoldable pub truthy : Json → Bool
truthy null = false
truthy (boolean b) = b
truthy (number (pos n)) = not (nat_eq n 0)
truthy (number (negsuc n)) = true
truthy (text t) = not (is_empty t)
truthy (array no_items) = false
truthy (array (item j js)) = true
truthy (object no_members) = false
truthy (object (member k j ms)) = true

unfoldable pub is_null : Json → Bool
is_null null = true
is_null _ = false

-- `j is False` and `j is True`
unfoldable pub is_json_false : Json → Bool
is_json_false (boolean false) = true
is_json_false _ = false

unfoldable pub is_json_true : Json → Bool
is_json_true (boolean true) = true
is_json_true _ = false

-- `isinstance(j, dict)` with the dictionary, and likewise for lists.
unfoldable pub as_dict : Json → Option (Dict Text Json)
as_dict (object ms) = some (members_of ms)
as_dict _ = none

unfoldable pub as_list : Json → Option (List Json)
as_list (array js) = some (items_of js)
as_list _ = none

pub items_of-array_of : (js : List Json) → items_of (array_of js) ≡ js
unfolding items_of array_of
items_of-array_of [] = refl
items_of-array_of (j ∷ js) = ap (λ l. j ∷ l) (items_of-array_of js)

pub members_of-object_of : (d : Dict Text Json) → members_of (object_of d) ≡ d
unfolding members_of object_of
members_of-object_of [] = refl
members_of-object_of ((k, j) ∷ d) = ap (λ l. (k, j) ∷ l) (members_of-object_of d)

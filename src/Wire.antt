-- ===== src/Wire.antt =====
-- What goes over the wire between the operator and tsidp. A body is held as the tree that its JSON
-- text encodes, or as the values of its form, not as bytes.
use tsidp_operator.Prelude.{ℕ, List, [], ◌∷◌, Option, none, some, String, ◌==◌}
use tsidp_operator.Prelude.{string_eq, if◌then◌else◌}
use tsidp_operator.Prelude.Map.{Map}
use tsidp_operator.Text.{Text, is_empty}

mutual
  pub data Json : Type 0 where
    null : Json
    num : ℕ → Json
    str : Text → Json
    arr : Items → Json
    obj : Fields → Json

  pub data Items : Type 0 where
    nil : Items
    item : Json → Items → Items

  pub data Fields : Type 0 where
    end : Fields
    field : String → Json → Fields → Fields

-- The last of several fields with one name counts, as in encoding/json.
unfoldable pub get_field : String → Fields → Option Json
get_field k end = none
get_field k (field j v rest) = elim (get_field k rest) [
  | some w ↦ some w
  | none ↦ if k == j then some v else none
]

-- A field that is absent, or null, leaves the zero value.
unfoldable pub to_text : Option Json → Option Text
to_text none = some []
to_text (some Json.null) = some []
to_text (some (Json.str s)) = some s
to_text (some _) = none

unfoldable pub to_texts_items : Items → Option (List Text)
unfolding to_text
to_texts_items nil = some []
to_texts_items (item j rest) = elim (to_text (some j)) [
  | none ↦ none
  | some s ↦ elim (to_texts_items rest) [ none ↦ none | some ss ↦ some (s ∷ ss) ]
]

unfoldable pub to_texts : Option Json → Option (List Text)
unfolding to_texts_items
to_texts none = some []
to_texts (some Json.null) = some []
to_texts (some (Json.arr items)) = to_texts_items items
to_texts (some _) = none

unfoldable pub of_texts : List Text → Items
of_texts [] = nil
of_texts (s ∷ ss) = item (str s) (of_texts ss)

-- A field of type string marked `omitempty`.
unfoldable pub omit_empty : String → Text → Fields → Fields
omit_empty k s rest = if is_empty s then rest else field k (str s) rest

-- A field of type []string marked `omitempty`.
unfoldable pub omit_empties : String → List Text → Fields → Fields
unfolding of_texts
omit_empties k [] rest = rest
omit_empties k (s ∷ ss) rest = field k (arr (of_texts (s ∷ ss))) rest

pub data Method : Type 0 where
  get post delete : Method
  other : String → Method

pub data Body : Type 0 where
  absent : Body
  json : Json → Body
  form : Map String Text → Body
  text : Text → Body

-- `path` is the path as the server sees it: `url.PathEscape` and the server's unescaping cancel.
pub record Request : Type 0 where
  pub method : Method
  pub base_url : Text
  pub path : Text
  pub content_type : String
  pub body : Body

pub record Response : Type 0 where
  pub status : ℕ
  pub body : Body

-- ===== src/Json.antt =====
-- JSON values, as Go's maps and slices hold them.
use uncut_core.Base.{if◌then◌else◌, ◌==◌, Bool, Option, none, some, List, [], ◌∷◌}
use uncut_core.Text.{Text, text_eq}
use uncut_core.Text.Decimal.{ℤ}

mutual
  pub data Json : Type 0 where
    str : Text → Json
    num : ℤ → Json
    bool : Bool → Json
    arr : Items → Json
    obj : Fields → Json

  pub data Items : Type 0 where
    nil : Items
    cons : Json → Items → Items

  pub data Fields : Type 0 where
    end : Fields
    field : Text → Json → Fields → Fields

abbrev items_of : List Json → Items
items_of [] = nil
items_of (j ∷ js) = cons j (items_of js)

abbrev fields_of : List (Text × Json) → Fields
fields_of [] = end
fields_of ((k, j) ∷ m) = field k j (fields_of m)

abbrev pub array : List Json → Json
array js = arr (items_of js)

abbrev pub object : List (Text × Json) → Json
object m = obj (fields_of m)

unfoldable pub get_field : Text → Fields → Option Json
get_field k end = none
get_field k (field j v m) = if j == k then some v else get_field k m

-- The member of an object.
unfoldable pub get : Text → Json → Option Json
unfolding get_field
get k (obj m) = get_field k m
get k j = none

-- ===== src/Json.antt =====
-- The JSON values of the editor's document: `serde_json::Value` and `serde_json::Map` with the
-- feature `preserve_order` of the workspace (Cargo.toml), whose documented behaviour the
-- operations here have. An insertion at a present key keeps the key's place; `remove` is
-- `swap_remove`, which moves the last entry into the place of the removed one.
-- A number is the text that it is printed as: the source only prints numbers.
pub mod Maps
use securitygingercia.Prelude.{
  String, Bool, true, false, Option, none, some, List, [], ◌∷◌, ◌==◌, if◌then◌else◌,
}

mutual
  pub data Value : Type 0 where
    null : Value
    bool : Bool → Value
    number : String → Value
    string : String → Value
    array : Values → Value
    object : Map → Value

  pub data Values : Type 0 where
    nil : Values
    cons : Value → Values → Values

  pub data Map : Type 0 where
    end : Map
    entry : String → Value → Map → Map

-- The items of an array, as a list, and back.
abbrev pub items : Values → List Value
items nil = []
items (cons v vs) = v ∷ items vs

abbrev pub values : List Value → Values
values [] = nil
values (v ∷ vs) = cons v (values vs)

-- `json!([…])`
abbrev pub array_of : List Value → Value
array_of vs = array (values vs)

abbrev pub strings_of : List String → List Value
strings_of [] = []
strings_of (s ∷ ss) = string s ∷ strings_of ss

-- `Map::get`
unfoldable pub get : String → Map → Option Value
get k end = none
get k (entry j v m) = let rest = get k m in if j == k then some v else rest

-- `Map::insert`
unfoldable pub insert : String → Value → Map → Map
insert k v end = entry k v end
insert k v (entry j w m) = let rest = insert k v m in if j == k then entry j v m else entry j w rest

abbrev pub under : String → Value → Map → Map
under j v end = entry j v end
under j v (entry l w m) = entry l w (entry j v m)

-- The last entry moved to the front.
unfoldable pub rotate_last : Map → Map
rotate_last end = end
rotate_last (entry j v m) = under j v (rotate_last m)

-- `Map::remove`
unfoldable pub remove : String → Map → Map
unfolding rotate_last
remove k end = end
remove k (entry j v m) = let rest = remove k m in if j == k then rotate_last m else entry j v rest

-- `Map::keys`
unfoldable pub keys : Map → List String
keys end = []
keys (entry k v m) = k ∷ keys m

abbrev pub is_some : Option Value → Bool
is_some none = false
is_some (some v) = true

-- `Map::contains_key`
abbrev pub contains_key : String → Map → Bool
contains_key k m = is_some (get k m)

-- `Value::get` with a text for the key
unfoldable pub get_key : String → Value → Option Value
get_key k (object m) = get k m
get_key k null = none
get_key k (bool b) = none
get_key k (number n) = none
get_key k (string s) = none
get_key k (array vs) = none

abbrev pub as_object : Value → Option Map
as_object (object m) = some m
as_object _ = none

abbrev pub as_array : Value → Option Values
as_array (array vs) = some vs
as_array _ = none

abbrev pub as_str : Value → Option String
as_str (string s) = some s
as_str _ = none

abbrev pub as_bool : Value → Option Bool
as_bool (bool b) = some b
as_bool _ = none

-- `v.as_str() == Some(id)`
unfoldable pub is_text : String → Value → Bool
is_text id (string s) = s == id
is_text id null = false
is_text id (bool b) = false
is_text id (number n) = false
is_text id (array vs) = false
is_text id (object m) = false

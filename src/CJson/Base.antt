-- ===== src/CJson/Base.antt =====
-- The third-party library cJSON as the program calls it (`cjson/cJSON.h`, not part of the
-- repository): a record of its calls, with the documented behaviour that the callers rely on.
-- An item pointer that may be NULL is an `Option`; every cJSON query answers NULL, false or 0 there.
use noc_demo.Common.{ℕ, ◌+◌, ◌==◌, if◌then◌else◌, or_else, ◌≡◌, Bool, Option, none, some, List}
use mathlib.Core.List.{foldl}
use noc_demo.Common.Int.{ℤ, IsInt}
use noc_demo.Common.Texts.{Text, text_eq}

-- The `type` of an item.
pub data Kind : Type 0 where
  false_kind true_kind null_kind number string array object : Kind

pub record CJson : Type 1 where
  pub Json : Type 0
  -- cJSON_CreateObject, cJSON_CreateArray, cJSON_CreateString, cJSON_CreateNumber, cJSON_CreateBool
  pub create_object : Json
  pub create_array : Json
  pub create_string : Text → Json
  pub create_number : ℤ → Json
  pub create_bool : Bool → Json
  -- cJSON_AddItemToObject, cJSON_AddItemToArray
  pub add_item_to_object : Json → Text → Json → Json
  pub add_item_to_array : Json → Json → Json
  -- cJSON_CreateStringArray on an array of strings
  pub create_string_array : List Text → Json
  -- cJSON_GetObjectItemCaseSensitive, cJSON_GetArraySize, cJSON_GetArrayItem
  pub get_object_item : Json → Text → Option Json
  pub get_array_size : Json → ℕ
  pub get_array_item : Json → ℕ → Option Json
  -- item->type, cJSON_GetStringValue on a string, item->valueint
  pub kind : Json → Kind
  pub string_value : Json → Text
  pub value_int : Json → ℤ
  -- cJSON_Print, cJSON_Parse
  pub print : Json → Text
  pub parse : Text → Option Json
  -- cJSON_Minify
  pub minify : Text → Text
  pub kind-create_object : kind create_object ≡ object
  pub kind-create_array : kind create_array ≡ array
  pub kind-create_string : (s : Text) → kind (create_string s) ≡ string
  pub kind-create_number : (n : ℤ) → kind (create_number n) ≡ number
  pub kind-create_bool : (b : Bool) → kind (create_bool b) ≡ (if b then true_kind else false_kind)
  pub kind-add_item_to_object :
      (o : Json) (k : Text) (v : Json) → kind o ≡ object → kind (add_item_to_object o k v) ≡ object
  pub kind-add_item_to_array : (a v : Json) → kind a ≡ array → kind (add_item_to_array a v) ≡ array
  -- A new member stands last, and a query finds the first member of its name.
  pub get_object_item-create_object : (k : Text) → get_object_item create_object k ≡ none
  pub get_object_item-add_item_to_object :
      (o : Json) (k : Text) (v : Json) (j : Text)
      → kind o ≡ object
      → get_object_item (add_item_to_object o k v) j
        ≡ or_else (get_object_item o j) (if text_eq k j then some v else none)
  pub get_array_size-create_array : get_array_size create_array ≡ 0
  pub get_array_size-add_item_to_array :
      (a v : Json) → kind a ≡ array → get_array_size (add_item_to_array a v) ≡ get_array_size a + 1
  pub get_array_item-create_array : (i : ℕ) → get_array_item create_array i ≡ none
  pub get_array_item-add_item_to_array :
      (a v : Json) (i : ℕ)
      → kind a ≡ array
      → get_array_item (add_item_to_array a v) i
        ≡ or_else (get_array_item a i) (if i == get_array_size a then some v else none)
  -- It creates an array and adds a string item for each text, in order.
  pub create_string_array-adds :
      (ss : List Text)
      → create_string_array ss
        ≡ foldl (λ a s. add_item_to_array a (create_string s)) create_array ss
  pub string_value-create_string : (s : Text) → string_value (create_string s) ≡ s
  pub value_int-create_number : (n : ℤ) → IsInt n → value_int (create_number n) ≡ n
  -- What is printed is parsed back, also without its white space.
  pub parse-print : (j : Json) → parse (print j) ≡ some j
  pub parse-minify : (j : Json) → parse (minify (print j)) ≡ some j

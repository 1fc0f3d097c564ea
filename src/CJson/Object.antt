-- ===== src/CJson/Object.antt =====
-- Objects as the program writes and reads them: a chain of cJSON_AddStringToObject and the like,
-- and the guarded reads `if (item != NULL && cJSON_IsString(item)) field = strdup(item)`.
use noc_demo.Common.{
  if◌then◌else◌, or_else, or_else-none, ◌≡◌, refl, ◌∙◌, ap, Bool, true, false, Option, none, some,
  List, [], ◌∷◌, arith,
}
use noc_demo.Common.Int.{ℤ, pos, IsInt}
use noc_demo.Common.Texts.{Text, text_eq}
use noc_demo.CJson.Base.{CJson, Kind, string, number, object, array, true_kind, false_kind}

module _ ⦃cj : CJson⦄ where
  open cj use {
    Json, create_object, create_string, create_number, create_bool, add_item_to_object,
    get_object_item, kind, string_value, value_int, kind-create_object, kind-create_string,
    kind-create_number, kind-create_bool, kind-add_item_to_object, get_object_item-create_object,
    get_object_item-add_item_to_object, string_value-create_string, value_int-create_number,
  }

  -- The calls that fill an object, in order: a key, and an item that may be NULL.
  abbrev pub Members : Type 0
  Members = List (Text × Option Json)

  -- cJSON_AddItemToObject adds nothing when the item is NULL.
  abbrev pub add_member : Json → Text → Option Json → Json
  add_member o k none = o
  add_member o k (some v) = add_item_to_object o k v

  unfoldable pub add_members : Json → Members → Json
  add_members o [] = o
  add_members o ((k, v) ∷ ms) = add_members (add_member o k v) ms

  unfoldable pub object_of : Members → Json
  object_of ms = add_members create_object ms

  -- cJSON_AddStringToObject adds nothing for a NULL string.
  unfoldable pub string_item : Option Text → Option Json
  string_item none = none
  string_item (some s) = some (create_string s)

  abbrev pub number_item : ℤ → Option Json
  number_item n = some (create_number n)

  abbrev pub bool_item : Bool → Option Json
  bool_item b = some (create_bool b)

  -- A query on NULL answers NULL.
  abbrev pub get_item : Option Json → Text → Option Json
  get_item none k = none
  get_item (some o) k = get_object_item o k

  abbrev is_kind_string : Kind → Bool
  is_kind_string string = true
  is_kind_string _ = false

  abbrev is_kind_number : Kind → Bool
  is_kind_number number = true
  is_kind_number _ = false

  abbrev is_kind_true : Kind → Bool
  is_kind_true true_kind = true
  is_kind_true _ = false

  abbrev is_kind_bool : Kind → Bool
  is_kind_bool true_kind = true
  is_kind_bool false_kind = true
  is_kind_bool _ = false

  abbrev is_kind_object : Kind → Bool
  is_kind_object object = true
  is_kind_object _ = false

  abbrev is_kind_array : Kind → Bool
  is_kind_array array = true
  is_kind_array _ = false

  -- `if (item != NULL && cJSON_IsString(item)) field = strdup(cJSON_GetStringValue(item))`
  unfoldable pub string_or_null : Option Json → Option Text
  string_or_null none = none
  string_or_null (some j) = if is_kind_string (kind j) then some (string_value j) else none

  -- `if (item != NULL && cJSON_IsNumber(item)) field = item->valueint`
  unfoldable pub int_or_zero : Option Json → ℤ
  int_or_zero none = pos 0
  int_or_zero (some j) = if is_kind_number (kind j) then value_int j else pos 0

  -- `if (item) { if (cJSON_IsTrue(item)) field = true; else field = false; }`
  unfoldable pub bool_or_false : Option Json → Bool
  bool_or_false none = false
  bool_or_false (some j) = is_kind_true (kind j)

  -- `item != NULL && cJSON_IsObject(item)`, `item != NULL && cJSON_IsArray(item)`
  unfoldable pub is_object : Option Json → Bool
  is_object none = false
  is_object (some j) = is_kind_object (kind j)

  unfoldable pub is_array : Option Json → Bool
  is_array none = false
  is_array (some j) = is_kind_array (kind j)

  -- `cJSON_IsNumber(item)`, false on NULL
  unfoldable pub is_number : Option Json → Bool
  is_number none = false
  is_number (some j) = is_kind_number (kind j)

  pub is_number-number_item : (n : ℤ) → is_number (number_item n) ≡ true
  unfolding is_number
  is_number-number_item n = rw (kind-create_number n)

  pub is_number-bool_item : (b : Bool) → is_number (bool_item b) ≡ false
  unfolding is_number
  is_number-bool_item true = rw (kind-create_bool true)
  is_number-bool_item false = rw (kind-create_bool false)

  abbrev pub read_string : Option Json → Text → Option Text
  read_string o k = string_or_null (get_item o k)

  abbrev pub read_int : Option Json → Text → ℤ
  read_int o k = int_or_zero (get_item o k)

  abbrev pub read_bool : Option Json → Text → Bool
  read_bool o k = bool_or_false (get_item o k)

  -- The first member of a name that was added.
  abbrev pub find_member : Text → Members → Option Json
  find_member j [] = none
  find_member j ((k, v) ∷ ms) =
      if text_eq k j then or_else v (find_member j ms) else find_member j ms

  kind-add_member :
      (o : Json) (k : Text) (v : Option Json) → kind o ≡ object → kind (add_member o k v) ≡ object
  kind-add_member o k none h = h
  kind-add_member o k (some v) h = kind-add_item_to_object o k v h

  pub kind-add_members :
      (o : Json) (ms : Members) → kind o ≡ object → kind (add_members o ms) ≡ object
  unfolding add_members
  kind-add_members o [] h = h
  kind-add_members o ((k, v) ∷ ms) h =
      kind-add_members (add_member o k v) ms (kind-add_member o k v h)

  pub kind-object_of : (ms : Members) → kind (object_of ms) ≡ object
  unfolding object_of
  kind-object_of ms = kind-add_members create_object ms kind-create_object

  get-add_member :
      (o : Json) (k : Text) (v : Option Json) (j : Text)
      → kind o ≡ object
      → get_object_item (add_member o k v) j
        ≡ or_else (get_object_item o j) (if text_eq k j then v else none)
  get-add_member o k none j h = ground arith
  get-add_member o k (some v) j h = get_object_item-add_item_to_object o k v j h

  or_else-if :
      (a v w : Option Json) (b : Bool)
      → or_else (or_else a (if b then v else none)) w ≡ or_else a (if b then or_else v w else w)
  or_else-if none v w true = refl
  or_else-if none v w false = refl
  or_else-if (some a) v w b = refl

  get-add_members :
      (o : Json) (ms : Members) (j : Text)
      → kind o ≡ object
      → get_object_item (add_members o ms) j ≡ or_else (get_object_item o j) (find_member j ms)
  unfolding add_members
  get-add_members o [] j h = ground arith
  get-add_members o ((k, v) ∷ ms) j h =
      get-add_members (add_member o k v) ms j (kind-add_member o k v h)
      ∙ ap (λ x. or_else x (find_member j ms)) (get-add_member o k v j h)
      ∙ or_else-if (get_object_item o j) v (find_member j ms) (text_eq k j)

  -- A query finds the first member of its name among the calls that filled the object.
  pub get_item-object_of :
      (ms : Members) (j : Text) → get_item (some (object_of ms)) j ≡ find_member j ms
  unfolding object_of
  get_item-object_of ms j =
      get-add_members create_object ms j kind-create_object
      ∙ ap (λ x. or_else x (find_member j ms)) (get_object_item-create_object j)

  string_or_null-string_item : (s : Option Text) → string_or_null (string_item s) ≡ s
  unfolding string_or_null string_item
  string_or_null-string_item none = refl
  string_or_null-string_item (some s) =
      ground (arith, kind-create_string s, string_value-create_string s)

  pub string_or_null-create_string : (s : Text) → string_or_null (some (create_string s)) ≡ some s
  unfolding string_item
  string_or_null-create_string s = string_or_null-string_item (some s)

  pub read_string-member :
      (ms : Members) (k : Text) (s : Option Text)
      → find_member k ms ≡ or_else (string_item s) none
      → read_string (some (object_of ms)) k ≡ s
  read_string-member ms k s h =
      ap string_or_null (get_item-object_of ms k ∙ h ∙ or_else-none (string_item s))
      ∙ string_or_null-string_item s

  pub read_int-member :
      (ms : Members) (k : Text) (n : ℤ)
      → IsInt n
      → find_member k ms ≡ number_item n
      → read_int (some (object_of ms)) k ≡ n
  unfolding int_or_zero
  read_int-member ms k n fits h =
      ap int_or_zero (get_item-object_of ms k ∙ h)
      ∙ ground (arith, kind-create_number n, value_int-create_number n fits)

  pub read_bool-member :
      (ms : Members) (k : Text) (b : Bool)
      → find_member k ms ≡ bool_item b
      → read_bool (some (object_of ms)) k ≡ b
  unfolding bool_or_false
  read_bool-member ms k b h =
      ap bool_or_false (get_item-object_of ms k ∙ h) ∙ ground (arith, kind-create_bool b)

-- ===== src/CJson/Nested.antt =====
-- Members that are objects or arrays themselves: `if (item != NULL && cJSON_IsObject(item))
-- field = cvt(item)`, and the like for arrays.
use noc_demo.Common.{
  if◌then◌else◌, or_else, or_else-none, ◌≡◌, refl, ◌∙◌, ap, Option, none, some, List,
}
use noc_demo.Common.Texts.{Text}
use noc_demo.CJson.Base.{CJson, object}
use noc_demo.CJson.Array.{array_of, kind-array_of, read_array}
use noc_demo.CJson.Object.{
  Members, object_of, get_item, get_item-object_of, find_member, is_object, is_array,
}

module _ ⦃cj : CJson⦄ where
  open cj use {Json, kind}

  module _ {A : Type 0} (g : A → Json) where
    -- a pointer to a structure, converted when it is not NULL
    abbrev pub pointer_item : Option A → Option Json
    pointer_item none = none
    pointer_item (some a) = some (g a)

  module _ {A : Type 0} (f : Option Json → A) where
    object_or_null : Option Json → Option A
    object_or_null item = if is_object item then some (f item) else none

    unfoldable pub read_object : Option Json → Text → Option A
    unfolding object_or_null
    read_object json k = object_or_null (get_item json k)

    unfoldable pub array_or_null : Option Json → Option (List A)
    array_or_null item = if is_array item then some (read_array f item) else none

    unfoldable pub read_list : Option Json → Text → Option (List A)
    unfolding array_or_null
    read_list json k = array_or_null (get_item json k)

  module _ {A : Type 0} (f : Option Json → A) (g : A → Json) where
    object_or_null-pointer_item :
        (v : Option A)
        → ((a : A) → kind (g a) ≡ object)
        → ((a : A) → v ≡ some a → f (some (g a)) ≡ a)
        → object_or_null f (pointer_item g v) ≡ v
    unfolding object_or_null is_object
    object_or_null-pointer_item none is_obj back = refl
    object_or_null-pointer_item (some a) is_obj back = rw (is_obj a) (ap some (back a refl))

    -- A structure that is written as a member is read back, if its own object is.
    pub read_object-member :
        (ms : Members) (k : Text) (v : Option A)
        → ((a : A) → kind (g a) ≡ object)
        → ((a : A) → v ≡ some a → f (some (g a)) ≡ a)
        → find_member k ms ≡ or_else (pointer_item g v) none
        → read_object f (some (object_of ms)) k ≡ v
    unfolding read_object
    read_object-member ms k v is_obj back h =
        ap (object_or_null f) (get_item-object_of ms k ∙ h ∙ or_else-none (pointer_item g v))
        ∙ object_or_null-pointer_item v is_obj back

  module _ {A : Type 0} (f : Option Json → A) where
    pub read_list-member :
        (ms : Members) (k : Text) (js : List Json) (xs : List A)
        → find_member k ms ≡ some (array_of js)
        → read_array f (some (array_of js)) ≡ xs
        → read_list f (some (object_of ms)) k ≡ some xs
    unfolding read_list array_or_null is_array
    read_list-member ms k js xs h back =
        ap (array_or_null f) (get_item-object_of ms k ∙ h) ∙ rw (kind-array_of js) (ap some back)

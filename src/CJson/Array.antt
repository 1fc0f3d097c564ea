-- ===== src/CJson/Array.antt =====
-- Arrays as the program writes and reads them: cJSON_AddItemToArray for each element, and a loop
-- over `i < cJSON_GetArraySize(json)` that converts `cJSON_GetArrayItem(json, i)`.
use noc_demo.Common.{
  ℕ, zero, suc, ◌+◌, ◌==◌, if◌then◌else◌, or_else, ◌≡◌, refl, ◌∙◌, ap, ap₂, Option, none, some,
  List, [], ◌∷◌, ◌++◌, append_assoc, append-nil, map, length, get_elem?, length-append, All, arith,
}
use noc_demo.CJson.Base.{CJson, array}
use mathlib.Core.List.{foldl}
use noc_demo.Common.Texts.{Text}

add_zero : (n : ℕ) → n ≡ n + 0
add_zero n = omega arith

zero_add : (n : ℕ) → 0 + n ≡ n
zero_add n = omega arith

add_one_left : (n i : ℕ) → n + 1 + i ≡ n + suc i
add_one_left n i = omega arith

module _ ⦃cj : CJson⦄ where
  open cj use {
    Json, create_array, add_item_to_array, get_array_size, get_array_item, kind, kind-create_array,
    kind-add_item_to_array, get_array_size-create_array, get_array_size-add_item_to_array,
    get_array_item-create_array, get_array_item-add_item_to_array, create_string,
    create_string_array, create_string_array-adds,
  }

  unfoldable pub add_items : Json → List Json → Json
  add_items a [] = a
  add_items a (j ∷ js) = add_items (add_item_to_array a j) js

  unfoldable pub array_of : List Json → Json
  array_of js = add_items create_array js

  -- cJSON_GetArraySize and cJSON_GetArrayItem on a pointer that may be NULL
  abbrev pub array_size : Option Json → ℕ
  array_size none = 0
  array_size (some a) = get_array_size a

  abbrev pub array_item : Option Json → ℕ → Option Json
  array_item none i = none
  array_item (some a) i = get_array_item a i

  module _ {A : Type 0} (f : Option Json → A) where
    -- `for (i = start; i < start + rounds; i++) list[i] = *f(cJSON_GetArrayItem(json, i))`
    unfoldable pub read_items : Option Json → ℕ → ℕ → List A
    read_items json start zero = []
    read_items json start (suc rounds) =
        f (array_item json start) ∷ read_items json (start + 1) rounds

    unfoldable pub read_array : Option Json → List A
    read_array json = read_items json 0 (array_size json)

  -- `a` is an array that holds `js`.
  record Holds (a : Json) (js : List Json) : Type 0 where
    is_array : kind a ≡ array
    size : get_array_size a ≡ length js
    item : (i : ℕ) → get_array_item a i ≡ get_elem? js i

  Holds-create_array : Holds create_array []
  Holds-create_array = record {
    is_array = kind-create_array;
    size = get_array_size-create_array;
    item = get_array_item-create_array;
  }

  get_elem?-snoc :
      (js : List Json) (j : Json) (i : ℕ)
      → get_elem? (js ++ j ∷ []) i
        ≡ or_else (get_elem? js i) (if i == length js then some j else none)
  get_elem?-snoc [] j zero = refl
  get_elem?-snoc [] j (suc i) = ground arith
  get_elem?-snoc (k ∷ js) j zero = refl
  get_elem?-snoc (k ∷ js) j (suc i) = ground (arith, get_elem?-snoc js j i)

  Holds-add_item_to_array :
      (a j : Json) (js : List Json) → Holds a js → Holds (add_item_to_array a j) (js ++ j ∷ [])
  Holds-add_item_to_array a j js h = record {
    is_array = kind-add_item_to_array a j h.is_array;
    size =
        omega (
          arith,
          get_array_size-add_item_to_array a j h.is_array,
          h.size,
          length-append js (j ∷ []),
        );
    item = λ i. ground (
      arith,
      get_array_item-add_item_to_array a j i h.is_array,
      h.size,
      h.item i,
      get_elem?-snoc js j i,
    );
  }

  Holds-add_items :
      (a : Json) (done js : List Json) → Holds a done → Holds (add_items a js) (done ++ js)
  unfolding add_items
  Holds-add_items a done [] h = rw append-nil h
  Holds-add_items a done (j ∷ js) h = rw append_assoc at (
      Holds-add_items (add_item_to_array a j) (done ++ j ∷ []) js
        (Holds-add_item_to_array a j done h))

  Holds-array_of : (js : List Json) → Holds (array_of js) js
  unfolding array_of
  Holds-array_of js = Holds-add_items create_array [] js Holds-create_array

  pub kind-array_of : (js : List Json) → kind (array_of js) ≡ array
  kind-array_of js = (Holds-array_of js).is_array

  module _ {A : Type 0} (f : Option Json → A) where
    read_items-Holds :
        (a : Json) (start rounds : ℕ) (rest : List Json)
        → ((i : ℕ) → get_array_item a (start + i) ≡ get_elem? rest i)
        → rounds ≡ length rest
        → read_items f (some a) start rounds ≡ map (λ j. f (some j)) rest
    unfolding read_items
    read_items-Holds a start zero [] h e = refl
    read_items-Holds a start zero (j ∷ rest) h e = absurd (omega arith)
    read_items-Holds a start (suc rounds) [] h e = absurd (omega arith)
    read_items-Holds a start (suc rounds) (j ∷ rest) h e =
        ap₂ ◌∷◌ (ap f (ap (get_array_item a) (add_zero start) ∙ h 0)) (
          read_items-Holds a (start + 1) rounds rest
            (λ i. ap (get_array_item a) (add_one_left start i) ∙ h (suc i)) (omega arith))

    -- Reading an array converts the items that were added, in order.
    pub read_array-array_of :
        (js : List Json) → read_array f (some (array_of js)) ≡ map (λ j. f (some j)) js
    unfolding read_array
    read_array-array_of js =
        let h = Holds-array_of js in
        read_items-Holds (array_of js) 0 (get_array_size (array_of js)) js
          (λ i. ap (get_array_item (array_of js)) (zero_add i) ∙ h.item i) h.size

  fold-add_items :
      (a : Json) (ss : List Text)
      → foldl (λ b s. add_item_to_array b (create_string s)) a ss
        ≡ add_items a (map create_string ss)
  unfolding add_items
  fold-add_items a [] = refl
  fold-add_items a (s ∷ ss) = fold-add_items (add_item_to_array a (create_string s)) ss

  -- An array of strings is the array of its string items.
  pub create_string_array_lem :
      (ss : List Text) → create_string_array ss ≡ array_of (map create_string ss)
  unfolding array_of
  create_string_array_lem ss = create_string_array-adds ss ∙ fold-add_items create_array ss

  module _ {A : Type 0} {P : A → Type 0} (f : Option Json → A) (g : A → Json) where
    map_back :
        (xs : List A)
        → ((x : A) → P x → f (some (g x)) ≡ x)
        → All P xs
        → map (λ j. f (some j)) (map g xs) ≡ xs
    map_back [] back h = refl
    map_back (x ∷ xs) back (hx, hxs) = ap₂ ◌∷◌ (back x hx) (map_back xs back hxs)

    -- A list that is written element by element is read back, if each element is.
    pub read_array-map_if :
        (xs : List A)
        → ((x : A) → P x → f (some (g x)) ≡ x)
        → All P xs
        → read_array f (some (array_of (map g xs))) ≡ xs
    read_array-map_if xs back h = read_array-array_of f (map g xs) ∙ map_back xs back h

  module _ {A : Type 0} (f : Option Json → A) (g : A → Json) where
    pub read_array-map :
        (xs : List A)
        → ((x : A) → f (some (g x)) ≡ x)
        → read_array f (some (array_of (map g xs))) ≡ xs
    read_array-map xs back = read_array-map_if {P = λ _. Unit} f g xs (λ x _. back x) (all_units xs)
      where
        all_units : (ys : List A) → All (λ _. Unit {0}) ys
        all_units [] = tt
        all_units (y ∷ ys) = (tt, all_units ys)

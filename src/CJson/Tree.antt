-- ===== src/CJson/Tree.antt =====
-- One implementation of the interface of cJSON, which shows that its laws can hold: items as trees
-- whose children stand in the order of their insertion, printed in postfix notation.
use noc_demo.Common.{
  ℕ, zero, suc, ◌+◌, ◌==◌, if◌then◌else◌, or_else, ◌≡◌, refl, ◌∙◌, ap, Bool, true, false, Option,
  none, some, List, [], ◌∷◌, ◌++◌, append_assoc, append-nil,
}
use mathlib.Core.List.{foldl}
use noc_demo.Common.Int.{ℤ, pos, negsuc}
use noc_demo.Common.Texts.{Text, text_eq}
use noc_demo.CJson.Base.{CJson, Kind, string, number, object, array, true_kind, false_kind}

mutual
  pub data Tree : Type 0 where
    text : Text → Tree
    num : ℤ → Tree
    bool : Bool → Tree
    arr : Items → Tree
    obj : Fields → Tree

  pub data Items : Type 0 where
    nil : Items
    snoc : Items → Tree → Items

  pub data Fields : Type 0 where
    start : Fields
    field : Fields → Text → Tree → Fields

abbrev kind : Tree → Kind
kind (text s) = string
kind (num n) = number
kind (bool true) = true_kind
kind (bool false) = false_kind
kind (arr xs) = array
kind (obj fs) = object

abbrev add_to_object : Tree → Text → Tree → Tree
add_to_object (obj fs) k v = obj (field fs k v)
add_to_object o k v = o

abbrev add_to_array : Tree → Tree → Tree
add_to_array (arr xs) v = arr (snoc xs v)
add_to_array a v = a

abbrev find_field : Fields → Text → Option Tree
find_field start j = none
find_field (field fs k v) j = or_else (find_field fs j) (if text_eq k j then some v else none)

abbrev object_item : Tree → Text → Option Tree
object_item (obj fs) j = find_field fs j
object_item t j = none

abbrev count_items : Items → ℕ
count_items nil = 0
count_items (snoc xs v) = count_items xs + 1

abbrev find_item : Items → ℕ → Option Tree
find_item nil i = none
find_item (snoc xs v) i = or_else (find_item xs i) (if i == count_items xs then some v else none)

abbrev size : Tree → ℕ
size (arr xs) = count_items xs
size t = 0

abbrev array_item : Tree → ℕ → Option Tree
array_item (arr xs) i = find_item xs i
array_item t i = none

abbrev text_value : Tree → Text
text_value (text s) = s
text_value t = []

abbrev int_value : Tree → ℤ
int_value (num n) = n
int_value t = pos 0

-- An instruction of the postfix notation is an operation and its argument.
data Op : Type 0 where
  push_text push_char push_pos push_neg push_bool push_array push_object append_item append_field :
      Op

abbrev decode : ℕ → Op
decode zero = push_text
decode (suc zero) = push_char
decode (suc (suc zero)) = push_pos
decode (suc (suc (suc zero))) = push_neg
decode (suc (suc (suc (suc zero)))) = push_bool
decode (suc (suc (suc (suc (suc zero))))) = push_array
decode (suc (suc (suc (suc (suc (suc zero)))))) = push_object
decode (suc (suc (suc (suc (suc (suc (suc zero))))))) = append_item
decode (suc (suc (suc (suc (suc (suc (suc (suc n)))))))) = append_field

abbrev step : Op → ℕ → List Tree → List Tree
step push_text n st = text [] ∷ st
step push_char n (text s ∷ st) = text (s ++ n ∷ []) ∷ st
step push_pos n st = num (pos n) ∷ st
step push_neg n st = num (negsuc n) ∷ st
step push_bool n st = bool (n == 1) ∷ st
step push_array n st = arr nil ∷ st
step push_object n st = obj start ∷ st
step append_item n (v ∷ a ∷ st) = add_to_array a v ∷ st
step append_field n (v ∷ text k ∷ o ∷ st) = add_to_object o k v ∷ st
step op n st = st

run : Text → List Tree → List Tree
run (op ∷ n ∷ rest) st = run rest (step (decode op) n st)
run _ st = st

chars : Text → Text
chars [] = []
chars (c ∷ s) = 1 ∷ c ∷ chars s

mutual
  postfix : Tree → Text
  postfix (text s) = 0 ∷ 0 ∷ chars s
  postfix (num (pos n)) = 2 ∷ n ∷ []
  postfix (num (negsuc n)) = 3 ∷ n ∷ []
  postfix (bool true) = 4 ∷ 1 ∷ []
  postfix (bool false) = 4 ∷ 0 ∷ []
  postfix (arr xs) = 5 ∷ 0 ∷ postfix_items xs
  postfix (obj fs) = 6 ∷ 0 ∷ postfix_fields fs

  postfix_items : Items → Text
  postfix_items nil = []
  postfix_items (snoc xs v) = postfix_items xs ++ (postfix v ++ (7 ∷ 0 ∷ []))

  postfix_fields : Fields → Text
  postfix_fields start = []
  postfix_fields (field fs k v) =
      postfix_fields fs ++ ((0 ∷ 0 ∷ chars k) ++ (postfix v ++ (8 ∷ 0 ∷ [])))

run-chars :
    (s done : Text) (rest : Text) (st : List Tree)
    → run (chars s ++ rest) (text done ∷ st) ≡ run rest (text (done ++ s) ∷ st)
unfolding run chars
run-chars [] done rest st = rw append-nil
run-chars (c ∷ s) done rest st = rw (run-chars s (done ++ c ∷ []) rest st, append_assoc)

mutual
  unfolding run postfix postfix_items postfix_fields

  run-postfix :
      (t : Tree) (rest : Text) (st : List Tree) → run (postfix t ++ rest) st ≡ run rest (t ∷ st)
  run-postfix (text s) rest st = run-chars s [] rest st
  run-postfix (num (pos n)) rest st = refl
  run-postfix (num (negsuc n)) rest st = refl
  run-postfix (bool true) rest st = refl
  run-postfix (bool false) rest st = refl
  run-postfix (arr xs) rest st = run-items xs rest st
  run-postfix (obj fs) rest st = run-fields fs rest st

  run-items :
      (xs : Items) (rest : Text) (st : List Tree)
      → run (postfix_items xs ++ rest) (arr nil ∷ st) ≡ run rest (arr xs ∷ st)
  run-items nil rest st = refl
  run-items (snoc xs v) rest st = simp (append_assoc, run-items xs, run-postfix v)

  run-fields :
      (fs : Fields) (rest : Text) (st : List Tree)
      → run (postfix_fields fs ++ rest) (obj start ∷ st) ≡ run rest (obj fs ∷ st)
  run-fields start rest st = refl
  run-fields (field fs k v) rest st = simp (append_assoc, run-fields fs, run-chars, run-postfix v)

abbrev top : List Tree → Option Tree
top [] = none
top (t ∷ st) = some t

parse : Text → Option Tree
parse s = top (run s [])

parse-postfix : (t : Tree) → parse (postfix t) ≡ some t
unfolding parse run
parse-postfix t = ap (λ s. top (run s [])) (append-nil' (postfix t)) ∙ ap top (run-postfix t [] [])
  where
    append-nil' : (s : Text) → s ≡ s ++ []
    append-nil' s = rw append-nil

kind-bool : (b : Bool) → kind (bool b) ≡ (if b then true_kind else false_kind)
kind-bool true = refl
kind-bool false = refl

kind-add_to_object :
    (o : Tree) (k : Text) (v : Tree) → kind o ≡ object → kind (add_to_object o k v) ≡ object
kind-add_to_object (obj fs) k v h = refl
kind-add_to_object o k v h = cc

kind-add_to_array : (a v : Tree) → kind a ≡ array → kind (add_to_array a v) ≡ array
kind-add_to_array (arr xs) v h = refl
kind-add_to_array a v h = cc

object_item-add_to_object :
    (o : Tree) (k : Text) (v : Tree) (j : Text)
    → kind o ≡ object
    → object_item (add_to_object o k v) j
      ≡ or_else (object_item o j) (if text_eq k j then some v else none)
object_item-add_to_object (obj fs) k v j h = refl
object_item-add_to_object (bool true) k v j h = cc
object_item-add_to_object (bool false) k v j h = cc
object_item-add_to_object o k v j h = cc

size-add_to_array : (a v : Tree) → kind a ≡ array → size (add_to_array a v) ≡ size a + 1
size-add_to_array (arr xs) v h = refl
size-add_to_array (bool true) v h = cc
size-add_to_array (bool false) v h = cc
size-add_to_array a v h = cc

array_item-add_to_array :
    (a v : Tree) (i : ℕ)
    → kind a ≡ array
    → array_item (add_to_array a v) i
      ≡ or_else (array_item a i) (if i == size a then some v else none)
array_item-add_to_array (arr xs) v i h = refl
array_item-add_to_array (bool true) v i h = cc
array_item-add_to_array (bool false) v i h = cc
array_item-add_to_array a v i h = cc

instance pub tree_cjson : CJson
tree_cjson = record {
  Json = Tree;
  create_object = obj start;
  create_array = arr nil;
  create_string = text;
  create_number = num;
  create_bool = bool;
  add_item_to_object = add_to_object;
  add_item_to_array = add_to_array;
  create_string_array = foldl (λ a s. add_to_array a (text s)) (arr nil);
  get_object_item = object_item;
  get_array_size = size;
  get_array_item = array_item;
  kind = kind;
  string_value = text_value;
  value_int = int_value;
  print = postfix;
  parse = parse;
  minify = λ s. s;
  kind-create_object = refl;
  kind-create_array = refl;
  kind-create_string = λ s. refl;
  kind-create_number = λ n. refl;
  kind-create_bool = kind-bool;
  kind-add_item_to_object = kind-add_to_object;
  kind-add_item_to_array = kind-add_to_array;
  get_object_item-create_object = λ k. refl;
  get_object_item-add_item_to_object = object_item-add_to_object;
  get_array_size-create_array = refl;
  get_array_size-add_item_to_array = size-add_to_array;
  get_array_item-create_array = λ i. refl;
  get_array_item-add_item_to_array = array_item-add_to_array;
  create_string_array-adds = λ ss. refl;
  string_value-create_string = λ s. refl;
  value_int-create_number = λ n h. refl;
  parse-print = parse-postfix;
  parse-minify = parse-postfix;
}

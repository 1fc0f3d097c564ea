-- ===== src/Api/Errors.antt =====
-- src/api/error_code/error_code.c: an error with its message, its JSON, and the tables of messages.
pub mod Lookup
use noc_demo.Common.{
  ◌≡◌, refl, ◌∙◌, ap, ◌&&◌, if◌then◌else◌, Bool, true, false, Bool-cases, inl, inr, Option, none,
  some, List, [], ◌∷◌, ◌++◌, map, All, arith, or_else,
}
use noc_demo.Common.Int.{ℤ, pos, IsInt, int_eq}
use noc_demo.Common.Texts.{Text, codes}
use noc_demo.CJson.Base.{CJson}
use noc_demo.CJson.Array.{array_of, read_array}
use noc_demo.CJson.Object.{
  Members, object_of, string_item, number_item, read_string, read_int, read_string-member,
  read_int-member, get_item, is_array, is_number,
}
use noc_demo.Config.{Config}
use noc_demo.Settings.{load_json_from_file}
use noc_demo.World.{Cmd, pure, stop, ◌>>=◌, null_read}

-- `error_t`; the code is any `int` that a table holds
pub record Error : Type 0 where
  pub code : ℤ
  pub message : Option Text

module _ ⦃cj : CJson⦄ where
  open cj use {Json}

  abbrev pub error_members : Error → Members
  error_members e =
      (codes "code", number_item e.code) ∷ (codes "message", string_item e.message) ∷ []

  unfoldable pub cvt_error_to_json : Option Error → Option Json
  cvt_error_to_json none = none
  cvt_error_to_json (some e) = some (object_of (error_members e))

  unfoldable pub cvt_json_to_error : Option Json → Error
  cvt_json_to_error json = record {
    code = read_int json (codes "code");
    message = read_string json (codes "message");
  }

  -- `cJSON_IsNumber(code_json) && code == code_json->valueint`
  unfoldable pub has_code : ℤ → Option Json → Bool
  has_code code item =
      is_number (get_item item (codes "code")) && int_eq code (read_int item (codes "code"))

  unfoldable pub first_with_code : ℤ → List (Option Json) → Option Json
  first_with_code code [] = none
  first_with_code code (item ∷ items) =
      if has_code code item then item else first_with_code code items

  unfoldable pub get_error_json_from_error_table_json : Option Json → ℤ → Option Json
  get_error_json_from_error_table_json tables code =
      if is_array tables then first_with_code code (read_array (λ item. item) tables) else none

  -- the three static tables
  pub record ErrorTables : Type 0 where
    pub general : Option Json
    pub general_mqtt : Option Json
    pub ezm : Option Json

  unfoldable pub init_error_table : Config → Cmd ErrorTables
  init_error_table config = do
    general ← load_json_from_file config.general_error_table_file
    general_mqtt ← load_json_from_file config.general_mqtt_error_table_file
    ezm ← load_json_from_file config.ezm_error_table_file
    pure (record { general = general; general_mqtt = general_mqtt; ezm = ezm })

  -- The first table that has the code; a code of no table is answered by no `return` at all.
  abbrev pub answer_or_next : Option Json → Option Error → Option Error
  answer_or_next none next = next
  answer_or_next (some json) next = some (cvt_json_to_error (some json))

  unfoldable pub error_table_lookup : ErrorTables → ℤ → Option Error
  error_table_lookup tables code =
      answer_or_next (get_error_json_from_error_table_json tables.general code) (
        answer_or_next (get_error_json_from_error_table_json tables.general_mqtt code)
          (answer_or_next (get_error_json_from_error_table_json tables.ezm code) none))

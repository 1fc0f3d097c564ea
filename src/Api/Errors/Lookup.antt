-- ===== src/Api/Errors/Lookup.antt =====
-- Which message the tables of errors give for a code.
use noc_demo.Common.{
  ◌≡◌, refl, ◌∙◌, ap, ap₂, ◌&&◌, if◌then◌else◌, Bool-cases, inl, inr, Option, none, some, List, [],
  ◌∷◌, ◌++◌, map, All,
}
use noc_demo.Common.Int.{ℤ, IsInt, int_eq}
use noc_demo.Common.Texts.{codes}
use noc_demo.CJson.Base.{CJson}
use noc_demo.CJson.Array.{array_of, kind-array_of, read_array-array_of}
use noc_demo.CJson.Object.{
  object_of, read_string-member, read_int-member, get_item-object_of, is_array, is_number,
  is_number-number_item,
}
use noc_demo.Api.Errors.{
  Error, error_members, cvt_json_to_error, has_code, first_with_code,
  get_error_json_from_error_table_json, error_table_lookup, answer_or_next,
}

-- The first error of a list with a code.
abbrev pub find_error : ℤ → List Error → Option Error
find_error code [] = none
find_error code (e ∷ es) = if int_eq code e.code then some e else find_error code es

abbrev pub CodeFits : Error → Type 0
CodeFits e = IsInt e.code

module _ ⦃cj : CJson⦄ where
  open cj use {Json}

  abbrev json_of : Error → Json
  json_of e = object_of (error_members e)

  abbrev pub table_of : List Error → Json
  table_of es = array_of (map json_of es)

  pub error_round_trip : (e : Error) → CodeFits e → cvt_json_to_error (some (json_of e)) ≡ e
  unfolding cvt_json_to_error
  error_round_trip e fits =
      let ms = error_members e in
      λ i. record {
        code = read_int-member ms (codes "code") e.code fits refl i;
        message = read_string-member ms (codes "message") e.message refl i;
      }

  has_code_lem :
      (code : ℤ) (e : Error) → CodeFits e → has_code code (some (json_of e)) ≡ int_eq code e.code
  unfolding has_code
  has_code_lem code e fits =
      let ms = error_members e in
      ap₂ ◌&&◌ (ap is_number (get_item-object_of ms (codes "code")) ∙ is_number-number_item e.code)
        (ap (int_eq code) (read_int-member ms (codes "code") e.code fits refl))

  abbrev found_json : Option Error → Option Json
  found_json none = none
  found_json (some e) = some (json_of e)

  first_with_code_lem :
      (code : ℤ) (es : List Error)
      → All CodeFits es
      → first_with_code code (map (λ j. some j) (map json_of es)) ≡ found_json (find_error code es)
  unfolding first_with_code
  first_with_code_lem code [] h = refl
  first_with_code_lem code (e ∷ es) (fit, fits) =
      rw (has_code_lem code e fit) (elim (Bool-cases (int_eq code e.code)) [
        | inl same ↦ rw same
        | inr other ↦ rw other (first_with_code_lem code es fits)
      ])

  table_lem :
      (code : ℤ) (es : List Error)
      → All CodeFits es
      → get_error_json_from_error_table_json (some (table_of es)) code
        ≡ found_json (find_error code es)
  unfolding get_error_json_from_error_table_json is_array
  table_lem code es fits =
      rw (kind-array_of (map json_of es), read_array-array_of (λ item. item) (map json_of es))
        (first_with_code_lem code es fits)

  found_next :
      (code : ℤ) (es rest : List Error)
      → All CodeFits es
      → answer_or_next (found_json (find_error code es)) (find_error code rest)
        ≡ find_error code (es ++ rest)
  found_next code [] rest h = refl
  found_next code (e ∷ es) rest (fit, fits) = elim (Bool-cases (int_eq code e.code)) [
    | inl same ↦ rw same (ap some (error_round_trip e fit))
    | inr other ↦ rw other (found_next code es rest fits)
  ]

  found_last :
      (code : ℤ) (es : List Error)
      → All CodeFits es
      → answer_or_next (found_json (find_error code es)) none ≡ find_error code es
  found_last code [] h = refl
  found_last code (e ∷ es) (fit, fits) = elim (Bool-cases (int_eq code e.code)) [
    | inl same ↦ rw same (ap some (error_round_trip e fit))
    | inr other ↦ rw other (found_last code es fits)
  ]

  -- For tables that hold arrays of errors, in which every code is a machine integer,
  -- error_table_lookup answers the first error with the code in the general table, then in that of
  -- the broker, then in that of the mesh; it has no answer exactly if none of them has the code.
  pub error_table_lookup_first :
      (code : ℤ) (general mqtt ezm : List Error)
      → All CodeFits general
      → All CodeFits mqtt
      → All CodeFits ezm
      → error_table_lookup
          (record {
            general = some (table_of general);
            general_mqtt = some (table_of mqtt);
            ezm = some (table_of ezm);
          })
          code
        ≡ find_error code (general ++ (mqtt ++ ezm))
  unfolding error_table_lookup
  error_table_lookup_first code general mqtt ezm fit_g fit_m fit_e =
      rw (table_lem code general fit_g, table_lem code mqtt fit_m, table_lem code ezm fit_e)
        (ap (answer_or_next (found_json (find_error code general))) (
            ap (answer_or_next (found_json (find_error code mqtt))) (found_last code ezm fit_e)
            ∙ found_next code mqtt ezm fit_m)
          ∙ found_next code general (mqtt ++ ezm) fit_g)

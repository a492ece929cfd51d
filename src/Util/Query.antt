-- ===== src/Util/Query.antt =====
-- `ConvertToQueryValues`, `SetQueryValues` and `setQueryValues` of pkg/util/encoding.go. Only `Set` writes
-- the values, so each key has one.
use vpc_route_controller.Common.{
  ℕ, zero, suc, String, Bool, true, false, List, [], ◌∷◌, ◌==◌, if◌then◌else◌, concat, decimal,
  Dict, insert, Outcome, done, panicked, ok, err,
}
use vpc_route_controller.Util.Reflected.{
  ℤ, pos, Reflected, int, uint, float, boolean, str, string_map, query_values, other_map, nil_map,
  bytes, strings, slice, nil_slice, pointer, nil_pointer, boxed, nil_interface, iso_time, time,
  array, structure, Elements, last, element, Fields, end, field, Formats, int_text, bool_text,
}

-- `if i != 0 { value = strconv.FormatInt(i, 10) }`
abbrev pub nonzero_int : ℤ → String
nonzero_int (pos zero) = ""
nonzero_int n = int_text n

abbrev pub nonzero_uint : ℕ → String
nonzero_uint zero = ""
nonzero_uint n = decimal n

-- The end of a round: a value that is not empty is set, under its prefix.
unfoldable pub put : String → String → String → Dict String → Dict String
put prefix tag value values =
    if value == "" then values else insert (concat (prefix ∷ tag ∷ [])) value values

-- The loop over a map of strings, with the number of entries so far.
unfoldable pub put_map : String → ℕ → Dict String → Dict String → Dict String
put_map tag j [] values = values
put_map tag j ((k, v) ∷ rest) values =
    let key = concat (tag ∷ "." ∷ decimal (suc j) ∷ ".Key" ∷ []) in
    let value = concat (tag ∷ "." ∷ decimal (suc j) ∷ ".Value" ∷ []) in
    put_map tag (suc j) rest (insert value v (insert key k values))

unfoldable pub put_values : Dict String → Dict String → Dict String
put_values [] values = values
put_values ((k, v) ∷ rest) values = put_values rest (insert k v values)

abbrev pub and_then :
    Outcome (Dict String) → (Dict String → Outcome (Dict String)) → Outcome (Dict String)
and_then (done values) next = next values
and_then panicked next = panicked

abbrev pub nested_prefix : Bool → String → String
nested_prefix true tag = ""
nested_prefix false tag = concat (tag ∷ "." ∷ [])

module _ (formats : Formats) where
  abbrev strings_text : List String → String
  strings_text [] = ""
  strings_text (s ∷ ss) = elim (formats.marshal_strings (s ∷ ss)) [
    | ok encoded ↦ encoded
    | err e ↦ ""
  ]

  unfoldable mutual
    -- `setQueryValues`. A time that is no field has a location, whose fields cannot be read.
    pub set_query_values : Reflected → String → Dict String → Outcome (Dict String)
    set_query_values (query_values m) prefix values = done (put_values m values)
    set_query_values (structure fields) prefix values = set_query_fields fields prefix values
    set_query_values (pointer (structure fields)) prefix values =
        set_query_fields fields prefix values
    set_query_values (boxed v) prefix values = set_query_values v prefix values
    set_query_values _ prefix values = panicked

    -- The loop over the fields: what is nil is passed over, `IsNil` panics on an array, and one pointer is
    -- followed.
    pub set_query_fields : Fields → String → Dict String → Outcome (Dict String)
    set_query_fields end prefix values = done values
    set_query_fields (field name tag anonymous nil_pointer rest) prefix values =
        set_query_fields rest prefix values
    set_query_fields (field name tag anonymous nil_slice rest) prefix values =
        set_query_fields rest prefix values
    set_query_fields (field name tag anonymous nil_map rest) prefix values =
        set_query_fields rest prefix values
    set_query_fields (field name tag anonymous array rest) prefix values = panicked
    set_query_fields (field name tag anonymous (pointer v) rest) prefix values =
        and_then (set_query_kind v tag anonymous prefix values)
          (λ set. set_query_fields rest prefix set)
    set_query_fields (field name tag anonymous v rest) prefix values =
        and_then (set_query_kind v tag anonymous prefix values)
          (λ set. set_query_fields rest prefix set)

    -- The switch on the kind.
    pub set_query_kind : Reflected → String → Bool → String → Dict String → Outcome (Dict String)
    set_query_kind (int i) tag anonymous prefix values =
        done (put prefix tag (nonzero_int i) values)
    set_query_kind (uint i) tag anonymous prefix values =
        done (put prefix tag (nonzero_uint i) values)
    set_query_kind (float size x) tag anonymous prefix values =
        done (put prefix tag (formats.float_text size x) values)
    set_query_kind (boolean b) tag anonymous prefix values =
        done (put prefix tag (bool_text b) values)
    set_query_kind (str s) tag anonymous prefix values = done (put prefix tag s values)
    set_query_kind (string_map m) tag anonymous prefix values = done (put_map tag 0 m values)
    set_query_kind nil_map tag anonymous prefix values = done values
    set_query_kind other_map tag anonymous prefix values = panicked
    set_query_kind (query_values m) tag anonymous prefix values = panicked
    set_query_kind (bytes s) tag anonymous prefix values = done (put prefix tag s values)
    set_query_kind (strings ss) tag anonymous prefix values =
        done (put prefix tag (strings_text ss) values)
    set_query_kind (slice elements) tag anonymous prefix values =
        set_query_elements elements tag 0 values
    set_query_kind nil_slice tag anonymous prefix values = done values
    set_query_kind (iso_time t) tag anonymous prefix values =
        done (put prefix tag (formats.iso_text t) values)
    set_query_kind (time t) tag anonymous prefix values =
        done (put prefix tag (formats.stamp_text t) values)
    set_query_kind nil_interface tag anonymous prefix values = done values
    set_query_kind (boxed (iso_time t)) tag anonymous prefix values =
        done (put prefix tag (formats.iso_text t) values)
    set_query_kind (boxed (time t)) tag anonymous prefix values =
        done (put prefix tag (formats.stamp_text t) values)
    set_query_kind (boxed v) tag anonymous prefix values =
        set_query_values v (nested_prefix anonymous tag) values
    set_query_kind (structure fields) tag anonymous prefix values =
        set_query_fields fields (nested_prefix anonymous tag) values
    set_query_kind (pointer (structure fields)) tag anonymous prefix values =
        set_query_fields fields (nested_prefix anonymous tag) values
    set_query_kind _ tag anonymous prefix values = panicked

    -- The loop over a slice, with the number of elements so far.
    pub set_query_elements : Elements → String → ℕ → Dict String → Outcome (Dict String)
    set_query_elements last tag j values = done values
    set_query_elements (element nil_interface rest) tag j values =
        set_query_elements rest tag (suc j) values
    set_query_elements (element v rest) tag j values =
        and_then (set_query_values v (concat (tag ∷ "." ∷ decimal (suc j) ∷ "." ∷ [])) values)
          (λ set. set_query_elements rest tag (suc j) set)

  -- `ConvertToQueryValues`
  unfoldable pub convert_to_query_values : Reflected → Outcome (Dict String)
  unfolding set_query_values
  convert_to_query_values ifc = set_query_values ifc "" []

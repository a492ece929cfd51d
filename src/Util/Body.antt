-- ===== src/Util/Body.antt =====
-- `setBodyValues` of pkg/util/encoding.go, which makes a map of a struct.
use vpc_route_controller.Common.{
  ℕ, String, Option, none, some, ◌==◌, if◌then◌else◌, Outcome, done, panicked,
}
use vpc_route_controller.Util.Reflected.{
  ℤ, Reflected, int, uint, float, boolean, str, nil_map, nil_slice, pointer, nil_pointer, boxed,
  nil_interface, iso_time, time, array, structure, Fields, end, field, Formats, bool_text,
}

mutual
  -- `map[string]interface{}`: numbers, texts and maps again, each key once.
  pub data Body : Type 0 where
    vacant : Body
    entry : String → Content → Body → Body

  pub data Content : Type 0 where
    int_value : ℤ → Content
    uint_value : ℕ → Content
    float_value : ℕ → ℕ → Content
    text_value : String → Content
    body_value : Body → Content

-- `data[name] = value`
unfoldable pub put_content : String → Content → Body → Body
put_content name content vacant = entry name content vacant
put_content name content (entry own old rest) =
    if own == name then entry name content rest else entry own old (put_content name content rest)

-- `data[name]`
unfoldable pub content_of : String → Body → Option Content
content_of name vacant = none
content_of name (entry own content rest) =
    if own == name then some content else content_of name rest

-- What a round of the loop makes of a field: a number is stored at once, a text is kept in `value`, and the
-- map of a nested struct in `datasub`, which the loop does not reset.
pub data Round : Type 0 where
  stored : Content → Round
  value : String → Round
  nested : Body → Round

-- `if name == "" { name = fieldName }`
abbrev pub name_of : String → String → String
name_of name tag = if tag == "" then name else tag

-- `if len(datasub) != 0 { data[name] = datasub }`
abbrev pub store_sub : String → Body → Body → Body
store_sub key vacant data_ = data_
store_sub key (entry own content rest) data_ =
    put_content key (body_value (entry own content rest)) data_

-- The maps `data` and `datasub` after a round.
unfoldable pub after_round : String → Round → Body × Body → Body × Body
after_round key (stored content) (data_, sub) =
    (store_sub key sub (put_content key content data_), sub)
after_round key (value s) (data_, sub) =
    (store_sub key sub (if s == "" then data_ else put_content key (text_value s) data_), sub)
after_round key (nested sub) (data_, old) = (store_sub key sub data_, sub)

abbrev pub and_round : Outcome Round → (Round → Outcome Body) → Outcome Body
and_round (done round) next = next round
and_round panicked next = panicked

abbrev pub nest : Outcome Body → Outcome Round
nest (done body) = done (nested body)
nest panicked = panicked

module _ (formats : Formats) where
  unfoldable mutual
    -- `setBodyValues`. A time that is no field has a location, whose fields cannot be read.
    pub set_body_values : Reflected → Outcome Body
    set_body_values (structure fields) = set_body_fields fields (vacant, vacant)
    set_body_values (pointer (structure fields)) = set_body_fields fields (vacant, vacant)
    set_body_values (boxed v) = set_body_values v
    set_body_values _ = panicked

    -- The loop over the fields, on `data` and `datasub`.
    pub set_body_fields : Fields → Body × Body → Outcome Body
    set_body_fields end maps = done maps.0
    set_body_fields (field name tag anonymous nil_pointer rest) maps = set_body_fields rest maps
    set_body_fields (field name tag anonymous nil_slice rest) maps = set_body_fields rest maps
    set_body_fields (field name tag anonymous nil_map rest) maps = set_body_fields rest maps
    set_body_fields (field name tag anonymous array rest) maps = panicked
    set_body_fields (field name tag anonymous (pointer v) rest) maps =
        and_round (set_body_kind v)
          (λ r. set_body_fields rest (after_round (name_of name tag) r maps))
    set_body_fields (field name tag anonymous v rest) maps =
        and_round (set_body_kind v)
          (λ r. set_body_fields rest (after_round (name_of name tag) r maps))

    -- The switch on the kind: maps and slices are no cases of it, and panic as no structs.
    pub set_body_kind : Reflected → Outcome Round
    set_body_kind (int i) = done (stored (int_value i))
    set_body_kind (uint i) = done (stored (uint_value i))
    set_body_kind (float size x) = done (stored (float_value size x))
    set_body_kind (boolean b) = done (value (bool_text b))
    set_body_kind (str s) = done (value s)
    set_body_kind (iso_time t) = done (value (formats.iso_text t))
    set_body_kind (time t) = done (value (formats.stamp_text t))
    set_body_kind nil_interface = done (value "")
    set_body_kind (boxed (iso_time t)) = done (value (formats.iso_text t))
    set_body_kind (boxed (time t)) = done (value (formats.stamp_text t))
    set_body_kind (boxed v) = nest (set_body_values v)
    set_body_kind (structure fields) = nest (set_body_fields fields (vacant, vacant))
    set_body_kind (pointer (structure fields)) = nest (set_body_fields fields (vacant, vacant))
    set_body_kind _ = panicked

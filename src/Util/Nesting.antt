-- ===== src/Util/Nesting.antt =====
-- What `setBodyValues` makes of the fields that come after a nested struct: it does not reset `datasub`.
use mathlib.Core.Bool.{false≢true}
use vpc_route_controller.Common.{
  String, Bool, true, false, ◌≡◌, refl, sym, ap, ◌∙◌, ◌==◌, eq_refl, done, Bool-cases, inl, inr,
}
use vpc_route_controller.Util.Reflected.{
  Reflected, int, uint, float, boolean, str, iso_time, time, structure, Fields, end, field, Formats,
}
use vpc_route_controller.Util.Body.{
  Body, vacant, entry, Content, body_value, put_content, name_of, after_round, set_body_fields,
  set_body_values, stored, value,
}

abbrev is_scalar : Reflected → Bool
is_scalar (int i) = true
is_scalar (uint i) = true
is_scalar (float size x) = true
is_scalar (boolean b) = true
is_scalar (str s) = true
is_scalar (iso_time t) = true
is_scalar (time t) = true
is_scalar _ = false

-- Fields of the same names with scalar values, which may differ.
abbrev pub SameNames : Fields → Fields → Type 0
SameNames end end = Unit
SameNames (field name tag embedded v rest) (field name' tag' embedded' v' rest') =
    (name_of name tag ≡ name_of name' tag')
    × (is_scalar v ≡ true)
    × (is_scalar v' ≡ true)
    × SameNames rest rest'
SameNames _ _ = ⊥

put_twice :
    (key : String) (old new : Content) (body : Body)
    → put_content key new (put_content key old body) ≡ put_content key new body
unfolding put_content
put_twice key old new vacant = rw (eq_refl key, put_content) refl
put_twice key old new (entry own content rest) = elim (Bool-cases (own == key)) [
  | inl hit ↦ rw hit (rw (eq_refl key, put_content) refl)
  | inr miss ↦
      rw miss (rw (miss, put_content) (ap (entry own content) (put_twice key old new rest)))
]

module _ (formats : Formats) (own : String) (content : Content) (others : Body) where
  -- The map of the nested struct, which has an entry.
  abbrev left_over : Body
  left_over = entry own content others

  module _ (name tag : String) (embedded : Bool) (rest : Fields) (data_ : Body) where
    text_round :
        (s : String)
        → set_body_fields formats rest (after_round (name_of name tag) (value s) (data_, left_over))
          ≡ set_body_fields formats rest
              (put_content (name_of name tag) (body_value left_over) data_, left_over)
    unfolding after_round
    text_round s = elim (Bool-cases (s == "")) [
      | inl empty ↦ rw empty refl
      | inr full ↦ rw full (rw (put_twice (name_of name tag) _ (body_value left_over) data_) refl)
    ]

    number_round :
        (c : Content)
        → set_body_fields formats rest
            (after_round (name_of name tag) (stored c) (data_, left_over))
          ≡ set_body_fields formats rest
              (put_content (name_of name tag) (body_value left_over) data_, left_over)
    unfolding after_round
    number_round c = rw (put_twice (name_of name tag) c (body_value left_over) data_) refl

    scalar_round :
        (v : Reflected)
        → is_scalar v ≡ true
        → set_body_fields formats (field name tag embedded v rest) (data_, left_over)
          ≡ set_body_fields formats rest
              (put_content (name_of name tag) (body_value left_over) data_, left_over)
    unfolding set_body_fields
    scalar_round (int i) scalar = number_round _
    scalar_round (uint i) scalar = number_round _
    scalar_round (float size x) scalar = number_round _
    scalar_round (boolean b) scalar = text_round _
    scalar_round (str s) scalar = text_round _
    scalar_round (iso_time t) scalar = text_round _
    scalar_round (time t) scalar = text_round _
    scalar_round _ scalar = absurd (false≢true scalar)

  -- After a nested struct whose map is not empty, the values of the scalar fields make no difference: two
  -- lists of fields of the same names give the same map.
  later_scalars_lost :
      (fields fields' : Fields) (data_ : Body)
      → SameNames fields fields'
      → set_body_fields formats fields (data_, left_over)
        ≡ set_body_fields formats fields' (data_, left_over)
  unfolding set_body_fields
  later_scalars_lost end end data_ same = refl
  later_scalars_lost (field n t e v rest) (field n' t' e' v' rest') data_
        (name, scalar, scalar', same) =
      scalar_round n t e rest data_ v scalar
      ∙ (rw name (later_scalars_lost rest rest' _ same)
          ∙ sym (scalar_round n' t' e' rest' data_ v' scalar'))
  later_scalars_lost end (field n t e v rest) data_ same = absurd same
  later_scalars_lost (field n t e v rest) end data_ same = absurd same

module _ (formats : Formats) where
  -- When a struct begins with a nested struct whose map is not empty, setBodyValues makes the same
  -- map of it whatever the values of the scalar fields after it are.
  pub set_body_values_loses :
      (name tag own : String) (content : Content) (others : Body) (inner fields fields' : Fields)
      → set_body_values formats (structure inner) ≡ done (entry own content others)
      → SameNames fields fields'
      → set_body_values formats (structure (field name tag false (structure inner) fields))
        ≡ set_body_values formats (structure (field name tag false (structure inner) fields'))
  unfolding set_body_values after_round
  set_body_values_loses name tag own content others inner fields fields' made same =
      rw made (later_scalars_lost formats own content others fields fields' _ same)

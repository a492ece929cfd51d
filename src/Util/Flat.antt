-- ===== src/Util/Flat.antt =====
-- What `ConvertToQueryValues` makes of a struct whose fields are numbers, texts, flags and times.
use mathlib.Core.Option.{some-injective, none-ne-some}
use text.Mathlib.TextLemmas.{nil-append, append-nil}
use vpc_route_controller.Common.{
  String, Bool, Option, none, some, [], ◌∷◌, ◌≡◌, refl, ◌∙◌, ◌==◌, eq_iff, if◌then◌else◌, Dict,
  lookup, lookup-insert, Outcome, done, arith, ap,
}
use vpc_route_controller.Util.Reflected.{
  Reflected, int, uint, float, boolean, str, bytes, pointer, iso_time, time, structure, Fields, end,
  field, Formats, bool_text,
}
use vpc_route_controller.Util.Query.{
  nonzero_int, nonzero_uint, put, and_then, set_query_fields, set_query_values, set_query_kind,
  convert_to_query_values,
}

-- The text of a scalar field; zero has none.
abbrev plain_text : Formats → Reflected → Option String
plain_text formats (int i) = some (nonzero_int i)
plain_text formats (uint i) = some (nonzero_uint i)
plain_text formats (float size x) = some (formats.float_text size x)
plain_text formats (boolean b) = some (bool_text b)
plain_text formats (str s) = some s
plain_text formats (bytes s) = some s
plain_text formats (iso_time t) = some (formats.iso_text t)
plain_text formats (time t) = some (formats.stamp_text t)
plain_text formats _ = none

-- The same, through one pointer.
abbrev pub scalar_text : Formats → Reflected → Option String
scalar_text formats (pointer v) = plain_text formats v
scalar_text formats v = plain_text formats v

-- The fields are scalars of those tags and texts.
abbrev pub Flat : Formats → Fields → Dict String → Type 0
Flat formats end [] = Unit
Flat formats (field name tag anonymous v rest) ((own, s) ∷ entries) =
    (tag ≡ own) × (scalar_text formats v ≡ some s) × Flat formats rest entries
Flat formats _ _ = ⊥

-- No tag stands twice.
abbrev pub Distinct : Dict String → Type 0
Distinct [] = Unit
Distinct ((tag, s) ∷ entries) = (lookup tag entries ≡ none) × Distinct entries

-- The entries whose text is not empty.
abbrev pub written : Dict String → Dict String
written [] = []
written ((tag, s) ∷ entries) =
    let rest = written entries in if s == "" then rest else (tag, s) ∷ rest

abbrev put_all : Dict String → Dict String → Dict String
put_all [] values = values
put_all ((tag, s) ∷ entries) values = put_all entries (put "" tag s values)

lookup-put :
    (tag s k : String) (values : Dict String)
    → lookup k (put "" tag s values)
      ≡ (if s == "" then lookup k values else if tag == k then some s else lookup k values)
unfolding put
lookup-put tag s k values =
    rw (nil-append, append-nil) (ground (arith, lookup-insert tag k s values))

written_absent :
    (tag : String) (entries : Dict String)
    → lookup tag entries ≡ none
    → lookup tag (written entries) ≡ none
unfolding lookup
written_absent tag [] e = refl
written_absent tag ((own, s) ∷ entries) e = ground (arith, written_absent tag entries, e)

put_all-lookup :
    (entries values : Dict String) (k : String)
    → Distinct entries
    → lookup k (put_all entries values)
      ≡ elim (lookup k (written entries)) as (λ _. Option String) [
        | some s ↦ some s
        | none ↦ lookup k values
      ]
unfolding lookup
put_all-lookup [] values k d = refl
put_all-lookup ((tag, s) ∷ entries) values k (fresh, d) = ground (
  arith,
  put_all-lookup entries (put "" tag s values) k d,
  lookup-put tag s k values,
  written_absent tag entries fresh,
  eq_iff tag k,
)

module _ (formats : Formats) where
  module _ (tag : String) (anonymous : Bool) (prefix : String) (values : Dict String) where
    wrote :
        (x s : String)
        → (Option.some x ≡ some s)
        → (done (put prefix tag x values)) ≡ done (put prefix tag s values)
    wrote x s e = ap (λ y. done (put prefix tag y values)) (some-injective x s e)

    kind_sets :
        (v : Reflected) (s : String)
        → plain_text formats v ≡ some s
        → set_query_kind formats v tag anonymous prefix values ≡ done (put prefix tag s values)
    unfolding set_query_kind
    kind_sets (int i) s e = wrote _ s e
    kind_sets (uint i) s e = wrote _ s e
    kind_sets (float size x) s e = wrote _ s e
    kind_sets (boolean b) s e = wrote _ s e
    kind_sets (str x) s e = wrote _ s e
    kind_sets (bytes x) s e = wrote _ s e
    kind_sets (iso_time t) s e = wrote _ s e
    kind_sets (time t) s e = wrote _ s e
    kind_sets _ s e = absurd (none-ne-some s e)

    module _ (name : String) (rest : Fields) where
      then_rest :
          (o : Outcome (Dict String)) (s : String)
          → o ≡ done (put prefix tag s values)
          → and_then o (λ set. set_query_fields formats rest prefix set)
            ≡ set_query_fields formats rest prefix (put prefix tag s values)
      then_rest o s e = rw e refl

      round_sets :
          (v : Reflected) (s : String)
          → scalar_text formats v ≡ some s
          → set_query_fields formats (field name tag anonymous v rest) prefix values
            ≡ set_query_fields formats rest prefix (put prefix tag s values)
      unfolding set_query_fields
      round_sets (pointer v) s e = then_rest _ s (kind_sets v s e)
      round_sets (int i) s e = then_rest _ s (kind_sets (int i) s e)
      round_sets (uint i) s e = then_rest _ s (kind_sets (uint i) s e)
      round_sets (float size x) s e = then_rest _ s (kind_sets (float size x) s e)
      round_sets (boolean b) s e = then_rest _ s (kind_sets (boolean b) s e)
      round_sets (str x) s e = then_rest _ s (kind_sets (str x) s e)
      round_sets (bytes x) s e = then_rest _ s (kind_sets (bytes x) s e)
      round_sets (iso_time t) s e = then_rest _ s (kind_sets (iso_time t) s e)
      round_sets (time t) s e = then_rest _ s (kind_sets (time t) s e)
      round_sets _ s e = absurd (none-ne-some s e)

  Flat-sets :
      (fields : Fields) (entries values : Dict String)
      → Flat formats fields entries
      → set_query_fields formats fields "" values ≡ done (put_all entries values)
  unfolding set_query_fields
  Flat-sets end [] values flat = refl
  Flat-sets (field name tag anonymous v rest) ((own, s) ∷ entries) values (same, text, flat) =
      round_sets tag anonymous "" values name rest v s text
      ∙ rw same (Flat-sets rest entries (put "" own s values) flat)
  Flat-sets end (entry ∷ entries) values flat = absurd flat
  Flat-sets (field name tag anonymous v rest) [] values flat = absurd flat

  -- For a struct whose fields are numbers, texts, bytes, flags and times, or pointers to these,
  -- and whose tags differ, ConvertToQueryValues returns, and the values have exactly the fields
  -- whose text is not empty, under their tags.
  pub convert_to_query_values-Flat :
      (fields : Fields) (entries : Dict String)
      → Flat formats fields entries
      → Distinct entries
      → (values : Dict String) × (convert_to_query_values formats (structure fields) ≡ done values)
        × ((k : String) → lookup k values ≡ lookup k (written entries))
  unfolding convert_to_query_values set_query_values lookup
  convert_to_query_values-Flat fields entries flat distinct = (
    put_all entries [],
    Flat-sets fields entries [] flat,
    λ k. put_all-lookup entries [] k distinct ∙ ground arith,
  )

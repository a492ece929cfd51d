-- ===== src/Util/Reflected.antt =====
-- What package reflect sees of the values that pkg/util/encoding.go encodes. Fields are exported;
-- instants and floating-point numbers are numbers that only the libraries' formatters read.
use vpc_route_controller.Common.{
  ℕ, suc, Bool, true, false, String, List, ◌∷◌, [], Dict, Result, concat, decimal,
}

pub data ℤ : Type 0 where
  pos : ℕ → ℤ
  negsuc : ℕ → ℤ

mutual
  -- A value by its kind. A map is listed in the order in which `range` runs; an array, function,
  -- complex number or open channel is `other` or `array`, as far as the code tells them apart.
  pub data Reflected : Type 0 where
    int : ℤ → Reflected
    uint : ℕ → Reflected
    float : ℕ → ℕ → Reflected
    boolean : Bool → Reflected
    str : String → Reflected
    string_map : Dict String → Reflected
    query_values : Dict String → Reflected
    other_map : Reflected
    nil_map : Reflected
    bytes : String → Reflected
    strings : List String → Reflected
    slice : Elements → Reflected
    nil_slice : Reflected
    pointer : Reflected → Reflected
    nil_pointer : Reflected
    boxed : Reflected → Reflected
    nil_interface : Reflected
    iso_time : ℕ → Reflected
    time : ℕ → Reflected
    array : Reflected
    other : Reflected
    structure : Fields → Reflected

  pub data Elements : Type 0 where
    last : Elements
    element : Reflected → Elements → Elements

  -- A field: its name, its tag `json`, whether it is embedded, and its value.
  pub data Fields : Type 0 where
    end : Fields
    field : String → String → Bool → Reflected → Fields → Fields

-- Third-party formatters: `strconv.FormatFloat` with four places, of so many bits; `ISO6801Time.String`
-- and `GetISO8601TimeStamp`, which format with package time; `json.Marshal` of a list of strings.
pub record Formats : Type 0 where
  pub float_text : ℕ → ℕ → String
  pub iso_text : ℕ → String
  pub stamp_text : ℕ → String
  pub marshal_strings : List String → Result String

-- `strconv.FormatInt(i, 10)`
abbrev pub int_text : ℤ → String
int_text (pos n) = decimal n
int_text (negsuc n) = concat ("-" ∷ decimal (suc n) ∷ [])

-- `strconv.FormatBool`
abbrev pub bool_text : Bool → String
bool_text true = "true"
bool_text false = "false"

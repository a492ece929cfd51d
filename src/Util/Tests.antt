-- ===== src/Util/Tests.antt =====
-- The utilities on concrete values.
use mathlib.Core.List.Perm
use vpc_route_controller.Common.{
  ℕ, Bool, some, Action, Returns, suc, ◌+◌, String, true, false, [], ◌∷◌, ◌≡◌, refl, ◌==◌, inl, inr,
  Bool-cases, concat, decimal, Dict, lookup, insert, done, panicked, ok, arith, eq_iff,
}
use vpc_route_controller.Util.Attempt.{AttemptStrategy, Attempt, Clock, start, next, has_next}
use vpc_route_controller.Util.Pacing.{Ticks, Reached, started, tried, asked, Fits, attempts_fit}
use vpc_route_controller.Util.Reflected.{
  pos, uint, int, str, boolean, string_map, array, pointer, structure, Fields, end, field, Formats,
}
use vpc_route_controller.Util.Query.{put, put_map, set_query_values, convert_to_query_values}
use vpc_route_controller.Util.Flat.{Distinct, written, convert_to_query_values-Flat}
use vpc_route_controller.Util.Body.{
  vacant, entry, text_value, put_content, after_round, set_body_values,
}
use vpc_route_controller.Util.Nesting.{set_body_values_loses}
use vpc_route_controller.Util.Form.{text_le, sort_in, sort, write_pairs, encode}
use vpc_route_controller.Util.Sorting.{encode-perm}
use vpc_route_controller.Util.Random.{join, charset_of, length, byte_at, draw, random_string}
use vpc_route_controller.Util.Drawing.{DrawnFrom, random_string-DrawnFrom}
use vpc_route_controller.Util.Time.{Time, Bytes, bytes, marshal_json, new_iso6801_time}
use vpc_route_controller.Util.Reading.{is_leap, days_in, is_empty_text, parse_int, unmarshal_json}
use vpc_route_controller.Util.Stamp.{unmarshal_json-marshal_json}
use vpc_route_controller.Util.Maps.{any_fold, all_found, is_string_slice_equal, pkcs7_unpadding}

-- A clock that moves when it is read, and by a sleep.
abbrev clock : Clock ℕ
clock = record { now = λ w. (w, suc w); sleep = λ s w. w + s }

ticks : Ticks clock
ticks = record {
  reading = λ w. w;
  reads = λ w. omega arith;
  moves = λ w. omega arith;
  sleeps = λ s w. omega arith;
}

abbrev strategy : AttemptStrategy
strategy = record { total = 20; delay = 5; min = 2 }

-- One attempt is made, and HasNext asked.
one_tried :
    Reached clock strategy ticks 1
      (record { strategy = strategy; last = 1; finish = 20; force = false; count = 1 })
      2
unfolding start next has_next
one_tried = asked (tried (started 0) refl)

attempts_fit_example : Fits clock strategy ticks 1
attempts_fit_example =
    attempts_fit clock strategy ticks 1
      (record { strategy = strategy; last = 1; finish = 20; force = false; count = 1 }) 2 one_tried

abbrev fresh : Attempt
fresh = record { strategy = strategy; last = 0; finish = 20; force = false; count = 2 }

abbrev formats : Formats
formats = record {
  float_text = λ size x. decimal x;
  iso_text = λ t. decimal t;
  stamp_text = λ t. decimal t;
  marshal_strings = λ ss. ok (concat ss);
}

-- A name, a count of zero, and a flag.
abbrev flat : Fields
flat = field "Name" "name" false (str "a") (
    field "Count" "count" false (int (pos 0))
      (field "Dry" "dry" false (pointer (boolean true)) end))

abbrev flat_entries : Dict String
flat_entries = ("name", "a") ∷ ("count", "") ∷ ("dry", "true") ∷ []

flat-Distinct : Distinct flat_entries
unfolding lookup
flat-Distinct = (refl, (refl, (refl, tt)))

convert_to_query_values-Flat_example :
    (values : Dict String) × (convert_to_query_values formats (structure flat) ≡ done values)
    × ((k : String) → lookup k values ≡ lookup k (written flat_entries))
convert_to_query_values-Flat_example =
    convert_to_query_values-Flat formats flat flat_entries
      ((refl, refl, (refl, refl, (refl, refl, tt)))) flat-Distinct

-- The key of a value two structs down has the tag of the inner one only.
nested_prefix_lost :
    convert_to_query_values formats (
      structure (
        field "A" "a" false
          (structure (field "B" "b" false (structure (field "C" "c" false (str "x") end)) end))
          end))
    ≡ done (("b.c", "x") ∷ [])
unfolding convert_to_query_values set_query_values put insert
nested_prefix_lost = refl

-- A map in a nested struct is set without the tag of the struct.
map_prefix_lost :
    convert_to_query_values formats (
      structure (
        field "A" "a" false
          (structure (field "M" "m" false (string_map (("k", "v") ∷ [])) end))
          end))
    ≡ done (("m.1.Key", "k") ∷ ("m.1.Value", "v") ∷ [])
unfolding convert_to_query_values set_query_values put put_map insert decimal
map_prefix_lost = refl

array_panics :
    convert_to_query_values formats (structure (field "A" "a" false array end)) ≡ panicked
unfolding convert_to_query_values set_query_values
array_panics = refl

abbrev inner : Fields
inner = field "X" "x" false (str "1") end

inner_made : set_body_values formats (structure inner) ≡ done (entry "x" (text_value "1") vacant)
unfolding set_body_values after_round put_content
inner_made = refl

set_body_values_loses_example :
    set_body_values formats (
      structure (field "In" "in" false (structure inner) (field "Name" "name" false (str "a") end)))
    ≡ set_body_values formats (
        structure
          (field "In" "in" false (structure inner) (field "Name" "name" false (uint 7) end)))
set_body_values_loses_example =
    set_body_values_loses formats "In" "in" "x" (text_value "1") vacant inner
      (field "Name" "name" false (str "a") end) (field "Name" "name" false (uint 7) end) inner_made
      (refl, refl, refl, tt)

abbrev form : Dict String
form = ("b", "2") ∷ ("a", "1") ∷ []

abbrev form_again : Dict String
form_again = ("a", "1") ∷ ("b", "2") ∷ []

form_sorted : encode (λ s. s) form ≡ "a=1&b=2"
unfolding encode sort text_le sort_in write_pairs lookup
form_sorted = refl

same_form : (k : String) → lookup k form ≡ lookup k form_again
unfolding lookup
same_form k = elim (Bool-cases ("a" == k)) [
  | inl a ↦ rw (← (eq_iff "a" k).0 a) refl
  | inr a ↦ rw a refl
]

encode-perm_example : encode (λ s. s) form ≡ encode (λ s. s) form_again
encode-perm_example = encode-perm (λ s. s) form form_again (Perm.swap "a" "b" []) same_form

-- Equal lengths, and every text of the first in the second: the other way round it does not hold.
slices_one_way :
    (is_string_slice_equal ◌==◌ ("a" ∷ "a" ∷ []) ("a" ∷ "b" ∷ []) ≡ true)
    × (is_string_slice_equal ◌==◌ ("a" ∷ "b" ∷ []) ("a" ∷ "a" ∷ []) ≡ false)
unfolding is_string_slice_equal all_found any_fold
slices_one_way = (refl, refl)

unpadded : pkcs7_unpadding (7 ∷ 8 ∷ 2 ∷ 2 ∷ []) ≡ done (7 ∷ 8 ∷ [])
unfolding pkcs7_unpadding
unpadded = refl

unpadding_panics : pkcs7_unpadding (7 ∷ 9 ∷ []) ≡ panicked
unfolding pkcs7_unpadding
unpadding_panics = refl

abbrev leap_day : Time
leap_day = record {
  year = 2024;
  month = 2;
  day = 29;
  hour = 23;
  minute = 5;
  second = 59;
  nanosecond = 12;
  utc = false;
}

abbrev in_unix : Bool → ℕ → ℕ → Time
in_unix below seconds nanoseconds = record leap_day { second = seconds; nanosecond = nanoseconds }

unmarshal_json-marshal_json_example :
    unmarshal_json in_unix (record leap_day { year = 1 }) (marshal_json leap_day)
    ≡ some (new_iso6801_time leap_day)
unfolding days_in is_leap
unmarshal_json-marshal_json_example =
    unmarshal_json-marshal_json in_unix leap_day (record leap_day { year = 1 })
      (
        omega arith,
        (omega arith, omega arith),
        (omega arith, omega arith),
        omega arith,
        omega arith,
        omega arith,
      )

-- A second and a half: the half is taken for nanoseconds.
millis : unmarshal_json in_unix leap_day (49 ∷ 53 ∷ 48 ∷ 48 ∷ []) ≡ some (in_unix false 1 500)
unfolding unmarshal_json parse_int is_empty_text
millis = refl

-- A time without seconds is read by the second layout.
no_seconds :
    unmarshal_json in_unix leap_day (bytes "\"2024-02-29T7:05Z\"")
    ≡ some (record leap_day { hour = 7; second = 0; nanosecond = 0; utc = true })
unfolding unmarshal_json is_empty_text
no_seconds = refl

-- A source of numbers that counts.
abbrev counting : Action ℕ ℕ
counting w = (done w, suc w)

counting_returns : Returns counting
counting_returns w = (w, suc w, refl)

random_string-DrawnFrom_example :
    (bs : Bytes) × (v : ℕ) × (random_string counting 3 (bytes "ab" ∷ bytes "c" ∷ []) 60
      ≡ (done bs, v))
    × DrawnFrom counting counting_returns 3 (charset_of (join (bytes "ab" ∷ bytes "c" ∷ []))) bs
random_string-DrawnFrom_example =
    random_string-DrawnFrom counting counting_returns 3 (bytes "ab" ∷ bytes "c" ∷ []) 60

drawn : random_string counting 3 (bytes "ab" ∷ bytes "c" ∷ []) 61 ≡ (done (bytes "bca"), 64)
unfolding random_string draw join byte_at length
drawn = refl

-- ===== src/Util/Time.antt =====
-- Times in ISO 8601: pkg/util/iso6801.go, with what it uses of package time at the layouts of this file.
-- Texts are lists of bytes. The years before the year 0 and the texts of errors are left out. The zone of
-- the machine is a parameter.
use vpc_route_controller.Common.{
  ℕ, ◌+◌, ◌/◌, ◌%◌, String, Bool, true, ◌&&◌, List, [], ◌∷◌, ◌++◌, ltb, nat_eq, if◌then◌else◌,
  decimal,
}
use Prim.Native.Char.{code}

-- A time on the clock and calendar of its own zone. `utc` tells that its zone is `time.UTC`.
pub record Time : Type 0 where
  pub year : ℕ
  pub month : ℕ
  pub day : ℕ
  pub hour : ℕ
  pub minute : ℕ
  pub second : ℕ
  pub nanosecond : ℕ
  pub utc : Bool

abbrev pub Bytes : Type 0
Bytes = List ℕ

abbrev pub bytes : String → Bytes
bytes String.[] = []
bytes (String.◌∷◌ c s) = code c ∷ bytes s

-- The last digit, at two and at four places.
abbrev digit_byte : ℕ → ℕ
digit_byte n = 48 + n % 10

unfoldable pub two : ℕ → Bytes → Bytes
two n rest = digit_byte (n / 10) ∷ digit_byte n ∷ rest

-- `%04d`, and what `Format` makes of `2006`.
unfoldable pub four : ℕ → Bytes → Bytes
four n rest =
    if ltb n 10000
    then digit_byte (n / 1000) ∷ digit_byte (n / 100) ∷ digit_byte (n / 10) ∷ digit_byte n ∷ rest
    else bytes (decimal n) ++ rest

-- `time.Time.Format` at `2006-01-02T15:04:05Z`, and `fmt.Sprintf` at the fields, before other bytes.
unfoldable pub format_before : Time → Bytes → Bytes
unfolding two four
format_before t rest = four t.year (
    45
    ∷ two t.month
        (45 ∷ two t.day (84 ∷ two t.hour (58 ∷ two t.minute (58 ∷ two t.second (90 ∷ rest))))))

-- `ISO6801Time.String`
unfoldable pub string_of : Time → Bytes
unfolding format_before
string_of t = format_before t []

-- `ISO6801Time.MarshalJSON`
unfoldable pub marshal_json : Time → Bytes
unfolding format_before
marshal_json t = 34 ∷ format_before t (34 ∷ [])

-- `NewISO6801Time`
unfoldable pub new_iso6801_time : Time → Time
new_iso6801_time t = record t { nanosecond = 0; utc = true }

-- `IsDefault`: the first second of the year 1, in the zone that the zero of `time.Time` has.
unfoldable pub is_default : Time → Bool
is_default t =
    nat_eq t.year 1
    && nat_eq t.month 1
    && nat_eq t.day 1
    && nat_eq t.hour 0
    && nat_eq t.minute 0
    && nat_eq t.second 0
    && nat_eq t.nanosecond 0
    && t.utc

-- `GetISO8601TimeStamp`, at the time in UTC.
unfoldable get_iso8601_time_stamp : Time → Bytes
unfolding format_before
get_iso8601_time_stamp t = format_before t []

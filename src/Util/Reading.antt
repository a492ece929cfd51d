-- ===== src/Util/Reading.antt =====
-- How pkg/util/iso6801.go reads a time: `UnmarshalJSON`, with what it uses of packages time and strconv
-- at the layouts of this file.
use vpc_route_controller.Common.{
  ℕ, zero, suc, ◌+◌, ◌-◌, ◌*◌, ◌/◌, ◌%◌, ◌^◌, not, Bool, true, false, ◌&&◌, ◌||◌, Option, none,
  some, [], ◌∷◌, leb, nat_eq, if◌then◌else◌,
}
use vpc_route_controller.Util.Time.{Time, Bytes}

-- Reads at a text: what was read, and the rest; `none` is an error.
abbrev pub Reader : Type 0 → Type 0
Reader A = Bytes → Option (A × Bytes)

module _ {A B : Type 0} where
  infixl 5 ◌>>=◌ ◌>>◌
  abbrev pub ◌>>=◌ : Reader A → (A → Reader B) → Reader B
  (r >>= f) s = elim (r s) [ none ↦ none | some (a, rest) ↦ f a rest ]

  abbrev pub ◌>>◌ : Reader A → Reader B → Reader B
  r >> q = r >>= λ _. q

abbrev pub give : {A : Type 0} → A → Reader A
give a s = some (a, s)

abbrev is_digit : ℕ → Bool
is_digit c = leb 48 c && leb c 57

-- A byte of the layout that stands for itself.
abbrev pub literal : ℕ → Reader (Unit {0})
literal c [] = none
literal c (d ∷ s) = if nat_eq d c then some (tt, s) else none

-- `getnum` with `fixed`.
unfoldable pub two_digits : Reader ℕ
two_digits (a ∷ b ∷ s) =
    if is_digit a && is_digit b then some ((a - 48) * 10 + (b - 48), s) else none
two_digits _ = none

-- `getnum` without.
unfoldable pub one_or_two : Reader ℕ
one_or_two [] = none
one_or_two (a ∷ []) = if is_digit a then some (a - 48, []) else none
one_or_two (a ∷ b ∷ s) =
    if is_digit a
    then (if is_digit b then some ((a - 48) * 10 + (b - 48), s) else some (a - 48, b ∷ s))
    else none

unfoldable pub four_digits : Reader ℕ
four_digits (a ∷ b ∷ c ∷ d ∷ s) =
    if is_digit a && is_digit b && is_digit c && is_digit d
    then some ((a - 48) * 1000 + (b - 48) * 100 + (c - 48) * 10 + (d - 48), s)
    else none
four_digits _ = none

-- A number that `Parse` refuses out of a range.
unfoldable pub within : ℕ → ℕ → Reader ℕ → Reader ℕ
within lo hi r s = elim (r s) [
  | none ↦ none
  | some (n, rest) ↦ if leb lo n && leb n hi then some (n, rest) else none
]

unfoldable digits : Bytes → Bytes × Bytes
digits [] = ([], [])
digits (c ∷ s) = let (ds, rest) = digits s in if is_digit c then (c ∷ ds, rest) else ([], c ∷ s)

-- The first digits at so many places.
unfoldable places : ℕ → Bytes → ℕ
places zero ds = 0
places (suc k) [] = 0
places (suc k) (d ∷ ds) = (d - 48) * 10 ^ k + places k ds

abbrev fraction_of : ℕ → Bytes → Bytes × Bytes → Option (ℕ × Bytes)
fraction_of c s ([], rest) = some (0, c ∷ s)
fraction_of c s (d ∷ ds, rest) = some (places 9 (d ∷ ds), rest)

-- The fraction of a second, which the layout does not have and `Parse` takes all the same.
unfoldable pub fraction : Reader ℕ
unfolding digits places
fraction [] = some (0, [])
fraction (c ∷ s) =
    if nat_eq c 46 || nat_eq c 44 then fraction_of c s (digits s) else some (0, c ∷ s)

unfoldable pub is_leap : ℕ → Bool
is_leap year = nat_eq (year % 4) 0 && (not (nat_eq (year % 100) 0) || nat_eq (year % 400) 0)

-- `daysIn`
unfoldable pub days_in : ℕ → ℕ → ℕ
unfolding is_leap
days_in month year =
    if nat_eq month 2
    then (if is_leap year then 29 else 28)
    else if nat_eq month 4 || nat_eq month 6 || nat_eq month 9 || nat_eq month 11
    then 30
    else 31

-- The year, the month and the day, and the `T` after them.
unfoldable pub read_date : Reader (ℕ × ℕ × ℕ)
unfolding four_digits two_digits within
read_date = do
  literal 34
  year ← four_digits
  literal 45
  month ← within 1 12 two_digits
  literal 45
  day ← two_digits
  literal 84
  give (year, month, day)

unfoldable pub read_hour : Reader (ℕ × ℕ)
unfolding one_or_two two_digits within
read_hour = do
  hour ← within 0 23 one_or_two
  literal 58
  minute ← within 0 59 two_digits
  give (hour, minute)

unfoldable pub read_second : Reader (ℕ × ℕ)
unfolding two_digits within fraction
read_second = do
  literal 58
  second ← within 0 59 two_digits
  nanosecond ← fraction
  give (second, nanosecond)

-- The end of the text, and the day in its month.
unfoldable pub read_end : ℕ × ℕ × ℕ → ℕ × ℕ → ℕ × ℕ → Bytes → Option Time
unfolding days_in
read_end (y, mo, d) (h, mi) (s, ns) rest = elim ((do literal 90; literal 34) rest) [
  | some (u, []) ↦
      if leb 1 d && leb d (days_in mo y)
      then some (record {
        year = y;
        month = mo;
        day = d;
        hour = h;
        minute = mi;
        second = s;
        nanosecond = ns;
        utc = true;
      })
      else none
  | _ ↦ none
]

-- `time.ParseInLocation` in UTC, at the layout with seconds, and at the one without.
unfoldable pub parse_seconds : Bytes → Option Time
unfolding read_date read_hour read_second read_end
parse_seconds s = elim (read_date s) [
  | none ↦ none
  | some (date, s1) ↦ elim (read_hour s1) [
    | none ↦ none
    | some (clock, s2) ↦ elim (read_second s2) [
      | none ↦ none
      | some (seconds, s3) ↦ read_end date clock seconds s3
    ]
  ]
]

unfoldable parse_minutes : Bytes → Option Time
unfolding read_date read_hour read_end
parse_minutes s = elim (read_date s) [
  | none ↦ none
  | some (date, s1) ↦ elim (read_hour s1) [
    | none ↦ none
    | some (clock, s2) ↦ read_end date clock (0, 0) s2
  ]
]

unfoldable number : ℕ → Bytes → Option ℕ
number n [] = some n
number n (c ∷ s) = let rest = number (n * 10 + (c - 48)) s in if is_digit c then rest else none

abbrev up_to : ℕ → Option ℕ → Option ℕ
up_to most none = none
up_to most (some n) = if leb n most then some n else none

abbrev magnitude : ℕ → Bytes → Option ℕ
magnitude most [] = none
magnitude most (c ∷ s) = up_to most (number 0 (c ∷ s))

abbrev signed : Bool → Option ℕ → Option (Bool × ℕ)
signed below none = none
signed below (some n) = some (below, n)

-- `strconv.ParseInt` at base 10 and 64 bits: whether the number is below zero, and its size.
unfoldable pub parse_int : Bytes → Option (Bool × ℕ)
unfolding number
parse_int [] = none
parse_int (c ∷ s) =
    if nat_eq c 45
    then signed true (magnitude (2 ^ 63) s)
    else if nat_eq c 43
    then signed false (magnitude (2 ^ 63 - 1) s)
    else signed false (magnitude (2 ^ 63 - 1) (c ∷ s))

unfoldable pub is_empty_text : Bytes → Bool
is_empty_text (a ∷ b ∷ []) = nat_eq a 34 && nat_eq b 34
is_empty_text _ = false

abbrev from_millis : (Bool → ℕ → ℕ → Time) → Option (Bool × ℕ) → Option Time
from_millis unix none = none
from_millis unix (some (below, n)) = some (unix below (n / 1000) (n % 1000))

-- `UnmarshalJSON`: the time afterwards, or none where there is an error, which leaves it as it was. The
-- parameter is `time.Unix` in the zone of the machine, at a sign that seconds and nanoseconds have in common.
unfoldable pub unmarshal_json : (Bool → ℕ → ℕ → Time) → Time → Bytes → Option Time
unfolding parse_seconds parse_minutes parse_int is_empty_text
unmarshal_json unix t [] = some t
unmarshal_json unix t (c ∷ s) =
    if is_empty_text (c ∷ s)
    then some t
    else if nat_eq c 34
    then (elim (parse_seconds (c ∷ s)) [ some u ↦ some u | none ↦ parse_minutes (c ∷ s) ])
    else from_millis unix (parse_int (c ∷ s))

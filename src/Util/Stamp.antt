-- ===== src/Util/Stamp.antt =====
-- What `UnmarshalJSON` makes of what `MarshalJSON` writes (pkg/util/iso6801.go).
use vpc_route_controller.Common.{
  ℕ, ◌≤◌, ◌<◌, Bool, false, Option, none, some, [], ◌∷◌, ◌≡◌, refl, ◌∙◌, ap, arith,
}
use vpc_route_controller.Util.Time.{
  Time, Bytes, two, four, format_before, marshal_json, new_iso6801_time,
}
use vpc_route_controller.Util.Reading.{
  Reader, ◌>>=◌, ◌>>◌, give, literal, two_digits, one_or_two, four_digits, within, days_in,
  fraction, read_date, read_hour, read_second, read_end, parse_seconds, is_empty_text,
  unmarshal_json,
}

-- A time that a clock and a calendar can show, in a year of four digits.
abbrev IsValid : Time → Type 0
IsValid t =
    (t.year < 10000)
    × ((1 ≤ t.month) × (t.month ≤ 12))
    × ((1 ≤ t.day) × (t.day ≤ days_in t.month t.year))
    × (t.hour < 24)
    × (t.minute < 60)
    × (t.second < 60)

two_digits-two : (n : ℕ) (rest : Bytes) → n < 100 → two_digits (two n rest) ≡ some (n, rest)
unfolding two_digits two
two_digits-two n rest small = ground arith

one_or_two-two : (n : ℕ) (rest : Bytes) → n < 100 → one_or_two (two n rest) ≡ some (n, rest)
unfolding one_or_two two
one_or_two-two n rest small = ground arith

four_digits-four : (n : ℕ) (rest : Bytes) → n < 10000 → four_digits (four n rest) ≡ some (n, rest)
unfolding four_digits four
four_digits-four n rest small = ground arith

within-some :
    (lo hi n : ℕ) (r : Reader ℕ) (s rest : Bytes)
    → r s ≡ some (n, rest)
    → lo ≤ n
    → n ≤ hi
    → within lo hi r s ≡ some (n, rest)
unfolding within
within-some lo hi n r s rest e low high = rw (e, within) (ground arith)

bind-some :
    {A B : Type 0} (r : Reader A) (f : A → Reader B) (s rest : Bytes) (a : A)
    → r s ≡ some (a, rest)
    → (r >>= f) s ≡ f a rest
bind-some {A} {B} r f s rest a e =
    ap (λ out. elim out as (λ _. Option (B × Bytes)) [ none ↦ none | some (x, later) ↦ f x later ])
      e

read_date-format :
    (y mo d : ℕ) (rest : Bytes)
    → y < 10000
    → 1 ≤ mo
    → mo ≤ 12
    → d < 100
    → read_date (34 ∷ four y (45 ∷ two mo (45 ∷ two d (84 ∷ rest)))) ≡ some ((y, mo, d), rest)
unfolding read_date
read_date-format y mo d rest ly lo hi ld =
    let days = two d (84 ∷ rest) in
    let months = two mo (45 ∷ days) in
    bind-some four_digits
      (λ year.
        literal 45
        >> (within 1 12 two_digits >>= λ month.
            literal 45 >> (two_digits >>= λ day. literal 84 >> give (year, month, day))))
      (four y (45 ∷ months)) (45 ∷ months) y (four_digits-four y (45 ∷ months) ly)
    ∙ (bind-some (within 1 12 two_digits)
          (λ month. literal 45 >> (two_digits >>= λ day. literal 84 >> give (y, month, day))) months
          (45 ∷ days) mo
          (within-some 1 12 mo two_digits months (45 ∷ days)
            (two_digits-two mo (45 ∷ days) (omega arith)) lo hi)
        ∙ bind-some two_digits (λ day. literal 84 >> give (y, mo, day)) days (84 ∷ rest) d
            (two_digits-two d (84 ∷ rest) ld))

read_hour-format :
    (h mi : ℕ) (rest : Bytes)
    → h < 24
    → mi < 60
    → read_hour (two h (58 ∷ two mi rest)) ≡ some ((h, mi), rest)
unfolding read_hour
read_hour-format h mi rest lh lm =
    let minutes = two mi rest in
    bind-some (within 0 23 one_or_two)
      (λ hour. literal 58 >> (within 0 59 two_digits >>= λ minute. give (hour, minute)))
      (two h (58 ∷ minutes)) (58 ∷ minutes) h
      (within-some 0 23 h one_or_two (two h (58 ∷ minutes)) (58 ∷ minutes)
        (one_or_two-two h (58 ∷ minutes) (omega arith)) (omega arith) (omega arith))
    ∙ bind-some (within 0 59 two_digits) (λ minute. give (h, minute)) minutes rest mi
        (within-some 0 59 mi two_digits minutes rest (two_digits-two mi rest (omega arith))
          (omega arith) (omega arith))

read_second-format :
    (s : ℕ) (rest : Bytes)
    → s < 60
    → read_second (58 ∷ two s (90 ∷ rest)) ≡ some ((s, 0), 90 ∷ rest)
unfolding read_second fraction
read_second-format s rest ls =
    bind-some (within 0 59 two_digits)
      (λ second. fraction >>= λ nanosecond. give (second, nanosecond)) (two s (90 ∷ rest))
      (90 ∷ rest) s
      (within-some 0 59 s two_digits (two s (90 ∷ rest)) (90 ∷ rest)
        (two_digits-two s (90 ∷ rest) (omega arith)) (omega arith) (omega arith))

days_in-bound : (month year : ℕ) → days_in month year < 100
unfolding days_in
days_in-bound month year = ground arith

read_end-format :
    (t : Time)
    → IsValid t
    → read_end (t.year, t.month, t.day) (t.hour, t.minute) (t.second, 0) (90 ∷ 34 ∷ [])
      ≡ some (new_iso6801_time t)
unfolding read_end new_iso6801_time
read_end-format t (y, mo, (lo, hi), h, mi, s) = ground arith

parse_from :
    (s s1 s2 s3 : Bytes) (date : ℕ × ℕ × ℕ) (clock seconds : ℕ × ℕ)
    → read_date s ≡ some (date, s1)
    → read_hour s1 ≡ some (clock, s2)
    → read_second s2 ≡ some (seconds, s3)
    → parse_seconds s ≡ read_end date clock seconds s3
unfolding parse_seconds
parse_from s s1 s2 s3 date clock seconds first second third =
    rw (first, parse_seconds) (rw second (rw third refl))

parse-format : (t : Time) → IsValid t → parse_seconds (marshal_json t) ≡ some (new_iso6801_time t)
unfolding marshal_json format_before
parse-format t (y, mo, (lo, hi), h, mi, s) =
    let seconds = 58 ∷ two t.second (90 ∷ 34 ∷ []) in
    let hours = two t.hour (58 ∷ two t.minute seconds) in
    let small : t.day < 100 = ground (arith, hi, days_in-bound t.month t.year) in
    parse_from (marshal_json t) hours seconds (90 ∷ 34 ∷ []) (t.year, t.month, t.day)
      (t.hour, t.minute) (t.second, 0)
      (read_date-format t.year t.month t.day hours y mo.0 mo.1 small)
      (read_hour-format t.hour t.minute seconds h mi) (read_second-format t.second (34 ∷ []) s)
    ∙ read_end-format t (y, mo, (lo, hi), h, mi, s)

is_empty_text-marshal_json : (t : Time) → t.year < 10000 → is_empty_text (marshal_json t) ≡ false
unfolding is_empty_text marshal_json format_before four
is_empty_text-marshal_json t small = ground arith

from_text :
    (unix : Bool → ℕ → ℕ → Time) (u v : Time) (s : Bytes)
    → is_empty_text (34 ∷ s) ≡ false
    → parse_seconds (34 ∷ s) ≡ some v
    → unmarshal_json unix u (34 ∷ s) ≡ some v
unfolding unmarshal_json
from_text unix u v s full parsed = rw (full, unmarshal_json) (rw parsed refl)

-- For a time on the clock and calendar, in a year of at most four digits, UnmarshalJSON reads back
-- from what MarshalJSON wrote what NewISO6801Time makes of it, whatever was there before: the same
-- year, month, day, hour, minute and second without the nanoseconds, taken as UTC, which is
-- another instant where the time was in another zone.
pub unmarshal_json-marshal_json :
    (unix : Bool → ℕ → ℕ → Time) (t u : Time)
    → IsValid t
    → unmarshal_json unix u (marshal_json t) ≡ some (new_iso6801_time t)
unfolding marshal_json
unmarshal_json-marshal_json unix t u valid =
    from_text unix u (new_iso6801_time t) (format_before t (34 ∷ []))
      (is_empty_text-marshal_json t valid.0) (parse-format t valid)

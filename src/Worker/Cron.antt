-- ===== src/Worker/Cron.antt =====
-- Cron expressions: `matchCronSegment`, `matchesCronExpression` and `shouldRunPolicyAtTime` of
-- apps/worker/src/backup-runner.ts, and the UTC fields of a `Date`. A time is a number of
-- milliseconds from the epoch. A number in a segment is exact, which the source's rounding of very
-- long ones does not change: they only meet numbers below 60.
pub mod Polling
pub mod Weekdays
use simple_host_man.Prelude.Text.{includes, codes, split, is_space, same, is_digit, trim, Text}
use simple_host_man.Prelude.{
  leb, any, reverse, ◌==◌, ◌/◌, ◌%◌, ltb, refl, sym, ap, ◌∙◌, ◌≡◌, ◌≢◌, ◌⊎◌, ◌↔◌, inl, inr, ℕ, zero,
  suc, ◌+◌, ◌-◌, ◌*◌, ◌≤◌, ◌<◌, Bool, true, false, not, ◌&&◌, ◌||◌, String, Option, none, some,
  List, [], ◌∷◌, ◌++◌, map, if◌then◌else◌, arith, Bool-cases, Option-cases, str_eq,
}

-- `/^\d+$/` and `Number.parseInt(value, 10)`
abbrev digits_value : ℕ → Text → ℕ
digits_value acc [] = acc
digits_value acc (c ∷ s) = digits_value (acc * 10 + (c - b'0')) s

abbrev all_digits : Text → Bool
all_digits [] = true
all_digits (c ∷ s) = is_digit c && all_digits s

abbrev is_empty : Text → Bool
is_empty [] = true
is_empty (c ∷ s) = false

unfoldable pub parse_integer : Text → Option ℕ
parse_integer value =
    if not (is_empty value) && all_digits value then some (digits_value 0 value) else none

unfoldable pub normalize_cron_value : ℕ → ℕ → ℕ
normalize_cron_value value max = if max == 7 && value == 7 then 0 else value

-- The part at a place of a split, `undefined` where there is none.
abbrev part_at : ℕ → List Text → Option Text
part_at n [] = none
part_at zero (t ∷ ts) = some t
part_at (suc n) (t ∷ ts) = part_at n ts

abbrev text_or_empty : Option Text → Text
text_or_empty none = []
text_or_empty (some t) = t

abbrev step_of : Option Text → Option ℕ
step_of none = some 1
step_of (some t) = if is_empty t then some 1 else parse_integer t

abbrev is_multiple : ℕ → ℕ → Bool
is_multiple n step = (n % step) == 0

abbrev pub in_range : ℕ → ℕ → ℕ → Option ℕ → Option ℕ → Bool
in_range step value max (some start) (some end) =
    let low = normalize_cron_value start max in
    let high = normalize_cron_value end max in
    if ltb value low || ltb high value then false else is_multiple (value - low) step
in_range step value max _ _ = false

abbrev is_exactly : ℕ → ℕ → Option ℕ → Bool
is_exactly value max none = false
is_exactly value max (some exact) = normalize_cron_value exact max == value

unfoldable pub match_base : Text → ℕ → ℕ → ℕ → ℕ → Bool
match_base base step value min max =
    if is_empty base || same base (codes "*")
    then leb min value && leb value max && is_multiple (value - min) step
    else if includes (codes "-") base
    then in_range step value max (parse_integer (text_or_empty (part_at 0 (split b'-' base))))
        (parse_integer (text_or_empty (part_at 1 (split b'-' base))))
    else is_exactly value max (parse_integer base)

abbrev match_step : Text → Option ℕ → ℕ → ℕ → ℕ → Bool
match_step base none value min max = false
match_step base (some zero) value min max = false
match_step base (some (suc n)) value min max = match_base base (suc n) value min max

unfoldable pub match_cron_segment : Text → ℕ → ℕ → ℕ → Bool
match_cron_segment segment value min max =
    let trimmed = trim segment in
    if same trimmed (codes "*")
    then true
    else match_step (text_or_empty (part_at 0 (split b'/' trimmed)))
        (step_of (part_at 1 (split b'/' trimmed))) (normalize_cron_value value max) min max

-- `split(/\s+/)`, a run of white space being one separator.
abbrev split_from : Bool → Text → Text → List Text
split_from skipping word [] = reverse word ∷ []
split_from true word (c ∷ s) = elim (is_space c) [
  | true ↦ split_from true word s
  | false ↦ split_from false (c ∷ []) s
]
split_from false word (c ∷ s) = elim (is_space c) [
  | true ↦ reverse word ∷ split_from true [] s
  | false ↦ split_from false (c ∷ word) s
]

abbrev split_spaces : Text → List Text
split_spaces s = split_from false [] s

-- The fields of a time in UTC; the calendar counts from the first of March of the year 0. The stamp
-- is the minute that the first 16 characters of `toISOString` tell, up to the year 9999.
abbrev pub minute_stamp : ℕ → ℕ
minute_stamp t = t / 60000

abbrev utc_minute : ℕ → ℕ
utc_minute t = (t / 60000) % 60

abbrev utc_hour : ℕ → ℕ
utc_hour t = (t / 3600000) % 24

abbrev utc_day_of_week : ℕ → ℕ
utc_day_of_week t = (t / 86400000 + 4) % 7

abbrev day_of_era : ℕ → ℕ
day_of_era t = (t / 86400000 + 719468) % 146097

abbrev year_of_era : ℕ → ℕ
year_of_era doe = (doe - doe / 1460 + doe / 36524 - doe / 146096) / 365

abbrev day_of_year : ℕ → ℕ
day_of_year doe = let year = year_of_era doe in doe - (365 * year + year / 4 - year / 100)

abbrev shifted_month : ℕ → ℕ
shifted_month t = (5 * day_of_year (day_of_era t) + 2) / 153

abbrev utc_date : ℕ → ℕ
utc_date t = day_of_year (day_of_era t) - (153 * shifted_month t + 2) / 5 + 1

abbrev utc_month : ℕ → ℕ
utc_month t = let m = shifted_month t in if ltb m 10 then m + 3 else m - 9

unfoldable pub match_field : Text → ℕ → ℕ → ℕ → Bool
match_field field value min max =
    any (λ segment. match_cron_segment segment value min max) (split b',' field)

unfoldable pub field_is_wildcard : Text → Bool
field_is_wildcard field = same (trim field) (codes "*")

abbrev day_matches : Text → Text → ℕ → Bool
day_matches day_of_month_field day_of_week_field t =
    let of_month = match_field day_of_month_field (utc_date t) 1 31 in
    let of_week = match_field day_of_week_field (utc_day_of_week t) 0 7 in
    if field_is_wildcard day_of_month_field && field_is_wildcard day_of_week_field
    then true
    else if field_is_wildcard day_of_month_field
    then of_week
    else if field_is_wildcard day_of_week_field
    then of_month
    else of_month || of_week

abbrev matches_fields : List Text → ℕ → Bool
matches_fields (minute ∷ hour ∷ day_of_month ∷ month ∷ day_of_week ∷ []) t =
    if not (match_field minute (utc_minute t) 0 59)
      || not (match_field hour (utc_hour t) 0 23)
      || not (match_field month (utc_month t) 1 12)
    then false
    else day_matches day_of_month day_of_week t
matches_fields _ t = false

unfoldable pub matches_cron_expression : Text → ℕ → Bool
matches_cron_expression schedule t = matches_fields (split_spaces (trim schedule)) t

abbrev started : Option ℕ → ℕ
started none = 0
started (some t) = t

unfoldable pub should_run_policy_at_time : Text → Option ℕ → ℕ → Bool → Bool
should_run_policy_at_time schedule latest_started_at now force =
    if force
    then true
    else if not (matches_cron_expression schedule now)
    then false
    else not (minute_stamp (started latest_started_at) == minute_stamp now)

-- ===== src/Logs/Times.antt =====
-- The times of log lines, in nanoseconds since Go's zero time (internal/parser/logformat.go). The
-- expressions of the formats let through digits only, so signs are left out; years are at least 1.
use eebus_tracer.Prelude.{
  ℕ, ◌++◌, ◌+◌, ◌-◌, ◌*◌, ◌/◌, ◌%◌, ◌^◌, Bool, not, ◌&&◌, ◌||◌, List, [], ◌∷◌, Option, none, some,
  ◌==◌, nat_eq, if◌then◌else◌, ltb, leb, get_elem?, take, drop, length,
}

-- The numbers of `time.Hour` and the others.
abbrev pub second : ℕ
second = 1000000000

-- `strconv.Atoi`; `none` where it has an error of syntax. Numbers out of range become the largest.
unfoldable pub digits_from : ℕ → List ℕ → Option ℕ
digits_from n [] = some n
digits_from n (c ∷ s) =
    let rest = digits_from (n * 10 + (c - 48)) s in
    if not (ltb c 48) && ltb c 58 then rest else none

unfoldable pub atoi : List ℕ → Option ℕ
unfolding digits_from
atoi [] = none
atoi (c ∷ s) = elim (digits_from 0 (c ∷ s)) [
  | none ↦ none
  | some n ↦ some (if ltb n (2 ^ 63) then n else 2 ^ 63 - 1)
]

-- `n, _ := strconv.Atoi(s)`
abbrev pub atoi_or_zero : List ℕ → ℕ
unfolding atoi
atoi_or_zero s = elim (atoi s) [ none ↦ 0 | some n ↦ n ]

-- `strings.Split` by a byte; `strings.SplitN` in two parts.
unfoldable pub split : ℕ → List ℕ → List (List ℕ)
split sep [] = [] ∷ []
split sep (c ∷ s) =
    if c == sep
    then [] ∷ split sep s
    else elim (split sep s) [ [] ↦ (c ∷ []) ∷ [] | part ∷ parts ↦ (c ∷ part) ∷ parts ]

unfoldable pub split_two : ℕ → List ℕ → Option (List ℕ × List ℕ)
split_two sep [] = none
split_two sep (c ∷ s) =
    let rest : Option (List ℕ × List ℕ) = elim (split_two sep s) [
      | none ↦ none
      | some (a, b) ↦ some (c ∷ a, b)
    ] in
    if c == sep then some ([], s) else rest

-- `HH:MM:SS.fff` as hours, minutes, seconds and the nanoseconds that the fraction stands for.
unfoldable pub clock : (List ℕ → ℕ) → List ℕ → Option (ℕ × ℕ × ℕ × ℕ)
unfolding split split_two atoi
clock fraction s = elim (split_two b'.' s) [
  | none ↦ none
  | some (hms, frac) ↦ elim (split b':' hms) [
    | h ∷ m ∷ t ∷ [] ↦ some (atoi_or_zero h, atoi_or_zero m, atoi_or_zero t, fraction frac)
    | _ ↦ none
  ]
]

abbrev pub milliseconds : List ℕ → ℕ
milliseconds s = atoi_or_zero s * 1000000

-- The fraction of `ParseDLTTextTimestamp`, cut or filled up to nine digits.
abbrev pub nine_digits : List ℕ → ℕ
nine_digits s =
    atoi_or_zero (take 9 (s ++ b'0' ∷ b'0' ∷ b'0' ∷ b'0' ∷ b'0' ∷ b'0' ∷ b'0' ∷ b'0' ∷ b'0' ∷ []))

abbrev pub nanoseconds : ℕ × ℕ × ℕ × ℕ → ℕ
nanoseconds (h, m, s, ns) = h * (3600 * second) + m * (60 * second) + s * second + ns

-- `ParseLogTimestamp`
unfoldable pub parse_log_timestamp : ℕ → List ℕ → Option ℕ
unfolding clock
parse_log_timestamp base_date time_str = elim (clock milliseconds time_str) [
  | none ↦ none
  | some c ↦ some (base_date + nanoseconds c)
]

abbrev pub is_leap : ℕ → Bool
is_leap y = (y % 4 == 0 && not (y % 100 == 0)) || y % 400 == 0

-- The days in front of a year, and of a month in it, counted from 0.
abbrev pub days_before_year : ℕ → ℕ
days_before_year y = 365 * (y - 1) + (y - 1) / 4 - (y - 1) / 100 + (y - 1) / 400

unfoldable pub days_before_month : ℕ → ℕ → ℕ
days_before_month y m =
    let days : ℕ =
      elim (get_elem? {A = ℕ}
        (0 ∷ 31 ∷ 59 ∷ 90 ∷ 120 ∷ 151 ∷ 181 ∷ 212 ∷ 243 ∷ 273 ∷ 304 ∷ 334 ∷ 365 ∷ []) m) [
          | none ↦ 0
          | some d ↦ d
        ] in
    if is_leap y && ltb 1 m then days + 1 else days

-- `time.Date` in UTC: a month out of range counts into the next or the last year, and other values out
-- of range count on.
unfoldable pub date : ℕ → ℕ → ℕ → ℕ × ℕ × ℕ × ℕ → ℕ
unfolding days_before_month
date year month day c =
    let y = if month == 0 then year - 1 else year + (month - 1) / 12 in
    let m = if month == 0 then 11 else (month - 1) % 12 in
    (days_before_year y + days_before_month y m + day - 1) * (86400 * second) + nanoseconds c

-- A date by the texts of its parts, and a time of day.
unfoldable pub date_of : List ℕ → List ℕ → List ℕ → Option (ℕ × ℕ × ℕ × ℕ) → Option ℕ
unfolding atoi date
date_of year month day time = elim (atoi year) [
  | none ↦ none
  | some y ↦ elim (atoi month) [
    | none ↦ none
    | some m ↦ elim (atoi day) [
      | none ↦ none
      | some d ↦ elim time [ none ↦ none | some c ↦ some (date y m d c) ]
    ]
  ]
]

-- `ParseEEBusTesterTimestamp`
unfoldable pub parse_eebus_tester_timestamp : List ℕ → List ℕ → Option ℕ
unfolding clock date_of
parse_eebus_tester_timestamp date_str time_str =
    if length date_str == 8
    then date_of (take 4 date_str) (take 2 (drop 4 date_str)) (drop 6 date_str)
        (clock milliseconds time_str)
    else none

-- `ParseDLTTextTimestamp`
unfoldable pub parse_dlt_text_timestamp : List ℕ → List ℕ → Option ℕ
unfolding clock date_of
parse_dlt_text_timestamp date_str time_str =
    if length date_str == 10
    then date_of (take 4 date_str) (take 2 (drop 5 date_str)) (drop 8 date_str)
        (clock nine_digits time_str)
    else none

-- `time.Parse` of a date by `sep` and of `HH:MM:SS`, on digits in their places: it refuses values out
-- of range.
unfoldable pub parse_time : ℕ → List ℕ → List ℕ → Option ℕ
unfolding split atoi days_before_month date
parse_time sep date_str time_str = elim (split sep date_str) [
  | ys ∷ ms ∷ ds ∷ [] ↦ elim (split b':' time_str) [
    | h ∷ mi ∷ s ∷ [] ↦
        let y = atoi_or_zero ys in
        let m = atoi_or_zero ms in
        let d = atoi_or_zero ds in
        let days = days_before_month y m - days_before_month y (m - 1) in
        if not (m == 0)
          && leb m 12
          && not (d == 0)
          && leb d days
          && ltb (atoi_or_zero h) 24
          && ltb (atoi_or_zero mi) 60
          && ltb (atoi_or_zero s) 60
        then some (date y m d (atoi_or_zero h, atoi_or_zero mi, atoi_or_zero s, 0))
        else none
    | _ ↦ none
  ]
  | _ ↦ none
]

-- `ParseEEBusHubTimestamp`, `ParseEVCCTimestamp`
unfoldable pub parse_eebus_hub_timestamp : List ℕ → List ℕ → Option ℕ
unfolding parse_time
parse_eebus_hub_timestamp = parse_time b'-'

unfoldable pub parse_evcc_timestamp : List ℕ → List ℕ → Option ℕ
unfolding parse_time
parse_evcc_timestamp = parse_time b'/'

-- ===== src/Cron/Schedule.antt =====
-- packages/telemetry-core/src/cron/schedule.ts. Texts are walked as lists of code points; times are
-- counted in milliseconds.
use Prim.Native.Char.{code}
use patze_control.Base.{
  ℕ, zero, suc, ◌+◌, ◌-◌, ◌*◌, ◌/◌, ◌%◌, Bool, true, false, ◌&&◌, ◌||◌, Option, none, some, List,
  [], ◌∷◌, ◌++◌, String, eqb, leb, ltb, if◌then◌else◌, or_else, length,
}
use patze_control.Cron.Types.{TaskSchedule, at, every, cron}

-- The calendar of the runtime: `new Date(text).getTime()`, the local fields of a date,
-- `setSeconds(0, 0)`, and the conversions to and from a time zone.
pub record CalendarFields : Type 0 where
  pub minute : ℕ
  pub hour : ℕ
  pub day_of_month : ℕ
  pub month : ℕ
  pub day_of_week : ℕ

pub record Calendar : Type 0 where
  pub parse_date : String → Option ℕ
  pub fields : ℕ → CalendarFields
  pub start_of_minute : ℕ → ℕ
  pub to_tz_date : ℕ → String → ℕ
  pub from_tz_date : ℕ → String → ℕ

abbrev pub codes : String → List ℕ
codes String.[] = []
codes (String.◌∷◌ c s) = code c ∷ codes s

-- `text.split(separator)`: at least one part.
abbrev push_head : ℕ → List (List ℕ) → List (List ℕ)
push_head c [] = (c ∷ []) ∷ []
push_head c (p ∷ ps) = (c ∷ p) ∷ ps

unfoldable pub split : ℕ → List ℕ → List (List ℕ)
split sep [] = [] ∷ []
split sep (c ∷ cs) = let rest = split sep cs in if eqb c sep then [] ∷ rest else push_head c rest

unfoldable pub is_space : ℕ → Bool
is_space c =
    (leb 9 c && leb c 13)
    || eqb c 32
    || eqb c 0xa0
    || eqb c 0x1680
    || (leb 0x2000 c && leb c 0x200a)
    || eqb c 0x2028
    || eqb c 0x2029
    || eqb c 0x202f
    || eqb c 0x205f
    || eqb c 0x3000
    || eqb c 0xfeff

abbrev is_empty : List ℕ → Bool
is_empty [] = true
is_empty (x ∷ xs) = false

-- `text.trim().split(/\s+/)`: the words between white space; a blank text has one empty word.
unfoldable pub words_from : List ℕ → List ℕ → List (List ℕ)
unfolding is_space
words_from [] [] = []
words_from (w ∷ ws) [] = (w ∷ ws) ∷ []
words_from word (c ∷ cs) =
    let closed = words_from [] cs in
    let longer = words_from (word ++ (c ∷ [])) cs in
    if is_space c then (if is_empty word then closed else word ∷ closed) else longer

abbrev at_least_one : List (List ℕ) → List (List ℕ)
at_least_one [] = [] ∷ []
at_least_one (w ∷ ws) = w ∷ ws

unfoldable pub words : List ℕ → List (List ℕ)
unfolding words_from
words cs = at_least_one (words_from [] cs)

-- `parseInt(text, 10)`: white space, a sign, and the digits up to the first other character; `none`
-- for NaN. The Boolean says that the number is negative.
unfoldable pub digits_from : ℕ → List ℕ → ℕ
digits_from n [] = n
digits_from n (c ∷ cs) =
    let rest = digits_from (10 * n + (c - b'0')) cs in if leb b'0' c && leb c b'9' then rest else n

unfoldable pub unsigned_int : Bool → List ℕ → Option (Bool × ℕ)
unfolding digits_from
unsigned_int negative [] = none
unsigned_int negative (c ∷ cs) =
    if leb b'0' c && leb c b'9' then some (negative, digits_from 0 (c ∷ cs)) else none

unfoldable pub parse_int : List ℕ → Option (Bool × ℕ)
unfolding unsigned_int is_space
parse_int [] = none
parse_int (c ∷ cs) =
    let later = parse_int cs in
    if is_space c
    then later
    else if eqb c b'-'
    then unsigned_int true cs
    else if eqb c b'+'
    then unsigned_int false cs
    else unsigned_int false (c ∷ cs)

-- `distance % step === 0`; the remainder by 0 or NaN is NaN, and its sign does not matter.
abbrev pub divides : Option (Bool × ℕ) → ℕ → Bool
divides none distance = false
divides (some (negative, step)) distance = ltb 0 step && eqb (distance % step) 0

abbrev pub step_of : List (List ℕ) → Option (Bool × ℕ)
step_of (range ∷ (c ∷ cs) ∷ rest) = parse_int (c ∷ cs)
step_of _ = some (false, 1)

abbrev pub equals_int : Option (Bool × ℕ) → ℕ → Bool
equals_int none value = false
equals_int (some (false, n)) value = eqb n value
equals_int (some (true, n)) value = eqb n 0 && eqb value 0

abbrev pub in_range : Option (Bool × ℕ) → Option (Bool × ℕ) → Option (Bool × ℕ) → ℕ → Bool
in_range (some (false, lo)) (some (false, hi)) step value =
    leb lo value && leb value hi && divides step (value - lo)
in_range _ _ step value = false

-- The tests after `rangePart.split('-')`.
unfoldable pub match_range : List (List ℕ) → List ℕ → Option (Bool × ℕ) → ℕ → ℕ → Bool
unfolding parse_int
match_range (lo ∷ hi ∷ []) range step value max = in_range (parse_int lo) (parse_int hi) step value
match_range _ range step value max =
    equals_int (parse_int range) value
    || (eqb max 7 && equals_int (parse_int range) 7 && eqb value 0)

abbrev is_star : List ℕ → Bool
is_star (c ∷ []) = eqb c b'*'
is_star _ = false

abbrev first_part : List (List ℕ) → List ℕ
first_part [] = []
first_part (p ∷ ps) = p

-- The body of the loop over the parts between commas.
unfoldable pub match_part : List ℕ → ℕ → ℕ → ℕ → Bool
unfolding match_range split
match_part part value min max =
    let step_split = split b'/' part in
    let range = first_part step_split in
    let step = step_of step_split in
    if is_star range
    then divides step (value - min)
    else match_range (split b'-' range) range step value max

unfoldable pub match_parts : List (List ℕ) → ℕ → ℕ → ℕ → Bool
match_parts [] value min max = false
match_parts (part ∷ parts) value min max =
    let rest = match_parts parts value min max in
    if match_part part value min max then true else rest

unfoldable pub match_field : List ℕ → ℕ → ℕ → ℕ → Bool
unfolding match_parts
match_field field value min max =
    if is_star field then true else match_parts (split b',' field) value min max

unfoldable pub matches_cron : List (List ℕ) → CalendarFields → Bool
unfolding match_field
matches_cron (minute ∷ hour ∷ day_of_month ∷ month ∷ day_of_week ∷ rest) date =
    match_field minute date.minute 0 59
    && match_field hour date.hour 0 23
    && match_field day_of_month date.day_of_month 1 31
    && match_field month date.month 1 12
    && match_field day_of_week date.day_of_week 0 7
matches_cron _ date = false

-- `tz ? … : …`: an empty name counts as none.
abbrev is_blank_tz : String → Bool
is_blank_tz String.[] = true
is_blank_tz _ = false

abbrev pub year_ms : ℕ
year_ms = 366 * 24 * 60 * 60 * 1000

abbrev pub max_candidates : ℕ
max_candidates = 525_960

-- `anchor + Math.ceil((now - anchor) / everyMs) * everyMs`: the quotient is rounded towards the
-- later time, also when the anchor lies ahead.
unfoldable pub aligned_from : ℕ → ℕ → ℕ → ℕ
aligned_from anchor every_ms now =
    if leb anchor now
    then anchor + ((now - anchor + (every_ms - 1)) / every_ms) * every_ms
    else anchor - ((anchor - now) / every_ms) * every_ms

module _ (calendar : Calendar) where
  -- The loop over the candidates, a minute apart, with the rounds left.
  unfoldable pub search_from : List (List ℕ) → ℕ → ℕ → ℕ → Option ℕ
  search_from parts limit zero candidate = none
  search_from parts limit (suc rounds) candidate =
      let later = search_from parts limit rounds (candidate + 60_000) in
      if ltb limit candidate
      then none
      else if matches_cron parts (calendar.fields candidate)
      then some candidate
      else later

  abbrev local_time : Option String → ℕ → ℕ
  local_time none now = now
  local_time (some tz) now = if is_blank_tz tz then now else calendar.to_tz_date now tz

  abbrev epoch_time : Option String → ℕ → ℕ
  epoch_time none found = found
  epoch_time (some tz) found = if is_blank_tz tz then found else calendar.from_tz_date found tz

  abbrev pub map_found : Option String → Option ℕ → Option ℕ
  map_found tz none = none
  map_found tz (some found) = some (epoch_time tz found)

  unfoldable pub compute_cron_next : List ℕ → Option String → ℕ → Option ℕ
  compute_cron_next expr tz now =
      let parts = words expr in
      let first = calendar.start_of_minute (local_time tz now + 60_000) in
      if ltb (length parts) 5 || ltb 6 (length parts)
      then none
      else map_found tz (search_from parts (now + year_ms) max_candidates first)

  abbrev after_now : ℕ → Option ℕ → Option ℕ
  after_now now none = none
  after_now now (some target) = if leb target now then none else some target

  unfoldable pub compute_next_run_ms : TaskSchedule → ℕ → Option ℕ
  unfolding aligned_from
  compute_next_run_ms (at date) now = after_now now (calendar.parse_date date)
  compute_next_run_ms (every every_ms anchor_ms) now =
      let next = aligned_from (or_else anchor_ms now) every_ms now in
      if eqb every_ms 0 then none else some (if leb next now then now + every_ms else next)
  compute_next_run_ms (cron expr tz) now = compute_cron_next (codes expr) tz now

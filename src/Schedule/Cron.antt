-- ===== src/Schedule/Cron.antt =====
-- internal/schedule/cron.go. A set of field values is a list; int64 values are bit patterns, so a
-- pattern from 2^63 on is negative. Instants are nanoseconds.
pub mod Steps
pub mod Next
use workhorse_agent.Prelude.{
  ℕ, zero, suc, ◌+◌, ◌-◌, ◌*◌, ◌%◌, ◌^◌, Bool, true, false, ◌&&◌, ◌||◌, not, List, [], ◌∷◌, ◌++◌,
  Option, none, some, Text, is_empty, ltb, leb, ◌==◌, if◌then◌else◌, ◌>>=◌, any,
}

pub record FieldRange : Type 0 where
  pub min : ℕ
  pub max : ℕ

abbrev pub range : ℕ → ℕ → FieldRange
range lo hi = record { min = lo; max = hi }

-- One set of values for each field.
pub record CronSchedule : Type 0 where
  pub minute : List ℕ
  pub hour : List ℕ
  pub day_of_month : List ℕ
  pub month : List ℕ
  pub day_of_week : List ℕ

digits_from : ℕ → Text → Option ℕ
digits_from acc [] = some acc
digits_from acc (c ∷ s) =
    let rest = digits_from (acc * 10 + (c - b'0')) s in
    if leb b'0' c && leb c b'9' then rest else none

in_int64 : ℕ → Option ℕ
in_int64 n = if ltb n (2 ^ 63) then some n else none

digits : Text → Option ℕ
digits [] = none
digits (c ∷ s) = digits_from 0 (c ∷ s) >>= in_int64

-- strconv.Atoi. A number below zero fails each test that follows, so it is an error here.
unfoldable pub atoi : Text → Option ℕ
unfolding digits digits_from in_int64
atoi [] = none
atoi (c ∷ s) =
    if c == b'+'
    then digits s
    else if c == b'-'
    then (digits s >>= λ n. if n == 0 then some 0 else none)
    else digits (c ∷ s)

-- The text before and after the first `sep`, as strings.Index gives them.
unfoldable pub cut : ℕ → Text → Option (Text × Text)
cut sep [] = none
cut sep (c ∷ s) =
    let rest = cut sep s >>= λ e. some (c ∷ e.0, e.1) in if c == sep then some ([], s) else rest

-- strings.Split
unfoldable pub split_by : ℕ → Text → List Text
split_by sep [] = [] ∷ []
split_by sep (c ∷ s) = elim (split_by sep s) [
  | [] ↦ (c ∷ []) ∷ []
  | w ∷ ws ↦ if c == sep then [] ∷ w ∷ ws else (c ∷ w) ∷ ws
]

-- `i <= hi` on int64, for a hi that is not negative.
abbrev pub signed_le : ℕ → ℕ → Bool
signed_le i hi = leb (2 ^ 63) i || leb i hi

-- for i := lo; i <= hi; i += step { set[i] = true }
unfoldable pub step_set : ℕ → ℕ → ℕ → ℕ → List ℕ
step_set zero i hi step = []
step_set (suc f) i hi step = elim (signed_le i hi) [
  | true ↦ i ∷ step_set f ((i + step) % 2 ^ 64) hi step
  | false ↦ []
]

-- Sixty values at most stand in a field, and an overflowing step passes each twice.
abbrev pub step_fuel : ℕ
step_fuel = 128

is_star : Text → Bool
is_star [] = true
is_star (c ∷ []) = c == b'*'
is_star (c ∷ d ∷ s) = false

-- The bounds that the part before the step stands for.
unfoldable pub bounds : FieldRange → Text → Option (ℕ × ℕ)
unfolding is_star atoi cut
bounds r s = if is_star s then some (r.min, r.max) else elim (cut b'-' s) [
  | none ↦ atoi s >>= λ n. some (n, n)
  | some (a, b) ↦ atoi a >>= λ lo. atoi b >>= λ hi. some (lo, hi)
]

in_range : FieldRange → ℕ × ℕ → Bool
in_range r b = not (ltb b.0 r.min || ltb r.max b.1 || ltb b.1 b.0)

expand : FieldRange → ℕ → Text → Option (List ℕ)
expand r step s =
    bounds r s >>= λ b. if in_range r b then some (step_set step_fuel b.0 b.1 step) else none

positive : ℕ → Option ℕ
positive n = if n == 0 then none else some n

unfoldable pub parse_part : FieldRange → Text → Option (List ℕ)
unfolding expand in_range positive bounds step_set
parse_part r part = elim (cut b'/' part) [
  | none ↦ expand r 1 part
  | some (s, step) ↦ atoi step >>= positive >>= λ n. expand r n s
]

parse_parts : FieldRange → List Text → Option (List ℕ)
parse_parts r [] = some []
parse_parts r (p ∷ ps) = parse_part r p >>= λ s. parse_parts r ps >>= λ rest. some (s ++ rest)

non_empty : List ℕ → Option (List ℕ)
non_empty [] = none
non_empty (x ∷ xs) = some (x ∷ xs)

unfoldable pub parse_field : FieldRange → Text → Option (List ℕ)
unfolding parse_parts non_empty parse_part split_by
parse_field r field = parse_parts r (split_by b',' field) >>= non_empty

abbrev is_space : ℕ → Bool
is_space c = (c == 0x20) || (leb 9 c && leb c 13)

-- The white space beyond ASCII, which is two or three bytes long: U+0085, U+00A0, U+1680, U+2000 to
-- U+200A, U+2028, U+2029, U+202F, U+205F and U+3000.
abbrev is_space2 : ℕ → ℕ → Bool
is_space2 a b = (a == 0xC2) && ((b == 0x85) || (b == 0xA0))

abbrev is_space3 : ℕ → ℕ → ℕ → Bool
is_space3 a b c =
    ((a == 0xE1) && (b == 0x9A) && (c == 0x80))
    || ((a == 0xE2)
        && (b == 0x80)
        && ((leb 0x80 c && leb c 0x8A) || (c == 0xA8) || (c == 0xA9) || (c == 0xAF)))
    || ((a == 0xE2) && (b == 0x81) && (c == 0x9F))
    || ((a == 0xE3) && (b == 0x80) && (c == 0x80))

-- Every white space a single byte.
unfoldable pub plain_spaces : Text → Text
plain_spaces [] = []
plain_spaces (a ∷ []) = a ∷ []
plain_spaces (a ∷ b ∷ []) = if is_space2 a b then 0x20 ∷ [] else a ∷ b ∷ []
plain_spaces (a ∷ b ∷ c ∷ s) =
    let after2 = plain_spaces (c ∷ s) in
    let after3 = plain_spaces s in
    let rest = plain_spaces (b ∷ c ∷ s) in
    if is_space2 a b then 0x20 ∷ after2 else if is_space3 a b c then 0x20 ∷ after3 else a ∷ rest

-- strings.Fields: the words between runs of white space. `word` is the word being read.
unfoldable pub fields_from : Text → Text → List Text
fields_from word [] = if is_empty word then [] else word ∷ []
fields_from word (c ∷ s) =
    let after = fields_from [] s in
    let more = fields_from (word ++ c ∷ []) s in
    if is_space c then (if is_empty word then after else word ∷ after) else more

unfoldable pub from_fields : List Text → Option CronSchedule
unfolding parse_field
from_fields (mi ∷ h ∷ d ∷ mo ∷ w ∷ []) = do
  mi' ← parse_field (range 0 59) mi
  h' ← parse_field (range 0 23) h
  d' ← parse_field (range 1 31) d
  mo' ← parse_field (range 1 12) mo
  w' ← parse_field (range 0 6) w
  some (record { minute = mi'; hour = h'; day_of_month = d'; month = mo'; day_of_week = w' })
from_fields _ = none

unfoldable pub parse_expr : Text → Option CronSchedule
unfolding from_fields fields_from plain_spaces
parse_expr expr = from_fields (fields_from [] (plain_spaces expr))

-- The parts of a local time that a schedule reads; the time package computes them.
pub record LocalTime : Type 0 where
  pub minute : ℕ
  pub hour : ℕ
  pub day : ℕ
  pub month : ℕ
  pub weekday : ℕ

unfoldable pub member : ℕ → List ℕ → Bool
unfolding any
member x = any (λ y. y == x)

unfoldable pub fires : CronSchedule → LocalTime → Bool
unfolding member
fires c t =
    member t.minute c.minute
    && member t.hour c.hour
    && member t.month c.month
    && member t.day c.day_of_month
    && member t.weekday c.day_of_week

unfoldable pub matches : Text → LocalTime → Bool
unfolding parse_expr fires
matches expr t = elim (parse_expr expr) [ none ↦ false | some c ↦ fires c t ]

abbrev pub minute_ns : ℕ
minute_ns = 60_000_000_000

-- t.Truncate(time.Minute)
abbrev pub truncate : ℕ → ℕ
truncate t = t - t % minute_ns

-- The outer `none` is an invalid expression, the inner one no match within a week.
module _ (local : ℕ → LocalTime) where
  unfoldable pub search_from : ℕ → Text → ℕ → ℕ → Option ℕ
  search_from zero expr t limit = none
  search_from (suc f) expr t limit = elim (ltb t limit) [
    | false ↦ none
    | true ↦ elim (matches expr (local t)) [
      | true ↦ some t
      | false ↦ search_from f expr (t + minute_ns) limit
    ]
  ]

  -- A week has 10080 minutes; one more where the start is not on a minute.
  unfoldable pub next_match : Text → ℕ → Option (Option ℕ)
  next_match expr from = elim (parse_expr expr) [
    | none ↦ none
    | some c ↦ some (search_from 10_082 expr (truncate from) (from + 10_080 * minute_ns))
  ]

-- ===== src/Proposer/Schema/Clock.antt =====
-- Times and offsets as texts: `_parse_hms` and `_parse_offset` of src/pae/proposer/schema.py, and the
-- `int` of Python that they call, on ASCII text. A failure (`ValueError`) is `none`; a minute counts as
-- 60 seconds.
use hass_ai.Prelude.{
  ℕ, ◌+◌, ◌-◌, ◌*◌, ◌<◌, String, ◌≡◌, refl, Bool, true, false, ◌&&◌, ◌||◌, Option, none, some, List,
  [], ◌∷◌, arith, leb, nat_eq, all, codes, if◌then◌else◌,
}
use hass_ai.Prelude.Int.{ℤ, pos, pos_part, neg, abs, leb_ℤ}
use hass_ai.Miner.Stats.{minute, day_minutes}

abbrev is_digit : ℕ → Bool
is_digit c = leb b'0' c && leb c b'9'

abbrev is_space : ℕ → Bool
is_space c = nat_eq c 32 || (leb 9 c && leb c 13) || (leb 28 c && leb c 31)

-- The digits of an `int` literal: `_` may stand between two of them, blanks behind them.
int_digits : ℕ → Bool → List ℕ → Option ℕ
int_digits acc after_digit [] = if after_digit then some acc else none
int_digits acc after_digit (c ∷ cs) =
    let digit = int_digits (acc * 10 + (c - b'0')) true cs in
    let joined = int_digits acc false cs in
    if is_digit c
    then digit
    else if after_digit && nat_eq c b'_'
    then joined
    else if after_digit && all is_space (c ∷ cs)
    then some acc
    else none

int_signed : List ℕ → Option ℤ
unfolding int_digits
int_signed [] = none
int_signed (c ∷ cs) =
    if nat_eq c b'-'
    then elim (int_digits 0 false cs) [ none ↦ none | some n ↦ some (neg (pos n)) ]
    else elim (int_digits 0 false (if nat_eq c b'+' then cs else c ∷ cs)) [
      | none ↦ none
      | some n ↦ some (pos n)
    ]

-- `int(text)`
int_of : List ℕ → Option ℤ
unfolding int_signed
int_of [] = none
int_of (c ∷ cs) = let rest = int_of cs in if is_space c then rest else int_signed (c ∷ cs)

-- `value.split(sep)`
split_all : ℕ → List ℕ → List ℕ × List (List ℕ)
split_all sep [] = ([], [])
split_all sep (c ∷ cs) =
    let (first, others) = split_all sep cs in
    if nat_eq c sep then ([], first ∷ others) else (c ∷ first, others)

abbrev within : ℤ → ℕ → Bool
within n high = leb_ℤ (pos 0) n && leb_ℤ n (pos high)

-- The sum behind the range check, where the three numbers are not negative.
hms : Option ℤ → Option ℤ → Option ℤ → Option ℕ
hms (some h) (some m) (some s) =
    if within h 23 && within m 59 && within s 59
    then some (pos_part h * 60 * minute + pos_part m * minute + pos_part s)
    else none
hms _ _ _ = none

-- Three parts exactly, or the unpacking raises.
parse_parts : List ℕ × List (List ℕ) → Option ℕ
unfolding hms int_of
parse_parts (h, m ∷ s ∷ []) = hms (int_of h) (int_of m) (int_of s)
parse_parts _ = none

parse_codes : List ℕ → Option ℕ
unfolding parse_parts split_all
parse_codes cs = parse_parts (split_all b':' cs)

unfoldable pub parse_hms : String → Option ℕ
unfolding parse_codes
parse_hms value = parse_codes (codes value)

-- `value.lstrip("+-")`
strip_signs : List ℕ → List ℕ
strip_signs [] = []
strip_signs (c ∷ cs) =
    let rest = strip_signs cs in if nat_eq c b'+' || nat_eq c b'-' then rest else c ∷ cs

abbrev starts_with_minus : List ℕ → Bool
starts_with_minus [] = false
starts_with_minus (c ∷ cs) = nat_eq c b'-'

unfoldable pub parse_offset : String → Option ℤ
unfolding strip_signs parse_codes
parse_offset value = elim (parse_codes (strip_signs (codes value))) [
  | none ↦ none
  | some t ↦ some (if starts_with_minus (codes value) then neg (pos t) else pos t)
]

parse_hms_test : parse_hms "07:12:30" ≡ some 25950
unfolding parse_hms
parse_hms_test = refl

parse_hms_junk : parse_hms "24:00:00" ≡ none
unfolding parse_hms
parse_hms_junk = refl

parse_offset_test : parse_offset "-01:00:00" ≡ some (neg (pos 3600))
unfolding parse_offset
parse_offset_test = refl

hms-lt_day : (h m s : Option ℤ) (t : ℕ) → hms h m s ≡ some t → t < day_minutes
unfolding hms
hms-lt_day (some h) (some m) (some s) t e = ground arith
hms-lt_day _ _ _ t e = cc

parse_parts-lt_day :
    (parts : List ℕ × List (List ℕ)) (t : ℕ) → parse_parts parts ≡ some t → t < day_minutes
unfolding parse_parts
parse_parts-lt_day (h, m ∷ s ∷ []) t e = hms-lt_day (int_of h) (int_of m) (int_of s) t e
parse_parts-lt_day _ t e = cc

-- A text that parses is a time of day: its minute lies on the day circle.
pub parse_hms-lt_day : (value : String) (t : ℕ) → parse_hms value ≡ some t → t < day_minutes
unfolding parse_hms
parse_hms-lt_day value t e = parse_parts-lt_day (split_all b':' (codes value)) t e

-- An offset that parses is shorter than a day in either direction.
pub parse_offset-lt_day :
    (value : String) (z : ℤ) → parse_offset value ≡ some z → abs z < day_minutes
unfolding parse_offset
parse_offset-lt_day value z e =
    ground (arith, parse_parts-lt_day (split_all b':' (strip_signs (codes value))))

-- ===== src/Clock.antt =====
-- src/application/clock.mjs: the one spelling of an instant that the Clock port lets through. The
-- tests of decision-log-entry.mjs and commit-receipt.mjs are the same but for how they are split.
pub mod Spelling
pub mod Port
use metaframer_kernel.Base.{
  ℕ, zero, suc, ◌+◌, ◌*◌, ◌-◌, ◌%◌, Bool, true, false, ◌&&◌, ◌||◌, not, Option, none, some, List,
  [], ◌∷◌, ltb, leb, ◌==◌, length, if◌then◌else◌,
}
use metaframer_kernel.Text.{Text}
use metaframer_kernel.Text.Forms.{is_digit, matches_shape, times, literally}

abbrev pub reading_length : ℕ
reading_length = 24

-- `/^\d{4}-\d{2}-\d{2}T\d{2}:\d{2}:\d{2}\.\d{3}Z$/`
abbrev pub reading_shape : List (ℕ → Bool)
reading_shape = times 4 is_digit (
    literally b'-'
    ∷ times 2 is_digit (
        literally b'-'
        ∷ times 2 is_digit (
            literally b'T'
            ∷ times 2 is_digit (
                literally b':'
                ∷ times 2 is_digit (
                    literally b':'
                    ∷ times 2 is_digit
                        (literally b'.' ∷ times 3 is_digit (literally b'Z' ∷ [])))))))

abbrev pub take : ℕ → Text → Text
take zero s = []
take (suc n) [] = []
take (suc n) (c ∷ s) = c ∷ take n s

abbrev pub drop : ℕ → Text → Text
drop zero s = s
drop (suc n) [] = []
drop (suc n) (c ∷ s) = drop n s

-- `Number(digits)`, for a text of decimal digits.
abbrev pub number_from : ℕ → Text → ℕ
number_from acc [] = acc
number_from acc (c ∷ s) = number_from (10 * acc + (c - b'0')) s

-- `Number(candidate.slice(from, from + count))`
abbrev pub number_at : ℕ → ℕ → Text → ℕ
number_at from count s = number_from 0 (take count (drop from s))

unfoldable pub is_leap_year : ℕ → Bool
is_leap_year year = (year % 4 == 0 && not (year % 100 == 0)) || (year % 400 == 0)

-- `MONTH_LENGTHS[month - 1]`, which is only read for a month of 1 to 12.
abbrev pub month_length : ℕ → ℕ
month_length month =
    if month == 2
    then 28
    else if (month == 4) || (month == 6) || (month == 9) || (month == 11)
    then 30
    else 31

unfoldable pub length_of_month : ℕ → ℕ → ℕ
unfolding is_leap_year
length_of_month year month = if month == 2 && is_leap_year year then 29 else month_length month

-- The tests of `namesARealInstant` on the six numbers.
unfoldable pub is_real_time : ℕ → ℕ → ℕ → ℕ → ℕ → ℕ → Bool
is_real_time year month day hour minute second =
    if ltb year 1
    then false
    else if ltb month 1 || ltb 12 month
    then false
    else if ltb day 1 || ltb (length_of_month year month) day
    then false
    else not (ltb 23 hour || ltb 59 minute || ltb 59 second)

-- `namesARealInstant`
unfoldable pub names_a_real_instant : Text → Bool
names_a_real_instant s =
    if not (length s == reading_length) || not (matches_shape reading_shape s)
    then false
    else is_real_time (number_at 0 4 s) (number_at 5 2 s) (number_at 8 2 s) (number_at 11 2 s)
        (number_at 14 2 s) (number_at 17 2 s)

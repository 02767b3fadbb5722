-- ===== src/Clock/Spelling.antt =====
-- The readings that are let through are exactly the spellings of real instants.
use metaframer_kernel.Base.{
  ℕ, ◌+◌, ◌/◌, ◌%◌, ◌≤◌, ◌≡◌, ◌↔◌, ◌⊎◌, refl, sym, Bool, true, List, [], ◌∷◌, arith, length,
}
use metaframer_kernel.Text.{Text}
use metaframer_kernel.Text.Forms.{is_digit, matches_shape, literally}
use metaframer_kernel.Clock.{
  names_a_real_instant, reading_shape, is_real_time, length_of_month, is_leap_year, number_at,
  number_from,
}

pub record Instant : Type 0 where
  pub year : ℕ
  pub month : ℕ
  pub day : ℕ
  pub hour : ℕ
  pub minute : ℕ
  pub second : ℕ
  pub milli : ℕ

-- The Gregorian calendar: every fourth year is a leap year but for those that end a century, of
-- which again every fourth is one.
abbrev pub IsLeap : ℕ → Type 0
IsLeap y = ((y % 4 ≡ 0) × ¬ (y % 100 ≡ 0)) ⊎ (y % 400 ≡ 0)

-- No month has more than 31 days; April, June, September and November have 30; February has 29 in
-- a leap year and else 28.
pub record IsDay (y m d : ℕ) : Type 0 where
  pub at_least : 1 ≤ d
  pub at_most : d ≤ 31
  pub april : m ≡ 4 → d ≤ 30
  pub june : m ≡ 6 → d ≤ 30
  pub september : m ≡ 9 → d ≤ 30
  pub november : m ≡ 11 → d ≤ 30
  pub february : m ≡ 2 → (d ≤ 28) ⊎ ((d ≡ 29) × IsLeap y)

-- A date of the Gregorian calendar in the years 1 to 9999, and a time of day without leap second.
pub record IsReal (t : Instant) : Type 0 where
  pub year_range : (1 ≤ t.year) × (t.year ≤ 9999)
  pub month_range : (1 ≤ t.month) × (t.month ≤ 12)
  pub day_range : IsDay t.year t.month t.day
  pub hour_range : t.hour ≤ 23
  pub minute_range : t.minute ≤ 59
  pub second_range : t.second ≤ 59
  pub milli_range : t.milli ≤ 999

abbrev digit : ℕ → ℕ
digit n = b'0' + n % 10

abbrev two : ℕ → Text → Text
two n s = digit (n / 10) ∷ digit n ∷ s

abbrev three : ℕ → Text → Text
three n s = digit (n / 100) ∷ two n s

abbrev four : ℕ → Text → Text
four n s = digit (n / 1000) ∷ three n s

-- YYYY-MM-DDTHH:MM:SS.sssZ
unfoldable pub spell : Instant → Text
spell t = four t.year (
    b'-'
    ∷ two t.month (
        b'-'
        ∷ two t.day (
            b'T'
            ∷ two t.hour
                (b':' ∷ two t.minute (b':' ∷ two t.second (b'.' ∷ three t.milli (b'Z' ∷ [])))))))

IsDay-le : (y m d : ℕ) → IsDay y m d → d ≤ length_of_month y m
unfolding length_of_month is_leap_year
IsDay-le y m d h = ground (arith, h.at_most, h.april, h.june, h.september, h.november, h.february)

length_of_month-IsDay : (y m d : ℕ) → 1 ≤ d → d ≤ length_of_month y m → IsDay y m d
unfolding length_of_month is_leap_year
length_of_month-IsDay y m d low high = record {
  at_least = low;
  at_most = ground arith;
  april = λ e. ground arith;
  june = λ e. ground arith;
  september = λ e. ground arith;
  november = λ e. ground arith;
  february = λ e. ground arith;
}

digit-is_digit : (n : ℕ) → is_digit (digit n) ≡ true
unfolding is_digit
digit-is_digit n = ground arith

spell-shape : (t : Instant) → matches_shape reading_shape (spell t) ≡ true
unfolding spell matches_shape
spell-shape t = simp digit-is_digit

number_two : (n : ℕ) → n ≤ 99 → number_from 0 (two n []) ≡ n
number_two n h = omega arith

number_four : (n : ℕ) → n ≤ 9999 → number_from 0 (four n []) ≡ n
number_four n h = omega arith

spell-length : (t : Instant) → length (spell t) ≡ 24
unfolding spell
spell-length t = refl

module _ (t : Instant) (r : IsReal t) where
  number_at-year : number_at 0 4 (spell t) ≡ t.year
  unfolding spell
  number_at-year = number_four t.year r.year_range.1

  number_at-month : number_at 5 2 (spell t) ≡ t.month
  unfolding spell
  number_at-month = number_two t.month (omega (arith, r.month_range))

  number_at-day : number_at 8 2 (spell t) ≡ t.day
  unfolding spell
  number_at-day = number_two t.day (omega (arith, r.day_range.at_most))

  number_at-hour : number_at 11 2 (spell t) ≡ t.hour
  unfolding spell
  number_at-hour = number_two t.hour (omega (arith, r.hour_range))

  number_at-minute : number_at 14 2 (spell t) ≡ t.minute
  unfolding spell
  number_at-minute = number_two t.minute (omega (arith, r.minute_range))

  number_at-second : number_at 17 2 (spell t) ≡ t.second
  unfolding spell
  number_at-second = number_two t.second (omega (arith, r.second_range))

spell-is_real_time :
    (t : Instant) → IsReal t → is_real_time t.year t.month t.day t.hour t.minute t.second ≡ true
unfolding is_real_time
spell-is_real_time t r =
    ground (arith, r.day_range.at_least, IsDay-le t.year t.month t.day r.day_range)

pub spell-real : (t : Instant) → IsReal t → names_a_real_instant (spell t) ≡ true
unfolding names_a_real_instant
spell-real t r =
    rw
      (
        spell-shape t,
        spell-length t,
        number_at-year t r,
        number_at-month t r,
        number_at-day t r,
        number_at-hour t r,
        number_at-minute t r,
        number_at-second t r,
      )
      (spell-is_real_time t r)

-- The instant that a text of the shape names.
read_instant : Text → Instant
read_instant s = record {
  year = number_at 0 4 s;
  month = number_at 5 2 s;
  day = number_at 8 2 s;
  hour = number_at 11 2 s;
  minute = number_at 14 2 s;
  second = number_at 17 2 s;
  milli = number_at 20 3 s;
}

pub matches_shape-length :
    (ps : List (ℕ → Bool)) (s : Text) → matches_shape ps s ≡ true → length s ≡ length ps
unfolding matches_shape
matches_shape-length [] [] h = refl
matches_shape-length [] (c ∷ s) h = cc
matches_shape-length (p ∷ ps) [] h = cc
matches_shape-length (p ∷ ps) (c ∷ s) h = omega (arith, matches_shape-length ps s (ground arith))

is_digit_bounds : (c : ℕ) → is_digit c ≡ true → (48 ≤ c) × (c ≤ 57)
unfolding is_digit
is_digit_bounds c h = ground arith

is_character : (c d : ℕ) → literally c d ≡ true → d ≡ c
is_character c d h = ground arith

two_chars :
    (a b : ℕ) (s : Text)
    → is_digit a ≡ true
    → is_digit b ≡ true
    → two (number_from 0 (a ∷ b ∷ [])) s ≡ a ∷ b ∷ s
two_chars a b s ha hb =
    let x = is_digit_bounds a ha in
    let y = is_digit_bounds b hb in
    let first : digit (number_from 0 (a ∷ b ∷ []) / 10) ≡ a = omega arith in
    let second : digit (number_from 0 (a ∷ b ∷ [])) ≡ b = omega arith in cc (first, second)

three_chars :
    (a b c : ℕ) (s : Text)
    → is_digit a ≡ true
    → is_digit b ≡ true
    → is_digit c ≡ true
    → three (number_from 0 (a ∷ b ∷ c ∷ [])) s ≡ a ∷ b ∷ c ∷ s
three_chars a b c s ha hb hc =
    let x = is_digit_bounds a ha in
    let y = is_digit_bounds b hb in
    let z = is_digit_bounds c hc in
    let n = number_from 0 (a ∷ b ∷ c ∷ []) in
    let first : digit (n / 100) ≡ a = omega arith in
    let second : digit (n / 10) ≡ b = omega arith in
    let third : digit n ≡ c = omega arith in cc (first, second, third)

four_chars :
    (a b c d : ℕ) (s : Text)
    → is_digit a ≡ true
    → is_digit b ≡ true
    → is_digit c ≡ true
    → is_digit d ≡ true
    → four (number_from 0 (a ∷ b ∷ c ∷ d ∷ [])) s ≡ a ∷ b ∷ c ∷ d ∷ s
four_chars a b c d s ha hb hc hd =
    let x = is_digit_bounds a ha in
    let y = is_digit_bounds b hb in
    let z = is_digit_bounds c hc in
    let w = is_digit_bounds d hd in
    let n = number_from 0 (a ∷ b ∷ c ∷ d ∷ []) in
    let first : digit (n / 1000) ≡ a = omega arith in
    let second : digit (n / 100) ≡ b = omega arith in
    let third : digit (n / 10) ≡ c = omega arith in
    let fourth : digit n ≡ d = omega arith in cc (first, second, third, fourth)

spell-read_instant : (s : Text) → matches_shape reading_shape s ≡ true → spell (read_instant s) ≡ s
unfolding matches_shape spell read_instant
spell-read_instant
      (y3 ∷ y2 ∷ y1 ∷ y0 ∷ p ∷ m1 ∷ m0 ∷ q ∷ d1 ∷ d0 ∷ t ∷ h1 ∷ h0 ∷ u ∷ n1 ∷ n0 ∷ v ∷ s1 ∷ s0 ∷ w
        ∷ k2 ∷ k1 ∷ k0 ∷ z ∷ [])
      e =
    rw
      (
        four_chars y3 y2 y1 y0 _ (ground arith) (ground arith) (ground arith) (ground arith),
        two_chars m1 m0 _ (ground arith) (ground arith),
        two_chars d1 d0 _ (ground arith) (ground arith),
        two_chars h1 h0 _ (ground arith) (ground arith),
        two_chars n1 n0 _ (ground arith) (ground arith),
        two_chars s1 s0 _ (ground arith) (ground arith),
        three_chars k2 k1 k0 _ (ground arith) (ground arith) (ground arith),
      )
      (cc (
        is_character b'-' p (ground arith),
        is_character b'-' q (ground arith),
        is_character b'T' t (ground arith),
        is_character b':' u (ground arith),
        is_character b':' v (ground arith),
        is_character b'.' w (ground arith),
        is_character b'Z' z (ground arith),
      ))
spell-read_instant s e = absurd (omega (arith, matches_shape-length reading_shape s e))

-- Four digits are at most 9999 and three at most 999.
read_instant-le :
    (s : Text)
    → matches_shape reading_shape s ≡ true
    → ((read_instant s).year ≤ 9999) × ((read_instant s).milli ≤ 999)
unfolding matches_shape read_instant
read_instant-le
      (y3 ∷ y2 ∷ y1 ∷ y0 ∷ p ∷ m1 ∷ m0 ∷ q ∷ d1 ∷ d0 ∷ t ∷ h1 ∷ h0 ∷ u ∷ n1 ∷ n0 ∷ v ∷ s1 ∷ s0 ∷ w
        ∷ k2 ∷ k1 ∷ k0 ∷ z ∷ [])
      e =
    (
      omega (
        arith,
        is_digit_bounds y3 (ground arith),
        is_digit_bounds y2 (ground arith),
        is_digit_bounds y1 (ground arith),
        is_digit_bounds y0 (ground arith),
      ),
      omega (
        arith,
        is_digit_bounds k2 (ground arith),
        is_digit_bounds k1 (ground arith),
        is_digit_bounds k0 (ground arith),
      ),
    )
read_instant-le s e = absurd (omega (arith, matches_shape-length reading_shape s e))

read_instant-IsReal :
    (s : Text)
    → matches_shape reading_shape s ≡ true
    → (let t = read_instant s in is_real_time t.year t.month t.day t.hour t.minute t.second ≡ true)
    → IsReal (read_instant s)
unfolding is_real_time
read_instant-IsReal s e h =
    let (y, k) = read_instant-le s e in
    record {
      year_range = (ground arith, y);
      month_range = (ground arith, ground arith);
      day_range = length_of_month-IsDay _ _ _ (ground arith) (ground arith);
      hour_range = ground arith;
      minute_range = ground arith;
      second_range = ground arith;
      milli_range = k;
    }

real_tests :
    (s : Text)
    → names_a_real_instant s ≡ true
    → (matches_shape reading_shape s ≡ true)
      × (let t = read_instant s in
          is_real_time t.year t.month t.day t.hour t.minute t.second ≡ true)
unfolding names_a_real_instant read_instant
real_tests s h = (ground arith, ground arith)

-- The Clock lets a reading through exactly when it is the 24 characters YYYY-MM-DDTHH:MM:SS.sssZ of
-- a real date of the years 1 to 9999 in the Gregorian calendar, leap years included, and of a time
-- of day from 00:00:00.000 to 23:59:59.999.
pub names_a_real_instant_iff :
    (s : Text) → (names_a_real_instant s ≡ true) ↔ ((t : Instant) × IsReal t × (s ≡ spell t))
names_a_real_instant_iff s = (
  (λ h.
      let (shape, time) = real_tests s h in
      (read_instant s, read_instant-IsReal s shape time, sym (spell-read_instant s shape))),
  (λ w. rw (w.2) (spell-real w.0 w.1)),
)

-- ===== src/App/Dates.antt =====
-- internal/app/service.go: `defaultDate`, with what it uses of time.Parse for YYYY-MM-DD.
use proxmox_license_proxy.Prelude.{
  ℕ, ◌+◌, ◌-◌, ◌*◌, ◌%◌, Text, bytes, equal, Bool, true, false, not, ◌&&◌, ◌||◌, [], ◌∷◌, all, leb,
  ◌==◌, ◌≡◌, refl, if◌then◌else◌,
}
use proxmox_license_proxy.Result.{Error, Result, ok, err}

is_digit : ℕ → Bool
is_digit c = leb b'0' c && leb c b'9'

digit : ℕ → ℕ
digit c = c - b'0'

is_leap : ℕ → Bool
is_leap year = year % 4 == 0 && (not (year % 100 == 0) || year % 400 == 0)

days_in : ℕ → ℕ → ℕ
unfolding is_leap
days_in month year =
    if month == 2
    then if is_leap year then 29 else 28
    else if month == 4 || month == 6 || month == 9 || month == 11
    then 30
    else 31

valid_day : ℕ → ℕ → ℕ → Bool
unfolding days_in
valid_day year month day = leb 1 month && leb month 12 && leb 1 day && leb day (days_in month year)

-- Whether time.Parse("2006-01-02", raw) returns no error: four, two and two digits between
-- dashes, that name a day of the calendar.
unfoldable pub valid_date : Text → Bool
unfolding is_digit digit valid_day
valid_date (y ∷ y' ∷ y'' ∷ y''' ∷ s ∷ m ∷ m' ∷ s' ∷ d ∷ d' ∷ []) =
    all is_digit (y ∷ y' ∷ y'' ∷ y''' ∷ m ∷ m' ∷ d ∷ d' ∷ [])
    && s == b'-'
    && s' == b'-'
    && valid_day (digit y * 1000 + digit y' * 100 + digit y'' * 10 + digit y''')
        (digit m * 10 + digit m') (digit d * 10 + digit d')
valid_date _ = false

-- `wrong` is the error that the caller makes of a date that does not parse.
unfoldable pub default_date : (Text → Error) → Text → Text → Result Text
default_date wrong raw fallback =
    if equal raw [] then ok fallback else if valid_date raw then ok raw else err (wrong raw)

leap_days :
    (valid_date (bytes "2024-02-29") ≡ true)
    × (valid_date (bytes "2023-02-29") ≡ false)
    × (valid_date (bytes "2024-2-01") ≡ false)
unfolding valid_date
leap_days = (refl, refl, refl)

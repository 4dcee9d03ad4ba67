-- ===== src/Auth/Otp.antt =====
-- `OtpService` (src/auth/services/otp.service.ts). An instant counts milliseconds.
use Prim.Native.Char.{Char, code}
use Prim.Native.String.{String}
use be_lumbung_mesari.Prelude.{
  ℕ, zero, suc, true, false, ◌+◌, ◌*◌, ◌/◌, ◌%◌, ltb, leb, ◌==◌, ◌&&◌, Bool, List, [], ◌∷◌, length,
  every, if◌then◌else◌,
}

-- The code points of a text.
abbrev pub codes : String → List ℕ
codes String.[] = []
codes (String.◌∷◌ c s) = code c ∷ codes s

-- `\d`
abbrev pub is_digit : ℕ → Bool
is_digit c = leb b'0' c && leb c b'9'

-- `/^\d{6}$/`
unfoldable pub is_valid_otp_format : String → Bool
is_valid_otp_format otp = length (codes otp) == 6 && every is_digit (codes otp)

abbrev pub digit : ℕ → Char
digit d =
    if d == 0
    then "0"
    else if d == 1
    then "1"
    else if d == 2
    then "2"
    else if d == 3
    then "3"
    else if d == 4
    then "4"
    else if d == 5
    then "5"
    else if d == 6
    then "6"
    else if d == 7
    then "7"
    else if d == 8
    then "8"
    else "9"

-- The decimal digits of a number before the text `written`, the last digit first; a number has fewer
-- digits than `fuel` if it is below `fuel`.
unfoldable pub decimal_from : ℕ → ℕ → String → String
decimal_from zero n written = written
decimal_from (suc fuel) n written = elim (ltb n 10) [
  | true ↦ String.◌∷◌ (digit n) written
  | false ↦ decimal_from fuel (n / 10) (String.◌∷◌ (digit (n % 10)) written)
]

-- `n.toString()`
unfoldable pub decimal : ℕ → String
unfolding decimal_from
decimal n = decimal_from (n + 1) n String.[]

-- `random_int` is the call of `randomInt` of node:crypto, with its least number and its bound.
unfoldable pub generate_otp : (ℕ → ℕ → ℕ) → String
unfolding decimal
generate_otp random_int = decimal (random_int 100000 999999)

abbrev pub minute : ℕ
minute = 60000

abbrev pub get_otp_expiration_time : ℕ → ℕ
get_otp_expiration_time now = now + 5 * minute

abbrev pub is_otp_expired : ℕ → ℕ → Bool
is_otp_expired now expires_at = ltb expires_at now

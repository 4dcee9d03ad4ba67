-- ===== src/Auth/Codes.antt =====
-- The one-time passwords that are drawn, and their format.
use Prim.Native.Char.{Char, code}
use Prim.Native.String.{String}
use be_lumbung_mesari.Prelude.{
  ℕ, zero, suc, ap, ◌∙◌, every, length, ltb, Bool-cases, inl, inr, ◌+◌, ◌*◌, ◌-◌, ◌/◌, ◌%◌, ◌≤◌,
  ◌<◌, ◌≡◌, refl, Bool, true, false, List, [], ◌∷◌, ◌==◌, if◌then◌else◌, arith,
}
use be_lumbung_mesari.Auth.Otp.{
  codes, digit, is_digit, decimal_from, is_valid_otp_format, generate_otp, decimal,
}

-- A digit below the one tested.
module _ (d : ℕ) where
  branch :
      (k : ℕ) (x y : Char)
      → ((d == k) ≡ true → code x ≡ b'0' + d)
      → ((d == k) ≡ false → code y ≡ b'0' + d)
      → code (if d == k then x else y) ≡ b'0' + d
  branch k x y p q = split (d == k) p q
    where
      split :
          (b : Bool)
          → (b ≡ true → code x ≡ b'0' + d)
          → (b ≡ false → code y ≡ b'0' + d)
          → code (if b then x else y) ≡ b'0' + d
      split true p q = p refl
      split false p q = q refl

  code-digit : d < 10 → code (digit d) ≡ b'0' + d
  code-digit h =
      branch 0 _ _ (λ e. ground (arith, e))
        (λ n0.
          branch 1 _ _ (λ e. ground (arith, e))
            (λ n1.
              branch 2 _ _ (λ e. ground (arith, e))
                (λ n2.
                  branch 3 _ _ (λ e. ground (arith, e))
                    (λ n3.
                      branch 4 _ _ (λ e. ground (arith, e))
                        (λ n4.
                          branch 5 _ _ (λ e. ground (arith, e))
                            (λ n5.
                              branch 6 _ _ (λ e. ground (arith, e))
                                (λ n6.
                                  branch 7 _ _ (λ e. ground (arith, e))
                                    (λ n7.
                                      branch 8 _ _ (λ e. ground (arith, e))
                                        (λ n8. ground arith)))))))))

  digit_in_range : d < 10 → is_digit (code (digit d)) ≡ true
  digit_in_range h = let c = code-digit h in ground (arith, c)

-- The number that a text of digits writes, after the digits already read.
abbrev pub number_of : ℕ → List ℕ → ℕ
number_of n [] = n
number_of n (c ∷ cs) = number_of (n * 10 + (c - b'0')) cs

-- The digits of a number, written before a text, read back as the number before what the text
-- writes.
decimal_from-read :
    (fuel n : ℕ) (written : String)
    → n < fuel
    → number_of 0 (codes (decimal_from fuel n written)) ≡ number_of n (codes written)
unfolding decimal_from
decimal_from-read zero n written h = absurd (omega (arith, h))
decimal_from-read (suc fuel) n written h = elim (Bool-cases (ltb n 10)) [
  | inl t ↦
      let value : 0 * 10 + (code (digit n) - b'0') ≡ n =
        let c = code-digit n (ground (arith, t)) in omega (arith, c) in
      rw (decimal_from, t) (ap (λ k. number_of k (codes written)) value)
  | inr f ↦
      let value : n / 10 * 10 + (code (digit (n % 10)) - b'0') ≡ n =
        let c = code-digit (n % 10) (omega arith) in omega (arith, c) in
      let rest =
        decimal_from-read fuel (n / 10) (String.◌∷◌ (digit (n % 10)) written)
          (ground (arith, f, h)) in
      rw (decimal_from, f) (rest ∙ ap (λ k. number_of k (codes written)) value)
]

decimal_from-digits :
    (fuel n : ℕ) (written : String)
    → every is_digit (codes written) ≡ true
    → every is_digit (codes (decimal_from fuel n written)) ≡ true
unfolding decimal_from
decimal_from-digits zero n written v = v
decimal_from-digits (suc fuel) n written v = elim (Bool-cases (ltb n 10)) [
  | inl t ↦ let d = digit_in_range n (ground (arith, t)) in rw (decimal_from, t, d) v
  | inr f ↦
      let d = digit_in_range (n % 10) (omega arith) in
      rw (decimal_from, f)
        (decimal_from-digits fuel (n / 10) (String.◌∷◌ (digit (n % 10)) written) (rw d v))
]

abbrev power_of_ten : ℕ → ℕ
power_of_ten zero = 1
power_of_ten (suc k) = 10 * power_of_ten k

power_of_ten-positive : (k : ℕ) → 1 ≤ power_of_ten k
power_of_ten-positive zero = omega arith
power_of_ten-positive (suc k) = let h = power_of_ten-positive k in omega (arith, h)

-- A number from 10 ^ k on and below 10 ^ (k + 1) has k + 1 digits.
decimal_from-length :
    (k fuel n : ℕ) (written : String)
    → n < fuel
    → power_of_ten k ≤ n
    → n < 10 * power_of_ten k
    → length (codes (decimal_from fuel n written)) ≡ k + 1 + length (codes written)
unfolding decimal_from
decimal_from-length k zero n written h l u = absurd (omega (arith, h))
decimal_from-length zero (suc fuel) n written h l u =
    let small : ltb n 10 ≡ true = ground (arith, u) in rw (decimal_from, small) (omega arith)
decimal_from-length (suc k) (suc fuel) n written h l u =
    let t = power_of_ten k in
    let one = power_of_ten-positive k in
    let large : ltb n 10 ≡ false = ground (arith, l, one) in
    let rest =
      decimal_from-length k fuel (n / 10) (String.◌∷◌ (digit (n % 10)) written)
        (omega (arith, h, l, one)) (omega (arith, l)) (omega (arith, u)) in
    rw (decimal_from, large) (omega (arith, rest))

-- What node:crypto promises of `randomInt`: it draws from the least number on and below the bound.
abbrev pub IsRandomInt : (ℕ → ℕ → ℕ) → Type 0
IsRandomInt random_int =
    (least bound : ℕ)
    → least < bound
    → (least ≤ random_int least bound) × (random_int least bound < bound)

-- If randomInt draws within its bounds, a one-time password passes the format check of verifyOtp,
-- and reads back as the number that was drawn.
pub generate_otp-read :
    (random_int : ℕ → ℕ → ℕ)
    → IsRandomInt random_int
    → (is_valid_otp_format (generate_otp random_int) ≡ true)
      × (number_of 0 (codes (generate_otp random_int)) ≡ random_int 100000 999999)
unfolding is_valid_otp_format generate_otp decimal
generate_otp-read random_int draws =
    let drawn = random_int 100000 999999 in
    let (least, most) = draws 100000 999999 (omega arith) in
    let six =
      decimal_from-length 5 (drawn + 1) drawn String.[] (omega arith) (omega (arith, least))
        (omega (arith, most)) in
    let digits = decimal_from-digits (drawn + 1) drawn String.[] refl in
    (
      rw (is_valid_otp_format, generate_otp, decimal, six, digits) refl,
      decimal_from-read (drawn + 1) drawn String.[] (omega arith),
    )

-- ===== src/Loans/Rounding.antt =====
-- `roundUpToNearest500Or1000` (src/loans/utils.ts), on fractions of a rupiah: `unit` of them make
-- one rupiah, so that a quotient is rounded without losing digits.
use native.Mathlib.Decide.{dec_le}
use native.Mathlib.Nat.{mod-lt, mul-le-mul_right}
use be_lumbung_mesari.Prelude.{
  ℕ, ◌+◌, ◌-◌, ◌*◌, ◌/◌, ◌%◌, ◌≤◌, ◌<◌, ◌≡◌, ◌||◌, ◌==◌, ltb, if◌then◌else◌, arith,
}

unfoldable pub round_up_to_nearest_500_or_1000 : ℕ → ℕ → ℕ
round_up_to_nearest_500_or_1000 unit amount =
    let remainder = amount % (1000 * unit) in
    if remainder == 0 || remainder == 500 * unit
    then amount
    else if ltb remainder (500 * unit)
    then amount + (500 * unit - remainder)
    else amount + (1000 * unit - remainder)

-- How many steps of 500 rupiah the last thousand takes.
abbrev steps : ℕ → ℕ → ℕ
steps step remainder = if remainder == 0 then 0 else if ltb step remainder then 2 else 1

split_thousand : (u a : ℕ) → 2 * (500 * u) * (a / (1000 * u)) + a % (1000 * u) ≡ a
split_thousand u a = grind arith

round_up-steps :
    (u a : ℕ)
    → 0 < u
    → round_up_to_nearest_500_or_1000 u a
      ≡ (2 * (a / (1000 * u)) + steps (500 * u) (a % (1000 * u))) * (500 * u)
unfolding round_up_to_nearest_500_or_1000
round_up-steps u a h = ground (arith, split_thousand u a, mod-lt a {m = 1000 * u} (omega arith))

-- The result is not below the amount, less than 500 rupiah above it, and a multiple of 500 rupiah.
round_up_bounds :
    (u a : ℕ)
    → 0 < u
    → (a ≤ round_up_to_nearest_500_or_1000 u a)
      × (round_up_to_nearest_500_or_1000 u a < a + 500 * u)
unfolding round_up_to_nearest_500_or_1000
round_up_bounds u a h = grind arith

le_of_mul_lt : (k m w : ℕ) → k * w < m * w + w → k * w ≤ m * w
le_of_mul_lt k m w h = elim (dec_le k m) [
  | yes p ↦ mul-le-mul_right w p
  | no p ↦ let q : m + 1 ≤ k = omega arith in absurd (omega (arith, h, mul-le-mul_right w q))
]

-- With a unit that is not zero, the rounded amount is the least multiple of 500 rupiah that is not
-- below the amount.
pub round_up_least :
    (u a : ℕ)
    → 0 < u
    → (k : ℕ) × (round_up_to_nearest_500_or_1000 u a ≡ k * (500 * u))
      × (a ≤ k * (500 * u))
      × ((m : ℕ) → a ≤ m * (500 * u) → k * (500 * u) ≤ m * (500 * u))
round_up_least u a h =
    let k = 2 * (a / (1000 * u)) + steps (500 * u) (a % (1000 * u)) in
    let e = round_up-steps u a h in
    let b = round_up_bounds u a h in
    (k, e, rw (← e) b.0, λ m above. le_of_mul_lt k m (500 * u) (rw (← e) (omega (arith, b.1))))

-- With a unit that is not zero, rounding twice is rounding once.
round_up_idempotent :
    (u a : ℕ)
    → 0 < u
    → round_up_to_nearest_500_or_1000 u (round_up_to_nearest_500_or_1000 u a)
      ≡ round_up_to_nearest_500_or_1000 u a
round_up_idempotent u a h =
    let (k, e, above, least) = round_up_least u a h in
    let r = round_up_to_nearest_500_or_1000 u a in
    let (k', e', above', least') = round_up_least u r h in
    let below = least' k (omega (arith, e)) in omega (arith, e, e', above', below)

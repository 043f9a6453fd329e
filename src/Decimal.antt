-- ===== src/Decimal.antt =====
-- `decimal.Decimal` as ingestion/schemas.py uses it: a coefficient over a power of ten, an infinity or
-- NaN. `none` is decimal.InvalidOperation. Sums and products are exact: the rounding of those with
-- more than the 28 digits of Python's default context is left out.
use vault_recon_ai.Prelude.{
  Bool, Option, false, if◌then◌else◌, ltb, none, not, some, suc, true, ℕ, ◌*◌, ◌+◌, ◌/◌, ◌==◌, ◌^◌,
}
use vault_recon_ai.Prelude.Int.{negsuc, pos, ℤ, ◌*ℤ◌, ◌+ℤ◌, ◌-ℤ◌}

unfoldable pub scale : ℤ → ℕ → ℤ
scale c e = c *ℤ pos (10 ^ e)

-- The value is the coefficient / 10 ^ places; an infinity is negative or not.
pub data Decimal : Type 0 where
  finite : ℤ → ℕ → Decimal
  infinite : Bool → Decimal
  not_a_number : Decimal

abbrev is_negative : ℤ → Bool
is_negative (pos n) = false
is_negative (negsuc n) = true

abbrev is_zero : ℤ → Bool
is_zero (pos n) = n == 0
is_zero (negsuc n) = false

abbrev differ : Bool → Bool → Bool
differ a b = if a then not b else b

-- An infinity times a number.
abbrev times_infinite : Bool → ℤ → Option Decimal
times_infinite negative c =
    if is_zero c then none else some (infinite (differ negative (is_negative c)))

-- a * b
unfoldable pub decimal_mul : Decimal → Decimal → Option Decimal
decimal_mul not_a_number b = some not_a_number
decimal_mul (finite c e) not_a_number = some not_a_number
decimal_mul (infinite s) not_a_number = some not_a_number
decimal_mul (finite c e) (finite k f) = some (finite (c *ℤ k) (e + f))
decimal_mul (finite c e) (infinite s) = times_infinite s c
decimal_mul (infinite s) (finite k f) = times_infinite s k
decimal_mul (infinite s) (infinite t) = some (infinite (differ s t))

-- a + b
unfoldable pub decimal_add : Decimal → Decimal → Option Decimal
unfolding scale
decimal_add not_a_number b = some not_a_number
decimal_add (finite c e) not_a_number = some not_a_number
decimal_add (infinite s) not_a_number = some not_a_number
decimal_add (finite c e) (finite k f) = some (finite (scale c f +ℤ scale k e) (e + f))
decimal_add (finite c e) (infinite s) = some (infinite s)
decimal_add (infinite s) (finite k f) = some (infinite s)
decimal_add (infinite s) (infinite t) = if differ s t then none else some (infinite s)

-- -a, and a - b
abbrev opposite : Decimal → Decimal
opposite (finite c e) = finite (pos 0 -ℤ c) e
opposite (infinite s) = infinite (not s)
opposite not_a_number = not_a_number

unfoldable pub decimal_sub : Decimal → Decimal → Option Decimal
unfolding decimal_add
decimal_sub a b = decimal_add a (opposite b)

-- a / Decimal("100")
unfoldable pub percent : Decimal → Decimal
percent (finite c e) = finite c (e + 2)
percent (infinite s) = infinite s
percent not_a_number = not_a_number

-- The magnitude m / unit in hundredths, a tie going away from zero.
unfoldable pub half_up : ℕ → ℕ → ℕ
half_up m unit = (2 * (m * 100) + unit) / (2 * unit)

-- A magnitude in hundredths, if it has at most 28 digits.
abbrev cents : (ℕ → ℤ) → ℕ → Option Decimal
cents sign n = if ltb n (10 ^ 28) then some (finite (sign n) 2) else none

-- a.quantize(Decimal("0.01"), rounding=ROUND_HALF_UP).
unfoldable pub quantize_cents : Decimal → Option Decimal
unfolding half_up
quantize_cents (finite (pos n) e) = cents (λ m. pos m) (half_up n (10 ^ e))
quantize_cents (finite (negsuc n) e) = cents (λ m. pos 0 -ℤ pos m) (half_up (suc n) (10 ^ e))
quantize_cents (infinite s) = none
quantize_cents not_a_number = some not_a_number

-- ===== src/Float/Micro.antt =====
-- An instance of `Float` that runs: whole millionths, with division rounded towards zero.
use vault_recon_ai.Prelude.{
  Bool, Option, [], false, if◌then◌else◌, is_empty, leb, none, not, some, suc, true, ℕ, ◌&&◌, ◌*◌,
  ◌+◌, ◌-◌, ◌/◌, ◌==◌, ◌^◌, ◌∷◌,
}
use vault_recon_ai.Decimal.{Decimal, finite, infinite, not_a_number}
use vault_recon_ai.Float.{Float}
use vault_recon_ai.Prelude.Int.{leb_ℤ, ltb_ℤ, negsuc, pos, ℤ, ◌*ℤ◌, ◌+ℤ◌, ◌-ℤ◌}
use vault_recon_ai.Text.{Text, show_nat}

abbrev one : ℕ
one = 1_000_000

abbrev pub Micro : Type 0
Micro = ℤ

negate : ℤ → ℤ
negate a = pos 0 -ℤ a

-- Applies a function of magnitudes, and keeps the sign.
signed : (ℕ → ℕ) → ℤ → ℤ
unfolding negate
signed f (pos n) = pos (f n)
signed f (negsuc n) = negate (pos (f (suc n)))

magnitude : ℤ → ℕ
magnitude (pos n) = n
magnitude (negsuc n) = suc n

micro_div : ℤ → ℤ → ℤ
unfolding signed
micro_div a b = elim b [
  | pos n ↦ signed (λ m. m * one / n) a
  | negsuc n ↦ negate (signed (λ m. m * one / suc n) a)
]

micro_round : ℤ → ℕ → ℤ
unfolding signed
micro_round a places =
    let unit = 10 ^ (6 - places) in signed (λ m. (2 * m + unit) / (2 * unit) * unit) a

-- Digits with at most one point: `unit` is one before the point, and falls tenfold after it.
parse_from : ℕ → ℕ → Bool → Text → Option Micro
parse_from n unit fraction [] = some (pos n)
parse_from n unit fraction (c ∷ s) =
    let digit = c - 48 in
    let whole = parse_from (n * 10 + digit * one) one false s in
    let part = parse_from (n + digit * (unit / 10)) (unit / 10) true s in
    let point = parse_from n one true s in
    if leb 48 c && leb c 57
    then (if fraction then part else whole)
    else if c == b'.' && not fraction
    then point
    else none

parse_micro : Text → Option Micro
unfolding parse_from
parse_micro s = if is_empty s then none else parse_from 0 one false s

-- The type has no infinities.
micro_of_decimal : Decimal → Micro
unfolding signed
micro_of_decimal (finite c e) = signed (λ m. m * one / 10 ^ e) c
micro_of_decimal (infinite s) = pos 0
micro_of_decimal not_a_number = pos 0

instance unfoldable pub micro_float : Float Micro
unfolding signed micro_of_decimal magnitude micro_div micro_round parse_micro ◌+ℤ◌ ◌-ℤ◌ ◌*ℤ◌
    show_nat
micro_float = record {
  lit = λ m e. pos (m * one / 10 ^ e);
  of_int = λ a. a *ℤ pos one;
  add = λ a b. a +ℤ b;
  sub = λ a b. a -ℤ b;
  mul = λ a b. signed (λ m. m / one) (a *ℤ b);
  div = micro_div;
  abs = λ a. pos (magnitude a);
  le = leb_ℤ;
  lt = ltb_ℤ;
  round = micro_round;
  show = λ a. show_nat (magnitude a);
  of_text = parse_micro;
  to_decimal = λ a. finite a 6;
  of_decimal = micro_of_decimal;
}
